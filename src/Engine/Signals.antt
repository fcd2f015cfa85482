-- ===== src/Engine/Signals.antt =====
-- `isTaskReady`, `signalStreamDependents` and `signalStateDependents`.
pub mod Effect
use gxo.Prelude.{
  String, Bool, List, [], ◌∷◌, ◌++◌, ◌&&◌, Option, none, some, if◌then◌else◌, contains,
}
use gxo.Prelude.Dict.{get}
use gxo.Prelude.Int.{is_zero, decrement32}
use gxo.Dag.Defs.{Node, Dag, update_node}
use gxo.Engine.Defs.{Engine}

abbrev pub is_task_ready : Node → Bool
is_task_ready node = is_zero node.stream_deps_remaining && is_zero node.state_deps_remaining

abbrev pub stream_dep_met : Node → Node
stream_dep_met node = record node { stream_deps_remaining = decrement32 node.stream_deps_remaining }

abbrev pub state_dep_met : Node → Node
state_dep_met node = record node { state_deps_remaining = decrement32 node.state_deps_remaining }

-- e.readyChan <- id
abbrev pub send_ready : String → Engine → Engine
send_ready id e = record e { ready_chan = e.ready_chan ++ id ∷ [] }

-- The two loops of the source differ in the dependencies that they look at (`deps`), in the counter
-- that they lower (`met`) and in the counter that they compare with 0 first (`test`).
module _ (deps : Node → List String) (met : Node → Node) (test : Node → Bool) where
  -- The change of a dependent's counter.
  abbrev pub lower : String → Node → Node
  lower id node = if contains id (deps node) then met node else node

  -- One round of the loop, for the dependent `d` of the node `id`.
  unfoldable pub signal_dependent : String → String → Engine → Engine
  signal_dependent id d e = elim (get d e.dag.nodes) [
    | none ↦ e
    | some node ↦
        if contains id (deps node)
        then (let e' = record e { dag = update_node d (lower id) e.dag } in
            if test (met node) && is_task_ready (met node) then send_ready d e' else e')
        else e
  ]

  unfoldable pub signal_loop : String → List String → Engine → Engine
  unfolding signal_dependent
  signal_loop id [] e = e
  signal_loop id (d ∷ ds) e = signal_loop id ds (signal_dependent id d e)

abbrev pub stream_deps_of : Node → List String
stream_deps_of node = node.stream_depends_on

abbrev pub state_deps_of : Node → List String
state_deps_of node = node.state_depends_on

unfoldable pub signal_stream_dependents : Node → Engine → Engine
unfolding signal_loop
signal_stream_dependents node e =
    signal_loop stream_deps_of stream_dep_met (λ n. is_zero n.stream_deps_remaining) node.id
      node.required_by e

unfoldable pub signal_state_dependents : Node → Engine → Engine
unfolding signal_loop
signal_state_dependents node e =
    signal_loop state_deps_of state_dep_met (λ n. is_zero n.state_deps_remaining) node.id
      node.required_by e
