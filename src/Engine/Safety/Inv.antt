-- ===== src/Engine/Safety/Inv.antt =====
-- The invariant of a run, and what it says of the tasks that have been dispatched.
use gxo.Prelude.{String, Bool, true, false, ◌≡◌, ◌⊎◌, Option, none, some, arith, contains, is_some}
use gxo.Prelude.Dict.{get}
use gxo.Dag.Defs.{TaskStatus, Node}
use gxo.Engine.Defs.{Engine, is_done, is_pending}
use gxo.Engine.Signals.Effect.{IsReadyIn}
use gxo.Engine.Safety.Unmet.{met_of_zero}
use gxo.Engine.Safety.Stage.{Graph}

abbrev pub is_done? : Option TaskStatus → Bool
is_done? none = false
is_done? (some s) = is_done s

-- The task has been dispatched.
abbrev pub started : Engine → String → Bool
started e k = contains k e.dispatched_tasks

-- The task is completed or skipped.
abbrev pub done : Engine → String → Bool
done e k = is_done? (get k e.task_statuses)

pub record Inv (e : Engine) : Type 0 where
  pub graph : Graph (started e) (done e) e.dag
  -- what waits in the ready channel, or has left it, has its dependencies met
  pub waiting : (k : String) → contains k e.ready_chan ≡ true → IsReadyIn e k
  pub begun : (k : String) → contains k e.dispatched_tasks ≡ true → IsReadyIn e k
  -- no task that could run is forgotten
  pub woken :
      (k : String)
      → IsReadyIn e k
      → (contains k e.ready_chan ≡ true) ⊎ (contains k e.dispatched_tasks ≡ true)
  pub tracked :
      (k : String) (n : Node) → get k e.dag.nodes ≡ some n → is_some (get k e.task_statuses) ≡ true
  pub opened :
      (k : String) (s : TaskStatus)
      → get k e.task_statuses ≡ some s
      → is_pending s ≡ false
      → contains k e.dispatched_tasks ≡ true
  pub queued : (k : String) → contains k e.work_queue ≡ true → contains k e.dispatched_tasks ≡ true
  pub held : (k : String) → contains k e.worker_tasks ≡ true → contains k e.dispatched_tasks ≡ true

-- The dependencies of a dispatched task.
pub record IsInOrder (e : Engine) (k : String) : Type 0 where
  pub node : Node
  pub here : get k e.dag.nodes ≡ some node
  pub streams_started : (p : String) → contains p node.stream_depends_on ≡ true → started e p ≡ true
  pub states_done : (p : String) → contains p node.state_depends_on ≡ true → done e p ≡ true

pub ready-IsInOrder :
    (e : Engine) (k : String) → Graph (started e) (done e) e.dag → IsReadyIn e k → IsInOrder e k
ready-IsInOrder e k g (node, here, r) = record {
  node = node;
  here = here;
  streams_started =
      λ p. met_of_zero (started e) node.stream_depends_on p (ground (arith, g.streams k node here));
  states_done =
      λ p. met_of_zero (done e) node.state_depends_on p (ground (arith, g.states k node here));
}
