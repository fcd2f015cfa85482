-- ===== src/Engine/Safety/Launch.antt =====
-- The graph of a successful `BuildDAG` always has a task to start with.
use gxo.Prelude.{
  ◌<◌, String, true, false, ◌≡◌, refl, sym, ap, ◌∙◌, ◌⊎◌, inl, inr, ◌||◌, List, [], ◌∷◌, Option,
  some, arith, Option-cases, Bool-cases, eq_refl, contains, length,
}
use gxo.Prelude.Dict.{get, is_some-get}
use gxo.Prelude.Int.{to_int32}
use gxo.Errors.{ok}
use gxo.Config.{Playbook}
use gxo.Dag.Defs.{Node, Dag, node_ids, dependents, stream_deps, state_deps}
use gxo.Dag.Cycle.Walks.{Edge}
use gxo.Dag.Build.{is_ready, build_dag}
use gxo.Dag.Build.Built.{IsBuilt, is_built}
use gxo.Engine.Defs.{Engine}
use gxo.Engine.Schedule.{start_run, launch, launched}
use gxo.Engine.Safety.Start.{ids_of, contains-ready_nodes}
use gxo.Engine.Safety.Idle.{nobody_stuck}

module _ (dag : Dag) (initial : List Node) (built : IsBuilt dag initial)
    (none_ready : initial ≡ []) where
  abbrev IsHere : String → Type 0
  IsHere k = contains k (node_ids dag) ≡ true

  no_ready_node : (k : String) (n : Node) → get k dag.nodes ≡ some n → is_ready n ≡ false
  unfolding contains
  no_ready_node k n q = ground (
    arith,
    contains-ready_nodes dag.nodes k built.tidy.distinct (λ j m r. (built.tidy.each j m r).keyed),
    ap (λ ns. contains k (ids_of ns)) (sym built.initial ∙ none_ready),
  )

  -- Every node depends on another node.
  depends : (k : String) → IsHere k → (p : String) × Edge dag p k × IsHere p
  unfolding node_ids dependents stream_deps state_deps contains to_int32
  depends k here = elim (Option-cases (get k dag.nodes)) [
    | inl absent ↦ absurd (ground (arith, is_some-get k dag.nodes))
    | inr (n, q) ↦ elim (first_of n.stream_depends_on) [
      | inr (p, c) ↦
          (p, edge k p n q (ground (arith, c)), known p k (edge k p n q (ground (arith, c))))
      | inl no_streams ↦ elim (first_of n.state_depends_on) [
        | inr (p, c) ↦
            (p, edge k p n q (ground (arith, c)), known p k (edge k p n q (ground (arith, c))))
        | inl no_states ↦
            absurd
              (ground (arith, no_ready_node k n q, built.counters k n q, no_streams, no_states))
      ]
    ]
  ]
    where
      first_of : (ks : List String) → (ks ≡ []) ⊎ ((p : String) × (contains p ks ≡ true))
      first_of [] = inl refl
      first_of (p ∷ ks) = inr (p, unfold contains in ground (arith, eq_refl p))

      edge :
          (k p : String) (n : Node)
          → get k dag.nodes ≡ some n
          → (contains p n.stream_depends_on || contains p n.state_depends_on) ≡ true
          → Edge dag p k
      edge k p n q c =
          unfold dependents stream_deps state_deps in ground (arith, built.mirrored p k)

      known : (p k : String) → Edge dag p k → IsHere p
      known p k e = unfold dependents node_ids contains in ground (arith, is_some-get p dag.nodes)

  no_nodes_at_all : (k : String) → contains k (node_ids dag) ≡ false
  no_nodes_at_all k = elim (Bool-cases (contains k (node_ids dag))) [
    | inr no_key ↦ no_key
    | inl key ↦ absurd (nobody_stuck dag built.acyclic IsHere (λ j h. h) depends k key)
  ]

-- On the graph of a successful `BuildDAG` that has a node, the start of a run does not report that
-- there are no initially ready tasks: the loop starts.
pub launch_succeeds :
    (extract : String → Option (List String)) (playbook : Playbook) (dag : Dag)
    (initial : List Node) (e : Engine)
    → build_dag extract playbook ≡ ok (dag, initial)
    → 0 < length (node_ids dag)
    → launch dag initial e ≡ launched (start_run dag initial e)
unfolding launch
launch_succeeds extract playbook dag [] e built some_node = absurd (
    no_key (node_ids dag) some_node
      (no_nodes_at_all dag [] (is_built extract playbook dag [] built) refl))
  where
    no_key : (ks : List String) → 0 < length ks → ((k : String) → contains k ks ≡ false) → ⊥
    no_key [] h f = omega arith
    no_key (k ∷ ks) h f = unfold contains in ground (arith, f k, eq_refl k)
launch_succeeds extract playbook dag (node ∷ nodes) e built some_node = ground arith
