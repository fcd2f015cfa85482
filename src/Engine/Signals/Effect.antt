-- ===== src/Engine/Signals/Effect.antt =====
-- What the loops of `signalStreamDependents` and `signalStateDependents` change.
use gxo.Prelude.{
  String, Bool, true, false, ◌≡◌, refl, sym, ◌∙◌, subst, ◌⊎◌, inl, inr, ◌&&◌, List, [], ◌∷◌, some,
  arith, Bool-cases, Option-cases, if◌then◌else◌, ◌==◌, eq_iff, contains, contains-append, IsNodup,
}
use gxo.Prelude.Dict.{get}
use gxo.Dag.Defs.{Node, map_node, get-update_node}
use gxo.Engine.Defs.{Engine}
use gxo.Engine.Signals.{is_task_ready, lower, signal_dependent, signal_loop}

-- `e'` differs from `e` in the graph and in the ready channel alone.
abbrev pub OnlySignals : Engine → Engine → Type 0
OnlySignals e e' = e' ≡ record e { dag = e'.dag; ready_chan = e'.ready_chan }

-- A node with both counters at 0.
abbrev pub IsReadyIn : Engine → String → Type 0
IsReadyIn e k = (node : Node) × (get k e.dag.nodes ≡ some node) × (is_task_ready node ≡ true)

module _ (deps : Node → List String) (met : Node → Node) (test : Node → Bool) (id : String) where
  abbrev pub one : String → Engine → Engine
  one d e = signal_dependent deps met test id d e

  abbrev pub all : List String → Engine → Engine
  all ds e = signal_loop deps met test id ds e

  pub one_dag :
      (d k : String) (e : Engine)
      → get k (one d e).dag.nodes ≡ (
          if d == k
          then map_node (lower deps met test id) (get k e.dag.nodes)
          else get k e.dag.nodes)
  unfolding signal_dependent
  one_dag d k e = ground (arith, eq_iff d k, get-update_node d k (lower deps met test id) e.dag)

  one-OnlySignals : (d : String) (e : Engine) → OnlySignals e (one d e)
  unfolding signal_dependent
  one-OnlySignals d e = ground arith

  -- A task that the round sends is ready afterwards.
  sent_ready :
      (d k : String) (e : Engine) (node : Node)
      → get d e.dag.nodes ≡ some node
      → contains id (deps node) ≡ true
      → is_task_ready (met node) ≡ true
      → d ≡ k
      → IsReadyIn (one d e) k
  sent_ready d k e node present dep r same =
      (met node, ground (arith, one_dag d k e, eq_iff d k), r)

  one_ready :
      (d k : String) (e : Engine)
      → contains k (one d e).ready_chan ≡ true
      → (contains k e.ready_chan ≡ true) ⊎ ((d ≡ k) × IsReadyIn (one d e) k)
  one_ready d k e h = elim (Option-cases (get d e.dag.nodes)) [
    | inl absent ↦ inl (unfold signal_dependent in ground arith)
    | inr (node, present) ↦ elim (Bool-cases (contains id (deps node))) [
      | inl dep ↦ elim (Bool-cases (is_task_ready (met node))) [
        | inl r ↦ elim (Bool-cases (contains k e.ready_chan)) [
          | inl old ↦ inl old
          | inr new ↦
              let same : d ≡ k =
                unfold signal_dependent contains in
                ground (arith, contains-append k e.ready_chan (d ∷ []), eq_iff d k) in
              inr (same, sent_ready d k e node present dep r same)
        ]
        | inr r ↦ inl (unfold signal_dependent in ground arith)
      ]
      | inr dep ↦ inl (unfold signal_dependent in ground arith)
    ]
  ]

  pub all-OnlySignals : (ds : List String) (e : Engine) → OnlySignals e (all ds e)
  unfolding signal_loop
  all-OnlySignals [] e = refl
  all-OnlySignals (d ∷ ds) e = cc (all-OnlySignals ds (one d e), one-OnlySignals d e)

  pub all_dag :
      (ds : List String) (k : String) (e : Engine)
      → IsNodup ds
      → get k (all ds e).dag.nodes ≡ (
          if contains k ds
          then map_node (lower deps met test id) (get k e.dag.nodes)
          else get k e.dag.nodes)
  unfolding signal_loop contains
  all_dag [] k e n = refl
  all_dag (d ∷ ds) k e n =
      ground (arith, eq_iff d k, all_dag ds k (one d e) n.1, one_dag d k e, n.0)

  pub all_ready :
      (ds : List String) (k : String) (e : Engine)
      → IsNodup ds
      → contains k (all ds e).ready_chan ≡ true
      → (contains k e.ready_chan ≡ true) ⊎ IsReadyIn (all ds e) k
  unfolding signal_loop
  all_ready [] k e n h = inl h
  all_ready (d ∷ ds) k e n h = elim (all_ready ds k (one d e) n.1 h) [
    | inl before ↦ elim (one_ready d k e before) [
      | inl old ↦ inl old
      | inr (same, (node, here, r)) ↦
          let absent : contains k ds ≡ false = subst (λ x. contains x ds ≡ false) same n.0 in
          inr (node, all_dag ds k (one d e) n.1 ∙ rw absent here, r)
    ]
    | inr found ↦ inr found
  ]

  one_grows :
      (d k : String) (e : Engine)
      → contains k e.ready_chan ≡ true
      → contains k (one d e).ready_chan ≡ true
  unfolding signal_dependent
  one_grows d k e h = ground (arith, contains-append k e.ready_chan (d ∷ []))

  pub all_grows :
      (ds : List String) (k : String) (e : Engine)
      → contains k e.ready_chan ≡ true
      → contains k (all ds e).ready_chan ≡ true
  unfolding signal_loop
  all_grows [] k e h = h
  all_grows (d ∷ ds) k e h = all_grows ds k (one d e) (one_grows d k e h)

  one_sends :
      (d : String) (e : Engine) (node : Node)
      → get d e.dag.nodes ≡ some node
      → contains id (deps node) ≡ true
      → (test (met node) && is_task_ready (met node)) ≡ true
      → contains d (one d e).ready_chan ≡ true
  unfolding signal_dependent contains
  one_sends d e node here dep r =
      ground (arith, contains-append d e.ready_chan (d ∷ []), eq_iff d d)

  -- A dependent that becomes ready by the loop is sent.
  pub all_sends :
      (ds : List String) (k : String) (e : Engine) (node : Node)
      → IsNodup ds
      → contains k ds ≡ true
      → get k e.dag.nodes ≡ some node
      → contains id (deps node) ≡ true
      → (test (met node) && is_task_ready (met node)) ≡ true
      → contains k (all ds e).ready_chan ≡ true
  unfolding signal_loop contains
  all_sends [] k e node n c here dep r = cc
  all_sends (d ∷ ds) k e node n c here dep r = elim (Bool-cases (d == k)) [
    | inl same ↦
        let is : d ≡ k = (eq_iff d k).0 same in
        all_grows ds k (one d e) (
          subst (λ x. contains x (one d e).ready_chan ≡ true) is
            (one_sends d e node (subst (λ x. get x e.dag.nodes ≡ some node) (sym is) here) dep r))
    | inr other ↦
        all_sends ds k (one d e) node n.1 (ground arith) (ground (arith, one_dag d k e)) dep r
  ]
