-- ===== src/Engine/Safety/Idle.antt =====
-- A run that has nothing left to do, and in which nothing failed, has done every task.
use gxo.Prelude.{
  ℕ, zero, suc, ◌+◌, ◌<◌, ◌≤◌, String, Bool, true, false, ◌≡◌, ◌≢◌, refl, subst, inl, inr, ◌||◌,
  List, [], ◌∷◌, some, arith, Option-cases, Bool-cases, ◌==◌, eq_iff, eq_refl, contains, length,
  IsNodup, eqb,
}
use gxo.Prelude.Dict.{get, is_some-get}
use gxo.Dag.Defs.{failed, Node, Dag, dependents, stream_deps, state_deps, node_ids}
use gxo.Dag.Cycle.Walks.{Edge, Walk, one, more, IsCyclic}
use gxo.Engine.Defs.{Engine, is_done, is_pending}
use gxo.Engine.Schedule.{remove_one}
use gxo.Engine.Signals.{is_task_ready}
use gxo.Engine.Safety.Unmet.{unmet}
use gxo.Engine.Safety.Inv.{started, done, Inv}
use gxo.Engine.Safety.Kept.{Kept, remove_one_other}

length-remove_one :
    (k : String) (ks : List String)
    → contains k ks ≡ true
    → length (remove_one k ks) + 1 ≡ length ks
unfolding remove_one contains
length-remove_one k [] c = cc
length-remove_one k (j ∷ js) c = ground (arith, length-remove_one k js)

-- Different texts of a list are no more than the list is long.
pub IsNodup-fits :
    (xs ks : List String)
    → IsNodup xs
    → ((x : String) → contains x xs ≡ true → contains x ks ≡ true)
    → length xs ≤ length ks
unfolding contains
IsNodup-fits [] ks n h = omega arith
IsNodup-fits (x ∷ xs) ks n h =
    let rest =
      IsNodup-fits xs (remove_one x ks) n.1
        (λ y c. ground (arith, h y, remove_one_other x y ks, eq_iff x y, n.0)) in
    let shorter = length-remove_one x ks (h x (ground (arith, eq_refl x))) in
    omega (arith, rest, shorter)

walk_before : (dag : Dag) {p k x : String} → Edge dag p k → Walk dag k x → Walk dag p x
walk_before dag e (one f) = more (one e) f
walk_before dag e (more w f) = more (walk_before dag e w) f

-- Going from node to node along the dependencies cannot go on for ever.
module _ (dag : Dag) (acyclic : ¬ IsCyclic dag) (Stuck : String → Type 0)
    (known : (k : String) → Stuck k → contains k (node_ids dag) ≡ true)
    (up : (k : String) → Stuck k → (p : String) × Edge dag p k × Stuck p) where
  climb :
      (n : ℕ) (k : String) (later : List String)
      → length (node_ids dag) < length (k ∷ later) + n
      → Stuck k
      → IsNodup (k ∷ later)
      → ((x : String) → contains x (k ∷ later) ≡ true → contains x (node_ids dag) ≡ true)
      → ((x : String) → contains x later ≡ true → Walk dag k x)
      → ⊥
  unfolding contains
  climb zero k later big s nodup among walks =
      omega (arith, IsNodup-fits (k ∷ later) (node_ids dag) nodup among)
  climb (suc n) k later big s nodup among walks =
      let (p, edge, stuck) = up k s in
      climb n p (k ∷ later) (omega arith) stuck
        (
          elim (Bool-cases (contains p (k ∷ later))) [
            | inl back ↦ absurd (acyclic (p, round p edge back))
            | inr new ↦ new
          ],
          nodup,
        )
        (λ x c. elim (Bool-cases (p == x)) [
          | inl same ↦
              subst (λ y. contains y (node_ids dag) ≡ true) ((eq_iff p x).0 same) (known p stuck)
          | inr other ↦ among x (ground arith)
        ])
        (λ x c. beyond p x edge c)
    where
      beyond : (p x : String) → Edge dag p k → contains x (k ∷ later) ≡ true → Walk dag p x
      beyond p x edge c = elim (Bool-cases (k == x)) [
        | inl same ↦ subst (Walk dag p) ((eq_iff k x).0 same) (one edge)
        | inr other ↦ walk_before dag edge (walks x (unfold contains in ground arith))
      ]

      round : (p : String) → Edge dag p k → contains p (k ∷ later) ≡ true → Walk dag p p
      round p edge c = beyond p p edge c

  pub nobody_stuck : (k : String) → ¬ Stuck k
  unfolding contains
  nobody_stuck k s =
      climb (length (node_ids dag)) k [] (omega arith) s (refl, tt)
        (λ x c.
          subst (λ y. contains y (node_ids dag) ≡ true) ((eq_iff k x).0 (ground arith)) (known k s))
        (λ x c. absurd (cc))

-- What is not met is not met by one of its dependencies.
unmet_by :
    (f : String → Bool) (ks : List String)
    → unmet f ks ≢ 0
    → (p : String) × (contains p ks ≡ true) × (f p ≡ false)
unfolding unmet contains
unmet_by f [] h = absurd (h refl)
unmet_by f (k ∷ ks) h = elim (Bool-cases (f k)) [
  | inr not_met ↦ (k, ground (arith, eq_refl k), not_met)
  | inl met ↦
      let (p, c, not_met) = unmet_by f ks (λ z. h (ground arith)) in (p, ground arith, not_met)
]

-- Nothing waits and no worker is busy.
pub record IsIdle (e : Engine) : Type 0 where
  pub no_ready : e.ready_chan ≡ []
  pub no_queue : e.work_queue ≡ []
  pub no_tasks : e.worker_tasks ≡ []

module _ (e : Engine) (i : Inv e) (h : Kept e) (idle : IsIdle e)
    (no_failure : (k : String) → get k e.task_statuses ≢ some failed) where
  abbrev IsStuck : String → Type 0
  IsStuck k = (contains k (node_ids e.dag) ≡ true) × (done e k ≡ false)

  -- A task that is not done has not been dispatched.
  stuck_pending : (k : String) → IsStuck k → started e k ≡ false
  unfolding node_ids contains is_done is_pending
  stuck_pending k (here, nd) = elim (Option-cases (get k e.dag.nodes)) [
    | inl absent ↦ absurd (ground (arith, is_some-get k e.dag.nodes))
    | inr (n, present) ↦ ground (
      arith,
      i.tracked k n present,
      h.left_pending k,
      h.never_ready k,
      h.busy k,
      no_failure k,
      idle.no_queue,
      idle.no_tasks,
    )
  ]

  not_started_not_done : (p : String) → started e p ≡ false → done e p ≡ false
  unfolding is_done is_pending
  not_started_not_done p q = elim (Option-cases (get p e.task_statuses)) [
    | inl absent ↦ ground arith
    | inr (s, present) ↦ ground (arith, i.opened p s present)
  ]

  -- A dependency that is not done is stuck as well.
  IsStuck-dep :
      (k p : String) (n : Node)
      → get k e.dag.nodes ≡ some n
      → (contains p n.stream_depends_on || contains p n.state_depends_on) ≡ true
      → done e p ≡ false
      → (p : String) × Edge e.dag p k × IsStuck p
  unfolding dependents stream_deps state_deps node_ids contains
  IsStuck-dep k p n present dep nd =
      let edge : Edge e.dag p k = ground (arith, i.graph.shape.mirrored p k) in
      (p, edge, (ground (arith, is_some-get p e.dag.nodes), nd))

  not_ready :
      (k : String) (n : Node) → get k e.dag.nodes ≡ some n → IsStuck k → is_task_ready n ≡ false
  unfolding contains
  not_ready k n present s = elim (Bool-cases (is_task_ready n)) [
    | inr r ↦ r
    | inl r ↦ elim (i.woken k (n, present, r)) [
      | inl w ↦ ground (arith, idle.no_ready)
      | inr d ↦ ground (arith, stuck_pending k s)
    ]
  ]

  IsStuck-up : (k : String) → IsStuck k → (p : String) × Edge e.dag p k × IsStuck p
  unfolding node_ids
  IsStuck-up k s = elim (Option-cases (get k e.dag.nodes)) [
    | inl absent ↦ absurd (ground (arith, is_some-get k e.dag.nodes, s))
    | inr (n, present) ↦
        let nr = not_ready k n present s in
        elim (Bool-cases (eqb (unmet (started e) n.stream_depends_on) 0)) [
          | inr open_streams ↦
              let (p, c, ns) = unmet_by (started e) n.stream_depends_on (λ z. ground arith) in
              IsStuck-dep k p n present (ground arith) (not_started_not_done p ns)
          | inl no_streams ↦
              let (p, c, nd) =
                unmet_by (done e) n.state_depends_on
                  (λ z. ground (arith, i.graph.streams k n present, i.graph.states k n present)) in
              IsStuck-dep k p n present (ground arith) nd
        ]
  ]

  pub idle_done : (k : String) (node : Node) → get k e.dag.nodes ≡ some node → done e k ≡ true
  unfolding node_ids
  idle_done k node q = elim (Bool-cases (done e k)) [
    | inl is ↦ is
    | inr nd ↦ absurd (
        nobody_stuck e.dag i.graph.shape.acyclic IsStuck (λ j s. s.0) IsStuck-up k
          (ground (arith, is_some-get k e.dag.nodes), nd))
  ]
