-- ===== src/Engine/Safety/Shape.antt =====
-- The fields of the graph that a run leaves alone.
use gxo.Prelude.{
  String, Bool, ◌≡◌, refl, sym, subst, ◌∙◌, inl, inr, List, none, some, arith, Option-cases,
  Bool-cases, if◌then◌else◌, contains, IsNodup,
}
use gxo.Prelude.Dict.{get}
use gxo.Dag.Defs.{Node, Dag, dependents, stream_deps, state_deps}
use gxo.Dag.Build.Edges.{IsMirrored}
use gxo.Dag.Cycle.Walks.{Walk, one, more, IsCyclic}
use gxo.Engine.Defs.{Engine}
use gxo.Engine.Signals.{lower, signal_loop}
use gxo.Engine.Signals.Effect.{all_dag}
use gxo.Engine.Safety.Counted.{before}

pub record SameStatic (a b : Node) : Type 0 where
  pub id : b.id ≡ a.id
  pub task : b.task ≡ a.task
  pub streams : b.stream_depends_on ≡ a.stream_depends_on
  pub states : b.state_depends_on ≡ a.state_depends_on
  pub required : b.required_by ≡ a.required_by

-- What `BuildDAG` makes sure of.
pub record Shape (dag : Dag) : Type 0 where
  pub mirrored : IsMirrored dag
  pub acyclic : ¬ IsCyclic dag
  pub keyed : (k : String) (node : Node) → get k dag.nodes ≡ some node → node.id ≡ k
  pub nodup_required :
      (k : String) (node : Node) → get k dag.nodes ≡ some node → IsNodup node.required_by
  pub nodup_streams :
      (k : String) (node : Node) → get k dag.nodes ≡ some node → IsNodup node.stream_depends_on
  pub nodup_states :
      (k : String) (node : Node) → get k dag.nodes ≡ some node → IsNodup node.state_depends_on

-- Two graphs with the same nodes, up to the counters.
pub record SameGraph (a b : Dag) : Type 0 where
  pub back :
      (k : String) (n : Node)
      → get k b.nodes ≡ some n
      → (m : Node) × (get k a.nodes ≡ some m) × SameStatic m n
  pub forth :
      (k : String) (m : Node)
      → get k a.nodes ≡ some m
      → (n : Node) × (get k b.nodes ≡ some n) × SameStatic m n

module _ (a b : Dag) (same : SameGraph a b) where
  absent : (k : String) → get k a.nodes ≡ none → get k b.nodes ≡ none
  absent k h = elim (Option-cases (get k b.nodes)) [
    | inl e ↦ e
    | inr (n, e) ↦ let (m, here, s) = same.back k n e in absurd (cc)
  ]

  pub dependents_same : (k : String) → dependents b k ≡ dependents a k
  unfolding dependents
  dependents_same k = elim (Option-cases (get k a.nodes)) [
    | inl e ↦ ground (arith, absent k e)
    | inr (m, e) ↦ let (n, here, s) = same.forth k m e in ground (arith, s.required)
  ]

  stream_deps_same : (k : String) → stream_deps b k ≡ stream_deps a k
  unfolding stream_deps
  stream_deps_same k = elim (Option-cases (get k a.nodes)) [
    | inl e ↦ ground (arith, absent k e)
    | inr (m, e) ↦ let (n, here, s) = same.forth k m e in ground (arith, s.streams)
  ]

  state_deps_same : (k : String) → state_deps b k ≡ state_deps a k
  unfolding state_deps
  state_deps_same k = elim (Option-cases (get k a.nodes)) [
    | inl e ↦ ground (arith, absent k e)
    | inr (m, e) ↦ let (n, here, s) = same.forth k m e in ground (arith, s.states)
  ]

  walk_back : {u v : String} → Walk b u v → Walk a u v
  walk_back {u} (one e) = one (rw dependents_same at e)
  walk_back (more w e) = more (walk_back w) (rw dependents_same at e)

  pub SameGraph-Shape : Shape a → Shape b
  SameGraph-Shape h = record {
    mirrored = λ u v.
        ground (arith, h.mirrored u v, dependents_same u, stream_deps_same v, state_deps_same v);
    acyclic = λ (k, w). h.acyclic (k, walk_back w);
    keyed = λ k n e. let (m, here, s) = same.back k n e in s.id ∙ h.keyed k m here;
    nodup_required = λ k n e.
        let (m, here, s) = same.back k n e in
        subst IsNodup (sym s.required) (h.nodup_required k m here);
    nodup_streams = λ k n e.
        let (m, here, s) = same.back k n e in
        subst IsNodup (sym s.streams) (h.nodup_streams k m here);
    nodup_states = λ k n e.
        let (m, here, s) = same.back k n e in
        subst IsNodup (sym s.states) (h.nodup_states k m here);
  }

module _ (deps : Node → List String) (met : Node → Node) (test : Node → Bool)
    (static : (n : Node) → SameStatic n (met n)) (id : String) (ds : List String)
    (nodup_ds : IsNodup ds) (e : Engine) where
  SameStatic-refl : (n : Node) → SameStatic n n
  SameStatic-refl n = record {
    id = refl;
    task = refl;
    streams = refl;
    states = refl;
    required = refl;
  }

  step_static :
      (k : String) (n : Node) → SameStatic n (if contains k ds then lower deps met test id n else n)
  step_static k n = elim (Bool-cases (contains k ds)) [
    | inl is ↦ rw is (elim (Bool-cases (contains id (deps n))) [
      | inl dep ↦ rw dep (static n)
      | inr other ↦ rw other (SameStatic-refl n)
    ])
    | inr not_is ↦ rw not_is (SameStatic-refl n)
  ]

  pub signals-SameGraph : SameGraph e.dag (signal_loop deps met test id ds e).dag
  signals-SameGraph = record {
    back = λ k n h.
        let (m, here, is) = before deps met test id ds nodup_ds e k n h in
        (m, here, subst (SameStatic m) (sym is) (step_static k m));
    forth = λ k m h. (
      (if contains k ds then lower deps met test id m else m),
      ground (arith, all_dag deps met test id ds k e nodup_ds),
      step_static k m,
    );
  }
