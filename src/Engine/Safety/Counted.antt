-- ===== src/Engine/Safety/Counted.antt =====
-- The counters of the nodes through the loops of `signalStreamDependents` and `signalStateDependents`.
use gxo.Prelude.{
  String, Bool, true, false, ◌≡◌, inl, inr, List, some, arith, Option-cases, if◌then◌else◌,
  contains, IsNodup,
}
use gxo.Prelude.Dict.{get}
use gxo.Prelude.Int.{ℤ, pos, decrement32}
use gxo.Dag.Defs.{Node, Dag}
use gxo.Engine.Defs.{Engine}
use gxo.Engine.Signals.{lower, signal_loop}
use gxo.Engine.Signals.Effect.{all_dag}
use gxo.Engine.Safety.Unmet.{unmet, Meets, lowered}

-- Each node's counter is the number of its dependencies that `f` does not hold of.
abbrev pub IsCounted : (Node → List String) → (Node → ℤ) → (String → Bool) → Dag → Type 0
IsCounted deps counter f dag =
    (k : String) (node : Node)
    → get k dag.nodes ≡ some node
    → counter node ≡ pos (unmet f (deps node))

-- The nodes whose dependencies hold `id` are among `ds`.
abbrev pub Covers : (Node → List String) → String → List String → Dag → Type 0
Covers deps id ds dag =
    (k : String) (node : Node)
    → get k dag.nodes ≡ some node
    → contains id (deps node) ≡ true
    → contains k ds ≡ true

module _ (deps : Node → List String) (met : Node → Node) (test : Node → Bool) (id : String)
    (ds : List String) (nodup_ds : IsNodup ds) (e : Engine) where
  -- A node afterwards is a node before, lowered where it is among `ds`.
  pub before :
      (k : String) (node' : Node)
      → get k (signal_loop deps met test id ds e).dag.nodes ≡ some node'
      → (node : Node) × (get k e.dag.nodes ≡ some node)
        × (node' ≡ (if contains k ds then lower deps met test id node else node))
  before k node' h = elim (Option-cases (get k e.dag.nodes)) [
    | inl absent ↦ absurd (ground (arith, all_dag deps met test id ds k e nodup_ds))
    | inr (node, present) ↦
        (node, present, ground (arith, all_dag deps met test id ds k e nodup_ds))
  ]

module _ (deps : Node → List String) (met : Node → Node) (test : Node → Bool) (id : String)
    (ds : List String) (nodup_ds : IsNodup ds) (e : Engine) where
  abbrev after : Engine
  after = signal_loop deps met test id ds e

  pub signals_count :
      (counter : Node → ℤ)
      → ((n : Node) → counter (met n) ≡ decrement32 (counter n))
      → ((n : Node) → deps (met n) ≡ deps n)
      → (f g : String → Bool) → Meets id f g
      → f id ≡ false
      → Covers deps id ds e.dag
      → ((k : String) (node : Node) → get k e.dag.nodes ≡ some node → IsNodup (deps node))
      → IsCounted deps counter f e.dag
      → IsCounted deps counter g after.dag
  signals_count counter counter_met deps_met f g meets fresh covers nodup count k node' h =
      let (node, here, is) = before deps met test id ds nodup_ds e k node' h in
      ground (
        arith,
        counter_met node,
        deps_met node,
        covers k node here,
        count k node here,
        lowered id f g (deps node) meets fresh (nodup k node here),
      )

  -- The other counters stay.
  pub signals_keep :
      (deps' : Node → List String) (counter' : Node → ℤ) (f : String → Bool)
      → ((n : Node) → counter' (met n) ≡ counter' n)
      → ((n : Node) → deps' (met n) ≡ deps' n)
      → IsCounted deps' counter' f e.dag
      → IsCounted deps' counter' f after.dag
  signals_keep deps' counter' f counter_same deps_same count k node' h =
      let (node, here, is) = before deps met test id ds nodup_ds e k node' h in
      ground (arith, counter_same node, deps_same node, count k node here)
