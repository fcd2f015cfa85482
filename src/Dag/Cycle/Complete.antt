-- ===== src/Dag/Cycle/Complete.antt =====
-- `hasCycleDFS` returns `false` for every node only where there is no cycle. A node that is visited
-- and off the path has no infinite walk from it: it is accessible along the edges.
use mathlib.Core.WellFounded.{Acc}
use gxo.Prelude.{
  ℕ, zero, suc, String, true, false, ◌≡◌, refl, sym, ◌∙◌, subst, ◌⊎◌, inl, inr, List, [], ◌∷◌,
  arith, Bool-cases, if◌then◌else◌, ◌==◌, eq_iff, contains, eq_refl,
}
use gxo.Prelude.Dict.{is_some-get}
use gxo.Dag.Defs.{Dag, dependents, node_ids}
use gxo.Dag.Cycle.Walks.{Edge, Walk, one, more, IsCyclic}
use gxo.Dag.Cycle.{
  Marks, Outcome, cycle, clear, out_of_fuel, and_then, enter, leave, visit_dependents,
  has_cycle_dfs, search_from, no_marks, detect_cycle,
}

module _ (dag : Dag) where
  -- `v` comes before `u` when there is an edge from `u` to `v`.
  abbrev Below : String → String → Type 0
  Below v u = Edge dag u v

  abbrev Ends : String → Type 0
  Ends = Acc Below

  record Inv (m : Marks) : Type 0 where
    done : (k : String) → m.visited k ≡ true → m.path k ≡ false → Ends k
    seen : (k : String) → m.path k ≡ true → m.visited k ≡ true

  -- What a call that returns `false` does to the marks.
  record Post (m m' : Marks) : Type 0 where
    inv : Inv m'
    same : (k : String) → m'.path k ≡ m.path k
    grows : (k : String) → m.visited k ≡ true → m'.visited k ≡ true

  Post-trans : {a b c : Marks} → Post a b → Post b c → Post a c
  Post-trans p q = record {
    inv = q.inv;
    same = λ k. q.same k ∙ p.same k;
    grows = λ k h. q.grows k (p.grows k h);
  }

  abbrev OnClear : (Marks → Type 0) → Outcome → Type 0
  OnClear P (clear m) = P m
  OnClear P cycle = Unit
  OnClear P out_of_fuel = Unit

  and_then-OnClear :
      (P Q : Marks → Type 0) (o : Outcome) (f : Marks → Outcome)
      → OnClear P o
      → ((m : Marks) → P m → OnClear Q (f m))
      → OnClear Q (and_then o f)
  and_then-OnClear P Q cycle f h rest = tt
  and_then-OnClear P Q (clear m) f h rest = rest m h
  and_then-OnClear P Q out_of_fuel f h rest = tt

  -- All of `ds` are finished.
  abbrev Finished : List String → Marks → Type 0
  Finished ds m = (d : String) → contains d ds ≡ true → (m.visited d ≡ true) × (m.path d ≡ false)

  abbrev Entered : String → Marks → Marks → Type 0
  Entered k m m' = Post m m' × (m'.visited k ≡ true)

  Finished-cons :
      (d : String) (ds : List String) (m : Marks)
      → m.visited d ≡ true
      → m.path d ≡ false
      → Finished ds m
      → Finished (d ∷ ds) m
  unfolding contains
  Finished-cons d ds m v p rest e h = elim (Bool-cases (d == e)) [
    | inl same ↦ subst (λ x. (m.visited x ≡ true) × (m.path x ≡ false)) ((eq_iff d e).0 same) (v, p)
    | inr other ↦ rest e (ground arith)
  ]

  module _ (visit : String → Marks → Outcome)
      (complete : (k : String) (m : Marks)
        → Inv m
        → m.visited k ≡ false
        → OnClear (Entered k m) (visit k m)) where
    visit_dependents-OnClear :
        (ds : List String) (m : Marks)
        → Inv m
        → OnClear (λ m'. Post m m' × Finished ds m') (visit_dependents visit ds m)
    unfolding visit_dependents contains
    visit_dependents-OnClear [] m inv =
        (record { inv = inv; same = λ k. refl; grows = λ k h. h }, λ d h. cc)
    visit_dependents-OnClear (d ∷ ds) m inv = elim (Bool-cases (m.path d)) [
      | inl on ↦ rw on tt
      | inr off ↦ rw off (elim (Bool-cases (m.visited d)) [
        | inl seen ↦ rw seen (
            weaken (visit_dependents visit ds m)
              (λ m' (p, fin). (p, Finished-cons d ds m' (p.grows d seen) (p.same d ∙ off) fin))
              (visit_dependents-OnClear ds m inv))
        | inr fresh ↦ rw fresh (
            and_then-OnClear (Entered d m) (λ m'. Post m m' × Finished (d ∷ ds) m') (visit d m)
              (λ m'. visit_dependents visit ds m') (complete d m inv fresh)
              (λ m₁ (p, v).
                weaken (visit_dependents visit ds m₁)
                  (λ m' (q, fin). (
                    Post-trans p q,
                    Finished-cons d ds m' (q.grows d v) (q.same d ∙ p.same d ∙ off) fin,
                  ))
                  (visit_dependents-OnClear ds m₁ p.inv)))
      ])
    ]
      where
        weaken :
            {P Q : Marks → Type 0} (o : Outcome)
            → ((m : Marks) → P m → Q m)
            → OnClear P o
            → OnClear Q o
        weaken cycle f h = tt
        weaken (clear m) f h = f m h
        weaken out_of_fuel f h = tt

  enter-Inv : (k : String) (m : Marks) → Inv m → Inv (enter k m)
  unfolding enter
  enter-Inv k m inv = record {
    done = λ j v p. ground (arith, inv.done j);
    seen = λ j p. ground (arith, inv.seen j);
  }

  leave-Entered :
      (k : String) (m m' : Marks)
      → Inv m
      → m.visited k ≡ false
      → Post (enter k m) m'
      → Finished (dependents dag k) m'
      → OnClear (Entered k m) (leave k m')
  unfolding leave enter
  leave-Entered k m m' inv fresh post fin = (
    record {
      inv = record { done = done; seen = λ j p. ground (arith, post.inv.seen j, eq_iff k j) };
      same = λ j. ground (arith, post.same j, eq_iff k j, inv.seen j);
      grows = λ j v. ground (arith, post.grows j, eq_iff k j);
    },
    ground (arith, post.grows k, eq_refl k),
  )
    where
      ends : Ends k
      ends = Acc.intro k (λ d edge. post.inv.done d (fin d edge).0 (fin d edge).1)

      done :
          (j : String)
          → m'.visited j ≡ true
          → (if k == j then false else m'.path j) ≡ false
          → Ends j
      done j v p = elim (Bool-cases (k == j)) [
        | inl same ↦ subst Ends ((eq_iff k j).0 same) ends
        | inr other ↦ post.inv.done j v (rw other at p)
      ]

  has_cycle_dfs-Entered :
      (fuel : ℕ) (k : String) (m : Marks)
      → Inv m
      → m.visited k ≡ false
      → OnClear (Entered k m) (has_cycle_dfs dag fuel k m)
  unfolding has_cycle_dfs
  has_cycle_dfs-Entered zero k m inv fresh = tt
  has_cycle_dfs-Entered (suc fuel) k m inv fresh =
      and_then-OnClear (λ m'. Post (enter k m) m' × Finished (dependents dag k) m') (Entered k m)
        (visit_dependents (has_cycle_dfs dag fuel) (dependents dag k) (enter k m)) (leave k)
        (visit_dependents-OnClear (has_cycle_dfs dag fuel) (has_cycle_dfs-Entered fuel)
          (dependents dag k) (enter k m) (enter-Inv k m inv))
        (λ m' (post, fin). leave-Entered k m m' inv fresh post fin)

  abbrev Covered : List String → Marks → Marks → Type 0
  Covered ks m m' = Post m m' × ((k : String) → contains k ks ≡ true → m'.visited k ≡ true)

  Covered-cons :
      (k : String) (ks : List String) (a b c : Marks)
      → Post a b
      → b.visited k ≡ true
      → Covered ks b c
      → Covered (k ∷ ks) a c
  unfolding contains
  Covered-cons k ks a b c p v (q, all) = (
    Post-trans p q,
    λ j h. elim (Bool-cases (k == j)) [
      | inl same ↦ subst (λ x. c.visited x ≡ true) ((eq_iff k j).0 same) (q.grows k v)
      | inr other ↦ all j (ground arith)
    ],
  )

  Post-refl : (m : Marks) → Inv m → Post m m
  Post-refl m inv = record { inv = inv; same = λ k. refl; grows = λ k h. h }

  Covered-into :
      (k : String) (ks : List String) (a b : Marks) (o : Outcome)
      → Post a b
      → b.visited k ≡ true
      → OnClear (Covered ks b) o
      → OnClear (Covered (k ∷ ks) a) o
  Covered-into k ks a b cycle p v h = tt
  Covered-into k ks a b (clear c) p v h = Covered-cons k ks a b c p v h
  Covered-into k ks a b out_of_fuel p v h = tt

  search_from-Covered :
      (fuel : ℕ) (ks : List String) (m : Marks)
      → Inv m
      → OnClear (Covered ks m) (search_from dag fuel ks m)
  unfolding search_from contains
  search_from-Covered fuel [] m inv = (Post-refl m inv, λ k h. cc)
  search_from-Covered fuel (k ∷ ks) m inv = elim (Bool-cases (m.visited k)) [
    | inl seen ↦ rw seen (
        Covered-into k ks m m (search_from dag fuel ks m) (Post-refl m inv) seen
          (search_from-Covered fuel ks m inv))
    | inr fresh ↦ rw fresh (
        and_then-OnClear (Entered k m) (Covered (k ∷ ks) m) (has_cycle_dfs dag fuel k m)
          (λ m'. search_from dag fuel ks m') (has_cycle_dfs-Entered fuel k m inv fresh)
          (λ m' (p, v).
            Covered-into k ks m m' (search_from dag fuel ks m') p v
              (search_from-Covered fuel ks m' p.inv)))
  ]

  Covered-of :
      (m : Marks) (ks : List String) (o : Outcome)
      → o ≡ clear m
      → OnClear (Covered ks no_marks) o
      → Covered ks no_marks m
  Covered-of m ks o e h = subst (OnClear (Covered ks no_marks)) e h

  dependents_of_absent : (k : String) → contains k (node_ids dag) ≡ false → dependents dag k ≡ []
  unfolding dependents node_ids
  dependents_of_absent k h = ground (arith, is_some-get k dag.nodes)

  Ends_of_clear : (m : Marks) → detect_cycle dag ≡ clear m → (k : String) → Ends k
  unfolding detect_cycle
  Ends_of_clear m e k = elim (Bool-cases (contains k (node_ids dag))) [
    | inl here ↦ post.inv.done k (all k here) (post.same k)
    | inr absent ↦ Acc.intro k (λ d edge. absurd (no_edge absent d edge))
  ]
    where
      covered : Covered (node_ids dag) no_marks m
      covered = Covered-of m (node_ids dag) (detect_cycle dag) e (
          search_from-Covered _ (node_ids dag) no_marks
            (record { done = λ j v p. cc; seen = λ j p. cc }))

      post : Post no_marks m
      post = covered.0

      all : (j : String) → contains j (node_ids dag) ≡ true → m.visited j ≡ true
      all = covered.1

      nothing : (d : String) → contains d [] ≡ true → ⊥
      nothing d h = unfold contains in cc

      no_edge :
          contains k (node_ids dag) ≡ false
          → (d : String) → contains d (dependents dag k) ≡ true
          → ⊥
      no_edge absent d edge = nothing d (rw (dependents_of_absent k absent) at edge)

  extend : {x v w : String} → (x ≡ v) ⊎ Walk dag x v → Edge dag v w → Walk dag x w
  extend {x} {v} {w} (inl e) edge = one (subst (λ u. Edge dag u w) (sym e) edge)
  extend (inr walk) edge = more walk edge

  first : {u w : String} → Walk dag u w → (v : String) × Edge dag u v × ((v ≡ w) ⊎ Walk dag v w)
  first {u} {w} (one e) = (w, e, inl refl)
  first (more walk e) = let (x, edge, rest) = first walk in (x, edge, inr (extend rest e))

  no_walk : (k : String) → Ends k → Walk dag k k → ⊥
  no_walk k (Acc.intro _ smaller) walk =
      let (x, edge, rest) = first walk in no_walk x (smaller x edge) (extend rest edge)

  pub detect_cycle_complete : (m : Marks) → detect_cycle dag ≡ clear m → ¬ IsCyclic dag
  detect_cycle_complete m e (k, walk) = no_walk k (Ends_of_clear m e k) walk
