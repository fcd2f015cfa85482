-- ===== src/Dag/Cycle/Fuel.antt =====
-- The number of nodes is fuel enough for `hasCycleDFS`: each nested call marks one more node.
use gxo.Prelude.{
  ℕ, zero, suc, ◌+◌, ◌≤◌, String, Bool, true, false, ◌≡◌, ◌≢◌, subst, inl, inr, List, [], ◌∷◌,
  arith, Bool-cases, if◌then◌else◌, ◌==◌, eq_iff, contains, contains_head, contains_tail, length,
}
use gxo.Dag.Defs.{Dag, dependents, node_ids}
use gxo.Dag.Cycle.Walks.{Edge}
use gxo.Dag.Cycle.{
  Marks, Outcome, cycle, clear, out_of_fuel, and_then, mark, enter, leave, visit_dependents,
  has_cycle_dfs, search_from, no_marks, detect_cycle,
}

-- How many of `ks` are not visited.
unvisited : (String → Bool) → List String → ℕ
unvisited v [] = 0
unvisited v (k ∷ ks) = (if v k then 0 else 1) + unvisited v ks

abbrev Grows : (String → Bool) → (String → Bool) → Type 0
Grows v w = (k : String) → v k ≡ true → w k ≡ true

unvisited_mono :
    (v w : String → Bool) (ks : List String) → Grows v w → unvisited w ks ≤ unvisited v ks
unfolding unvisited
unvisited_mono v w [] g = omega arith
unvisited_mono v w (k ∷ ks) g = ground (arith, g k, unvisited_mono v w ks g)

unvisited-mark :
    (v : String → Bool) (k : String) (ks : List String)
    → v k ≡ false
    → contains k ks ≡ true
    → unvisited (mark v k true) ks + 1 ≤ unvisited v ks
unfolding unvisited mark contains
unvisited-mark v k [] fresh h = cc
unvisited-mark v k (j ∷ ks) fresh h = elim (Bool-cases (j == k)) [
  | inl same ↦ ground (
    arith,
    eq_iff j k,
    eq_iff k j,
    unvisited_mono v (mark v k true) ks (λ i q. unfold mark in ground (arith, eq_iff k i)),
  )
  | inr other ↦ ground (arith, eq_iff j k, eq_iff k j, unvisited-mark v k ks fresh)
]

abbrev Runs : Marks → Outcome → Type 0
Runs m cycle = Unit
Runs m (clear m') = Grows m.visited m'.visited
Runs m out_of_fuel = ⊥

and_then-Runs :
    (m : Marks) (o : Outcome) (f : Marks → Outcome)
    → Runs m o
    → ((m' : Marks) → Grows m.visited m'.visited → Runs m' (f m'))
    → Runs m (and_then o f)
and_then-Runs m cycle f h rest = tt
and_then-Runs m (clear m') f h rest = weaken (f m') (rest m' h)
  where
    weaken : (o : Outcome) → Runs m' o → Runs m o
    weaken cycle r = tt
    weaken (clear m'') r = λ k q. r k (h k q)
    weaken out_of_fuel r = r
and_then-Runs m out_of_fuel f h rest = h

-- Every edge ends in a node of the graph.
abbrev pub IsClosed : Dag → Type 0
IsClosed dag = (u v : String) → Edge dag u v → contains v (node_ids dag) ≡ true

module _ (dag : Dag) (closed : IsClosed dag) where
  abbrev left : Marks → ℕ
  left m = unvisited m.visited (node_ids dag)

  module _ (fuel : ℕ) (visit : String → Marks → Outcome)
      (runs : (k : String) (m : Marks)
        → contains k (node_ids dag) ≡ true
        → m.visited k ≡ false
        → left m ≤ fuel
        → Runs m (visit k m)) where
    visit_dependents-Runs :
        (ds : List String) (m : Marks)
        → ((d : String) → contains d ds ≡ true → contains d (node_ids dag) ≡ true)
        → left m ≤ fuel
        → Runs m (visit_dependents visit ds m)
    unfolding visit_dependents
    visit_dependents-Runs [] m known room = λ k h. h
    visit_dependents-Runs (d ∷ ds) m known room = elim (Bool-cases (m.path d)) [
      | inl on ↦ rw on tt
      | inr off ↦ rw off (elim (Bool-cases (m.visited d)) [
        | inl seen ↦ rw seen (visit_dependents-Runs ds m later room)
        | inr fresh ↦ rw fresh (
            and_then-Runs m (visit d m) (λ m'. visit_dependents visit ds m')
              (runs d m (known d (contains_head d ds)) fresh room)
              (λ m' grows.
                visit_dependents-Runs ds m' later
                  (omega (arith, unvisited_mono m.visited m'.visited (node_ids dag) grows))))
      ])
    ]
      where
        later : (e : String) → contains e ds ≡ true → contains e (node_ids dag) ≡ true
        later e h = known e (contains_tail e d ds h)

  enter-Grows : (k : String) (m : Marks) → Grows m.visited (enter k m).visited
  unfolding enter
  enter-Grows k m j h = ground (arith, eq_iff k j)

  enter-left :
      (k : String) (m : Marks)
      → contains k (node_ids dag) ≡ true
      → m.visited k ≡ false
      → left (enter k m) + 1 ≤ left m
  unfolding enter
  enter-left k m here fresh = unvisited-mark m.visited k (node_ids dag) fresh here

  Runs-enter :
      (k : String) (m : Marks) (o : Outcome) → Runs (enter k m) o → Runs m (and_then o (leave k))
  unfolding leave
  Runs-enter k m cycle h = tt
  Runs-enter k m (clear m') h = λ j v. h j (enter-Grows k m j v)
  Runs-enter k m out_of_fuel h = h

  has_cycle_dfs-Runs :
      (fuel : ℕ) (k : String) (m : Marks)
      → contains k (node_ids dag) ≡ true
      → m.visited k ≡ false
      → left m ≤ fuel
      → Runs m (has_cycle_dfs dag fuel k m)
  unfolding has_cycle_dfs
  has_cycle_dfs-Runs zero k m here fresh room = absurd (omega (arith, enter-left k m here fresh))
  has_cycle_dfs-Runs (suc fuel) k m here fresh room =
      Runs-enter k m (visit_dependents (has_cycle_dfs dag fuel) (dependents dag k) (enter k m)) (
        visit_dependents-Runs fuel (has_cycle_dfs dag fuel) (has_cycle_dfs-Runs fuel)
          (dependents dag k) (enter k m) (closed k) (omega (arith, enter-left k m here fresh)))

  search_from-Runs :
      (fuel : ℕ) (ks : List String) (m : Marks)
      → ((k : String) → contains k ks ≡ true → contains k (node_ids dag) ≡ true)
      → left m ≤ fuel
      → Runs m (search_from dag fuel ks m)
  unfolding search_from
  search_from-Runs fuel [] m known room = λ k h. h
  search_from-Runs fuel (k ∷ ks) m known room = elim (Bool-cases (m.visited k)) [
    | inl seen ↦ rw seen (search_from-Runs fuel ks m later room)
    | inr fresh ↦ rw fresh (
        and_then-Runs m (has_cycle_dfs dag fuel k m) (λ m'. search_from dag fuel ks m')
          (has_cycle_dfs-Runs fuel k m (known k (contains_head k ks)) fresh room)
          (λ m' grows.
            search_from-Runs fuel ks m' later
              (omega (arith, unvisited_mono m.visited m'.visited (node_ids dag) grows))))
  ]
    where
      later : (j : String) → contains j ks ≡ true → contains j (node_ids dag) ≡ true
      later j h = known j (contains_tail j k ks h)

  unvisited_none : (ks : List String) → unvisited no_marks.visited ks ≤ length ks
  unfolding unvisited
  unvisited_none [] = omega arith
  unvisited_none (k ∷ ks) = omega (arith, unvisited_none ks)

  pub detect_cycle_total : detect_cycle dag ≢ out_of_fuel
  unfolding detect_cycle
  detect_cycle_total e =
      subst (Runs no_marks) e
        (search_from-Runs _ (node_ids dag) no_marks (λ k h. h) (unvisited_none (node_ids dag)))
