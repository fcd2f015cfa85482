-- ===== src/Dag/Cycle/Sound.antt =====
-- `hasCycleDFS` returns `true` only where there is a cycle.
use gxo.Prelude.{
  ℕ, zero, suc, String, true, false, ◌≡◌, refl, sym, subst, ◌⊎◌, inl, inr, List, [], ◌∷◌, arith,
  Bool-cases, eq_iff, contains, contains_head, contains_tail,
}
use gxo.Dag.Defs.{Dag, dependents}
use gxo.Dag.Cycle.Walks.{Edge, Walk, one, more, IsCyclic}
use gxo.Dag.Cycle.{
  Marks, Outcome, cycle, clear, out_of_fuel, and_then, enter, leave, visit_dependents,
  has_cycle_dfs, search_from, no_marks, detect_cycle,
}

module _ (dag : Dag) where
  -- What an outcome says of the marks that the call started from.
  abbrev Claims : Marks → Outcome → Type 0
  Claims m cycle = IsCyclic dag
  Claims m (clear m') = (p : String) → m'.path p ≡ true → m.path p ≡ true
  Claims m out_of_fuel = Unit

  and_then-Claims :
      (m : Marks) (o : Outcome) (f : Marks → Outcome)
      → Claims m o
      → ((m' : Marks) → ((p : String) → m'.path p ≡ true → m.path p ≡ true) → Claims m (f m'))
      → Claims m (and_then o f)
  and_then-Claims m cycle f h rest = h
  and_then-Claims m (clear m') f h rest = rest m' h
  and_then-Claims m out_of_fuel f h rest = h

  Claims-weaken :
      (m m' : Marks) (o : Outcome)
      → ((p : String) → m'.path p ≡ true → m.path p ≡ true)
      → Claims m' o
      → Claims m o
  Claims-weaken m m' cycle sub h = h
  Claims-weaken m m' (clear m'') sub h = λ p q. sub p (h p q)
  Claims-weaken m m' out_of_fuel sub h = h

  -- Every node on the path leads to `k`.
  abbrev Leads : Marks → String → Type 0
  Leads m k = (p : String) → m.path p ≡ true → Walk dag p k

  extend : {p k d : String} → (p ≡ k) ⊎ Walk dag p k → Edge dag k d → Walk dag p d
  extend {p} {k} {d} (inl e) edge = one (subst (λ u. Edge dag u d) (sym e) edge)
  extend (inr w) edge = more w edge

  module _ (visit : String → Marks → Outcome)
      (sound : (k : String) (m : Marks) → Leads m k → Claims m (visit k m)) (k : String) where
    visit_dependents-Claims :
        (ds : List String) (m : Marks)
        → ((d : String) → contains d ds ≡ true → Edge dag k d)
        → ((p : String) → m.path p ≡ true → (p ≡ k) ⊎ Walk dag p k)
        → Claims m (visit_dependents visit ds m)
    unfolding visit_dependents
    visit_dependents-Claims [] m edges leads = λ p h. h
    visit_dependents-Claims (d ∷ ds) m edges leads = elim (Bool-cases (m.path d)) [
      | inl on ↦ rw on (d, extend (leads d on) (edges d (contains_head d ds)))
      | inr off ↦ rw off (elim (Bool-cases (m.visited d)) [
        | inl seen ↦ rw seen (visit_dependents-Claims ds m later leads)
        | inr fresh ↦ rw fresh (
            and_then-Claims m (visit d m) (λ m'. visit_dependents visit ds m')
              (sound d m (λ p h. extend (leads p h) (edges d (contains_head d ds))))
              (λ m' sub.
                Claims-weaken m m' (visit_dependents visit ds m') sub
                  (visit_dependents-Claims ds m' later (λ p h. leads p (sub p h)))))
      ])
    ]
      where
        later : (e : String) → contains e ds ≡ true → Edge dag k e
        later e h = edges e (contains_tail e d ds h)

  enter_path : (k p : String) (m : Marks) → (enter k m).path p ≡ true → (k ≡ p) ⊎ (m.path p ≡ true)
  unfolding enter
  enter_path k p m h = ground (arith, eq_iff k p)

  leave-Claims :
      (k : String) (m m' : Marks)
      → ((p : String) → m'.path p ≡ true → (enter k m).path p ≡ true)
      → Claims m (leave k m')
  unfolding leave enter
  leave-Claims k m m' sub p h = ground (arith, eq_iff k p, sub p)

  finish-Claims :
      (k : String) (m : Marks) (o : Outcome)
      → Claims (enter k m) o
      → Claims m (and_then o (leave k))
  finish-Claims k m cycle h = h
  finish-Claims k m (clear m') h = leave-Claims k m m' h
  finish-Claims k m out_of_fuel h = h

  edges_of : (k d : String) → contains d (dependents dag k) ≡ true → Edge dag k d
  edges_of k d h = h

  has_cycle_dfs-Claims :
      (fuel : ℕ) (k : String) (m : Marks) → Leads m k → Claims m (has_cycle_dfs dag fuel k m)
  unfolding has_cycle_dfs
  has_cycle_dfs-Claims zero k m leads = tt
  has_cycle_dfs-Claims (suc fuel) k m leads =
      finish-Claims k m (visit_dependents (has_cycle_dfs dag fuel) (dependents dag k) (enter k m)) (
        visit_dependents-Claims (has_cycle_dfs dag fuel) (has_cycle_dfs-Claims fuel) k
          (dependents dag k) (enter k m) (edges_of k) on_path)
    where
      on_path : (p : String) → (enter k m).path p ≡ true → (p ≡ k) ⊎ Walk dag p k
      on_path p h = elim (enter_path k p m h) [ inl e ↦ inl (sym e) | inr q ↦ inr (leads p q) ]

  search_from-Claims :
      (fuel : ℕ) (ks : List String) (m : Marks)
      → ((p : String) → m.path p ≡ false)
      → Claims m (search_from dag fuel ks m)
  unfolding search_from
  search_from-Claims fuel [] m idle = λ p h. h
  search_from-Claims fuel (k ∷ ks) m idle = elim (Bool-cases (m.visited k)) [
    | inl seen ↦ rw seen (search_from-Claims fuel ks m idle)
    | inr fresh ↦ rw fresh (
        and_then-Claims m (has_cycle_dfs dag fuel k m) (λ m'. search_from dag fuel ks m')
          (has_cycle_dfs-Claims fuel k m (λ p h. cc (idle p)))
          (λ m' sub.
            Claims-weaken m m' (search_from dag fuel ks m') sub
              (search_from-Claims fuel ks m' (λ p. ground (arith, sub p, idle p)))))
  ]

  IsCyclic_of : (m : Marks) (o : Outcome) → o ≡ cycle → Claims m o → IsCyclic dag
  IsCyclic_of m o e c = subst (Claims m) e c

  pub detect_cycle_sound : detect_cycle dag ≡ cycle → IsCyclic dag
  unfolding detect_cycle
  detect_cycle_sound e =
      IsCyclic_of no_marks (detect_cycle dag) e (search_from-Claims _ _ no_marks (λ p. refl))
