-- ===== src/Dag/Cycle.antt =====
-- `detectCycle` and `hasCycleDFS` of internal/engine/dag.go. The maps `path` and `visited` are
-- functions, since a key that is missing reads as `false`.
pub mod Walks
pub mod Sound
pub mod Complete
pub mod Fuel
pub mod Exact
use gxo.Prelude.{
  ℕ, zero, suc, String, Bool, true, false, List, [], ◌∷◌, if◌then◌else◌, ◌==◌, length,
}
use gxo.Dag.Defs.{Dag, dependents, node_ids}

pub record Marks : Type 0 where
  pub path : String → Bool
  pub visited : String → Bool

-- flags[k] = b
unfoldable pub mark : (String → Bool) → String → Bool → String → Bool
mark flags k b j = if k == j then b else flags j

-- What a call of `hasCycleDFS` leaves: `true`, or `false` with the marks that it changed.
pub data Outcome : Type 0 where
  cycle : Outcome
  clear : Marks → Outcome
  out_of_fuel : Outcome

unfoldable pub enter : String → Marks → Marks
unfolding mark
enter k m = record { path = mark m.path k true; visited = mark m.visited k true }

-- `return true` at once, or go on with the marks.
abbrev pub and_then : Outcome → (Marks → Outcome) → Outcome
and_then cycle f = cycle
and_then (clear m) f = f m
and_then out_of_fuel f = out_of_fuel

unfoldable pub leave : String → Marks → Outcome
unfolding mark
leave k m = clear (record m { path = mark m.path k false })

-- the `for` loop over node.RequiredBy; `search` is the recursive call
unfoldable pub visit_dependents : (String → Marks → Outcome) → List String → Marks → Outcome
visit_dependents search [] m = clear m
visit_dependents search (d ∷ ds) m =
    let skip = visit_dependents search ds m in
    if m.path d
    then cycle
    else if m.visited d
    then skip
    else and_then (search d m) (λ m'. visit_dependents search ds m')

module _ (dag : Dag) where
  unfoldable pub has_cycle_dfs : ℕ → String → Marks → Outcome
  has_cycle_dfs zero k m = out_of_fuel
  has_cycle_dfs (suc fuel) k m =
      and_then (visit_dependents (has_cycle_dfs fuel) (dependents dag k) (enter k m)) (leave k)

  -- the `for` loop over dag.Nodes
  unfoldable pub search_from : ℕ → List String → Marks → Outcome
  search_from fuel [] m = clear m
  search_from fuel (k ∷ ks) m =
      let skip = search_from fuel ks m in
      if m.visited k then skip else and_then (has_cycle_dfs fuel k m) (λ m'. search_from fuel ks m')

abbrev pub no_marks : Marks
no_marks = record { path = λ k. false; visited = λ k. false }

-- Each nested call marks one more node, so the number of nodes is fuel enough.
unfoldable pub detect_cycle : Dag → Outcome
detect_cycle dag = search_from dag (length (node_ids dag)) (node_ids dag) no_marks
