-- ===== src/Dag/Cycle/Walks.antt =====
-- Walks along `RequiredBy`, against which `detectCycle` is proved.
use gxo.Prelude.{String, true, ◌≡◌, contains}
use gxo.Dag.Defs.{Dag, dependents}

module _ (dag : Dag) where
  abbrev pub Edge : String → String → Type 0
  Edge u v = contains v (dependents dag u) ≡ true

  pub data Walk (u : String) : String → Type 0 where
    one : {v : String} → Edge u v → Walk u v
    more : {v w : String} → Walk u v → Edge v w → Walk u w

  abbrev pub IsCyclic : Type 0
  IsCyclic = (k : String) × Walk k k
