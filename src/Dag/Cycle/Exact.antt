-- ===== src/Dag/Cycle/Exact.antt =====
-- `detectCycle` decides whether the graph has a cycle.
use gxo.Prelude.{◌≡◌, refl, ◌↔◌}
use gxo.Dag.Defs.{Dag}
use gxo.Dag.Cycle.{Outcome, cycle, clear, out_of_fuel, detect_cycle}
use gxo.Dag.Cycle.Walks.{IsCyclic}
use gxo.Dag.Cycle.Sound.{detect_cycle_sound}
use gxo.Dag.Cycle.Complete.{detect_cycle_complete}
use gxo.Dag.Cycle.Fuel.{IsClosed, detect_cycle_total}

cycle_of :
    (dag : Dag)
    → IsClosed dag
    → IsCyclic dag
    → (o : Outcome) → detect_cycle dag ≡ o
    → detect_cycle dag ≡ cycle
cycle_of dag closed c cycle e = e
cycle_of dag closed c (clear m) e = absurd (detect_cycle_complete dag m e c)
cycle_of dag closed c out_of_fuel e = absurd (detect_cycle_total dag closed e)

-- In a graph whose edges all end in a node, `detectCycle` reports a cycle exactly when some node is
-- reached from itself by a walk of at least one edge; it never runs out of fuel.
pub detect_cycle_iff :
    (dag : Dag)
    → IsClosed dag
    → ((detect_cycle dag ≡ cycle) ↔ IsCyclic dag) × (detect_cycle dag ≡ out_of_fuel → ⊥)
detect_cycle_iff dag closed = (
  (detect_cycle_sound dag, λ c. cycle_of dag closed c (detect_cycle dag) refl),
  detect_cycle_total dag closed,
)
