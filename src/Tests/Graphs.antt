-- ===== src/Tests/Graphs.antt =====
-- Graphs.
use mathlib.Core.List.{Memᴰ}
use gxo.Prelude.{◌<◌, ◌^◌, String, ◌≡◌, refl, ◌||◌, ◌↔◌, [], ◌∷◌, some, arith, contains, length}
use gxo.Prelude.Dict
use gxo.Prelude.Dict.{get}
use gxo.Prelude.Int.{to_int32}
use gxo.Errors.{ok}
use gxo.Dag.Defs.{Node, node_ids, update_node, add_key, dependents, stream_deps, state_deps}
use gxo.Dag.Cycle.{
  detect_cycle, search_from, has_cycle_dfs, visit_dependents, enter, leave, cycle, out_of_fuel,
}
use gxo.Dag.Cycle.Walks.{IsCyclic}
use gxo.Dag.Cycle.Exact.{detect_cycle_iff}
use gxo.Dag.Build.{build_dag}
use gxo.Dag.Build.Built.{IsMirrored-IsClosed, build_dag_consistent, build_dag_ready}
use gxo.Tests.Samples.{extract, sample, sample_dag, gen_node, use_node}

pub sample_builds : build_dag extract sample ≡ ok (sample_dag, gen_node ∷ [])
unfolding build_dag Dict.put get detect_cycle search_from node_ids Dict.keys contains update_node
    has_cycle_dfs visit_dependents dependents add_key enter leave to_int32
sample_builds = refl

pub sample_small :
    (k : String) (node : Node)
    → get k sample_dag.nodes ≡ some node
    → (length node.stream_depends_on < 2 ^ 31) × (length node.state_depends_on < 2 ^ 31)
unfolding build_dag Dict.put get detect_cycle search_from node_ids Dict.keys contains update_node
    has_cycle_dfs visit_dependents dependents add_key enter leave to_int32
sample_small k node q = ground arith

detect_cycle_iff_example :
    ((detect_cycle sample_dag ≡ cycle) ↔ IsCyclic sample_dag)
    × (detect_cycle sample_dag ≡ out_of_fuel → ⊥)
detect_cycle_iff_example = detect_cycle_iff sample_dag (
    IsMirrored-IsClosed sample_dag
      (build_dag_consistent extract sample sample_dag (gen_node ∷ []) sample_builds).0)

build_dag_consistent_example :
    ((u v : String)
      → contains v (dependents sample_dag u)
        ≡ (contains u (stream_deps sample_dag v) || contains u (state_deps sample_dag v)))
    × (¬ IsCyclic sample_dag)
build_dag_consistent_example =
    build_dag_consistent extract sample sample_dag (gen_node ∷ []) sample_builds

use_here : get "t1" sample_dag.nodes ≡ some use_node
unfolding build_dag Dict.put get detect_cycle search_from node_ids Dict.keys contains update_node
    has_cycle_dfs visit_dependents dependents add_key enter leave to_int32
use_here = refl

build_dag_ready_example :
    (use_node.stream_deps_remaining ≡ to_int32 (length use_node.stream_depends_on))
    × (use_node.state_deps_remaining ≡ to_int32 (length use_node.state_depends_on))
    × (Memᴰ use_node (gen_node ∷ [])
        ↔ ((use_node.stream_depends_on ≡ []) × (use_node.state_depends_on ≡ [])))
build_dag_ready_example =
    build_dag_ready extract sample sample_dag (gen_node ∷ []) sample_builds "t1" use_node use_here
      (sample_small "t1" use_node use_here).0 (sample_small "t1" use_node use_here).1
