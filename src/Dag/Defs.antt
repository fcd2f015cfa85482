-- ===== src/Dag/Defs.antt =====
-- internal/engine/dag.go: the execution graph. A `*Node` in a dependency map is the node that
-- `dag.Nodes` holds under the map's key, so a map of nodes is the list of its keys.
use gxo.Prelude.{
  String, Bool, List, [], ◌∷◌, ◌++◌, Option, none, some, if◌then◌else◌, contains, contains-append,
  ◌≡◌, ◌||◌, ◌==◌, eq_iff, Option-cases, inl, inr, arith,
}
use gxo.Prelude.Dict
use gxo.Prelude.Dict.{Dict, get, put, get-put}
use gxo.Prelude.Int.{ℤ}
use gxo.Config.{Task}

pub data TaskStatus : Type 0 where
  pending ready running completed failed skipped : TaskStatus

-- `skip_on_no_input` and `access_mode` are the fields of the two resolved policies.
pub record Node : Type 0 where
  pub task : Task
  pub id : String
  pub stream_depends_on : List String
  pub state_depends_on : List String
  pub required_by : List String
  pub stream_deps_remaining : ℤ
  pub state_deps_remaining : ℤ
  pub skip_on_no_input : Bool
  pub access_mode : String

pub record Dag : Type 0 where
  pub nodes : Dict Node

-- m[key] = node, for a map of which only the keys matter
unfoldable pub add_key : String → List String → List String
add_key k ks = if contains k ks then ks else ks ++ k ∷ []

-- The change of one node of the graph; nothing where there is no such node.
unfoldable pub update_node : String → (Node → Node) → Dag → Dag
update_node k f dag = elim (get k dag.nodes) [
  | none ↦ dag
  | some node ↦ record { nodes = put k (f node) dag.nodes }
]

-- node.RequiredBy
unfoldable pub dependents : Dag → String → List String
dependents dag k = elim (get k dag.nodes) [ none ↦ [] | some node ↦ node.required_by ]

-- the keys of `dag.Nodes`, in the order of a `range`
unfoldable pub node_ids : Dag → List String
node_ids dag = Dict.keys dag.nodes

unfoldable pub stream_deps : Dag → String → List String
stream_deps dag k = elim (get k dag.nodes) [ none ↦ [] | some node ↦ node.stream_depends_on ]

unfoldable pub state_deps : Dag → String → List String
state_deps dag k = elim (get k dag.nodes) [ none ↦ [] | some node ↦ node.state_depends_on ]

pub contains-add_key :
    (k j : String) (ks : List String) → contains j (add_key k ks) ≡ (k == j || contains j ks)
unfolding add_key contains
contains-add_key k j ks = ground (arith, contains-append j ks (k ∷ []), eq_iff k j)

abbrev pub map_node : (Node → Node) → Option Node → Option Node
map_node f none = none
map_node f (some node) = some (f node)

pub get-update_node :
    (k j : String) (f : Node → Node) (dag : Dag)
    → get j (update_node k f dag).nodes
      ≡ (if k == j then map_node f (get j dag.nodes) else get j dag.nodes)
unfolding update_node
get-update_node k j f dag = elim (Option-cases (get k dag.nodes)) [
  | inl absent ↦ rw (absent, update_node) (ground (arith, eq_iff k j))
  | inr (node, present) ↦
      rw (present, update_node) (ground (arith, eq_iff k j, get-put k j (f node) dag.nodes))
]
