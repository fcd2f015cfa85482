-- ===== src/Dag/Build.antt =====
-- `BuildDAG`, `addStreamEdge` and `addStateEdge` of internal/engine/dag.go. The text of a template is
-- parsed by Go's text/template: `extract` stands for `renderer.ExtractVariables`, `none` for an error.
pub mod Edges
pub mod Passes
pub mod Tidy
pub mod Built
pub mod Total
pub mod Loaded
use text.Mathlib.Text.{starts_with}
use gxo.Prelude.{
  ℕ, zero, suc, String, Bool, true, false, List, [], ◌∷◌, ◌++◌, Option, none, some, ◌&&◌, not,
  if◌then◌else◌, ◌==◌, contains, length,
}
use gxo.Prelude.Dict
use gxo.Prelude.Dict.{Dict, get, put}
use gxo.Prelude.Int.{pos, to_int32, is_zero}
use gxo.Prelude.Text.{split_dots}
use gxo.Errors.{Error, plain, config_error, Result, ok, err, ◌>>=◌}
use gxo.Config.{Task, TaskPolicy, StatePolicy, Playbook, state_access_deep_copy}
use gxo.Config.Templates.{collect_templates_to_scan}
use gxo.Dag.Defs.{Node, Dag, add_key, update_node}
use gxo.Dag.Cycle.{Outcome, cycle, clear, out_of_fuel, detect_cycle}

-- if policy != nil && policy.SkipOnNoInput != nil { … }
unfoldable pub override_skip : Option TaskPolicy → Bool → Bool
override_skip none b = b
override_skip (some policy) b = elim policy.skip_on_no_input [ none ↦ b | some b' ↦ b' ]

-- if policy != nil && policy.AccessMode != "" { … }
unfoldable pub override_access : Option StatePolicy → String → String
override_access none mode = mode
override_access (some policy) mode = if policy.access_mode == "" then mode else policy.access_mode

unfoldable pub new_node : Playbook → Task → Node
unfolding override_skip override_access
new_node playbook task = record {
  task = task;
  id = task.internal_id;
  stream_depends_on = [];
  state_depends_on = [];
  required_by = [];
  stream_deps_remaining = pos 0;
  state_deps_remaining = pos 0;
  skip_on_no_input = override_skip task.policy (override_skip playbook.task_policy false);
  access_mode =
      override_access task.state_policy
        (override_access playbook.state_policy state_access_deep_copy);
}

pub record Pass1 : Type 0 where
  pub dag : Dag
  pub name_to_task_id : Dict String
  pub registered_vars_to_task_id : Dict String

-- if name != "" { ids[name] = id }
unfoldable pub note_id : String → String → Dict String → Dict String
note_id name id ids = if name == "" then ids else put name id ids

unfoldable pub add_task : Playbook → Pass1 → Task → Pass1
unfolding new_node note_id
add_task playbook s task = record {
  dag = record { nodes = put task.internal_id (new_node playbook task) s.dag.nodes };
  name_to_task_id = note_id task.name task.internal_id s.name_to_task_id;
  registered_vars_to_task_id = note_id task.register task.internal_id s.registered_vars_to_task_id;
}

unfoldable pub pass1 : Playbook → List Task → Pass1 → Result Pass1
unfolding add_task
pass1 playbook [] s = ok s
pass1 playbook (task ∷ tasks) s =
    let rest = pass1 playbook tasks (add_task playbook s task) in
    if task.internal_id == ""
    then err (plain "internal error: task has no InternalID during DAG build")
    else rest

abbrev pub no_nodes : Pass1
no_nodes = record {
  dag = record { nodes = [] };
  name_to_task_id = [];
  registered_vars_to_task_id = [];
}

abbrev pub add_stream_dep : String → Node → Node
add_stream_dep p node = record node { stream_depends_on = add_key p node.stream_depends_on }

abbrev pub add_state_dep : String → Node → Node
add_state_dep p node = record node { state_depends_on = add_key p node.state_depends_on }

abbrev pub add_dependent : String → Node → Node
add_dependent c node = record node { required_by = add_key c node.required_by }

-- Both nodes are in the graph when these are called (a missing one would be a nil dereference).
unfoldable pub add_stream_edge : Dag → String → String → Dag
add_stream_edge dag producer consumer = elim (get consumer dag.nodes) [
  | none ↦ dag
  | some node ↦
      if contains producer node.stream_depends_on
      then dag
      else update_node producer (add_dependent consumer)
          (update_node consumer (add_stream_dep producer) dag)
]

unfoldable pub add_state_edge : Dag → String → String → Dag
add_state_edge dag producer consumer = elim (get consumer dag.nodes) [
  | none ↦ dag
  | some node ↦
      if contains producer node.state_depends_on
      then dag
      else update_node producer (add_dependent consumer)
          (update_node consumer (add_state_dep producer) dag)
]

-- the `for` loop over node.Task.StreamInputs
unfoldable pub add_stream_inputs : Dict String → String → List String → Dag → Result Dag
unfolding add_stream_edge
add_stream_inputs ids id [] dag = ok dag
add_stream_inputs ids id (name ∷ names) dag = elim (get name ids) [
  | none ↦ err (config_error "stream_inputs referencing undefined task")
  | some producer ↦ add_stream_inputs ids id names (add_stream_edge dag producer id)
]

-- parts := strings.Split(path, "."); if len(parts) == 4 { … = nameToTaskID[parts[2]] }
unfoldable pub task_of_parts : Dict String → List String → Option String
task_of_parts ids (a ∷ b ∷ name ∷ d ∷ []) = get name ids
task_of_parts ids parts = none

unfoldable pub producer_of : Pass1 → String → Option String
unfolding task_of_parts
producer_of s path =
    if starts_with path "_gxo.tasks."
    then task_of_parts s.name_to_task_id (split_dots path)
    else get path s.registered_vars_to_task_id

-- if exists && producerID != "" && producerID != node.ID { addStateEdge(…) }
unfoldable pub add_variable : Pass1 → String → Dag → String → Dag
unfolding producer_of add_state_edge
add_variable s id dag path = elim (producer_of s path) [
  | none ↦ dag
  | some producer ↦
      if not (producer == "") && not (producer == id) then add_state_edge dag producer id else dag
]

unfoldable pub add_variables : Pass1 → String → List String → Dag → Dag
unfolding add_variable
add_variables s id [] dag = dag
add_variables s id (path ∷ paths) dag = add_variables s id paths (add_variable s id dag path)

module _ (extract : String → Option (List String)) where
  unfoldable pub variables_of : String → List String
  variables_of template =
      if template == "" then [] else elim (extract template) [ none ↦ [] | some vars ↦ vars ]

  unfoldable pub add_templates : Pass1 → String → List String → Dag → Dag
  unfolding variables_of add_variables
  add_templates s id [] dag = dag
  add_templates s id (template ∷ templates) dag =
      add_templates s id templates (add_variables s id (variables_of template) dag)

  -- the `for` loop over dag.Nodes: nodes are changed on the way, and none is added
  unfoldable pub pass2 : Pass1 → List (String × Node) → Dag → Result Dag
  unfolding add_stream_inputs add_templates collect_templates_to_scan
  pass2 s [] dag = ok dag
  pass2 s ((k, node) ∷ nodes) dag =
      add_stream_inputs s.name_to_task_id node.id node.task.stream_inputs dag >>= λ dag'.
      pass2 s nodes (add_templates s node.id (collect_templates_to_scan node.task) dag')

abbrev pub count_deps : Node → Node
count_deps node = record node {
  stream_deps_remaining = to_int32 (length node.stream_depends_on);
  state_deps_remaining = to_int32 (length node.state_depends_on);
}

abbrev pub is_ready : Node → Bool
is_ready node = is_zero node.stream_deps_remaining && is_zero node.state_deps_remaining

unfoldable pub init_counters : Dict Node → Dict Node
init_counters [] = []
init_counters ((k, node) ∷ nodes) = (k, count_deps node) ∷ init_counters nodes

unfoldable pub ready_nodes : Dict Node → List Node
ready_nodes [] = []
ready_nodes ((k, node) ∷ nodes) =
    let rest = ready_nodes nodes in if is_ready node then node ∷ rest else rest

-- The end of `BuildDAG`, by what `detectCycle` answers. Running out of fuel stands for no behaviour
-- of the code.
unfoldable pub finish : Dag → Outcome → Result (Dag × List Node)
unfolding ready_nodes
finish dag cycle = err (config_error "cycle detected in task dependencies")
finish dag (clear m) = ok (dag, ready_nodes dag.nodes)
finish dag out_of_fuel = err (plain "out of fuel")

unfoldable pub pass3 : Dag → Result (Dag × List Node)
unfolding init_counters finish
pass3 dag =
    let dag' = record dag { nodes = init_counters dag.nodes } in finish dag' (detect_cycle dag')

module _ (extract : String → Option (List String)) (playbook : Playbook) where
  unfoldable pub build_tasks : List Task → Result (Dag × List Node)
  unfolding pass1 pass2 pass3
  build_tasks [] = ok (record { nodes = [] }, [])
  build_tasks (t ∷ ts) =
      pass1 playbook (t ∷ ts) no_nodes >>= λ s. pass2 extract s s.dag.nodes s.dag >>= pass3

  unfoldable pub build_dag : Result (Dag × List Node)
  unfolding build_tasks
  build_dag = build_tasks playbook.tasks
