-- ===== src/Tests/Samples.antt =====
-- A playbook of three tasks: `gen` feeds `use` by a stream, and `post` reads what `gen` registers.
use gxo.Prelude.{
  String, Bool, false, List, [], ◌∷◌, Option, none, some, if◌then◌else◌, ◌==◌, length,
}
use gxo.Prelude.Int.{pos}
use gxo.Value.{null}
use gxo.Errors.{Error}
use gxo.Config.{Task, Playbook}
use gxo.Dag.Defs.{Node, Dag}
use gxo.Engine.Defs.{Engine}

-- stands for `renderer.ExtractVariables`
abbrev pub extract : String → Option (List String)
extract t = if t == "{{ .out }}" then some ("out" ∷ []) else some []

abbrev pub task_named : String → String → String → List String → String → Task
task_named id name register inputs when = record {
  name = name;
  type = "exec";
  params = [];
  register = register;
  stream_inputs = inputs;
  ignore_errors = false;
  when = when;
  loop = null;
  loop_control = none;
  retry = none;
  timeout = "";
  policy = none;
  state_policy = none;
  internal_id = id;
}

abbrev pub playbook_of : List Task → Playbook
playbook_of tasks = record {
  name = "sample";
  schema_version = "v1.0.0";
  vars = [];
  tasks = tasks;
  task_policy = none;
  channel_policy = none;
  state_policy = none;
}

abbrev pub gen_task : Task
gen_task = task_named "t0" "gen" "out" [] ""

abbrev pub use_task : Task
use_task = task_named "t1" "use" "" ("gen" ∷ []) ""

abbrev pub post_task : Task
post_task = task_named "t2" "post" "" [] "{{ .out }}"

abbrev pub sample : Playbook
sample = playbook_of (gen_task ∷ use_task ∷ post_task ∷ [])

abbrev pub node_with : Task → List String → List String → List String → Node
node_with task streams states required = record {
  task = task;
  id = task.internal_id;
  stream_depends_on = streams;
  state_depends_on = states;
  required_by = required;
  stream_deps_remaining = pos (length streams);
  state_deps_remaining = pos (length states);
  skip_on_no_input = false;
  access_mode = "deep_copy";
}

abbrev pub gen_node : Node
gen_node = node_with gen_task [] [] ("t1" ∷ "t2" ∷ [])

abbrev pub use_node : Node
use_node = node_with use_task ("t0" ∷ []) [] []

abbrev pub post_node : Node
post_node = node_with post_task [] ("t0" ∷ []) []

-- the graph of `sample`, and its initially ready nodes
abbrev pub sample_dag : Dag
sample_dag = record { nodes = ("t0", gen_node) ∷ ("t1", use_node) ∷ ("t2", post_node) ∷ [] }

abbrev pub blank : Engine
blank = record {
  dag = record { nodes = [] };
  total_tasks = 0;
  completed_tasks = 0;
  active_workers = 0;
  running_tasks = 0;
  ready_chan = [];
  work_queue = [];
  fatal_err_chan = none;
  task_statuses = [];
  task_timings = [];
  task_errors = [];
  dispatched_tasks = [];
  first_fatal_error = none;
  cancelled = false;
  stall_checks = 0;
  last_accounted_for_count = none;
  tasks_accounted_for = 0;
  worker_tasks = [];
  state = [];
  events = [];
}

-- stands for the search for a redacted keyword
abbrev pub mentions : Error → Bool
mentions e = false
