-- ===== src/Dag/Build/Total.antt =====
-- `BuildDAG` fails only because of a cycle, where each task has an id and each stream input is a name.
use gxo.Prelude.{
  String, true, ◌≡◌, ◌≢◌, ◌⊎◌, refl, inl, inr, List, [], ◌∷◌, Option, arith, Bool-cases,
  Option-cases, if◌then◌else◌, ◌==◌, eq_iff, contains, is_some, All, All-map,
}
use gxo.Prelude.Dict.{Dict, get, put, get-put}
use gxo.Prelude.Int.{ℤ}
use gxo.Errors.{config_error, Result, ok, err}
use gxo.Config.{Task, Playbook}
use gxo.Config.Templates.{collect_templates_to_scan}
use gxo.Config.Validation.Names.{names_after}
use gxo.Dag.Defs.{Node, Dag}
use gxo.Dag.Cycle.{Outcome, cycle, clear, out_of_fuel, detect_cycle}
use gxo.Dag.Cycle.Exact.{detect_cycle_iff}
use gxo.Dag.Build.{
  Pass1, new_node, note_id, add_task, pass1, no_nodes, add_stream_edge, add_stream_inputs,
  add_templates, pass2, finish, pass3, build_tasks, build_dag, ready_nodes,
}
use gxo.Dag.Build.Edges.{IsMirrored}
use gxo.Dag.Build.Passes.{passes-IsMirrored}
use gxo.Dag.Build.Built.{counted, counted-IsMirrored, IsMirrored-IsClosed}

-- Each of `names` has an id in `ids`.
abbrev pub IsCovered : List String → Dict String → Type 0
IsCovered names ids = (k : String) → contains k names ≡ true → is_some (get k ids) ≡ true

-- A property of the tasks of the nodes.
abbrev AllTasks : (Task → Type 0) → List (String × Node) → Type 0
AllTasks P nodes = All (λ (entry : String × Node). P entry.1.task) nodes

AllTasks-put :
    (P : Task → Type 0) (k : String) (node : Node) (nodes : List (String × Node))
    → P node.task
    → AllTasks P nodes
    → AllTasks P (put k node nodes)
unfolding put
AllTasks-put P k node [] here h = (here, tt)
AllTasks-put P k node ((j, n) ∷ nodes) here h = elim (Bool-cases (j == k)) [
  | inl same ↦ rw same (here, h.1)
  | inr other ↦ rw other (h.0, AllTasks-put P k node nodes here h.1)
]

note_id-IsCovered :
    (name id : String) (acc : List String) (ids : Dict String)
    → IsCovered acc ids
    → IsCovered (if name == "" then acc else name ∷ acc) (note_id name id ids)
unfolding note_id contains
note_id-IsCovered name id acc ids h k c = ground (arith, h k, get-put name k id ids, eq_iff name k)

-- What the first pass gives: the nodes are of the tasks, and the names have ids.
record IsListed (P : Task → Type 0) (names : List String) (s : Pass1) : Type 0 where
  tasks : AllTasks P s.dag.nodes
  covered : IsCovered names s.name_to_task_id

module _ (extract : String → Option (List String)) (parse : String → Option ℤ)
    (playbook : Playbook) where
  pass1-total :
      (P : Task → Type 0) (tasks : List Task) (acc : List String) (s : Pass1)
      → All (λ (task : Task). (task.internal_id ≢ "") × P task) tasks
      → IsListed P acc s
      → (t : Pass1) × (pass1 playbook tasks s ≡ ok t)
        × IsListed P (names_after extract parse tasks acc) t
  unfolding pass1 add_task new_node
  pass1-total P [] acc s each h = (s, refl, h)
  pass1-total P (task ∷ tasks) acc s each h =
      let (t, found, listed) =
        pass1-total P tasks (if task.name == "" then acc else task.name ∷ acc)
          (add_task playbook s task) each.1
          (record {
            tasks =
                AllTasks-put P task.internal_id (new_node playbook task) s.dag.nodes each.0.1
                  h.tasks;
            covered = note_id-IsCovered task.name task.internal_id acc s.name_to_task_id h.covered;
          }) in
      (t, ground (arith, each.0.0, eq_iff task.internal_id ""), listed)

add_stream_inputs-total :
    (ids : Dict String) (id : String) (names : List String) (dag : Dag)
    → IsCovered names ids
    → (d : Dag) × (add_stream_inputs ids id names dag ≡ ok d)
unfolding add_stream_inputs contains
add_stream_inputs-total ids id [] dag h = (dag, refl)
add_stream_inputs-total ids id (name ∷ names) dag h = elim (Option-cases (get name ids)) [
  | inl absent ↦ absurd (ground (arith, h name, eq_iff name name))
  | inr (p, found) ↦
      let (d, e) =
        add_stream_inputs-total ids id names (add_stream_edge dag p id)
          (λ k c. h k (ground (arith))) in
      (d, rw (found, add_stream_inputs) e)
]

pass2-total :
    (extract : String → Option (List String)) (s : Pass1) (nodes : List (String × Node)) (dag : Dag)
    → AllTasks (λ task. IsCovered task.stream_inputs s.name_to_task_id) nodes
    → (d : Dag) × (pass2 extract s nodes dag ≡ ok d)
unfolding pass2
pass2-total extract s [] dag h = (dag, refl)
pass2-total extract s ((k, node) ∷ nodes) dag h =
    let (d, inputs) =
      add_stream_inputs-total s.name_to_task_id node.id node.task.stream_inputs dag h.0 in
    let (d', rest) =
      pass2-total extract s nodes
        (add_templates extract s node.id (collect_templates_to_scan node.task) d) h.1 in
    (d', rw inputs rest)

-- The graph is built, or it has a cycle.
abbrev pub IsSettled : Result (Dag × List Node) → Type 0
IsSettled r =
    (r ≡ err (config_error "cycle detected in task dependencies"))
    ⊎ ((built : Dag × List Node) × (r ≡ ok built))

finish-IsSettled : (dag : Dag) (o : Outcome) → o ≢ out_of_fuel → IsSettled (finish dag o)
unfolding finish
finish-IsSettled dag cycle h = inl refl
finish-IsSettled dag (clear m) h = inr ((dag, ready_nodes dag.nodes), refl)
finish-IsSettled dag out_of_fuel h = absurd (h refl)

pass3-IsSettled : (dag : Dag) → IsMirrored dag → IsSettled (pass3 dag)
unfolding pass3
pass3-IsSettled dag h =
    finish-IsSettled (counted dag) (detect_cycle (counted dag))
      (detect_cycle_iff (counted dag)
        (IsMirrored-IsClosed (counted dag) (counted-IsMirrored dag h))).1

-- The stream inputs of a task are among `names`.
abbrev pub IsFed : List String → Task → Type 0
IsFed names task = (k : String) → contains k task.stream_inputs ≡ true → contains k names ≡ true

module _ (extract : String → Option (List String)) (parse : String → Option ℤ)
    (playbook : Playbook) where
  build_tasks-IsSettled :
      (tasks : List Task)
      → All
          (λ (task : Task).
            (task.internal_id ≢ "") × IsFed (names_after extract parse tasks []) task)
          tasks
      → IsSettled (build_tasks extract playbook tasks)
  unfolding build_tasks contains
  build_tasks-IsSettled [] each = inr ((record { nodes = [] }, []), refl)
  build_tasks-IsSettled (t ∷ ts) each =
      let names = names_after extract parse (t ∷ ts) [] in
      let (s, first, listed) =
        pass1-total extract parse playbook (IsFed names) (t ∷ ts) [] no_nodes each
          (record { tasks = tt; covered = λ k c. absurd (cc) }) in
      let (d, second) =
        pass2-total extract s s.dag.nodes s.dag
          (All-map s.dag.nodes (λ entry fed k c. listed.covered k (fed k c)) listed.tasks) in
      rw (first, second)
        (pass3-IsSettled d (passes-IsMirrored extract playbook (t ∷ ts) s d first second))

  pub build_dag-IsSettled :
      All
        (λ (task : Task).
          (task.internal_id ≢ "") × IsFed (names_after extract parse playbook.tasks []) task)
        playbook.tasks
      → IsSettled (build_dag extract playbook)
  unfolding build_dag
  build_dag-IsSettled each = build_tasks-IsSettled playbook.tasks each
