-- ===== src/Dag/Build/Loaded.antt =====
-- `BuildDAG` on what `LoadPlaybook` returns.
use gxo.Prelude.{
  ℕ, suc, String, ◌≡◌, ◌≢◌, refl, sym, subst, ◌⊎◌, List, [], ◌∷◌, Option, All, if◌then◌else◌, ◌==◌,
}
use gxo.Prelude.Int.{ℤ}
use gxo.Errors.{config_error, ok, err}
use gxo.Config.{Task, Playbook}
use gxo.Config.Validation.Names.{names_after, validated_names}
use gxo.Config.Loading.{Libraries, assign_id, assign_ids, assign_internal_task_ids, load_playbook}
use gxo.Config.Loading.Loaded.{load_playbook-source}
use gxo.Config.Loading.Ids.{assign_id-filled}
use gxo.Dag.Defs.{Node, Dag}
use gxo.Dag.Build.{build_dag}
use gxo.Dag.Build.Total.{IsFed, IsSettled, build_dag-IsSettled}

module _ (extract : String → Option (List String)) (parse : String → Option ℤ) where
  names_after-assign_ids :
      (i : ℕ) (tasks : List Task) (acc : List String)
      → names_after extract parse (assign_ids i tasks) acc ≡ names_after extract parse tasks acc
  unfolding assign_ids
  names_after-assign_ids i [] acc = refl
  names_after-assign_ids i (task ∷ tasks) acc =
      names_after-assign_ids (suc i) tasks (if task.name == "" then acc else task.name ∷ acc)

-- What holds of each task holds of it with its id.
All-assign_ids :
    (P : Task → Type 0) (i : ℕ) (tasks : List Task)
    → ((j : ℕ) (task : Task) → P task → P (assign_id j task))
    → All P tasks
    → All (λ (task : Task). (task.internal_id ≢ "") × P task) (assign_ids i tasks)
unfolding assign_ids
All-assign_ids P i [] keep h = tt
All-assign_ids P i (task ∷ tasks) keep h =
    ((assign_id-filled i task, keep i task h.0), All-assign_ids P (suc i) tasks keep h.1)

module _ {S J : Type 0} (libraries : Libraries S J) (schema_v1 document : String)
    (p : Playbook) where
  -- A playbook that `LoadPlaybook` returns is one that `BuildDAG` accepts, unless it reports a cycle
  -- of dependencies: no other error occurs.
  pub loaded_playbook_builds :
      load_playbook libraries schema_v1 document ≡ ok p
      → (build_dag libraries.extract_variables p
          ≡ err (config_error "cycle detected in task dependencies"))
        ⊎ ((built : Dag × List Node) × (build_dag libraries.extract_variables p ≡ ok built))
  unfolding assign_internal_task_ids
  loaded_playbook_builds e =
      let extract = libraries.extract_variables in
      let parse = libraries.parse_duration in
      let (q, source) = load_playbook-source libraries schema_v1 document p e in
      let valid = validated_names extract parse q source.0 in
      let given =
        All-assign_ids (IsFed (names_after extract parse q.tasks [])) 0 q.tasks (λ j task h. h)
          valid.2 in
      subst (λ r. IsSettled (build_dag extract r)) (sym source.1)
        (build_dag-IsSettled extract parse (assign_internal_task_ids q) (
          subst
            (λ names.
              All (λ (task : Task). (task.internal_id ≢ "") × IsFed names task)
                (assign_ids 0 q.tasks))
            (sym (names_after-assign_ids extract parse 0 q.tasks [])) given))
