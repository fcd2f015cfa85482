-- ===== src/Config/Loading/Ids.antt =====
-- The ids that `assignInternalTaskIDs` gives are all different where no name is like a given id.
use Prim.Native.Nat.{◌≤◌}
use text.Mathlib.Text.{starts_with}
use text.Mathlib.TextPositions.{starts_with-append}
use text.Mathlib.TextLemmas.{append_cancel_left, append-eq-nil_iff, cons-ne-nil}
use gxo.Prelude.{
  ℕ, suc, String, true, false, ◌≡◌, ◌≢◌, refl, sym, ap, subst, ◌∙◌, inl, inr, List, [], ◌∷◌, Option,
  arith, Bool-cases, ◌==◌, eq_iff, contains, IsNodup, All,
}
use gxo.Prelude.Decimal.{decimal, decimal_injective}
use gxo.Prelude.Int.{ℤ}
use gxo.Errors.{ok}
use gxo.Config.{Task, Playbook}
use gxo.Config.Validation.Names.{names_after, validated_names}
use gxo.Config.Loading.{
  Libraries, index_id, assign_id, assign_ids, assign_internal_task_ids, load_playbook,
}
use gxo.Config.Loading.Loaded.{load_playbook-source}

abbrev pub names : List Task → List String
names [] = []
names (task ∷ tasks) = task.name ∷ names tasks

abbrev pub internal_ids : List Task → List String
internal_ids [] = []
internal_ids (task ∷ tasks) = task.internal_id ∷ internal_ids tasks

-- No task has the name that stands for the place of a task without a name.
abbrev pub NoIndexName : List Task → Type 0
NoIndexName tasks = (i : ℕ) → contains (index_id i) (names tasks) ≡ false

-- It is enough that no name has the prefix.
pub NoIndexName-prefix :
    (tasks : List Task)
    → All (λ (task : Task). starts_with task.name "__task_idx_" ≡ false) tasks
    → NoIndexName tasks
unfolding index_id contains
NoIndexName-prefix [] h i = refl
NoIndexName-prefix (task ∷ tasks) h i = elim (Bool-cases (task.name == index_id i)) [
  | inl same ↦
      let prefix : starts_with task.name "__task_idx_" ≡ true =
        subst (λ name. starts_with name "__task_idx_" ≡ true)
          (sym ((eq_iff task.name (index_id i)).0 same))
          (starts_with-append "__task_idx_" (decimal i)) in
      cc
  | inr other ↦ rw other (NoIndexName-prefix tasks h.1 i)
]

index_id_injective : (i j : ℕ) → index_id i ≡ index_id j → i ≡ j
unfolding index_id
index_id_injective i j e = decimal_injective i j (append_cancel_left "__task_idx_" _ _ e)

index_id-filled : (i : ℕ) → index_id i ≢ ""
unfolding index_id
index_id-filled i e = cons-ne-nil _ _ (append-eq-nil_iff.0 e).0

pub assign_id-filled : (i : ℕ) (task : Task) → (assign_id i task).internal_id ≢ ""
assign_id-filled i task e = elim (Bool-cases (task.name == "")) [
  | inl empty ↦ index_id-filled i (rw empty at e)
  | inr given ↦ ground (arith, eq_iff task.name "")
]

-- An id that is neither a name nor that of a place to come is not given.
ids_avoid :
    (k : String) (i : ℕ) (tasks : List Task)
    → contains k (names tasks) ≡ false
    → ((j : ℕ) → i ≤ j → index_id j ≢ k)
    → contains k (internal_ids (assign_ids i tasks)) ≡ false
unfolding assign_ids contains
ids_avoid k i [] c far = refl
ids_avoid k i (task ∷ tasks) c far =
    let rest = ids_avoid k (suc i) tasks (ground arith) (λ j le. far j (omega arith)) in
    elim (Bool-cases (task.name == "")) [
      | inl empty ↦ rw empty (ground (arith, far i (omega arith), eq_iff (index_id i) k))
      | inr given ↦ rw given (ground arith)
    ]

module _ (extract : String → Option (List String)) (parse : String → Option ℤ) where
  names_after-nodup :
      (tasks : List Task) (acc : List String)
      → IsNodup (names_after extract parse tasks acc)
      → IsNodup acc
  names_after-nodup [] acc h = h
  names_after-nodup (task ∷ tasks) acc h = elim (Bool-cases (task.name == "")) [
    | inl empty ↦ names_after-nodup tasks acc (rw empty at h)
    | inr given ↦ (names_after-nodup tasks (task.name ∷ acc) (rw given at h)).1
  ]

  -- A name that has been seen does not come again.
  names_after-fresh :
      (k : String) (tasks : List Task) (acc : List String)
      → IsNodup (names_after extract parse tasks acc)
      → contains k acc ≡ true
      → k ≢ ""
      → contains k (names tasks) ≡ false
  unfolding contains
  names_after-fresh k [] acc h c filled = refl
  names_after-fresh k (task ∷ tasks) acc h c filled = elim (Bool-cases (task.name == "")) [
    | inl empty ↦
        let rest = names_after-fresh k tasks acc (rw empty at h) c filled in
        ground (arith, eq_iff task.name "", eq_iff task.name k)
    | inr given ↦
        let n = names_after-nodup tasks (task.name ∷ acc) (rw given at h) in
        let rest =
          names_after-fresh k tasks (task.name ∷ acc) (rw given at h) (ground arith) filled in
        ground (arith, n.0, eq_iff task.name k)
  ]

  ids_distinct :
      (i : ℕ) (tasks : List Task) (acc : List String)
      → IsNodup (names_after extract parse tasks acc)
      → NoIndexName tasks
      → IsNodup (internal_ids (assign_ids i tasks))
  unfolding assign_ids contains
  ids_distinct i [] acc h free = tt
  ids_distinct i (task ∷ tasks) acc h free = elim (Bool-cases (task.name == "")) [
    | inl empty ↦ rw empty (
      ids_avoid (index_id i) (suc i) tasks (later i)
          (λ j le e. absurd (omega (arith, index_id_injective j i e))),
      ids_distinct (suc i) tasks acc (rw empty at h) later,
    )
    | inr given ↦ rw given (
      ids_avoid task.name (suc i) tasks
          (names_after-fresh task.name tasks (task.name ∷ acc) (rw given at h)
            (ground (arith, eq_iff task.name task.name)) (λ q. ground (arith, eq_iff task.name "")))
          (λ j le e. ground (arith, free j, eq_iff task.name (index_id j))),
      ids_distinct (suc i) tasks (task.name ∷ acc) (rw given at h) later,
    )
  ]
    where
      later : NoIndexName tasks
      later j = ground (arith, free j)

names-assign_ids : (i : ℕ) (tasks : List Task) → names (assign_ids i tasks) ≡ names tasks
unfolding assign_ids
names-assign_ids i [] = refl
names-assign_ids i (task ∷ tasks) = ap (λ ns. task.name ∷ ns) (names-assign_ids (suc i) tasks)

module _ {S J : Type 0} (libraries : Libraries S J) (schema_v1 document : String)
    (p : Playbook) where
  -- In a playbook that `LoadPlaybook` returns no two tasks have the same `InternalID`, if no task
  -- has a name of the form `__task_idx_` followed by a number in decimals.
  pub loaded_ids_distinct :
      load_playbook libraries schema_v1 document ≡ ok p
      → NoIndexName p.tasks
      → IsNodup (internal_ids p.tasks)
  unfolding assign_internal_task_ids
  loaded_ids_distinct e free =
      let (q, source) = load_playbook-source libraries schema_v1 document p e in
      let valid = validated_names libraries.extract_variables libraries.parse_duration q source.0 in
      let tasks : p.tasks ≡ assign_ids 0 q.tasks = ap (λ (r : Playbook). r.tasks) source.1 in
      let unnamed : NoIndexName q.tasks = λ i.
        ap (contains (index_id i)) (sym (ap names tasks ∙ names-assign_ids 0 q.tasks)) ∙ free i in
      subst (λ ts. IsNodup (internal_ids ts)) (sym tasks)
        (ids_distinct libraries.extract_variables libraries.parse_duration 0 q.tasks [] valid.1
          unnamed)
