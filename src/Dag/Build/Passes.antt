-- ===== src/Dag/Build/Passes.antt =====
-- What the first two passes of `BuildDAG` keep: every id that a name or a variable stands for is the
-- id of a node, and `RequiredBy` mirrors the dependencies.
use text.Mathlib.Text.{starts_with}
use gxo.Prelude.{
  String, true, ◌≡◌, refl, subst, ◌∙◌, inl, inr, ◌&&◌, not, List, [], ◌∷◌, Option, some, arith,
  Bool-cases, Option-cases, if◌then◌else◌, ◌==◌, eq_iff, contains, is_some,
}
use gxo.Prelude.Dict.{Dict, get, put, get-put}
use gxo.Prelude.Text.{split_dots}
use gxo.Errors.{ok, >>=-eq-ok}
use gxo.Config.{Task, Playbook}
use gxo.Dag.Defs.{Node, Dag, dependents, stream_deps, state_deps}
use gxo.Dag.Build.{
  Pass1, new_node, note_id, add_task, pass1, no_nodes, add_stream_edge, add_state_edge,
  add_stream_inputs, producer_of, task_of_parts, add_variable, add_variables, variables_of,
  add_templates, pass2,
}
use gxo.Dag.Build.Edges.{
  IsMirrored, add_stream_edge-IsMirrored, add_state_edge-IsMirrored, is_some-add_stream_edge,
  is_some-add_state_edge,
}
use gxo.Config.Templates.{collect_templates_to_scan}

-- Every id in `ids` is the id of a node.
abbrev pub IsKnown : Dag → Dict String → Type 0
IsKnown dag ids = (name id : String) → get name ids ≡ some id → is_some (get id dag.nodes) ≡ true

abbrev pub SameNodes : Dag → Dag → Type 0
SameNodes a b = (k : String) → is_some (get k b.nodes) ≡ is_some (get k a.nodes)

-- A graph with no edges.
record IsBare (dag : Dag) : Type 0 where
  no_dependents : (k : String) → dependents dag k ≡ []
  no_stream_deps : (k : String) → stream_deps dag k ≡ []
  no_state_deps : (k : String) → state_deps dag k ≡ []

record Inv1 (s : Pass1) : Type 0 where
  bare : IsBare s.dag
  names : IsKnown s.dag s.name_to_task_id
  vars : IsKnown s.dag s.registered_vars_to_task_id

note_id-IsKnown :
    (dag dag' : Dag) (name id : String) (ids : Dict String)
    → ((k : String) → is_some (get k dag.nodes) ≡ true → is_some (get k dag'.nodes) ≡ true)
    → is_some (get id dag'.nodes) ≡ true
    → IsKnown dag ids
    → IsKnown dag' (note_id name id ids)
unfolding note_id
note_id-IsKnown dag dag' name id ids more here h n i e =
    ground (arith, h n i, more i, get-put name n id ids)

module _ (playbook : Playbook) (s : Pass1) (task : Task) where
  abbrev added : Dag
  added = record { nodes = put task.internal_id (new_node playbook task) s.dag.nodes }

  added_law :
      (k : String)
      → get k added.nodes
        ≡ (if task.internal_id == k then some (new_node playbook task) else get k s.dag.nodes)
  added_law k = get-put task.internal_id k (new_node playbook task) s.dag.nodes

  added_here : is_some (get task.internal_id added.nodes) ≡ true
  added_here = ground (arith, added_law task.internal_id, eq_iff task.internal_id task.internal_id)

  added_more :
      (k : String) → is_some (get k s.dag.nodes) ≡ true → is_some (get k added.nodes) ≡ true
  added_more k p = ground (arith, added_law k)

  added-IsBare : IsBare s.dag → IsBare added
  unfolding dependents stream_deps state_deps new_node
  added-IsBare h = record {
    no_dependents = λ k. ground (arith, added_law k, h.no_dependents k);
    no_stream_deps = λ k. ground (arith, added_law k, h.no_stream_deps k);
    no_state_deps = λ k. ground (arith, added_law k, h.no_state_deps k);
  }

  add_task-Inv1 : Inv1 s → Inv1 (add_task playbook s task)
  unfolding add_task
  add_task-Inv1 h = record {
    bare = added-IsBare h.bare;
    names =
        note_id-IsKnown s.dag added task.name task.internal_id s.name_to_task_id added_more
          added_here h.names;
    vars =
        note_id-IsKnown s.dag added task.register task.internal_id s.registered_vars_to_task_id
          added_more added_here h.vars;
  }

pass1-Inv1 :
    (playbook : Playbook) (tasks : List Task) (s t : Pass1)
    → Inv1 s
    → pass1 playbook tasks s ≡ ok t
    → Inv1 t
unfolding pass1
pass1-Inv1 playbook [] s t h e = subst Inv1 (ground arith) h
pass1-Inv1 playbook (task ∷ tasks) s t h e = elim (Bool-cases (task.internal_id == "")) [
  | inl empty ↦ cc (rw empty at e)
  | inr given ↦
      pass1-Inv1 playbook tasks (add_task playbook s task) t (add_task-Inv1 playbook s task h)
        (rw given at e)
]

no_nodes-Inv1 : Inv1 no_nodes
unfolding get dependents stream_deps state_deps
no_nodes-Inv1 = record {
  bare = record {
    no_dependents = λ k. refl;
    no_stream_deps = λ k. refl;
    no_state_deps = λ k. refl;
  };
  names = λ n i e. cc;
  vars = λ n i e. cc;
}

IsBare-IsMirrored : (dag : Dag) → IsBare dag → IsMirrored dag
unfolding contains
IsBare-IsMirrored dag h u v =
    ground (arith, h.no_dependents u, h.no_stream_deps v, h.no_state_deps v)

-- What the second pass keeps, from the graph `a` of the first.
record Inv2 (a b : Dag) : Type 0 where
  same : SameNodes a b
  mirrored : IsMirrored b

abbrev IsKnownIn : Dag → Pass1 → Type 0
IsKnownIn dag s = IsKnown dag s.name_to_task_id × IsKnown dag s.registered_vars_to_task_id

module _ (a : Dag) (s : Pass1) (known : IsKnownIn a s) where
  stream_edge-Inv2 :
      (b : Dag) (p c : String)
      → is_some (get p a.nodes) ≡ true
      → Inv2 a b
      → Inv2 a (add_stream_edge b p c)
  stream_edge-Inv2 b p c here h = record {
    same = λ k. is_some-add_stream_edge b p c k ∙ h.same k;
    mirrored = add_stream_edge-IsMirrored b p c (h.same p ∙ here) h.mirrored;
  }

  state_edge-Inv2 :
      (b : Dag) (p c : String)
      → is_some (get p a.nodes) ≡ true
      → Inv2 a b
      → Inv2 a (add_state_edge b p c)
  state_edge-Inv2 b p c here h = record {
    same = λ k. is_some-add_state_edge b p c k ∙ h.same k;
    mirrored = add_state_edge-IsMirrored b p c (h.same p ∙ here) h.mirrored;
  }

  add_stream_inputs-Inv2 :
      (id : String) (names : List String) (b c : Dag)
      → Inv2 a b
      → add_stream_inputs s.name_to_task_id id names b ≡ ok c
      → Inv2 a c
  unfolding add_stream_inputs
  add_stream_inputs-Inv2 id [] b c h e = subst (Inv2 a) (ground arith) h
  add_stream_inputs-Inv2 id (name ∷ names) b c h e =
      elim (Option-cases (get name s.name_to_task_id)) [
        | inl absent ↦ cc (rw (absent, add_stream_inputs) at e)
        | inr (p, found) ↦
            add_stream_inputs-Inv2 id names (add_stream_edge b p id) c
              (stream_edge-Inv2 b p id (known.0 name p found) h)
              (rw (found, add_stream_inputs) at e)
      ]

  task_of_parts-known :
      (parts : List String) (producer : String)
      → task_of_parts s.name_to_task_id parts ≡ some producer
      → is_some (get producer a.nodes) ≡ true
  unfolding task_of_parts
  task_of_parts-known (x ∷ y ∷ name ∷ z ∷ []) producer e = known.0 name producer e
  task_of_parts-known parts producer e = cc

  producer_of-known :
      (path producer : String)
      → producer_of s path ≡ some producer
      → is_some (get producer a.nodes) ≡ true
  unfolding producer_of
  producer_of-known path producer e = elim (Bool-cases (starts_with path "_gxo.tasks.")) [
    | inl status ↦ task_of_parts-known (split_dots path) producer (rw status at e)
    | inr var ↦ known.1 path producer (rw var at e)
  ]

  add_variable-Inv2 : (id path : String) (b : Dag) → Inv2 a b → Inv2 a (add_variable s id b path)
  unfolding add_variable
  add_variable-Inv2 id path b h = elim (Option-cases (producer_of s path)) [
    | inl absent ↦ rw (absent, add_variable) h
    | inr (p, found) ↦
        rw (found, add_variable)
          (elim (Bool-cases (not (p == "") && not (p == id))) [
            | inl other ↦ rw other (state_edge-Inv2 b p id (producer_of-known path p found) h)
            | inr own ↦ rw own h
          ])
  ]

  add_variables-Inv2 :
      (id : String) (paths : List String) (b : Dag) → Inv2 a b → Inv2 a (add_variables s id paths b)
  unfolding add_variables
  add_variables-Inv2 id [] b h = h
  add_variables-Inv2 id (path ∷ paths) b h =
      add_variables-Inv2 id paths (add_variable s id b path) (add_variable-Inv2 id path b h)

  module _ (extract : String → Option (List String)) where
    add_templates-Inv2 :
        (id : String) (templates : List String) (b : Dag)
        → Inv2 a b
        → Inv2 a (add_templates extract s id templates b)
    unfolding add_templates
    add_templates-Inv2 id [] b h = h
    add_templates-Inv2 id (template ∷ templates) b h =
        add_templates-Inv2 id templates (add_variables s id (variables_of extract template) b)
          (add_variables-Inv2 id (variables_of extract template) b h)

    pass2-Inv2 :
        (nodes : List (String × Node)) (b c : Dag)
        → Inv2 a b
        → pass2 extract s nodes b ≡ ok c
        → Inv2 a c
    unfolding pass2
    pass2-Inv2 [] b c h e = subst (Inv2 a) (ground arith) h
    pass2-Inv2 ((k, node) ∷ nodes) b c h e =
        let (d, inputs, rest) =
          >>=-eq-ok (add_stream_inputs s.name_to_task_id node.id node.task.stream_inputs b) _ e in
        pass2-Inv2 nodes _ c
          (add_templates-Inv2 node.id (collect_templates_to_scan node.task) d
            (add_stream_inputs-Inv2 node.id node.task.stream_inputs b d h inputs))
          rest

-- After the first two passes `RequiredBy` is the inverse of the dependencies.
pub passes-IsMirrored :
    (extract : String → Option (List String)) (playbook : Playbook) (tasks : List Task) (s : Pass1)
    (dag : Dag)
    → pass1 playbook tasks no_nodes ≡ ok s
    → pass2 extract s s.dag.nodes s.dag ≡ ok dag
    → IsMirrored dag
passes-IsMirrored extract playbook tasks s dag first second =
    let h = pass1-Inv1 playbook tasks no_nodes s no_nodes-Inv1 first in
    let inv =
      pass2-Inv2 s.dag s (h.names, h.vars) extract s.dag.nodes s.dag dag
        (record { same = λ k. refl; mirrored = IsBare-IsMirrored s.dag h.bare }) second in
    inv.mirrored

pub no_nodes-IsMirrored : IsMirrored (record { nodes = [] })
no_nodes-IsMirrored = IsBare-IsMirrored (record { nodes = [] }) no_nodes-Inv1.bare
