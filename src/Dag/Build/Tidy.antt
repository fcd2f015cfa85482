-- ===== src/Dag/Build/Tidy.antt =====
-- What `BuildDAG` keeps of each node: its key is its id, and no key stands twice in a map.
use gxo.Prelude.{
  String, false, ◌≡◌, refl, subst, inl, inr, ◌||◌, ◌&&◌, not, List, [], ◌∷◌, Option, some, arith,
  Bool-cases, Option-cases, ◌==◌, eq_iff, contains, IsNodup, IsNodup-snoc,
}
use gxo.Prelude.Dict.{Dict, get, put, keys, get-put}
use gxo.Errors.{ok, >>=-eq-ok}
use gxo.Config.{Task, Playbook}
use gxo.Config.Templates.{collect_templates_to_scan}
use gxo.Dag.Defs.{Node, Dag, add_key, update_node}
use gxo.Dag.Build.{
  Pass1, new_node, add_task, pass1, no_nodes, add_stream_edge, add_state_edge, add_stream_dep,
  add_state_dep, add_dependent, add_stream_inputs, producer_of, add_variable, add_variables,
  variables_of, add_templates, pass2,
}

pub record IsTidyNode (k : String) (node : Node) : Type 0 where
  pub keyed : node.id ≡ k
  pub required : IsNodup node.required_by
  pub streams : IsNodup node.stream_depends_on
  pub states : IsNodup node.state_depends_on

pub record IsTidy (dag : Dag) : Type 0 where
  pub distinct : IsNodup (keys dag.nodes)
  pub each : (k : String) (node : Node) → get k dag.nodes ≡ some node → IsTidyNode k node

add_key-IsNodup : (k : String) (ks : List String) → IsNodup ks → IsNodup (add_key k ks)
unfolding add_key
add_key-IsNodup k ks n = elim (Bool-cases (contains k ks)) [
  | inl is ↦ rw is n
  | inr fresh ↦ rw fresh (IsNodup-snoc k ks fresh n)
]

contains-keys-put {ℓ} :
    {V : Type ℓ} (k j : String) (v : V) (m : Dict V)
    → contains j (keys (put k v m)) ≡ (k == j || contains j (keys m))
unfolding keys put contains
contains-keys-put k j v [] = refl
contains-keys-put k j v ((i, w) ∷ m) =
    ground (arith, eq_iff k j, eq_iff i k, eq_iff i j, contains-keys-put k j v m)

keys-put-IsNodup {ℓ} :
    {V : Type ℓ} (k : String) (v : V) (m : Dict V) → IsNodup (keys m) → IsNodup (keys (put k v m))
unfolding keys put contains
keys-put-IsNodup k v [] n = (refl, tt)
keys-put-IsNodup k v ((i, w) ∷ m) n = elim (Bool-cases (i == k)) [
  | inl same ↦ rw same (subst (λ x. contains x (keys m) ≡ false) ((eq_iff i k).0 same) n.0, n.1)
  | inr other ↦ rw other (
    ground (arith, contains-keys-put k i v m, eq_iff i k, eq_iff k i),
    keys-put-IsNodup k v m n.1,
  )
]

put-IsTidy :
    (k : String) (node : Node) (dag : Dag)
    → IsTidyNode k node
    → IsTidy dag
    → IsTidy (record { nodes = put k node dag.nodes })
put-IsTidy k node dag t h = record {
  distinct = keys-put-IsNodup k node dag.nodes h.distinct;
  each = λ j n q. elim (Bool-cases (k == j)) [
    | inl same ↦
        let e : node ≡ n = ground (arith, get-put k j node dag.nodes) in
        subst (IsTidyNode j) e (subst (λ x. IsTidyNode x node) ((eq_iff k j).0 same) t)
    | inr other ↦ h.each j n (ground (arith, get-put k j node dag.nodes))
  ];
}

update_node-IsTidy :
    (k : String) (f : Node → Node) (dag : Dag)
    → ((n : Node) → IsTidyNode k n → IsTidyNode k (f n))
    → IsTidy dag
    → IsTidy (update_node k f dag)
unfolding update_node
update_node-IsTidy k f dag keeps h = elim (Option-cases (get k dag.nodes)) [
  | inl absent ↦ rw (absent, update_node) h
  | inr (n, present) ↦
      rw (present, update_node) (put-IsTidy k (f n) dag (keeps n (h.each k n present)) h)
]

add_dependent-IsTidy :
    (k c : String) (dag : Dag) → IsTidy dag → IsTidy (update_node k (add_dependent c) dag)
add_dependent-IsTidy k c dag = update_node-IsTidy k (add_dependent c) dag (λ n t. record {
  keyed = t.keyed;
  required = add_key-IsNodup c n.required_by t.required;
  streams = t.streams;
  states = t.states;
})

add_stream_edge-IsTidy : (dag : Dag) (p c : String) → IsTidy dag → IsTidy (add_stream_edge dag p c)
unfolding add_stream_edge
add_stream_edge-IsTidy dag p c h = elim (Option-cases (get c dag.nodes)) [
  | inl absent ↦ rw (absent, add_stream_edge) h
  | inr (node, present) ↦ elim (Bool-cases (contains p node.stream_depends_on)) [
    | inl known ↦ rw (present, add_stream_edge) (rw known h)
    | inr fresh ↦
        rw (present, add_stream_edge)
          (rw fresh (
            add_dependent-IsTidy p c (update_node c (add_stream_dep p) dag) (
              update_node-IsTidy c (add_stream_dep p) dag
                (λ n t. record {
                  keyed = t.keyed;
                  required = t.required;
                  streams = add_key-IsNodup p n.stream_depends_on t.streams;
                  states = t.states;
                })
                h)))
  ]
]

add_state_edge-IsTidy : (dag : Dag) (p c : String) → IsTidy dag → IsTidy (add_state_edge dag p c)
unfolding add_state_edge
add_state_edge-IsTidy dag p c h = elim (Option-cases (get c dag.nodes)) [
  | inl absent ↦ rw (absent, add_state_edge) h
  | inr (node, present) ↦ elim (Bool-cases (contains p node.state_depends_on)) [
    | inl known ↦ rw (present, add_state_edge) (rw known h)
    | inr fresh ↦
        rw (present, add_state_edge)
          (rw fresh (
            add_dependent-IsTidy p c (update_node c (add_state_dep p) dag) (
              update_node-IsTidy c (add_state_dep p) dag
                (λ n t. record {
                  keyed = t.keyed;
                  required = t.required;
                  streams = t.streams;
                  states = add_key-IsNodup p n.state_depends_on t.states;
                })
                h)))
  ]
]

pass1-IsTidy :
    (playbook : Playbook) (tasks : List Task) (s t : Pass1)
    → IsTidy s.dag
    → pass1 playbook tasks s ≡ ok t
    → IsTidy t.dag
unfolding pass1 add_task new_node
pass1-IsTidy playbook [] s t h e =
    let same : s ≡ t = ground arith in subst (λ (x : Pass1). IsTidy x.dag) same h
pass1-IsTidy playbook (task ∷ tasks) s t h e = elim (Bool-cases (task.internal_id == "")) [
  | inl empty ↦ cc (rw empty at e)
  | inr given ↦
      pass1-IsTidy playbook tasks (add_task playbook s task) t
        (put-IsTidy task.internal_id (new_node playbook task) s.dag
          (record { keyed = refl; required = tt; streams = tt; states = tt }) h)
        (rw given at e)
]

module _ (s : Pass1) where
  add_stream_inputs-IsTidy :
      (id : String) (names : List String) (b c : Dag)
      → IsTidy b
      → add_stream_inputs s.name_to_task_id id names b ≡ ok c
      → IsTidy c
  unfolding add_stream_inputs
  add_stream_inputs-IsTidy id [] b c h e = subst IsTidy (ground arith) h
  add_stream_inputs-IsTidy id (name ∷ names) b c h e =
      elim (Option-cases (get name s.name_to_task_id)) [
        | inl absent ↦ cc (rw (absent, add_stream_inputs) at e)
        | inr (p, found) ↦
            add_stream_inputs-IsTidy id names (add_stream_edge b p id) c
              (add_stream_edge-IsTidy b p id h) (rw (found, add_stream_inputs) at e)
      ]

  add_variable-IsTidy :
      (id : String) (b : Dag) (path : String) → IsTidy b → IsTidy (add_variable s id b path)
  unfolding add_variable
  add_variable-IsTidy id b path h = elim (Option-cases (producer_of s path)) [
    | inl absent ↦ rw (absent, add_variable) h
    | inr (p, found) ↦ elim (Bool-cases (not (p == "") && not (p == id))) [
      | inl edge ↦ rw (found, add_variable) (rw edge (add_state_edge-IsTidy b p id h))
      | inr no_edge ↦ rw (found, add_variable) (rw no_edge h)
    ]
  ]

  add_variables-IsTidy :
      (id : String) (paths : List String) (b : Dag) → IsTidy b → IsTidy (add_variables s id paths b)
  unfolding add_variables
  add_variables-IsTidy id [] b h = h
  add_variables-IsTidy id (path ∷ paths) b h =
      add_variables-IsTidy id paths (add_variable s id b path) (add_variable-IsTidy id b path h)

  module _ (extract : String → Option (List String)) where
    add_templates-IsTidy :
        (id : String) (templates : List String) (b : Dag)
        → IsTidy b
        → IsTidy (add_templates extract s id templates b)
    unfolding add_templates
    add_templates-IsTidy id [] b h = h
    add_templates-IsTidy id (t ∷ ts) b h =
        add_templates-IsTidy id ts (add_variables s id (variables_of extract t) b)
          (add_variables-IsTidy id (variables_of extract t) b h)

    pub pass2-IsTidy :
        (nodes : List (String × Node)) (b c : Dag)
        → IsTidy b
        → pass2 extract s nodes b ≡ ok c
        → IsTidy c
    unfolding pass2
    pass2-IsTidy [] b c h e = subst IsTidy (ground arith) h
    pass2-IsTidy ((k, node) ∷ nodes) b c h e =
        let (d, first, rest) =
          >>=-eq-ok (add_stream_inputs s.name_to_task_id node.id node.task.stream_inputs b) _ e in
        pass2-IsTidy nodes (add_templates extract s node.id (collect_templates_to_scan node.task) d)
          c
          (add_templates-IsTidy node.id (collect_templates_to_scan node.task) d
            (add_stream_inputs-IsTidy node.id node.task.stream_inputs b d h first))
          rest

pub passes-IsTidy :
    (extract : String → Option (List String)) (playbook : Playbook) (tasks : List Task) (s : Pass1)
    (d : Dag)
    → pass1 playbook tasks no_nodes ≡ ok s
    → pass2 extract s s.dag.nodes s.dag ≡ ok d
    → IsTidy d
unfolding get keys
passes-IsTidy extract playbook tasks s d first second =
    pass2-IsTidy s extract s.dag.nodes s.dag d
      (pass1-IsTidy playbook tasks no_nodes s
        (record { distinct = tt; each = λ k node q. absurd (cc) }) first)
      second
