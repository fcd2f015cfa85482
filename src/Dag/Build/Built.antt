-- ===== src/Dag/Build/Built.antt =====
-- What `BuildDAG` promises of the graph that it returns.
use mathlib.Core.List.{Memᴰ}
use mathlib.Core.List.Memᴰ
use gxo.Prelude.{
  ◌<◌, ◌^◌, String, true, ◌≡◌, ◌≢◌, refl, sym, ap, subst, ◌∙◌, inl, inr, ◌||◌, ◌↔◌, List, [], ◌∷◌,
  Option, some, arith, Bool-cases, Option-cases, ◌==◌, contains, length, IsNodup,
}
use gxo.Prelude.Dict.{Dict, get, keys, is_some-get}
use gxo.Prelude.Int.{pos, to_int32, to_int32_of_lt}
use gxo.Errors.{ok, >>=-eq-ok}
use gxo.Config.{Task, Playbook}
use gxo.Dag.Defs.{Node, Dag, dependents, stream_deps, state_deps, node_ids, map_node}
use gxo.Dag.Cycle.{Outcome, cycle, clear, out_of_fuel, detect_cycle}
use gxo.Dag.Cycle.Walks.{Walk, one, more, IsCyclic}
use gxo.Dag.Cycle.Fuel.{IsClosed}
use gxo.Dag.Cycle.Exact.{detect_cycle_iff}
use gxo.Dag.Build.{
  pass1, no_nodes, pass2, pass3, count_deps, is_ready, init_counters, ready_nodes, finish,
  build_tasks, build_dag,
}
use gxo.Dag.Build.Edges.{IsMirrored}
use gxo.Dag.Build.Tidy.{IsTidyNode, IsTidy, passes-IsTidy}
use gxo.Dag.Build.Passes.{passes-IsMirrored, no_nodes-IsMirrored}

-- Every dependent is a node, since it has a dependency.
pub IsMirrored-IsClosed : (dag : Dag) → IsMirrored dag → IsClosed dag
unfolding stream_deps state_deps node_ids contains
IsMirrored-IsClosed dag h u v edge = ground (arith, h u v, is_some-get v dag.nodes)

abbrev pub counted : Dag → Dag
counted dag = record dag { nodes = init_counters dag.nodes }

get-init_counters :
    (k : String) (nodes : Dict Node)
    → get k (init_counters nodes) ≡ map_node count_deps (get k nodes)
unfolding get init_counters
get-init_counters k [] = refl
get-init_counters k ((j, node) ∷ nodes) = ground (arith, get-init_counters k nodes)

dependents-counted : (dag : Dag) (k : String) → dependents (counted dag) k ≡ dependents dag k
unfolding dependents
dependents-counted dag k = ground (arith, get-init_counters k dag.nodes)

pub counted-IsMirrored : (dag : Dag) → IsMirrored dag → IsMirrored (counted dag)
unfolding stream_deps state_deps
counted-IsMirrored dag h u v =
    ground (arith, h u v, dependents-counted dag u, get-init_counters v dag.nodes)

Walk-counted : (dag : Dag) {u v : String} → Walk (counted dag) u v → Walk dag u v
Walk-counted dag {u} (one e) = one (rw dependents-counted at e)
Walk-counted dag (more w e) = more (Walk-counted dag w) (rw dependents-counted at e)

finish-eq-ok :
    (dag : Dag) (o : Outcome) (d : Dag) (r : List Node)
    → finish dag o ≡ ok (d, r)
    → (o ≢ cycle) × (d ≡ dag) × (r ≡ ready_nodes dag.nodes)
unfolding finish
finish-eq-ok dag cycle d r e = absurd (cc)
finish-eq-ok dag (clear m) d r e = (λ q. cc, ground arith, ground arith)
finish-eq-ok dag out_of_fuel d r e = absurd (cc)

-- The graph has the counters of its dependencies, mirrors them, and has no cycle.
pub record IsBuilt (dag : Dag) (ready : List Node) : Type 0 where
  pub mirrored : IsMirrored dag
  pub acyclic : ¬ IsCyclic dag
  pub counters :
      (k : String) (node : Node)
      → get k dag.nodes ≡ some node
      → (node.stream_deps_remaining ≡ to_int32 (length node.stream_depends_on))
        × (node.state_deps_remaining ≡ to_int32 (length node.state_depends_on))
  pub initial : ready ≡ ready_nodes dag.nodes
  pub tidy : IsTidy dag

keys-init_counters : (nodes : Dict Node) → keys (init_counters nodes) ≡ keys nodes
unfolding keys init_counters
keys-init_counters [] = refl
keys-init_counters ((k, node) ∷ nodes) = ap (λ ks. k ∷ ks) (keys-init_counters nodes)

counted-IsTidy : (dag : Dag) → IsTidy dag → IsTidy (counted dag)
counted-IsTidy dag h = record {
  distinct = subst IsNodup (sym (keys-init_counters dag.nodes)) h.distinct;
  each = λ k node e. elim (Option-cases (get k dag.nodes)) [
    | inl absent ↦ absurd (ground (arith, get-init_counters k dag.nodes))
    | inr (n, present) ↦
        let t = h.each k n present in
        let same : count_deps n ≡ node = ground (arith, get-init_counters k dag.nodes) in
        subst (IsTidyNode k) same (record {
          keyed = t.keyed;
          required = t.required;
          streams = t.streams;
          states = t.states;
        })
  ];
}

counted_counters :
    (dag : Dag) (k : String) (node : Node)
    → get k (counted dag).nodes ≡ some node
    → (node.stream_deps_remaining ≡ to_int32 (length node.stream_depends_on))
      × (node.state_deps_remaining ≡ to_int32 (length node.state_depends_on))
counted_counters dag k node e = ground (arith, get-init_counters k dag.nodes)

pass3-IsBuilt :
    (d dag : Dag) (ready : List Node)
    → IsMirrored d
    → IsTidy d
    → pass3 d ≡ ok (dag, ready)
    → IsBuilt dag ready
unfolding pass3
pass3-IsBuilt d dag ready mirrored tidy e =
    let (no_cycle, same, initial) =
      finish-eq-ok (counted d) (detect_cycle (counted d)) dag ready e in
    let m = counted-IsMirrored d mirrored in
    subst (λ g. IsBuilt g ready) (sym same)
      (record {
        mirrored = m;
        acyclic = λ c.
            no_cycle ((detect_cycle_iff (counted d) (IsMirrored-IsClosed (counted d) m)).0.1 c);
        counters = counted_counters d;
        initial = initial;
        tidy = counted-IsTidy d tidy;
      })

no_walk : {u v : String} → Walk (record { nodes = [] }) u v → ⊥
unfolding dependents get contains
no_walk (one e) = cc
no_walk (more w e) = no_walk w

module _ (extract : String → Option (List String)) (playbook : Playbook) where
  build_tasks-IsBuilt :
      (tasks : List Task) (dag : Dag) (ready : List Node)
      → build_tasks extract playbook tasks ≡ ok (dag, ready)
      → IsBuilt dag ready
  unfolding build_tasks get keys
  build_tasks-IsBuilt [] dag ready e =
      subst (λ g. IsBuilt g ready) (ground arith)
        (record {
          mirrored = no_nodes-IsMirrored;
          acyclic = λ (k, w). no_walk w;
          counters = λ k node q. absurd (cc);
          initial = ground arith;
          tidy = record { distinct = tt; each = λ k node q. absurd (cc) };
        })
  build_tasks-IsBuilt (t ∷ ts) dag ready e =
      let (s, first, rest) = >>=-eq-ok (pass1 playbook (t ∷ ts) no_nodes) _ e in
      let (d, second, last) = >>=-eq-ok (pass2 extract s s.dag.nodes s.dag) _ rest in
      pass3-IsBuilt d dag ready (passes-IsMirrored extract playbook (t ∷ ts) s d first second)
        (passes-IsTidy extract playbook (t ∷ ts) s d first second) last

-- A node is in the list exactly when both of its counters are 0.
mem-ready_nodes :
    (nodes : Dict Node) (k : String) (node : Node)
    → get k nodes ≡ some node
    → is_ready node ≡ true
    → Memᴰ node (ready_nodes nodes)
unfolding ready_nodes get
mem-ready_nodes [] k node e r = absurd (cc)
mem-ready_nodes ((j, first) ∷ nodes) k node e r = elim (Bool-cases (j == k)) [
  | inl same ↦ let h : first ≡ node = ground arith in rw (h, r) (Memᴰ.head refl)
  | inr other ↦
      let rest = mem-ready_nodes nodes k node (rw other at e) r in
      elim (Bool-cases (is_ready first)) [ inl a ↦ rw a (Memᴰ.tail rest) | inr a ↦ rw a rest ]
]

is_ready_of_mem :
    (nodes : Dict Node) (node : Node) → Memᴰ node (ready_nodes nodes) → is_ready node ≡ true
unfolding ready_nodes
is_ready_of_mem [] node m = elim m [ ]
is_ready_of_mem ((j, first) ∷ nodes) node m = elim (Bool-cases (is_ready first)) [
  | inl a ↦ elim (Memᴰ.cases_cons (rw (a, ready_nodes) at m)) [
    | inl e ↦ subst (λ x. is_ready x ≡ true) (sym e) a
    | inr rest ↦ is_ready_of_mem nodes node rest
  ]
  | inr a ↦ is_ready_of_mem nodes node (rw (a, ready_nodes) at m)
]

length-eq-zero : (xs : List String) → length xs ≡ 0 → xs ≡ []
length-eq-zero [] h = refl
length-eq-zero (x ∷ xs) h = absurd (omega arith)

module _ (extract : String → Option (List String)) (playbook : Playbook) (dag : Dag)
    (ready : List Node) (built : build_dag extract playbook ≡ ok (dag, ready)) where
  pub is_built : IsBuilt dag ready
  unfolding build_dag
  is_built = build_tasks-IsBuilt extract playbook playbook.tasks dag ready built

  -- In the graph of a successful `BuildDAG` a node `v` is in `RequiredBy` of `u` exactly when `u` is
  -- in `StreamDependsOn` or in `StateDependsOn` of `v`, and no walk leads from a node to itself.
  pub build_dag_consistent :
      ((u v : String)
        → contains v (dependents dag u)
          ≡ (contains u (stream_deps dag v) || contains u (state_deps dag v)))
      × (¬ IsCyclic dag)
  build_dag_consistent = (is_built.mirrored, is_built.acyclic)

  -- The counters of each node of the graph are the numbers of its stream and state dependencies as
  -- an int32; and if those are below 2 ^ 31, the node is initially ready exactly when it has none.
  pub build_dag_ready :
      (k : String) (node : Node)
      → get k dag.nodes ≡ some node
      → length node.stream_depends_on < 2 ^ 31
      → length node.state_depends_on < 2 ^ 31
      → (node.stream_deps_remaining ≡ to_int32 (length node.stream_depends_on))
        × (node.state_deps_remaining ≡ to_int32 (length node.state_depends_on))
        × (Memᴰ node ready ↔ ((node.stream_depends_on ≡ []) × (node.state_depends_on ≡ [])))
  build_dag_ready k node here small small' = (counters.0, counters.1, (no_deps, in_ready))
    where
      counters :
          (node.stream_deps_remaining ≡ to_int32 (length node.stream_depends_on))
          × (node.state_deps_remaining ≡ to_int32 (length node.state_depends_on))
      counters = is_built.counters k node here

      both :
          (node.stream_deps_remaining ≡ pos (length node.stream_depends_on))
          × (node.state_deps_remaining ≡ pos (length node.state_depends_on))
      both = (counters.0 ∙ to_int32_of_lt _ small, counters.1 ∙ to_int32_of_lt _ small')

      no_deps : Memᴰ node ready → (node.stream_depends_on ≡ []) × (node.state_depends_on ≡ [])
      no_deps m =
          let r = is_ready_of_mem dag.nodes node (subst (Memᴰ node) is_built.initial m) in
          (length-eq-zero _ (ground (arith, both)), length-eq-zero _ (ground (arith, both)))

      in_ready : (node.stream_depends_on ≡ []) × (node.state_depends_on ≡ []) → Memᴰ node ready
      in_ready (a, b) =
          subst (Memᴰ node) (sym is_built.initial)
            (mem-ready_nodes dag.nodes k node here (ground (arith, both)))
