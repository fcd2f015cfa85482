-- ===== src/Dag/Build/Edges.antt =====
-- Edges keep `RequiredBy` the inverse of `StreamDependsOn` and `StateDependsOn` together.
use gxo.Prelude.{
  String, true, ◌≡◌, ◌||◌, ◌&&◌, arith, inl, inr, Option-cases, ◌==◌, eq_iff, contains, is_some,
}
use gxo.Prelude.Dict.{get}
use gxo.Dag.Defs.{
  Node, Dag, update_node, dependents, stream_deps, state_deps, contains-add_key, get-update_node,
}
use gxo.Dag.Build.{add_stream_edge, add_state_edge, add_stream_dep, add_state_dep, add_dependent}

abbrev pub IsMirrored : Dag → Type 0
IsMirrored dag =
    (u v : String)
    → contains v (dependents dag u)
      ≡ (contains u (stream_deps dag v) || contains u (state_deps dag v))

module _ (k : String) (j : String) (dag : Dag) where
  dependents-add_dependent :
      (c v : String)
      → contains v (dependents (update_node k (add_dependent c) dag) j)
        ≡ ((is_some (get k dag.nodes) && (k == j && c == v)) || contains v (dependents dag j))
  unfolding dependents contains
  dependents-add_dependent c v = elim (Option-cases (get j dag.nodes)) [
    | inl absent ↦ ground (arith, get-update_node k j (add_dependent c) dag, eq_iff k j)
    | inr (node, present) ↦ ground (
      arith,
      get-update_node k j (add_dependent c) dag,
      eq_iff k j,
      contains-add_key c v node.required_by,
    )
  ]

  dependents-add_stream_dep :
      (p : String) → dependents (update_node k (add_stream_dep p) dag) j ≡ dependents dag j
  unfolding dependents
  dependents-add_stream_dep p = ground (arith, get-update_node k j (add_stream_dep p) dag)

  dependents-add_state_dep :
      (p : String) → dependents (update_node k (add_state_dep p) dag) j ≡ dependents dag j
  unfolding dependents
  dependents-add_state_dep p = ground (arith, get-update_node k j (add_state_dep p) dag)

  stream_deps-add_dependent :
      (c : String) → stream_deps (update_node k (add_dependent c) dag) j ≡ stream_deps dag j
  unfolding stream_deps
  stream_deps-add_dependent c = ground (arith, get-update_node k j (add_dependent c) dag)

  state_deps-add_dependent :
      (c : String) → state_deps (update_node k (add_dependent c) dag) j ≡ state_deps dag j
  unfolding state_deps
  state_deps-add_dependent c = ground (arith, get-update_node k j (add_dependent c) dag)

  stream_deps-add_state_dep :
      (p : String) → stream_deps (update_node k (add_state_dep p) dag) j ≡ stream_deps dag j
  unfolding stream_deps
  stream_deps-add_state_dep p = ground (arith, get-update_node k j (add_state_dep p) dag)

  state_deps-add_stream_dep :
      (p : String) → state_deps (update_node k (add_stream_dep p) dag) j ≡ state_deps dag j
  unfolding state_deps
  state_deps-add_stream_dep p = ground (arith, get-update_node k j (add_stream_dep p) dag)

  stream_deps-add_stream_dep :
      (p u : String)
      → contains u (stream_deps (update_node k (add_stream_dep p) dag) j)
        ≡ ((is_some (get k dag.nodes) && (k == j && p == u)) || contains u (stream_deps dag j))
  unfolding stream_deps contains
  stream_deps-add_stream_dep p u = elim (Option-cases (get j dag.nodes)) [
    | inl absent ↦ ground (arith, get-update_node k j (add_stream_dep p) dag, eq_iff k j)
    | inr (node, present) ↦ ground (
      arith,
      get-update_node k j (add_stream_dep p) dag,
      eq_iff k j,
      contains-add_key p u node.stream_depends_on,
    )
  ]

  state_deps-add_state_dep :
      (p u : String)
      → contains u (state_deps (update_node k (add_state_dep p) dag) j)
        ≡ ((is_some (get k dag.nodes) && (k == j && p == u)) || contains u (state_deps dag j))
  unfolding state_deps contains
  state_deps-add_state_dep p u = elim (Option-cases (get j dag.nodes)) [
    | inl absent ↦ ground (arith, get-update_node k j (add_state_dep p) dag, eq_iff k j)
    | inr (node, present) ↦ ground (
      arith,
      get-update_node k j (add_state_dep p) dag,
      eq_iff k j,
      contains-add_key p u node.state_depends_on,
    )
  ]

is_some-update_node :
    (k j : String) (f : Node → Node) (dag : Dag)
    → is_some (get j (update_node k f dag).nodes) ≡ is_some (get j dag.nodes)
is_some-update_node k j f dag = ground (arith, get-update_node k j f dag)

-- Adding an edge adds no node.
pub is_some-add_stream_edge :
    (dag : Dag) (p c j : String)
    → is_some (get j (add_stream_edge dag p c).nodes) ≡ is_some (get j dag.nodes)
unfolding add_stream_edge
is_some-add_stream_edge dag p c j = ground (
  arith,
  is_some-update_node p j (add_dependent c) (update_node c (add_stream_dep p) dag),
  is_some-update_node c j (add_stream_dep p) dag,
)

pub is_some-add_state_edge :
    (dag : Dag) (p c j : String)
    → is_some (get j (add_state_edge dag p c).nodes) ≡ is_some (get j dag.nodes)
unfolding add_state_edge
is_some-add_state_edge dag p c j = ground (
  arith,
  is_some-update_node p j (add_dependent c) (update_node c (add_state_dep p) dag),
  is_some-update_node c j (add_state_dep p) dag,
)

module _ (dag : Dag) (p c : String) (known : is_some (get p dag.nodes) ≡ true)
    (h : IsMirrored dag) where
  pub add_stream_edge-IsMirrored : IsMirrored (add_stream_edge dag p c)
  unfolding add_stream_edge
  add_stream_edge-IsMirrored u v =
      let d = update_node c (add_stream_dep p) dag in
      ground (
        arith,
        h u v,
        is_some-update_node c p (add_stream_dep p) dag,
        dependents-add_dependent p u d c v,
        dependents-add_stream_dep c u dag p,
        stream_deps-add_dependent p v d c,
        state_deps-add_dependent p v d c,
        stream_deps-add_stream_dep c v dag p u,
        state_deps-add_stream_dep c v dag p,
      )

  pub add_state_edge-IsMirrored : IsMirrored (add_state_edge dag p c)
  unfolding add_state_edge
  add_state_edge-IsMirrored u v =
      let d = update_node c (add_state_dep p) dag in
      ground (
        arith,
        h u v,
        is_some-update_node c p (add_state_dep p) dag,
        dependents-add_dependent p u d c v,
        dependents-add_state_dep c u dag p,
        stream_deps-add_dependent p v d c,
        state_deps-add_dependent p v d c,
        state_deps-add_state_dep c v dag p u,
        stream_deps-add_state_dep c v dag p,
      )
