-- ===== src/Engine/Safety/Stage.antt =====
-- `signalStreamDependents` and `signalStateDependents` as stages of a handler: what they do to the
-- counters and to the ready channel.
use gxo.Prelude.{
  ◌≤◌, String, Bool, true, false, ◌≡◌, refl, sym, subst, ◌⊎◌, inl, inr, List, some, arith,
  Bool-cases, contains, IsNodup,
}
use gxo.Prelude.Dict.{get}
use gxo.Prelude.Int.{ℤ, is_zero}
use gxo.Dag.Defs.{Node, Dag, dependents, stream_deps, state_deps}
use gxo.Engine.Defs.{Engine}
use gxo.Engine.Signals.{
  is_task_ready, stream_dep_met, state_dep_met, stream_deps_of, state_deps_of, signal_loop,
  signal_stream_dependents, signal_state_dependents,
}
use gxo.Engine.Signals.Effect.{
  IsReadyIn, OnlySignals, all-OnlySignals, all_ready, all_grows, all_sends,
}
use gxo.Engine.Safety.Unmet.{unmet, Meets}
use gxo.Engine.Safety.Counted.{IsCounted, Covers, before, signals_count, signals_keep}
use gxo.Engine.Safety.Shape.{Shape, SameGraph, SameGraph-Shape, signals-SameGraph}

abbrev pub stream_counter : Node → ℤ
stream_counter n = n.stream_deps_remaining

abbrev pub state_counter : Node → ℤ
state_counter n = n.state_deps_remaining

-- The counters count the stream dependencies that `f` does not hold of, and the state dependencies
-- that `g` does not hold of.
pub record Graph (f g : String → Bool) (dag : Dag) : Type 0 where
  pub shape : Shape dag
  pub streams : IsCounted stream_deps_of stream_counter f dag
  pub states : IsCounted state_deps_of state_counter g dag

-- A dependency on `id` makes a dependent of it.
Covers-streams :
    (dag : Dag) (id : String) (node : Node)
    → Shape dag
    → get id dag.nodes ≡ some node
    → Covers stream_deps_of id node.required_by dag
unfolding dependents stream_deps state_deps
Covers-streams dag id node h here k n e dep = ground (arith, h.mirrored id k)

Covers-states :
    (dag : Dag) (id : String) (node : Node)
    → Shape dag
    → get id dag.nodes ≡ some node
    → Covers state_deps_of id node.required_by dag
unfolding dependents stream_deps state_deps
Covers-states dag id node h here k n e dep = ground (arith, h.mirrored id k)

module _ (f g : String → Bool) (e : Engine) (id : String) (node : Node) (h : Graph f g e.dag)
    (here : get id e.dag.nodes ≡ some node) where
  key : node.id ≡ id
  key = h.shape.keyed id node here

  nodup : IsNodup node.required_by
  nodup = h.shape.nodup_required id node here

  pub streams-SameGraph : SameGraph e.dag (signal_stream_dependents node e).dag
  unfolding signal_stream_dependents
  streams-SameGraph =
      signals-SameGraph stream_deps_of stream_dep_met (λ n. is_zero n.stream_deps_remaining)
        (λ n. record { id = refl; task = refl; streams = refl; states = refl; required = refl })
        node.id node.required_by nodup e

  pub states-SameGraph : SameGraph e.dag (signal_state_dependents node e).dag
  unfolding signal_state_dependents
  states-SameGraph =
      signals-SameGraph state_deps_of state_dep_met (λ n. is_zero n.state_deps_remaining)
        (λ n. record { id = refl; task = refl; streams = refl; states = refl; required = refl })
        node.id node.required_by nodup e

  pub streams-Graph :
      (f' : String → Bool)
      → Meets id f f'
      → f id ≡ false
      → Graph f' g (signal_stream_dependents node e).dag
  unfolding signal_stream_dependents
  streams-Graph f' meets fresh = record {
    shape = SameGraph-Shape e.dag _ streams-SameGraph h.shape;
    streams =
        signals_count stream_deps_of stream_dep_met (λ n. is_zero n.stream_deps_remaining) node.id
          node.required_by nodup e stream_counter (λ n. refl) (λ n. refl) f f'
          (subst (λ x. Meets x f f') (sym key) meets) (rw key fresh)
          (rw key (Covers-streams e.dag id node h.shape here)) h.shape.nodup_streams h.streams;
    states =
        signals_keep stream_deps_of stream_dep_met (λ n. is_zero n.stream_deps_remaining) node.id
          node.required_by nodup e state_deps_of state_counter g (λ n. refl) (λ n. refl) h.states;
  }

  pub states-Graph :
      (g' : String → Bool)
      → Meets id g g'
      → g id ≡ false
      → Graph f g' (signal_state_dependents node e).dag
  unfolding signal_state_dependents
  states-Graph g' meets fresh = record {
    shape = SameGraph-Shape e.dag _ states-SameGraph h.shape;
    streams =
        signals_keep state_deps_of state_dep_met (λ n. is_zero n.state_deps_remaining) node.id
          node.required_by nodup e stream_deps_of stream_counter f (λ n. refl) (λ n. refl)
          h.streams;
    states =
        signals_count state_deps_of state_dep_met (λ n. is_zero n.state_deps_remaining) node.id
          node.required_by nodup e state_counter (λ n. refl) (λ n. refl) g g'
          (subst (λ x. Meets x g g') (sym key) meets) (rw key fresh)
          (rw key (Covers-states e.dag id node h.shape here)) h.shape.nodup_states h.states;
  }

module _ (deps : Node → List String) (met : Node → Node) (test : Node → Bool)
    (tests : (n : Node) → is_task_ready n ≡ true → test n ≡ true) (id : String) (ds : List String)
    (nodup_ds : IsNodup ds) (e : Engine) where
  -- A node that is ready after the loop was ready before, or is sent.
  pub loop_woken :
      (k : String) (n : Node)
      → get k (signal_loop deps met test id ds e).dag.nodes ≡ some n
      → is_task_ready n ≡ true
      → IsReadyIn e k ⊎ (contains k (signal_loop deps met test id ds e).ready_chan ≡ true)
  loop_woken k n h r =
      let (m, here, is) = before deps met test id ds nodup_ds e k n h in
      elim (Bool-cases (contains k ds)) [
        | inl among ↦ elim (Bool-cases (contains id (deps m))) [
          | inl dep ↦
              let met_is : n ≡ met m = ground arith in
              let r' : is_task_ready (met m) ≡ true =
                subst (λ x. is_task_ready x ≡ true) met_is r in
              inr (
                all_sends deps met test id ds k e m nodup_ds among here dep
                  (rw (tests (met m) r') r'))
          | inr other ↦
              let same : n ≡ m = ground arith in
              inl (m, here, subst (λ x. is_task_ready x ≡ true) same r)
        ]
        | inr out ↦
            let same : n ≡ m = ground arith in
            inl (m, here, subst (λ x. is_task_ready x ≡ true) same r)
      ]

zero_stream : (n : Node) → is_task_ready n ≡ true → is_zero n.stream_deps_remaining ≡ true
zero_stream n h = ground arith

zero_state : (n : Node) → is_task_ready n ≡ true → is_zero n.state_deps_remaining ≡ true
zero_state n h = ground arith

module _ (f g : String → Bool) (e : Engine) (id : String) (node : Node) (h : Graph f g e.dag)
    (here : get id e.dag.nodes ≡ some node) where
  IsNodup-of : IsNodup node.required_by
  IsNodup-of = h.shape.nodup_required id node here

  abbrev Woken : Engine → Type 0
  Woken e' =
      (k : String) (n : Node)
      → get k e'.dag.nodes ≡ some n
      → is_task_ready n ≡ true
      → IsReadyIn e k ⊎ (contains k e'.ready_chan ≡ true)

  abbrev Sent : Engine → Type 0
  Sent e' =
      (k : String)
      → contains k e'.ready_chan ≡ true
      → (contains k e.ready_chan ≡ true) ⊎ IsReadyIn e' k

  abbrev Grown : Engine → Type 0
  Grown e' = (k : String) → contains k e.ready_chan ≡ true → contains k e'.ready_chan ≡ true

  pub streams-channel :
      let e' = signal_stream_dependents node e in OnlySignals e e' × Woken e' × Sent e' × Grown e'
  unfolding signal_stream_dependents
  streams-channel =
      let t = λ (n : Node). is_zero n.stream_deps_remaining in
      (
        all-OnlySignals stream_deps_of stream_dep_met t node.id node.required_by e,
        loop_woken stream_deps_of stream_dep_met t zero_stream node.id node.required_by IsNodup-of
            e,
        λ k. all_ready stream_deps_of stream_dep_met t node.id node.required_by k e IsNodup-of,
        λ k. all_grows stream_deps_of stream_dep_met t node.id node.required_by k e,
      )

  pub states-channel :
      let e' = signal_state_dependents node e in OnlySignals e e' × Woken e' × Sent e' × Grown e'
  unfolding signal_state_dependents
  states-channel =
      let t = λ (n : Node). is_zero n.state_deps_remaining in
      (
        all-OnlySignals state_deps_of state_dep_met t node.id node.required_by e,
        loop_woken state_deps_of state_dep_met t zero_state node.id node.required_by IsNodup-of e,
        λ k. all_ready state_deps_of state_dep_met t node.id node.required_by k e IsNodup-of,
        λ k. all_grows state_deps_of state_dep_met t node.id node.required_by k e,
      )

-- A ready node stays ready while dependencies are met and none is lost.
pub ready_kept :
    (f g f' g' : String → Bool) (a b : Engine)
    → Graph f g a.dag
    → Graph f' g' b.dag
    → SameGraph a.dag b.dag
    → ((ks : List String) → unmet f' ks ≤ unmet f ks)
    → ((ks : List String) → unmet g' ks ≤ unmet g ks)
    → (k : String) → IsReadyIn a k
    → IsReadyIn b k
ready_kept f g f' g' a b ha hb same lef leg k (m, here, r) =
    let (n, here', s) = same.forth k m here in
    (
      n,
      here',
      ground (
        arith,
        ha.streams k m here,
        ha.states k m here,
        hb.streams k n here',
        hb.states k n here',
        lef m.stream_depends_on,
        leg m.state_depends_on,
        s.streams,
        s.states,
      ),
    )
