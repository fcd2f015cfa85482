-- ===== src/Engine/Safety/Start.antt =====
-- The state in which `RunPlaybook` starts its loop keeps the invariant.
use gxo.Prelude.{
  ◌<◌, ◌^◌, String, Bool, true, false, ◌≡◌, refl, sym, ap, subst, ◌∙◌, inl, inr, List, [], ◌∷◌,
  ◌++◌, append_assoc, append-nil, Option, none, some, arith, Option-cases, if◌then◌else◌, eq_iff,
  contains, length, IsNodup,
}
use gxo.Prelude.Dict.{Dict, get, keys, get-put, is_some-get}
use gxo.Prelude.Int.{pos, to_int32_of_lt}
use gxo.Dag.Defs.{pending, Node, Dag, node_ids}
use gxo.Dag.Build.{is_ready, ready_nodes}
use gxo.Dag.Build.Built.{IsBuilt}
use gxo.Engine.Defs.{Engine, is_done, is_pending, write_task_status}
use gxo.Engine.Signals.{send_ready}
use gxo.Engine.Signals.Effect.{IsReadyIn}
use gxo.Engine.Schedule.{mark_pending, set_pending, seed_ready, fresh_run, start_run}
use gxo.Engine.Safety.Unmet.{unmet}
use gxo.Engine.Safety.Stage.{Graph}
use gxo.Engine.Safety.Kept.{Kept}
use gxo.Engine.Safety.Inv.{started, done, Inv}

-- No task has so many dependencies that an int32 cannot count them.
abbrev pub IsSmall : Dag → Type 0
IsSmall dag =
    (k : String) (node : Node)
    → get k dag.nodes ≡ some node
    → (length node.stream_depends_on < 2 ^ 31) × (length node.state_depends_on < 2 ^ 31)

unmet_none :
    (f : String → Bool) (ks : List String) → ((k : String) → f k ≡ false) → unmet f ks ≡ length ks
unfolding unmet
unmet_none f [] h = refl
unmet_none f (k ∷ ks) h = ground (arith, h k, unmet_none f ks h)

set_pending_only :
    (ids : List String) (e : Engine)
    → set_pending ids e ≡ record e {
      task_statuses = (set_pending ids e).task_statuses;
      task_timings = (set_pending ids e).task_timings;
      state = (set_pending ids e).state;
    }
unfolding set_pending mark_pending write_task_status
set_pending_only [] e = refl
set_pending_only (id ∷ ids) e = set_pending_only ids (mark_pending id e)

set_pending_status :
    (ids : List String) (e : Engine) (k : String)
    → get k (set_pending ids e).task_statuses
      ≡ (if contains k ids then some pending else get k e.task_statuses)
unfolding set_pending mark_pending write_task_status contains
set_pending_status [] e k = refl
set_pending_status (id ∷ ids) e k =
    ground
      (arith, set_pending_status ids (mark_pending id e) k, get-put id k pending e.task_statuses)

abbrev pub ids_of : List Node → List String
ids_of [] = []
ids_of (node ∷ nodes) = node.id ∷ ids_of nodes

seed_ready_only :
    (nodes : List Node) (e : Engine)
    → seed_ready nodes e ≡ record e { ready_chan = e.ready_chan ++ ids_of nodes }
unfolding seed_ready
seed_ready_only [] e = ap (λ c. record e { ready_chan = c }) (sym (append-nil e.ready_chan))
seed_ready_only (node ∷ nodes) e =
    seed_ready_only nodes (send_ready node.id e)
    ∙ ap (λ c. record e { ready_chan = c })
        (append_assoc e.ready_chan (node.id ∷ []) (ids_of nodes))

-- The nodes that are sent are those whose counters are 0.
abbrev pub ready_at : Option Node → Bool
ready_at none = false
ready_at (some node) = is_ready node

pub contains-ready_nodes :
    (nodes : Dict Node) (k : String)
    → IsNodup (keys nodes)
    → ((j : String) (node : Node) → get j nodes ≡ some node → node.id ≡ j)
    → contains k (ids_of (ready_nodes nodes)) ≡ ready_at (get k nodes)
unfolding ready_nodes get keys contains
contains-ready_nodes [] k n h = refl
contains-ready_nodes ((j, node) ∷ nodes) k n h =
    let key : node.id ≡ j = h j node (ground (arith, eq_iff j j)) in
    let rest =
      contains-ready_nodes nodes k n.1
        (λ i m q. h i m (ground (arith, eq_iff j i, is_some-get i nodes))) in
    ground (arith, key, rest, eq_iff j k, is_some-get j nodes)

module _ (dag : Dag) (initial : List Node) (built : IsBuilt dag initial) (small : IsSmall dag)
    (e : Engine) where
  abbrev begin : Engine
  begin = start_run dag initial e

  -- the fields in which the loop starts
  record IsFresh (s : Engine) : Type 0 where
    the_dag : s.dag ≡ dag
    chan : s.ready_chan ≡ ids_of initial
    dispatched : s.dispatched_tasks ≡ []
    queue : s.work_queue ≡ []
    tasks : s.worker_tasks ≡ []
    statuses :
        (k : String)
        → get k s.task_statuses ≡ (if contains k (node_ids dag) then some pending else none)

  abbrev waiting_run : Engine
  waiting_run = set_pending (node_ids dag) (fresh_run dag e)

  begin-IsFresh : IsFresh begin
  unfolding start_run fresh_run get
  begin-IsFresh =
      let seeded = seed_ready_only initial waiting_run in
      let set = set_pending_only (node_ids dag) (fresh_run dag e) in
      record {
        the_dag = ap (λ (x : Engine). x.dag) seeded ∙ ap (λ (x : Engine). x.dag) set;
        chan =
            ap (λ (x : Engine). x.ready_chan) seeded
            ∙ ap (λ (x : Engine). x.ready_chan ++ ids_of initial) set;
        dispatched =
            ap (λ (x : Engine). x.dispatched_tasks) seeded
            ∙ ap (λ (x : Engine). x.dispatched_tasks) set;
        queue = ap (λ (x : Engine). x.work_queue) seeded ∙ ap (λ (x : Engine). x.work_queue) set;
        tasks =
            ap (λ (x : Engine). x.worker_tasks) seeded ∙ ap (λ (x : Engine). x.worker_tasks) set;
        statuses = λ k.
            ap (λ (x : Engine). get k x.task_statuses) seeded
            ∙ set_pending_status (node_ids dag) (fresh_run dag e) k;
      }

  fresh : IsFresh begin
  fresh = begin-IsFresh

  not_started : (k : String) → started begin k ≡ false
  unfolding contains
  not_started k = ap (contains k) fresh.dispatched

  not_done : (k : String) → done begin k ≡ false
  unfolding is_done
  not_done k = ground (arith, fresh.statuses k)

  dag-Graph : Graph (started begin) (done begin) dag
  dag-Graph = record {
    shape = record {
      mirrored = built.mirrored;
      acyclic = built.acyclic;
      keyed = λ k n q. (built.tidy.each k n q).keyed;
      nodup_required = λ k n q. (built.tidy.each k n q).required;
      nodup_streams = λ k n q. (built.tidy.each k n q).streams;
      nodup_states = λ k n q. (built.tidy.each k n q).states;
    };
    streams = λ k n q.
        (built.counters k n q).0
        ∙ to_int32_of_lt (length n.stream_depends_on) (small k n q).0
        ∙ ap pos (sym (unmet_none (started begin) n.stream_depends_on not_started));
    states = λ k n q.
        (built.counters k n q).1
        ∙ to_int32_of_lt (length n.state_depends_on) (small k n q).1
        ∙ ap pos (sym (unmet_none (done begin) n.state_depends_on not_done));
  }

  in_chan : (k : String) → contains k begin.ready_chan ≡ ready_at (get k dag.nodes)
  in_chan k =
      ap (contains k) (fresh.chan ∙ ap ids_of built.initial)
      ∙ contains-ready_nodes dag.nodes k built.tidy.distinct
          (λ j n q. (built.tidy.each j n q).keyed)

  waits : (k : String) → contains k begin.ready_chan ≡ true → IsReadyIn begin k
  waits k q = elim (Option-cases (get k dag.nodes)) [
    | inl absent ↦ absurd (ground (arith, in_chan k))
    | inr (n, present) ↦
        (n, ap (λ (d : Dag). get k d.nodes) fresh.the_dag ∙ present, ground (arith, in_chan k))
  ]

  pub start_run-Inv : Inv begin
  unfolding is_pending contains node_ids
  start_run-Inv = record {
    graph = subst (Graph (started begin) (done begin)) (sym fresh.the_dag) dag-Graph;
    waiting = waits;
    begun = λ k q. absurd (ground (arith, not_started k));
    woken = λ k (n, q, r).
        inl (ground (arith, in_chan k, ap (λ (d : Dag). get k d.nodes) fresh.the_dag));
    tracked = λ k n q. ground (
      arith,
      fresh.statuses k,
      is_some-get k dag.nodes,
      ap (λ (d : Dag). get k d.nodes) fresh.the_dag,
    );
    opened = λ k s q p. absurd (ground (arith, fresh.statuses k));
    queued = λ k q. absurd (ground (arith, fresh.queue));
    held = λ k q. absurd (ground (arith, fresh.tasks));
  }

  pub start_run-Kept : Kept begin
  unfolding contains
  start_run-Kept = record {
    once = rw fresh.dispatched tt;
    never_ready = λ k q. ground (arith, fresh.statuses k);
    left_pending = λ k q. absurd (ground (arith, not_started k));
    busy = λ k q. absurd (ground (arith, fresh.statuses k));
  }
