-- ===== src/Engine/Safety/Dispatch.antt =====
-- Dispatching a task keeps the invariant.
use gxo.Prelude.{
  ℕ, String, Bool, true, false, ◌≡◌, refl, sym, ap, subst, ◌∙◌, ◌⊎◌, inl, inr, ◌||◌, List, ◌∷◌,
  some, arith, Bool-cases, if◌then◌else◌, ◌==◌, eq_iff, contains, contains_head,
}
use gxo.Prelude.Dict.{get, get-put}
use gxo.Prelude.Int.{pos}
use gxo.Dag.Defs.{running, Node, Dag}
use gxo.Engine.Defs.{Engine, is_done, is_pending, write_task_status}
use gxo.Engine.Signals.{signal_stream_dependents}
use gxo.Engine.Signals.Effect.{IsReadyIn, OnlySignals}
use gxo.Engine.Schedule.{mark_running, is_pending?}
use gxo.Engine.Safety.Unmet.{unmet_ext, unmet_le, Meets}
use gxo.Engine.Safety.Shape.{SameGraph}
use gxo.Engine.Safety.Stage.{Graph, streams-SameGraph, streams-Graph, streams-channel, ready_kept}
use gxo.Engine.Safety.Inv.{started, done, is_done?, Inv}

-- The counters see the flags only by their values.
pub Graph-ext :
    (f g f' g' : String → Bool) (dag : Dag)
    → ((k : String) → f k ≡ f' k)
    → ((k : String) → g k ≡ g' k)
    → Graph f g dag
    → Graph f' g' dag
Graph-ext f g f' g' dag ef eg h = record {
  shape = h.shape;
  streams = λ k n e. h.streams k n e ∙ ap pos (unmet_ext f f' n.stream_depends_on ef);
  states = λ k n e. h.states k n e ∙ ap pos (unmet_ext g g' n.state_depends_on eg);
}

module _ (now : ℕ) (id : String) (rest : List String) (e : Engine) (h : Inv e)
    (pop : e.ready_chan ≡ id ∷ rest) (fresh : contains id e.dispatched_tasks ≡ false)
    (pending : is_pending? (get id e.task_statuses) ≡ true) where
  -- the state with the task marked
  abbrev marked : Engine
  marked = mark_running now id (record e { ready_chan = rest; stall_checks = 0 })

  waits : contains id e.ready_chan ≡ true
  waits = rw pop (contains_head id rest)

  done_same : (k : String) → done e k ≡ done marked k
  unfolding mark_running write_task_status is_done is_pending
  done_same k = ground (arith, get-put id k running e.task_statuses, eq_iff id k)

  marked-Graph : Graph (started e) (done marked) marked.dag
  unfolding mark_running write_task_status
  marked-Graph =
      Graph-ext (started e) (done e) (started e) (done marked) e.dag (λ k. refl) done_same h.graph

  started-Meets : Meets id (started e) (started marked)
  unfolding mark_running write_task_status contains
  started-Meets k = refl

  module _ (node : Node) (here : get id e.dag.nodes ≡ some node) where
    -- the state with the dependents signalled
    abbrev sent : Engine
    sent = signal_stream_dependents node marked

    here_marked : get id marked.dag.nodes ≡ some node
    unfolding mark_running write_task_status
    here_marked = here

    only : OnlySignals marked sent
    only = (streams-channel (started e) (done marked) marked id node marked-Graph here_marked).0

    dispatched_sent : sent.dispatched_tasks ≡ id ∷ e.dispatched_tasks
    unfolding mark_running write_task_status
    dispatched_sent = ap (λ (x : Engine). x.dispatched_tasks) only

    statuses_sent : sent.task_statuses ≡ marked.task_statuses
    statuses_sent = ap (λ (x : Engine). x.task_statuses) only

    pub started-sent : (k : String) → started sent k ≡ (id == k || started e k)
    unfolding contains
    started-sent k = ap (contains k) dispatched_sent

    done_sent : (k : String) → done marked k ≡ done sent k
    done_sent k = ap (λ m. is_done? (get k m)) (sym statuses_sent)

    same_sent : SameGraph e.dag sent.dag
    unfolding mark_running write_task_status
    same_sent = streams-SameGraph (started e) (done marked) marked id node marked-Graph here_marked

    Graph-sent : Graph (started sent) (done sent) sent.dag
    Graph-sent =
        Graph-ext (started marked) (done marked) (started sent) (done sent) sent.dag
          (λ k. started-Meets k ∙ sym (started-sent k)) done_sent
          (streams-Graph (started e) (done marked) marked id node marked-Graph here_marked
            (started marked) started-Meets fresh)

    kept : (k : String) → IsReadyIn e k → IsReadyIn sent k
    kept =
        ready_kept (started e) (done e) (started sent) (done sent) e sent h.graph Graph-sent
          same_sent (λ ks. unmet_le id (started e) (started sent) ks started-sent)
          (λ ks. omega (arith, unmet_ext (done e) (done sent) ks (λ k. done_same k ∙ done_sent k)))

    waiting_sent : (k : String) → contains k sent.ready_chan ≡ true → IsReadyIn sent k
    unfolding mark_running write_task_status contains
    waiting_sent k q =
        elim ((streams-channel (started e) (done marked) marked id node marked-Graph here_marked).2
          k q) [ inl old ↦ kept k (h.waiting k (ground (arith, pop))) | inr r ↦ r ]

    begun_sent : (k : String) → contains k sent.dispatched_tasks ≡ true → IsReadyIn sent k
    begun_sent k q = elim (Bool-cases (id == k)) [
      | inl same ↦
          kept k
            (h.waiting k (subst (λ x. contains x e.ready_chan ≡ true) ((eq_iff id k).0 same) waits))
      | inr other ↦ kept k (h.begun k (ground (arith, started-sent k)))
    ]

    woken_before :
        (k : String)
        → IsReadyIn e k
        → (contains k sent.ready_chan ≡ true) ⊎ (contains k sent.dispatched_tasks ≡ true)
    unfolding mark_running write_task_status contains
    woken_before k r = elim (h.woken k r) [
      | inl w ↦ elim (Bool-cases (id == k)) [
        | inl same ↦ inr (ground (arith, started-sent k))
        | inr other ↦ inl (
            (streams-channel (started e) (done marked) marked id node marked-Graph here_marked).3 k
              (ground (arith, pop)))
      ]
      | inr d ↦ inr (ground (arith, started-sent k))
    ]

    woken_sent :
        (k : String)
        → IsReadyIn sent k
        → (contains k sent.ready_chan ≡ true) ⊎ (contains k sent.dispatched_tasks ≡ true)
    unfolding mark_running write_task_status
    woken_sent k (n, q, r) =
        elim ((streams-channel (started e) (done marked) marked id node marked-Graph here_marked).1
          k n q r) [ inl before ↦ woken_before k before | inr w ↦ inl w ]

    pub status_sent :
        (k : String)
        → get k sent.task_statuses ≡ (if id == k then some running else get k e.task_statuses)
    unfolding mark_running write_task_status
    status_sent k = ap (get k) statuses_sent ∙ get-put id k running e.task_statuses

    pub dispatch-Inv : Inv sent
    dispatch-Inv = record {
      graph = Graph-sent;
      waiting = waiting_sent;
      begun = begun_sent;
      woken = woken_sent;
      tracked = λ k n q.
          let (m, there, s) = same_sent.back k n q in
          ground (arith, status_sent k, h.tracked k m there);
      opened = λ k s q p. ground (arith, status_sent k, started-sent k, h.opened k s, eq_iff id k);
      queued = λ k q. ground (arith, started-sent k, h.queued k, queue_same);
      held = λ k q. ground (arith, started-sent k, h.held k, held_same);
    }
      where
        queue_same : sent.work_queue ≡ e.work_queue
        queue_same = unfold mark_running write_task_status in ap (λ (x : Engine). x.work_queue) only

        held_same : sent.worker_tasks ≡ e.worker_tasks
        held_same =
            unfold mark_running write_task_status in ap (λ (x : Engine). x.worker_tasks) only
