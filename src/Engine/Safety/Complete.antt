-- ===== src/Engine/Safety/Complete.antt =====
-- The completion of a task keeps the invariant.
use gxo.Prelude.{
  ℕ, String, Bool, true, false, not, ◌≡◌, refl, sym, ap, subst, ◌∙◌, ◌⊎◌, inl, inr, ◌&&◌, Option,
  some, arith, Bool-cases, if◌then◌else◌, ◌==◌, eq_iff, contains,
}
use gxo.Prelude.Dict.{get, get-put}
use gxo.Errors.{Error}
use gxo.Dag.Defs.{TaskStatus, Node}
use gxo.Engine.Defs.{Engine, is_done, is_terminal, is_failed, write_task_status}
use gxo.Engine.Signals.{signal_state_dependents}
use gxo.Engine.Signals.Effect.{IsReadyIn, OnlySignals}
use gxo.Engine.Completion.{
  is_terminal?, send_fatal, halt_on, record_completion, propagate, handle_task_completion,
}
use gxo.Engine.Safety.Unmet.{unmet_ext, unmet_le, Meets}
use gxo.Engine.Safety.Shape.{SameGraph}
use gxo.Engine.Safety.Stage.{Graph, states-SameGraph, states-Graph, states-channel, ready_kept}
use gxo.Engine.Safety.Inv.{started, done, Inv}
use gxo.Engine.Safety.Dispatch.{Graph-ext}

-- The invariant does not look at the halt signal.
halt_on-Inv : (err : Option Error) (e : Engine) → Inv e → Inv (halt_on err e)
halt_on-Inv err e h = subst Inv (sym (only err)) (record {
  graph = h.graph;
  waiting = h.waiting;
  begun = h.begun;
  woken = h.woken;
  tracked = h.tracked;
  opened = h.opened;
  queued = h.queued;
  held = h.held;
})
  where
    only :
        (x : Option Error)
        → halt_on x e ≡ record e { fatal_err_chan = (halt_on x e).fatal_err_chan }
    only x = unfold halt_on send_fatal in ground arith

module _ (mentions : Error → Bool) (now : ℕ) (id : String) (status : TaskStatus)
    (err : Option Error) (e : Engine) (h : Inv e) (known : contains id e.dispatched_tasks ≡ true)
    (still_open : is_terminal? (get id e.task_statuses) ≡ false) where
  abbrev recorded : Engine
  recorded = record_completion mentions now id status err e

  done_id : done e id ≡ false
  unfolding is_done is_terminal
  done_id = ground arith

  status_recorded :
      (k : String)
      → get k recorded.task_statuses ≡ (if id == k then some status else get k e.task_statuses)
  unfolding record_completion write_task_status
  status_recorded k = get-put id k status e.task_statuses

  -- the state with the status recorded, where nothing is signalled
  recorded-Inv : is_done status ≡ false → Inv recorded
  unfolding record_completion write_task_status
  recorded-Inv nd = record {
    graph =
        Graph-ext (started e) (done e) (started e) (done recorded) e.dag (λ k. refl) same h.graph;
    waiting = h.waiting;
    begun = h.begun;
    woken = h.woken;
    tracked = λ k n q. ground (arith, status_recorded k, h.tracked k n q);
    opened = λ k s q p. ground (arith, status_recorded k, h.opened k s, eq_iff id k);
    queued = h.queued;
    held = h.held;
  }
    where
      same : (k : String) → done e k ≡ done recorded k
      same k = ground (arith, status_recorded k, done_id, eq_iff id k)

  module _ (is : is_done status ≡ true) (node : Node) (here : get id e.dag.nodes ≡ some node) where
    abbrev sent : Engine
    sent = signal_state_dependents node recorded

    here_recorded : get id recorded.dag.nodes ≡ some node
    unfolding record_completion write_task_status
    here_recorded = here

    recorded-Graph : Graph (started e) (done e) recorded.dag
    unfolding record_completion write_task_status
    recorded-Graph = h.graph

    only : OnlySignals recorded sent
    only = (states-channel (started e) (done e) recorded id node recorded-Graph here_recorded).0

    statuses_sent : sent.task_statuses ≡ recorded.task_statuses
    statuses_sent = ap (λ (x : Engine). x.task_statuses) only

    status_sent :
        (k : String)
        → get k sent.task_statuses ≡ (if id == k then some status else get k e.task_statuses)
    status_sent k = ap (get k) statuses_sent ∙ status_recorded k

    started-sent : (k : String) → started sent k ≡ started e k
    unfolding record_completion write_task_status
    started-sent k = ap (λ (x : Engine). contains k x.dispatched_tasks) only

    done-Meets : Meets id (done e) (done sent)
    done-Meets k = ground (arith, status_sent k)

    same_sent : SameGraph e.dag sent.dag
    unfolding record_completion write_task_status
    same_sent = states-SameGraph (started e) (done e) recorded id node recorded-Graph here_recorded

    Graph-sent : Graph (started sent) (done sent) sent.dag
    Graph-sent =
        Graph-ext (started e) (done sent) (started sent) (done sent) sent.dag
          (λ k. sym (started-sent k)) (λ k. refl)
          (states-Graph (started e) (done e) recorded id node recorded-Graph here_recorded
            (done sent) done-Meets done_id)

    kept : (k : String) → IsReadyIn e k → IsReadyIn sent k
    kept =
        ready_kept (started e) (done e) (started sent) (done sent) e sent h.graph Graph-sent
          same_sent (λ ks. omega (arith, unmet_ext (started sent) (started e) ks started-sent))
          (λ ks. unmet_le id (done e) (done sent) ks done-Meets)

    waiting_sent : (k : String) → contains k sent.ready_chan ≡ true → IsReadyIn sent k
    unfolding record_completion write_task_status
    waiting_sent k q =
        elim ((states-channel (started e) (done e) recorded id node recorded-Graph here_recorded).2
          k q) [ inl old ↦ kept k (h.waiting k old) | inr r ↦ r ]

    woken_before :
        (k : String)
        → IsReadyIn e k
        → (contains k sent.ready_chan ≡ true) ⊎ (contains k sent.dispatched_tasks ≡ true)
    unfolding record_completion write_task_status
    woken_before k r = elim (h.woken k r) [
      | inl w ↦ inl (
          (states-channel (started e) (done e) recorded id node recorded-Graph here_recorded).3 k w)
      | inr d ↦ inr (started-sent k ∙ d)
    ]

    woken_sent :
        (k : String)
        → IsReadyIn sent k
        → (contains k sent.ready_chan ≡ true) ⊎ (contains k sent.dispatched_tasks ≡ true)
    unfolding record_completion write_task_status
    woken_sent k (n, q, r) =
        elim ((states-channel (started e) (done e) recorded id node recorded-Graph here_recorded).1
          k n q r) [ inl before ↦ woken_before k before | inr w ↦ inl w ]

    sent-Inv : Inv sent
    sent-Inv = record {
      graph = Graph-sent;
      waiting = waiting_sent;
      begun = λ k q. kept k (h.begun k (sym (started-sent k) ∙ q));
      woken = woken_sent;
      tracked = λ k n q.
          let (m, there, s) = same_sent.back k n q in
          ground (arith, status_sent k, h.tracked k m there);
      opened = λ k s q p.
          ground (arith, status_sent k, started-sent k, h.opened k s, known, eq_iff id k);
      queued = λ k q. ground (arith, started-sent k, h.queued k, queue_same);
      held = λ k q. ground (arith, started-sent k, h.held k, held_same);
    }
      where
        queue_same : sent.work_queue ≡ e.work_queue
        queue_same =
            unfold record_completion write_task_status in ap (λ (x : Engine). x.work_queue) only

        held_same : sent.worker_tasks ≡ e.worker_tasks
        held_same =
            unfold record_completion write_task_status in ap (λ (x : Engine). x.worker_tasks) only

  pub propagate-Inv :
      (node : Node)
      → get id e.dag.nodes ≡ some node
      → Inv (propagate mentions (some node) status err recorded)
  unfolding propagate
  propagate-Inv node here = elim (Bool-cases (is_done status)) [
    | inl is ↦ rw is (finish (signal_state_dependents node recorded) (sent-Inv is node here))
    | inr is ↦ rw is (finish recorded (recorded-Inv is))
  ]
    where
      finish :
          (x : Engine)
          → Inv x
          → Inv (if is_failed status && not node.task.ignore_errors then halt_on err x else x)
      finish x i = elim (Bool-cases (is_failed status && not node.task.ignore_errors)) [
        | inl f ↦ rw f (halt_on-Inv err x i)
        | inr f ↦ rw f i
      ]

-- A guarded completion of a task that has been dispatched.
pub handle_task_completion-Inv :
    (mentions : Error → Bool) (now : ℕ) (id : String) (status : TaskStatus) (err : Option Error)
    (synthetic : Bool) (e : Engine)
    → Inv e
    → contains id e.dispatched_tasks ≡ true
    → (synthetic ≡ false) ⊎ (is_terminal? (get id e.task_statuses) ≡ false)
    → Inv (handle_task_completion mentions now id status err synthetic e)
unfolding handle_task_completion
handle_task_completion-Inv mentions now id status err synthetic e h known guard =
    elim (Bool-cases (is_terminal? (get id e.task_statuses))) [
      | inl terminal ↦ elim guard [
        | inl plain_call ↦ rw terminal (rw plain_call h)
        | inr still_open ↦ absurd (cc)
      ]
      | inr still_open ↦
          let (node, here, r) = h.begun id known in
          rw (still_open, not_and synthetic)
            (rw here (propagate-Inv mentions now id status err e h known still_open node here))
    ]
  where
    not_and : (b : Bool) → (not b && false) ≡ false
    not_and true = refl
    not_and false = refl
