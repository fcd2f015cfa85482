-- ===== src/Engine/Safety/Run.antt =====
-- Every step of a run keeps the invariant.
use gxo.Prelude.{
  ℕ, String, Bool, true, false, ◌≡◌, refl, sym, ap, subst, inl, inr, List, [], ◌∷◌, Option, none,
  some, arith, Option-cases, Bool-cases, ◌==◌, eq_iff, eq_refl, contains, contains-append,
}
use gxo.Prelude.Dict.{get}
use gxo.Errors.{Error}
use gxo.Dag.Defs.{failed, Node}
use gxo.Engine.Defs.{Engine, is_terminal, write_task_status}
use gxo.Engine.Signals.{signal_stream_dependents}
use gxo.Engine.Completion.{is_terminal?}
use gxo.Engine.Schedule.{
  is_pending?, signal_streams_of, mark_running, remove_one, hand_over, receive_ready, worker_start,
  complete, final_status, worker_finish, receive_fatal, again, check_stall, tick,
}
use gxo.Engine.Steps.{
  Step, take_ready, take_work, finish_work, take_fatal, take_tick, Reach, here, next,
}
use gxo.Engine.Safety.Inv.{Inv}
use gxo.Engine.Safety.Dispatch.{dispatch-Inv, status_sent, started-sent}
use gxo.Engine.Safety.Complete.{handle_task_completion-Inv}

-- The same graph, channel, statuses and dispatched tasks.
abbrev SameCore : Engine → Engine → Type 0
SameCore e e' = e' ≡ record e' {
  dag = e.dag;
  ready_chan = e.ready_chan;
  task_statuses = e.task_statuses;
  dispatched_tasks = e.dispatched_tasks;
}

module _ (e e' : Engine) (same : SameCore e e')
    (queue : (k : String) → contains k e'.work_queue ≡ true → contains k e.dispatched_tasks ≡ true)
    (tasks : (k : String)
      → contains k e'.worker_tasks ≡ true
      → contains k e.dispatched_tasks ≡ true) where
  bookkeeping-Inv : Inv e → Inv e'
  bookkeeping-Inv h = subst Inv (sym same) (record {
    graph = h.graph;
    waiting = h.waiting;
    begun = h.begun;
    woken = h.woken;
    tracked = h.tracked;
    opened = h.opened;
    queued = queue;
    held = tasks;
  })

remove_one_less :
    (id k : String) (ks : List String) → contains k (remove_one id ks) ≡ true → contains k ks ≡ true
unfolding remove_one contains
remove_one_less id k [] q = q
remove_one_less id k (j ∷ js) q = ground (arith, remove_one_less id k js)

module _ (mentions : Error → Bool) (now : ℕ) (id : String) (ended : Option Error) where
  hand_over-Inv :
      (e : Engine)
      → Inv e
      → contains id e.dispatched_tasks ≡ true
      → is_terminal? (get id e.task_statuses) ≡ false
      → Inv (hand_over mentions now id ended e)
  unfolding hand_over contains
  hand_over-Inv e h known live = elim (Option-cases ended) [
    | inl q ↦ rw q (
        bookkeeping-Inv e (hand_over mentions now id none e) refl
          (λ k w. ground (arith, contains-append k e.work_queue (id ∷ []), h.queued k, eq_iff id k))
          h.held h)
    | inr (err, q) ↦
        rw q
          (handle_task_completion-Inv mentions now id failed (some err) true e h known (inr live))
  ]

  module _ (rest : List String) (e : Engine) (h : Inv e) (pop : e.ready_chan ≡ id ∷ rest) where
    -- what is left when the task is not dispatched again
    dropped-Inv :
        contains id e.dispatched_tasks ≡ true
        → Inv (record e { ready_chan = rest; stall_checks = 0 })
    unfolding contains
    dropped-Inv known = record {
      graph = h.graph;
      waiting = λ k q. h.waiting k (ground (arith, pop));
      begun = h.begun;
      woken = λ k r. elim (h.woken k r) [
        | inl w ↦ elim (Bool-cases (id == k)) [
          | inl same ↦ inr (ground (arith, known, eq_iff id k))
          | inr other ↦ inl (ground (arith, pop))
        ]
        | inr d ↦ inr d
      ];
      tracked = h.tracked;
      opened = h.opened;
      queued = h.queued;
      held = h.held;
    }

    -- A task that is not pending has been dispatched.
    not_pending :
        is_pending? (get id e.task_statuses) ≡ false → contains id e.dispatched_tasks ≡ true
    unfolding contains
    not_pending p =
        let (node, there, r) = h.waiting id (ground (arith, pop, eq_refl id)) in
        elim (Option-cases (get id e.task_statuses)) [
          | inl q ↦ absurd (cc (h.tracked id node there))
          | inr (s, q) ↦ h.opened id s q (rw (sym (ap is_pending? q)) p)
        ]

    abbrev marked : Engine
    marked = mark_running now id (record e { ready_chan = rest; stall_checks = 0 })

    dispatched-Inv :
        contains id e.dispatched_tasks ≡ false
        → is_pending? (get id e.task_statuses) ≡ true
        → Inv (hand_over mentions now id ended (signal_streams_of id marked))
    unfolding signal_streams_of contains is_terminal
    dispatched-Inv fresh p =
        let (node, there, r) = h.waiting id (ground (arith, pop, eq_refl id)) in
        rw (found node there, signal_streams_of)
          (hand_over-Inv (signal_stream_dependents node marked)
            (dispatch-Inv now id rest e h pop fresh p node there)
            (ground (arith, started-sent now id rest e h pop fresh p node there id, eq_refl id))
            (ground (arith, status_sent now id rest e h pop fresh p node there id, eq_refl id)))
      where
        found : (node : Node) → get id e.dag.nodes ≡ some node → get id marked.dag.nodes ≡ some node
        found node there = unfold mark_running write_task_status in there

    receive_ready-Inv : Inv (receive_ready mentions now id ended (record e { ready_chan = rest }))
    unfolding receive_ready
    receive_ready-Inv = elim (Bool-cases (contains id e.dispatched_tasks)) [
      | inl known ↦ rw known (dropped-Inv known)
      | inr fresh ↦ rw fresh (elim (Bool-cases (is_pending? (get id e.task_statuses))) [
        | inl p ↦ rw p (dispatched-Inv fresh p)
        | inr p ↦ absurd (cc (not_pending p))
      ])
    ]

module _ (mentions : Error → Bool) (e : Engine) (h : Inv e) where
  complete-Inv :
      (now : ℕ) (id : String) (err : Option Error)
      → contains id e.dispatched_tasks ≡ true
      → Inv (complete mentions now id err e)
  unfolding complete
  complete-Inv now id err known =
      let (node, there, r) = h.begun id known in
      rw (there, complete)
        (handle_task_completion-Inv mentions now id (final_status mentions err) err false e h known
          (inl refl))

  worker_finish-Inv :
      (now : ℕ) (id : String) (err : Option Error)
      → contains id e.worker_tasks ≡ true
      → Inv (worker_finish mentions now id err e)
  unfolding worker_finish
  worker_finish-Inv now id err q =
      bookkeeping-Inv after (worker_finish mentions now id err e) refl left.queued
        (λ k w. left.held k (remove_one_less id k after.worker_tasks w)) left
    where
      after : Engine
      after = complete mentions now id err e

      left : Inv after
      left = complete-Inv now id err (h.held id q)

  -- The ticker changes the stall counters alone.
  pub tick_only :
      (tolerance : ℕ) (e' : Engine)
      → tick tolerance e ≡ again e'
      → e' ≡ record e {
        stall_checks = e'.stall_checks;
        last_accounted_for_count = e'.last_accounted_for_count;
        tasks_accounted_for = e'.tasks_accounted_for;
      }
  unfolding tick check_stall
  tick_only tolerance e' q = ground arith

  tick-Inv : (tolerance : ℕ) (e' : Engine) → tick tolerance e ≡ again e' → Inv e'
  tick-Inv tolerance e' q = subst Inv (sym (tick_only tolerance e' q)) (record {
    graph = h.graph;
    waiting = h.waiting;
    begun = h.begun;
    woken = h.woken;
    tracked = h.tracked;
    opened = h.opened;
    queued = h.queued;
    held = h.held;
  })

  pub Step-Inv : (e' : Engine) → Step mentions e e' → Inv e'
  unfolding worker_start receive_fatal contains
  Step-Inv e' (take_ready now id rest ended pop q) =
      subst Inv (sym q) (receive_ready-Inv mentions now id ended rest e h pop)
  Step-Inv e' (take_work id rest pop q) = subst Inv (sym q) (
      bookkeeping-Inv e (worker_start mentions id (record e { work_queue = rest })) refl
        (λ k w. h.queued k (ground (arith, pop)))
        (λ k w. ground (arith, pop, h.held k, h.queued id, eq_iff id k, eq_refl id)) h)
  Step-Inv e' (finish_work now id err has q) = subst Inv (sym q) (worker_finish-Inv now id err has)
  Step-Inv e' (take_fatal err has q) = subst Inv (sym q) (
      bookkeeping-Inv e (receive_fatal err (record e { fatal_err_chan = none })) refl h.queued
        h.held h)
  Step-Inv e' (take_tick tolerance q) = tick-Inv tolerance e' q

-- The invariant of a whole run.
pub Reach-Inv : (mentions : Error → Bool) (s e : Engine) → Inv s → Reach mentions s e → Inv e
Reach-Inv mentions s e i here = i
Reach-Inv mentions s e i (next {t} {u} r step) =
    Step-Inv mentions t (Reach-Inv mentions s t i r) u step
