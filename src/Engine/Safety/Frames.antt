-- ===== src/Engine/Safety/Frames.antt =====
-- What the handlers do to the statuses and to the books of a run, whatever the graph is.
use gxo.Prelude.{
  ℕ, String, Bool, true, false, not, ◌≡◌, refl, ap, ◌∙◌, ◌⊎◌, inl, inr, ◌&&◌, [], ◌∷◌, ◌++◌, Option,
  none, some, arith, Option-cases, Bool-cases, if◌then◌else◌, contains,
}
use gxo.Prelude.Dict.{Dict, get, put}
use gxo.Errors.{Error}
use gxo.Dag.Defs.{TaskStatus, running, failed, Node}
use gxo.Engine.Defs.{Engine, write_task_status}
use gxo.Engine.Signals.{
  stream_dep_met, state_dep_met, stream_deps_of, state_deps_of, signal_stream_dependents,
  signal_state_dependents,
}
use gxo.Prelude.Int.{is_zero}
use gxo.Engine.Signals.Effect.{OnlySignals, all-OnlySignals}
use gxo.Engine.Completion.{
  is_terminal?, send_fatal, halt_on, record_completion, propagate, handle_task_completion,
}
use gxo.Engine.Schedule.{is_pending?, signal_streams_of, mark_running, hand_over, receive_ready}

-- The same dispatched tasks, queue and busy workers, and these statuses.
pub record Books (e e' : Engine) (statuses : Dict TaskStatus) : Type 0 where
  pub dispatched : e'.dispatched_tasks ≡ e.dispatched_tasks
  pub queue : e'.work_queue ≡ e.work_queue
  pub tasks : e'.worker_tasks ≡ e.worker_tasks
  pub now_statuses : e'.task_statuses ≡ statuses

OnlySignals-Books : (e e' : Engine) → OnlySignals e e' → Books e e' e.task_statuses
OnlySignals-Books e e' only = record {
  dispatched = ap (λ (x : Engine). x.dispatched_tasks) only;
  queue = ap (λ (x : Engine). x.work_queue) only;
  tasks = ap (λ (x : Engine). x.worker_tasks) only;
  now_statuses = ap (λ (x : Engine). x.task_statuses) only;
}

signal_state-Books :
    (node : Node) (e : Engine) → Books e (signal_state_dependents node e) e.task_statuses
unfolding signal_state_dependents
signal_state-Books node e = OnlySignals-Books e (signal_state_dependents node e) (
    all-OnlySignals state_deps_of state_dep_met (λ n. is_zero n.state_deps_remaining) node.id
      node.required_by e)

signal_streams-Books : (id : String) (e : Engine) → Books e (signal_streams_of id e) e.task_statuses
unfolding signal_streams_of signal_stream_dependents
signal_streams-Books id e = elim (Option-cases (get id e.dag.nodes)) [
  | inl absent ↦
      rw (absent, signal_streams_of)
        (record { dispatched = refl; queue = refl; tasks = refl; now_statuses = refl })
  | inr (node, present) ↦
      rw (present, signal_streams_of)
        (OnlySignals-Books e (signal_stream_dependents node e) (
          all-OnlySignals stream_deps_of stream_dep_met (λ n. is_zero n.stream_deps_remaining)
            node.id node.required_by e))
]

halt_on-Books : (err : Option Error) (e : Engine) → Books e (halt_on err e) e.task_statuses
unfolding halt_on send_fatal
halt_on-Books err e = record {
  dispatched = ground arith;
  queue = ground arith;
  tasks = ground arith;
  now_statuses = ground arith;
}

module _ (mentions : Error → Bool) where
  propagate-Books :
      (node : Option Node) (status : TaskStatus) (err : Option Error) (e : Engine)
      → Books e (propagate mentions node status err e) e.task_statuses
  unfolding propagate
  propagate-Books none status err e = record {
    dispatched = refl;
    queue = refl;
    tasks = refl;
    now_statuses = refl;
  }
  propagate-Books (some node) status err e = record {
    dispatched = ground (arith, sent.dispatched, after.dispatched, plainly.dispatched);
    queue = ground (arith, sent.queue, after.queue, plainly.queue);
    tasks = ground (arith, sent.tasks, after.tasks, plainly.tasks);
    now_statuses = ground (arith, sent.now_statuses, after.now_statuses, plainly.now_statuses);
  }
    where
      sent : Books e (signal_state_dependents node e) e.task_statuses
      sent = signal_state-Books node e

      after :
          Books
            (signal_state_dependents node e)
            (halt_on err (signal_state_dependents node e))
            (signal_state_dependents node e).task_statuses
      after = halt_on-Books err (signal_state_dependents node e)

      plainly : Books e (halt_on err e) e.task_statuses
      plainly = halt_on-Books err e

  pub handle_task_completion-Books :
      (now : ℕ) (id : String) (status : TaskStatus) (err : Option Error) (synthetic : Bool)
      (e : Engine)
      → Books e (handle_task_completion mentions now id status err synthetic e) (
          if not synthetic && is_terminal? (get id e.task_statuses)
          then e.task_statuses
          else put id status e.task_statuses)
  unfolding handle_task_completion record_completion write_task_status
  handle_task_completion-Books now id status err synthetic e =
      elim (Bool-cases (not synthetic && is_terminal? (get id e.task_statuses))) [
        | inl guarded ↦
            rw guarded
              (record { dispatched = refl; queue = refl; tasks = refl; now_statuses = refl })
        | inr taken ↦
            let p =
              propagate-Books (get id e.dag.nodes) status err
                (record_completion mentions now id status err e) in
            rw taken (record {
              dispatched = p.dispatched;
              queue = p.queue;
              tasks = p.tasks;
              now_statuses = p.now_statuses;
            })
      ]

-- A task that is taken from the ready channel and dispatched: it waits in the queue, or it has
-- failed with the end of the context.
pub record Dispatched (e e' : Engine) (id : String) : Type 0 where
  pub fresh : contains id e.dispatched_tasks ≡ false
  pub was_pending : is_pending? (get id e.task_statuses) ≡ true
  pub dispatched : e'.dispatched_tasks ≡ id ∷ e.dispatched_tasks
  pub tasks : e'.worker_tasks ≡ e.worker_tasks
  pub outcome :
      ((e'.work_queue ≡ e.work_queue ++ id ∷ [])
        × (e'.task_statuses ≡ put id running e.task_statuses))
      ⊎ ((e'.work_queue ≡ e.work_queue)
          × (e'.task_statuses ≡ put id failed (put id running e.task_statuses)))

module _ (mentions : Error → Bool) (now : ℕ) (id : String) (e : Engine) where
  abbrev sent : Engine
  sent = signal_streams_of id (mark_running now id (record e { stall_checks = 0 }))

  sent-Books : Books (mark_running now id e) sent (put id running e.task_statuses)
  unfolding mark_running write_task_status
  sent-Books =
      let b = signal_streams-Books id (mark_running now id (record e { stall_checks = 0 })) in
      record {
        dispatched = b.dispatched;
        queue = b.queue;
        tasks = b.tasks;
        now_statuses = b.now_statuses;
      }

  dispatch_taken :
      (ended : Option Error)
      → contains id e.dispatched_tasks ≡ false
      → is_pending? (get id e.task_statuses) ≡ true
      → Dispatched e (hand_over mentions now id ended sent) id
  unfolding hand_over mark_running write_task_status
  dispatch_taken none f p = record {
    fresh = f;
    was_pending = p;
    dispatched = sent-Books.dispatched;
    tasks = sent-Books.tasks;
    outcome = inl (ap (λ q. q ++ id ∷ []) sent-Books.queue, sent-Books.now_statuses);
  }
  dispatch_taken (some err) f p =
      let b = handle_task_completion-Books mentions now id failed (some err) true sent in
      record {
        fresh = f;
        was_pending = p;
        dispatched = b.dispatched ∙ sent-Books.dispatched;
        tasks = b.tasks ∙ sent-Books.tasks;
        outcome = inr (
          b.queue ∙ sent-Books.queue,
          b.now_statuses ∙ ap (put id failed) sent-Books.now_statuses,
        );
      }

  -- Taking a task from the ready channel dispatches it, or changes no book at all.
  pub receive_ready_cases :
      (ended : Option Error)
      → Dispatched e (receive_ready mentions now id ended e) id
        ⊎ Books e (receive_ready mentions now id ended e) e.task_statuses
  unfolding receive_ready
  receive_ready_cases ended = elim (Bool-cases (contains id e.dispatched_tasks)) [
    | inl known ↦
        inr
          (rw known (record { dispatched = refl; queue = refl; tasks = refl; now_statuses = refl }))
    | inr f ↦ elim (Bool-cases (is_pending? (get id e.task_statuses))) [
      | inl p ↦ inl (rw f (rw p (dispatch_taken ended f p)))
      | inr p ↦ inr (
          rw f
            (rw p (record { dispatched = refl; queue = refl; tasks = refl; now_statuses = refl })))
    ]
  ]
