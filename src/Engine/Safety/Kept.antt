-- ===== src/Engine/Safety/Kept.antt =====
-- The books of a run: what is dispatched, what is queued and what the statuses say of it.
use gxo.Prelude.{
  ℕ, String, Bool, true, false, not, ◌≡◌, refl, sym, ap, subst, ◌∙◌, inl, inr, ◌||◌, ◌&&◌, List, [],
  ◌∷◌, Option, none, some, arith, if◌then◌else◌, ◌==◌, eq_iff, contains, contains-append, IsNodup,
}
use gxo.Prelude.Dict.{get, put, get-put}
use gxo.Errors.{Error}
use gxo.Dag.Defs.{TaskStatus, ready, running, failed, Node}
use gxo.Engine.Defs.{Engine, is_terminal, is_pending}
use gxo.Engine.Completion.{is_terminal?}
use gxo.Engine.Schedule.{
  is_pending?, remove_one, worker_start, complete, final_status, worker_finish, receive_fatal,
}
use gxo.Engine.Steps.{
  Step, take_ready, take_work, finish_work, take_fatal, take_tick, Reach, here, next,
}
use gxo.Engine.Safety.Inv.{Inv}
use gxo.Engine.Safety.Frames.{Books, Dispatched, handle_task_completion-Books, receive_ready_cases}
use gxo.Engine.Safety.Run.{tick_only, Reach-Inv}

pub record Kept (e : Engine) : Type 0 where
  pub once : IsNodup e.dispatched_tasks
  pub never_ready : (k : String) → get k e.task_statuses ≡ some ready → ⊥
  pub left_pending :
      (k : String)
      → contains k e.dispatched_tasks ≡ true
      → is_pending? (get k e.task_statuses) ≡ false
  pub busy :
      (k : String)
      → get k e.task_statuses ≡ some running
      → (contains k e.work_queue || contains k e.worker_tasks) ≡ true

pub remove_one_other :
    (id k : String) (ks : List String)
    → (id == k) ≡ false
    → contains k (remove_one id ks) ≡ contains k ks
unfolding remove_one contains
remove_one_other id k [] d = refl
remove_one_other id k (j ∷ js) d = ground (arith, eq_iff j id, remove_one_other id k js d)

module _ (mentions : Error → Bool) (now : ℕ) (id : String) (e : Engine) where
  final_is_terminal : (err : Option Error) → is_terminal (final_status mentions err) ≡ true
  unfolding final_status is_terminal
  final_is_terminal none = refl
  final_is_terminal (some err) = ground arith

  pub complete-Books :
      (err : Option Error) (node : Node)
      → get id e.dag.nodes ≡ some node
      → Books e (complete mentions now id err e) (
          if is_terminal? (get id e.task_statuses)
          then e.task_statuses
          else put id (final_status mentions err) e.task_statuses)
  unfolding complete
  complete-Books err node there =
      rw (there, complete)
        (handle_task_completion-Books mentions now id (final_status mentions err) err false e)

  complete_status :
      (err : Option Error) (node : Node) (k : String)
      → get id e.dag.nodes ≡ some node
      → get k (complete mentions now id err e).task_statuses ≡ (
          if id == k && not (is_terminal? (get id e.task_statuses))
          then some (final_status mentions err)
          else get k e.task_statuses)
  complete_status err node k there = ground (
    arith,
    ap (get k) (complete-Books err node there).now_statuses,
    get-put id k (final_status mentions err) e.task_statuses,
  )

module _ (mentions : Error → Bool) (e : Engine) (h : Kept e) where
  Dispatched-Kept :
      (rest : List String) (e' : Engine) (id : String)
      → Dispatched (record e { ready_chan = rest }) e' id
      → Kept e'
  unfolding contains is_pending
  Dispatched-Kept rest e' id d = record {
    once = rw d.dispatched (d.fresh, h.once);
    never_ready = λ k q. elim d.outcome [
      | inl (a, s) ↦ ground (arith, s, get-put id k running e.task_statuses, h.never_ready k)
      | inr (a, s) ↦ ground (
        arith,
        s,
        get-put id k failed (put id running e.task_statuses),
        get-put id k running e.task_statuses,
        h.never_ready k,
      )
    ];
    left_pending = λ k q. elim d.outcome [
      | inl (a, s) ↦
          ground (arith, d.dispatched, s, get-put id k running e.task_statuses, h.left_pending k)
      | inr (a, s) ↦ ground (
        arith,
        d.dispatched,
        s,
        get-put id k failed (put id running e.task_statuses),
        get-put id k running e.task_statuses,
        h.left_pending k,
      )
    ];
    busy = λ k q. elim d.outcome [
      | inl (a, s) ↦ ground (
        arith,
        a,
        s,
        d.tasks,
        eq_iff id k,
        contains-append k e.work_queue (id ∷ []),
        get-put id k running e.task_statuses,
        h.busy k,
      )
      | inr (a, s) ↦ ground (
        arith,
        a,
        s,
        d.tasks,
        get-put id k failed (put id running e.task_statuses),
        get-put id k running e.task_statuses,
        h.busy k,
      )
    ];
  }

  same-Kept :
      (rest : List String) (e' : Engine)
      → Books (record e { ready_chan = rest }) e' e.task_statuses
      → Kept e'
  same-Kept rest e' b = record {
    once = rw b.dispatched h.once;
    never_ready = λ k q. h.never_ready k (sym (ap (get k) b.now_statuses) ∙ q);
    left_pending = λ k q. ground (arith, b.dispatched, b.now_statuses, h.left_pending k);
    busy = λ k q. ground (arith, b.queue, b.tasks, b.now_statuses, h.busy k);
  }

  finish-Kept :
      (now : ℕ) (id : String) (err : Option Error) (node : Node)
      → get id e.dag.nodes ≡ some node
      → Kept (worker_finish mentions now id err e)
  unfolding worker_finish is_terminal is_pending
  finish-Kept now id err node there =
      let b = complete-Books mentions now id e err node there in
      let s = λ (k : String). complete_status mentions now id e err node k there in
      let f = final_is_terminal mentions now id e err in
      record {
        once = rw b.dispatched h.once;
        never_ready = λ k q. ground (arith, s k, f, h.never_ready k);
        left_pending = λ k q. ground (arith, b.dispatched, s k, f, h.left_pending k);
        busy = λ k q. ground (
          arith,
          b.queue,
          b.tasks,
          s k,
          f,
          h.busy k,
          remove_one_other id k e.worker_tasks,
          eq_iff id k,
        );
      }

module _ (mentions : Error → Bool) (e : Engine) (i : Inv e) (h : Kept e) where
  pub Step-Kept : (e' : Engine) → Step mentions e e' → Kept e'
  unfolding worker_start receive_fatal contains
  Step-Kept e' (take_ready now id rest ended pop q) =
      subst Kept (sym q)
        (elim (receive_ready_cases mentions now id (record e { ready_chan = rest }) ended) [
          | inl d ↦ Dispatched-Kept mentions e h rest _ id d
          | inr b ↦ same-Kept mentions e h rest _ b
        ])
  Step-Kept e' (take_work id rest pop q) = subst Kept (sym q) (record {
    once = h.once;
    never_ready = h.never_ready;
    left_pending = h.left_pending;
    busy = λ k r. ground (arith, h.busy k, pop);
  })
  Step-Kept e' (finish_work now id err has q) =
      let (node, there, r) = i.begun id (i.held id has) in
      subst Kept (sym q) (finish-Kept mentions e h now id err node there)
  Step-Kept e' (take_fatal err has q) = subst Kept (sym q) (record {
    once = h.once;
    never_ready = h.never_ready;
    left_pending = h.left_pending;
    busy = h.busy;
  })
  Step-Kept e' (take_tick tolerance q) =
      subst Kept (sym (tick_only mentions e i tolerance e' q)) (record {
        once = h.once;
        never_ready = h.never_ready;
        left_pending = h.left_pending;
        busy = h.busy;
      })

  -- A terminal status is final.
  pub Step-final :
      (e' : Engine) (k : String) (s : TaskStatus)
      → Step mentions e e'
      → get k e.task_statuses ≡ some s
      → is_terminal s ≡ true
      → get k e'.task_statuses ≡ some s
  unfolding worker_start receive_fatal worker_finish is_pending is_terminal
  Step-final e' k s (take_ready now id rest ended pop q) g t =
      ap (λ (x : Engine). get k x.task_statuses) q
      ∙ elim (receive_ready_cases mentions now id (record e { ready_chan = rest }) ended) [
        | inl d ↦ elim d.outcome [
          | inl (a, o) ↦
              ground (arith, o, d.was_pending, get-put id k running e.task_statuses, eq_iff id k)
          | inr (a, o) ↦ ground (
            arith,
            o,
            d.was_pending,
            get-put id k failed (put id running e.task_statuses),
            get-put id k running e.task_statuses,
            eq_iff id k,
          )
        ]
        | inr b ↦ ap (get k) b.now_statuses ∙ g
      ]
  Step-final e' k s (take_work id rest pop q) g t = ap (λ (x : Engine). get k x.task_statuses) q ∙ g
  Step-final e' k s (finish_work now id err has q) g t =
      let (node, there, r) = i.begun id (i.held id has) in
      ap (λ (x : Engine). get k x.task_statuses) q
      ∙ ground (arith, complete_status mentions now id e err node k there, eq_iff id k)
  Step-final e' k s (take_fatal err has q) g t = ap (λ (x : Engine). get k x.task_statuses) q ∙ g
  Step-final e' k s (take_tick tolerance q) g t =
      ap (λ (x : Engine). get k x.task_statuses) (tick_only mentions e i tolerance e' q) ∙ g

pub Reach-Kept :
    (mentions : Error → Bool) (s e : Engine) → Inv s → Kept s → Reach mentions s e → Kept e
Reach-Kept mentions s e i h here = h
Reach-Kept mentions s e i h (next {t} {u} r step) =
    Step-Kept mentions t (Reach-Inv mentions s t i r) (Reach-Kept mentions s t i h r) u step
