-- ===== src/Engine/Steps.antt =====
-- The steps of a run: each case of the `select` in the scheduling loop and in `worker`, taken as one
-- step when it can be taken, in any order. A step holds the signalling that follows a status change,
-- which the program does after it has released the lock of the statuses. Between the two, another
-- handler may run: a task that both of them signal last can then be sent to the ready channel twice,
-- and the loop drops the second. Such runs are not among those of the model.
use gxo.Prelude.{ℕ, String, true, ◌≡◌, List, ◌∷◌, Option, none, some, contains, Bool}
use gxo.Errors.{Error}
use gxo.Engine.Defs.{Engine}
use gxo.Engine.Schedule.{receive_ready, worker_start, worker_finish, receive_fatal, tick, again}

module _ (mentions : Error → Bool) where
  pub data Step (e e' : Engine) : Type 0 where
    take_ready :
        (now : ℕ) (id : String) (rest : List String) (ended : Option Error)
        → e.ready_chan ≡ id ∷ rest
        → e' ≡ receive_ready mentions now id ended (record e { ready_chan = rest })
        → Step e e'
    take_work :
        (id : String) (rest : List String)
        → e.work_queue ≡ id ∷ rest
        → e' ≡ worker_start mentions id (record e { work_queue = rest })
        → Step e e'
    finish_work :
        (now : ℕ) (id : String) (err : Option Error)
        → contains id e.worker_tasks ≡ true
        → e' ≡ worker_finish mentions now id err e
        → Step e e'
    take_fatal :
        (err : Error)
        → e.fatal_err_chan ≡ some err
        → e' ≡ receive_fatal err (record e { fatal_err_chan = none })
        → Step e e'
    take_tick : (tolerance : ℕ) → tick tolerance e ≡ again e' → Step e e'

  pub data Reach (s : Engine) : Engine → Type 0 where
    here : Reach s s
    next : {t u : Engine} → Reach s t → Step t u → Reach s u
