-- ===== src/Retry.antt =====
-- internal/retry/retry.go: an operation is tried again until it succeeds, its attempts are used up or the
-- context ends. How long the delays between the attempts are is left out.
pub mod Loop
pub mod Calls
use gxo.Prelude.{
  ℕ, zero, suc, ◌-◌, String, Bool, true, false, not, ◌||◌, Option, none, some, if◌then◌else◌, eqb,
}
use gxo.Prelude.Int.{ℤ, pos, negsuc}
use gxo.Errors.{Error, config_error, wrapped}
use gxo.Engine.Completion.{redact_error}

-- The fields that decide on the attempts.
pub record Config : Type 0 where
  pub attempts : ℤ
  pub on_error : Bool

-- What an attempt, by its number from 1, meets: the context's error if it has ended before the
-- attempt, the error of the operation, and the context's error if it ends in the delay that follows.
pub record World : Type 0 where
  pub ended_before : ℕ → Option Error
  pub op : ℕ → Option Error
  pub ended_in_delay : ℕ → Option Error

-- if cfg.Attempts <= 0 { cfg.Attempts = 1 }
unfoldable pub attempts_of : ℤ → ℕ
attempts_of (pos zero) = 1
attempts_of (pos (suc n)) = suc n
attempts_of (negsuc n) = 1

module _ (mentions : Error → Bool) where
  -- The returns of the first select.
  unfoldable pub cancelled : Option Error → Error → Error
  cancelled none ended = ended
  cancelled (some last_err) ended = wrapped "retry cancelled" (redact_error mentions last_err)

  -- After the loop.
  unfoldable pub after_loop : Option Error → Error
  after_loop none = config_error "retry loop finished unexpectedly without success or error"
  after_loop (some last_err) = redact_error mentions last_err

  -- The second select: the error where the context ends in the delay, or else the attempts that follow.
  unfoldable pub after_delay : Option Error → Error → ℕ → Option Error × ℕ → Option Error × ℕ
  after_delay none err attempt rest = rest
  after_delay (some ended) err attempt rest =
      (some (wrapped "retry delay cancelled" (redact_error mentions err)), attempt)

  -- From err == nil on, with the test for the last attempt.
  unfoldable pub after_op :
      Bool → Option Error → Option Error → ℕ → Option Error × ℕ → Option Error × ℕ
  unfolding after_loop after_delay
  after_op is_last none ended attempt rest = (none, attempt)
  after_op is_last (some err) ended attempt rest =
      if is_last
      then (some (after_loop (some err)), attempt)
      else after_delay ended err attempt rest

  -- The body of the loop.
  unfoldable pub attempt_with :
      Option Error
      → Option Error
      → Bool
      → Option Error
      → Option Error
      → ℕ
      → Option Error × ℕ
      → Option Error × ℕ
  unfolding cancelled after_op
  attempt_with (some ended) last_err is_last result ended' attempt rest =
      (some (cancelled last_err ended), attempt - 1)
  attempt_with none last_err is_last result ended' attempt rest =
      after_op is_last result ended' attempt rest

  module _ (w : World) (on_error : Bool) (max : ℕ) where
    -- for attempt := 1; attempt <= cfg.Attempts; attempt++, with the number of attempts left.
    unfoldable pub attempt_loop : ℕ → ℕ → Option Error → Option Error × ℕ
    unfolding attempt_with after_loop
    attempt_loop zero attempt last_err = (some (after_loop last_err), attempt - 1)
    attempt_loop (suc left) attempt last_err =
        let rest = attempt_loop left (suc attempt) (w.op attempt) in
        attempt_with (w.ended_before attempt) last_err (eqb attempt max || not on_error)
          (w.op attempt) (w.ended_in_delay attempt) attempt rest

  -- Do: the error that it returns, and how often it has called the operation.
  unfoldable pub retry_do : Config → World → Option Error × ℕ
  unfolding attempts_of attempt_loop
  retry_do cfg w = let max = attempts_of cfg.attempts in attempt_loop w cfg.on_error max max 1 none
