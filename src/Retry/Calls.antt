-- ===== src/Retry/Calls.antt =====
-- How often the retries call the operation, and what they return when each attempt fails.
use gxo.Prelude.{
  ℕ, zero, suc, ◌+◌, ◌≤◌, Bool, true, false, not, ◌||◌, Option, none, some, ◌≡◌, refl, ap, ◌∙◌,
  if◌then◌else◌, if_true, if_false, subst, arith, eqb,
}
use gxo.Errors.{Error}
use gxo.Engine.Completion.{redact_error}
use gxo.Prelude.Int.{ℤ, pos, negsuc}
use gxo.Retry.{
  Config, World, attempts_of, after_loop, after_delay, after_op, attempt_with, attempt_loop,
  retry_do,
}

some_eq : {a b : Error} → some a ≡ some b → a ≡ b
some_eq h = cc

module _ (mentions : Error → Bool) where
  -- One attempt ends after a call at most, or goes on with the rest, which only a retry does.
  body_calls :
      (before result delay last_err : Option Error)
      → (is_last : Bool) → (n max : ℕ) → (rest : Option Error × ℕ) → n ≤ max
      → rest.1 ≤ max
      → (attempt_with mentions before last_err is_last result delay n rest).1 ≤ max
  unfolding attempt_with after_op after_delay after_loop
  body_calls (some e) result delay last_err is_last n max rest h h' = omega arith
  body_calls none none delay last_err is_last n max rest h h' = h
  body_calls none (some e) delay last_err true n max rest h h' = h
  body_calls none (some e) none last_err false n max rest h h' = h'
  body_calls none (some e) (some d) last_err false n max rest h h' = h

  -- An attempt that fails where the context does not end.
  body_fails :
      (before result delay last_err : Option Error)
      → (is_last : Bool) → (n : ℕ) → (rest : Option Error × ℕ) → (e : Error) → before ≡ none
      → result ≡ some e
      → delay ≡ none
      → attempt_with mentions before last_err is_last result delay n rest
        ≡ (if is_last then (some (redact_error mentions e), n) else rest)
  unfolding attempt_with after_op after_delay after_loop
  body_fails none (some x) none last_err true n rest e b r d =
      ap (λ x. (some (redact_error mentions x), n)) (some_eq r)
  body_fails none (some x) none last_err false n rest e b r d = refl
  body_fails none (some x) (some y) last_err l n rest e b r d = cc
  body_fails none none delay last_err l n rest e b r d = cc
  body_fails (some x) result delay last_err l n rest e b r d = cc

  module _ (w : World) (max : ℕ) where
    loop_calls :
        (on_error : Bool) (left n : ℕ) (last_err : Option Error)
        → left + n ≡ suc max
        → (attempt_loop mentions w on_error max left n last_err).1 ≤ max
    unfolding attempt_loop
    loop_calls on_error zero n last_err total = omega arith
    loop_calls on_error (suc left) n last_err total =
        body_calls (w.ended_before n) (w.op n) (w.ended_in_delay n) last_err
          (eqb n max || not on_error) n max
          (attempt_loop mentions w on_error max left (suc n) (w.op n)) (omega arith)
          (loop_calls on_error left (suc n) (w.op n) (omega arith))

    module _
        (lasts : (j : ℕ)
          → 1 ≤ j
          → j ≤ max
          → (w.ended_before j ≡ none) × (w.ended_in_delay j ≡ none))
        (err : ℕ → Error) (fails : (j : ℕ) → 1 ≤ j → j ≤ max → w.op j ≡ some (err j)) where
      -- One attempt of the loop.
      loop_fails_once :
          (on_error : Bool) (left n : ℕ) (last_err : Option Error)
          → 1 ≤ n
          → n ≤ max
          → attempt_loop mentions w on_error max (suc left) n last_err ≡ (
              if eqb n max || not on_error
              then (some (redact_error mentions (err n)), n)
              else attempt_loop mentions w on_error max left (suc n) (w.op n))
      unfolding attempt_loop
      loop_fails_once on_error left n last_err from to =
          let (b, d) = lasts n from to in
          body_fails (w.ended_before n) (w.op n) (w.ended_in_delay n) last_err
            (eqb n max || not on_error) n
            (attempt_loop mentions w on_error max left (suc n) (w.op n)) (err n) b (fails n from to)
            d

      loop_fails :
          (left n : ℕ) (last_err : Option Error)
          → left + n ≡ max
          → 1 ≤ n
          → attempt_loop mentions w true max (suc left) n last_err
            ≡ (some (redact_error mentions (err max)), max)
      loop_fails zero n last_err total from =
          loop_fails_once true zero n last_err from (omega arith)
          ∙ if_true (eqb n max || not true) _ _ (ground arith)
          ∙ ap (λ k. (some (redact_error mentions (err k)), k)) (omega arith)
      loop_fails (suc left) n last_err total from =
          loop_fails_once true (suc left) n last_err from (omega arith)
          ∙ if_false (eqb n max || not true) _ _ (ground arith)
          ∙ loop_fails left (suc n) (w.op n) (omega arith) (omega arith)

      loop_fails_first :
          (left : ℕ)
          → 1 ≤ max
          → attempt_loop mentions w false max (suc left) 1 none
            ≡ (some (redact_error mentions (err 1)), 1)
      loop_fails_first left some_max =
          loop_fails_once false left 1 none (omega arith) some_max
          ∙ if_true (eqb 1 max || not false) _ _ (ground arith)

      loop_from_start :
          (on_error : Bool) (left : ℕ)
          → suc left ≡ max
          → let last = if on_error then max else 1 in
            attempt_loop mentions w on_error max max 1 none
            ≡ (some (redact_error mentions (err last)), last)
      loop_from_start true left same =
          subst
            (λ k.
              attempt_loop mentions w true max k 1 none
              ≡ (some (redact_error mentions (err max)), max))
            same (loop_fails left 1 none (omega arith) (omega arith))
      loop_from_start false left same =
          subst
            (λ k.
              attempt_loop mentions w false max k 1 none
              ≡ (some (redact_error mentions (err 1)), 1))
            same (loop_fails_first left (omega arith))

some_attempt : (n : ℤ) → (m : ℕ) × (suc m ≡ attempts_of n)
unfolding attempts_of
some_attempt (pos zero) = (0, refl)
some_attempt (pos (suc n)) = (n, refl)
some_attempt (negsuc n) = (0, refl)

body_last_call :
    (mentions : Error → Bool)
    → (w : World) → (before result delay last_err : Option Error) → (is_last : Bool) → (n : ℕ)
    → (rest : Option Error × ℕ) → 1 ≤ n
    → w.op n ≡ result
    → (rest.0 ≡ none → (1 ≤ rest.1) × (w.op rest.1 ≡ none))
    → (attempt_with mentions before last_err is_last result delay n rest).0 ≡ none
    → (1 ≤ (attempt_with mentions before last_err is_last result delay n rest).1)
      × (w.op (attempt_with mentions before last_err is_last result delay n rest).1 ≡ none)
unfolding attempt_with after_op after_delay after_loop
body_last_call mentions w (some e) result delay last_err is_last n rest from same on h = cc
body_last_call mentions w none none delay last_err is_last n rest from same on h = (from, same)
body_last_call mentions w none (some e) delay last_err true n rest from same on h = cc
body_last_call mentions w none (some e) none last_err false n rest from same on h = on h
body_last_call mentions w none (some e) (some d) last_err false n rest from same on h = cc

loop_last_call :
    (mentions : Error → Bool)
    → (w : World) → (on_error : Bool) → (max left n : ℕ) → (last_err : Option Error) → 1 ≤ n
    → (attempt_loop mentions w on_error max left n last_err).0 ≡ none
    → (1 ≤ (attempt_loop mentions w on_error max left n last_err).1)
      × (w.op (attempt_loop mentions w on_error max left n last_err).1 ≡ none)
unfolding attempt_loop
loop_last_call mentions w on_error max zero n last_err from h = cc
loop_last_call mentions w on_error max (suc left) n last_err from h =
    body_last_call mentions w (w.ended_before n) (w.op n) (w.ended_in_delay n) last_err
      (eqb n max || not on_error) n (attempt_loop mentions w on_error max left (suc n) (w.op n))
      from refl (loop_last_call mentions w on_error max left (suc n) (w.op n) (omega arith)) h

-- However the operation and the context behave, the operation is called at most the configured number
-- of times, or once where that number is below 1.
pub retry_do_calls :
    (mentions : Error → Bool) (cfg : Config) (w : World)
    → (retry_do mentions cfg w).1 ≤ attempts_of cfg.attempts
unfolding retry_do
retry_do_calls mentions cfg w =
    let max = attempts_of cfg.attempts in
    loop_calls mentions w max cfg.on_error max 1 none (omega arith)

-- Where the context lasts and each attempt fails, the retries return the redacted error of the last
-- attempt: the configured one (at least the first) if `OnError` asks to retry, else the first. So often
-- the operation is called.
pub retry_do_exhausts :
    (mentions : Error → Bool) (cfg : Config) (w : World) (err : ℕ → Error)
    → ((j : ℕ)
        → 1 ≤ j
        → j ≤ attempts_of cfg.attempts
        → (w.ended_before j ≡ none) × (w.ended_in_delay j ≡ none))
    → ((j : ℕ) → 1 ≤ j → j ≤ attempts_of cfg.attempts → w.op j ≡ some (err j))
    → let last = if cfg.on_error then attempts_of cfg.attempts else 1 in
      retry_do mentions cfg w ≡ (some (redact_error mentions (err last)), last)
unfolding retry_do
retry_do_exhausts mentions cfg w err lasts fails =
    let (m, same) = some_attempt cfg.attempts in
    loop_from_start mentions w (attempts_of cfg.attempts) lasts err fails cfg.on_error m same

-- The last call of retries that end without an error has succeeded.
pub last_call :
    (mentions : Error → Bool) (cfg : Config) (w : World)
    → (retry_do mentions cfg w).0 ≡ none
    → (1 ≤ (retry_do mentions cfg w).1) × (w.op (retry_do mentions cfg w).1 ≡ none)
unfolding retry_do
last_call mentions cfg w h =
    let max = attempts_of cfg.attempts in
    loop_last_call mentions w cfg.on_error max max 1 none (omega arith) h
