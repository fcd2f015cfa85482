-- ===== src/Errors.antt =====
-- pkg/gxo/v1/errors/errors.go, and the errors of the standard library that the program tells apart.
-- A text is the message's fixed part; what `%v` and `%T` print into it is left out.
use gxo.Prelude.{String, Bool, true, false, ◌≡◌, ◌⊎◌, inl, inr, refl}

-- The constructors from `wrapped` on hold the error that `Unwrap` returns.
pub data Error : Type 0 where
  canceled deadline_exceeded : Error
  plain : String → Error
  config_error validation_error policy_violation module_not_found skipped : String → Error
  wrapped config_caused validation_caused task_execution record_processing : String → Error → Error

-- A Go result with an error: the error where it is not nil, and else the value.
pub data Result {ℓ} (V : Type ℓ) : Type ℓ where
  err : Error → Result V
  ok : V → Result V

-- if err != nil { return err }
infixl 10 ◌>>=◌
abbrev pub ◌>>=◌ {ℓ κ} : {V : Type ℓ} {W : Type κ} → Result V → (V → Result W) → Result W
err problem >>= next = err problem
ok v >>= next = next v

-- The same, where the value is not used.
infixl 10 ◌>>◌
abbrev pub ◌>>◌ {ℓ} : {W : Type ℓ} → Result (Unit {0}) → Result W → Result W
first >> next = first >>= λ _. next

-- IsSkipped: errors.As(err, *SkippedError)
unfoldable pub is_skipped : Error → Bool
is_skipped (skipped s) = true
is_skipped (wrapped s e) = is_skipped e
is_skipped (config_caused s e) = is_skipped e
is_skipped (validation_caused s e) = is_skipped e
is_skipped (task_execution s e) = is_skipped e
is_skipped (record_processing s e) = is_skipped e
is_skipped e = false

-- errors.Is(err, context.Canceled) || errors.Is(err, context.DeadlineExceeded)
unfoldable pub is_context_error : Error → Bool
is_context_error canceled = true
is_context_error deadline_exceeded = true
is_context_error (wrapped s e) = is_context_error e
is_context_error (config_caused s e) = is_context_error e
is_context_error (validation_caused s e) = is_context_error e
is_context_error (task_execution s e) = is_context_error e
is_context_error (record_processing s e) = is_context_error e
is_context_error e = false

-- A chain that succeeds has succeeded in its first part.
pub >>=-eq-ok {ℓ κ} :
    {V : Type ℓ} {W : Type κ} (first : Result V) (next : V → Result W) {w : W}
    → (first >>= next) ≡ ok w
    → (v : V) × (first ≡ ok v) × (next v ≡ ok w)
>>=-eq-ok (err problem) next h = cc
>>=-eq-ok (ok v) next h = (v, refl, h)

pub Result-cases {ℓ} :
    {V : Type ℓ} (r : Result V) → ((e : Error) × (r ≡ err e)) ⊎ ((v : V) × (r ≡ ok v))
Result-cases (err e) = inl (e, refl)
Result-cases (ok v) = inr (v, refl)
