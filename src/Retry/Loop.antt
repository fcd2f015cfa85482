-- ===== src/Retry/Loop.antt =====
-- When the retries succeed, and how often they call the operation.
use gxo.Prelude.{
  ℕ, zero, suc, ◌+◌, ◌≤◌, ◌<◌, Bool, true, false, not, ◌||◌, Option, none, some, ◌≡◌, ◌≢◌, ◌↔◌, ◌⊎◌,
  refl, ap, ◌∙◌, arith, subst, eqb, inl, inr,
}
use gxo.Errors.{Error}
use gxo.Retry.{
  Config, World, attempts_of, after_loop, after_delay, after_op, attempt_with, attempt_loop,
  retry_do,
}

-- The attempt fails without an end of the context, and there is another one after it.
abbrev pub IsRetried : World → Bool → ℕ → Type 0
IsRetried w on_error j =
    (w.ended_before j ≡ none) × (w.op j ≢ none) × (on_error ≡ true) × (w.ended_in_delay j ≡ none)

-- An attempt from the `n`th to the last succeeds, and those from the `n`th on before it are retried.
abbrev pub Succeeds : World → Bool → ℕ → ℕ → Type 0
Succeeds w on_error max n =
    (k : ℕ) × (n ≤ k)
    × (k ≤ max)
    × (w.ended_before k ≡ none)
    × (w.op k ≡ none)
    × ((j : ℕ) → n ≤ j → j < k → IsRetried w on_error j)

module _ (mentions : Error → Bool) where
  -- One attempt gives no error: it succeeds, or it is retried and the rest gives none.
  body_succeeds :
      (before result delay last_err : Option Error)
      → (is_last : Bool) → (n : ℕ) → (rest : Option Error × ℕ)
      → (attempt_with mentions before last_err is_last result delay n rest).0 ≡ none
      → (before ≡ none)
        × ((result ≡ none)
            ⊎ ((result ≢ none) × (is_last ≡ false) × (delay ≡ none) × (rest.0 ≡ none)))
  unfolding attempt_with after_op after_delay after_loop
  body_succeeds (some e) result delay last_err is_last n rest h = cc
  body_succeeds none none delay last_err is_last n rest h = (refl, inl refl)
  body_succeeds none (some e) delay last_err true n rest h = cc
  body_succeeds none (some e) none last_err false n rest h = (refl, inr (λ q. cc, refl, refl, h))
  body_succeeds none (some e) (some d) last_err false n rest h = cc

  body_ends :
      (before result delay last_err : Option Error)
      → (is_last : Bool) → (n : ℕ) → (rest : Option Error × ℕ) → before ≡ none
      → result ≡ none
      → (attempt_with mentions before last_err is_last result delay n rest).0 ≡ none
  unfolding attempt_with after_op
  body_ends none none delay last_err is_last n rest b r = refl
  body_ends (some e) result delay last_err is_last n rest b r = cc
  body_ends none (some e) delay last_err is_last n rest b r = cc

  body_retries :
      (before result delay last_err : Option Error)
      → (is_last : Bool) → (n : ℕ) → (rest : Option Error × ℕ) → before ≡ none
      → result ≢ none
      → is_last ≡ false
      → delay ≡ none
      → attempt_with mentions before last_err is_last result delay n rest ≡ rest
  unfolding attempt_with after_op after_delay
  body_retries none (some e) none last_err false n rest b r l d = refl
  body_retries (some x) result delay last_err is_last n rest b r l d = cc
  body_retries none none delay last_err is_last n rest b r l d = absurd (r refl)
  body_retries none (some e) delay last_err true n rest b r l d = cc
  body_retries none (some e) (some x) last_err false n rest b r l d = cc

  module _ (w : World) (on_error : Bool) (max : ℕ) where
    not_last : (n : ℕ) → n ≢ max → on_error ≡ true → (eqb n max || not on_error) ≡ false
    not_last n h o = ground arith

    not_last⁻¹ : (n : ℕ) → (eqb n max || not on_error) ≡ false → (n ≢ max) × (on_error ≡ true)
    not_last⁻¹ n h = (ground arith, ground arith)

    loop-Succeeds :
        (left n : ℕ) (last_err : Option Error)
        → (attempt_loop mentions w on_error max left n last_err).0 ≡ none
        → left + n ≡ suc max
        → Succeeds w on_error max n
    unfolding attempt_loop
    loop-Succeeds zero n last_err h total = cc
    loop-Succeeds (suc left) n last_err h total =
        let rest = attempt_loop mentions w on_error max left (suc n) (w.op n) in
        let (b, how) =
          body_succeeds (w.ended_before n) (w.op n) (w.ended_in_delay n) last_err
            (eqb n max || not on_error) n rest h in
        elim how [
          | inl r ↦ (n, omega arith, omega arith, b, r, λ j lo hi. absurd (omega arith))
          | inr (r, l, d, h') ↦
              let (k, lo, hi, bk, rk, before) =
                loop-Succeeds left (suc n) (w.op n) h' (omega arith) in
              (
                k,
                omega arith,
                hi,
                bk,
                rk,
                λ j from below. elim (eq_or_lt n j from) [
                  | inl same ↦ subst (IsRetried w on_error) same (b, r, (not_last⁻¹ n l).1, d)
                  | inr more ↦ before j more below
                ],
              )
        ]
      where
        eq_or_lt : (a b : ℕ) → a ≤ b → (a ≡ b) ⊎ (suc a ≤ b)
        eq_or_lt a b h = ground arith

    loop_ends :
        (left n : ℕ) (last_err : Option Error)
        → left + n ≡ suc max
        → Succeeds w on_error max n
        → (attempt_loop mentions w on_error max left n last_err).0 ≡ none
    unfolding attempt_loop
    loop_ends zero n last_err total (k, lo, hi, b, r, before) = absurd (omega arith)
    loop_ends (suc left) n last_err total (k, lo, hi, b, r, before) =
        let rest = attempt_loop mentions w on_error max left (suc n) (w.op n) in
        elim (compare_least k n lo) [
          | inl same ↦
              body_ends (w.ended_before n) (w.op n) (w.ended_in_delay n) last_err
                (eqb n max || not on_error) n rest (subst (λ i. w.ended_before i ≡ none) same b)
                (subst (λ i. w.op i ≡ none) same r)
          | inr more ↦
              let (b', r', o, d) = before n (omega arith) more in
              let skip =
                body_retries (w.ended_before n) (w.op n) (w.ended_in_delay n) last_err
                  (eqb n max || not on_error) n rest b' r' (not_last n (λ q. omega arith) o) d in
              ap (λ x. x.0) skip
              ∙ loop_ends left (suc n) (w.op n) (omega arith)
                  (k, more, hi, b, r, λ j from below. before j (omega arith) below)
        ]
      where
        compare_least : (a b : ℕ) → b ≤ a → (a ≡ b) ⊎ (b < a)
        compare_least a b h = ground arith

-- The retries return no error exactly when the operation succeeds in an attempt, from the first to the
-- configured number (at least one), that the context has not ended before, and each attempt before it
-- fails with the context lasting through the attempt and its delay, and `OnError` asks to retry.
pub retry_do_iff :
    (mentions : Error → Bool) (cfg : Config) (w : World)
    → ((retry_do mentions cfg w).0 ≡ none) ↔ Succeeds w cfg.on_error (attempts_of cfg.attempts) 1
unfolding retry_do
retry_do_iff mentions cfg w =
    let max = attempts_of cfg.attempts in
    (
      λ h. loop-Succeeds mentions w cfg.on_error max max 1 none h (omega arith),
      λ s. loop_ends mentions w cfg.on_error max max 1 none (omega arith) s,
    )
