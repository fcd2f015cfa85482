-- ===== src/Prelude/Decimal.antt =====
-- The text of a number in decimals, as Go's `%d` prints one that is not negative.
use Prim.Native.Char.{Char, code, nul}
use Prim.Native.Nat.{ℕ, zero, suc, ◌+◌, ◌-◌, ◌*◌, ◌/◌, ◌%◌, ◌<◌}
use Prim.Native.String.{String}
use mathlib.Core.Path.{◌≡◌, refl, ap, sym, ◌∙◌}
use mathlib.Core.Logic.{inl, inr}
use native.Mathlib.Omega.{arith}
use gxo.Prelude.Tests.{ltb, if◌then◌else◌, Bool-cases}

-- The characters `n`, `n + 1`, … of Unicode in this order.
abbrev IsRun : ℕ → String → Type 0
IsRun n String.[] = Unit
IsRun n (String.◌∷◌ c s) = (code c ≡ n) × IsRun (suc n) s

abbrev size : String → ℕ
size String.[] = 0
size (String.◌∷◌ c s) = suc (size s)

unfoldable nth_char : ℕ → String → Char
nth_char n String.[] = nul
nth_char zero (String.◌∷◌ c s) = c
nth_char (suc n) (String.◌∷◌ c s) = nth_char n s

code-nth_char :
    (n first : ℕ) (s : String) → IsRun first s → n < size s → code (nth_char n s) ≡ first + n
unfolding nth_char
code-nth_char n first String.[] run h = absurd (omega arith)
code-nth_char zero first (String.◌∷◌ c s) run h = omega (arith, run.0)
code-nth_char (suc n) first (String.◌∷◌ c s) run h =
    omega (arith, code-nth_char n (suc first) s run.1 (omega arith))

abbrev digit_char : ℕ → Char
digit_char n = nth_char n "0123456789"

-- The digits of `n` in front of `rest`; each step takes the last digit off.
unfoldable decimal_onto : ℕ → ℕ → String → String
unfolding nth_char
decimal_onto zero n rest = rest
decimal_onto (suc fuel) n rest =
    let more = decimal_onto fuel (n / 10) (String.◌∷◌ (digit_char (n % 10)) rest) in
    if ltb n 10 then String.◌∷◌ (digit_char n) rest else more

-- Fuel n + 1 is enough, since a number has at most n + 1 digits.
unfoldable pub decimal : ℕ → String
unfolding decimal_onto
decimal n = decimal_onto (suc n) n ""

-- The number that digits give after those read before.
abbrev read_from : ℕ → String → ℕ
read_from acc String.[] = acc
read_from acc (String.◌∷◌ c s) = read_from (acc * 10 + (code c - 48)) s

code-digit_char : (n : ℕ) → n < 10 → code (digit_char n) - 48 ≡ n
code-digit_char n h = omega (
  arith,
  code-nth_char n 48 "0123456789"
      (refl, (refl, (refl, (refl, (refl, (refl, (refl, (refl, (refl, (refl, tt)))))))))) h,
)

read_from-decimal_onto :
    (fuel n : ℕ) (rest : String)
    → n < fuel
    → read_from 0 (decimal_onto fuel n rest) ≡ read_from n rest
unfolding decimal_onto
read_from-decimal_onto zero n rest h = absurd (omega arith)
read_from-decimal_onto (suc fuel) n rest h = elim (Bool-cases (ltb n 10)) [
  | inl small ↦
      rw small (ap (λ k. read_from k rest) (omega (arith, code-digit_char n (ground arith))))
  | inr large ↦ rw large (
      read_from-decimal_onto fuel (n / 10) _ (ground arith)
      ∙ ap (λ k. read_from k rest) (omega (arith, code-digit_char (n % 10) (omega arith))))
]

-- Two numbers with the same text are the same.
pub decimal_injective : (m n : ℕ) → decimal m ≡ decimal n → m ≡ n
unfolding decimal
decimal_injective m n e =
    sym (read_from-decimal_onto (suc m) m "" (omega arith))
    ∙ ap (read_from 0) e
    ∙ read_from-decimal_onto (suc n) n "" (omega arith)
