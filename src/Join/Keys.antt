-- ===== src/Join/Keys.antt =====
-- The keys of modules/stream/join/join.go: `normalizeKey` and `extractKey`.
use Prim.Native.Char.{Char, code}
use Prim.Native.String.{String}
use gxo.Prelude.{
  ℕ, ◌+◌, ◌-◌, ◌*◌, ◌^◌, Bool, true, false, ◌&&◌, [], ◌∷◌, Option, none, some, if◌then◌else◌, leb,
  ltb, eqb, ◌==◌, ◌≡◌, ◌↔◌, refl, arith, eq_iff,
}
use gxo.Prelude.Dict.{Dict, put}
use gxo.Prelude.Int.{ℤ, pos, negsuc}
use gxo.Value.{
  Value, null, bool, int, sized_int, float32, float64, str, strings, list, dict, generic, other,
}
use gxo.Errors.{plain, Result, ok, err}

-- What normalizeKey returns, as an `interface{}` that is a key of a map: nil, an int64 or a string.
pub data Key : Type 0 where
  no_key : Key
  number : ℤ → Key
  name : String → Key

abbrev pub int_eq : ℤ → ℤ → Bool
int_eq (pos a) (pos b) = eqb a b
int_eq (negsuc a) (negsuc b) = eqb a b
int_eq (pos a) (negsuc b) = false
int_eq (negsuc a) (pos b) = false

-- Go's == on such keys.
abbrev pub key_eq : Key → Key → Bool
key_eq no_key no_key = true
key_eq (number a) (number b) = int_eq a b
key_eq (name a) (name b) = a == b
key_eq no_key (number b) = false
key_eq no_key (name b) = false
key_eq (number a) no_key = false
key_eq (number a) (name b) = false
key_eq (name a) no_key = false
key_eq (name a) (number b) = false

pub key_eq_iff : (a b : Key) → (key_eq a b ≡ true) ↔ (a ≡ b)
key_eq_iff no_key no_key = (λ h. refl, λ h. refl)
key_eq_iff no_key (number b) = (λ h. cc, λ h. cc)
key_eq_iff no_key (name b) = (λ h. cc, λ h. cc)
key_eq_iff (number a) no_key = (λ h. cc, λ h. cc)
key_eq_iff (number (pos a)) (number (pos b)) = (λ h. ground arith, λ h. ground arith)
key_eq_iff (number (pos a)) (number (negsuc b)) = (λ h. cc, λ h. ground arith)
key_eq_iff (number (negsuc a)) (number (pos b)) = (λ h. cc, λ h. ground arith)
key_eq_iff (number (negsuc a)) (number (negsuc b)) = (λ h. ground arith, λ h. ground arith)
key_eq_iff (number a) (name b) = (λ h. cc, λ h. cc)
key_eq_iff (name a) no_key = (λ h. cc, λ h. cc)
key_eq_iff (name a) (number b) = (λ h. cc, λ h. cc)
key_eq_iff (name a) (name b) = (λ h. ground (arith, eq_iff a b), λ h. ground (arith, eq_iff a b))

-- A character that is a decimal digit.
abbrev pub is_digit : Char → Bool
is_digit c = leb b'0' (code c) && leb (code c) b'9'

-- The number that digits give after those read before, if all are digits.
unfoldable pub digits_from : ℕ → String → Option ℕ
digits_from acc String.[] = some acc
digits_from acc (String.◌∷◌ c s) =
    let rest = digits_from (acc * 10 + (code c - b'0')) s in if is_digit c then rest else none

-- At least one digit, and nothing else.
unfoldable pub digits : String → Option ℕ
unfolding digits_from
digits String.[] = none
digits (String.◌∷◌ c s) = digits_from 0 (String.◌∷◌ c s)

abbrev pub positive : Option ℕ → Option ℤ
positive none = none
positive (some n) = if ltb n (2 ^ 63) then some (pos n) else none

abbrev pub negative : Option ℕ → Option ℤ
negative none = none
negative (some n) =
    if eqb n 0 then some (pos 0) else if leb n (2 ^ 63) then some (negsuc (n - 1)) else none

-- strconv.ParseInt(v, 10, 64), none where it returns an error
unfoldable pub parse_int : String → Option ℤ
unfolding digits
parse_int String.[] = none
parse_int (String.◌∷◌ c s) =
    if eqb (code c) b'-'
    then negative (digits s)
    else if eqb (code c) b'+'
    then positive (digits s)
    else positive (digits (String.◌∷◌ c s))

-- `whole` gives the int64 of a float that equals one, and `print` is fmt's %v.
module _ (whole : Value → Option ℤ) (print : Value → String) where
  unfoldable pub float_key : Option ℤ → Result Key
  float_key none = err (plain "cannot use a non-integer float as a join key")
  float_key (some n) = ok (number n)

  unfoldable pub text_key : String → Option ℤ → Key
  text_key v none = name v
  text_key v (some n) = number n

  -- normalizeKey
  unfoldable pub normalize_key : Value → Result Key
  unfolding float_key text_key parse_int
  normalize_key null = ok no_key
  normalize_key (int n) = ok (number n)
  normalize_key (sized_int w n) = ok (number n)
  normalize_key (float32 x) = float_key (whole (float32 x))
  normalize_key (float64 x) = float_key (whole (float64 x))
  normalize_key (str v) = ok (text_key v (parse_int v))
  normalize_key (bool b) = ok (name (print (bool b)))
  normalize_key (strings ss) = ok (name (print (strings ss)))
  normalize_key (list vs) = ok (name (print (list vs)))
  normalize_key (dict fs) = ok (name (print (dict fs)))
  normalize_key (generic ps) = ok (name (print (generic ps)))
  normalize_key (other n) = ok (name (print (other n)))

-- for k, v := range record { target[k] = v }
unfoldable pub put_all {ℓ} : {V : Type ℓ} → Dict V → Dict V → Dict V
put_all [] target = target
put_all ((k, v) ∷ record') target = put_all record' (put k v target)
