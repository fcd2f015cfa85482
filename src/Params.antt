-- ===== src/Params.antt =====
-- internal/paramutil/paramutil.go: how a module reads its parameters. The conversions of a float to an
-- `int` and back are Go's: `whole` gives the `int` of a float that equals one, by the float's bits.
pub mod Checks
pub mod Reads
use gxo.Prelude.{
  ℕ, suc, ◌+◌, String, Bool, true, false, List, [], ◌∷◌, ◌++◌, Option, none, some, if◌then◌else◌,
  ltb, contains, is_some, ◌==◌,
}
use Prim.Native.String.{◌++◌ as append}
use gxo.Prelude.Dict.{Dict, get, put, keys}
use gxo.Prelude.Int.{ℤ, pos}
use gxo.Value.{
  Value, null, bool, int, sized_int, float32, float64, str, strings, list, dict, generic, Items,
  nil, cons, Fields, end, field, Pairs, stop, pair,
}
use gxo.Errors.{Error, validation_error, Result, ok, err}

abbrev pub missing_parameter : Error
missing_parameter = validation_error "missing required parameter"

abbrev pub must_be : String → Error
must_be what = validation_error (append "parameter must be " what)

-- What an optional parameter reads as: its value, `none` where it is missing, or an error.
abbrev pub Read {ℓ} : Type ℓ → Type ℓ
Read A = Result (Option A)

-- The type assertions.
abbrev pub as_string : Value → Result String
as_string (str s) = ok s
as_string v = err (must_be "a string")

abbrev pub as_bool : Value → Result Bool
as_bool (bool b) = ok b
as_bool v = err (must_be "a boolean")

abbrev pub as_slice : Value → Result Items
as_slice (list items) = ok items
as_slice v = err (must_be "a list/slice")

module _ {ℓ} {A : Type ℓ} (read : Value → Result A) where
  -- value, exists := params[key]; if !exists { return an error }
  unfoldable pub required : Dict Value → String → Result A
  required params key = elim (get key params) [ none ↦ err missing_parameter | some v ↦ read v ]

  -- value, exists := params[key]; if !exists { return …, false, nil }
  unfoldable pub optional : Dict Value → String → Read A
  optional params key = elim (get key params) [
    | none ↦ ok none
    | some v ↦ elim (read v) [ err e ↦ err e | ok a ↦ ok (some a) ]
  ]

unfoldable pub get_required_string : Dict Value → String → Result String
unfolding required
get_required_string = required as_string

unfoldable pub get_optional_string : Dict Value → String → Read String
unfolding optional
get_optional_string = optional as_string

unfoldable pub get_required_slice : Dict Value → String → Result Items
unfolding required
get_required_slice = required as_slice

unfoldable pub get_optional_bool : Dict Value → String → Read Bool
unfolding optional
get_optional_bool = optional as_bool

-- for i, item := range sliceValue
unfoldable pub strings_of : Items → Result (List String)
strings_of nil = ok []
strings_of (cons v items) = elim (as_string v) [
  | err e ↦ err (validation_error "found non-string element")
  | ok s ↦ elim (strings_of items) [ err e ↦ err e | ok ss ↦ ok (s ∷ ss) ]
]

unfoldable pub as_string_slice : Value → Result (List String)
unfolding strings_of
as_string_slice (strings ss) = ok ss
as_string_slice (list items) = strings_of items
as_string_slice v = err (must_be "a list/slice")

unfoldable pub get_optional_string_slice : Dict Value → String → Read (List String)
unfolding optional as_string_slice
get_optional_string_slice = optional as_string_slice

-- The entries of a `map[string]interface{}`.
unfoldable pub entries : Fields → Dict Value
entries end = []
entries (field k v fields) = (k, v) ∷ entries fields

-- for k, v := range genericMap { … convertedMap[strKey] = v }
unfoldable pub convert : Pairs → Dict Value → Result (Dict Value)
convert stop m = ok m
convert (pair k v pairs) m = elim (as_string k) [
  | err e ↦ err (validation_error "found a key that is not a string")
  | ok key ↦ convert pairs (put key v m)
]

unfoldable pub as_map : Value → Result (Dict Value)
unfolding entries convert
as_map (dict fields) = ok (entries fields)
as_map (generic pairs) = convert pairs []
as_map v = err (must_be "a map")

unfoldable pub get_optional_map : Dict Value → String → Read (Dict Value)
unfolding optional as_map
get_optional_map = optional as_map

module _ (whole : Value → Option ℤ) where
  -- On a 64-bit system each of the sized integers fits an `int`.
  unfoldable pub as_int : Value → Result ℤ
  as_int (int n) = ok n
  as_int (sized_int w n) = ok n
  as_int (float32 x) = elim (whole (float32 x)) [
    | none ↦ err (validation_error "parameter is a non-integer float")
    | some n ↦ ok n
  ]
  as_int (float64 x) = elim (whole (float64 x)) [
    | none ↦ err (validation_error "parameter is a non-integer float")
    | some n ↦ ok n
  ]
  as_int v = err (must_be "an integer or whole number")

  unfoldable pub get_optional_int : Dict Value → String → Read ℤ
  unfolding optional as_int
  get_optional_int = optional as_int

-- CheckRequired
unfoldable pub check_required : Dict Value → List String → Option Error
check_required params [] = none
check_required params (key ∷ required) =
    let rest = check_required params required in
    if is_some (get key params) then rest else some missing_parameter

-- for key := range params
unfoldable pub check_each_allowed : List String → List String → Option Error
check_each_allowed [] allowed = none
check_each_allowed (key ∷ given) allowed =
    let rest = check_each_allowed given allowed in
    if contains key allowed then rest else some (validation_error "unknown parameter provided")

-- CheckAllowed
unfoldable pub check_allowed : Dict Value → List String → Option Error
unfolding check_each_allowed keys
check_allowed params [] = none
check_allowed params (key ∷ allowed) = check_each_allowed (keys params) (key ∷ allowed)

-- for _, key := range exclusiveKeys, with foundCount
unfoldable pub check_exclusive_from : Dict Value → ℕ → List String → Option Error
check_exclusive_from params found [] = none
check_exclusive_from params found (key ∷ exclusive) =
    let one_more = check_exclusive_from params (found + 1) exclusive in
    let as_before = check_exclusive_from params found exclusive in
    if is_some (get key params)
    then if ltb 0 found
      then some (validation_error "parameters are mutually exclusive")
      else one_more
    else as_before

-- CheckExclusive
unfoldable pub check_exclusive : Dict Value → List String → Option Error
unfolding check_exclusive_from
check_exclusive params exclusive = check_exclusive_from params 0 exclusive

-- Coalesce, on values that are no typed nils
unfoldable pub coalesce : List Value → Value
coalesce [] = null
coalesce (null ∷ vs) = coalesce vs
coalesce (v ∷ vs) = v
