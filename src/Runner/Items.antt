-- ===== src/Runner/Items.antt =====
-- `resolveLoopItems` and `extractItems` of internal/engine/task_runner.go.
use gxo.Prelude.{ℕ, String, List, [], ◌∷◌, Option, none, some}
use gxo.Prelude.Dict.{Dict}
use gxo.Value.{
  Value, null, bool, int, sized_int, float32, float64, str, strings, list, dict, generic, other,
  Items, nil, cons, Fields, end, field, Pairs, stop, pair,
}
use gxo.Errors.{Error, plain, wrapped, Result, ok, err}

-- for i := 0; i < count; i++
unfoldable pub items_list : Items → List Value
items_list nil = []
items_list (cons v items) = v ∷ items_list items

unfoldable pub strings_list : List String → List Value
strings_list [] = []
strings_list (s ∷ ss) = str s ∷ strings_list ss

-- for iter.Next()
unfoldable pub field_values : Fields → List Value
field_values end = []
field_values (field k v fields) = v ∷ field_values fields

unfoldable pub pair_values : Pairs → List Value
pair_values stop = []
pair_values (pair k v pairs) = v ∷ pair_values pairs

abbrev pub no_items : Error
no_items = plain "expected slice, array, or map for loop items"

-- What reflection finds in a value of another type.
unfoldable pub reflected : Option (List Value) → Result (List Value)
reflected none = err no_items
reflected (some vs) = ok vs

-- `reflect_items` gives the elements of a value of another type, if it is a slice, an array or a map.
-- extractItems
unfoldable pub extract_items : (ℕ → Option (List Value)) → Value → Result (List Value)
unfolding items_list strings_list field_values pair_values reflected
extract_items reflect_items null = ok []
extract_items reflect_items (list items) = ok (items_list items)
extract_items reflect_items (strings ss) = ok (strings_list ss)
extract_items reflect_items (dict fields) = ok (field_values fields)
extract_items reflect_items (generic pairs) = ok (pair_values pairs)
extract_items reflect_items (other n) = reflected (reflect_items n)
extract_items reflect_items (bool b) = err no_items
extract_items reflect_items (int n) = err no_items
extract_items reflect_items (sized_int w n) = err no_items
extract_items reflect_items (float32 x) = err no_items
extract_items reflect_items (float64 x) = err no_items
extract_items reflect_items (str s) = err no_items

-- if err != nil { return nil, … }
unfoldable pub resolved_items : (ℕ → Option (List Value)) → Result Value → Result (List Value)
unfolding extract_items
resolved_items reflect_items (err e) = err (wrapped "could not resolve loop variable expression" e)
resolved_items reflect_items (ok v) = extract_items reflect_items v

-- resolveLoopItems; `resolve` is the template engine's, and a deep copy is the value itself
unfoldable pub resolve_loop_items :
    (ℕ → Option (List Value))
    → (String → Dict Value → Result Value)
    → Dict Value
    → Value
    → Result (List Value)
unfolding resolved_items
resolve_loop_items reflect_items resolve all_state null = ok []
resolve_loop_items reflect_items resolve all_state (str s) =
    resolved_items reflect_items (resolve s all_state)
resolve_loop_items reflect_items resolve all_state v = extract_items reflect_items v
