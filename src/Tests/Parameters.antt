-- ===== src/Tests/Parameters.antt =====
-- The checks and the readers on a map of parameters.
use gxo.Prelude.{
  ◌≤◌, String, true, ◌≡◌, ◌↔◌, ◌⊎◌, refl, List, [], ◌∷◌, none, some, contains, is_some,
}
use gxo.Prelude.Int.{pos}
use gxo.Prelude.Dict.{Dict, get}
use gxo.Value.{Value, int, str, list, generic, Items, nil, cons, Pairs, stop, pair}
use gxo.Errors.{ok}
use gxo.Params.{
  check_required, check_allowed, check_exclusive, get_optional_string_slice, get_optional_map,
}
use gxo.Params.Checks.{check_required_iff, check_allowed_iff, check_exclusive_iff, count_given}
use gxo.Params.Reads.{
  items_of, get_optional_string_slice_iff, HasTextKeys, last_value, get_optional_map_converts,
}

abbrev hosts : Items
hosts = cons (str "a") (cons (str "b") nil)

abbrev labels : Pairs
labels = pair (str "k") (int (pos 1)) (pair (str "k") (int (pos 2)) stop)

abbrev params : Dict Value
params = ("cmd", str "ls") ∷ ("hosts", list hosts) ∷ ("labels", generic labels) ∷ []

abbrev only_cmd : List String
only_cmd = "cmd" ∷ []

missing : is_some (check_required params ("cmd" ∷ "dir" ∷ [])) ≡ true
unfolding check_required get
missing = refl

check_required_iff_example :
    (check_required params ("cmd" ∷ []) ≡ none)
    ↔ ((key : String) → contains key ("cmd" ∷ []) ≡ true → is_some (get key params) ≡ true)
check_required_iff_example = check_required_iff params ("cmd" ∷ [])

check_allowed_iff_example : (check_allowed params only_cmd ≡ none) ↔ (
    (only_cmd ≡ [])
    ⊎ ((key : String) → is_some (get key params) ≡ true → contains key ("cmd" ∷ []) ≡ true))
check_allowed_iff_example = check_allowed_iff params only_cmd

check_exclusive_iff_example :
    (check_exclusive params ("cmd" ∷ "hosts" ∷ []) ≡ none)
    ↔ (count_given params ("cmd" ∷ "hosts" ∷ []) ≤ 1)
check_exclusive_iff_example = check_exclusive_iff params ("cmd" ∷ "hosts" ∷ [])

hosts_here : get "hosts" params ≡ some (list hosts)
unfolding get
hosts_here = refl

labels_here : get "labels" params ≡ some (generic labels)
unfolding get
labels_here = refl

get_optional_string_slice_iff_example :
    (get_optional_string_slice params "hosts" ≡ ok (some ("a" ∷ "b" ∷ [])))
    ↔ (hosts ≡ items_of ("a" ∷ "b" ∷ []))
get_optional_string_slice_iff_example =
    get_optional_string_slice_iff params "hosts" hosts ("a" ∷ "b" ∷ []) hosts_here

get_optional_map_converts_example :
    (((r : Dict Value) × (get_optional_map params "labels" ≡ ok (some r))) ↔ HasTextKeys labels)
    × ((r : Dict Value)
        → get_optional_map params "labels" ≡ ok (some r)
        → (k : String) → get k r ≡ last_value k labels none)
get_optional_map_converts_example = get_optional_map_converts params "labels" labels labels_here
