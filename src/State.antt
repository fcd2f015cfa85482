-- ===== src/State.antt =====
-- internal/state/memory_store.go: the state that the tasks of a playbook share. A map of Go's is changed in
-- place; here the map that holds it is rebuilt.
pub mod Nested
use Prim.Native.String.{String}
use gxo.Prelude.{Bool, true, false, List, [], ◌∷◌, Option, none, some, if◌then◌else◌, is_some, ◌==◌}
use gxo.Prelude.Dict.{Dict, get, put, del}
use gxo.Prelude.Text.{split_dots}
use gxo.Value.{
  Value, null, bool, int, sized_int, float32, float64, str, strings, list, dict, generic, other,
  Fields, end, field,
}
use gxo.Errors.{Error, plain}
use gxo.Copy.{deep_copy}

pub record MemoryStateStore : Type 0 where
  pub data' : Dict Value

-- NewMemoryStateStore
abbrev pub new_memory_state_store : MemoryStateStore
new_memory_state_store = record { data' = [] }

-- Get
unfoldable pub get_value : String → MemoryStateStore → Option Value
unfolding deep_copy
get_value key s = elim (get key s.data') [ none ↦ none | some val ↦ some (deep_copy val) ]

-- Set, which never fails
unfoldable pub set_value : String → Value → MemoryStateStore → MemoryStateStore
set_value key value s = record { data' = put key value s.data' }

abbrev pub key_not_found : Error
key_not_found = plain "key not found in state store"

-- Delete
unfoldable pub delete : String → MemoryStateStore → MemoryStateStore × Option Error
delete key s =
    if is_some (get key s.data')
    then (record { data' = del key s.data' }, none)
    else (s, some key_not_found)

-- Load
unfoldable pub load : Dict Value → MemoryStateStore → MemoryStateStore
load data' s = record { data' = data' }

-- v, ok := m[k], of a nested map
unfoldable pub get_field : String → Fields → Option Value
get_field k end = none
get_field k (field j v m) = if j == k then some v else get_field k m

-- m[k] = v, of a nested map
unfoldable pub put_field : String → Value → Fields → Fields
put_field k v end = field k v end
put_field k v (field j w m) =
    let rest = put_field k v m in if j == k then field k v m else field j w rest

-- The map that the traversal goes on in: currentMap[part] if it is a map, and else a new one.
abbrev pub next_map : Option Value → Fields
next_map (some (dict m)) = m
next_map o = end

-- The traversal of the parts of a key, and the assignment at the last one.
unfoldable pub put_path : List String → Value → Fields → Fields
unfolding get_field put_field
put_path [] value m = m
put_path (part ∷ []) value m = put_field part value m
put_path (part ∷ part' ∷ parts) value m =
    put_field part (dict (put_path (part' ∷ parts) value (next_map (get_field part m)))) m

-- for key, value := range flatData; the maps of the nested data are new or copies
unfoldable pub unflatten : Dict Value → Fields → Fields
unfolding put_path deep_copy
unflatten [] nested = nested
unflatten ((key, value) ∷ flat) nested =
    unflatten flat (put_path (split_dots key) (deep_copy value) nested)

-- GetAll
unfoldable pub get_all : MemoryStateStore → Fields
unfolding unflatten
get_all s = unflatten s.data' end
