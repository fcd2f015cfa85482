-- ===== src/Copy.antt =====
-- `DeepCopy` of internal/util/copy.go on the values of the model. Maps, and slices that are not empty,
-- have addresses of their own here; an empty slice has no room, and all of these have one address, so
-- that `ctx` holds at most one entry that is ever found: `seen`, the copy of the first empty slice.
-- A value of a type that no switch names is copied by reflection to one of the same number. A nil key
-- of a map with keys of any type, on which reflection panics, is left out.
pub mod Plain
use Prim.Native.String.{String}
use gxo.Prelude.{List, [], ◌∷◌, Option, none, some}
use gxo.Value.{
  Value, null, bool, int, sized_int, float32, float64, str, strings, list, dict, generic, other,
  Items, nil, cons, Fields, end, field, Pairs, stop, pair,
}

-- if cpy, exists := ctx[addr]; exists { return cpy }, and else ctx[addr] = cpy
abbrev pub copy_empty : Option Value → Value → Value × Option Value
copy_empty none v = (v, some v)
copy_empty (some cpy) v = (cpy, some cpy)

-- SetMapIndex deletes the key where the element is the zero reflect.Value, which a nil gives.
abbrev pub set_map_index : Value → Value → Pairs → Pairs
set_map_index k null pairs = pairs
set_map_index k v pairs = pair k v pairs

unfoldable mutual
  -- deepCopyRecursive, with deepCopyReflection for the types that its switch does not name
  pub deep_copy_recursive : Value → Option Value → Value × Option Value
  deep_copy_recursive (strings []) seen = copy_empty seen (strings [])
  deep_copy_recursive (list nil) seen = copy_empty seen (list nil)
  deep_copy_recursive (list (cons v items)) seen =
      let (items', seen') = copy_items (cons v items) seen in (list items', seen')
  deep_copy_recursive (dict fields) seen =
      let (fields', seen') = copy_fields fields seen in (dict fields', seen')
  deep_copy_recursive (generic pairs) seen =
      let (pairs', seen') = copy_pairs pairs seen in (generic pairs', seen')
  deep_copy_recursive v seen = (v, seen)

  -- for i, value := range v
  pub copy_items : Items → Option Value → Items × Option Value
  copy_items nil seen = (nil, seen)
  copy_items (cons v items) seen =
      let (v', seen') = deep_copy_recursive v seen in
      let (items', seen'') = copy_items items seen' in (cons v' items', seen'')

  -- for key, value := range v
  pub copy_fields : Fields → Option Value → Fields × Option Value
  copy_fields end seen = (end, seen)
  copy_fields (field k v fields) seen =
      let (v', seen') = deep_copy_recursive v seen in
      let (fields', seen'') = copy_fields fields seen' in (field k v' fields', seen'')

  -- for _, key := range original.MapKeys()
  pub copy_pairs : Pairs → Option Value → Pairs × Option Value
  copy_pairs stop seen = (stop, seen)
  copy_pairs (pair k v pairs) seen =
      let (v', seen') = deep_copy_recursive v seen in
      let (k', seen'') = deep_copy_recursive k seen' in
      let (pairs', last) = copy_pairs pairs seen'' in (set_map_index k' v' pairs', last)

-- DeepCopy
unfoldable pub deep_copy : Value → Value
unfolding deep_copy_recursive
deep_copy v = (deep_copy_recursive v none).0
