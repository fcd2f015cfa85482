-- ===== src/Copy/Plain.antt =====
-- What `DeepCopy` leaves as it is.
use gxo.Prelude.{[], ◌∷◌, Option, none, some, ◌≡◌, refl}
use gxo.Value.{
  Value, null, bool, int, sized_int, float32, float64, str, strings, list, dict, generic, other,
  Items, nil, cons, Fields, end, field,
}
use gxo.Copy.{deep_copy_recursive, copy_items, copy_fields, deep_copy}

-- Values as they are decoded from JSON: no `[]string`, no map with keys of any type, no other type.
abbrev mutual
  pub IsPlain : Value → Type 0
  IsPlain (strings ss) = ⊥
  IsPlain (generic pairs) = ⊥
  IsPlain (other n) = ⊥
  IsPlain (list items) = ArePlain items
  IsPlain (dict fields) = HasPlain fields
  IsPlain v = Unit

  pub ArePlain : Items → Type 0
  ArePlain nil = Unit
  ArePlain (cons v items) = IsPlain v × ArePlain items

  pub HasPlain : Fields → Type 0
  HasPlain end = Unit
  HasPlain (field k v fields) = IsPlain v × HasPlain fields

-- The empty slice that was copied first, if there was one, is a `[]interface{}`.
abbrev IsEmptyList : Option Value → Type 0
IsEmptyList none = Unit
IsEmptyList (some v) = v ≡ list nil

-- A copy is the same, and the entry stays that of a list.
abbrev IsSame {ℓ} : {A : Type ℓ} → A → A × Option Value → Type ℓ
IsSame a out = (out.0 ≡ a) × IsEmptyList out.1

mutual
  unfolding deep_copy_recursive copy_items copy_fields

  copied :
      (v : Value) (seen : Option Value)
      → IsPlain v
      → IsEmptyList seen
      → IsSame v (deep_copy_recursive v seen)
  copied (strings []) seen h e = absurd h
  copied (strings (s ∷ ss)) seen h e = absurd h
  copied (generic pairs) seen h e = absurd h
  copied (other n) seen h e = absurd h
  copied (list nil) none h e = (refl, refl)
  copied (list nil) (some v) h e = (e, e)
  copied (list (cons v items)) seen h e =
      let (same, e') = copied_items (cons v items) seen h e in (cc same, e')
  copied (dict fields) seen h e = let (same, e') = copied_fields fields seen h e in (cc same, e')
  copied null seen h e = (refl, e)
  copied (bool b) seen h e = (refl, e)
  copied (int n) seen h e = (refl, e)
  copied (sized_int w n) seen h e = (refl, e)
  copied (float32 n) seen h e = (refl, e)
  copied (float64 n) seen h e = (refl, e)
  copied (str s) seen h e = (refl, e)

  copied_items :
      (items : Items) (seen : Option Value)
      → ArePlain items
      → IsEmptyList seen
      → IsSame items (copy_items items seen)
  copied_items nil seen h e = (refl, e)
  copied_items (cons v items) seen h e =
      let (same, e') = copied v seen h.0 e in
      let (same', e'') = copied_items items (deep_copy_recursive v seen).1 h.1 e' in
      (cc (same, same'), e'')

  copied_fields :
      (fields : Fields) (seen : Option Value)
      → HasPlain fields
      → IsEmptyList seen
      → IsSame fields (copy_fields fields seen)
  copied_fields end seen h e = (refl, e)
  copied_fields (field k v fields) seen h e =
      let (same, e') = copied v seen h.0 e in
      let (same', e'') = copied_fields fields (deep_copy_recursive v seen).1 h.1 e' in
      (cc (same, same'), e'')

pub deep_copy_plain : (v : Value) → IsPlain v → deep_copy v ≡ v
unfolding deep_copy
deep_copy_plain v h = (copied v none h tt).0
