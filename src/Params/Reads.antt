-- ===== src/Params/Reads.antt =====
-- What the readers of slices and maps return.
use gxo.Prelude.{
  String, ◌≡◌, ◌↔◌, inl, inr, refl, ap, ◌∙◌, List, [], ◌∷◌, Option, none, some, arith,
  if◌then◌else◌, ◌==◌,
}
use gxo.Prelude.Dict.{Dict, get, put, get-put}
use gxo.Value.{Value, str, list, generic, Items, nil, cons, Pairs, stop, pair}
use gxo.Errors.{Result, ok, err, Result-cases}
use gxo.Params.{
  as_string, optional, strings_of, as_string_slice, get_optional_string_slice, convert, as_map,
  get_optional_map,
}

-- The slice of the texts.
abbrev pub items_of : List String → Items
items_of [] = nil
items_of (s ∷ ss) = cons (str s) (items_of ss)

as_string-eq-ok : (v : Value) (s : String) → as_string v ≡ ok s → v ≡ str s
as_string-eq-ok v s h = ground arith

strings_of-items_of : (ss : List String) → strings_of (items_of ss) ≡ ok ss
unfolding strings_of
strings_of-items_of [] = refl
strings_of-items_of (s ∷ ss) = rw (strings_of-items_of ss) refl

strings_of-eq-ok :
    (items : Items) (ss : List String) → strings_of items ≡ ok ss → items ≡ items_of ss
unfolding strings_of
strings_of-eq-ok nil ss h = ground arith
strings_of-eq-ok (cons v items) ss h = elim (Result-cases (as_string v)) [
  | inl (e, bad) ↦ absurd (cc (rw (bad, strings_of) at h))
  | inr (s, good) ↦ elim (Result-cases (strings_of items)) [
    | inl (e, bad) ↦ absurd (cc (rw (good, strings_of) at h, bad))
    | inr (rest, more) ↦
        let whole : strings_of (cons v items) ≡ ok (s ∷ rest) =
          rw (good, strings_of) (rw more refl) in
        let same : s ∷ rest ≡ ss = ground (arith, h, whole) in
        cc (as_string-eq-ok v s good, strings_of-eq-ok items rest more, same)
  ]
]

optional-eq-ok {ℓ} :
    {A : Type ℓ} (read : Value → Result A) (params : Dict Value) (key : String) (v : Value) (a : A)
    → get key params ≡ some v
    → (optional read params key ≡ ok (some a)) ↔ (read v ≡ ok a)
unfolding optional
optional-eq-ok read params key v a here =
    rw (here, optional)
      (elim (Result-cases (read v)) [
        | inl (e, bad) ↦ rw bad (λ h. absurd (cc), λ h. absurd (cc))
        | inr (b, good) ↦ rw good (λ h. ap ok (cc h), λ h. cc h)
      ])

-- A list parameter reads as some texts exactly when it is the list of those texts, in their order.
pub get_optional_string_slice_iff :
    (params : Dict Value) (key : String) (items : Items) (ss : List String)
    → get key params ≡ some (list items)
    → (get_optional_string_slice params key ≡ ok (some ss)) ↔ (items ≡ items_of ss)
unfolding get_optional_string_slice as_string_slice
get_optional_string_slice_iff params key items ss here =
    let (to, from) = optional-eq-ok as_string_slice params key (list items) ss here in
    (λ h. strings_of-eq-ok items ss (to h), λ e. from (ap strings_of e ∙ strings_of-items_of ss))

-- The last value of a text key among the pairs.
unfoldable pub last_value : String → Pairs → Option Value → Option Value
last_value key stop found = found
last_value key (pair k v pairs) found =
    last_value key pairs
      (elim (as_string k) [ err e ↦ found | ok s ↦ if s == key then some v else found ])

-- Every key of the pairs is a text.
abbrev pub HasTextKeys : Pairs → Type 0
HasTextKeys stop = Unit
HasTextKeys (pair k v pairs) = ((s : String) × (k ≡ str s)) × HasTextKeys pairs

convert-get :
    (pairs : Pairs) (m : Dict Value)
    → HasTextKeys pairs
    → (r : Dict Value) × (convert pairs m ≡ ok r)
      × ((key : String) → get key r ≡ last_value key pairs (get key m))
unfolding convert last_value
convert-get stop m h = (m, refl, λ key. refl)
convert-get (pair k v pairs) m ((s, e), rest) =
    let (r, done, values) = convert-get pairs (put s v m) rest in
    (r, rw e done, λ key. values key ∙ ap (last_value key pairs) (get-put s key v m) ∙ rw e refl)

convert-eq-ok : (pairs : Pairs) (m r : Dict Value) → convert pairs m ≡ ok r → HasTextKeys pairs
unfolding convert
convert-eq-ok stop m r h = tt
convert-eq-ok (pair k v pairs) m r h = elim (Result-cases (as_string k)) [
  | inl (e, bad) ↦ absurd (cc (rw (bad, convert) at h))
  | inr (s, good) ↦
      ((s, as_string-eq-ok k s good), convert-eq-ok pairs (put s v m) r (rw (good, convert) at h))
]

-- A map parameter with keys of any type reads as a map exactly when each key is a text, and the map
-- then gives for a key the last value that the parameter pairs with it.
pub get_optional_map_converts :
    (params : Dict Value) (key : String) (pairs : Pairs)
    → get key params ≡ some (generic pairs)
    → (((r : Dict Value) × (get_optional_map params key ≡ ok (some r))) ↔ HasTextKeys pairs)
      × ((r : Dict Value)
          → get_optional_map params key ≡ ok (some r)
          → (k : String) → get k r ≡ last_value k pairs none)
unfolding get_optional_map as_map get
get_optional_map_converts params key pairs here =
    let from = λ (r : Dict Value). (optional-eq-ok as_map params key (generic pairs) r here) in
    (
      (
        λ (r, h). convert-eq-ok pairs [] r ((from r).0 h),
        λ h. let (r, done, values) = convert-get pairs [] h in (r, (from r).1 done),
      ),
      λ r h k.
          let keys_ok = convert-eq-ok pairs [] r ((from r).0 h) in
          let (r', done, values) = convert-get pairs [] keys_ok in
          let same : r ≡ r' = ground (arith, done, (from r).0 h) in ap (get k) same ∙ values k,
    )
