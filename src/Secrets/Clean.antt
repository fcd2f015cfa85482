-- ===== src/Secrets/Clean.antt =====
-- What a redacted value holds.
use gxo.Prelude.{
  String, List, All, Bool, false, not, ◌&&◌, ◌≡◌, ◌↔◌, refl, ap, ◌||◌, some, inl, inr, Bool-cases,
  arith, ◌==◌, contains, eq_iff,
}
use gxo.Value.{
  Value, bool, int, sized_int, float32, float64, strings, generic, other, null, str, list, dict,
  Items, nil, cons, Fields, end, field, Pairs, stop, pair,
}
use gxo.Secrets.{
  SecretTracker, add, is_tracked, contains_tracked_secret, redacted_secret_value, redact_recursive,
  redact_fields, redact_items, redact_tracked_secrets,
}

module _ (t : SecretTracker) where
  abbrev AreTextsClean : List String → Type 0
  AreTextsClean ss = All (λ s. contains_tracked_secret t s ≡ false) ss

  -- No text in it, at any depth, holds a tracked secret. The keys of a `map[string]interface{}` are
  -- names and do not count; those of a map with keys of any type do. A value of a type that is known
  -- by a number only has no text here.
  abbrev mutual
    pub IsClean : Value → Type 0
    IsClean (str s) = contains_tracked_secret t s ≡ false
    IsClean (strings ss) = AreTextsClean ss
    IsClean (dict fields) = AreClean fields
    IsClean (list items) = AllClean items
    IsClean (generic pairs) = ArePairsClean pairs
    IsClean v = Unit

    pub AreClean : Fields → Type 0
    AreClean end = Unit
    AreClean (field key v fields) = IsClean v × AreClean fields

    pub AllClean : Items → Type 0
    AllClean nil = Unit
    AllClean (cons v items) = IsClean v × AllClean items

    pub ArePairsClean : Pairs → Type 0
    ArePairsClean stop = Unit
    ArePairsClean (pair k v pairs) = IsClean k × IsClean v × ArePairsClean pairs

  -- No text that is reached through maps with text keys and lists of any values holds one.
  abbrev mutual
    pub IsSeenClean : Value → Type 0
    IsSeenClean (str s) = contains_tracked_secret t s ≡ false
    IsSeenClean (dict fields) = AreSeenClean fields
    IsSeenClean (list items) = AllSeenClean items
    IsSeenClean v = Unit

    pub AreSeenClean : Fields → Type 0
    AreSeenClean end = Unit
    AreSeenClean (field key v fields) = IsSeenClean v × AreSeenClean fields

    pub AllSeenClean : Items → Type 0
    AllSeenClean nil = Unit
    AllSeenClean (cons v items) = IsSeenClean v × AllSeenClean items

  -- No `[]string` and no `map[interface{}]interface{}` that is reached so holds one.
  abbrev mutual
    pub IsHiddenClean : Value → Type 0
    IsHiddenClean (strings ss) = AreTextsClean ss
    IsHiddenClean (generic pairs) = ArePairsClean pairs
    IsHiddenClean (dict fields) = AreHiddenClean fields
    IsHiddenClean (list items) = AllHiddenClean items
    IsHiddenClean v = Unit

    pub AreHiddenClean : Fields → Type 0
    AreHiddenClean end = Unit
    AreHiddenClean (field key v fields) = IsHiddenClean v × AreHiddenClean fields

    pub AllHiddenClean : Items → Type 0
    AllHiddenClean nil = Unit
    AllHiddenClean (cons v items) = IsHiddenClean v × AllHiddenClean items

  trivial : Unit {0} ↔ Unit {0}
  trivial = (λ c. c, λ c. c)

  both {ℓ} : {A B C D : Type ℓ} → A ↔ C → B ↔ D → (A × B) ↔ (C × D)
  both f g = (λ (a, b). (f.0 a, g.0 b), λ (c, d). (f.1 c, g.1 d))

  module _ (harmless : contains_tracked_secret t redacted_secret_value ≡ false) where
    mutual
      unfolding redact_recursive redact_fields redact_items

      redacted-IsClean : (v : Value) → IsClean (redact_recursive t v).0 ↔ IsHiddenClean v
      redacted-IsClean (str s) = elim (Bool-cases (contains_tracked_secret t s)) [
        | inl is ↦ rw is (λ c. tt, λ c. harmless)
        | inr is ↦ rw is (λ c. tt, λ c. is)
      ]
      redacted-IsClean (dict fields) = fields_clean fields
      redacted-IsClean (list items) = items_clean items
      redacted-IsClean null = trivial
      redacted-IsClean (bool b) = trivial
      redacted-IsClean (int n) = trivial
      redacted-IsClean (sized_int w n) = trivial
      redacted-IsClean (float32 n) = trivial
      redacted-IsClean (float64 n) = trivial
      redacted-IsClean (strings ss) = (λ c. c, λ c. c)
      redacted-IsClean (generic ps) = (λ c. c, λ c. c)
      redacted-IsClean (other n) = trivial

      fields_clean : (fields : Fields) → AreClean (redact_fields t fields).0 ↔ AreHiddenClean fields
      fields_clean end = trivial
      fields_clean (field key v fields) = both (redacted-IsClean v) (fields_clean fields)

      items_clean : (items : Items) → AllClean (redact_items t items).0 ↔ AllHiddenClean items
      items_clean nil = trivial
      items_clean (cons v items) = both (redacted-IsClean v) (items_clean items)

  -- What is clean is clean in its two kinds of parts.
  four {ℓ} : {A B C D E F : Type ℓ} → A ↔ (C × D) → B ↔ (E × F) → (A × B) ↔ ((C × E) × (D × F))
  four f g = (
    λ (a, b). (((f.0 a).0, (g.0 b).0), ((f.0 a).1, (g.0 b).1)),
    λ (x, y). (f.1 (x.0, y.0), g.1 (x.1, y.1)),
  )

  nothing : Unit {0} ↔ (Unit {0} × Unit {0})
  nothing = (λ c. (tt, tt), λ c. tt)

  mutual
    IsClean-parts : (v : Value) → IsClean v ↔ (IsSeenClean v × IsHiddenClean v)
    IsClean-parts (str s) = (λ c. (c, tt), λ (c, d). c)
    IsClean-parts (strings ss) = (λ c. (tt, c), λ (c, d). d)
    IsClean-parts (generic ps) = (λ c. (tt, c), λ (c, d). d)
    IsClean-parts (dict fields) = fields_parts fields
    IsClean-parts (list items) = items_parts items
    IsClean-parts null = nothing
    IsClean-parts (bool b) = nothing
    IsClean-parts (int n) = nothing
    IsClean-parts (sized_int w n) = nothing
    IsClean-parts (float32 n) = nothing
    IsClean-parts (float64 n) = nothing
    IsClean-parts (other n) = nothing

    fields_parts :
        (fields : Fields) → AreClean fields ↔ (AreSeenClean fields × AreHiddenClean fields)
    fields_parts end = nothing
    fields_parts (field key v fields) = four (IsClean-parts v) (fields_parts fields)

    items_parts : (items : Items) → AllClean items ↔ (AllSeenClean items × AllHiddenClean items)
    items_parts nil = nothing
    items_parts (cons v items) = four (IsClean-parts v) (items_parts items)

  both_false :
      {a b : Bool} {A B : Type 0}
      → (a ≡ false → A)
      → (A → a ≡ false)
      → (b ≡ false → B)
      → (B → b ≡ false)
      → ((a || b) ≡ false) ↔ (A × B)
  both_false {a} {b} f g f' g' =
      (λ q. (f (ground arith), f' (ground arith)), λ (x, y). joined (g x) (g' y))
    where
      joined : a ≡ false → b ≡ false → (a || b) ≡ false
      joined p q = ground arith

  -- The value is returned as it is, without the mark, or it was not clean.
  abbrev IsExact {ℓ} : {A : Type ℓ} → A → A × Bool → Type 0 → Type ℓ
  IsExact a out Clean = ((out.1 ≡ false) ↔ Clean) × (Clean → out.0 ≡ a)

  mutual
    unfolding redact_recursive redact_fields redact_items

    redacted_exact : (v : Value) → IsExact v (redact_recursive t v) (IsSeenClean v)
    redacted_exact (str s) = elim (Bool-cases (contains_tracked_secret t s)) [
      | inl is ↦ rw is ((λ q. absurd (cc), λ c. absurd (cc)), λ c. absurd (cc))
      | inr is ↦ rw is ((λ q. refl, λ c. refl), λ c. refl)
    ]
    redacted_exact (dict fields) =
        let ((f, g), same) = fields_exact fields in ((f, g), λ c. ap dict (same c))
    redacted_exact (list items) =
        let ((f, g), same) = items_exact items in ((f, g), λ c. ap list (same c))
    redacted_exact null = ((λ q. tt, λ c. refl), λ c. refl)
    redacted_exact (bool b) = ((λ q. tt, λ c. refl), λ c. refl)
    redacted_exact (int n) = ((λ q. tt, λ c. refl), λ c. refl)
    redacted_exact (sized_int w n) = ((λ q. tt, λ c. refl), λ c. refl)
    redacted_exact (float32 n) = ((λ q. tt, λ c. refl), λ c. refl)
    redacted_exact (float64 n) = ((λ q. tt, λ c. refl), λ c. refl)
    redacted_exact (strings ss) = ((λ q. tt, λ c. refl), λ c. refl)
    redacted_exact (generic ps) = ((λ q. tt, λ c. refl), λ c. refl)
    redacted_exact (other n) = ((λ q. tt, λ c. refl), λ c. refl)

    fields_exact : (fields : Fields) → IsExact fields (redact_fields t fields) (AreSeenClean fields)
    fields_exact end = ((λ q. tt, λ c. refl), λ c. refl)
    fields_exact (field key v fields) =
        let ((f, g), same) = redacted_exact v in
        let ((f', g'), same') = fields_exact fields in
        (both_false f g f' g', λ c. cc (same c.0, same' c.1))

    items_exact : (items : Items) → IsExact items (redact_items t items) (AllSeenClean items)
    items_exact nil = ((λ q. tt, λ c. refl), λ c. refl)
    items_exact (cons v items) =
        let ((f, g), same) = redacted_exact v in
        let ((f', g'), same') = items_exact items in
        (both_false f g f' g', λ c. cc (same c.0, same' c.1))

as_recursive :
    (t : SecretTracker) (v : Value) → redact_tracked_secrets v (some t) ≡ redact_recursive t v
unfolding redact_tracked_secrets redact_recursive
as_recursive t null = refl
as_recursive t (bool b) = refl
as_recursive t (int n) = refl
as_recursive t (sized_int w n) = refl
as_recursive t (float32 n) = refl
as_recursive t (float64 n) = refl
as_recursive t (str s) = refl
as_recursive t (strings ss) = refl
as_recursive t (list xs) = refl
as_recursive t (dict fs) = refl
as_recursive t (generic ps) = refl
as_recursive t (other n) = refl

-- With a tracker whose secrets the placeholder does not hold, no text of the result, at any depth,
-- holds a tracked secret exactly when none did in a `[]string` or a `map[interface{}]interface{}` of
-- the data, which are returned as they are. Keys of maps with text keys do not count, nor do texts
-- inside values of types that `Value` knows by a number only.
pub redact_tracked_secrets-IsClean :
    (t : SecretTracker) (v : Value)
    → contains_tracked_secret t redacted_secret_value ≡ false
    → IsClean t (redact_tracked_secrets v (some t)).0 ↔ IsHiddenClean t v
unfolding redact_tracked_secrets
redact_tracked_secrets-IsClean t v harmless = rw (as_recursive t v) (redacted-IsClean t harmless v)

-- The redaction reports nothing exactly when no text that maps with text keys and lists of any
-- values lead to holds a tracked secret, and then it returns the data as they are. The data hold no
-- tracked secret at all exactly when it reports nothing and no `[]string` or
-- `map[interface{}]interface{}` among them holds one. Keys of maps with text keys do not count, nor do
-- texts inside values of types that `Value` knows by a number only.
pub redact_tracked_secrets_exact :
    (t : SecretTracker) (v : Value)
    → (((redact_tracked_secrets v (some t)).1 ≡ false) ↔ IsSeenClean t v)
      × (IsSeenClean t v → (redact_tracked_secrets v (some t)).0 ≡ v)
      × (IsClean t v ↔ (((redact_tracked_secrets v (some t)).1 ≡ false) × IsHiddenClean t v))
redact_tracked_secrets_exact t v =
    let ((f, g), same) = redacted_exact t v in
    let (apart, joined) = IsClean-parts t v in
    rw (as_recursive t v)
      ((f, g), same, (λ c. (g (apart c).0, (apart c).1), λ (q, hidden). joined (f q, hidden)))

-- After `Add` a text is tracked exactly when it is not empty and is the secret or was in the set.
is_tracked-add :
    (t : SecretTracker) (secret value : String)
    → is_tracked (add secret t) value
      ≡ (not (value == "") && (secret == value || contains value t.resolved_secrets))
unfolding is_tracked add contains
is_tracked-add t secret value =
    ground (arith, eq_iff secret value, eq_iff value "", eq_iff secret "")
