-- ===== src/Params/Checks.antt =====
-- What the checks on the keys of a parameter map decide.
use gxo.Prelude.{
  ℕ, ◌+◌, ◌≤◌, String, true, ◌≡◌, ◌↔◌, ◌⊎◌, refl, List, [], ◌∷◌, none, arith, if◌then◌else◌, ltb,
  contains, is_some, eq_iff, eq_refl, Bool-cases, inl, inr,
}
use gxo.Prelude.Dict.{Dict, get, keys, is_some-get}
use gxo.Value.{Value}
use gxo.Params.{
  check_required, check_each_allowed, check_allowed, check_exclusive_from, check_exclusive,
}

-- `CheckRequired` accepts the parameters exactly when each required key is among them.
pub check_required_iff :
    (params : Dict Value) (required : List String)
    → (check_required params required ≡ none)
      ↔ ((key : String) → contains key required ≡ true → is_some (get key params) ≡ true)
unfolding check_required contains
check_required_iff params [] = (λ h key c. absurd (cc), λ h. refl)
check_required_iff params (key ∷ required) =
    let (to, from) = check_required_iff params required in
    (
      λ h k c. ground (arith, eq_iff key k, to (ground arith) k),
      λ h. ground (arith, h key, eq_refl key, from (λ k c. h k (ground arith))),
    )

check_each_allowed_iff :
    (given allowed : List String)
    → (check_each_allowed given allowed ≡ none)
      ↔ ((key : String) → contains key given ≡ true → contains key allowed ≡ true)
unfolding check_each_allowed contains
check_each_allowed_iff [] allowed = (λ h key c. absurd (cc), λ h. refl)
check_each_allowed_iff (key ∷ given) allowed =
    let (to, from) = check_each_allowed_iff given allowed in
    (
      λ h k c. ground (arith, eq_iff key k, to (ground arith) k),
      λ h. ground (arith, h key, eq_refl key, from (λ k c. h k (ground arith))),
    )

-- `CheckAllowed` accepts the parameters exactly when no key is allowed by name, which means no
-- restriction, or each key of the parameters is among the allowed ones.
pub check_allowed_iff :
    (params : Dict Value) (allowed : List String)
    → (check_allowed params allowed ≡ none) ↔ (
        (allowed ≡ [])
        ⊎ ((key : String) → is_some (get key params) ≡ true → contains key allowed ≡ true))
unfolding check_allowed
check_allowed_iff params [] = (λ h. inl refl, λ h. refl)
check_allowed_iff params (a ∷ allowed) =
    let (to, from) = check_each_allowed_iff (keys params) (a ∷ allowed) in
    (
      λ h. inr (λ key s. to h key (ground (arith, is_some-get key params))),
      λ h. elim h [
        | inl e ↦ absurd (cc)
        | inr f ↦ from (λ key c. f key (ground (arith, is_some-get key params)))
      ],
    )

-- How many of the keys are given, counting a key as often as it is listed.
unfoldable pub count_given : Dict Value → List String → ℕ
count_given params [] = 0
count_given params (key ∷ ks) = (if is_some (get key params) then 1 else 0) + count_given params ks

check_exclusive_from_iff :
    (params : Dict Value) (found : ℕ) (exclusive : List String)
    → found ≤ 1
    → (check_exclusive_from params found exclusive ≡ none)
      ↔ (found + count_given params exclusive ≤ 1)
unfolding check_exclusive_from count_given
check_exclusive_from_iff params found [] le = (λ h. omega (arith, le), λ h. refl)
check_exclusive_from_iff params found (key ∷ exclusive) le =
    elim (Bool-cases (is_some (get key params))) [
      | inl given ↦ elim (Bool-cases (ltb 0 found)) [
        | inl one ↦ rw given (rw one (λ h. absurd (cc), λ h. absurd (ground arith)))
        | inr zero_found ↦
            let (to, from) = check_exclusive_from_iff params (found + 1) exclusive (ground arith) in
            rw given (rw zero_found (λ h. omega (arith, to h), λ h. from (omega (arith, h))))
      ]
      | inr absent ↦
          let (to, from) = check_exclusive_from_iff params found exclusive le in
          rw absent (λ h. omega (arith, to h), λ h. from (omega (arith, h)))
    ]

-- `CheckExclusive` accepts the parameters exactly when at most one of the listed keys is among them.
pub check_exclusive_iff :
    (params : Dict Value) (exclusive : List String)
    → (check_exclusive params exclusive ≡ none) ↔ (count_given params exclusive ≤ 1)
unfolding check_exclusive
check_exclusive_iff params exclusive =
    let (to, from) = check_exclusive_from_iff params 0 exclusive (omega arith) in
    (λ h. omega (arith, to h), λ h. from (omega (arith, h)))
