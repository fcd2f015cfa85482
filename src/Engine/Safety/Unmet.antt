-- ===== src/Engine/Safety/Unmet.antt =====
-- Counting the dependencies that are not met.
use gxo.Prelude.{
  ℕ, ◌+◌, ◌≤◌, String, Bool, true, false, ◌≡◌, refl, ◌||◌, List, [], ◌∷◌, arith, inl, inr,
  Bool-cases, if◌then◌else◌, ◌==◌, eq_iff, contains, IsNodup,
}
use gxo.Prelude.Int.{pos, decrement32}

unfoldable pub unmet : (String → Bool) → List String → ℕ
unmet f [] = 0
unmet f (k ∷ ks) = (if f k then 0 else 1) + unmet f ks

pub unmet_ext :
    (f g : String → Bool) (ks : List String) → ((k : String) → f k ≡ g k) → unmet f ks ≡ unmet g ks
unfolding unmet
unmet_ext f g [] h = refl
unmet_ext f g (k ∷ ks) h = ground (arith, h k, unmet_ext f g ks h)

-- `g` is `f` with `id` met.
abbrev pub Meets : String → (String → Bool) → (String → Bool) → Type 0
Meets id f g = (k : String) → g k ≡ (id == k || f k)

pub unmet_le :
    (id : String) (f g : String → Bool) (ks : List String) → Meets id f g → unmet g ks ≤ unmet f ks
unfolding unmet
unmet_le id f g [] h = omega arith
unmet_le id f g (k ∷ ks) h = ground (arith, h k, unmet_le id f g ks h)

unmet_absent :
    (id : String) (f g : String → Bool) (ks : List String)
    → Meets id f g
    → contains id ks ≡ false
    → unmet g ks ≡ unmet f ks
unfolding unmet contains
unmet_absent id f g [] h c = refl
unmet_absent id f g (k ∷ ks) h c =
    ground (arith, h k, eq_iff id k, eq_iff k id, unmet_absent id f g ks h)

unmet_present :
    (id : String) (f g : String → Bool) (ks : List String)
    → Meets id f g
    → f id ≡ false
    → IsNodup ks
    → contains id ks ≡ true
    → unmet g ks + 1 ≡ unmet f ks
unfolding unmet contains
unmet_present id f g [] h fresh n c = cc
unmet_present id f g (k ∷ ks) h fresh n c = elim (Bool-cases (k == id)) [
  | inl same ↦
      let e : k ≡ id = (eq_iff k id).0 same in
      ground (arith, h k, eq_iff id k, unmet_absent id f g ks h (rw e at n.0))
  | inr other ↦ ground (arith, h k, eq_iff id k, eq_iff k id, unmet_present id f g ks h fresh n.1)
]

-- A counter of unmet dependencies that is lowered once for `id` counts them again.
pub lowered :
    (id : String) (f g : String → Bool) (ks : List String)
    → Meets id f g
    → f id ≡ false
    → IsNodup ks
    → (if contains id ks then decrement32 (pos (unmet f ks)) else pos (unmet f ks))
      ≡ pos (unmet g ks)
unfolding decrement32
lowered id f g ks h fresh n =
    ground (arith, unmet_absent id f g ks h, unmet_present id f g ks h fresh n)

pub met_of_zero :
    (f : String → Bool) (ks : List String) (k : String)
    → unmet f ks ≡ 0
    → contains k ks ≡ true
    → f k ≡ true
unfolding unmet contains
met_of_zero f [] k z c = cc
met_of_zero f (j ∷ ks) k z c = ground (arith, eq_iff j k, met_of_zero f ks k)
