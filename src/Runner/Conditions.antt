-- ===== src/Runner/Conditions.antt =====
-- `evaluateConditionString` of internal/engine/task_runner.go.
use Prim.Native.Char.{code}
use Prim.Native.String.{String}
use gxo.Prelude.{
  ℕ, ◌+◌, Bool, true, false, ◌&&◌, ◌||◌, List, [], ◌∷◌, map, Option, none, some, if◌then◌else◌, leb,
  eqb,
}

-- The code points of a text.
unfoldable pub codes : String → List ℕ
codes String.[] = []
codes (String.◌∷◌ c s) = code c ∷ codes s

-- unicode.IsSpace
unfoldable pub is_space : ℕ → Bool
is_space c =
    leb 9 c && leb c 13
    || (eqb c 32
        || (eqb c 0x85
            || (eqb c 0xa0
                || (eqb c 0x1680
                    || (leb 0x2000 c && leb c 0x200a
                        || (eqb c 0x2028
                            || (eqb c 0x2029
                                || (eqb c 0x202f || (eqb c 0x205f || eqb c 0x3000)))))))))

unfoldable pub trim_left : List ℕ → List ℕ
trim_left [] = []
trim_left (c ∷ cs) = let rest = trim_left cs in if is_space c then rest else c ∷ cs

-- The last characters that are spaces go.
unfoldable pub trim_right : List ℕ → List ℕ
trim_right [] = []
trim_right (c ∷ cs) = elim (trim_right cs) [
  | [] ↦ if is_space c then [] else c ∷ []
  | d ∷ ds ↦ c ∷ d ∷ ds
]

-- strings.TrimSpace
unfoldable pub trim_space : List ℕ → List ℕ
unfolding trim_left trim_right is_space
trim_space cs = trim_right (trim_left cs)

-- strings.ToLower, on the letters that it takes to a letter of ASCII: A to Z and the Kelvin sign
unfoldable pub to_lower : ℕ → ℕ
to_lower c = if leb b'A' c && leb c b'Z' then c + 32 else if eqb c 0x212a then b'k' else c

unfoldable pub equal_codes : List ℕ → List ℕ → Bool
equal_codes [] [] = true
equal_codes [] (d ∷ ds) = false
equal_codes (c ∷ cs) [] = false
equal_codes (c ∷ cs) (d ∷ ds) = eqb c d && equal_codes cs ds

-- case "false", "no", "off", "0", ""
unfoldable pub is_false_word : List ℕ → Bool
unfolding equal_codes codes
is_false_word s =
    equal_codes s (codes "false")
    || (equal_codes s (codes "no")
        || (equal_codes s (codes "off") || (equal_codes s (codes "0") || equal_codes s (codes ""))))

-- num != 0, where the text is a float
unfoldable pub number_test : Option Bool → Bool
number_test none = true
number_test (some nonzero) = nonzero

-- `nonzero` stands for strconv.ParseFloat with the test against 0: none where the text is no float.
unfoldable pub evaluate_condition_string : (String → Option Bool) → String → Bool
unfolding trim_space to_lower is_false_word number_test
evaluate_condition_string nonzero s =
    if is_false_word (map to_lower (trim_space (codes s))) then false else number_test (nonzero s)
