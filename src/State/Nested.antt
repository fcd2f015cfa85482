-- ===== src/State/Nested.antt =====
-- What a reader finds in the nested data of the store.
use Prim.Native.String.{String}
use gxo.Prelude.{Bool, true, false, List, [], ◌∷◌, Option, none, ◌≡◌, if◌then◌else◌, All, ◌==◌}
use gxo.Prelude.Dict.{Dict}
use gxo.Prelude.Text.{split_dots}
use gxo.Value.{Value, Fields}
use gxo.State.{get_field, next_map}

-- How a template reads a path: by a map in each step.
abbrev pub at_path : List String → Fields → Option Value
at_path [] m = none
at_path (part ∷ []) m = get_field part m
at_path (part ∷ part' ∷ parts) m = at_path (part' ∷ parts) (next_map (get_field part m))

-- Neither of the two paths is the beginning of the other.
abbrev pub is_apart : List String → List String → Bool
is_apart [] q = false
is_apart (a ∷ p) [] = false
is_apart (a ∷ p) (b ∷ q) = if a == b then is_apart p q else true

-- Of no two keys of the data one is, part by part, the beginning of the other.
abbrev pub ArePathsApart : Dict Value → Type 0
ArePathsApart [] = Unit
ArePathsApart ((k, v) ∷ flat) =
    All (λ e. is_apart (split_dots e.0) (split_dots k) ≡ true) flat × ArePathsApart flat
