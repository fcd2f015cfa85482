-- ===== src/Prelude/Text.antt =====
-- The parts of Go's `strings` package that the program calls, on native texts.
use Prim.Native.Char.{Char, code}
use Prim.Native.String.{String}
use mathlib.Core.Bool.{Bool, ◌||◌}
use mathlib.Core.List.{List, [], ◌∷◌}
use gxo.Prelude.Tests.{eqb, if◌then◌else◌}
use text.Mathlib.Text.{starts_with, ◌==◌}

-- A character in front of the first part.
abbrev pub prepend : Char → List String → List String
prepend c [] = String.◌∷◌ c String.[] ∷ []
prepend c (part ∷ parts) = String.◌∷◌ c part ∷ parts

-- strings.Split(s, ".")
unfoldable pub split_dots : String → List String
split_dots String.[] = String.[] ∷ []
split_dots (String.◌∷◌ c s) =
    let rest = split_dots s in if eqb (code c) b'.' then String.[] ∷ rest else prepend c rest

-- strings.Contains(s, part)
unfoldable pub has_substring : String → String → Bool
has_substring String.[] part = starts_with String.[] part
has_substring (String.◌∷◌ c s) part = starts_with (String.◌∷◌ c s) part || has_substring s part

-- strings.HasSuffix(s, part)
unfoldable pub ends_with : String → String → Bool
ends_with String.[] part = String.[] == part
ends_with (String.◌∷◌ c s) part = String.◌∷◌ c s == part || ends_with s part
