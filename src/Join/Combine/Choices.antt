-- ===== src/Join/Combine/Choices.antt =====
-- Which combinations `getCombinations` gives.
use gxo.Prelude.{
  ℕ, ◌*◌, ◌≡◌, not, ◌&&◌, ◌||◌, String, Bool, true, false, List, [], ◌∷◌, ◌++◌, map, Option, none,
  some, refl, ap, ◌∙◌, sym, arith, length, length-append, append_assoc, append-nil, if◌then◌else◌,
  ◌==◌,
}
use gxo.Prelude.Dict.{Dict, put}
use gxo.Join.Defs.{Record, BuildEntry, JoinKeyConfig, ModuleConfig}
use gxo.Join.Combine.{
  Combination, without_record, with_each, with_records, entries_of, combine_stream, combine,
  first_combinations, get_combinations,
}

-- The records of a stream, or the nil that stands for them where there are none.
abbrev pub records_or_nil : List BuildEntry → List (Option Record)
records_or_nil [] = none ∷ []
records_or_nil (entry ∷ entries) = some entry.record' ∷ map (λ e. some e.record') entries

module _ {ℓ κ} {A : Type ℓ} {B : Type κ} where
  abbrev pub flat_map : (A → List B) → List A → List B
  flat_map f [] = []
  flat_map f (x ∷ xs) = f x ++ flat_map f xs

  pub flat_map-append :
      (f : A → List B) (xs ys : List A) → flat_map f (xs ++ ys) ≡ flat_map f xs ++ flat_map f ys
  flat_map-append f [] ys = refl
  flat_map-append f (x ∷ xs) ys =
      ap (λ l. f x ++ l) (flat_map-append f xs ys)
      ∙ sym (append_assoc (f x) (flat_map f xs) (flat_map f ys))

-- What a combination becomes: each stream in turn gets one of its records, in every way. The choice for
-- the first stream is the slowest to change.
abbrev pub choices : List JoinKeyConfig → Dict (List BuildEntry) → Combination → List Combination
choices [] streams combo = combo ∷ []
choices (build ∷ builds) streams combo =
    flat_map (λ r. choices builds streams (put build.stream_name r combo))
      (records_or_nil (entries_of build.stream_name streams))

abbrev pub is_nonempty : List BuildEntry → Bool
is_nonempty [] = false
is_nonempty (entry ∷ entries) = true

-- Each build stream has a record.
abbrev pub has_all : List JoinKeyConfig → Dict (List BuildEntry) → Bool
has_all [] streams = true
has_all (build ∷ builds) streams =
    is_nonempty (entries_of build.stream_name streams) && has_all builds streams

module _ (name : String) (g : Combination → List Combination) where
  flat_map-without_record :
      (combos : List Combination)
      → flat_map g (without_record name combos)
        ≡ flat_map (λ c. flat_map (λ r. g (put name r c)) (none ∷ [])) combos
  unfolding without_record
  flat_map-without_record [] = refl
  flat_map-without_record (c ∷ combos) =
      cc (flat_map-without_record combos, append-nil (g (put name none c)))

  flat_map-with_each :
      (c : Combination) (entries : List BuildEntry)
      → flat_map g (with_each name c entries)
        ≡ flat_map (λ r. g (put name r c)) (map (λ e. some e.record') entries)
  unfolding with_each
  flat_map-with_each c [] = refl
  flat_map-with_each c (e ∷ entries) =
      ap (λ l. g (put name (some e.record') c) ++ l) (flat_map-with_each c entries)

  flat_map-with_records :
      (entries : List BuildEntry) (combos : List Combination)
      → flat_map g (with_records name entries combos)
        ≡ flat_map
            (λ c. flat_map (λ r. g (put name r c)) (map (λ e. some e.record') entries))
            combos
  unfolding with_records
  flat_map-with_records entries [] = refl
  flat_map-with_records entries (c ∷ combos) =
      flat_map-append g (with_each name c entries) (with_records name entries combos)
      ∙ cc (flat_map-with_each c entries, flat_map-with_records entries combos)

  -- One round of the loop, where the rest of the loop is known.
  combine_stream_lem :
      (is_inner : Bool) (entries : List BuildEntry) (combos : List Combination)
      → (rest : List Combination → List Combination) → (all : Bool)
      → ((cs : List Combination) → rest cs ≡ (if not is_inner || all then flat_map g cs else []))
      → combine_stream is_inner name entries combos rest ≡ (
          if not is_inner || is_nonempty entries && all
          then flat_map (λ c. flat_map (λ r. g (put name r c)) (records_or_nil entries)) combos
          else [])
  unfolding combine_stream
  combine_stream_lem true [] combos rest all h = refl
  combine_stream_lem false [] combos rest all h =
      h (without_record name combos) ∙ flat_map-without_record combos
  combine_stream_lem is_inner (e ∷ entries) combos rest all h =
      h (with_records name (e ∷ entries) combos)
      ∙ ap (λ l. if not is_inner || all then l else []) (flat_map-with_records (e ∷ entries) combos)

flat_map_singles : (combos : List Combination) → flat_map (λ c. c ∷ []) combos ≡ combos
flat_map_singles [] = refl
flat_map_singles (c ∷ combos) = ap (λ l. c ∷ l) (flat_map_singles combos)

if_same : {A : Type 0} (b : Bool) (x : A) (y : A) → x ≡ (if not b || true then x else y)
if_same true x y = refl
if_same false x y = refl

combine-choices :
    (is_inner : Bool)
    → (builds : List JoinKeyConfig) → (streams : Dict (List BuildEntry))
    → (combos : List Combination)
    → combine is_inner builds streams combos ≡ (
        if not is_inner || has_all builds streams
        then flat_map (choices builds streams) combos
        else [])
unfolding combine
combine-choices is_inner [] streams combos =
    if_same is_inner combos []
    ∙ ap (λ l. if not is_inner || true then l else []) (sym (flat_map_singles combos))
combine-choices is_inner (build ∷ builds) streams combos =
    combine_stream_lem build.stream_name (choices builds streams) is_inner
      (entries_of build.stream_name streams) combos (combine is_inner builds streams)
      (has_all builds streams) (combine-choices is_inner builds streams)

-- The combination with the probe's record alone, or the empty one.
abbrev pub first_combination : String → Option Record → Combination
first_combination name none = []
first_combination name (some probe) = (name, some probe) ∷ []

-- For an inner join with a build stream that has no record for the key there is no combination. In each
-- other case the combinations are those of the nested loops: each stream in turn contributes each of its
-- records, or nil if it has none, to what the streams before it and the probe have contributed.
pub get_combinations-choices :
    (cfg : ModuleConfig) (probe : Option Record) (streams : Dict (List BuildEntry))
    → get_combinations cfg probe streams ≡ (
        if not (cfg.join_type == "inner") || has_all cfg.build_streams streams
        then choices cfg.build_streams streams
            (first_combination cfg.probe_stream.stream_name probe)
        else [])
unfolding get_combinations first_combinations
get_combinations-choices cfg none streams =
    combine-choices (cfg.join_type == "inner") cfg.build_streams streams ([] ∷ [])
    ∙ ap
        (λ l. if not (cfg.join_type == "inner") || has_all cfg.build_streams streams then l else [])
        (append-nil (choices cfg.build_streams streams []))
get_combinations-choices cfg (some r) streams =
    let first = (cfg.probe_stream.stream_name, some r) ∷ [] in
    combine-choices (cfg.join_type == "inner") cfg.build_streams streams (first ∷ [])
    ∙ ap
        (λ l. if not (cfg.join_type == "inner") || has_all cfg.build_streams streams then l else [])
        (append-nil (choices cfg.build_streams streams first))

-- How many records a stream contributes.
abbrev pub rounds : List JoinKeyConfig → Dict (List BuildEntry) → ℕ
rounds [] streams = 1
rounds (build ∷ builds) streams =
    length (records_or_nil (entries_of build.stream_name streams)) * rounds builds streams

length-flat_map :
    {A : Type 0} (n : ℕ) (f : A → List Combination) (xs : List A)
    → ((x : A) → length (f x) ≡ n)
    → length (flat_map f xs) ≡ length xs * n
length-flat_map n f [] h = omega arith
length-flat_map n f (x ∷ xs) h =
    let tail = length-flat_map n f xs h in
    length-append (f x) (flat_map f xs) ∙ grind (arith, h x, tail)

pub length-choices :
    (builds : List JoinKeyConfig) (streams : Dict (List BuildEntry)) (c : Combination)
    → length (choices builds streams c) ≡ rounds builds streams
length-choices [] streams c = refl
length-choices (build ∷ builds) streams c =
    length-flat_map (rounds builds streams)
      (λ r. choices builds streams (put build.stream_name r c))
      (records_or_nil (entries_of build.stream_name streams))
      (λ r. length-choices builds streams (put build.stream_name r c))
