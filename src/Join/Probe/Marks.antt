-- ===== src/Join/Probe/Marks.antt =====
-- The marks on the entries of the build map: they change nothing about the combinations.
use gxo.Prelude.{
  String, Bool, true, false, List, [], ◌∷◌, Option, none, some, ◌≡◌, refl, ap, ◌∙◌, arith,
  if◌then◌else◌, Bool-cases, inl, inr, ◌==◌,
}
use gxo.Prelude.Dict.{Dict, get}
use gxo.Join.Keys.{Key, key_eq, key_eq_iff}
use gxo.Join.Defs.{Record, BuildEntry, JoinKeyConfig, ModuleConfig}
use gxo.Join.Combine.{
  Combination, with_each, with_records, entries_of, combine_stream, combine, first_combinations,
  get_combinations,
}
use gxo.Join.Build.{get_key, BuildMap}
use gxo.Join.Probe.{map_keys, mark_entries, mark_streams, mark_key, any_marked, key_was_matched}

with_each-mark :
    (name : String) (c : Combination) (es : List BuildEntry)
    → with_each name c (mark_entries es) ≡ with_each name c es
unfolding with_each mark_entries
with_each-mark name c [] = refl
with_each-mark name c (e ∷ es) = cc (with_each-mark name c es)

with_records-mark :
    (name : String) (es : List BuildEntry) (combos : List Combination)
    → with_records name (mark_entries es) combos ≡ with_records name es combos
unfolding with_records
with_records-mark name es [] = refl
with_records-mark name es (c ∷ combos) =
    cc (with_each-mark name c es, with_records-mark name es combos)

combine_stream-mark :
    (is_inner : Bool) (name : String) (es : List BuildEntry) (combos : List Combination)
    → (rest rest' : List Combination → List Combination)
    → ((cs : List Combination) → rest cs ≡ rest' cs)
    → combine_stream is_inner name (mark_entries es) combos rest
      ≡ combine_stream is_inner name es combos rest'
unfolding combine_stream mark_entries
combine_stream-mark true name [] combos rest rest' h = refl
combine_stream-mark false name [] combos rest rest' h = h _
combine_stream-mark is_inner name (e ∷ es) combos rest rest' h =
    ap rest (with_records-mark name (e ∷ es) combos) ∙ h _

entries_of-mark :
    (name : String) (streams : Dict (List BuildEntry))
    → entries_of name (mark_streams streams) ≡ mark_entries (entries_of name streams)
unfolding entries_of mark_streams get mark_entries
entries_of-mark name [] = refl
entries_of-mark name ((n, es) ∷ streams) = elim (Bool-cases (n == name)) [
  | inl same ↦ rw same
  | inr other ↦ rw other (entries_of-mark name streams)
]

combine-mark :
    (is_inner : Bool) (builds : List JoinKeyConfig) (streams : Dict (List BuildEntry))
    → (combos : List Combination)
    → combine is_inner builds (mark_streams streams) combos ≡ combine is_inner builds streams combos
unfolding combine
combine-mark is_inner [] streams combos = refl
combine-mark is_inner (build ∷ builds) streams combos =
    ap
      (λ es.
        combine_stream is_inner build.stream_name es combos
          (combine is_inner builds (mark_streams streams)))
      (entries_of-mark build.stream_name streams)
    ∙ combine_stream-mark is_inner build.stream_name (entries_of build.stream_name streams) combos
        (combine is_inner builds (mark_streams streams)) (combine is_inner builds streams)
        (combine-mark is_inner builds streams)

pub get_combinations-mark :
    (cfg : ModuleConfig) (probe : Option Record) (streams : Dict (List BuildEntry))
    → get_combinations cfg probe (mark_streams streams) ≡ get_combinations cfg probe streams
unfolding get_combinations
get_combinations-mark cfg probe streams =
    combine-mark (cfg.join_type == "inner") cfg.build_streams streams
      (first_combinations cfg.probe_stream.stream_name probe)

mark_entries_twice : (es : List BuildEntry) → mark_entries (mark_entries es) ≡ mark_entries es
unfolding mark_entries
mark_entries_twice [] = refl
mark_entries_twice (e ∷ es) = ap (λ l. record e { matched = true } ∷ l) (mark_entries_twice es)

mark_streams_twice :
    (streams : Dict (List BuildEntry)) → mark_streams (mark_streams streams) ≡ mark_streams streams
unfolding mark_streams
mark_streams_twice [] = refl
mark_streams_twice ((n, es) ∷ streams) = cc (mark_entries_twice es, mark_streams_twice streams)

-- What a key is mapped to, with every entry marked.
abbrev pub marked : Option (Dict (List BuildEntry)) → Option (Dict (List BuildEntry))
marked none = none
marked (some streams) = some (mark_streams streams)

pub marked_twice : (o : Option (Dict (List BuildEntry))) → marked (marked o) ≡ marked o
marked_twice none = refl
marked_twice (some streams) = ap some (mark_streams_twice streams)

pub get_key-mark_key :
    (k j : Key) (m : BuildMap)
    → get_key j (mark_key k m) ≡ (if key_eq k j then marked (get_key j m) else get_key j m)
unfolding get_key mark_key
get_key-mark_key k j [] = ground arith
get_key-mark_key k j ((i, streams) ∷ m) =
    ground (arith, key_eq_iff k j, key_eq_iff i k, key_eq_iff i j, get_key-mark_key k j m)

pub map_keys-mark_key : (k : Key) (m : BuildMap) → map_keys (mark_key k m) ≡ map_keys m
unfolding map_keys mark_key
map_keys-mark_key k [] = refl
map_keys-mark_key k ((i, streams) ∷ m) = ground (arith, map_keys-mark_key k m)

-- Some stream has an entry.
abbrev pub has_entry : Dict (List BuildEntry) → Bool
has_entry [] = false
has_entry ((n, []) ∷ streams) = has_entry streams
has_entry ((n, e ∷ es) ∷ streams) = true

pub key_was_matched-mark :
    (streams : Dict (List BuildEntry)) → key_was_matched (mark_streams streams) ≡ has_entry streams
unfolding key_was_matched any_marked mark_streams mark_entries
key_was_matched-mark [] = refl
key_was_matched-mark ((n, []) ∷ streams) = key_was_matched-mark streams
key_was_matched-mark ((n, e ∷ es) ∷ streams) = refl
