-- ===== src/Join/Combine.antt =====
-- `getCombinations` and `constructJoinedRecord` of modules/stream/join/join.go. In a combination `none`
-- is the nil of a stream that has no record.
pub mod Choices
use Prim.Native.Nat.{Ordering}
use Prim.Native.String.{compare}
use gxo.Prelude.{
  String, Bool, true, false, List, [], ◌∷◌, ◌++◌, map, Option, none, some, if◌then◌else◌, ◌==◌,
}
use gxo.Prelude.Dict.{Dict, get, put, keys}
use gxo.Value.{Value, null, dict, Fields, end, field}
use gxo.Join.Keys.{put_all}
use gxo.Join.Defs.{Record, BuildEntry, JoinKeyConfig, ModuleConfig}

abbrev pub Combination : Type 0
Combination = Dict (Option Record)

-- for _, combo := range combinations { … newCombo[name] = nil … }
unfoldable pub without_record : String → List Combination → List Combination
without_record name [] = []
without_record name (combo ∷ combos) = put name none combo ∷ without_record name combos

-- for _, buildEntry := range buildEntries { … newCombo[name] = buildEntry.record … }
unfoldable pub with_each : String → Combination → List BuildEntry → List Combination
with_each name combo [] = []
with_each name combo (entry ∷ entries) =
    put name (some entry.record') combo ∷ with_each name combo entries

-- for _, combo := range combinations, in the other branch
unfoldable pub with_records : String → List BuildEntry → List Combination → List Combination
unfolding with_each
with_records name entries [] = []
with_records name entries (combo ∷ combos) =
    with_each name combo entries ++ with_records name entries combos

-- A slice that a map has or, where it has none, nil.
abbrev pub or_nil : Option (List BuildEntry) → List BuildEntry
or_nil none = []
or_nil (some entries) = entries

-- buildStreams[name], of a map that may be nil
unfoldable pub entries_of : String → Dict (List BuildEntry) → List BuildEntry
entries_of name streams = or_nil (get name streams)

-- The combinations after one build stream, by its entries, and `rest` for the streams that follow.
unfoldable pub combine_stream :
    Bool
    → String
    → List BuildEntry
    → List Combination
    → (List Combination → List Combination)
    → List Combination
unfolding without_record with_records
combine_stream is_inner name [] combos rest =
    if is_inner then [] else rest (without_record name combos)
combine_stream is_inner name (entry ∷ entries) combos rest =
    rest (with_records name (entry ∷ entries) combos)

-- for _, buildCfg := range cfg.buildStreams
unfoldable pub combine :
    Bool → List JoinKeyConfig → Dict (List BuildEntry) → List Combination → List Combination
unfolding combine_stream entries_of
combine is_inner [] streams combos = combos
combine is_inner (build ∷ builds) streams combos =
    combine_stream is_inner build.stream_name (entries_of build.stream_name streams) combos
      (combine is_inner builds streams)

-- The combinations before the loop.
unfoldable pub first_combinations : String → Option Record → List Combination
first_combinations name none = [] ∷ []
first_combinations name (some probe) = ((name, some probe) ∷ []) ∷ []

-- getCombinations
unfoldable pub get_combinations :
    ModuleConfig → Option Record → Dict (List BuildEntry) → List Combination
unfolding combine first_combinations
get_combinations cfg probe streams =
    combine (cfg.join_type == "inner") cfg.build_streams streams
      (first_combinations cfg.probe_stream.stream_name probe)

-- A record as a value.
unfoldable pub fields_of : Record → Fields
fields_of [] = end
fields_of ((k, v) ∷ r) = field k v (fields_of r)

unfoldable pub value_of : Option Record → Value
unfolding fields_of
value_of none = null
value_of (some r) = dict (fields_of r)

-- for streamName, record := range combination, of the nested strategy
unfoldable pub nest : Dict String → Combination → Record → Record
unfolding value_of
nest nesting_keys [] joined = joined
nest nesting_keys ((stream, r) ∷ combo) joined =
    nest nesting_keys combo
      (elim (get stream nesting_keys) [ none ↦ joined | some key ↦ put key (value_of r) joined ])

-- sort.Strings
unfoldable pub insert_sorted : String → List String → List String
insert_sorted s [] = s ∷ []
insert_sorted s (t ∷ ts) =
    let rest = insert_sorted s ts in elim (compare t s) [ Ordering.lt ↦ t ∷ rest | _ ↦ s ∷ t ∷ ts ]

unfoldable pub sort_strings : List String → List String
unfolding insert_sorted
sort_strings [] = []
sort_strings (s ∷ ss) = insert_sorted s (sort_strings ss)

-- if recMap, ok := record.(map[string]interface{}); ok { … }
unfoldable pub merge_record : Option (Option Record) → Record → Record
unfolding put_all
merge_record none joined = joined
merge_record (some none) joined = joined
merge_record (some (some r)) joined = put_all r joined

-- for _, streamName := range streamNames
unfoldable pub merge : List String → Combination → Record → Record
unfolding merge_record
merge [] combo joined = joined
merge (stream ∷ streams) combo joined = merge streams combo (merge_record (get stream combo) joined)

-- constructJoinedRecord
unfoldable pub construct_joined_record : ModuleConfig → Combination → Record
unfolding nest merge sort_strings
construct_joined_record cfg combo =
    if cfg.merge_strategy == "nested"
    then nest cfg.nesting_keys combo []
    else merge (sort_strings (keys combo)) combo []
