-- ===== src/Join/Probe/Reference.antt =====
-- The records that the probe phase sends, by a reference that takes each record by itself.
use gxo.Prelude.{
  ℕ, ◌+◌, Bool, true, false, ◌||◌, List, [], ◌∷◌, ◌++◌, map, Option, none, some, ◌≡◌, refl, ap, sym,
  ◌∙◌, if◌then◌else◌, length, ◌==◌,
}
use gxo.Prelude.Dict.{Dict}
use gxo.Errors.{Result, ok, err}
use gxo.Join.Keys.{Key, key_eq}
use gxo.Join.Defs.{Record, BuildEntry, ModuleConfig}
use gxo.Join.Combine.{get_combinations, construct_joined_record}
use gxo.Join.Build.{get_key, BuildMap, Setting, extract_key}
use gxo.Join.Build.Phase.{bad}
use gxo.Join.Probe.{map_keys, Probing}
use gxo.Join.Probe.Emits.{Emits}
use gxo.Join.Probe.Marks.{marked, marked_twice, get_combinations-mark}

-- The records that a record of the probe stream and the entries of its key give.
abbrev pub joined_with : ModuleConfig → Record → Option (Dict (List BuildEntry)) → List Record
joined_with cfg r (some streams) =
    map (construct_joined_record cfg) (get_combinations cfg (some r) streams)
joined_with cfg r none =
    if cfg.join_type == "left" || cfg.join_type == "outer"
    then map (construct_joined_record cfg) (get_combinations cfg (some r) [])
    else []

abbrev pub joined_by_key : ModuleConfig → BuildMap → Record → Result Key → List Record
joined_by_key cfg m r (err e) = []
joined_by_key cfg m r (ok key) = joined_with cfg r (get_key key m)

-- Whether the key is that of the record.
abbrev pub is_key : Key → Result Key → Bool
is_key k (err e) = false
is_key k (ok key) = key_eq key k

module _ (s : Setting) (cfg : ModuleConfig) where
  abbrev pub probe_key_of : Record → Result Key
  probe_key_of r = extract_key s cfg.probe_stream r

  -- The reference: each record of the probe stream by itself.
  abbrev pub joined_all : BuildMap → List Record → List Record
  joined_all m [] = []
  joined_all m (r ∷ rs) = joined_by_key cfg m r (probe_key_of r) ++ joined_all m rs

  -- A record with the key is among them.
  abbrev pub is_probed : Key → List Record → Bool
  is_probed k [] = false
  is_probed k (r ∷ rs) = is_key k (probe_key_of r) || is_probed k rs

  abbrev pub bad_probes : List Record → ℕ
  bad_probes [] = 0
  bad_probes (r ∷ rs) = bad (probe_key_of r) + bad_probes rs

-- From one state to another: what has been sent, how many records have been read, how many of them without
-- a key, and which keys have been hit.
pub record Probed (out : List Record) (read : ℕ) (faulty : ℕ) (hit : Key → Bool) (p p' : Probing)
    : Type 0 where
  pub sent : Emits out p.sink p'.sink
  pub processed : p'.probe_records_processed ≡ p.probe_records_processed + read
  pub skipped : p'.records_skipped ≡ p.records_skipped + faulty
  pub reported : length p'.err_chan ≡ length p.err_chan + faulty
  pub found :
      (k : Key)
      → get_key k p'.build_map
        ≡ (if hit k then marked (get_key k p.build_map) else get_key k p.build_map)
  pub same_keys : map_keys p'.build_map ≡ map_keys p.build_map

joined_with-marked :
    (cfg : ModuleConfig) (r : Record) (o : Option (Dict (List BuildEntry)))
    → joined_with cfg r (marked o) ≡ joined_with cfg r o
joined_with-marked cfg r none = refl
joined_with-marked cfg r (some streams) =
    ap (map (construct_joined_record cfg)) (get_combinations-mark cfg (some r) streams)

joined_by_key-marked :
    (cfg : ModuleConfig) (m m' : BuildMap) (r : Record) (res : Result Key)
    → ((k : Key) → marked (get_key k m') ≡ marked (get_key k m))
    → joined_by_key cfg m' r res ≡ joined_by_key cfg m r res
joined_by_key-marked cfg m m' r (err e) h = refl
joined_by_key-marked cfg m m' r (ok key) h =
    sym (joined_with-marked cfg r (get_key key m'))
    ∙ ap (joined_with cfg r) (h key)
    ∙ joined_with-marked cfg r (get_key key m)

pub joined_all-marked :
    (s : Setting) (cfg : ModuleConfig) (m m' : BuildMap) (rs : List Record)
    → ((k : Key) → marked (get_key k m') ≡ marked (get_key k m))
    → joined_all s cfg m' rs ≡ joined_all s cfg m rs
joined_all-marked s cfg m m' [] h = refl
joined_all-marked s cfg m m' (r ∷ rs) h =
    cc (joined_by_key-marked cfg m m' r (probe_key_of s cfg r) h, joined_all-marked s cfg m m' rs h)

pub marked_if :
    (b : Bool) (o : Option (Dict (List BuildEntry))) → marked (if b then marked o else o) ≡ marked o
marked_if true o = marked_twice o
marked_if false o = refl

pub marked_or :
    (b b' : Bool) (o : Option (Dict (List BuildEntry)))
    → (if b' then marked (if b then marked o else o) else (if b then marked o else o))
      ≡ (if b || b' then marked o else o)
marked_or true true o = marked_twice o
marked_or true false o = refl
marked_or false true o = refl
marked_or false false o = refl
