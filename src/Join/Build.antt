-- ===== src/Join/Build.antt =====
-- `extractKey` and `runBuildPhase` of modules/stream/join/join.go. Each build stream has a goroutine that
-- reads it; the goroutines meet in the count, the error channel and the channel of what they have read.
-- A run is the list of the records in the order in which they are read, whichever it is.
pub mod Entries
pub mod Phase
pub mod Ends
use gxo.Prelude.{
  ℕ, suc, ◌+◌, String, Bool, true, false, not, ◌&&◌, ◌||◌, List, [], ◌∷◌, ◌++◌, Option, none, some,
  if◌then◌else◌, ltb, length, contains, ◌==◌,
}
use gxo.Prelude.Dict.{Dict, get, put}
use gxo.Prelude.Int.{ℤ, pos, negsuc}
use gxo.Value.{Value}
use gxo.Errors.{Error, plain, wrapped, task_execution, record_processing, Result, ok, err}
use gxo.Join.Keys.{Key, key_eq, normalize_key, put_all}
use gxo.Join.Defs.{Record, BuildEntry, JoinKeyConfig, ModuleConfig}
use gxo.Join.Combine.{or_nil}

-- A map by key.
abbrev pub KeyMap {ℓ} : Type ℓ → Type ℓ
KeyMap V = List (Key × V)

module _ {ℓ} {V : Type ℓ} where
  unfoldable pub get_key : Key → KeyMap V → Option V
  get_key k [] = none
  get_key k ((j, v) ∷ m) = if key_eq j k then some v else get_key k m

  unfoldable pub put_key : Key → V → KeyMap V → KeyMap V
  put_key k v [] = (k, v) ∷ []
  put_key k v ((j, w) ∷ m) =
      let rest = put_key k v m in if key_eq j k then (k, v) ∷ m else (j, w) ∷ rest

abbrev pub BuildMap : Type 0
BuildMap = KeyMap (Dict (List BuildEntry))

-- A record as it is read from its stream: whether the context has ended then, and whether the select
-- that follows takes the end of the context.
pub record Arrival : Type 0 where
  pub stream : JoinKeyConfig
  pub record' : Record
  pub ended_before : Bool
  pub ended_in_send : Bool

-- The variables that the goroutines share. `stopped` names the streams whose goroutine has returned, and
-- `stuck` those whose goroutine waits for room in the error channel.
pub record Building : Type 0 where
  pub build_map : BuildMap
  pub total_build_records : ℕ
  pub records_skipped : ℕ
  pub build_err : Option Error
  pub err_chan : List Error
  pub stopped : List String
  pub stuck : List String

-- What the code outside gives: floats, fmt, the template engine, the data of the state store, and the
-- capacity of the error channel.
pub record Setting : Type 0 where
  pub whole : Value → Option ℤ
  pub print : Value → String
  pub resolve : String → Dict Value → Result Value
  pub all_state : Dict Value
  pub err_cap : ℕ

-- rawKey, exists := record[cfg.Field]
unfoldable pub field_value : Option Value → Result Value
field_value none = err (plain "join key field not found in record")
field_value (some v) = ok v

unfoldable pub rendered : Result Value → Result Value
rendered (err e) = err (wrapped "failed to render join key template" e)
rendered (ok v) = ok v

-- cfg.maxBuildRecords > 0 && currentCount > cfg.maxBuildRecords
unfoldable pub exceeds : ℤ → ℕ → Bool
exceeds (pos max) count = ltb 0 max && ltb max count
exceeds (negsuc n) count = false

abbrev pub limit_exceeded : Error
limit_exceeded = task_execution "stream:join" (plain "limit exceeded: max_build_records reached")

-- buildErrOnce.Do
unfoldable pub set_once : Option Error → Error → Option Error
set_once none e = some e
set_once (some old) e = some old

-- buildMap[key][stream] = append(buildMap[key][stream], entry)
unfoldable pub append_entry :
    String → BuildEntry → Option (Dict (List BuildEntry)) → Dict (List BuildEntry)
append_entry name entry none = (name, entry ∷ []) ∷ []
append_entry name entry (some streams) = put name (or_nil (get name streams) ++ entry ∷ []) streams

-- The loop over mergedBuildChan
unfoldable pub add_entry : Key → String → Record → BuildMap → BuildMap
unfolding append_entry get_key put_key
add_entry key name r m =
    put_key key (append_entry name (record { record' = r; matched = false }) (get_key key m)) m

-- A goroutine waits.
abbrev pub is_waiting : List String → Bool
is_waiting [] = false
is_waiting (name ∷ names) = true

-- buildErr != nil
abbrev pub has_failed : Option Error → Bool
has_failed none = false
has_failed (some e) = true

module _ (s : Setting) where
  -- extractKey
  unfoldable pub extract_key : JoinKeyConfig → Record → Result Key
  unfolding normalize_key field_value rendered put_all
  extract_key cfg r =
      let by_template = rendered (s.resolve cfg.template (put_all r s.all_state)) in
      elim (if cfg.field' == "" then by_template else field_value (get cfg.field' r)) [
        | err e ↦ err e
        | ok v ↦ normalize_key s.whole s.print v
      ]

  -- The send on the error channel, or the end of the context instead of it.
  unfoldable pub report_key_error : Arrival → Error → Building → Building
  report_key_error a e b =
      if a.ended_in_send
      then record b { stopped = a.stream.stream_name ∷ b.stopped }
      else if ltb (length b.err_chan) s.err_cap
      then record b { err_chan = b.err_chan ++ record_processing "stream:join" e ∷ [] }
      else record b { stuck = a.stream.stream_name ∷ b.stuck }

  -- From keyErr on.
  unfoldable pub take_key : Arrival → Result Key → Building → Building
  unfolding report_key_error add_entry
  take_key a (err e) b = report_key_error a e (record b { records_skipped = b.records_skipped + 1 })
  take_key a (ok key) b =
      if a.ended_in_send
      then record b { stopped = a.stream.stream_name ∷ b.stopped }
      else record b { build_map = add_entry key a.stream.stream_name a.record' b.build_map }

  -- From the count on.
  unfoldable pub count_record : ModuleConfig → Arrival → Building → Building
  unfolding take_key extract_key exceeds set_once
  count_record cfg a b =
      let counted = record b { total_build_records = b.total_build_records + 1 } in
      if exceeds cfg.max_build_records (b.total_build_records + 1)
      then record counted { build_err = set_once b.build_err limit_exceeded }
      else take_key a (extract_key a.stream a.record') counted

  -- One round of the loop of a goroutine; nothing is read where it has returned or waits.
  unfoldable pub build_step : ModuleConfig → Arrival → Building → Building
  unfolding count_record
  build_step cfg a b =
      let name = a.stream.stream_name in
      if contains name b.stopped || contains name b.stuck
      then b
      else if a.ended_before || has_failed b.build_err
      then b
      else count_record cfg a b

  unfoldable pub build_all : ModuleConfig → List Arrival → Building → Building
  unfolding build_step
  build_all cfg [] b = b
  build_all cfg (a ∷ arrivals) b = build_all cfg arrivals (build_step cfg a b)

  -- runBuildPhase, up to its return
  unfoldable pub run_build_phase : ModuleConfig → List Arrival → List Error → Building
  unfolding build_all
  run_build_phase cfg arrivals errors = build_all cfg arrivals (record {
    build_map = [];
    total_build_records = 0;
    records_skipped = 0;
    build_err = none;
    err_chan = errors;
    stopped = [];
    stuck = [];
  })
