-- ===== src/Join/Probe.antt =====
-- `emitJoinedRecords`, `runProbePhase` and `runPostProbePhase` of modules/stream/join/join.go, which run in
-- one goroutine. `ended` answers each question whether the context has ended, by the number of the
-- questions before it: at a send, whether the select takes the end of the context.
pub mod Emits
pub mod Marks
pub mod Reference
pub mod Phase
pub mod Fresh
pub mod Post
use Prim.Native.Nat.{Ordering}
use Prim.Native.String.{compare}
use gxo.Prelude.{
  ℕ, ◌+◌, String, Bool, true, false, ◌||◌, List, [], ◌∷◌, ◌++◌, map, Option, none, some,
  if◌then◌else◌, ltb, length, ◌==◌,
}
use gxo.Prelude.Dict.{Dict, get}
use gxo.Value.{Value, null, int, str}
use gxo.Errors.{Error, wrapped, record_processing, Result, ok, err}
use gxo.Join.Keys.{Key, no_key, number, name, key_eq}
use gxo.Join.Defs.{Record, BuildEntry, JoinKeyConfig, ModuleConfig}
use gxo.Join.Combine.{Combination, get_combinations, construct_joined_record}
use gxo.Join.Build.{KeyMap, get_key, BuildMap, Setting, extract_key}

-- The output channels by what has been sent on each, the questions asked, and recordsJoined.
pub record Sink : Type 0 where
  pub outputs : List (List Record)
  pub asked : ℕ
  pub records_joined : ℕ

pub record Probing : Type 0 where
  pub build_map : BuildMap
  pub sink : Sink
  pub probe_records_processed : ℕ
  pub records_skipped : ℕ
  pub err_chan : List Error

-- How a round of a loop ends: it goes on, returns an error, or waits for room that nobody makes.
pub data Signal : Type 0 where
  next : Signal
  halt : Error → Signal
  blocked : Signal

-- for _, entry := range buildEntries { entry.matched = true }
unfoldable pub mark_entries : List BuildEntry → List BuildEntry
mark_entries [] = []
mark_entries (entry ∷ entries) = record entry { matched = true } ∷ mark_entries entries

unfoldable pub mark_streams : Dict (List BuildEntry) → Dict (List BuildEntry)
unfolding mark_entries
mark_streams [] = []
mark_streams ((stream, entries) ∷ streams) = (stream, mark_entries entries) ∷ mark_streams streams

-- The entries that buildMap[probeKey] points to.
unfoldable pub mark_key : Key → BuildMap → BuildMap
unfolding mark_streams
mark_key k [] = []
mark_key k ((j, streams) ∷ m) =
    let rest = mark_key k m in
    if key_eq j k then (j, mark_streams streams) ∷ m else (j, streams) ∷ rest

-- An entry that is marked, of one stream and of all.
unfoldable pub any_marked : List BuildEntry → Bool
any_marked [] = false
any_marked (entry ∷ entries) = entry.matched || any_marked entries

unfoldable pub key_was_matched : Dict (List BuildEntry) → Bool
unfolding any_marked
key_was_matched [] = false
key_was_matched ((stream, entries) ∷ streams) = any_marked entries || key_was_matched streams

-- The value of a key, which fmt prints.
abbrev pub key_value : Key → Value
key_value no_key = null
key_value (number n) = int n
key_value (name s) = str s

-- for k := range buildMap
unfoldable pub map_keys : BuildMap → List Key
map_keys [] = []
map_keys ((k, streams) ∷ m) = k ∷ map_keys m

-- sort.Slice by the printed keys
module _ (print : Value → String) where
  unfoldable pub insert_key : Key → List Key → List Key
  insert_key k [] = k ∷ []
  insert_key k (j ∷ keys) =
      let rest = insert_key k keys in
      elim (compare (print (key_value j)) (print (key_value k))) [
        | Ordering.lt ↦ j ∷ rest
        | _ ↦ k ∷ j ∷ keys
      ]

  unfoldable pub sort_keys : List Key → List Key
  unfolding insert_key
  sort_keys [] = []
  sort_keys (k ∷ keys) = insert_key k (sort_keys keys)

-- buildMap[key], nil where there is none
abbrev pub or_empty : Option (Dict (List BuildEntry)) → Dict (List BuildEntry)
or_empty none = []
or_empty (some streams) = streams

-- A question is asked.
abbrev pub ask_sink : Sink → Sink
ask_sink k = record k { asked = k.asked + 1 }

abbrev pub ask : Probing → Probing
ask p = record p { sink = ask_sink p.sink }

unfoldable pub after_emit : Sink × Option Error → Probing → Probing × Signal
after_emit (k, none) p = (record p { sink = k }, next)
after_emit (k, some e) p = (record p { sink = k }, halt e)

-- cfg.joinType == "left" || cfg.joinType == "outer"
abbrev pub keeps_probe : ModuleConfig → Bool
keeps_probe cfg = cfg.join_type == "left" || cfg.join_type == "outer"

-- cfg.joinType == "right" || cfg.joinType == "outer"
abbrev pub keeps_build : ModuleConfig → Bool
keeps_build cfg = cfg.join_type == "right" || cfg.join_type == "outer"

module _ (ended : ℕ → Option Error) where
  -- for _, out := range outputChans, with the questions asked before
  unfoldable pub send_all : Record → List (List Record) → ℕ → List (List Record) × ℕ × Option Error
  send_all joined [] asked = ([], asked, none)
  send_all joined (out ∷ outs) asked = elim (ended asked) [
    | some e ↦ (out ∷ outs, asked + 1, some e)
    | none ↦
        let (outs', asked', e) = send_all joined outs (asked + 1) in
        ((out ++ joined ∷ []) ∷ outs', asked', e)
  ]

  -- for _, combo := range combinations
  unfoldable pub emit_each : ModuleConfig → List Combination → Sink → Sink × Option Error
  unfolding send_all
  emit_each cfg [] k = (k, none)
  emit_each cfg (combo ∷ combos) k =
      let (outs, asked, e) = send_all (construct_joined_record cfg combo) k.outputs k.asked in
      let k' : Sink = record {
        outputs = outs;
        asked = asked;
        records_joined = k.records_joined + 1;
      } in
      elim e [ some e' ↦ (k', some e') | none ↦ emit_each cfg combos k' ]

  -- emitJoinedRecords
  unfoldable pub emit_joined_records :
      ModuleConfig → Option Record → Dict (List BuildEntry) → Sink → Sink × Option Error
  unfolding emit_each
  emit_joined_records cfg probe streams k = emit_each cfg (get_combinations cfg probe streams) k

  -- From the lookup in buildMap on.
  unfoldable pub probe_key :
      ModuleConfig → Record → Key → Option (Dict (List BuildEntry)) → Probing → Probing × Signal
  unfolding mark_key emit_joined_records after_emit
  probe_key cfg r key (some streams) p =
      after_emit (emit_joined_records cfg (some r) streams p.sink)
        (record p { build_map = mark_key key p.build_map })
  probe_key cfg r key none p =
      if keeps_probe cfg
      then after_emit (emit_joined_records cfg (some r) [] p.sink) p
      else (p, next)

  module _ (s : Setting) where
    -- The send of the error of a key.
    unfoldable pub report_probe_error : Option Error → Error → Probing → Probing × Signal
    report_probe_error (some e) key_err p = (p, halt e)
    report_probe_error none key_err p =
        if ltb (length p.err_chan) s.err_cap
        then (
          record p { err_chan = p.err_chan ++ record_processing "stream:join" key_err ∷ [] },
          next,
        )
        else (p, blocked)

    -- From keyErr on.
    unfoldable pub probe_with : ModuleConfig → Record → Result Key → Probing → Probing × Signal
    unfolding report_probe_error probe_key get_key
    probe_with cfg r (err e) p =
        report_probe_error (ended p.sink.asked) e
          (ask (record p { records_skipped = p.records_skipped + 1 }))
    probe_with cfg r (ok key) p = probe_key cfg r key (get_key key p.build_map) p

    -- One round of the loop, by what ctx.Err() says first.
    unfoldable pub probe_step : ModuleConfig → Record → Option Error → Probing → Probing × Signal
    unfolding probe_with extract_key
    probe_step cfg r (some e) p = (p, halt e)
    probe_step cfg r none p =
        probe_with cfg r (extract_key s cfg.probe_stream r)
          (record p { probe_records_processed = p.probe_records_processed + 1 })

    unfoldable pub after_probe : Probing × Signal → (Probing → Probing × Signal) → Probing × Signal
    after_probe (p, next) rest = rest p
    after_probe (p, halt e) rest = (p, halt e)
    after_probe (p, blocked) rest = (p, blocked)

    -- runProbePhase
    unfoldable pub run_probe_phase : ModuleConfig → List Record → Probing → Probing × Signal
    unfolding probe_step after_probe
    run_probe_phase cfg [] p = (p, next)
    run_probe_phase cfg (r ∷ rs) p =
        after_probe (probe_step cfg r (ended p.sink.asked) (ask p)) (run_probe_phase cfg rs)

    unfoldable pub after_unmatched :
        Sink × Option Error → (Sink → Sink × Option Error) → Sink × Option Error
    after_unmatched (k, none) rest = rest k
    after_unmatched (k, some e) rest =
        (k, some (wrapped "error emitting unmatched right/outer record" e))

    -- The body of the loop over the sorted keys, by what ctx.Err() says first.
    unfoldable pub post_probe_key :
        ModuleConfig
        → Dict (List BuildEntry)
        → Option Error
        → Sink
        → (Sink → Sink × Option Error)
        → Sink × Option Error
    unfolding key_was_matched emit_joined_records after_unmatched
    post_probe_key cfg streams (some e) k rest = (k, some e)
    post_probe_key cfg streams none k rest =
        if key_was_matched streams
        then rest k
        else after_unmatched (emit_joined_records cfg none streams k) rest

    -- for _, key := range sortedKeys
    unfoldable pub post_probe_keys : ModuleConfig → BuildMap → List Key → Sink → Sink × Option Error
    unfolding post_probe_key get_key
    post_probe_keys cfg m [] k = (k, none)
    post_probe_keys cfg m (key ∷ keys) k =
        post_probe_key cfg (or_empty (get_key key m)) (ended k.asked) (ask_sink k)
          (post_probe_keys cfg m keys)

    unfoldable pub post_probe_sorted :
        ModuleConfig → BuildMap → Option Error → Sink → Sink × Option Error
    unfolding post_probe_keys sort_keys map_keys
    post_probe_sorted cfg m (some e) k = (k, some e)
    post_probe_sorted cfg m none k = post_probe_keys cfg m (sort_keys s.print (map_keys m)) k

    -- runPostProbePhase; the records it has joined are counted on in the sink
    unfoldable pub run_post_probe_phase : ModuleConfig → BuildMap → Sink → Sink × Option Error
    unfolding post_probe_sorted
    run_post_probe_phase cfg m k =
        if keeps_build cfg then post_probe_sorted cfg m (ended k.asked) (ask_sink k) else (k, none)
