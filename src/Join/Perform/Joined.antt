-- ===== src/Join/Perform/Joined.antt =====
-- What the whole join sends, where the context lasts.
use gxo.Prelude.{
  ℕ, ◌+◌, ◌≤◌, ◌<◌, if_true, false, List, [], ◌++◌, map, Option, none, some, ◌≡◌, refl, ap, ◌∙◌,
  arith, if◌then◌else◌, length, All,
}
use gxo.Errors.{Error, ok}
use gxo.Join.Defs.{Record, ModuleConfig}
use gxo.Join.Build.{Arrival, Building, Setting, exceeds, is_waiting, run_build_phase}
use gxo.Join.Build.Phase.{Lasts, bad_keys}
use gxo.Join.Build.Ends.{run_build_phase_gathers, run_build_phase_reports, run_build_phase_blocks}
use gxo.Join.Probe.{
  Sink, Probing, Signal, next, halt, blocked, keeps_build, run_probe_phase, run_post_probe_phase,
  sort_keys, map_keys,
}
use gxo.Join.Probe.Emits.{Emits-append}
use gxo.Join.Probe.Reference.{joined_all, is_probed, bad_probes}
use gxo.Join.Probe.Phase.{run_probe_phase_lem}
use gxo.Join.Probe.Fresh.{IsFresh, run_build_phase-IsFresh}
use gxo.Join.Probe.Post.{joined_unmatched, run_post_probe_phase-Gives}
use gxo.Join.Perform.{
  Ending, waits, returned, after_post_probe, after_probe_phase, probe_start, after_build_phase,
  run_phases,
}

module _ (s : Setting) (cfg : ModuleConfig) where
  -- The records for a build map: those of each record of the probe stream, and then those of the keys that
  -- none of them has, if the type of the join asks for them.
  abbrev pub all_joined : Building → List Record
  all_joined b =
      joined_all s cfg b.build_map cfg.probe_stream.input_channel
      ++ (if keeps_build cfg
          then joined_unmatched cfg (λ k. is_probed s cfg k cfg.probe_stream.input_channel)
              b.build_map (sort_keys s.print (map_keys b.build_map))
          else [])

same_ending :
    (j j' p p' t k k' : ℕ) (outs outs' : List (List Record))
    → j ≡ j'
    → p ≡ p'
    → k ≡ k'
    → outs ≡ outs'
    → ◌≡◌ {A = Ending × List (List Record)}
        (
          returned (
              ok (record {
                records_joined = j;
                probe_stream_records = p;
                build_stream_records = t;
                skipped_key_errors = k;
              })),
          outs,
        )
        (
          returned (
              ok (record {
                records_joined = j';
                probe_stream_records = p';
                build_stream_records = t;
                skipped_key_errors = k';
              })),
          outs',
        )
same_ending j j' p p' t k k' outs outs' joined probed faulty sent = cc

module _ (ended : ℕ → Option Error) (lasts : (t : ℕ) → ended t ≡ none) (s : Setting)
    (cfg : ModuleConfig) where
  abbrev expected : Building → List (List Record) → Ending × List (List Record)
  expected b outputs = (
    returned (
        ok (record {
          records_joined = length (all_joined s cfg b);
          probe_stream_records = length cfg.probe_stream.input_channel;
          build_stream_records = b.total_build_records;
          skipped_key_errors = b.records_skipped + bad_probes s cfg cfg.probe_stream.input_channel;
        })),
    map (λ out. out ++ all_joined s cfg b) outputs,
  )

  after_probe_phase_lem :
      (b : Building) (x : Probing × Signal)
      → x.1 ≡ next
      → after_probe_phase ended s cfg b x
        ≡ after_post_probe b x.0 (run_post_probe_phase ended s cfg x.0.build_map x.0.sink)
  unfolding after_probe_phase
  after_probe_phase_lem b (p, next) h = refl
  after_probe_phase_lem b (p, halt e) h = absurd (not_next h)
    where
      not_next : halt e ≡ next → ⊥
      not_next q = cc
  after_probe_phase_lem b (p, blocked) h = absurd (not_next h)
    where
      not_next : blocked ≡ next → ⊥
      not_next q = cc

  after_post_probe_lem :
      (b : Building) (p : Probing) (y : Sink × Option Error)
      → y.1 ≡ none
      → after_post_probe b p y ≡ (
        returned (
            ok (record {
              records_joined = y.0.records_joined;
              probe_stream_records = p.probe_records_processed;
              build_stream_records = b.total_build_records;
              skipped_key_errors = b.records_skipped + p.records_skipped;
            })),
        y.0.outputs,
      )
  unfolding after_post_probe
  after_post_probe_lem b p (k, none) h = refl
  after_post_probe_lem b p (k, some e) h = cc

  phases_after_build :
      (b : Building) (outputs : List (List Record))
      → IsFresh b.build_map
      → length b.err_chan + bad_probes s cfg cfg.probe_stream.input_channel ≤ s.err_cap
      → after_build_phase ended s cfg b none outputs ≡ expected b outputs
  unfolding after_build_phase
  phases_after_build b outputs fresh room =
      let rs = cfg.probe_stream.input_channel in
      let p0 = probe_start ended s cfg b outputs in
      let x = run_probe_phase ended s cfg rs p0 in
      let (on, probed) = run_probe_phase_lem ended lasts s cfg rs p0 room in
      let y = run_post_probe_phase ended s cfg x.0.build_map x.0.sink in
      let (on', emits) =
        run_post_probe_phase-Gives ended lasts s cfg (λ k. is_probed s cfg k rs) b.build_map
          x.0.build_map x.0.sink fresh probed.found probed.same_keys in
      let all =
        Emits-append (joined_all s cfg b.build_map rs)
          (if keeps_build cfg
            then joined_unmatched cfg (λ k. is_probed s cfg k rs) b.build_map
                (sort_keys s.print (map_keys b.build_map))
            else [])
          p0.sink x.0.sink y.0 probed.sent emits in
      after_probe_phase_lem b x on
      ∙ after_post_probe_lem b x.0 y on'
      ∙ same_ending _ _ _ _ b.total_build_records _ _ _ _ (omega (arith, all.joined))
          (omega (arith, probed.processed)) (omega (arith, probed.skipped)) all.sent

-- Where the context lasts, the limit is kept and the error channel has room for the records without a key,
-- the join returns its summary, and each output channel gets what the build map and the probe stream give:
-- for each record of the probe stream in turn what its key gives, and then, for a right or outer join, what
-- the keys give that no record of the probe stream has, in the order of their printed forms.
pub run_phases_joins :
    (ended : ℕ → Option Error)
    → (s : Setting) → (cfg : ModuleConfig) → (arrivals : List Arrival) → (errors : List Error)
    → (outputs : List (List Record)) → ((t : ℕ) → ended t ≡ none)
    → All Lasts arrivals
    → exceeds cfg.max_build_records (length arrivals) ≡ false
    → length errors + bad_keys s arrivals + bad_probes s cfg cfg.probe_stream.input_channel
      ≤ s.err_cap
    → let b = run_build_phase s cfg arrivals errors in
      run_phases ended s cfg arrivals errors outputs ≡ (
        returned (
            ok (record {
              records_joined = length (all_joined s cfg b);
              probe_stream_records = length cfg.probe_stream.input_channel;
              build_stream_records = length arrivals;
              skipped_key_errors =
                  bad_keys s arrivals + bad_probes s cfg cfg.probe_stream.input_channel;
            })),
        map (λ out. out ++ all_joined s cfg b) outputs,
      )
unfolding run_phases
run_phases_joins ended s cfg arrivals errors outputs lasts read fits room =
    let b = run_build_phase s cfg arrivals errors in
    let (no_error, not_stuck, total, skipped, entries) =
      run_build_phase_gathers s cfg arrivals errors read fits (omega arith) in
    let reports = run_build_phase_reports s cfg arrivals errors read fits (omega arith) in
    ap
      (λ names.
        if is_waiting names
        then (waits, outputs)
        else after_build_phase ended s cfg b b.build_err outputs)
      not_stuck
    ∙ ap (λ e. after_build_phase ended s cfg b e outputs) no_error
    ∙ phases_after_build ended lasts s cfg b outputs (run_build_phase-IsFresh s cfg arrivals errors)
        (omega (arith, reports))
    ∙ ap
        (λ n. (
          returned (
              ok (record {
                records_joined = length (all_joined s cfg b);
                probe_stream_records = length cfg.probe_stream.input_channel;
                build_stream_records = n;
                skipped_key_errors =
                    b.records_skipped + bad_probes s cfg cfg.probe_stream.input_channel;
              })),
          map (λ out. out ++ all_joined s cfg b) outputs,
        ))
        total
    ∙ ap
        (λ n. (
          returned (
              ok (record {
                records_joined = length (all_joined s cfg b);
                probe_stream_records = length cfg.probe_stream.input_channel;
                build_stream_records = length arrivals;
                skipped_key_errors = n + bad_probes s cfg cfg.probe_stream.input_channel;
              })),
          map (λ out. out ++ all_joined s cfg b) outputs,
        ))
        skipped

-- Where the context lasts and the limit is kept, but more records of the build streams have no key than the
-- error channel has room for, the join does not return: it waits for room that only its caller makes.
pub run_phases_blocks :
    (ended : ℕ → Option Error)
    → (s : Setting) → (cfg : ModuleConfig) → (arrivals : List Arrival) → (errors : List Error)
    → (outputs : List (List Record)) → All Lasts arrivals
    → exceeds cfg.max_build_records (length arrivals) ≡ false
    → length errors ≤ s.err_cap
    → s.err_cap < length errors + bad_keys s arrivals
    → run_phases ended s cfg arrivals errors outputs ≡ (waits, outputs)
unfolding run_phases
run_phases_blocks ended s cfg arrivals errors outputs read fits some_room none_left =
    let b = run_build_phase s cfg arrivals errors in
    if_true (is_waiting b.stuck) (waits, outputs)
      (after_build_phase ended s cfg b b.build_err outputs)
      (run_build_phase_blocks s cfg arrivals errors read fits some_room none_left)
