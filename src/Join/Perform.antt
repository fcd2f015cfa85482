-- ===== src/Join/Perform.antt =====
-- `Perform` of modules/stream/join/join.go.
pub mod Joined
use gxo.Prelude.{ℕ, ◌+◌, String, Bool, true, false, List, [], Option, none, some, if◌then◌else◌}
use gxo.Errors.{Error, Result, ok, err}
use gxo.Prelude.Dict.{Dict}
use gxo.Value.{Value}
use gxo.Join.Defs.{Record, ModuleConfig}
use gxo.Join.Settings.{parse_and_validate_params}
use gxo.Join.Build.{Arrival, Building, Setting, is_waiting, run_build_phase}
use gxo.Join.Probe.{
  Sink, Probing, Signal, next, halt, blocked, run_probe_phase, run_post_probe_phase,
}

-- finalSummary
pub record Summary : Type 0 where
  pub records_joined : ℕ
  pub probe_stream_records : ℕ
  pub build_stream_records : ℕ
  pub skipped_key_errors : ℕ

-- It returns, or waits for room in the error channel, which its caller empties only after the return.
pub data Ending : Type 0 where
  waits : Ending
  returned : Result Summary → Ending

unfoldable pub after_post_probe :
    Building → Probing → Sink × Option Error → Ending × List (List Record)
after_post_probe b p (k, some e) = (returned (err e), k.outputs)
after_post_probe b p (k, none) = (
  returned (
      ok (record {
        records_joined = k.records_joined;
        probe_stream_records = p.probe_records_processed;
        build_stream_records = b.total_build_records;
        skipped_key_errors = b.records_skipped + p.records_skipped;
      })),
  k.outputs,
)

module _ (ended : ℕ → Option Error) (s : Setting) (cfg : ModuleConfig) where
  unfoldable pub after_probe_phase : Building → Probing × Signal → Ending × List (List Record)
  unfolding after_post_probe run_post_probe_phase
  after_probe_phase b (p, halt e) = (returned (err e), p.sink.outputs)
  after_probe_phase b (p, blocked) = (waits, p.sink.outputs)
  after_probe_phase b (p, next) =
      after_post_probe b p (run_post_probe_phase ended s cfg p.build_map p.sink)

  abbrev pub probe_start : Building → List (List Record) → Probing
  probe_start b outputs = record {
    build_map = b.build_map;
    sink = record { outputs = outputs; asked = 0; records_joined = 0 };
    probe_records_processed = 0;
    records_skipped = 0;
    err_chan = b.err_chan;
  }

  unfoldable pub after_build_phase :
      Building → Option Error → List (List Record) → Ending × List (List Record)
  unfolding after_probe_phase run_probe_phase
  after_build_phase b (some e) outputs = (returned (err e), outputs)
  after_build_phase b none outputs =
      after_probe_phase b
        (run_probe_phase ended s cfg cfg.probe_stream.input_channel (probe_start b outputs))

  -- The phases in turn, from the channels of the outputs by what they hold.
  unfoldable pub run_phases :
      List Arrival → List Error → List (List Record) → Ending × List (List Record)
  unfolding after_build_phase run_build_phase
  run_phases arrivals errors outputs =
      let b = run_build_phase s cfg arrivals errors in
      if is_waiting b.stuck then (waits, outputs) else after_build_phase b b.build_err outputs

-- Perform
unfoldable pub perform :
    (ℕ → Option Error)
    → Setting
    → Dict Value
    → Dict (List Record)
    → List Arrival
    → List Error
    → List (List Record)
    → Ending × List (List Record)
unfolding parse_and_validate_params run_phases
perform ended s params inputs arrivals errors outputs =
    elim (parse_and_validate_params s.whole params inputs) [
      | err e ↦ (returned (err e), outputs)
      | ok cfg ↦ run_phases ended s cfg arrivals errors outputs
    ]
