-- ===== src/Join/Probe/Phase.antt =====
-- The probe phase where the context lasts and the error channel has room.
use gxo.Prelude.{
  ℕ, ◌+◌, ◌≤◌, Bool, true, false, List, [], ◌∷◌, map, Option, none, some, ◌≡◌, refl, ap, sym, ◌∙◌,
  subst, arith, if◌then◌else◌, if_true, if_false, lt→ltb, length, length-append, Bool-cases, inl,
  inr,
}
use gxo.Prelude.Dict.{Dict}
use gxo.Errors.{Error, Result, ok, err, record_processing}
use gxo.Join.Keys.{Key, key_eq, key_eq_iff}
use gxo.Join.Defs.{Record, BuildEntry, ModuleConfig}
use gxo.Join.Combine.{get_combinations, construct_joined_record}
use gxo.Join.Build.{get_key, Setting}
use gxo.Join.Build.Phase.{bad}
use gxo.Join.Probe.{
  Sink, Probing, Signal, next, halt, blocked, mark_key, emit_joined_records, after_emit,
  keeps_probe, ask, probe_key, report_probe_error, probe_with, probe_step, after_probe,
  run_probe_phase,
}
use gxo.Join.Probe.Emits.{Emits, Emits-nothing, Emits-append, emit_joined_records-Emits}
use gxo.Join.Probe.Marks.{marked, get_key-mark_key, map_keys-mark_key}
use gxo.Join.Probe.Reference.{
  Probed, bad_probes, is_key, is_probed, joined_all, joined_all-marked, joined_by_key, joined_with,
  marked_if, marked_or, probe_key_of,
}

module _ (ended : ℕ → Option Error) (lasts : (t : ℕ) → ended t ≡ none) (s : Setting)
    (cfg : ModuleConfig) where
  after_emit_lem :
      (x : Sink × Option Error) (p : Probing)
      → x.1 ≡ none
      → after_emit x p ≡ (record p { sink = x.0 }, next)
  unfolding after_emit
  after_emit_lem (k, none) p h = refl
  after_emit_lem (k, some e) p h = cc

  report_lasts :
      (o : Option Error) (e : Error) (p : Probing)
      → o ≡ none
      → length p.err_chan + 1 ≤ s.err_cap
      → (report_probe_error ended s o e p).1 ≡ next
  unfolding report_probe_error
  report_lasts none e p h room = ground arith
  report_lasts (some x) e p h room = cc

  abbrev Step : Record → Result Key → Probing → Type 0
  Step r res p =
      ((probe_with ended s cfg r res p).1 ≡ next)
      × Probed (joined_by_key cfg p.build_map r res) 0 (bad res) (λ k. is_key k res) p
          (probe_with ended s cfg r res p).0

  probe_key_lem :
      (r : Record) (key : Key) (o : Option (Dict (List BuildEntry))) (p : Probing)
      → o ≡ get_key key p.build_map
      → ((probe_key ended cfg r key o p).1 ≡ next)
        × Probed (joined_with cfg r o) 0 0 (key_eq key) p (probe_key ended cfg r key o p).0
  unfolding probe_key
  probe_key_lem r key (some streams) p h =
      let (on, emits) = emit_joined_records-Emits ended lasts cfg (some r) streams p.sink in
      let x = emit_joined_records ended cfg (some r) streams p.sink in
      let p' = record p { build_map = mark_key key p.build_map } in
      rw (after_emit_lem x p' on) (
        refl,
        record {
          sent = emits;
          processed = omega arith;
          skipped = omega arith;
          reported = omega arith;
          found = λ k. get_key-mark_key key k p.build_map;
          same_keys = map_keys-mark_key key p.build_map;
        },
      )
  probe_key_lem r key none p h = without (keeps_probe cfg)
    where
      missed :
          (k : Key)
          → get_key k p.build_map
            ≡ (if key_eq key k then marked (get_key k p.build_map) else get_key k p.build_map)
      missed k = elim (Bool-cases (key_eq key k)) [
        | inl same ↦
            let gone = h ∙ ap (λ j. get_key j p.build_map) ((key_eq_iff key k).0 same) in
            sym gone
            ∙ ap marked gone
            ∙ sym (
                if_true (key_eq key k) (marked (get_key k p.build_map)) (get_key k p.build_map)
                  same)
        | inr other ↦
            sym (
              if_false (key_eq key k) (marked (get_key k p.build_map)) (get_key k p.build_map)
                other)
      ]

      without :
          (b : Bool)
          → ((if b
                then after_emit (emit_joined_records ended cfg (some r) [] p.sink) p
                else (p, next)).1
              ≡ next)
            × Probed
                (if b
                  then map (construct_joined_record cfg) (get_combinations cfg (some r) [])
                  else [])
                0
                0
                (key_eq key)
                p
                (if b
                  then after_emit (emit_joined_records ended cfg (some r) [] p.sink) p
                  else (p, next)).0
      without false = (
        refl,
        record {
          sent = Emits-nothing p.sink p.sink refl refl;
          processed = omega arith;
          skipped = omega arith;
          reported = omega arith;
          found = missed;
          same_keys = refl;
        },
      )
      without true =
          let (on, emits) = emit_joined_records-Emits ended lasts cfg (some r) [] p.sink in
          rw (after_emit_lem (emit_joined_records ended cfg (some r) [] p.sink) p on) (
            refl,
            record {
              sent = emits;
              processed = omega arith;
              skipped = omega arith;
              reported = omega arith;
              found = missed;
              same_keys = refl;
            },
          )

  report_adds :
      (o : Option Error) (e : Error) (p : Probing)
      → o ≡ none
      → length p.err_chan + 1 ≤ s.err_cap
      → Probed [] 0 0
          (λ k. false)
          (record p { err_chan = (report_probe_error ended s o e p).0.err_chan })
          (report_probe_error ended s o e p).0
        × (length (report_probe_error ended s o e p).0.err_chan ≡ length p.err_chan + 1)
  unfolding report_probe_error
  report_adds (some x) e p h room = cc
  report_adds none e p h room = rw (lt→ltb (length p.err_chan) s.err_cap (omega arith)) (
    record {
      sent = Emits-nothing p.sink p.sink refl refl;
      processed = omega arith;
      skipped = omega arith;
      reported = omega arith;
      found = λ k. refl;
      same_keys = refl;
    },
    length-append p.err_chan (record_processing "stream:join" e ∷ []),
  )

  probe_with_lem :
      (r : Record) (res : Result Key) (p : Probing)
      → length p.err_chan + bad res ≤ s.err_cap
      → Step r res p
  unfolding probe_with
  probe_with_lem r (ok key) p room = probe_key_lem r key (get_key key p.build_map) p refl
  probe_with_lem r (err e) p room =
      let p' = ask (record p { records_skipped = p.records_skipped + 1 }) in
      let (same, more) = report_adds (ended p.sink.asked) e p' (lasts p.sink.asked) room in
      (
        report_lasts (ended p.sink.asked) e p' (lasts p.sink.asked) room,
        record {
          sent = record { sent = same.sent.sent; joined = same.sent.joined };
          processed = omega (arith, same.processed);
          skipped = omega (arith, same.skipped);
          reported = more;
          found = same.found;
          same_keys = same.same_keys;
        },
      )

  after_probe_lem :
      (x : Probing × Signal) (rest : Probing → Probing × Signal)
      → x.1 ≡ next
      → after_probe ended s x rest ≡ rest x.0
  unfolding after_probe
  after_probe_lem (p, next) rest h = refl
  after_probe_lem (p, halt e) rest h = absurd (not_next h)
    where
      not_next : halt e ≡ next → ⊥
      not_next q = cc
  after_probe_lem (p, blocked) rest h = absurd (not_next h)
    where
      not_next : blocked ≡ next → ⊥
      not_next q = cc

  pub run_probe_phase_lem :
      (rs : List Record) (p : Probing)
      → length p.err_chan + bad_probes s cfg rs ≤ s.err_cap
      → ((run_probe_phase ended s cfg rs p).1 ≡ next)
        × Probed
            (joined_all s cfg p.build_map rs)
            (length rs)
            (bad_probes s cfg rs)
            (λ k. is_probed s cfg k rs)
            p
            (run_probe_phase ended s cfg rs p).0
  unfolding run_probe_phase probe_step
  run_probe_phase_lem [] p room = (
    refl,
    record {
      sent = Emits-nothing p.sink p.sink refl refl;
      processed = omega arith;
      skipped = omega arith;
      reported = omega arith;
      found = λ k. refl;
      same_keys = refl;
    },
  )
  run_probe_phase_lem (r ∷ rs) p room =
      let p0 = record (ask p) { probe_records_processed = p.probe_records_processed + 1 } in
      let res = probe_key_of s cfg r in
      let (on, one) = probe_with_lem r res p0 (omega arith) in
      let p1 = (probe_with ended s cfg r res p0).0 in
      let (on', all) = run_probe_phase_lem rs p1 (omega (arith, one.reported)) in
      let same : joined_all s cfg p1.build_map rs ≡ joined_all s cfg p.build_map rs =
        joined_all-marked s cfg p.build_map p1.build_map rs
          (λ k. ap marked (one.found k) ∙ marked_if (is_key k res) (get_key k p.build_map)) in
      let step : run_probe_phase ended s cfg (r ∷ rs) p ≡ run_probe_phase ended s cfg rs p1 =
        ap
          (λ o.
            after_probe ended s (probe_step ended s cfg r o (ask p))
              (run_probe_phase ended s cfg rs))
          (lasts p.sink.asked)
        ∙ after_probe_lem (probe_with ended s cfg r res p0) (run_probe_phase ended s cfg rs) on in
      rw step (
        on',
        record {
          sent =
              Emits-append (joined_by_key cfg p.build_map r res) (joined_all s cfg p.build_map rs)
                p.sink p1.sink (run_probe_phase ended s cfg rs p1).0.sink
                (record { sent = one.sent.sent; joined = one.sent.joined })
                (subst (λ l. Emits l p1.sink (run_probe_phase ended s cfg rs p1).0.sink) same
                  all.sent);
          processed = omega (arith, one.processed, all.processed);
          skipped = omega (arith, one.skipped, all.skipped);
          reported = omega (arith, one.reported, all.reported);
          found = λ k.
              all.found k
              ∙ ap (λ o. if is_probed s cfg k rs then marked o else o) (one.found k)
              ∙ marked_or (is_key k res) (is_probed s cfg k rs) (get_key k p.build_map);
          same_keys = all.same_keys ∙ one.same_keys;
        },
      )
