-- ===== src/Join/Build/Ends.antt =====
-- How the build phase ends, where the context lasts: with the map, with the error of the limit, or never,
-- when more keys are missing than the error channel has room for.
use gxo.Prelude.{
  suc, ◌+◌, ◌≤◌, ◌<◌, String, Bool, true, false, List, [], ◌∷◌, none, some, ◌≡◌, refl, ap, sym, ◌∙◌,
  subst, arith, if_true, if_false, ltb, length, All, Bool-cases, inl, inr,
}
use gxo.Prelude.Int.{ℤ, pos, negsuc}
use gxo.Errors.{Error, Result, ok, err}
use gxo.Join.Keys.{Key}
use gxo.Join.Defs.{ModuleConfig}
use gxo.Join.Build.{
  Arrival, Building, Setting, exceeds, limit_exceeded, set_once, report_key_error, take_key,
  count_record, is_waiting, has_failed, build_step, build_all, run_build_phase,
}
use gxo.Join.Build.Entries.{entries_at}
use gxo.Join.Build.Phase.{
  IsPlain, Lasts, bad, key_of, bad_keys, gathered, counted, take_key-Took, step_within, step_counts,
  take_err, build_all-Gathers, exceeds_mono,
}

abbrev start : List Error → Building
start errors = record {
  build_map = [];
  total_build_records = 0;
  records_skipped = 0;
  build_err = none;
  err_chan = errors;
  stopped = [];
  stuck = [];
}

-- Where the context lasts, the limit is kept and the error channel has room for the keys that cannot be
-- extracted, the build phase ends without an error; its counts are the number of the records and of those
-- without a key, and under each key and stream the map has exactly the stream's records with that key,
-- unmatched, in the order in which they arrived.
pub run_build_phase_gathers :
    (s : Setting) (cfg : ModuleConfig) (arrivals : List Arrival) (errors : List Error)
    → All Lasts arrivals
    → exceeds cfg.max_build_records (length arrivals) ≡ false
    → length errors + bad_keys s arrivals ≤ s.err_cap
    → let b = run_build_phase s cfg arrivals errors in
      (b.build_err ≡ none)
      × (b.stuck ≡ [])
      × (b.total_build_records ≡ length arrivals)
      × (b.records_skipped ≡ bad_keys s arrivals)
      × ((k : Key) (n : String) → entries_at k n b.build_map ≡ gathered s k n arrivals)
unfolding run_build_phase
run_build_phase_gathers s cfg arrivals errors lasts fits room =
    let g =
      build_all-Gathers s cfg arrivals (start errors) lasts
        (record { none_stopped = refl; none_stuck = refl; no_error = refl })
        (subst (λ n. exceeds cfg.max_build_records n ≡ false) (omega arith) fits) room in
    (
      g.plain.no_error,
      g.plain.none_stuck,
      omega (arith, g.total),
      omega (arith, g.skipped),
      λ k n. g.added k n,
    )

module _ (s : Setting) (cfg : ModuleConfig) where
  failed_stays :
      (a : Arrival) (b : Building) → has_failed b.build_err ≡ true → build_step s cfg a b ≡ b
  unfolding build_step
  failed_stays a b h = ground arith

  failed_stays_all :
      (arrivals : List Arrival) (b : Building)
      → has_failed b.build_err ≡ true
      → build_all s cfg arrivals b ≡ b
  unfolding build_all
  failed_stays_all [] b h = refl
  failed_stays_all (a ∷ arrivals) b h =
      ap (build_all s cfg arrivals) (failed_stays a b h) ∙ failed_stays_all arrivals b h

  step_beyond :
      (a : Arrival) (b : Building)
      → IsPlain b
      → Lasts a
      → exceeds cfg.max_build_records (b.total_build_records + 1) ≡ true
      → build_step s cfg a b ≡ record (counted s b) { build_err = some limit_exceeded }
  unfolding count_record set_once
  step_beyond a b p l beyond =
      step_counts s cfg a b p l
      ∙ if_true (exceeds cfg.max_build_records (b.total_build_records + 1)) _ _ beyond
      ∙ ap (λ e. record (counted s b) { build_err = set_once e limit_exceeded }) p.no_error

  take_waiting :
      (a : Arrival) (r : Result Key) (b : Building)
      → is_waiting b.stuck ≡ true
      → is_waiting (take_key s a r b).stuck ≡ true
  unfolding take_key report_key_error
  take_waiting a (ok key) b h = ground arith
  take_waiting a (err e) b h = ground arith

  waiting_stays :
      (a : Arrival) (b : Building)
      → is_waiting b.stuck ≡ true
      → is_waiting (build_step s cfg a b).stuck ≡ true
  unfolding build_step count_record
  waiting_stays a b h = ground (arith, take_waiting a (key_of s a) (counted s b) h)

  waiting_stays_all :
      (arrivals : List Arrival) (b : Building)
      → is_waiting b.stuck ≡ true
      → is_waiting (build_all s cfg arrivals b).stuck ≡ true
  unfolding build_all
  waiting_stays_all [] b h = h
  waiting_stays_all (a ∷ arrivals) b h =
      waiting_stays_all arrivals (build_step s cfg a b) (waiting_stays a b h)

  counted_lem : (b : Building) → IsPlain b → IsPlain (counted s b)
  counted_lem b p = record {
    none_stopped = p.none_stopped;
    none_stuck = p.none_stuck;
    no_error = p.no_error;
  }

  limit_hits :
      (arrivals : List Arrival) (b : Building)
      → All Lasts arrivals
      → IsPlain b
      → exceeds cfg.max_build_records b.total_build_records ≡ false
      → exceeds cfg.max_build_records (b.total_build_records + length arrivals) ≡ true
      → length b.err_chan + bad_keys s arrivals ≤ s.err_cap
      → (build_all s cfg arrivals b).build_err ≡ some limit_exceeded
  unfolding build_all
  limit_hits [] b ls p under over room =
      absurd (clash (subst (λ n. exceeds cfg.max_build_records n ≡ true) (omega arith) over) under)
    where
      clash : {c : Bool} → c ≡ true → c ≡ false → ⊥
      clash h h' = cc
  limit_hits (a ∷ arrivals) b (l, ls) p under over room =
      elim (Bool-cases (exceeds cfg.max_build_records (b.total_build_records + 1))) [
        | inl beyond ↦
            ap (λ x. (build_all s cfg arrivals x).build_err) (step_beyond a b p l beyond)
            ∙ ap (λ x. x.build_err)
                (failed_stays_all arrivals
                  (record (counted s b) { build_err = some limit_exceeded }) refl)
        | inr within ↦
            let t =
              take_key-Took s a (key_of s a) (counted s b) (counted_lem b p) l (omega arith) in
            ap (λ x. (build_all s cfg arrivals x).build_err) (step_within s cfg a b p l within)
            ∙ limit_hits arrivals (take_key s a (key_of s a) (counted s b)) ls t.plain
                (subst (λ n. exceeds cfg.max_build_records n ≡ false) (sym t.total) within)
                (subst (λ n. exceeds cfg.max_build_records n ≡ true) (omega (arith, t.total)) over)
                (omega (arith, t.reported))
      ]

  full_waits :
      (a : Arrival) (r : Result Key) (b : Building)
      → Lasts a
      → length b.err_chan ≤ s.err_cap
      → s.err_cap < length b.err_chan + bad r
      → is_waiting (take_key s a r b).stuck ≡ true
  full_waits a (ok key) b l some_room none_left = absurd (omega arith)
  full_waits a (err e) b l some_room none_left =
      ap (λ x. is_waiting x.stuck)
        (take_err s a e b l ∙ if_false (ltb (length b.err_chan) s.err_cap) _ _ (ground arith))

  waits :
      (arrivals : List Arrival) (b : Building)
      → All Lasts arrivals
      → IsPlain b
      → exceeds cfg.max_build_records (b.total_build_records + length arrivals) ≡ false
      → length b.err_chan ≤ s.err_cap
      → s.err_cap < length b.err_chan + bad_keys s arrivals
      → is_waiting (build_all s cfg arrivals b).stuck ≡ true
  unfolding build_all
  waits [] b ls p fits some_room none_left = absurd (omega arith)
  waits (a ∷ arrivals) b (l, ls) p fits some_room none_left =
      ap (λ x. is_waiting (build_all s cfg arrivals x).stuck)
        (step_within s cfg a b p l (
          exceeds_mono s cfg.max_build_records (b.total_build_records + 1)
            (b.total_build_records + suc (length arrivals)) (omega arith) fits))
      ∙ elim (Bool-cases (ltb s.err_cap (length b.err_chan + bad (key_of s a)))) [
        | inl full ↦
            waiting_stays_all arrivals (take_key s a (key_of s a) (counted s b))
              (full_waits a (key_of s a) (counted s b) l some_room (ground arith))
        | inr room ↦
            let fits_one : length b.err_chan + bad (key_of s a) ≤ s.err_cap = ground arith in
            let t = take_key-Took s a (key_of s a) (counted s b) (counted_lem b p) l fits_one in
            waits arrivals (take_key s a (key_of s a) (counted s b)) ls t.plain
              (subst (λ n. exceeds cfg.max_build_records n ≡ false) (omega (arith, t.total)) fits)
              (omega (arith, t.reported)) (omega (arith, t.reported))
      ]

-- Where the context lasts and the error channel has room, the build phase returns the error of the limit
-- as soon as more records arrive than the limit, if it is positive, allows.
pub run_build_phase_limit :
    (s : Setting) (cfg : ModuleConfig) (arrivals : List Arrival) (errors : List Error)
    → All Lasts arrivals
    → exceeds cfg.max_build_records (length arrivals) ≡ true
    → length errors + bad_keys s arrivals ≤ s.err_cap
    → (run_build_phase s cfg arrivals errors).build_err ≡ some limit_exceeded
unfolding run_build_phase exceeds
run_build_phase_limit s cfg arrivals errors lasts over room =
    limit_hits s cfg arrivals (start errors) lasts
      (record { none_stopped = refl; none_stuck = refl; no_error = refl })
      (none_exceeds cfg.max_build_records)
      (subst (λ n. exceeds cfg.max_build_records n ≡ true) (omega arith) over) room
  where
    none_exceeds : (max : ℤ) → exceeds max 0 ≡ false
    none_exceeds (pos n) = ground arith
    none_exceeds (negsuc n) = refl

-- Where the context lasts and the limit is kept, but more records have no key than the error channel has
-- room for, a goroutine of the build phase waits for room, so the phase does not return.
pub run_build_phase_blocks :
    (s : Setting) (cfg : ModuleConfig) (arrivals : List Arrival) (errors : List Error)
    → All Lasts arrivals
    → exceeds cfg.max_build_records (length arrivals) ≡ false
    → length errors ≤ s.err_cap
    → s.err_cap < length errors + bad_keys s arrivals
    → is_waiting (run_build_phase s cfg arrivals errors).stuck ≡ true
unfolding run_build_phase
run_build_phase_blocks s cfg arrivals errors lasts fits some_room none_left =
    waits s cfg arrivals (start errors) lasts
      (record { none_stopped = refl; none_stuck = refl; no_error = refl })
      (subst (λ n. exceeds cfg.max_build_records n ≡ false) (omega arith) fits) some_room none_left

-- What such a phase has put into the error channel.
pub run_build_phase_reports :
    (s : Setting) (cfg : ModuleConfig) (arrivals : List Arrival) (errors : List Error)
    → All Lasts arrivals
    → exceeds cfg.max_build_records (length arrivals) ≡ false
    → length errors + bad_keys s arrivals ≤ s.err_cap
    → length (run_build_phase s cfg arrivals errors).err_chan ≡ length errors + bad_keys s arrivals
unfolding run_build_phase
run_build_phase_reports s cfg arrivals errors lasts fits room =
    (build_all-Gathers s cfg arrivals (start errors) lasts
      (record { none_stopped = refl; none_stuck = refl; no_error = refl })
      (subst (λ n. exceeds cfg.max_build_records n ≡ false) (omega arith) fits) room).reported
