-- ===== src/Join/Build/Phase.antt =====
-- What the build phase leaves, where the context lasts.
use gxo.Prelude.{
  ℕ, suc, ◌+◌, ◌≤◌, String, false, ◌&&◌, ◌||◌, List, [], ◌∷◌, ◌++◌, none, ◌≡◌, refl, ap, sym, ◌∙◌,
  subst, arith, if◌then◌else◌, if_true, ltb, length, length-append, All, contains, ◌==◌,
  append_assoc, append-nil,
}
use gxo.Prelude.Int.{ℤ, pos, negsuc}
use gxo.Errors.{Error, Result, ok, err, record_processing}
use gxo.Join.Keys.{Key, key_eq}
use gxo.Join.Defs.{BuildEntry, ModuleConfig}
use gxo.Join.Build.{
  Arrival, Building, Setting, exceeds, limit_exceeded, set_once, add_entry, extract_key,
  report_key_error, take_key, count_record, has_failed, build_step, build_all,
}
use gxo.Join.Build.Entries.{entries_at, unmatched, entries_at-add}

-- No goroutine has returned or waits, and no error is set.
pub record IsPlain (b : Building) : Type 0 where
  pub none_stopped : b.stopped ≡ []
  pub none_stuck : b.stuck ≡ []
  pub no_error : b.build_err ≡ none

-- The context lasts while the record is read and sent.
pub record Lasts (a : Arrival) : Type 0 where
  pub before : a.ended_before ≡ false
  pub in_send : a.ended_in_send ≡ false

-- One for a record whose key cannot be extracted.
abbrev pub bad : Result Key → ℕ
bad (err e) = 1
bad (ok key) = 0

-- The entry that a record makes for a key and a stream.
abbrev pub entry_for : Key → String → Arrival → Result Key → List BuildEntry
entry_for k n a (err e) = []
entry_for k n a (ok key) =
    if key_eq key k && a.stream.stream_name == n then unmatched a.record' ∷ [] else []

module _ (s : Setting) where
  abbrev pub key_of : Arrival → Result Key
  key_of a = extract_key s a.stream a.record'

  -- The records whose key cannot be extracted.
  abbrev pub bad_keys : List Arrival → ℕ
  bad_keys [] = 0
  bad_keys (a ∷ arrivals) = bad (key_of a) + bad_keys arrivals

  -- The entries of the records of a stream with a key, in the order in which they arrive.
  abbrev pub gathered : Key → String → List Arrival → List BuildEntry
  gathered k n [] = []
  gathered k n (a ∷ arrivals) = entry_for k n a (key_of a) ++ gathered k n arrivals

  -- How a state differs from the one before a record was taken in.
  pub record Took (a : Arrival) (r : Result Key) (b b' : Building) : Type 0 where
    pub plain : IsPlain b'
    pub total : b'.total_build_records ≡ b.total_build_records
    pub skipped : b'.records_skipped ≡ b.records_skipped + bad r
    pub reported : length b'.err_chan ≡ length b.err_chan + bad r
    pub added :
        (k : Key) (n : String)
        → entries_at k n b'.build_map ≡ entries_at k n b.build_map ++ entry_for k n a r

  take_ok :
      (a : Arrival) (key : Key) (b : Building)
      → Lasts a
      → take_key s a (ok key) b
        ≡ record b { build_map = add_entry key a.stream.stream_name a.record' b.build_map }
  unfolding take_key
  take_ok a key b l =
      ap
        (λ c.
          if c
          then record b { stopped = a.stream.stream_name ∷ b.stopped }
          else record b { build_map = add_entry key a.stream.stream_name a.record' b.build_map })
        l.in_send

  pub take_err :
      (a : Arrival) (e : Error) (b : Building)
      → Lasts a
      → take_key s a (err e) b ≡ (
          if ltb (length b.err_chan) s.err_cap
          then record b {
            records_skipped = b.records_skipped + 1;
            err_chan = b.err_chan ++ record_processing "stream:join" e ∷ [];
          }
          else record b {
            records_skipped = b.records_skipped + 1;
            stuck = a.stream.stream_name ∷ b.stuck;
          })
  unfolding take_key report_key_error
  take_err a e b l =
      let b' = record b { records_skipped = b.records_skipped + 1 } in
      ap
        (λ c.
          if c
          then record b' { stopped = a.stream.stream_name ∷ b.stopped }
          else if ltb (length b.err_chan) s.err_cap
          then record b' { err_chan = b.err_chan ++ record_processing "stream:join" e ∷ [] }
          else record b' { stuck = a.stream.stream_name ∷ b.stuck })
        l.in_send

  pub take_key-Took :
      (a : Arrival) (r : Result Key) (b : Building)
      → IsPlain b
      → Lasts a
      → length b.err_chan + bad r ≤ s.err_cap
      → Took a r b (take_key s a r b)
  take_key-Took a (ok key) b p l room =
      subst (Took a (ok key) b) (sym (take_ok a key b l)) (record {
        plain = record {
          none_stopped = p.none_stopped;
          none_stuck = p.none_stuck;
          no_error = p.no_error;
        };
        total = refl;
        skipped = omega arith;
        reported = omega arith;
        added = λ k n. entries_at-add k key n a.stream.stream_name a.record' b.build_map;
      })
  take_key-Took a (err e) b p l room =
      subst (Took a (err e) b)
        (sym (take_err a e b l ∙ if_true (ltb (length b.err_chan) s.err_cap) _ _ (ground arith)))
        (record {
          plain = record {
            none_stopped = p.none_stopped;
            none_stuck = p.none_stuck;
            no_error = p.no_error;
          };
          total = refl;
          skipped = refl;
          reported = length-append b.err_chan (record_processing "stream:join" e ∷ []);
          added = λ k n. sym (append-nil (entries_at k n b.build_map));
        })

  -- A round in a plain state goes on to the count.
  pub step_counts :
      (cfg : ModuleConfig) (a : Arrival) (b : Building)
      → IsPlain b
      → Lasts a
      → build_step s cfg a b ≡ count_record s cfg a b
  unfolding build_step contains
  step_counts cfg a b p l =
      ap
        (λ stopped.
          if contains a.stream.stream_name stopped || contains a.stream.stream_name b.stuck
          then b
          else if a.ended_before || has_failed b.build_err
          then b
          else count_record s cfg a b)
        p.none_stopped
      ∙ ap
          (λ stuck.
            if contains a.stream.stream_name stuck
            then b
            else if a.ended_before || has_failed b.build_err
            then b
            else count_record s cfg a b)
          p.none_stuck
      ∙ ap (λ c. if c || has_failed b.build_err then b else count_record s cfg a b) l.before
      ∙ ap (λ e. if has_failed e then b else count_record s cfg a b) p.no_error

  abbrev pub counted : Building → Building
  counted b = record b { total_build_records = b.total_build_records + 1 }

  pub step_within :
      (cfg : ModuleConfig) (a : Arrival) (b : Building)
      → IsPlain b
      → Lasts a
      → exceeds cfg.max_build_records (b.total_build_records + 1) ≡ false
      → build_step s cfg a b ≡ take_key s a (key_of a) (counted b)
  unfolding count_record
  step_within cfg a b p l within =
      step_counts cfg a b p l
      ∙ ap
          (λ c.
            if c
            then record (counted b) { build_err = set_once b.build_err limit_exceeded }
            else take_key s a (key_of a) (counted b))
          within

  -- What the whole run leaves.
  pub record Gathers (arrivals : List Arrival) (b b' : Building) : Type 0 where
    pub plain : IsPlain b'
    pub total : b'.total_build_records ≡ b.total_build_records + length arrivals
    pub skipped : b'.records_skipped ≡ b.records_skipped + bad_keys arrivals
    pub reported : length b'.err_chan ≡ length b.err_chan + bad_keys arrivals
    pub added :
        (k : Key) (n : String)
        → entries_at k n b'.build_map ≡ entries_at k n b.build_map ++ gathered k n arrivals

  pub exceeds_mono : (max : ℤ) (m n : ℕ) → m ≤ n → exceeds max n ≡ false → exceeds max m ≡ false
  unfolding exceeds
  exceeds_mono (pos max) m n h e = ground arith
  exceeds_mono (negsuc max) m n h e = refl

  pub build_all-Gathers :
      (cfg : ModuleConfig) (arrivals : List Arrival) (b : Building)
      → All Lasts arrivals
      → IsPlain b
      → exceeds cfg.max_build_records (b.total_build_records + length arrivals) ≡ false
      → length b.err_chan + bad_keys arrivals ≤ s.err_cap
      → Gathers arrivals b (build_all s cfg arrivals b)
  unfolding build_all
  build_all-Gathers cfg [] b ls p fits room = record {
    plain = p;
    total = omega arith;
    skipped = omega arith;
    reported = omega arith;
    added = λ k n. sym (append-nil (entries_at k n b.build_map));
  }
  build_all-Gathers cfg (a ∷ arrivals) b (l, ls) p fits room =
      let one =
        exceeds_mono cfg.max_build_records (b.total_build_records + 1)
          (b.total_build_records + suc (length arrivals)) (omega arith) fits in
      let b' = take_key s a (key_of a) (counted b) in
      let t =
        take_key-Took a (key_of a) (counted b)
          (record {
            none_stopped = p.none_stopped;
            none_stuck = p.none_stuck;
            no_error = p.no_error;
          })
          l (omega arith) in
      let g =
        build_all-Gathers cfg arrivals b' ls t.plain
          (subst (λ m. exceeds cfg.max_build_records m ≡ false) (omega (arith, t.total)) fits)
          (omega (arith, t.reported)) in
      subst (λ x. Gathers (a ∷ arrivals) b (build_all s cfg arrivals x))
        (sym (step_within cfg a b p l one))
        (record {
          plain = g.plain;
          total = omega (arith, g.total, t.total);
          skipped = omega (arith, g.skipped, t.skipped);
          reported = omega (arith, g.reported, t.reported);
          added = λ k n.
              g.added k n
              ∙ ap (λ x. x ++ gathered k n arrivals) (t.added k n)
              ∙ append_assoc (entries_at k n b.build_map) (entry_for k n a (key_of a))
                  (gathered k n arrivals);
        })
