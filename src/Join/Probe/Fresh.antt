-- ===== src/Join/Probe/Fresh.antt =====
-- What the build phase leaves: under each key there is an entry, and none is marked.
use gxo.Prelude.{
  String, true, false, ◌||◌, List, [], ◌∷◌, ◌++◌, Option, none, some, ◌≡◌, refl, ap, ◌∙◌, arith,
  if_both, contains, ◌+◌, subst, ltb, length, Bool-cases, inl, inr, ◌==◌,
}
use gxo.Prelude.Dict.{Dict, get, put}
use gxo.Errors.{Error, Result, ok, err}
use gxo.Join.Keys.{Key, key_eq}
use gxo.Join.Defs.{Record, BuildEntry, ModuleConfig}
use gxo.Join.Combine.{or_nil}
use gxo.Join.Build.{
  Arrival, Building, Setting, get_key, BuildMap, append_entry, add_entry, report_key_error,
  take_key, count_record, has_failed, exceeds, set_once, limit_exceeded, build_step, build_all,
  run_build_phase,
}
use gxo.Join.Build.Entries.{unmatched, get_key-put_key}
use gxo.Join.Build.Phase.{key_of, counted}
use gxo.Join.Probe.{any_marked, key_was_matched}
use gxo.Join.Probe.Marks.{has_entry}

abbrev pub IsFreshAt : Option (Dict (List BuildEntry)) → Type 0
IsFreshAt none = Unit
IsFreshAt (some streams) = (key_was_matched streams ≡ false) × (has_entry streams ≡ true)

abbrev pub IsFresh : BuildMap → Type 0
IsFresh m = (k : Key) → IsFreshAt (get_key k m)

any_marked-snoc :
    (es : List BuildEntry) (r : Record) → any_marked (es ++ unmatched r ∷ []) ≡ any_marked es
unfolding any_marked
any_marked-snoc [] r = refl
any_marked-snoc (e ∷ es) r = ap (λ b. e.matched || b) (any_marked-snoc es r)

any_marked-get :
    (n : String) (streams : Dict (List BuildEntry))
    → key_was_matched streams ≡ false
    → any_marked (or_nil (get n streams)) ≡ false
unfolding any_marked key_was_matched get
any_marked-get n [] h = refl
any_marked-get n ((j, es) ∷ streams) h = elim (Bool-cases (j == n)) [
  | inl same ↦ rw same (ground arith)
  | inr other ↦ rw other (any_marked-get n streams (ground arith))
]

put-unmarked :
    (n : String) (es : List BuildEntry) (streams : Dict (List BuildEntry))
    → any_marked es ≡ false
    → key_was_matched streams ≡ false
    → key_was_matched (put n es streams) ≡ false
unfolding key_was_matched put
put-unmarked n es [] h h' = ground arith
put-unmarked n es ((j, es') ∷ streams) h h' =
    ground (arith, put-unmarked n es streams h (ground arith))

behind :
    (j : String) (es : List BuildEntry) (streams : Dict (List BuildEntry))
    → has_entry streams ≡ true
    → has_entry ((j, es) ∷ streams) ≡ true
behind j [] streams h = h
behind j (e ∷ es) streams h = refl

put-has_entry :
    (n : String) (es : List BuildEntry) (r : Record) (streams : Dict (List BuildEntry))
    → has_entry (put n (es ++ unmatched r ∷ []) streams) ≡ true
unfolding put
put-has_entry n [] r [] = refl
put-has_entry n (e ∷ es) r [] = refl
put-has_entry n [] r ((j, es') ∷ streams) =
    if_both (λ x. has_entry x ≡ true) (j == n) _ _ refl
      (behind j es' _ (put-has_entry n [] r streams))
put-has_entry n (e ∷ es) r ((j, es') ∷ streams) =
    if_both (λ x. has_entry x ≡ true) (j == n) _ _ refl
      (behind j es' _ (put-has_entry n (e ∷ es) r streams))

append_entry-IsFresh :
    (n : String) (r : Record) (o : Option (Dict (List BuildEntry)))
    → IsFreshAt o
    → IsFreshAt (some (append_entry n (unmatched r) o))
unfolding append_entry key_was_matched any_marked
append_entry-IsFresh n r none h = (refl, refl)
append_entry-IsFresh n r (some streams) (h, h') = (
  put-unmarked n (or_nil (get n streams) ++ unmatched r ∷ []) streams
      (any_marked-snoc (or_nil (get n streams)) r ∙ any_marked-get n streams h) h,
  put-has_entry n (or_nil (get n streams)) r streams,
)

add_entry-IsFresh :
    (key : Key) (n : String) (r : Record) (m : BuildMap) → IsFresh m → IsFresh (add_entry key n r m)
unfolding add_entry
add_entry-IsFresh key n r m h k =
    let new = append_entry n (unmatched r) (get_key key m) in
    rw (get_key-put_key key k new m) (
      if_both IsFreshAt (key_eq key k) _ _ (append_entry-IsFresh n r (get_key key m) (h key)) (h k))

HasFresh : Building → Type 0
HasFresh b = IsFresh b.build_map

of_same_map : (b b' : Building) → b.build_map ≡ b'.build_map → HasFresh b → HasFresh b'
unfolding HasFresh
of_same_map b b' same h = subst IsFresh same h

of_add :
    (b : Building) (key : Key) (n : String) (r : Record)
    → HasFresh b
    → HasFresh (record b { build_map = add_entry key n r b.build_map })
unfolding HasFresh
of_add b key n r h = add_entry-IsFresh key n r b.build_map h

module _ (s : Setting) (cfg : ModuleConfig) where
  take_key-IsFresh :
      (a : Arrival) (r : Result Key) (b : Building) → HasFresh b → HasFresh (take_key s a r b)
  unfolding take_key report_key_error
  take_key-IsFresh a (err e) b h = if_both HasFresh a.ended_in_send _ _ (of_same_map b _ refl h) (
      if_both HasFresh (ltb (length b.err_chan) s.err_cap) _ _ (of_same_map b _ refl h)
        (of_same_map b _ refl h))
  take_key-IsFresh a (ok key) b h =
      if_both HasFresh a.ended_in_send _ _ (of_same_map b _ refl h)
        (of_add b key a.stream.stream_name a.record' h)

  build_step-IsFresh : (a : Arrival) (b : Building) → HasFresh b → HasFresh (build_step s cfg a b)
  unfolding build_step count_record
  build_step-IsFresh a b h =
      if_both HasFresh
        (contains a.stream.stream_name b.stopped || contains a.stream.stream_name b.stuck) _ _ h
        (if_both HasFresh (a.ended_before || has_failed b.build_err) _ _ h (
          if_both HasFresh (exceeds cfg.max_build_records (b.total_build_records + 1))
            (record (counted s b) { build_err = set_once b.build_err limit_exceeded }) _
            (of_same_map b _ refl h)
            (take_key-IsFresh a (key_of s a) (counted s b) (of_same_map b _ refl h))))

  build_all-IsFresh :
      (arrivals : List Arrival) (b : Building) → HasFresh b → HasFresh (build_all s cfg arrivals b)
  unfolding build_all
  build_all-IsFresh [] b h = h
  build_all-IsFresh (a ∷ arrivals) b h =
      build_all-IsFresh arrivals (build_step s cfg a b) (build_step-IsFresh a b h)

pub run_build_phase-IsFresh :
    (s : Setting) (cfg : ModuleConfig) (arrivals : List Arrival) (errors : List Error)
    → IsFresh (run_build_phase s cfg arrivals errors).build_map
unfolding run_build_phase get_key HasFresh
run_build_phase-IsFresh s cfg arrivals errors = build_all-IsFresh s cfg arrivals _ (λ k. tt)
