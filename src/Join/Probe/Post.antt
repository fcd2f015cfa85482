-- ===== src/Join/Probe/Post.antt =====
-- The phase after the probe, where the context lasts.
use Prim.Native.Nat.{Ordering}
use Prim.Native.String.{String, compare}
use gxo.Prelude.{
  ℕ, Bool, true, false, List, [], ◌∷◌, ◌++◌, map, Option, none, some, ◌≡◌, refl, ap, ◌∙◌, subst,
  arith, if◌then◌else◌, All, All-map, ◌≢◌, Bool-cases, inl, inr,
}
use gxo.Prelude.Dict.{Dict}
use gxo.Value.{Value}
use gxo.Errors.{Error}
use gxo.Join.Keys.{Key, key_eq_iff}
use gxo.Join.Defs.{Record, BuildEntry, ModuleConfig}
use gxo.Join.Combine.{get_combinations, construct_joined_record}
use gxo.Join.Build.{get_key, BuildMap, Setting}
use gxo.Join.Probe.{
  Sink, key_was_matched, emit_joined_records, or_empty, after_unmatched, post_probe_key, ask_sink,
  keeps_build, post_probe_keys, post_probe_sorted, run_post_probe_phase, sort_keys, insert_key,
  key_value, map_keys,
}
use gxo.Join.Probe.Emits.{Emits, Emits-nothing, Emits-append, emit_joined_records-Emits}
use gxo.Join.Probe.Marks.{marked, key_was_matched-mark}
use gxo.Join.Probe.Fresh.{IsFreshAt}

-- The records that the entries of a key give without a record of the probe stream.
abbrev pub joined_alone : ModuleConfig → Option (Dict (List BuildEntry)) → List Record
joined_alone cfg o = map (construct_joined_record cfg) (get_combinations cfg none (or_empty o))

-- Those of the keys in the list that `hit` does not hold of.
abbrev pub joined_unmatched : ModuleConfig → (Key → Bool) → BuildMap → List Key → List Record
joined_unmatched cfg hit m [] = []
joined_unmatched cfg hit m (k ∷ keys) =
    (if hit k then [] else joined_alone cfg (get_key k m)) ++ joined_unmatched cfg hit m keys

All-insert_key :
    (P : Key → Type 0) (print : Value → String) (k : Key) (keys : List Key)
    → P k
    → All P keys
    → All P (insert_key print k keys)
unfolding insert_key
All-insert_key P print k [] h hs = (h, hs)
All-insert_key P print k (j ∷ keys) h (hj, hs) =
    elim (compare (print (key_value j)) (print (key_value k)))
      as (λ o. All P (elim o [ Ordering.lt ↦ j ∷ insert_key print k keys | _ ↦ k ∷ j ∷ keys ])) [
        | Ordering.lt ↦ (hj, All-insert_key P print k keys h hs)
        | Ordering.eq ↦ (h, (hj, hs))
        | Ordering.gt ↦ (h, (hj, hs))
      ]

All-sort_keys :
    (P : Key → Type 0) (print : Value → String) (keys : List Key)
    → All P keys
    → All P (sort_keys print keys)
unfolding sort_keys
All-sort_keys P print [] hs = hs
All-sort_keys P print (k ∷ keys) (h, hs) =
    All-insert_key P print k (sort_keys print keys) h (All-sort_keys P print keys hs)

-- Each key of the map is mapped to something.
keys_found : (m : BuildMap) → All (λ k. get_key k m ≢ none) (map_keys m)
unfolding map_keys get_key
keys_found [] = tt
keys_found ((j, streams) ∷ m) = (
  here,
  All-map {Q = λ k. get_key k ((j, streams) ∷ m) ≢ none} (map_keys m) behind (keys_found m),
)
  where
    here : get_key j ((j, streams) ∷ m) ≢ none
    here q = ground (arith, key_eq_iff j j)

    behind : (k : Key) → get_key k m ≢ none → get_key k ((j, streams) ∷ m) ≢ none
    behind k h q = ground (arith, h)

module _ (ended : ℕ → Option Error) (lasts : (t : ℕ) → ended t ≡ none) (s : Setting)
    (cfg : ModuleConfig) where
  after_unmatched_lem :
      (x : Sink × Option Error) (rest : Sink → Sink × Option Error)
      → x.1 ≡ none
      → after_unmatched ended s x rest ≡ rest x.0
  unfolding after_unmatched
  after_unmatched_lem (k, none) rest h = refl
  after_unmatched_lem (k, some e) rest h = cc

  abbrev Gives : List Record → Sink → Sink × Option Error → Type 0
  Gives out k x = (x.1 ≡ none) × Emits out k x.0

  post_probe_key-Gives :
      (streams : Dict (List BuildEntry)) (out : List Record) (rest : Sink → Sink × Option Error)
      → (o : Option Error) → o ≡ none
      → (k : Sink) → ((k' : Sink) → Gives out k' (rest k'))
      → Gives
          ((if key_was_matched streams
              then []
              else map (construct_joined_record cfg) (get_combinations cfg none streams))
            ++ out)
          k
          (post_probe_key ended s cfg streams o k rest)
  unfolding post_probe_key
  post_probe_key-Gives streams out rest (some e) h k ih = cc
  post_probe_key-Gives streams out rest none h k ih = elim (Bool-cases (key_was_matched streams)) [
    | inl hit ↦ rw hit (ih k)
    | inr missed ↦
        let (on, emits) = emit_joined_records-Emits ended lasts cfg none streams k in
        let x = emit_joined_records ended cfg none streams k in
        let (on', emits') = ih x.0 in
        rw (missed, after_unmatched_lem x rest on)
          (
            on',
            Emits-append (map (construct_joined_record cfg) (get_combinations cfg none streams)) out
                k x.0 (rest x.0).0 emits emits',
          )
  ]

  post_probe_keys-Gives :
      (m : BuildMap) (keys : List Key) (k : Sink)
      → Gives
          (joined_unmatched cfg (λ j. key_was_matched (or_empty (get_key j m))) m keys)
          k
          (post_probe_keys ended s cfg m keys k)
  unfolding post_probe_keys
  post_probe_keys-Gives m [] k = (refl, Emits-nothing k k refl refl)
  post_probe_keys-Gives m (key ∷ keys) k =
      let streams = or_empty (get_key key m) in
      let (on, emits) =
        post_probe_key-Gives streams
          (joined_unmatched cfg (λ j. key_was_matched (or_empty (get_key j m))) m keys)
          (post_probe_keys ended s cfg m keys) (ended k.asked) (lasts k.asked) (ask_sink k)
          (post_probe_keys-Gives m keys) in
      (on, record { sent = emits.sent; joined = emits.joined })

  -- The keys are those of another map, whose entries are marked where `hit` holds.
  joined_unmatched-marked :
      (hit : Key → Bool) (m m' : BuildMap)
      → ((k : Key) → IsFreshAt (get_key k m))
      → ((k : Key) → get_key k m' ≡ (if hit k then marked (get_key k m) else get_key k m))
      → (keys : List Key) → All (λ k. get_key k m ≢ none) keys
      → joined_unmatched cfg (λ j. key_was_matched (or_empty (get_key j m'))) m' keys
        ≡ joined_unmatched cfg hit m keys
  joined_unmatched-marked hit m m' fresh found [] there = refl
  joined_unmatched-marked hit m m' fresh found (k ∷ keys) (here, there) = cc (
    one (hit k) (get_key k m) (get_key k m') here (fresh k) (found k),
    joined_unmatched-marked hit m m' fresh found keys there,
  )
    where
      one :
          (b : Bool) (o o' : Option (Dict (List BuildEntry)))
          → o ≢ none
          → IsFreshAt o
          → o' ≡ (if b then marked o else o)
          → (if key_was_matched (or_empty o') then [] else joined_alone cfg o')
            ≡ (if b then [] else joined_alone cfg o)
      one b none o' h f same = absurd (h refl)
      one true (some streams) o' h (f, e) same = rw (same, key_was_matched-mark streams, e) refl
      one false (some streams) o' h (f, e) same = rw (same, f) refl

  pub run_post_probe_phase-Gives :
      (hit : Key → Bool) (m m' : BuildMap) (k : Sink)
      → ((j : Key) → IsFreshAt (get_key j m))
      → ((j : Key) → get_key j m' ≡ (if hit j then marked (get_key j m) else get_key j m))
      → map_keys m' ≡ map_keys m
      → Gives
          (if keeps_build cfg
            then joined_unmatched cfg hit m (sort_keys s.print (map_keys m))
            else [])
          k
          (run_post_probe_phase ended s cfg m' k)
  unfolding run_post_probe_phase post_probe_sorted
  run_post_probe_phase-Gives hit m m' k fresh found same =
      by_type (keeps_build cfg) (ended k.asked) (lasts k.asked)
    where
      by_type :
          (b : Bool) (o : Option Error)
          → o ≡ none
          → Gives
              (if b then joined_unmatched cfg hit m (sort_keys s.print (map_keys m)) else [])
              k
              (if b then post_probe_sorted ended s cfg m' o (ask_sink k) else (k, none))
      by_type false o h = (refl, Emits-nothing k k refl refl)
      by_type true (some e) h = cc
      by_type true none h =
          let (on, emits) =
            post_probe_keys-Gives m' (sort_keys s.print (map_keys m')) (ask_sink k) in
          let list =
            ap
              (λ l.
                joined_unmatched cfg (λ j. key_was_matched (or_empty (get_key j m'))) m'
                  (sort_keys s.print l))
              same
            ∙ joined_unmatched-marked hit m m' fresh found (sort_keys s.print (map_keys m))
                (All-sort_keys (λ j. get_key j m ≢ none) s.print (map_keys m) (keys_found m)) in
          (
            on,
            subst
                (λ l.
                  Emits l k
                    (post_probe_keys ended s cfg m' (sort_keys s.print (map_keys m'))
                      (ask_sink k)).0)
                list (record { sent = emits.sent; joined = emits.joined }),
          )
