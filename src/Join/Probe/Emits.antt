-- ===== src/Join/Probe/Emits.antt =====
-- What is sent where the context lasts.
use gxo.Prelude.{
  ℕ, ◌+◌, List, [], ◌∷◌, ◌++◌, map, Option, none, ◌≡◌, refl, ap, ◌∙◌, arith, append_assoc,
  append-nil, length, length-append,
}
use gxo.Prelude.Dict.{Dict}
use gxo.Errors.{Error}
use gxo.Join.Defs.{Record, BuildEntry, ModuleConfig}
use gxo.Join.Combine.{Combination, get_combinations, construct_joined_record}
use gxo.Join.Probe.{Sink, send_all, emit_each, emit_joined_records}

-- Each of the output channels gets the records, in their order, and they are counted.
pub record Emits (rs : List Record) (k k' : Sink) : Type 0 where
  pub sent : k'.outputs ≡ map (λ out. out ++ rs) k.outputs
  pub joined : k'.records_joined ≡ k.records_joined + length rs

map_nothing : (outs : List (List Record)) → outs ≡ map (λ out. out ++ []) outs
map_nothing [] = refl
map_nothing (out ∷ outs) = cc (map_nothing outs, append-nil out)

map_both :
    (xs ys : List Record) (outs : List (List Record))
    → map (λ out. out ++ ys) (map (λ out. out ++ xs) outs) ≡ map (λ out. out ++ (xs ++ ys)) outs
map_both xs ys [] = refl
map_both xs ys (out ∷ outs) = cc (map_both xs ys outs, append_assoc out xs ys)

pub Emits-nothing :
    (k k' : Sink) → k'.outputs ≡ k.outputs → k'.records_joined ≡ k.records_joined → Emits [] k k'
Emits-nothing k k' same count = record { sent = same ∙ map_nothing k.outputs; joined = omega arith }

pub Emits-append :
    (xs ys : List Record) (k l m : Sink) → Emits xs k l → Emits ys l m → Emits (xs ++ ys) k m
Emits-append xs ys k l m e f = record {
  sent = f.sent ∙ ap (map (λ out. out ++ ys)) e.sent ∙ map_both xs ys k.outputs;
  joined = omega (arith, e.joined, f.joined, length-append xs ys);
}

module _ (ended : ℕ → Option Error) (lasts : (t : ℕ) → ended t ≡ none) where
  send_all_lasts :
      (r : Record) (outs : List (List Record)) (asked : ℕ)
      → ((send_all ended r outs asked).0 ≡ map (λ out. out ++ r ∷ []) outs)
        × ((send_all ended r outs asked).2 ≡ none)
  unfolding send_all
  send_all_lasts r [] asked = (refl, refl)
  send_all_lasts r (out ∷ outs) asked =
      let (sent, none_ended) = send_all_lasts r outs (asked + 1) in
      rw (lasts asked, send_all) (ap (λ os. (out ++ r ∷ []) ∷ os) sent, none_ended)

  pub emit_each-Emits :
      (cfg : ModuleConfig) (combos : List Combination) (k : Sink)
      → ((emit_each ended cfg combos k).1 ≡ none)
        × Emits (map (construct_joined_record cfg) combos) k (emit_each ended cfg combos k).0
  unfolding emit_each
  emit_each-Emits cfg [] k = (refl, Emits-nothing k k refl refl)
  emit_each-Emits cfg (combo ∷ combos) k =
      let joined = construct_joined_record cfg combo in
      let (sent, none_ended) = send_all_lasts joined k.outputs k.asked in
      let (outs, asked, e) = send_all ended joined k.outputs k.asked in
      let k' : Sink = record {
        outputs = outs;
        asked = asked;
        records_joined = k.records_joined + 1;
      } in
      let (on, rest) = emit_each-Emits cfg combos k' in
      let first : Emits (joined ∷ []) k k' = record { sent = sent; joined = omega arith } in
      rw (none_ended, emit_each)
        (
          on,
          Emits-append (joined ∷ []) (map (construct_joined_record cfg) combos) k k'
              (emit_each ended cfg combos k').0 first rest,
        )

  -- What is sent for a record of the probe stream, or for none, with what is found.
  pub emit_joined_records-Emits :
      (cfg : ModuleConfig) (probe : Option Record) (streams : Dict (List BuildEntry)) (k : Sink)
      → ((emit_joined_records ended cfg probe streams k).1 ≡ none)
        × Emits
            (map (construct_joined_record cfg) (get_combinations cfg probe streams))
            k
            (emit_joined_records ended cfg probe streams k).0
  unfolding emit_joined_records
  emit_joined_records-Emits cfg probe streams k =
      emit_each-Emits cfg (get_combinations cfg probe streams) k
