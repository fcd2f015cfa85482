-- ===== src/Channels/Drops.antt =====
-- The selects of Write on a channel without room.
use gxo.Prelude.{
  ℕ, ◌≤◌, ◌<◌, Bool, true, false, ◌≡◌, ◌⊎◌, inl, inr, refl, sym, ap, ◌∙◌, List, [], ◌∷◌, ◌++◌,
  Option, none, some, arith, length, ◌≢◌, if◌then◌else◌, if_true, if_false,
}
use gxo.Errors.{Error}
use gxo.Channels.{
  Record, ManagedChannel, Written, returns, has_room, send, receive_times, retry_send, drop_from,
  try_send, dropped_oldest, failed_to_drop,
}
use gxo.Channels.Sends.{
  IsSound, stream, IsSent, IsSentForOldest, IsRefused, IsCancelled, send-IsSound, stream-send,
  try_send-IsSent, receive_times-IsSound,
}

module _ (item : Record) where
  -- The oldest item is dropped, and the new one is sent.
  dropped :
      (later : ℕ) (mc mc1 : ManagedChannel) (oldest : Record) (rest : List Record)
      (otherwise : Written)
      → IsSound mc1
      → stream mc1 ≡ stream mc
      → length mc.received ≤ length mc1.received
      → mc1.waiting ≡ oldest ∷ rest
      → IsSentForOldest item mc (
          try_send item
            (receive_times later (record mc1 { waiting = rest }))
            (some dropped_oldest)
            otherwise)
  dropped later mc mc1 oldest rest otherwise h same more w =
      let smaller : IsSound (record mc1 { waiting = rest }) = record {
        bounded = omega (arith, h.bounded, ap length w);
        prompt = λ p. absurd (cc (h.prompt p, w));
      } in
      let shorter : length rest < mc1.capacity = omega (arith, h.bounded, ap length w) in
      let (sound, kept, longer, room) =
        receive_times-IsSound item later (record mc1 { waiting = rest }) smaller in
      let mc2 = receive_times later (record mc1 { waiting = rest }) in
      let has : has_room mc2 ≡ true = room (ground (arith, shorter)) in
      (
        send item mc2,
        mc1.received,
        oldest,
        rest,
        if_true (has_room mc2) (returns (some dropped_oldest) (send item mc2)) otherwise has,
        send-IsSound item mc2 sound has,
        sym same ∙ ap (λ ws. mc1.received ++ ws) w,
        more,
        stream-send item mc2 sound ∙ ap (λ l. l ++ item ∷ []) kept,
      )

  -- A select of a send and the end of the context.
  abbrev select : Bool → ManagedChannel → Error → Written
  select sends_first mc e =
      if sends_first then try_send item mc none (returns (some e) mc) else returns (some e) mc

  pub select_with_room :
      (sends_first : Bool) (mc : ManagedChannel) (e : Error)
      → IsSound mc
      → has_room mc ≡ true
      → IsSent item mc (select sends_first mc e) ⊎ (select sends_first mc e ≡ returns (some e) mc)
  select_with_room true mc e h room = inl (try_send-IsSent item mc (returns (some e) mc) h room)
  select_with_room false mc e h room = inr refl

  pub select_full :
      (sends_first : Bool) (mc : ManagedChannel) (e : Error)
      → has_room mc ≡ false
      → select sends_first mc e ≡ returns (some e) mc
  select_full true mc e full = if_false (has_room mc) _ _ full
  select_full false mc e full = refl

  -- What the last select does on the channel that the readers have left.
  retried :
      (sends_first : Bool) (done : Option Error) (mc mc1 : ManagedChannel)
      → IsSound mc1
      → stream mc1 ≡ stream mc
      → (has_room mc1 ≡ true
          → IsSent item mc (retry_send sends_first done item mc1)
            ⊎ IsCancelled done mc (retry_send sends_first done item mc1))
        × (has_room mc1 ≡ false
            → done ≡ none
            → IsRefused failed_to_drop mc (retry_send sends_first done item mc1))
        × (has_room mc1 ≡ false
            → (e : Error) → done ≡ some e
            → IsRefused e mc (retry_send sends_first done item mc1))
  unfolding retry_send
  retried sends_first none mc mc1 h same = (
    λ room.
        let (after, is, sound, grown) =
          try_send-IsSent item mc1 (returns (some failed_to_drop) mc1) h room in
        inl (after, is, sound, grown ∙ ap (λ l. l ++ item ∷ []) same),
    λ full q. (mc1, if_false (has_room mc1) _ _ full, h, same),
    λ full e q. cc,
  )
  retried sends_first (some x) mc mc1 h same = (
    λ room. elim (select_with_room sends_first mc1 x h room) [
      | inl (after, is, sound, grown) ↦
          inl (after, is, sound, grown ∙ ap (λ l. l ++ item ∷ []) same)
      | inr is ↦ inr (x, refl, (mc1, is, h, same))
    ],
    λ full q. cc,
    λ full e q.
        let same_error : x ≡ e = cc in
        (
          mc1,
          select_full sends_first mc1 x full ∙ ap (λ y. returns (some y) mc1) same_error,
          h,
          same,
        ),
  )

  pub drop_from_lem :
      (xs : List Record) (sends_first : Bool) (done : Option Error) (later : ℕ)
      (mc mc1 : ManagedChannel)
      → IsSound mc1
      → stream mc1 ≡ stream mc
      → length mc.received ≤ length mc1.received
      → mc1.waiting ≡ xs
      → (mc1.waiting ≢ [] → IsSentForOldest item mc (drop_from xs sends_first done later item mc1))
        × (mc1.waiting ≡ []
            → (has_room mc1 ≡ true
                → IsSent item mc (drop_from xs sends_first done later item mc1)
                  ⊎ IsCancelled done mc (drop_from xs sends_first done later item mc1))
              × (has_room mc1 ≡ false
                  → done ≡ none
                  → IsRefused failed_to_drop mc (drop_from xs sends_first done later item mc1))
              × (has_room mc1 ≡ false
                  → (e : Error) → done ≡ some e
                  → IsRefused e mc (drop_from xs sends_first done later item mc1)))
  unfolding drop_from
  drop_from_lem [] sends_first ended later mc mc1 h same more q =
      (λ n. absurd (n q), λ z. retried sends_first ended mc mc1 h same)
  drop_from_lem (oldest ∷ rest) sends_first ended later mc mc1 h same more q =
      (λ n. dropped later mc mc1 oldest rest _ h same more q, λ z. absurd (cc (z, q)))
