-- ===== src/Channels/Sends.antt =====
-- What Write may do to a channel, and what sends and receives keep.
use gxo.Prelude.{
  ℕ, suc, ◌≤◌, ◌<◌, Bool, true, false, ◌≡◌, ◌⊎◌, inl, inr, refl, sym, ap, subst, ◌∙◌, List, [], ◌∷◌,
  ◌++◌, Option, none, some, arith, ◌==◌, length, length-append, append_assoc, append-nil, zero,
  String, ◌≢◌, if_true,
}
use gxo.Errors.{Error}
use gxo.Config.{overflow_drop_new, overflow_drop_oldest, overflow_error}
use gxo.Channels.{
  Record, ManagedChannel, Written, returns, blocks, has_room, send, send_to, receive_from,
  receive_times, try_send, dropped_new, dropped_oldest, channel_full, failed_to_drop,
}

-- No more waits in the buffer than it holds, and nothing while a receiver is blocked.
pub record IsSound (mc : ManagedChannel) : Type 0 where
  pub bounded : length mc.waiting ≤ mc.capacity
  pub prompt : 0 < mc.receivers → mc.waiting ≡ []

-- Everything that has gone into the channel and was not dropped, in its order.
abbrev pub stream : ManagedChannel → List Record
stream mc = mc.received ++ mc.waiting

-- The item is the newest of the stream, and nothing is lost.
abbrev pub IsSent : Record → ManagedChannel → Written → Type 0
IsSent item mc w =
    (after : ManagedChannel) × (w ≡ returns none after)
    × IsSound after
    × (stream after ≡ stream mc ++ item ∷ [])

-- The item is the newest of the stream, one that was not yet received is lost, and the error says so.
abbrev pub IsSentForOldest : Record → ManagedChannel → Written → Type 0
IsSentForOldest item mc w =
    (after : ManagedChannel) × (before : List Record) × (oldest : Record) × (rest : List Record)
    × (w ≡ returns (some dropped_oldest) after)
    × IsSound after
    × (stream mc ≡ before ++ oldest ∷ rest)
    × (length mc.received ≤ length before)
    × (stream after ≡ (before ++ rest) ++ item ∷ [])

-- The channel is as the readers have left it, and the error is `e`.
abbrev pub IsRefused : Error → ManagedChannel → Written → Type 0
IsRefused e mc w =
    (after : ManagedChannel) × (w ≡ returns (some e) after)
    × IsSound after
    × (stream after ≡ stream mc)

-- The error of a context that is done.
abbrev pub IsCancelled : Option Error → ManagedChannel → Written → Type 0
IsCancelled done mc w = (e : Error) × (done ≡ some e) × IsRefused e mc w

abbrev pub has_strategy : ManagedChannel → String → Bool
has_strategy mc strategy = mc.policy.overflow_strategy == strategy

-- A strategy other than the three that never block.
abbrev pub IsBlocking : ManagedChannel → Type 0
IsBlocking mc =
    (has_strategy mc overflow_drop_new ≡ false)
    × (has_strategy mc overflow_drop_oldest ≡ false)
    × (has_strategy mc overflow_error ≡ false)

-- What a call of Write on `mc` does, by the room and the strategy.
pub record Effect (done : Option Error) (early : ℕ) (item : Record) (mc : ManagedChannel)
    (w : Written) : Type 0 where
  pub with_room : has_room mc ≡ true → IsSent item mc w ⊎ (IsBlocking mc × IsCancelled done mc w)
  pub drops_new :
      has_room mc ≡ false
      → has_strategy mc overflow_drop_new ≡ true
      → w ≡ returns (some dropped_new) mc
  pub drops_oldest :
      has_room mc ≡ false
      → has_strategy mc overflow_drop_oldest ≡ true
      → ((receive_times early mc).waiting ≢ [] → IsSentForOldest item mc w)
        × ((receive_times early mc).waiting ≡ []
            → (has_room (receive_times early mc) ≡ true → IsSent item mc w ⊎ IsCancelled done mc w)
              × (has_room (receive_times early mc) ≡ false
                  → done ≡ none
                  → IsRefused failed_to_drop mc w)
              × (has_room (receive_times early mc) ≡ false
                  → (e : Error) → done ≡ some e
                  → IsRefused e mc w))
  pub refuses :
      has_room mc ≡ false
      → has_strategy mc overflow_error ≡ true
      → w ≡ returns (some channel_full) mc
  pub waits :
      has_room mc ≡ false
      → IsBlocking mc
      → (done ≡ none → w ≡ blocks) × ((e : Error) → done ≡ some e → w ≡ returns (some e) mc)

module _ (item : Record) where
  -- into the buffer, or to a blocked receiver
  send_cases :
      (mc : ManagedChannel)
      → ((mc.receivers ≡ 0) × (send item mc ≡ record mc { waiting = mc.waiting ++ item ∷ [] }))
        ⊎ ((n : ℕ) × (mc.receivers ≡ suc n)
            × (send item mc ≡ record mc { receivers = n; received = mc.received ++ item ∷ [] }))
  unfolding send
  send_cases mc = go mc.receivers refl
    where
      go :
          (n : ℕ)
          → mc.receivers ≡ n
          → ((mc.receivers ≡ 0)
              × (send_to n item mc ≡ record mc { waiting = mc.waiting ++ item ∷ [] }))
            ⊎ ((m : ℕ) × (mc.receivers ≡ suc m)
                × (send_to n item mc
                    ≡ record mc { receivers = m; received = mc.received ++ item ∷ [] }))
      go zero q = inl (q, unfold send_to in refl)
      go (suc m) q = inr (m, q, unfold send_to in refl)

  pub send-IsSound :
      (mc : ManagedChannel) → IsSound mc → has_room mc ≡ true → IsSound (send item mc)
  send-IsSound mc h room = elim (send_cases mc) [
    | inl (z, e) ↦ subst IsSound (sym e) (record {
      bounded = ground (arith, length-append mc.waiting (item ∷ []));
      prompt = λ p. absurd (omega (arith, p, z));
    })
    | inr (n, q, e) ↦
        subst IsSound (sym e)
          (record { bounded = h.bounded; prompt = λ p. h.prompt (omega (arith, q)) })
  ]

  pub stream-send :
      (mc : ManagedChannel) → IsSound mc → stream (send item mc) ≡ stream mc ++ item ∷ []
  stream-send mc h = elim (send_cases mc) [
    | inl (z, e) ↦ ap stream e ∙ sym (append_assoc mc.received mc.waiting (item ∷ []))
    | inr (n, q, e) ↦
        let none_waits : mc.waiting ≡ [] = h.prompt (omega (arith, q)) in
        ap stream e
        ∙ ap (λ w. (mc.received ++ item ∷ []) ++ w) none_waits
        ∙ append-nil (mc.received ++ item ∷ [])
        ∙ ap (λ r. r ++ item ∷ [])
            (sym (append-nil mc.received) ∙ ap (λ w. mc.received ++ w) (sym none_waits))
  ]

  pub try_send-IsSent :
      (mc : ManagedChannel) (otherwise : Written)
      → IsSound mc
      → has_room mc ≡ true
      → IsSent item mc (try_send item mc none otherwise)
  try_send-IsSent mc otherwise h room = (
    send item mc,
    if_true (has_room mc) (returns none (send item mc)) otherwise room,
    send-IsSound mc h room,
    stream-send mc h,
  )

  receive_from-IsSound :
      (xs : List Record) (mc : ManagedChannel)
      → mc.waiting ≡ xs
      → IsSound mc
      → IsSound (receive_from xs mc)
        × (stream (receive_from xs mc) ≡ stream mc)
        × (length mc.received ≤ length (receive_from xs mc).received)
        × (has_room mc ≡ true → has_room (receive_from xs mc) ≡ true)
  unfolding receive_from
  receive_from-IsSound [] mc q h =
      (record { bounded = h.bounded; prompt = λ p. q }, refl, omega arith, λ room. ground arith)
  receive_from-IsSound (x ∷ xs) mc q h = (
    record {
      bounded = omega (arith, h.bounded, ap length q);
      prompt = λ p. absurd (cc (h.prompt p, q));
    },
    append_assoc mc.received (x ∷ []) xs ∙ ap (λ ws. mc.received ++ ws) (sym q),
    omega (arith, length-append mc.received (x ∷ [])),
    λ room. ground (arith, h.bounded, ap length q),
  )

  pub receive_times-IsSound :
      (n : ℕ) (mc : ManagedChannel)
      → IsSound mc
      → IsSound (receive_times n mc)
        × (stream (receive_times n mc) ≡ stream mc)
        × (length mc.received ≤ length (receive_times n mc).received)
        × (has_room mc ≡ true → has_room (receive_times n mc) ≡ true)
  unfolding receive_times
  receive_times-IsSound zero mc h = (h, refl, omega arith, λ room. room)
  receive_times-IsSound (suc n) mc h =
      let (sound, same, more, room) = receive_from-IsSound mc.waiting mc refl h in
      let (sound', same', more', room') =
        receive_times-IsSound n (receive_from mc.waiting mc) sound in
      (sound', same' ∙ same, omega (arith, more, more'), λ r. room' (room r))
