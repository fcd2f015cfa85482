-- ===== src/Channels/Topology/Balances.antt =====
-- The counters, channels and signals of one producer, and how one more connection changes them.
use Prim.Native.String.{String}
use gxo.Prelude.{
  ℕ, ◌+◌, List, [], ◌∷◌, ◌++◌, none, ◌≡◌, ap, ◌∙◌, sym, arith, if◌then◌else◌, if_true, if_false,
  ◌==◌, eq_iff, length, length-append, Bool-cases, inl, inr,
}
use gxo.Prelude.Dict.{Dict, get, put, get-put}
use gxo.Channels.Topology.{ChannelManager, or_nothing, or_zero, connect, start_consumer}

abbrev pub count : String → List String → ℕ
count p [] = 0
count p (q ∷ qs) = (if q == p then 1 else 0) + count p qs

count-append : (p : String) (xs ys : List String) → count p (xs ++ ys) ≡ count p xs + count p ys
count-append p [] ys = omega arith
count-append p (x ∷ xs) ys = omega (arith, count-append p xs ys)

-- How often the consumers together signal to a producer.
abbrev pub signals : String → Dict (List String) → ℕ
signals p [] = 0
signals p ((c, ps) ∷ m) = count p ps + signals p m

signals-put :
    (p c : String) (ps : List String) (m : Dict (List String))
    → signals p (put c ps m) + count p (or_nothing (get c m)) ≡ signals p m + count p ps
unfolding put get
signals-put p c ps [] = omega arith
signals-put p c ps ((d, qs) ∷ m) = elim (Bool-cases (d == c)) [
  | inl same ↦ rw same (omega arith)
  | inr other ↦ rw other (omega (arith, signals-put p c ps m))
]

-- For each producer: its counter, its channels and the signals that it will get are as many.
pub record Balances (cm : ChannelManager) : Type 0 where
  pub channels :
      (p : String)
      → or_zero (get p cm.producer_wait_groups) ≡ length (or_nothing (get p cm.producer_channels))
  pub signalled :
      (p : String) → or_zero (get p cm.producer_wait_groups) ≡ signals p cm.consumer_to_producer_wgs

-- The counter after one more Add, and the channels after one more append.
counter-put :
    (p q : String) (m : Dict ℕ)
    → or_zero (get p (put q (or_zero (get q m) + 1) m))
      ≡ or_zero (get p m) + (if q == p then 1 else 0)
counter-put p q m = elim (Bool-cases (q == p)) [
  | inl same ↦
      ap or_zero (get-put q p (or_zero (get q m) + 1) m ∙ if_true (q == p) _ _ same)
      ∙ ap (λ x. or_zero (get x m) + 1) ((eq_iff q p).0 same)
      ∙ ap (λ n. or_zero (get p m) + n) (sym (if_true (q == p) 1 0 same))
  | inr other ↦
      ap or_zero (get-put q p (or_zero (get q m) + 1) m ∙ if_false (q == p) _ _ other)
      ∙ omega (arith, if_false {A = ℕ} (q == p) 1 0 other)
]

channels-put :
    (p q : String) (n : ℕ) (m : Dict (List ℕ))
    → length (or_nothing (get p (put q (or_nothing (get q m) ++ n ∷ []) m)))
      ≡ length (or_nothing (get p m)) + (if q == p then 1 else 0)
channels-put p q n m = elim (Bool-cases (q == p)) [
  | inl same ↦
      ap (λ o. length (or_nothing o))
        (get-put q p (or_nothing (get q m) ++ n ∷ []) m ∙ if_true (q == p) _ _ same)
      ∙ length-append (or_nothing (get q m)) (n ∷ [])
      ∙ ap (λ x. length (or_nothing (get x m)) + 1) ((eq_iff q p).0 same)
      ∙ ap (λ k. length (or_nothing (get p m)) + k) (sym (if_true (q == p) 1 0 same))
  | inr other ↦
      ap (λ o. length (or_nothing o))
        (get-put q p (or_nothing (get q m) ++ n ∷ []) m ∙ if_false (q == p) _ _ other)
      ∙ omega (arith, if_false {A = ℕ} (q == p) 1 0 other)
]

pub connect-Balances :
    (c q : String) (cm : ChannelManager) → Balances cm → Balances (connect c q cm)
unfolding connect
connect-Balances c q cm b = record {
  channels = λ p. omega (
    arith,
    b.channels p,
    counter-put p q cm.producer_wait_groups,
    channels-put p q (length cm.pool) cm.producer_channels,
  );
  signalled = λ p.
      let old = or_nothing (get c cm.consumer_to_producer_wgs) in
      omega (
        arith,
        b.signalled p,
        counter-put p q cm.producer_wait_groups,
        signals-put p c (old ++ q ∷ []) cm.consumer_to_producer_wgs,
        count-append p old (q ∷ []),
      );
}

pub start_consumer-Balances :
    (c : String) (cm : ChannelManager)
    → get c cm.consumer_to_producer_wgs ≡ none
    → Balances cm
    → Balances (start_consumer c cm)
unfolding start_consumer
start_consumer-Balances c cm fresh b = record {
  channels = λ p. b.channels p;
  signalled = λ p. omega (
    arith,
    b.signalled p,
    signals-put p c [] cm.consumer_to_producer_wgs,
    ap (λ o. count p (or_nothing o)) fresh,
  );
}
