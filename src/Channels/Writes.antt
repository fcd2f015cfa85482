-- ===== src/Channels/Writes.antt =====
-- What Write keeps and loses, by the strategy.
use gxo.Prelude.{true, false, ◌≡◌, inl, inr, refl, Option, none, some, Bool-cases}
use gxo.Prelude.Int.{is_negative}
use gxo.Config.{ChannelPolicy, overflow_block}
use gxo.Channels.{strategy_or, effective_policy, is_strategy}

-- Whatever policy it is given, a manager has a known strategy and a size that is not negative.
pub effective_policy_sane :
    (p : Option ChannelPolicy)
    → (is_strategy (effective_policy p).overflow_strategy ≡ true)
      × (is_negative (effective_policy p).buffer_size ≡ false)
unfolding effective_policy is_strategy
effective_policy_sane none = (refl, refl)
effective_policy_sane (some p) = (
  elim (Bool-cases (is_strategy (strategy_or p.overflow_strategy overflow_block))) [
    | inl known ↦ rw known known
    | inr other ↦ rw other refl
  ],
  refl,
)
