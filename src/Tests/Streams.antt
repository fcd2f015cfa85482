-- ===== src/Tests/Streams.antt =====
-- Writes on a channel that drops its oldest item.
use gxo.Prelude.{String, true, false, ◌≡◌, refl, [], ◌∷◌, none, some}
use gxo.Prelude.Int.{pos, is_negative}
use gxo.Value.{str}
use gxo.Config.{ChannelPolicy}
use gxo.Channels.{
  Record, ManagedChannel, returns, write, dropped_oldest, effective_policy, is_strategy,
}
use gxo.Channels.Writes.{effective_policy_sane}

abbrev policy : ChannelPolicy
policy = record { buffer_size = some (pos 2); overflow_strategy = "drop_oldest" }

abbrev item : String → Record
item s = ("line", str s) ∷ []

abbrev full : ManagedChannel
full = record {
  received = [];
  waiting = item "a" ∷ item "b" ∷ [];
  receivers = 0;
  capacity = 2;
  policy = record { buffer_size = pos 2; overflow_strategy = "drop_oldest" };
}

drops_the_oldest :
    write true none 0 0 (item "c") full
    ≡ returns (some dropped_oldest) (record full { waiting = item "b" ∷ item "c" ∷ [] })
unfolding write
drops_the_oldest = refl

-- The readers take one item before the oldest is dropped.
drops_what_is_left :
    write true none 1 0 (item "c") full
    ≡ returns
        (some dropped_oldest)
        (record full { received = item "a" ∷ []; waiting = item "c" ∷ [] })
unfolding write
drops_what_is_left = refl

effective_policy_sane_example :
    (is_strategy (effective_policy (some policy)).overflow_strategy ≡ true)
    × (is_negative (effective_policy (some policy)).buffer_size ≡ false)
effective_policy_sane_example = effective_policy_sane (some policy)
