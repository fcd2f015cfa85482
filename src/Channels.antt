-- ===== src/Channels.antt =====
-- internal/engine/channel_manager.go: the channels between the tasks of a playbook. A channel is the
-- list of what waits in it with its capacity; a WaitGroup is its counter. The maps that hold pointers
-- to channels hold the channel's number in `pool` here, and those to WaitGroups the producer's id.
pub mod Sends
pub mod Drops
pub mod Writes
pub mod Topology
use gxo.Prelude.{
  ℕ, zero, suc, ◌+◌, String, Bool, true, false, List, [], ◌∷◌, ◌++◌, ◌||◌, Option, none, some,
  if◌then◌else◌, ltb, ◌==◌, length,
}
use gxo.Prelude.Dict.{Dict, get, put}
use gxo.Prelude.Int.{ℤ, pos, pos_part}
use gxo.Value.{Value}
use gxo.Errors.{Error, plain, policy_violation, Result, ok, err}
use gxo.Config.{
  ChannelPolicy, overflow_block, overflow_drop_new, overflow_drop_oldest, overflow_error,
}
use gxo.Dag.Defs.{Node, Dag}

-- The default policy of a manager, with its buffer size dereferenced.
pub record EffectivePolicy : Type 0 where
  pub buffer_size : ℤ
  pub overflow_strategy : String

-- if defaultPolicy.BufferSize != nil { … }
abbrev pub size_or : Option ℤ → ℤ → ℤ
size_or none n = n
size_or (some n) m = n

abbrev pub strategy_or : String → String → String
strategy_or s t = if s == "" then t else s

-- the cases of the switch on the strategy
unfoldable pub is_strategy : String → Bool
is_strategy s =
    s == overflow_block
    || (s == overflow_drop_new || (s == overflow_drop_oldest || s == overflow_error))

-- Negative sizes become 0 and unknown strategies become "block".
unfoldable pub sanitize : EffectivePolicy → EffectivePolicy
unfolding is_strategy
sanitize p = record {
  buffer_size = pos (pos_part p.buffer_size);
  overflow_strategy =
      if is_strategy p.overflow_strategy then p.overflow_strategy else overflow_block;
}

-- The policy of NewChannelManager.
unfoldable pub effective_policy : Option ChannelPolicy → EffectivePolicy
unfolding sanitize
effective_policy none =
    sanitize (record { buffer_size = pos 100; overflow_strategy = overflow_block })
effective_policy (some p) = sanitize (record {
  buffer_size = size_or p.buffer_size (pos 100);
  overflow_strategy = strategy_or p.overflow_strategy overflow_block;
})

-- map[string]interface{}
abbrev pub Record : Type 0
Record = Dict Value

-- `receivers` goroutines are blocked in a receive from the channel, and `received` is what has been
-- taken from it so far.
pub record ManagedChannel : Type 0 where
  pub received : List Record
  pub waiting : List Record
  pub receivers : ℕ
  pub capacity : ℕ
  pub policy : EffectivePolicy

-- What a call of Write does: it returns an error or nil, with the channel, or it blocks.
pub data Written : Type 0 where
  returns : Option Error → ManagedChannel → Written
  blocks : Written

abbrev pub dropped_new : Error
dropped_new = policy_violation "channel full, dropped new message (OverflowDropNew)"

abbrev pub dropped_oldest : Error
dropped_oldest = policy_violation "channel full, dropped oldest message (OverflowDropOldest)"

abbrev pub failed_to_drop : Error
failed_to_drop =
    policy_violation "channel full, failed to drop oldest and send new (OverflowDropOldest)"

abbrev pub channel_full : Error
channel_full = policy_violation "channel full, overflow strategy is 'error' (OverflowError)"

-- A send can go on without blocking: to a blocked receiver, or into the buffer.
abbrev pub has_room : ManagedChannel → Bool
has_room mc = ltb 0 mc.receivers || ltb (length mc.waiting) mc.capacity

unfoldable pub send_to : ℕ → Record → ManagedChannel → ManagedChannel
send_to zero item mc = record mc { waiting = mc.waiting ++ item ∷ [] }
send_to (suc n) item mc = record mc { receivers = n; received = mc.received ++ item ∷ [] }

unfoldable pub send : Record → ManagedChannel → ManagedChannel
unfolding send_to
send item mc = send_to mc.receivers item mc

-- case mc.channel <- data: return err; default: otherwise
abbrev pub try_send : Record → ManagedChannel → Option Error → Written → Written
try_send item mc e otherwise = if has_room mc then returns e (send item mc) else otherwise

-- record := <-channel, by a reader: it takes the oldest item, or it blocks.
unfoldable pub receive_from : List Record → ManagedChannel → ManagedChannel
receive_from [] mc = record mc { receivers = mc.receivers + 1 }
receive_from (oldest ∷ rest) mc = record mc {
  received = mc.received ++ oldest ∷ [];
  waiting = rest;
}

unfoldable pub receive_times : ℕ → ManagedChannel → ManagedChannel
unfolding receive_from
receive_times zero mc = mc
receive_times (suc n) mc = receive_times n (receive_from mc.waiting mc)

-- The last select of OverflowDropOldest: where both of its cases are ready, `sends_first` says which
-- one runs. `done` is the error of the context where that is done.
unfoldable pub retry_send : Bool → Option Error → Record → ManagedChannel → Written
unfolding send
retry_send sends_first none item mc = try_send item mc none (returns (some failed_to_drop) mc)
retry_send sends_first (some e) item mc =
    if sends_first then try_send item mc none (returns (some e) mc) else returns (some e) mc

-- The inner selects of OverflowDropOldest, by what waits. The lock keeps other writers out but no
-- readers: `later` of them receive between the drop and the send.
unfoldable pub drop_from : List Record → Bool → Option Error → ℕ → Record → ManagedChannel → Written
unfolding send receive_times retry_send
drop_from [] sends_first ended later item mc = retry_send sends_first ended item mc
drop_from (oldest ∷ rest) sends_first ended later item mc =
    let mc' = receive_times later (record mc { waiting = rest }) in
    try_send item mc' (some dropped_oldest) (
      returns
        (some (plain "internal channel error: failed to send immediately after dropping oldest"))
        mc')

-- `early` readers receive after the first send has found no room.
unfoldable pub drop_oldest : Bool → Option Error → ℕ → ℕ → Record → ManagedChannel → Written
unfolding drop_from receive_times
drop_oldest sends_first done early later item mc =
    let mc' = receive_times early mc in drop_from mc'.waiting sends_first done later item mc'

-- The default case: where both cases of its select are ready, `sends_first` says which one runs.
unfoldable pub block_on : Bool → Option Error → Record → ManagedChannel → Written
unfolding send
block_on sends_first done item mc = elim done [
  | none ↦ try_send item mc none blocks
  | some e ↦
      if sends_first then try_send item mc none (returns (some e) mc) else returns (some e) mc
]

-- Write
unfoldable pub write : Bool → Option Error → ℕ → ℕ → Record → ManagedChannel → Written
unfolding send drop_oldest block_on
write sends_first done early later item mc =
    let strategy = mc.policy.overflow_strategy in
    if strategy == overflow_drop_new
    then try_send item mc none (returns (some dropped_new) mc)
    else if strategy == overflow_drop_oldest
    then try_send item mc none (drop_oldest sends_first done early later item mc)
    else if strategy == overflow_error
    then try_send item mc none (returns (some channel_full) mc)
    else block_on sends_first done item mc
