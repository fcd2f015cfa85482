-- ===== src/Tests/Topologies.antt =====
-- The channels of the sample playbook.
use gxo.Prelude.{[], ◌∷◌, none, ◌≡◌, refl, IsNodup, contains, length}
use gxo.Prelude.Dict.{get, put, keys}
use gxo.Errors.{ok}
use gxo.Channels.{effective_policy}
use gxo.Channels.Topology.{
  ChannelManager, new_channel_manager, new_channel, create_channels, or_nothing, or_zero,
  get_producer_wait_group, get_output_managed_channels,
}
use gxo.Channels.Topology.Balances.{signals}
use gxo.Channels.Topology.Counts.{create_channels_balances}
use gxo.Tests.Samples.{sample_dag}

abbrev wired : ChannelManager
wired = record {
  default_policy = effective_policy none;
  pool = new_channel (effective_policy none) ∷ [];
  producer_channels = ("t0", 0 ∷ []) ∷ [];
  consumer_producer_to_channel = ("t1", ("t0", 0) ∷ []) ∷ [];
  producer_wait_groups = ("t0", 1) ∷ [];
  consumer_to_producer_wgs = ("t1", "t0" ∷ []) ∷ [];
}

creates : create_channels sample_dag (new_channel_manager none) ≡ ok wired
unfolding create_channels new_channel_manager get put
creates = refl

distinct : IsNodup (keys sample_dag.nodes)
unfolding keys contains
distinct = (refl, (refl, (refl, tt)))

create_channels_balances_example :
    (or_zero (get_producer_wait_group "t0" wired)
      ≡ length (or_nothing (get_output_managed_channels "t0" wired)))
    × (or_zero (get_producer_wait_group "t0" wired) ≡ signals "t0" wired.consumer_to_producer_wgs)
create_channels_balances_example =
    create_channels_balances sample_dag (new_channel_manager none) wired creates distinct "t0"
