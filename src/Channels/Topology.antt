-- ===== src/Channels/Topology.antt =====
-- The ChannelManager of internal/engine/channel_manager.go: which channels and WaitGroups join the tasks.
pub mod Balances
pub mod Counts
use Prim.Native.String.{String}
use gxo.Prelude.{ℕ, ◌+◌, Bool, List, [], ◌∷◌, ◌++◌, Option, none, some, if◌then◌else◌, ◌==◌, length}
use gxo.Prelude.Dict.{Dict, get, put}
use gxo.Prelude.Int.{pos_part}
use gxo.Errors.{Error, plain, Result, ok, err}
use gxo.Config.{ChannelPolicy, Task}
use gxo.Dag.Defs.{Node, Dag}
use gxo.Channels.{EffectivePolicy, ManagedChannel, effective_policy}

-- `pool` holds the channels that have been made; a channel goes by its number there. A WaitGroup goes by
-- the producer that it belongs to, and is its counter.
pub record ChannelManager : Type 0 where
  pub default_policy : EffectivePolicy
  pub pool : List ManagedChannel
  pub producer_channels : Dict (List ℕ)
  pub consumer_producer_to_channel : Dict (Dict ℕ)
  pub producer_wait_groups : Dict ℕ
  pub consumer_to_producer_wgs : Dict (List String)

-- NewChannelManager
unfoldable pub new_channel_manager : Option ChannelPolicy → ChannelManager
unfolding effective_policy
new_channel_manager policy = record {
  default_policy = effective_policy policy;
  pool = [];
  producer_channels = [];
  consumer_producer_to_channel = [];
  producer_wait_groups = [];
  consumer_to_producer_wgs = [];
}

-- for _, node := range dag.Nodes { if node.Task.Name == name { return node, true } }
unfoldable pub find_in : Dict Node → String → Option Node
find_in [] name = none
find_in ((id, node) ∷ nodes) name = if node.task.name == name then some node else find_in nodes name

-- findNodeByName
unfoldable pub find_node_by_name : Dag → String → Option Node
unfolding find_in
find_node_by_name dag name = if name == "" then none else find_in dag.nodes name

-- A missing entry of a map, as its zero value.
abbrev pub or_nothing {ℓ} : {A : Type ℓ} → Option (List A) → List A
or_nothing none = []
or_nothing (some l) = l

abbrev pub or_zero : Option ℕ → ℕ
or_zero none = 0
or_zero (some n) = n

-- make(chan map[string]interface{}, bufferSize)
abbrev pub new_channel : EffectivePolicy → ManagedChannel
new_channel policy = record {
  received = [];
  waiting = [];
  receivers = 0;
  capacity = pos_part policy.buffer_size;
  policy = policy;
}

-- One producer of one consumer, from the WaitGroup on.
unfoldable pub connect : String → String → ChannelManager → ChannelManager
connect consumer producer cm = record cm {
  pool = cm.pool ++ new_channel cm.default_policy ∷ [];
  producer_channels =
      put producer (or_nothing (get producer cm.producer_channels) ++ length cm.pool ∷ [])
        cm.producer_channels;
  consumer_producer_to_channel =
      put consumer
        (put producer (length cm.pool) (or_nothing (get consumer cm.consumer_producer_to_channel)))
        cm.consumer_producer_to_channel;
  producer_wait_groups =
      put producer (or_zero (get producer cm.producer_wait_groups) + 1) cm.producer_wait_groups;
  consumer_to_producer_wgs =
      put consumer (or_nothing (get consumer cm.consumer_to_producer_wgs) ++ producer ∷ [])
        cm.consumer_to_producer_wgs;
}

-- for _, producerName := range consumerNode.Task.StreamInputs
unfoldable pub connect_inputs : Dag → String → List String → ChannelManager → Result ChannelManager
unfolding connect find_node_by_name
connect_inputs dag consumer [] cm = ok cm
connect_inputs dag consumer (name ∷ names) cm = elim (find_node_by_name dag name) [
  | none ↦ err (plain "consistency error: producer task not found in DAG")
  | some producer ↦ connect_inputs dag consumer names (connect consumer producer.id cm)
]

-- The maps of a consumer are made.
unfoldable pub start_consumer : String → ChannelManager → ChannelManager
start_consumer consumer cm = record cm {
  consumer_producer_to_channel = put consumer [] cm.consumer_producer_to_channel;
  consumer_to_producer_wgs = put consumer [] cm.consumer_to_producer_wgs;
}

-- The body of the loop over the nodes, by the stream inputs of the node.
unfoldable pub connect_node : Dag → String → List String → ChannelManager → Result ChannelManager
unfolding connect_inputs start_consumer
connect_node dag consumer [] cm = ok cm
connect_node dag consumer (name ∷ names) cm =
    connect_inputs dag consumer (name ∷ names) (start_consumer consumer cm)

-- for consumerID, consumerNode := range dag.Nodes
unfoldable pub connect_nodes : Dag → Dict Node → ChannelManager → Result ChannelManager
unfolding connect_node
connect_nodes dag [] cm = ok cm
connect_nodes dag ((id, node) ∷ nodes) cm = elim (connect_node dag id node.task.stream_inputs cm) [
  | err e ↦ err e
  | ok cm' ↦ connect_nodes dag nodes cm'
]

-- CreateChannels
unfoldable pub create_channels : Dag → ChannelManager → Result ChannelManager
unfolding connect_nodes
create_channels dag cm = connect_nodes dag dag.nodes (record cm {
  pool = [];
  producer_channels = [];
  consumer_producer_to_channel = [];
  producer_wait_groups = [];
  consumer_to_producer_wgs = [];
})

-- GetProducerWaitGroup, by its counter
unfoldable pub get_producer_wait_group : String → ChannelManager → Option ℕ
get_producer_wait_group id cm = get id cm.producer_wait_groups

-- GetConsumerProducerWaitGroups
unfoldable pub get_consumer_producer_wait_groups : String → ChannelManager → Option (List String)
get_consumer_producer_wait_groups id cm = get id cm.consumer_to_producer_wgs

-- GetInputChannelMap
unfoldable pub get_input_channel_map : String → ChannelManager → Option (Dict ℕ)
get_input_channel_map id cm = get id cm.consumer_producer_to_channel

-- GetOutputManagedChannels
unfoldable pub get_output_managed_channels : String → ChannelManager → Option (List ℕ)
get_output_managed_channels id cm = get id cm.producer_channels
