-- ===== src/Channels/Topology/Counts.antt =====
-- The counter of each WaitGroup, against the channels and the signals.
use Prim.Native.String.{String}
use gxo.Prelude.{
  false, List, [], ◌∷◌, ◌++◌, Option, none, some, ◌≡◌, refl, ◌∙◌, subst, arith, if_false, ◌==◌,
  eq_iff, length, All, IsNodup, contains,
}
use gxo.Prelude.Dict.{Dict, get, get-put, keys}
use gxo.Errors.{plain, Result, ok, err}
use gxo.Dag.Defs.{Node, Dag}
use gxo.Channels.Topology.{
  ChannelManager, or_nothing, or_zero, find_node_by_name, connect, connect_inputs, start_consumer,
  connect_node, connect_nodes, create_channels, get_producer_wait_group,
  get_output_managed_channels,
}
use gxo.Channels.Topology.Balances.{Balances, connect-Balances, signals, start_consumer-Balances}

-- No other consumer than `c` is touched.
abbrev Keeps : String → ChannelManager → ChannelManager → Type 0
Keeps c cm cm' =
    (d : String)
    → (c == d) ≡ false
    → get d cm'.consumer_to_producer_wgs ≡ get d cm.consumer_to_producer_wgs

module _ (dag : Dag) where
  connect_inputs-Balances :
      (c : String) (names : List String) (cm cm' : ChannelManager)
      → connect_inputs dag c names cm ≡ ok cm'
      → Balances cm
      → Balances cm' × Keeps c cm cm'
  unfolding connect_inputs
  connect_inputs-Balances c [] cm cm' h b =
      let same : cm ≡ cm' = cc in (subst Balances same b, subst (Keeps c cm) same (λ d other. refl))
  connect_inputs-Balances c (name ∷ names) cm cm' h b =
      by_name (find_node_by_name dag name) h (λ q h'.
        connect_inputs-Balances c names (connect c q cm) cm' h' (connect-Balances c q cm b))
    where
      connect-Keeps : (q : String) → Keeps c cm (connect c q cm)
      connect-Keeps q d other =
          get-put c d (or_nothing (get c cm.consumer_to_producer_wgs) ++ q ∷ [])
            cm.consumer_to_producer_wgs
          ∙ if_false (c == d) _ _ other

      by_name :
          (o : Option Node)
          → elim o as (λ x. Result ChannelManager) [
            | none ↦ err (plain "consistency error: producer task not found in DAG")
            | some producer ↦ connect_inputs dag c names (connect c producer.id cm)
          ]
            ≡ ok cm'
          → ((q : String)
              → connect_inputs dag c names (connect c q cm) ≡ ok cm'
              → Balances cm' × Keeps c (connect c q cm) cm')
          → Balances cm' × Keeps c cm cm'
      by_name none q ih = cc
      by_name (some producer) q ih =
          let (bal, keeps) = ih producer.id q in
          (bal, λ d other. keeps d other ∙ connect-Keeps producer.id d other)

  connect_node-Balances :
      (c : String) (names : List String) (cm cm' : ChannelManager)
      → connect_node dag c names cm ≡ ok cm'
      → get c cm.consumer_to_producer_wgs ≡ none
      → Balances cm
      → Balances cm' × Keeps c cm cm'
  unfolding connect_node
  connect_node-Balances c [] cm cm' h fresh b =
      let same : cm ≡ cm' = cc in (subst Balances same b, subst (Keeps c cm) same (λ d other. refl))
  connect_node-Balances c (name ∷ names) cm cm' h fresh b =
      let (bal, keeps) =
        connect_inputs-Balances c (name ∷ names) (start_consumer c cm) cm' h
          (start_consumer-Balances c cm fresh b) in
      (
        bal,
        λ d other.
            keeps d other
            ∙ get-put c d [] cm.consumer_to_producer_wgs
            ∙ if_false (c == d) _ _ other,
      )

  abbrev AreFresh : Dict Node → ChannelManager → Type 0
  AreFresh nodes cm = All (λ e. get e.0 cm.consumer_to_producer_wgs ≡ none) nodes

  still_fresh :
      (c : String) (nodes : Dict Node) (cm cm' : ChannelManager)
      → contains c (keys nodes) ≡ false
      → Keeps c cm cm'
      → AreFresh nodes cm
      → AreFresh nodes cm'
  unfolding contains keys
  still_fresh c [] cm cm' h keeps fresh = tt
  still_fresh c ((id, node) ∷ nodes) cm cm' h keeps (one, fresh) = (
    keeps id (ground (arith, eq_iff c id, eq_iff id c)) ∙ one,
    still_fresh c nodes cm cm' (ground arith) keeps fresh,
  )

  connect_nodes-Balances :
      (nodes : Dict Node) (cm cm' : ChannelManager)
      → connect_nodes dag nodes cm ≡ ok cm'
      → IsNodup (keys nodes)
      → AreFresh nodes cm
      → Balances cm
      → Balances cm'
  unfolding connect_nodes keys
  connect_nodes-Balances [] cm cm' h nodup fresh b = subst Balances (inner h) b
    where
      inner : ok cm ≡ ok cm' → cm ≡ cm'
      inner q = cc
  connect_nodes-Balances ((id, node) ∷ nodes) cm cm' h (new, nodup) (one, fresh) b =
      by_node (connect_node dag id node.task.stream_inputs cm) refl h (λ mid q q'.
        let (bal, keeps) = connect_node-Balances id node.task.stream_inputs cm mid q one b in
        connect_nodes-Balances nodes mid cm' q' nodup (still_fresh id nodes cm mid new keeps fresh)
          bal)
    where
      by_node :
          (r : Result ChannelManager)
          → connect_node dag id node.task.stream_inputs cm ≡ r
          → elim r as (λ x. Result ChannelManager) [
            | err e ↦ err e
            | ok mid ↦ connect_nodes dag nodes mid
          ]
            ≡ ok cm'
          → ((mid : ChannelManager)
              → connect_node dag id node.task.stream_inputs cm ≡ ok mid
              → connect_nodes dag nodes mid ≡ ok cm'
              → Balances cm')
          → Balances cm'
      by_node (err e) same q go = cc
      by_node (ok mid) same q go = go mid same q

-- Where CreateChannels succeeds on a graph whose nodes have distinct ids, the counter of the WaitGroup of each
-- producer is the number of its output channels, and also the number of times that it stands in the lists
-- of WaitGroups that the consumers signal when they end.
pub create_channels_balances :
    (dag : Dag) (cm cm' : ChannelManager)
    → create_channels dag cm ≡ ok cm'
    → IsNodup (keys dag.nodes)
    → (p : String)
    → (or_zero (get_producer_wait_group p cm')
        ≡ length (or_nothing (get_output_managed_channels p cm')))
      × (or_zero (get_producer_wait_group p cm') ≡ signals p cm'.consumer_to_producer_wgs)
unfolding create_channels get_producer_wait_group get_output_managed_channels get
create_channels_balances dag cm cm' h nodup p =
    let b =
      connect_nodes-Balances dag dag.nodes
        (record cm {
          pool = [];
          producer_channels = [];
          consumer_producer_to_channel = [];
          producer_wait_groups = [];
          consumer_to_producer_wgs = [];
        })
        cm' h nodup (all_fresh dag.nodes)
        (record { channels = λ p. refl; signalled = λ p. refl }) in
    (b.channels p, b.signalled p)
  where
    all_fresh : (nodes : Dict Node) → All (λ e. ◌≡◌ {A = Option (List String)} none none) nodes
    all_fresh [] = tt
    all_fresh (e ∷ nodes) = (refl, all_fresh nodes)
