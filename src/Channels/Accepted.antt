-- ===== src/Channels/Accepted.antt =====
-- What is right with a channel that is reported as ready, and the statuses of the loop over the channels.
use fabric_ops.Prelude.{
  ℕ, ◌<◌, String, Bool, true, List, [], ◌∷◌, Option, none, some, ◌+◌, ◌≡◌, ◌≢◌, refl, ◌∙◌, length,
  All, arith,
}
use fabric_ops.Prelude.Maps.{Map}
use fabric_ops.Text.{trim_space}
use fabric_ops.Topology.Lists.{append-empty}
use fabric_ops.Topology.Values.{orgs_by_name}
use fabric_ops.Api.Spec.{FabricNetwork, Org, Channel, ChannelOrg}
use fabric_ops.Api.Status.{OrgStatus}
use fabric_ops.Api.Network.{ChannelStatus}
use fabric_ops.Controller.Tasks.{Reply, problem, value, Gives}
use fabric_ops.Controller.Orgs.{all_orgs_ready}
use fabric_ops.Channels.Status.{
  ExternalOrgNames, desired_network_orderer_status, channel_org_statuses, first_messages,
  initial_channel_status, ready_orgs_by_name,
}
use fabric_ops.Channels.Messages.{All-append, Texts, Member, orgs-Texts, first-Texts}
use fabric_ops.Channels.Bootstrap.{ChannelTasks, reconcile_channel, reconcile_channels_from}
use fabric_ops.Channels.Ready.{ReadyOnly, reconcile_channel-ReadyOnly}
use fabric_ops.Channels.Kept.{SameChannel, reconcile_channel-Keeps}

-- The number of the peers that the organizations of a channel name.
abbrev pub named_peers : List ChannelOrg → ℕ
named_peers [] = 0
named_peers (o ∷ os) = length o.peers + named_peers os

Gives-both :
    {A W : Type 0} (P Q R : A → Type 0) (r : Reply A × W)
    → Gives P r
    → Gives Q r
    → ((a : A) → P a → Q a → R a)
    → Gives R r
Gives-both P Q R (problem text, w) h k f = tt
Gives-both P Q R (value a, w) h k f = f a h k

module _ (hash : String → String) (namespace_of : Org → String) where
  -- What a channel needs before it can be made.
  abbrev pub Bootable : FabricNetwork → Channel → Type 0
  Bootable net channel =
      (trim_space channel.name ≢ "")
      × (channel.orgs ≢ [])
      × (0 < (desired_network_orderer_status net).desired)
      × (net.spec.global.tls ≡ true)
      × All (Member hash namespace_of (orgs_by_name net)) channel.orgs

  channel_org_statuses-named_peers :
      (orgs : Map Org) (ready : Map Bool) (os : List ChannelOrg)
      → (channel_org_statuses hash namespace_of orgs ready os).2 ≡ named_peers os
  unfolding channel_org_statuses
  channel_org_statuses-named_peers orgs ready [] = refl
  channel_org_statuses-named_peers orgs ready (o ∷ os) =
      omega (arith, channel_org_statuses-named_peers orgs ready os)

  -- The status is of the channel: it has its name, wants all orderers of the network and all peers that the
  -- channel names, and is ready only if the channel could be made, all components were ready, and all that
  -- is wanted has joined.
  abbrev pub Reports : FabricNetwork → List OrgStatus → Channel → ChannelStatus → Type 0
  Reports net statuses channel s =
      (s.name ≡ channel.name)
      × (s.orderers.desired ≡ (desired_network_orderer_status net).desired)
      × (s.peers.desired ≡ named_peers channel.orgs)
      × ReadyOnly (Bootable net channel × (all_orgs_ready statuses ≡ true)) s

  -- The statuses are of the first channels, in their order, and of all of them where there is no error.
  abbrev pub StatusesOf :
      FabricNetwork → List OrgStatus → List Channel → List ChannelStatus → Option String → Type 0
  StatusesOf net statuses channels [] failure = failure ≡ none → channels ≡ []
  StatusesOf net statuses [] (s ∷ rest) failure = ⊥
  StatusesOf net statuses (channel ∷ channels) (s ∷ rest) failure =
      Reports net statuses channel s × StatusesOf net statuses channels rest failure

  module _ (names : ExternalOrgNames) (net : FabricNetwork) (statuses : List OrgStatus) where
    initial-Texts :
        (channel : Channel)
        → Texts (initial_channel_status hash namespace_of names net statuses channel).1
          × ((initial_channel_status hash namespace_of names net statuses channel).1 ≡ []
              → Bootable net channel)
    unfolding initial_channel_status
    initial-Texts channel =
        let first = first-Texts hash namespace_of net channel in
        let orgs =
          orgs-Texts hash namespace_of (orgs_by_name net) (ready_orgs_by_name statuses)
            channel.orgs in
        (
          All-append _ _ _ first.0 orgs.0,
          λ h.
              let parts = append-empty (first_messages hash namespace_of net channel) _ h in
              let (name, some_org, orderers, tls) = first.1 parts.0 in
              (name, some_org, orderers, tls, orgs.1 parts.1),
        )

    module _ {W : Type 0} (tasks : Channel → ChannelTasks W) where
      channel-Reports :
          (channel : Channel) (w : W)
          → Gives (Reports net statuses channel) (
              reconcile_channel
                (tasks channel)
                channel
                (all_orgs_ready statuses)
                (initial_channel_status hash namespace_of names net statuses channel)
                w)
      unfolding initial_channel_status
      channel-Reports channel w =
          let before = initial_channel_status hash namespace_of names net statuses channel in
          let texts = initial-Texts channel in
          let peers =
            channel_org_statuses-named_peers (orgs_by_name net) (ready_orgs_by_name statuses)
              channel.orgs in
          let r = reconcile_channel (tasks channel) channel (all_orgs_ready statuses) before w in
          Gives-both (SameChannel before.0)
            (ReadyOnly ((before.1 ≡ []) × (all_orgs_ready statuses ≡ true)))
            (Reports net statuses channel) r
            (reconcile_channel-Keeps (tasks channel) before.0 channel (all_orgs_ready statuses)
              before.0 before.1 (refl, refl, refl) w)
            (reconcile_channel-ReadyOnly (tasks channel) channel (all_orgs_ready statuses) before.0
              before.1 texts.0 w)
            (λ s same p. (
              same.0,
              same.1,
              same.2 ∙ peers,
              λ e. let found = p e in ((texts.1 found.0.0, found.0.1), found.1),
            ))

      add_status :
          (channel : Channel) (channels : List Channel) (first : Reply ChannelStatus × W)
          → Gives (Reports net statuses channel) first
          → let ran = λ (w : W).
            reconcile_channels_from hash namespace_of names tasks net statuses channels w in
            ((w : W) → StatusesOf net statuses channels (ran w).0.0 (ran w).0.1)
            → let all_ran = elim first.0 as (λ _. (List ChannelStatus × Option String) × W) [
              | problem text ↦ (([], some text), first.1)
              | value status ↦ ((status ∷ (ran first.1).0.0, (ran first.1).0.1), (ran first.1).1)
            ] in
              StatusesOf net statuses (channel ∷ channels) all_ran.0.0 all_ran.0.1
      add_status channel channels (problem text, v) h rest = λ e. absurd (cc)
      add_status channel channels (value status, v) h rest = (h, rest v)

      -- The statuses that the loop of reconcileChannels returns are of the first of the
      -- channels, in their order, and of all of them where there is no error. Each has the
      -- name of its channel and wants all orderers of the network and all peers that the
      -- channel names. A status that is ready is of a channel that can be made: it has a
      -- name and organizations, each of them one that the network declares and with peers on
      -- the channel, all of which it declares, the network has an orderer and TLS is on; all
      -- components of the network were ready; and all of its orderers and its peers, at
      -- least one of each, have joined, its external organizations and its Raft update are
      -- done, and it has no message.
      pub reconcile_channels_from-StatusesOf :
          (channels : List Channel) (w : W)
          → let ran =
              reconcile_channels_from hash namespace_of names tasks net statuses channels w in
            StatusesOf net statuses channels ran.0.0 ran.0.1
      unfolding reconcile_channels_from
      reconcile_channels_from-StatusesOf [] w = λ e. refl
      reconcile_channels_from-StatusesOf (channel ∷ channels) w =
          add_status channel channels
            (reconcile_channel (tasks channel) channel (all_orgs_ready statuses)
              (initial_channel_status hash namespace_of names net statuses channel) w)
            (channel-Reports channel w) (reconcile_channels_from-StatusesOf channels)
