-- ===== src/Topology/Channels/Members.antt =====
-- The members of a channel in which nothing is found.
use fabric_ops.Prelude.{
  ℕ, zero, suc, ◌<◌, String, Bool, true, List, [], ◌∷◌, some, ◌≡◌, ◌≢◌, All, arith, inl, inr,
  Option-cases,
}
use fabric_ops.Prelude.Maps.{Map, lookup}
use fabric_ops.Text.{◌<>◌, trim_space}
use fabric_ops.Topology.Text.{quote}
use fabric_ops.Topology.Values.{has, unknown_names, unknown_channel_peers, desired_peer_names}
use fabric_ops.Topology.Lists.{append-empty}
use fabric_ops.Topology.Channels.{
  peer_problems, known_org_problems, channel_org_problems, channel_orgs_problems,
}
use fabric_ops.Api.Spec.{PeerConfig, Org, ChannelOrg, Channel, FabricNetwork}

-- Every one of the peers is in the other list.
abbrev pub Within : List String → List String → Type 0
Within known = All λ p. has p known ≡ true

unknown_names-empty : (known ps : List String) → unknown_names known ps ≡ [] → Within known ps
unfolding unknown_names
unknown_names-empty known [] e = tt
unknown_names-empty known (p ∷ ps) e = ground (arith, unknown_names-empty known ps)

peer_problems-empty :
    (at : String) (n : ℕ) (peers unknown : List String)
    → peer_problems at n peers unknown ≡ []
    → (0 < n) × (peers ≢ []) × (unknown ≡ [])
unfolding peer_problems
peer_problems-empty at zero peers unknown e = ground (arith, e)
peer_problems-empty at (suc n) [] unknown e = ground (arith, e)
peer_problems-empty at (suc n) (p ∷ ps) [] e = ground arith
peer_problems-empty at (suc n) (p ∷ ps) (u ∷ us) e = ground (arith, e)

module _ (hash : String → String) (is_dns_label : String → Bool) (net : FabricNetwork) where
  -- The organization runs peers, and those are some of them.
  pub record Serves (org : Org) (peers : List String) : Type 0 where
    pub config : PeerConfig
    pub configured : org.peer ≡ some config
    pub instances : 0 < config.instances
    pub named : peers ≢ []
    pub within : Within (desired_peer_names hash org) peers

  known_org-Serves :
      (channel name : String) (org : Org) (peers : List String)
      → known_org_problems hash is_dns_label net channel name org peers ≡ []
      → Serves org peers
  unfolding known_org_problems unknown_channel_peers
  known_org-Serves channel name org peers e = elim (Option-cases org.peer) [
    | inl absent ↦ ground (arith, e, absent)
    | inr (config, present) ↦
        let found =
          peer_problems-empty ("channel " <> quote channel <> " org " <> quote name)
            config.instances peers (unknown_channel_peers hash org peers)
            (ground (arith, e, present)) in
        record {
          config = config;
          configured = present;
          instances = found.0;
          named = found.1;
          within = unknown_names-empty _ peers found.2;
        }
  ]

  -- A member of a channel is an organization of the network that runs the peers it names.
  abbrev pub Member : Map Org → ChannelOrg → Type 0
  Member orgs o = (org : Org) × (lookup (trim_space o.name) orgs ≡ some org) × Serves org o.peers

  channel_org-Member :
      (orgs : Map Org) (channel : String) (o : ChannelOrg)
      → channel_org_problems hash is_dns_label net orgs channel o ≡ []
      → Member orgs o
  unfolding channel_org_problems
  channel_org-Member orgs channel o e = elim (Option-cases (lookup (trim_space o.name) orgs)) [
    | inl absent ↦ ground (arith, e, absent)
    | inr (org, present) ↦ (
      org,
      present,
      known_org-Serves channel (trim_space o.name) org o.peers (ground (arith, e, present)),
    )
  ]

  pub channel_orgs-Member :
      (orgs : Map Org) (channel : Channel) (os : List ChannelOrg)
      → channel_orgs_problems hash is_dns_label net orgs channel os ≡ []
      → All (Member orgs) os
  unfolding channel_orgs_problems
  channel_orgs-Member orgs channel [] e = tt
  channel_orgs-Member orgs channel (o ∷ os) e =
      let last = append-empty _ (channel_orgs_problems hash is_dns_label net orgs channel os) e in
      let first =
        append-empty _ (channel_org_problems hash is_dns_label net orgs (trim_space channel.name) o)
          last.0 in
      (
        channel_org-Member orgs (trim_space channel.name) o first.1,
        channel_orgs-Member orgs channel os last.1,
      )
