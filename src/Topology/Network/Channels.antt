-- ===== src/Topology/Network/Channels.antt =====
-- What a network without problems is, in its channels.
use fabric_ops.Prelude.{
  String, Bool, true, false, List, [], ◌∷◌, ◌++◌, ◌≡◌, ◌⊎◌, inl, inr, refl, ◌==◌, All, eq_iff,
  if◌then◌else◌,
}
use fabric_ops.Prelude.Maps.{Map, has_key, insert}
use fabric_ops.Text.{◌<>◌, trim_space}
use fabric_ops.Topology.Text.{quote}
use fabric_ops.Topology.Refs.{when}
use fabric_ops.Topology.External.{validate_channel_external_orgs}
use fabric_ops.Topology.Lists.{append-empty, when-empty, Distinct, Fresh, Fresh-insert}
use fabric_ops.Topology.Channels.{
  channel_problems, channel_orgs_problems, channels_from, local_org_names,
  validate_channel_raft_update,
}
use fabric_ops.Topology.Channels.Members.{Member, channel_orgs-Member}
use fabric_ops.Topology.Network.{final_scan, scan_channels, validate_fabric_network_topology}
use fabric_ops.Topology.Network.Parts.{validate-parts}
use fabric_ops.Api.Spec.{Org, Channel, FabricNetwork}

-- The names of the channels, less those that are blank.
abbrev pub declared_channels : List Channel → List String
declared_channels [] = []
declared_channels (c ∷ cs) =
    let rest = declared_channels cs in
    let name = trim_space c.name in if name == "" then rest else name ∷ rest

module _ (hash : String → String) (is_dns_label : String → Bool) (net : FabricNetwork) where
  -- The three parts of a channel's check that find nothing.
  pub record Sound (orgs : Map Org) (c : Channel) : Type 0 where
    pub members : All (Member hash is_dns_label net orgs) c.orgs
    pub external :
        validate_channel_external_orgs hash net c orgs
          (local_org_names hash is_dns_label net c.orgs)
        ≡ []
    pub raft : validate_channel_raft_update hash is_dns_label net c ≡ []

  channel-Sound :
      (orgs : Map Org) (c : Channel)
      → channel_problems hash is_dns_label net orgs c ≡ []
      → Sound orgs c
  unfolding channel_problems
  channel-Sound orgs c e =
      let external =
        validate_channel_external_orgs hash net c orgs
          (local_org_names hash is_dns_label net c.orgs) in
      let raft = validate_channel_raft_update hash is_dns_label net c in
      let last = append-empty _ raft e in
      let middle = append-empty _ external last.0 in
      let first =
        append-empty _ (channel_orgs_problems hash is_dns_label net orgs c c.orgs) middle.0 in
      record {
        members = channel_orgs-Member hash is_dns_label net orgs c c.orgs first.1;
        external = middle.1;
        raft = last.1;
      }

  -- A channel with a name is sound.
  abbrev pub SoundIfNamed : Map Org → Channel → Type 0
  SoundIfNamed orgs c = (trim_space c.name ≡ "") ⊎ Sound orgs c

  -- What is known before a list of channels in which nothing is found.
  Clear : Map Org → Map Channel → List Channel → Type 0
  Clear orgs seen cs =
      Fresh seen (declared_channels cs)
      × Distinct (declared_channels cs)
      × All (SoundIfNamed orgs) cs

  twice : String → String
  twice name = "channel " <> quote name <> " is declared more than once"

  round :
      (blank : Bool) (orgs : Map Org) (seen : Map Channel) (c : Channel) (names : List String)
      (rest : List String × Map Channel)
      → (if blank then rest else (
        when (has_key (trim_space c.name) seen) (twice (trim_space c.name))
            ++ channel_problems hash is_dns_label net orgs c
            ++ rest.0,
        rest.1,
      )).0
        ≡ []
      → (rest.0 ≡ [])
        × (Fresh (if blank then seen else insert (trim_space c.name) c seen) names
            → Fresh seen (if blank then names else trim_space c.name ∷ names)
              × (Distinct names → Distinct (if blank then names else trim_space c.name ∷ names)))
        × ((blank ≡ true) ⊎ Sound orgs c)
  round true orgs seen c names rest e = (e, λ fresh. (fresh, λ d. d), inl refl)
  round false orgs seen c names rest e =
      let last = append-empty _ rest.0 e in
      let first = append-empty _ (channel_problems hash is_dns_label net orgs c) last.0 in
      (
        last.1,
        λ fresh.
            let apart = Fresh-insert seen (trim_space c.name) c names fresh in
            (
              (
                when-empty (has_key (trim_space c.name) seen) (twice (trim_space c.name)) first.0,
                apart.0,
              ),
              λ d. (apart.1, d),
            ),
        inr (channel-Sound orgs c first.1),
      )

  channels-Clear :
      (orgs : Map Org) (cs : List Channel) (seen : Map Channel)
      → (channels_from hash is_dns_label net orgs seen cs).0 ≡ []
      → Clear orgs seen cs
  unfolding channels_from Clear twice
  channels-Clear orgs [] seen e = (tt, tt, tt)
  channels-Clear orgs (c ∷ cs) seen e =
      let name = trim_space c.name in
      let step = round (name == "") orgs seen c (declared_channels cs) _ e in
      let rest = channels-Clear orgs cs _ step.0 in
      let fresh = step.1 rest.0 in
      (
        fresh.0,
        fresh.1 rest.1,
        (
          elim step.2 [ inl blank ↦ inl ((eq_iff name "").0 blank) | inr sound ↦ inr sound ],
          rest.2,
        ),
      )

  -- When validateFabricNetworkTopology finds no problem, the names of the channels that are
  -- not blank are distinct, and each channel with a name is sound: each of its local
  -- organizations is one that the network declares, runs at least one peer, is given at
  -- least one, and is given only peers that it runs; and the checks of its external
  -- organizations and of its Raft update find nothing.
  pub channels-Sound :
      validate_fabric_network_topology hash is_dns_label net ≡ []
      → Distinct (declared_channels net.spec.channels)
        × All (SoundIfNamed (final_scan hash is_dns_label net).orgs) net.spec.channels
  unfolding scan_channels Clear
  channels-Sound e =
      let clear =
        channels-Clear (final_scan hash is_dns_label net).orgs net.spec.channels []
          (validate-parts hash is_dns_label net e).2 in
      (clear.1, clear.2)
