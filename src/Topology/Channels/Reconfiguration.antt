-- ===== src/Topology/Channels/Reconfiguration.antt =====
-- The Raft update of a channel in which nothing is found.
use fabric_ops.Prelude.{
  ◌∙◌, any, Option, none, ℕ, ◌<◌, ◌≢◌, ap, sym, String, Bool, true, false, not, ◌||◌, List, [], ◌∷◌,
  ◌++◌, some, ◌≡◌, refl, ◌==◌, inl, inr, arith, eq_iff, Bool-cases,
}
use fabric_ops.Prelude.Maps.{lookup}
use fabric_ops.Text.{◌<>◌, trim_space, itoa}
use fabric_ops.Naming.{sanitize_name}
use fabric_ops.Topology.Values.{
  OrdererInstance, instances_of, desired_orderer_instances, network_uses_bft_orderers, orgs_by_name,
  orderer_consensus_type, bft,
}
use fabric_ops.Topology.Refs.{
  when, matches_orderer, any_matches, channel_orderer_ref_matches_any,
  validate_channel_artifact_ref, validate_optional_ref,
}
use fabric_ops.Topology.Lists.{append-empty, when-empty}
use fabric_ops.Topology.Channels.{
  is_ordering_org, raft_update_problems, validate_channel_raft_update,
}
use fabric_ops.Topology.Network.Orgs.{Among}
use fabric_ops.Topology.Channels.Instances.{Runs, instances-Runs, orgs-first}
use fabric_ops.Api.Spec.{
  ChannelOrdererRef, ChannelRaftUpdate, Channel, FabricNetwork, Org, OrdererGroup,
}

any_matches-Among :
    (ref : ChannelOrdererRef) (os : List OrdererInstance)
    → any_matches ref os ≡ true
    → (o : OrdererInstance) × Among o os × (matches_orderer ref o ≡ true)
unfolding any_matches
any_matches-Among ref [] e = ground (arith, e)
any_matches-Among ref (o ∷ os) e = elim (Bool-cases (matches_orderer ref o)) [
  | inl agrees ↦ (o, inl refl, agrees)
  | inr differs ↦
      let found = any_matches-Among ref os (ground (arith, e, differs)) in
      (found.0, inr found.1, found.2)
]

either_false : (a b : Bool) → a || b ≡ false → (a ≡ false) × (b ≡ false)
either_false a b e = ground arith

any-fails :
    {A : Type 0} (p : A → Bool) (x : A) (xs : List A) → any p xs ≡ false → Among x xs → p x ≡ false
any-fails p x [] e h = elim h [ ]
any-fails p x (y ∷ xs) e (inl same) = ap p same ∙ (either_false (p y) (any p xs) e).0
any-fails p x (y ∷ xs) e (inr later) = any-fails p x xs (either_false (p y) (any p xs) e).1 later

-- A reference that names an organization and an orderer agrees with what it names, and nothing else.
matches-names :
    (ref : ChannelOrdererRef) (o : OrdererInstance)
    → trim_space ref.org ≢ ""
    → trim_space ref.name ≢ ""
    → matches_orderer ref o ≡ true
    → (ref.org ≡ o.org.organization.name) × (ref.name ≡ o.name)
unfolding matches_orderer
matches-names ref o org name e = ground (
  arith,
  e,
  org,
  name,
  eq_iff (trim_space ref.org) "",
  eq_iff (trim_space ref.name) "",
  eq_iff ref.org o.org.organization.name,
  eq_iff ref.name o.name,
)

module _ (hash : String → String) (is_dns_label : String → Bool) (net : FabricNetwork) where
  -- An update that can be sent: it has an operation's name; the organization that is to send it has orderers; the
  -- orderer that it is sent to is the one of that name and counter in a group of an organization of that name;
  -- and no group that has an instance is of the consensus type BFT.
  pub record Sendable (op : ChannelRaftUpdate) : Type 0 where
    pub operation : is_dns_label op.operation_id ≡ true
    pub admin :
        (org : Org) × (lookup op.admin_org (orgs_by_name net) ≡ some org) × (org.orderers ≢ [])
    pub instance_of :
        (org : Org) × Among org net.spec.orgs
        × (org.organization.name ≡ op.admin_org)
        × ((g : OrdererGroup) × Among g org.orderers
            × ((i : ℕ) × (i < g.instances)
                × (op.orderer.name ≡ sanitize_name hash (g.prefix <> itoa i))))
    pub raft_only :
        (org : Org) (g : OrdererGroup)
        → Among org net.spec.orgs
        → Among g org.orderers
        → 0 < g.instances
        → orderer_consensus_type g.kind ≢ bft

  ordering_org :
      (name : String)
      → is_ordering_org hash is_dns_label net (orgs_by_name net) name ≡ true
      → (org : Org) × (lookup name (orgs_by_name net) ≡ some org) × (org.orderers ≢ [])
  unfolding is_ordering_org
  ordering_org name e = by_entry (lookup name (orgs_by_name net)) refl e
    where
      by_entry :
          (found : Option Org)
          → lookup name (orgs_by_name net) ≡ found
          → elim found as (λ _. Bool) [
            | none ↦ false
            | some o ↦ elim o.orderers [ [] ↦ false | _ ∷ _ ↦ true ]
          ]
            ≡ true
          → (org : Org) × (lookup name (orgs_by_name net) ≡ some org) × (org.orderers ≢ [])
      by_entry none same has = absurd (cc)
      by_entry (some org) same has = (org, same, some_group org.orderers has)
        where
          some_group :
              (groups : List OrdererGroup)
              → elim groups as (λ _. Bool) [ [] ↦ false | _ ∷ _ ↦ true ] ≡ true
              → groups ≢ []
          some_group [] has = λ e. absurd (cc)
          some_group (g ∷ groups) has = λ e. absurd (cc)

  no_bft :
      network_uses_bft_orderers hash net ≡ false
      → (org : Org) (g : OrdererGroup) → Among org net.spec.orgs
      → Among g org.orderers
      → 0 < g.instances
      → orderer_consensus_type g.kind ≢ bft
  unfolding network_uses_bft_orderers desired_orderer_instances
  no_bft e org g in_orgs in_groups some_instance is_bft =
      let found = orgs-first hash net.spec.orgs org g in_orgs in_groups some_instance in
      let fails =
        any-fails (λ (o : OrdererInstance). orderer_consensus_type o.group.kind == bft) found.0
          (instances_of hash net.spec.orgs) e found.2 in
      let holds =
        (eq_iff (orderer_consensus_type found.0.group.kind) bft).1
          (ap (λ (x : OrdererGroup). orderer_consensus_type x.kind) found.1 ∙ is_bft) in
      absurd (cc)

  matches_any-Among :
      (ref : ChannelOrdererRef)
      → channel_orderer_ref_matches_any hash net ref ≡ true
      → (o : OrdererInstance) × Among o (desired_orderer_instances hash net)
        × (matches_orderer ref o ≡ true)
  unfolding channel_orderer_ref_matches_any
  matches_any-Among ref e =
      any_matches-Among ref (desired_orderer_instances hash net) (ground (arith, e))

  right_orderer : (a b c : Bool) → not a || b || not c ≡ false → (a ≡ true) × (c ≡ true)
  right_orderer a b c e = ground arith

  runs :
      (o : OrdererInstance)
      → Among o (desired_orderer_instances hash net)
      → Runs hash net.spec.orgs o
  unfolding desired_orderer_instances
  runs = instances-Runs hash net.spec.orgs

  raft_update-Sendable :
      (path : String) (op : ChannelRaftUpdate)
      → trim_space op.orderer.org ≢ ""
      → trim_space op.orderer.name ≢ ""
      → raft_update_problems hash is_dns_label net path op ≡ []
      → Sendable op
  unfolding raft_update_problems
  raft_update-Sendable path op has_org has_name e =
      let bft =
        append-empty _
          (when (network_uses_bft_orderers hash net)
            (path <> " does not support BFT reconfiguration"))
          e in
      let orderer =
        append-empty _
          (when
            (not (op.orderer.org == op.admin_org)
              || op.orderer.name == ""
              || not (channel_orderer_ref_matches_any hash net op.orderer))
            (path <> " orderer must name an instance within adminOrg"))
          bft.0 in
      let admin =
        append-empty _
          (when (not (is_ordering_org hash is_dns_label net (orgs_by_name net) op.admin_org))
            (path <> " adminOrg must be a local ordering organization"))
          orderer.0 in
      let operation =
        append-empty
          (validate_channel_artifact_ref (path <> ".planRef") (some op.plan_ref)
            ++ validate_optional_ref (path <> ".signedUpdateRef") op.signed_update_ref)
          (when (not (is_dns_label op.operation_id))
            (path <> " operationID must be a non-empty DNS label"))
          admin.0 in
      let raft = when-empty _ _ bft.1 in
      let named = when-empty _ _ orderer.1 in
      let ordering = when-empty _ _ admin.1 in
      let label = when-empty _ _ operation.1 in
      let (same_org, some_instance) =
        right_orderer (op.orderer.org == op.admin_org) (op.orderer.name == "")
          (channel_orderer_ref_matches_any hash net op.orderer) named in
      let (o, here, agrees) = matches_any-Among op.orderer some_instance in
      let (in_orgs, in_groups, counted) = runs o here in
      let names = matches-names op.orderer o has_org has_name agrees in
      record {
        operation = ground (arith, label);
        admin = ordering_org op.admin_org (ground (arith, ordering));
        instance_of = (
          o.org,
          in_orgs,
          sym names.0 ∙ (eq_iff op.orderer.org op.admin_org).0 same_org,
          (o.group, in_groups, (counted.0, counted.1, names.1 ∙ counted.2)),
        );
        raft_only = no_bft raft;
      }

  -- When validateChannelRaftUpdate finds nothing in the Raft update of a channel whose
  -- orderer names an organization and an orderer that are not blank, its operation is named
  -- by a DNS label; the organization that orgsByName gives for its adminOrg has orderers;
  -- the network has an organization of the name adminOrg with an orderer group in which the
  -- name of the orderer is made from the prefix and a counter below the number of instances;
  -- and no orderer group that has an instance is of the consensus type BFT.
  pub validate_channel_raft_update-Sendable :
      (channel : Channel) (op : ChannelRaftUpdate)
      → channel.raft_update ≡ some op
      → trim_space op.orderer.org ≢ ""
      → trim_space op.orderer.name ≢ ""
      → validate_channel_raft_update hash is_dns_label net channel ≡ []
      → Sendable op
  unfolding validate_channel_raft_update
  validate_channel_raft_update-Sendable channel op has has_org has_name e =
      raft_update-Sendable ("channel " <> channel.name <> " raftUpdate") op has_org has_name
        (ground (arith, e, has))
