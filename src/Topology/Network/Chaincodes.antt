-- ===== src/Topology/Network/Chaincodes.antt =====
-- What a network without problems is, in its chaincodes.
use fabric_ops.Prelude.{
  String, Bool, true, false, not, ◌||◌, List, [], ◌∷◌, ◌++◌, some, ◌≡◌, inl, inr, subst, ◌==◌, All,
  arith, if◌then◌else◌, Option-cases,
}
use fabric_ops.Prelude.Maps.{Map, has_key, insert, lookup}
use fabric_ops.Text.{◌<>◌, trim_space}
use fabric_ops.Topology.Text.{quote}
use fabric_ops.Topology.Values.{has, chaincode_package_label}
use fabric_ops.Topology.Refs.{when}
use fabric_ops.Topology.Policies.{validate_chaincode_endorsement_policy_topology}
use fabric_ops.Topology.Chaincodes.{
  validate_chaincode_private_data_topology, validate_chaincode_couchdb_indexes,
}
use fabric_ops.Topology.Lists.{
  append-empty, when-empty, Distinct, Fresh, Fresh-insert, Apart, Apart-cons,
}
use fabric_ops.Topology.Network.{
  label_problems, package_problems, chaincode_problems, chaincodes_from, final_scan, scan_channels,
  validate_fabric_network_topology,
}
use fabric_ops.Topology.Network.Parts.{validate-parts}
use fabric_ops.Api.Spec.{Org, Channel, Chaincode, FabricNetwork}

-- Chaincodes that lack a name or a channel are passed over.
abbrev pub is_blank : Chaincode → Bool
is_blank cc = trim_space cc.name == "" || trim_space cc.channel == ""

abbrev pub chaincode_key : Chaincode → String
chaincode_key cc = trim_space cc.channel <> "/" <> trim_space cc.name

-- The chaincodes that are not passed over.
abbrev pub declared_chaincodes : List Chaincode → List Chaincode
declared_chaincodes [] = []
declared_chaincodes (cc ∷ ccs) =
    let rest = declared_chaincodes ccs in if is_blank cc then rest else cc ∷ rest

abbrev pub keys : List Chaincode → List String
keys [] = []
keys (cc ∷ ccs) = chaincode_key cc ∷ keys ccs

abbrev pub labels : List Chaincode → List String
labels [] = []
labels (cc ∷ ccs) = chaincode_package_label cc ∷ labels ccs

module _ (hash : String → String) (is_dns_label : String → Bool) (net : FabricNetwork) where
  -- A chaincode's channel is declared, and its policy and its collections name what it has.
  abbrev pub Deployable : Map Org → Map Channel → Chaincode → Type 0
  Deployable orgs channels cc =
      (c : Channel) × (lookup (trim_space cc.channel) channels ≡ some c)
      × (validate_chaincode_endorsement_policy_topology cc c orgs ≡ [])
      × (validate_chaincode_private_data_topology cc c orgs ≡ [])
      × (validate_chaincode_couchdb_indexes hash cc ≡ [])

  label-free :
      (label key : String) (used : Map String)
      → label_problems hash is_dns_label net label key (lookup label used) ≡ []
      → has_key label used ≡ false
  unfolding label_problems has_key
  label-free label key used e = elim (Option-cases (lookup label used)) [
    | inl absent ↦ ground (arith, absent)
    | inr (previous, present) ↦ ground (arith, e, present)
  ]

  package-checks :
      (orgs : Map Org) (cc : Chaincode) (c : Channel)
      → package_problems hash is_dns_label net orgs cc (some c) ≡ []
      → (validate_chaincode_endorsement_policy_topology cc c orgs ≡ [])
        × (validate_chaincode_private_data_topology cc c orgs ≡ [])
        × (validate_chaincode_couchdb_indexes hash cc ≡ [])
  unfolding package_problems
  package-checks orgs cc c h =
      let last = append-empty _ (validate_chaincode_couchdb_indexes hash cc) h in
      let first = append-empty _ (validate_chaincode_private_data_topology cc c orgs) last.0 in
      (first.0, first.1, last.1)

  package-Deployable :
      (orgs : Map Org) (channels : Map Channel) (cc : Chaincode)
      → package_problems hash is_dns_label net orgs cc (lookup (trim_space cc.channel) channels)
        ≡ []
      → not (has_key (trim_space cc.channel) channels) ≡ false
      → Deployable orgs channels cc
  unfolding has_key
  package-Deployable orgs channels cc e known =
      elim (Option-cases (lookup (trim_space cc.channel) channels)) [
        | inl absent ↦ ground (arith, known, absent)
        | inr (c, present) ↦
            let checks =
              package-checks orgs cc c
                (subst (λ o. package_problems hash is_dns_label net orgs cc o ≡ []) present e) in
            (c, present, checks.0, checks.1, checks.2)
      ]

  chaincode-Clear :
      (orgs : Map Org) (channels : Map Channel) (seen : List String) (used : Map String)
      (cc : Chaincode)
      → chaincode_problems hash is_dns_label net orgs channels seen used
          (trim_space cc.name)
          (trim_space cc.channel)
          cc
        ≡ []
      → (has (chaincode_key cc) seen ≡ false)
        × (has_key (chaincode_package_label cc) used ≡ false)
        × Deployable orgs channels cc
  unfolding chaincode_problems
  chaincode-Clear orgs channels seen used cc e =
      let name = trim_space cc.name in
      let channel = trim_space cc.channel in
      let label = chaincode_package_label cc in
      let last =
        append-empty _ (package_problems hash is_dns_label net orgs cc (lookup channel channels))
          e in
      let third =
        append-empty _
          (label_problems hash is_dns_label net label (chaincode_key cc) (lookup label used))
          last.0 in
      let second =
        append-empty
          (when (has (chaincode_key cc) seen) (
            "chaincode "
            <> quote name
            <> " is declared more than once on channel "
            <> quote channel))
          (when (not (has_key channel channels))
            ("chaincode " <> quote name <> " references unknown channel " <> quote channel))
          third.0 in
      (
        when-empty _ _ second.0,
        label-free label (chaincode_key cc) used third.1,
        package-Deployable orgs channels cc last.1 (when-empty _ _ second.1),
      )

  -- What is known before a list of chaincodes in which nothing is found.
  Clear : Map Org → Map Channel → List String → Map String → List Chaincode → Type 0
  Clear orgs channels seen used ccs =
      Apart seen (keys ccs)
      × Fresh used (labels ccs)
      × Distinct (keys ccs)
      × Distinct (labels ccs)
      × All (Deployable orgs channels) ccs

  chaincodes-Clear :
      (orgs : Map Org) (channels : Map Channel) (ccs : List Chaincode) (seen : List String)
      (used : Map String)
      → chaincodes_from hash is_dns_label net orgs channels seen used ccs ≡ []
      → Clear orgs channels seen used (declared_chaincodes ccs)
  unfolding chaincodes_from Clear
  chaincodes-Clear orgs channels [] seen used e = (tt, tt, tt, tt, tt)
  chaincodes-Clear orgs channels (cc ∷ ccs) seen used e =
      round (chaincodes-Clear orgs channels ccs) (is_blank cc) e
    where
      later : List String → Map String → List String
      later s u = chaincodes_from hash is_dns_label net orgs channels s u ccs

      found : List String
      found =
          chaincode_problems hash is_dns_label net orgs channels seen used (trim_space cc.name)
            (trim_space cc.channel) cc

      round :
          ((s : List String) (u : Map String)
            → later s u ≡ []
            → Clear orgs channels s u (declared_chaincodes ccs))
          → (blank : Bool)
          → elim blank [
            | true ↦ later seen used
            | false ↦
                found
                ++ later
                    (chaincode_key cc ∷ seen)
                    (insert (chaincode_package_label cc) (chaincode_key cc) used)
          ]
            ≡ []
          → Clear orgs channels seen used
              (if blank then declared_chaincodes ccs else cc ∷ declared_chaincodes ccs)
      round again true h = again seen used h
      round again false h =
          let parts = append-empty found _ h in
          let now = chaincode-Clear orgs channels seen used cc parts.0 in
          let rest = again _ _ parts.1 in
          let apart = Apart-cons seen (chaincode_key cc) (keys (declared_chaincodes ccs)) rest.0 in
          let fresh =
            Fresh-insert used (chaincode_package_label cc) (chaincode_key cc)
              (labels (declared_chaincodes ccs)) rest.1 in
          (
            (now.0, apart.0),
            (now.1, fresh.0),
            (apart.1, rest.2),
            (fresh.1, rest.3),
            (now.2, rest.4),
          )

  -- When validateFabricNetworkTopology finds no problem, then among the chaincodes that have
  -- a name and a channel no two have the same name on one channel and no two have the same
  -- package label; the channel of each is one that the network declares, and the checks of
  -- its endorsement policy, of its private data and of its indexes find nothing.
  pub chaincodes-Deployable :
      validate_fabric_network_topology hash is_dns_label net ≡ []
      → Distinct (keys (declared_chaincodes net.spec.chaincodes))
        × Distinct (labels (declared_chaincodes net.spec.chaincodes))
        × All
            (Deployable
              (final_scan hash is_dns_label net).orgs
              (scan_channels hash is_dns_label net).1)
            (declared_chaincodes net.spec.chaincodes)
  unfolding Clear
  chaincodes-Deployable e =
      let clear =
        chaincodes-Clear (final_scan hash is_dns_label net).orgs
          (scan_channels hash is_dns_label net).1 net.spec.chaincodes [] []
          (validate-parts hash is_dns_label net e).3 in
      (clear.2, clear.3, clear.4)
