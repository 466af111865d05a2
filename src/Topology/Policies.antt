-- ===== src/Topology/Policies.antt =====
-- The MSPs that a signature policy names: `validateSignaturePolicyMSPReferences`,
-- `validateChaincodeEndorsementPolicyTopology` and `channelMSPNames` of
-- internal/controller/fabricnetwork_topology.go.
use fabric_ops.Prelude.{
  String, true, false, not, ◌||◌, List, [], ◌∷◌, ◌++◌, Option, none, some, ◌==◌, if◌then◌else◌,
}
use fabric_ops.Prelude.Maps.{Map, lookup}
use fabric_ops.Text.{◌<>◌, trim_space}
use fabric_ops.Topology.Text.{quote, quoted_parts, split_first}
use fabric_ops.Topology.Values.{has, channel_external_org_is_present}
use fabric_ops.Topology.External.{org_msp_names}
use fabric_ops.Api.Spec.{Org, ChannelOrg, ChannelExternalOrg, Channel, Chaincode}

-- The MSPs of the external organizations that are to be on the channel.
unfoldable pub external_msp_names : List ChannelExternalOrg → List String
unfolding channel_external_org_is_present trim_space
external_msp_names [] = []
external_msp_names (e ∷ es) =
    let rest = external_msp_names es in
    let msp = trim_space e.msp_id in
    if not (channel_external_org_is_present e) || msp == "" then rest else msp ∷ rest

-- The MSPs of the channel's local organizations.
unfoldable pub member_msp_names : Map Org → List ChannelOrg → List String
unfolding lookup trim_space
member_msp_names orgs [] = []
member_msp_names orgs (c ∷ cs) =
    let rest = member_msp_names orgs cs in
    elim (lookup (trim_space c.name) orgs) [
      | none ↦ rest
      | some o ↦
          let msp = trim_space o.organization.msp_name in if msp == "" then rest else msp ∷ rest
    ]

unfoldable pub channel_msp_names : Channel → Map Org → List String
unfolding member_msp_names external_msp_names
channel_msp_names channel orgs =
    member_msp_names orgs channel.orgs ++ external_msp_names channel.external_orgs

-- What is wrong with one principal: the key under which it is reported once, and the problem.
unfoldable pub principal_problem :
    (context channel : String) → (all members : List String) → String → Option (String × String)
unfolding split_first quote trim_space
principal_problem context channel all members principal =
    let malformed = some (
      "principal:" <> principal,
      context <> " principal " <> quote principal <> " must use MSP.role format",
    ) in
    elim (split_first "." principal) [
      | none ↦ malformed
      | some (before, role) ↦
          let msp = trim_space before in
          if msp == "" || trim_space role == ""
          then malformed
          else if not (has msp all)
          then some ("unknown:" <> msp, context <> " references unknown MSP " <> quote msp)
          else if not (has msp members)
          then some (
            "outside:" <> msp,
            context <> " references MSP " <> quote msp <> " outside channel " <> quote channel,
          )
          else none
    ]

-- The loop over the matches; `seen` is `seenProblems`.
unfoldable pub principals_problems :
    (context channel : String)
    → (all members : List String) → List String
    → List String
    → List String
unfolding principal_problem trim_space
principals_problems context channel all members seen [] = []
principals_problems context channel all members seen (p ∷ ps) =
    elim (principal_problem context channel all members (trim_space p)) [
      | none ↦ principals_problems context channel all members seen ps
      | some (key, problem) ↦ elim (has key seen) [
        | true ↦ principals_problems context channel all members seen ps
        | false ↦ problem ∷ principals_problems context channel all members (key ∷ seen) ps
      ]
    ]

unfoldable pub validate_signature_policy_msp_references :
    (policy context : String) → Channel → Map Org → List String
unfolding principals_problems quoted_parts org_msp_names external_msp_names channel_msp_names
validate_signature_policy_msp_references policy context channel orgs =
    let parts = quoted_parts policy in
    elim parts [
      | [] ↦ (context <> " must reference at least one MSP principal") ∷ []
      | p ∷ ps ↦
          principals_problems context channel.name
            (org_msp_names orgs ++ external_msp_names channel.external_orgs)
            (channel_msp_names channel orgs) [] (p ∷ ps)
    ]

unfoldable pub validate_chaincode_endorsement_policy_topology :
    Chaincode → Channel → Map Org → List String
unfolding validate_signature_policy_msp_references quote trim_space
validate_chaincode_endorsement_policy_topology cc channel orgs =
    let policy = trim_space cc.endorsement_policy in
    if policy == ""
    then []
    else validate_signature_policy_msp_references policy
        ("chaincode " <> quote cc.name <> " endorsementPolicy") channel orgs
