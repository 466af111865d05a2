-- ===== src/Topology/External.antt =====
-- The checks of a channel's external organizations: `validateChannelExternalOrgs` of
-- internal/controller/fabricnetwork_topology.go. The loop's body is split where the source has
-- a blank line or a nested loop; the problems keep the source's order.
use fabric_ops.Prelude.{
  ℕ, ◌+◌, String, Bool, not, ◌||◌, List, [], ◌∷◌, ◌++◌, Option, none, some, ◌==◌, ltb,
  if◌then◌else◌,
}
use fabric_ops.Prelude.Maps.{Map, lookup, has_key}
use fabric_ops.Text.{◌<>◌, trim_space, itoa}
use fabric_ops.Topology.Text.{quote}
use fabric_ops.Topology.Values.{has, channel_external_org_is_present}
use fabric_ops.Topology.Refs.{
  when, validate_channel_artifact_ref, validate_optional_ref, channel_orderer_ref_matches_any,
}
use fabric_ops.Api.Spec.{
  ChannelOrdererRef, Org, ChannelExternalAnchorPeer, ChannelExternalOrg, Channel, FabricNetwork,
}

-- `orgMSPNames`.
unfoldable pub org_msp_names : Map Org → List String
unfolding trim_space
org_msp_names [] = []
org_msp_names ((k, o) ∷ m) =
    let rest = org_msp_names m in
    let msp = trim_space o.organization.msp_name in if msp == "" then rest else msp ∷ rest

-- The MSPs of the local organizations of a channel, `localChannelMSPs`.
unfoldable pub local_channel_msps : Map Org → List String → List String
unfolding lookup
local_channel_msps orgs [] = []
local_channel_msps orgs (n ∷ ns) = elim (lookup n orgs) [
  | none ↦ local_channel_msps orgs ns
  | some o ↦ o.organization.msp_name ∷ local_channel_msps orgs ns
]

-- A name that is required, declared once and not taken.
unfoldable pub name_problems :
    (required twice taken : String) → (seen : List String) → Bool → String → List String
unfolding when
name_problems required twice taken seen is_taken name =
    if name == "" then required ∷ [] else when (has name seen) twice ++ when is_taken taken

unfoldable pub state_problems : String → ChannelExternalOrg → List String
unfolding channel_external_org_is_present validate_channel_artifact_ref
state_problems path e =
    if channel_external_org_is_present e
    then validate_channel_artifact_ref (path <> ".applicationOrgRef") (some e.application_org_ref)
    else elim e.anchor_peers [
      | [] ↦ []
      | _ ∷ _ ↦ (path <> " anchorPeers must be empty when state is Absent") ∷ []
    ]

unfoldable pub admin_problems : String → Channel → Map Org → List String → String → List String
unfolding has_key quote
admin_problems path channel orgs local admin =
    if admin == ""
    then []
    else if not (has_key admin orgs)
    then (path <> " adminOrg " <> quote admin <> " is not a local org") ∷ []
    else if not (has admin local)
    then (path
        <> " adminOrg "
        <> quote admin
        <> " is not a local org on channel "
        <> quote channel.name)
      ∷ []
    else []

unfoldable pub signer_problems : String → List String → List String → ℕ → List String → List String
unfolding when quote trim_space itoa
signer_problems path msps seen j [] = []
signer_problems path msps seen j (s ∷ ss) =
    let signer = trim_space s in
    let rest =
      signer_problems path msps (if signer == "" then seen else signer ∷ seen) (j + 1) ss in
    if signer == ""
    then (path <> ".requiredSignerMSPIDs[" <> itoa j <> "] is required") ∷ rest
    else when (has signer seen)
        (path <> " required signer MSP " <> quote signer <> " is declared more than once")
      ++ when (not (has signer msps))
          (path <> " required signer MSP " <> quote signer <> " is not a local channel org MSP")
      ++ rest

unfoldable pub anchor_problems : String → ℕ → List ChannelExternalAnchorPeer → List String
unfolding when trim_space itoa
anchor_problems path j [] = []
anchor_problems path j (a ∷ rest) =
    let anchor = path <> ".anchorPeers[" <> itoa j <> "]" in
    when (trim_space a.host == "") (anchor <> ".host is required")
    ++ when (not (ltb 0 a.port) || ltb 65535 a.port) (anchor <> ".port must be between 1 and 65535")
    ++ anchor_problems path (j + 1) rest

module _ (hash : String → String) (net : FabricNetwork) (channel : Channel) (orgs : Map Org)
    (local : List String) where
  orderer_problems : String → Option ChannelOrdererRef → List String
  unfolding when channel_orderer_ref_matches_any
  orderer_problems path none = []
  orderer_problems path (some ref) =
      when (not (channel_orderer_ref_matches_any hash net ref))
        (path <> " orderer does not match a local orderer instance")

  -- What the loop finds in one organization; `names` and `msps` are those before it.
  unfoldable pub external_org_problems :
      List String → List String → ℕ → ChannelExternalOrg → List String
  unfolding validate_optional_ref name_problems state_problems admin_problems signer_problems
      orderer_problems anchor_problems org_msp_names local_channel_msps has_key quote trim_space
      itoa
  external_org_problems names msps i e =
      let path = "channel " <> quote channel.name <> " externalOrgs[" <> itoa i <> "]" in
      let name = trim_space e.name in
      let msp = trim_space e.msp_id in
      validate_optional_ref (path <> ".signedUpdateRef") e.signed_update_ref
      ++ name_problems (path <> " name is required")
          ("channel "
            <> quote channel.name
            <> " external org "
            <> quote name
            <> " is declared more than once")
          ("channel "
            <> quote channel.name
            <> " external org "
            <> quote name
            <> " is already a local org")
          names (has_key name orgs) name
      ++ name_problems (path <> " mspID is required")
          ("channel "
            <> quote channel.name
            <> " external MSP "
            <> quote msp
            <> " is declared more than once")
          ("channel "
            <> quote channel.name
            <> " external MSP "
            <> quote msp
            <> " is already managed by a local org")
          msps (has msp (org_msp_names orgs)) msp
      ++ state_problems path e
      ++ admin_problems path channel orgs local (trim_space e.admin_org)
      ++ signer_problems path (local_channel_msps orgs local) [] 0 e.required_signer_msp_ids
      ++ orderer_problems path e.orderer
      ++ anchor_problems path 0 e.anchor_peers

  unfoldable pub external_orgs_from :
      List String → List String → ℕ → List ChannelExternalOrg → List String
  unfolding external_org_problems trim_space
  external_orgs_from names msps i [] = []
  external_orgs_from names msps i (e ∷ es) =
      let name = trim_space e.name in
      let msp = trim_space e.msp_id in
      external_org_problems names msps i e
      ++ external_orgs_from (if name == "" then names else name ∷ names)
          (if msp == "" then msps else msp ∷ msps) (i + 1) es

  unfoldable pub validate_channel_external_orgs : List String
  unfolding external_orgs_from
  validate_channel_external_orgs = external_orgs_from [] [] 0 channel.external_orgs
