-- ===== src/Channels/Status.antt =====
-- The status of a channel before its bootstrap: the first half of `reconcileChannels` of
-- internal/controller/fabricnetwork_channel.go, and `channelExternalOrgStatus` of
-- fabricnetwork_external_org.go. Parameters: the hash of long names, the namespace of an organization, and the
-- names of the objects of an external organization. Numbers of instances stay below 2 ^ 31.
use fabric_ops.Prelude.{
  ℕ, ◌+◌, String, Bool, true, false, not, ◌&&◌, List, [], ◌∷◌, ◌++◌, Option, none, some, ◌==◌, leb,
  nat_eq, length, all, if◌then◌else◌,
}
use fabric_ops.Prelude.Maps.{Map, lookup, insert}
use fabric_ops.Text.{◌<>◌, trim_space, join}
use fabric_ops.Naming.{sanitize_name}
use fabric_ops.Api.Spec.{
  FabricNetwork, Org, Channel, ChannelOrg, ChannelExternalOrg, present, absent,
}
use fabric_ops.Api.Status.{WorkloadStatus, OrgStatus}
use fabric_ops.Api.Network.{pending, ChannelOrgStatus, ChannelExternalOrgStatus, ChannelStatus}
use fabric_ops.Topology.Values.{
  orgs_by_name, unknown_channel_peers, channel_external_org_is_present,
}
use fabric_ops.Endpoints.{unique_from}
use fabric_ops.Controller.Orgs.{desired_orderer_status}

total_orderers : List Org → ℕ
unfolding desired_orderer_status
total_orderers [] = 0
total_orderers (org ∷ orgs) = (desired_orderer_status org).desired + total_orderers orgs

unfoldable pub desired_network_orderer_status : FabricNetwork → WorkloadStatus
unfolding total_orderers
desired_network_orderer_status net = record { desired = total_orderers net.spec.orgs; ready = 0 }

insert_readiness : Map Bool → List OrgStatus → Map Bool
unfolding insert
insert_readiness m [] = m
insert_readiness m (s ∷ rest) = insert_readiness (insert s.name s.ready m) rest

unfoldable pub ready_orgs_by_name : List OrgStatus → Map Bool
unfolding insert_readiness
ready_orgs_by_name statuses = insert_readiness [] statuses

-- The loop is that of `uniqueTrimmedStrings`.
unfoldable pub external_org_required_signer_msp_ids : ChannelExternalOrg → List String
unfolding unique_from
external_org_required_signer_msp_ids e = unique_from [] e.required_signer_msp_ids

-- The names of the objects of a channel and an external organization.
pub record ExternalOrgNames : Type 0 where
  pub result_config_map : String → ChannelExternalOrg → String
  pub application_config_map : String → ChannelExternalOrg → String
  pub update_job : String → ChannelExternalOrg → String

-- `admin_org` and `orderer` are empty where there is none.
unfoldable pub channel_external_org_status :
    ExternalOrgNames
    → Channel
    → ChannelExternalOrg
    → String
    → String
    → String
    → ChannelExternalOrgStatus
unfolding channel_external_org_is_present external_org_required_signer_msp_ids trim_space
channel_external_org_status names channel e admin_org orderer message = record {
  name = e.name;
  msp_id = e.msp_id;
  desired_state = if channel_external_org_is_present e then present else absent;
  operation_id = trim_space e.operation_id;
  phase = pending;
  application_org_config_map_name =
      if channel_external_org_is_present e then names.application_config_map channel.name e else "";
  artifact_config_map_name = names.result_config_map channel.name e;
  update_job_name = names.update_job channel.name e;
  admin_org = admin_org;
  orderer = orderer;
  required_signer_msp_ids = external_org_required_signer_msp_ids e;
  anchor_peers = e.anchor_peers;
  ready = false;
  message = message;
}

external_org_statuses_from :
    ExternalOrgNames → Channel → String → List ChannelExternalOrg → List ChannelExternalOrgStatus
unfolding channel_external_org_status
external_org_statuses_from names channel message [] = []
external_org_statuses_from names channel message (e ∷ rest) =
    channel_external_org_status names channel e "" "" message
    ∷ external_org_statuses_from names channel message rest

unfoldable pub channel_external_org_statuses :
    ExternalOrgNames → Channel → String → List ChannelExternalOrgStatus
unfolding external_org_statuses_from
channel_external_org_statuses names channel message =
    external_org_statuses_from names channel message channel.external_orgs

unfoldable pub channel_external_orgs_ready : List ChannelExternalOrgStatus → Bool
channel_external_orgs_ready statuses = all (λ s. s.ready) statuses

-- A message under a condition.
abbrev pub message_if : Bool → String → List String
message_if true message = message ∷ []
message_if false message = []

unfoldable pub initial_channel_org_status : ChannelOrg → ChannelOrgStatus
initial_channel_org_status o = record {
  name = o.name;
  namespace = "";
  msp_name = "";
  peer_names = o.peers;
  peers = record { desired = length o.peers; ready = 0 };
  ready = false;
  message = "";
}

module _ (hash : String → String) (namespace_of : Org → String) where
  -- The message of the status of an organization, and what is wrong with it.
  unfoldable pub known_org_message : ChannelOrg → Map Bool → List String → String × List String
  unfolding lookup join
  known_org_message o ready [] = elim o.peers [
    | [] ↦ ("At least one peer is required", (o.name <> ": at least one peer is required") ∷ [])
    | _ ∷ _ ↦ (
      elim (lookup o.name ready) [
        | some true ↦ "Waiting for peer join Jobs"
        | _ ↦ "Waiting for org components to become ready"
      ],
      [],
    )
  ]
  known_org_message o ready (u ∷ us) = elim o.peers [
    | [] ↦ ("At least one peer is required", (o.name <> ": at least one peer is required") ∷ [])
    | _ ∷ _ ↦ (
      "Unknown peers: " <> join ", " (u ∷ us),
      (o.name <> ": unknown peers " <> join ", " (u ∷ us)) ∷ [],
    )
  ]

  -- The status of an organization of a channel, from the organization of that name, and what is wrong.
  unfoldable pub found_org_status :
      Map Bool → ChannelOrg → Option Org → ChannelOrgStatus × List String
  unfolding unknown_channel_peers known_org_message initial_channel_org_status
  found_org_status ready o none = (
    record (initial_channel_org_status o) { message = "Unknown org in channel" },
    (o.name <> ": unknown org") ∷ [],
  )
  found_org_status ready o (some org) =
      let found = known_org_message o ready (unknown_channel_peers hash org o.peers) in
      (
        record (initial_channel_org_status o) {
          namespace = namespace_of org;
          msp_name = org.organization.msp_name;
          ready = leb (length o.peers) 0 && not (nat_eq (length o.peers) 0) && found.0 == "";
          message = found.0;
        },
        found.1,
      )

  unfoldable pub channel_org_status :
      Map Org → Map Bool → ChannelOrg → ChannelOrgStatus × List String
  unfolding lookup found_org_status
  channel_org_status orgs ready o = found_org_status ready o (lookup o.name orgs)

  unfoldable pub channel_org_statuses :
      Map Org → Map Bool → List ChannelOrg → List ChannelOrgStatus × List String × ℕ
  unfolding channel_org_status
  channel_org_statuses orgs ready [] = ([], [], 0)
  channel_org_statuses orgs ready (o ∷ os) =
      let first = channel_org_status orgs ready o in
      let rest = channel_org_statuses orgs ready os in
      (first.0 ∷ rest.0, first.1 ++ rest.1, length o.peers + rest.2)

  unfoldable pub no_orgs_messages : List ChannelOrg → List String
  no_orgs_messages [] = "At least one peer org is required" ∷ []
  no_orgs_messages (_ ∷ _) = []

  unfoldable pub first_messages : FabricNetwork → Channel → List String
  unfolding desired_network_orderer_status trim_space no_orgs_messages
  first_messages net channel =
      message_if (trim_space channel.name == "") "Channel name is required"
      ++ no_orgs_messages channel.orgs
      ++ message_if (nat_eq (desired_network_orderer_status net).desired 0)
          "At least one orderer is required"
      ++ message_if (not net.spec.global.tls)
          "Channel block generation requires spec.global.tls=true"

  -- The status before the bootstrap, and what is wrong with the channel.
  unfoldable pub initial_channel_status :
      ExternalOrgNames → FabricNetwork → List OrgStatus → Channel → ChannelStatus × List String
  unfolding sanitize_name desired_network_orderer_status channel_external_org_statuses
      channel_org_statuses first_messages orgs_by_name ready_orgs_by_name
  initial_channel_status names net statuses channel =
      let orgs =
        channel_org_statuses (orgs_by_name net) (ready_orgs_by_name statuses) channel.orgs in
      (
        record {
          name = channel.name;
          config_map_name = sanitize_name hash (channel.name <> "-configtx");
          block_config_map_name = sanitize_name hash (channel.name <> "-channel-block");
          config_ready = false;
          block_ready = false;
          orderers = desired_network_orderer_status net;
          peers = record { desired = orgs.2; ready = 0 };
          orgs = orgs.0;
          external_orgs =
              channel_external_org_statuses names channel "Waiting for local channel bootstrap";
          raft_update = elim channel.raft_update [
            | none ↦ none
            | some u ↦ some (record {
              operation_id = u.operation_id;
              namespace = "";
              admin_org = "";
              orderer = "";
              phase = pending;
              action = "";
              config_sequence = "";
              plan_hash = "";
              artifact_config_map_name = "";
              update_job_name = "";
              ready = false;
              message = "Waiting for channel bootstrap";
            })
          ];
          ready = false;
          message = "";
        },
        first_messages net channel ++ orgs.1,
      )
