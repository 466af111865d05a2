-- ===== src/Api/Network.antt =====
-- The status of channels and chaincodes, the conditions and the status of the whole network,
-- api/v1alpha1/fabricnetwork_types.go.
use fabric_ops.Prelude.{ℕ, String, Bool, List, Option}
use fabric_ops.Api.Spec.{ChannelExternalOrgState, ChannelExternalAnchorPeer}
use fabric_ops.Api.Status.{WorkloadStatus, OrgStatus}

-- `unset` is the empty text.
pub data ChannelConfigUpdatePhase : Type 0 where
  pending staged pending_signatures submitted already_applied failed unset :
      ChannelConfigUpdatePhase

pub record ChannelOrgStatus : Type 0 where
  pub name : String
  pub namespace : String
  pub msp_name : String
  pub peer_names : List String
  pub peers : WorkloadStatus
  pub ready : Bool
  pub message : String

pub record ChannelRaftUpdateStatus : Type 0 where
  pub operation_id : String
  pub namespace : String
  pub admin_org : String
  pub orderer : String
  pub phase : ChannelConfigUpdatePhase
  pub action : String
  pub config_sequence : String
  pub plan_hash : String
  pub artifact_config_map_name : String
  pub update_job_name : String
  pub ready : Bool
  pub message : String

pub record ChannelExternalOrgStatus : Type 0 where
  pub name : String
  pub msp_id : String
  pub desired_state : ChannelExternalOrgState
  pub operation_id : String
  pub phase : ChannelConfigUpdatePhase
  pub application_org_config_map_name : String
  pub artifact_config_map_name : String
  pub update_job_name : String
  pub admin_org : String
  pub orderer : String
  pub required_signer_msp_ids : List String
  pub anchor_peers : List ChannelExternalAnchorPeer
  pub ready : Bool
  pub message : String

pub record ChannelStatus : Type 0 where
  pub name : String
  pub config_map_name : String
  pub block_config_map_name : String
  pub config_ready : Bool
  pub block_ready : Bool
  pub orderers : WorkloadStatus
  pub peers : WorkloadStatus
  pub orgs : List ChannelOrgStatus
  pub external_orgs : List ChannelExternalOrgStatus
  pub raft_update : Option ChannelRaftUpdateStatus
  pub ready : Bool
  pub message : String

pub record ChaincodeTargetStatus : Type 0 where
  pub org_name : String
  pub namespace : String
  pub peer_name : String
  pub workload_name : String
  pub workload : WorkloadStatus
  pub workload_ready : Bool
  pub service_name : String
  pub address : String
  pub package_config_map_name : String
  pub package_id_config_map_name : String
  pub install_job_name : String
  pub approve_job_name : String
  pub package_metadata_ready : Bool
  pub package_id : String
  pub chaincode_id : String
  pub installed : Bool
  pub approved : Bool
  pub message : String

pub record ChaincodeStatus : Type 0 where
  pub name : String
  pub channel : String
  pub version : String
  pub package_label : String
  pub sequence : ℕ
  pub collection_config_map : String
  pub collection_config_hash : String
  pub package_metadata : WorkloadStatus
  pub package_metadata_ready : Bool
  pub installed : WorkloadStatus
  pub installed_ready : Bool
  pub workloads : WorkloadStatus
  pub workloads_ready : Bool
  pub approved : WorkloadStatus
  pub approved_ready : Bool
  pub commit_job_name : String
  pub commit_result_namespace : String
  pub commit_result_config_map_name : String
  pub committed : Bool
  pub ready : Bool
  pub targets : List ChaincodeTargetStatus
  pub message : String

-- `metav1.ConditionStatus`.
pub data ConditionStatus : Type 0 where
  condition_true condition_false condition_unknown : ConditionStatus

-- `metav1.Condition`; its time of transition is left out.
pub record Condition : Type 0 where
  pub kind : String
  pub status : ConditionStatus
  pub reason : String
  pub message : String
  pub observed_generation : ℕ

-- `unset` is the empty text.
pub data Phase : Type 0 where
  pending creating ready failed unset : Phase

pub record FabricNetworkStatus : Type 0 where
  pub phase : Phase
  pub message : String
  pub org_status : List OrgStatus
  pub channel_status : List ChannelStatus
  pub chaincode_status : List ChaincodeStatus
  pub conditions : List Condition
