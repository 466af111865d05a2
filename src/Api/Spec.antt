-- ===== src/Api/Spec.antt =====
-- The specification of a network, api/v1alpha1/fabricnetwork_types.go. A pointer is an `Option`,
-- and a number that the resource definition bounds from below by 0 or 1 is a natural number.
-- Storage, observability and the container settings of a chaincode server are left out: nothing
-- that is modelled reads them.
use fabric_ops.Prelude.{ℕ, String, Bool, List, Option}

-- `corev1.ConfigMapKeySelector` and `corev1.SecretKeySelector`, as far as they are read.
pub record KeySelector : Type 0 where
  pub name : String
  pub key : String

pub record ChannelArtifactKeyRef : Type 0 where
  pub config_map_key_ref : Option KeySelector
  pub secret_key_ref : Option KeySelector

pub record ChannelOrdererRef : Type 0 where
  pub org : String
  pub name : String

pub record ExternalEndpoint : Type 0 where
  pub name : String
  pub address : String
  pub tls_hosts : List String
  pub tls_hostname_override : String

pub record OrgMeta : Type 0 where
  pub name : String
  pub domain : String
  pub msp_name : String

pub record CaRegistrarRotationSpec : Type 0 where
  pub request_id : String

pub record CaRegistrarConfig : Type 0 where
  pub rotation : Option CaRegistrarRotationSpec

pub record CaConfig : Type 0 where
  pub db : String
  pub registrar : Option CaRegistrarConfig

pub record OrdererGroup : Type 0 where
  pub group_name : String
  pub kind : String
  pub instances : ℕ
  pub prefix : String
  pub external_endpoints : List ExternalEndpoint

pub record PeerConfig : Type 0 where
  pub instances : ℕ
  pub db : String
  pub prefix : String
  pub external_endpoints : List ExternalEndpoint

pub record Org : Type 0 where
  pub organization : OrgMeta
  pub ca : CaConfig
  pub orderers : List OrdererGroup
  pub peer : Option PeerConfig

-- `other` is any text but the two of the enumeration.
pub data ChannelExternalOrgState : Type 0 where
  present absent : ChannelExternalOrgState
  other : String → ChannelExternalOrgState

pub record ChannelExternalAnchorPeer : Type 0 where
  pub host : String
  pub port : ℕ

pub record ChannelRaftUpdate : Type 0 where
  pub operation_id : String
  pub admin_org : String
  pub orderer : ChannelOrdererRef
  pub plan_ref : ChannelArtifactKeyRef
  pub signed_update_ref : Option ChannelArtifactKeyRef

pub record ChannelOrg : Type 0 where
  pub name : String
  pub peers : List String
  pub signed_update_ref : Option ChannelArtifactKeyRef

pub record ChannelExternalOrg : Type 0 where
  pub name : String
  pub msp_id : String
  pub state : ChannelExternalOrgState
  pub operation_id : String
  pub application_org_ref : ChannelArtifactKeyRef
  pub admin_org : String
  pub required_signer_msp_ids : List String
  pub signed_update_ref : Option ChannelArtifactKeyRef
  pub orderer : Option ChannelOrdererRef
  pub anchor_peers : List ChannelExternalAnchorPeer

pub record Channel : Type 0 where
  pub name : String
  pub orgs : List ChannelOrg
  pub external_orgs : List ChannelExternalOrg
  pub raft_update : Option ChannelRaftUpdate

pub record CouchDbIndex : Type 0 where
  pub name : String
  pub fields : List String
  pub design_document : String
  pub collection : String

pub record PrivateDataEndorsementPolicy : Type 0 where
  pub signature_policy : String
  pub channel_config_policy : String

pub record PrivateDataCollection : Type 0 where
  pub name : String
  pub org_names : List String
  pub policy : String
  pub required_peer_count : Option ℕ
  pub max_peer_count : Option ℕ
  pub block_to_live : Option ℕ
  pub member_only_read : Option Bool
  pub member_only_write : Option Bool
  pub endorsement_policy : Option PrivateDataEndorsementPolicy

pub record Chaincode : Type 0 where
  pub name : String
  pub version : String
  pub channel : String
  pub image : String
  pub sequence : ℕ
  pub package_label : String
  pub endorsement_policy : String
  pub init_required : Bool
  pub private_data : List PrivateDataCollection
  pub couchdb_indexes : List CouchDbIndex

pub record GlobalConfig : Type 0 where
  pub fabric_version : String
  pub tls : Bool

pub record FabricNetworkSpec : Type 0 where
  pub global : GlobalConfig
  pub orgs : List Org
  pub channels : List Channel
  pub chaincodes : List Chaincode

-- The name, the namespace and the UID stand for the object's metadata.
pub record FabricNetwork : Type 0 where
  pub name : String
  pub namespace : String
  pub uid : String
  pub spec : FabricNetworkSpec
