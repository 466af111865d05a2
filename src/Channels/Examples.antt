-- ===== src/Channels/Examples.antt =====
-- A channel of one organization with one orderer and one peer.
use fabric_ops.Prelude.{ℕ, String, Bool, true, false, List, [], ◌∷◌, none, some, ◌≡◌, refl, inl}
use fabric_ops.Api.Spec.{FabricNetwork, Org, Channel}
use fabric_ops.Api.Status.{OrgStatus}
use fabric_ops.Api.Network.{ChannelStatus}
use fabric_ops.Controller.Tasks.{problem, return}
use fabric_ops.Controller.Orgs.{unset_rotation}
use fabric_ops.Channels.Status.{ExternalOrgNames, initial_channel_status}
use fabric_ops.Channels.Order.{with_later_steps, bootstrap_channel-Waiting}
use fabric_ops.Channels.Bootstrap.{ChannelTasks, bootstrap_channel, reconcile_channels_from}
use fabric_ops.Channels.Accepted.{StatusesOf, reconcile_channels_from-StatusesOf}

abbrev org : Org
org = record {
  organization = record { name = "Org1"; domain = "org1.example.com"; msp_name = "Org1MSP" };
  ca = record { db = "sqlite"; registrar = none };
  orderers =
      record {
        group_name = "g";
        kind = "etcdraft";
        instances = 1;
        prefix = "orderer";
        external_endpoints = [];
      }
      ∷ [];
  peer = some (record { instances = 1; db = "leveldb"; prefix = "peer"; external_endpoints = [] });
}

abbrev channel : Channel
channel = record {
  name = "ch";
  orgs = record { name = "Org1"; peers = "peer0" ∷ []; signed_update_ref = none } ∷ [];
  external_orgs = [];
  raft_update = none;
}

abbrev net : FabricNetwork
net = record {
  name = "net";
  namespace = "fabric";
  uid = "";
  spec = record {
    global = record { fabric_version = "2.5"; tls = true };
    orgs = org ∷ [];
    channels = channel ∷ [];
    chaincodes = [];
  };
}

abbrev org_status : OrgStatus
org_status = record {
  name = "Org1";
  namespace = "org1";
  identity_ready = true;
  identity_error = "";
  ca_ready = true;
  ca_endpoint = "";
  orderer_endpoints = [];
  orderers = record { desired = 1; ready = 1 };
  orderers_ready = true;
  peer_endpoints = [];
  peers = record { desired = 1; ready = 1 };
  peers_ready = true;
  connection_profile_config_map_name = "";
  certificates = [];
  certificate_renewal_required = false;
  certificate_renewal_error = "";
  ca_registrar_rotation = unset_rotation;
  ready = true;
}

-- The world is the number of calls.
abbrev tasks : ℕ → Channel → ChannelTasks ℕ
tasks orderers c = record {
  generate_block = return tt;
  block_readiness = return (true, "");
  join_orderers = return (orderers, "");
  add_local_orgs = λ s. return ("", s.orgs);
  join_peers = λ s. return (1, "", s.orgs);
  update_anchor_peers = λ s. return ("", s.orgs);
  update_external_orgs = λ s. return ("", s.external_orgs);
  update_raft = λ w. (problem "no update", w);
}

abbrev names : ExternalOrgNames
names = record {
  result_config_map = λ c e. c;
  application_config_map = λ c e. c;
  update_job = λ c e. c;
}

abbrev ran : ℕ → List ChannelStatus
ran orderers =
    (reconcile_channels_from (λ s. "0") (λ o. "org1") names (tasks orderers) net (org_status ∷ [])
      net.spec.channels 0).0.0

readiness : List ChannelStatus → List (Bool × String)
readiness [] = []
readiness (s ∷ rest) = (s.ready, s.message) ∷ readiness rest

joined :
    (readiness (ran 1) ≡ ((true, "") ∷ []))
    × (readiness (ran 0) ≡ ((false, "Waiting for orderer join Jobs") ∷ []))
unfolding reconcile_channels_from readiness
joined = (refl, refl)

reconcile_channels_from-StatusesOf_example :
    let ran =
      (reconcile_channels_from
        (λ s. "0")
        (λ o. "org1")
        names
        (tasks 1)
        net
        (org_status ∷ [])
        net.spec.channels
        0).0 in
    StatusesOf (λ s. "0") (λ o. "org1") net (org_status ∷ []) net.spec.channels ran.0 ran.1
reconcile_channels_from-StatusesOf_example =
    reconcile_channels_from-StatusesOf (λ s. "0") (λ o. "org1") names net (org_status ∷ [])
      (tasks 1) net.spec.channels 0

abbrev later : ChannelTasks ℕ
later = record (tasks 1 channel) { join_peers = λ s w. (problem "refused", w) }

abbrev started : ChannelStatus
started = (initial_channel_status (λ s. "0") (λ o. "org1") names net (org_status ∷ []) channel).0

bootstrap_channel-Waiting_example :
    bootstrap_channel (with_later_steps (tasks 0 channel) later) started 0
    ≡ bootstrap_channel (tasks 0 channel) started 0
unfolding initial_channel_status
bootstrap_channel-Waiting_example =
    bootstrap_channel-Waiting (tasks 0 channel) later started (λ w. inl refl) 0
