-- ===== src/Channels/Bootstrap.antt =====
-- `reconcileChannels` of internal/controller/fabricnetwork_channel.go: the steps of the bootstrap of a channel,
-- in their order, and the loop over the channels. What a step does to the cluster is a task.
use fabric_ops.Prelude.{
  ℕ, String, Bool, true, false, not, ◌&&◌, List, [], ◌∷◌, Option, none, some, ◌==◌, leb, ltb,
  if◌then◌else◌,
}
use fabric_ops.Text.{join}
use fabric_ops.Api.Spec.{FabricNetwork, Org, Channel}
use fabric_ops.Api.Status.{OrgStatus}
use fabric_ops.Api.Network.{
  ChannelOrgStatus, ChannelExternalOrgStatus, ChannelRaftUpdateStatus, ChannelStatus,
}
use fabric_ops.Controller.Tasks.{problem, value, Task, ◌>>=◌, ◌>>◌, return}
use fabric_ops.Controller.Orgs.{all_orgs_ready}
use fabric_ops.Channels.Status.{
  ExternalOrgNames, channel_external_orgs_ready, initial_channel_status,
}

-- The steps for one channel, on the organization of the first orderer. A step that is passed the status writes
-- the entries of its organizations, or of its external ones, and nothing else of it; it gives the new ones.
pub record ChannelTasks (W : Type 0) : Type 0 where
  pub generate_block : Task W (Unit {0})
  pub block_readiness : Task W (Bool × String)
  pub join_orderers : Task W (ℕ × String)
  pub add_local_orgs : ChannelStatus → Task W (String × List ChannelOrgStatus)
  pub join_peers : ChannelStatus → Task W (ℕ × String × List ChannelOrgStatus)
  pub update_anchor_peers : ChannelStatus → Task W (String × List ChannelOrgStatus)
  pub update_external_orgs : ChannelStatus → Task W (String × List ChannelExternalOrgStatus)
  pub update_raft : Task W ChannelRaftUpdateStatus

unfoldable pub with_org_messages : String → List ChannelOrgStatus → List ChannelOrgStatus
with_org_messages message [] = []
with_org_messages message (s ∷ rest) =
    let others = with_org_messages message rest in
    (if s.message == "" then s else record s { message = message }) ∷ others

-- `setChannelOrgMessages`, and the message of the channel.
unfoldable pub set_channel_org_messages : ChannelStatus → String → ChannelStatus
unfolding with_org_messages
set_channel_org_messages s message = record s {
  message = message;
  orgs = with_org_messages message s.orgs;
}

unfoldable pub is_channel_ready : ChannelStatus → Bool
unfolding channel_external_orgs_ready
is_channel_ready s =
    leb s.orderers.desired s.orderers.ready
    && leb s.peers.desired s.peers.ready
    && ltb 0 s.orderers.desired
    && ltb 0 s.peers.desired
    && channel_external_orgs_ready s.external_orgs
    && elim s.raft_update [ none ↦ true | some u ↦ u.ready ]
    && s.message == ""

unfoldable pub with_readiness : ChannelStatus → ChannelStatus
unfolding is_channel_ready
with_readiness s = record s { ready = is_channel_ready s }

unfoldable pub with_joined_orderers : ChannelStatus → ℕ → ChannelStatus
with_joined_orderers s joined = record s {
  orderers = record { desired = s.orderers.desired; ready = joined };
}

-- The status after the joins of the peers, from their number, the message and the organizations.
unfoldable pub with_joined_peers :
    ChannelStatus → ℕ × String × List ChannelOrgStatus → ChannelStatus
with_joined_peers s (joined, message, orgs) = record s {
  peers = record { desired = s.peers.desired; ready = joined };
  orgs = orgs;
  message = message;
}

module _ {W : Type 0} where
  unfoldable pub update_organizations : ChannelTasks W → ChannelStatus → Task W ChannelStatus
  update_organizations t status = do
    anchors ← t.update_anchor_peers status
    if not (anchors.0 == "")
        then return (record status { orgs = anchors.1; message = anchors.0 })
        else (do
          external ← t.update_external_orgs (record status { orgs = anchors.1; message = "" })
          return (record status {
            orgs = anchors.1;
            external_orgs = external.1;
            message = external.0;
          }))

  unfoldable pub join_members : ChannelTasks W → ChannelStatus → Task W ChannelStatus
  unfolding update_organizations with_joined_peers
  join_members t status = do
    added ← t.add_local_orgs status
    if not (added.0 == "")
        then return (record status { orgs = added.1; message = added.0 })
        else (do
          joined ← t.join_peers (record status { orgs = added.1 })
          if not (joined.1 == "")
              then return (with_joined_peers status joined)
              else update_organizations t (with_joined_peers status joined))

  unfoldable pub join_channel : ChannelTasks W → ChannelStatus → Task W ChannelStatus
  unfolding set_channel_org_messages join_members with_joined_orderers
  join_channel t status = do
    joined ← t.join_orderers
    if not (joined.1 == "")
        then return (set_channel_org_messages (with_joined_orderers status joined.0) joined.1)
        else if ltb joined.0 status.orderers.desired
        then return (
            set_channel_org_messages (with_joined_orderers status joined.0)
              "Waiting for orderer join Jobs")
        else join_members t (with_joined_orderers status joined.0)

  unfoldable pub bootstrap_channel : ChannelTasks W → ChannelStatus → Task W ChannelStatus
  unfolding join_channel
  bootstrap_channel t status = do
    t.generate_block
    block ← t.block_readiness
    if block.0
        then join_channel t (record status { config_ready = true; block_ready = true })
        else return (record status { config_ready = true; block_ready = false; message = block.1 })

  unfoldable pub finish_channel : ChannelTasks W → Channel → ChannelStatus → Task W ChannelStatus
  unfolding with_readiness
  finish_channel t channel status = elim channel.raft_update [
    | none ↦ return (with_readiness status)
    | some u ↦
        if status.message == ""
        then (do
          raft ← t.update_raft
          return
              (with_readiness (record status { raft_update = some raft; message = raft.message })))
        else return (with_readiness status)
  ]

  -- One channel, from its status before the bootstrap and what is wrong with it.
  unfoldable pub reconcile_channel :
      ChannelTasks W → Channel → Bool → ChannelStatus × List String → Task W ChannelStatus
  unfolding bootstrap_channel finish_channel join
  reconcile_channel t channel components_ready (status, []) =
      if components_ready
      then bootstrap_channel t status >>= finish_channel t channel
      else finish_channel t channel
          (record status { message = "Waiting for Fabric components before channel bootstrap" })
  reconcile_channel t channel components_ready (status, m ∷ ms) =
      finish_channel t channel (record status { message = join "; " (m ∷ ms) })

  module _ (hash : String → String) (namespace_of : Org → String) (names : ExternalOrgNames) where
    -- The statuses so far, and the error that ended the loop.
    unfoldable pub reconcile_channels_from :
        (Channel → ChannelTasks W)
        → FabricNetwork
        → List OrgStatus
        → List Channel
        → W
        → (List ChannelStatus × Option String) × W
    unfolding reconcile_channel initial_channel_status all_orgs_ready
    reconcile_channels_from tasks net statuses [] w = (([], none), w)
    reconcile_channels_from tasks net statuses (channel ∷ channels) w =
        let first =
          reconcile_channel (tasks channel) channel (all_orgs_ready statuses)
            (initial_channel_status hash namespace_of names net statuses channel) w in
        let rest = reconcile_channels_from tasks net statuses channels first.1 in
        elim first.0 [
          | problem text ↦ (([], some text), first.1)
          | value status ↦ ((status ∷ rest.0.0, rest.0.1), rest.1)
        ]

    unfoldable pub reconcile_channels :
        (Channel → ChannelTasks W)
        → FabricNetwork
        → List OrgStatus
        → W
        → (List ChannelStatus × Option String) × W
    unfolding reconcile_channels_from
    reconcile_channels tasks net statuses =
        reconcile_channels_from tasks net statuses net.spec.channels
