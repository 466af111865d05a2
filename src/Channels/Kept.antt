-- ===== src/Channels/Kept.antt =====
-- What the steps of the bootstrap of a channel leave in its status as it was.
use fabric_ops.Prelude.{
  String, Bool, true, false, not, List, [], ◌∷◌, Option, none, some, ◌≡◌, ◌==◌, ltb, if◌then◌else◌,
}
use fabric_ops.Text.{join}
use fabric_ops.Api.Spec.{Channel, ChannelRaftUpdate}
use fabric_ops.Api.Network.{ChannelStatus}
use fabric_ops.Controller.Tasks.{
  Reply, problem, value, Task, pass_on, ◌>>=◌, return, Gives, Gives-pass_on,
}
use fabric_ops.Channels.Bootstrap.{
  ChannelTasks, set_channel_org_messages, with_joined_orderers, with_joined_peers, with_readiness,
  update_organizations, join_members, join_channel, bootstrap_channel, finish_channel,
  reconcile_channel,
}

-- The channel is the same, and so are the numbers of orderers and peers that are wanted.
abbrev pub SameChannel : ChannelStatus → ChannelStatus → Type 0
SameChannel old new =
    (new.name ≡ old.name)
    × (new.orderers.desired ≡ old.orderers.desired)
    × (new.peers.desired ≡ old.peers.desired)

module _ {W : Type 0} (t : ChannelTasks W) (old : ChannelStatus) where
  abbrev Keeps : Task W ChannelStatus → Type 0
  Keeps task = (w : W) → Gives (SameChannel old) (task w)

  either_task :
      (b : Bool) (f g : Task W ChannelStatus) → Keeps f → Keeps g → Keeps (if b then f else g)
  either_task true f g hf hg = hf
  either_task false f g hf hg = hg

  and_then :
      {A : Type 0} (task : Task W A) (next : A → Task W ChannelStatus)
      → ((a : A) → Keeps (next a))
      → Keeps (task >>= next)
  and_then task next h w = Gives-pass_on (SameChannel old) next (task w) h

  in_turn :
      (task : Task W ChannelStatus) (next : ChannelStatus → Task W ChannelStatus)
      → Keeps task
      → ((s : ChannelStatus) → SameChannel old s → Keeps (next s))
      → Keeps (task >>= next)
  in_turn task next first later w = by_reply (task w) (first w)
    where
      by_reply :
          (r : Reply ChannelStatus × W)
          → Gives (SameChannel old) r
          → Gives (SameChannel old) (pass_on next r)
      by_reply (problem text, v) h = tt
      by_reply (value s, v) h = later s h v

  update_organizations-Keeps :
      (s : ChannelStatus) → SameChannel old s → Keeps (update_organizations t s)
  unfolding update_organizations
  update_organizations-Keeps s h = and_then (t.update_anchor_peers s) _ (λ anchors.
      either_task (not (anchors.0 == "")) _ _ (λ w. h)
        (and_then (t.update_external_orgs (record s { orgs = anchors.1; message = "" })) _
          (λ external w. h)))

  join_members-Keeps : (s : ChannelStatus) → SameChannel old s → Keeps (join_members t s)
  unfolding join_members with_joined_peers
  join_members-Keeps s h = and_then (t.add_local_orgs s) _ (λ added.
      either_task (not (added.0 == "")) _ _ (λ w. h)
        (and_then (t.join_peers (record s { orgs = added.1 })) _ (λ joined.
          either_task (not (joined.1 == "")) _ _ (λ w. h)
            (update_organizations-Keeps (with_joined_peers s joined) h))))

  join_channel-Keeps : (s : ChannelStatus) → SameChannel old s → Keeps (join_channel t s)
  unfolding join_channel set_channel_org_messages with_joined_orderers
  join_channel-Keeps s h = and_then t.join_orderers _ (λ joined.
      either_task (not (joined.1 == "")) _ _ (λ w. h)
        (either_task (ltb joined.0 s.orderers.desired) _ _ (λ w. h)
          (join_members-Keeps (with_joined_orderers s joined.0) h)))

  bootstrap_channel-Keeps : (s : ChannelStatus) → SameChannel old s → Keeps (bootstrap_channel t s)
  unfolding bootstrap_channel
  bootstrap_channel-Keeps s h = and_then t.generate_block _ (λ done.
      and_then t.block_readiness _ (λ block.
        either_task block.0 _ _
          (join_channel-Keeps (record s { config_ready = true; block_ready = true }) h) (λ w. h)))

  finish_channel-Keeps :
      (channel : Channel) (s : ChannelStatus)
      → SameChannel old s
      → Keeps (finish_channel t channel s)
  unfolding finish_channel with_readiness
  finish_channel-Keeps channel s h = by_update channel.raft_update
    where
      by_update :
          (u : Option ChannelRaftUpdate)
          → Keeps (elim u as (λ _. Task W ChannelStatus) [
            | none ↦ return (with_readiness s)
            | some update ↦
                if s.message == ""
                then (do
                  raft ← t.update_raft
                  return (
                      with_readiness
                        (record s { raft_update = some raft; message = raft.message })))
                else return (with_readiness s)
          ])
      by_update none = λ w. h
      by_update (some u) =
          either_task (s.message == "") _ _ (and_then t.update_raft _ (λ raft w. h)) (λ w. h)

  pub reconcile_channel-Keeps :
      (channel : Channel) (ready : Bool) (s : ChannelStatus) (problems : List String)
      → SameChannel old s
      → (w : W) → Gives (SameChannel old) (reconcile_channel t channel ready (s, problems) w)
  unfolding reconcile_channel
  reconcile_channel-Keeps channel true s [] h =
      in_turn (bootstrap_channel t s) (finish_channel t channel) (bootstrap_channel-Keeps s h)
        (finish_channel-Keeps channel)
  reconcile_channel-Keeps channel false s [] h =
      finish_channel-Keeps channel
        (record s { message = "Waiting for Fabric components before channel bootstrap" }) h
  reconcile_channel-Keeps channel ready s (m ∷ ms) h =
      finish_channel-Keeps channel (record s { message = join "; " (m ∷ ms) }) h
