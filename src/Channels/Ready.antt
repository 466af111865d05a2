-- ===== src/Channels/Ready.antt =====
-- What a channel that is reported as ready has gone through.
use fabric_ops.Prelude.{
  differ, ℕ, ◌≤◌, ◌<◌, String, Bool, true, false, ◌&&◌, List, [], ◌∷◌, Option, none, some, ◌≡◌, ◌≢◌,
  refl, ◌==◌, eq_iff, leb, ltb, All, if◌then◌else◌, arith,
}
use fabric_ops.Text.{join}
use fabric_ops.Text.Nonempty.{join_nonempty}
use fabric_ops.Api.Spec.{Channel, ChannelRaftUpdate}
use fabric_ops.Api.Network.{ChannelRaftUpdateStatus, ChannelExternalOrgStatus, ChannelStatus}
use fabric_ops.Controller.Tasks.{Reply, problem, value, Task, ◌>>=◌, return, Gives, Gives-pass_on}
use fabric_ops.Channels.Status.{channel_external_orgs_ready}
use fabric_ops.Channels.Bootstrap.{
  ChannelTasks, is_channel_ready, with_readiness, bootstrap_channel, finish_channel,
  reconcile_channel,
}

-- The Raft update has been made, where there is one.
abbrev pub RaftDone : Option ChannelRaftUpdateStatus → Type 0
RaftDone none = Unit
RaftDone (some u) = u.ready ≡ true

-- All orderers and all peers have joined, every external organization is done, and nothing is waited for.
abbrev pub Joined : ChannelStatus → Type 0
Joined s =
    (s.orderers.desired ≤ s.orderers.ready)
    × (s.peers.desired ≤ s.peers.ready)
    × (0 < s.orderers.desired)
    × (0 < s.peers.desired)
    × All (λ e. e.ready ≡ true) s.external_orgs
    × RaftDone s.raft_update
    × (s.message ≡ "")

externals :
    (es : List ChannelExternalOrgStatus)
    → channel_external_orgs_ready es ≡ true
    → All (λ e. e.ready ≡ true) es
unfolding channel_external_orgs_ready
externals [] h = tt
externals (e ∷ es) h = let rest = externals es in ground (arith, rest)

raft_done :
    (o : Option ChannelRaftUpdateStatus)
    → elim o [ none ↦ true | some u ↦ u.ready ] ≡ true
    → RaftDone o
raft_done none h = tt
raft_done (some u) h = h

seven :
    (a b c d e f g : Bool)
    → a && b && c && d && e && f && g ≡ true
    → (a ≡ true) × (b ≡ true) × (c ≡ true) × (d ≡ true) × (e ≡ true) × (f ≡ true) × (g ≡ true)
seven a b c d e f g h = ground arith

le_of_leb : (a b : ℕ) → leb a b ≡ true → a ≤ b
le_of_leb a b h = ground arith

lt_of_ltb : (a b : ℕ) → ltb a b ≡ true → a < b
lt_of_ltb a b h = ground arith

is_channel_ready-Joined : (s : ChannelStatus) → is_channel_ready s ≡ true → Joined s
unfolding is_channel_ready
is_channel_ready-Joined s h =
    let (orderers, peers, some_orderer, some_peer, external, raft, quiet) =
      seven (leb s.orderers.desired s.orderers.ready) (leb s.peers.desired s.peers.ready)
        (ltb 0 s.orderers.desired) (ltb 0 s.peers.desired)
        (channel_external_orgs_ready s.external_orgs) _ (s.message == "") h in
    (
      le_of_leb _ _ orderers,
      le_of_leb _ _ peers,
      lt_of_ltb _ _ some_orderer,
      lt_of_ltb _ _ some_peer,
      externals s.external_orgs external,
      raft_done s.raft_update raft,
      (eq_iff s.message "").0 quiet,
    )

-- Where the channel is ready, it has joined, and `before` holds.
abbrev pub ReadyOnly : Type 0 → ChannelStatus → Type 0
ReadyOnly before r = r.ready ≡ true → before × Joined r

module _ {W : Type 0} where
  finish-ReadyOnly :
      (t : ChannelTasks W) (channel : Channel) (s : ChannelStatus) (w : W)
      → Gives (ReadyOnly (s.message ≡ "")) (finish_channel t channel s w)
  unfolding finish_channel with_readiness
  finish-ReadyOnly t channel s w = by_update channel.raft_update
    where
      plain : is_channel_ready s ≡ true → (s.message ≡ "") × Joined s
      plain h = let joined = is_channel_ready-Joined s h in (joined.6, joined)

      by_message :
          (b : Bool)
          → (s.message == "") ≡ b
          → Gives (ReadyOnly (s.message ≡ "")) (
              (if b
                  then (do
                    raft ← t.update_raft
                    return (
                        with_readiness
                          (record s { raft_update = some raft; message = raft.message })))
                  else return (with_readiness s))
                w)
      by_message true e =
          Gives-pass_on (ReadyOnly (s.message ≡ "")) _ (t.update_raft w) (λ raft v h. (
            (eq_iff s.message "").0 e,
            is_channel_ready-Joined (record s { raft_update = some raft; message = raft.message })
                h,
          ))
      by_message false e = plain

      by_update :
          (u : Option ChannelRaftUpdate)
          → Gives (ReadyOnly (s.message ≡ "")) (
              (elim u as (λ _. Task W ChannelStatus) [
                | none ↦ return (with_readiness s)
                | some update ↦
                    if s.message == ""
                    then (do
                      raft ← t.update_raft
                      return (
                          with_readiness
                            (record s { raft_update = some raft; message = raft.message })))
                    else return (with_readiness s)
              ])
                w)
      by_update none = plain
      by_update (some u) = by_message (s.message == "") refl

  pub Gives-weaken :
      {A : Type 0} (P Q : A → Type 0) (r : Reply A × W)
      → Gives P r
      → ((a : A) → P a → Q a)
      → Gives Q r
  Gives-weaken P Q (problem text, w) h weaken = tt
  Gives-weaken P Q (value a, w) h weaken = weaken a h

  pub reconcile_channel-ReadyOnly :
      (t : ChannelTasks W) (channel : Channel) (components_ready : Bool) (s : ChannelStatus)
      (problems : List String)
      → All (λ m. m ≢ "") problems
      → (w : W)
      → Gives
          (ReadyOnly ((problems ≡ []) × (components_ready ≡ true)))
          (reconcile_channel t channel components_ready (s, problems) w)
  unfolding reconcile_channel join
  reconcile_channel-ReadyOnly t channel true s [] h w =
      Gives-pass_on (ReadyOnly (([] ≡ []) × (true ≡ true))) (finish_channel t channel)
        (bootstrap_channel t s w)
        (λ r v.
          Gives-weaken (ReadyOnly (r.message ≡ "")) _ (finish_channel t channel r v)
            (finish-ReadyOnly t channel r v) (λ a p e. ((refl, refl), (p e).1)))
  reconcile_channel-ReadyOnly t channel false s [] h w =
      let waiting = record s {
        message = "Waiting for Fabric components before channel bootstrap";
      } in
      Gives-weaken (ReadyOnly (waiting.message ≡ "")) _ (finish_channel t channel waiting w)
        (finish-ReadyOnly t channel waiting w)
        (λ a p e.
          absurd (differ "Waiting for Fabric components before channel bootstrap" "" refl (p e).0))
  reconcile_channel-ReadyOnly t channel ready s (m ∷ ms) h w =
      let blocked = record s { message = join "; " (m ∷ ms) } in
      Gives-weaken (ReadyOnly (blocked.message ≡ "")) _ (finish_channel t channel blocked w)
        (finish-ReadyOnly t channel blocked w)
        (λ a p e. absurd (join_nonempty "; " m ms h.0 (p e).0))
