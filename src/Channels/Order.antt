-- ===== src/Channels/Order.antt =====
-- The order of the steps of a bootstrap.
use fabric_ops.Prelude.{
  ℕ, String, Bool, true, false, not, ◌≡◌, ◌≢◌, ◌⊎◌, inl, inr, refl, ◌==◌, eq_iff, ltb,
  if◌then◌else◌,
}
use fabric_ops.Api.Network.{ChannelStatus}
use fabric_ops.Controller.Tasks.{Task, return, Gives}
use fabric_ops.Controller.Tasks.Agree.{Agree, bind_known, bind_any}
use fabric_ops.Channels.Bootstrap.{
  ChannelTasks, with_joined_orderers, set_channel_org_messages, join_members, join_channel,
  bootstrap_channel,
}

-- The steps with others in place of those that follow the joins of the orderers.
abbrev pub with_later_steps : {W : Type 0} → ChannelTasks W → ChannelTasks W → ChannelTasks W
with_later_steps t u = record t {
  add_local_orgs = u.add_local_orgs;
  join_peers = u.join_peers;
  update_anchor_peers = u.update_anchor_peers;
  update_external_orgs = u.update_external_orgs;
}

-- Not all of the orderers have joined, or there is a message.
abbrev pub Waiting : ℕ → ℕ × String → Type 0
Waiting desired joined = (ltb joined.0 desired ≡ true) ⊎ (joined.1 ≢ "")

not_quiet :
    (desired : ℕ) (joined : ℕ × String)
    → Waiting desired joined
    → (ltb joined.0 desired ≡ true) ⊎ ((joined.1 == "") ≡ false)
not_quiet desired joined (inl short) = inl short
not_quiet desired joined (inr message) = inr (by_test _ refl)
  where
    by_test : (b : Bool) → (joined.1 == "") ≡ b → (joined.1 == "") ≡ false
    by_test true e = absurd (message ((eq_iff joined.1 "").0 e))
    by_test false e = e

module _ {W : Type 0} where
  stop_early :
      (quiet short : Bool) (a b c d : Task W ChannelStatus)
      → (short ≡ true) ⊎ (quiet ≡ false)
      → Agree
          (if not quiet then a else if short then b else c)
          (if not quiet then a else if short then b else d)
  stop_early false short a b c d h w = refl
  stop_early true true a b c d h w = refl
  stop_early true false a b c d (inl e) w = absurd (cc)
  stop_early true false a b c d (inr e) w = absurd (cc)

  join_channel-Waits :
      (t u : ChannelTasks W) (status : ChannelStatus)
      → ((w : W) → Gives (Waiting status.orderers.desired) (t.join_orderers w))
      → Agree (join_channel (with_later_steps t u) status) (join_channel t status)
  unfolding join_channel
  join_channel-Waits t u status h =
      bind_known (Waiting status.orderers.desired) t.join_orderers _ _ h (λ joined waiting.
        stop_early (joined.1 == "") (ltb joined.0 status.orderers.desired)
          (return (set_channel_org_messages (with_joined_orderers status joined.0) joined.1))
          (return (
            set_channel_org_messages (with_joined_orderers status joined.0)
              "Waiting for orderer join Jobs"))
          (join_members (with_later_steps t u) (with_joined_orderers status joined.0))
          (join_members t (with_joined_orderers status joined.0))
          (not_quiet status.orderers.desired joined waiting))

  either_task :
      (b : Bool) (f g k : Task W ChannelStatus)
      → Agree f g
      → Agree (if b then f else k) (if b then g else k)
  either_task true f g k h w = h w
  either_task false f g k h w = refl

  -- Where the joins of the orderers never end with as many as are wanted and without a
  -- message, the bootstrap of a channel ends in the same way and in the same world with any
  -- other tasks for local organizations, peers, anchor peers and external organizations: it
  -- runs none of them.
  pub bootstrap_channel-Waiting :
      (t u : ChannelTasks W) (status : ChannelStatus)
      → ((w : W) → Gives (Waiting status.orderers.desired) (t.join_orderers w))
      → (w : W) → bootstrap_channel (with_later_steps t u) status w ≡ bootstrap_channel t status w
  unfolding bootstrap_channel
  bootstrap_channel-Waiting t u status h = bind_any t.generate_block _ _ (λ _.
      bind_any t.block_readiness _ _ (λ block.
        either_task block.0
          (join_channel (with_later_steps t u)
            (record status { config_ready = true; block_ready = true }))
          (join_channel t (record status { config_ready = true; block_ready = true })) _
          (join_channel-Waits t u (record status { config_ready = true; block_ready = true }) h)))
