-- ===== src/Channels/Messages.antt =====
-- What is found wrong with a channel before its bootstrap, and what a channel is like in which nothing is.
use fabric_ops.Prelude.{
  ℕ, ◌<◌, String, Bool, true, false, not, List, [], ◌∷◌, ◌++◌, Option, none, some, ◌≡◌, ◌≢◌, refl,
  ◌==◌, nat_eq, All, differ, arith,
}
use fabric_ops.Prelude.Maps.{Map, lookup}
use fabric_ops.Text.{◌<>◌, trim_space, join}
use fabric_ops.Text.Nonempty.{append_nonempty, ending_nonempty}
use fabric_ops.Topology.Lists.{append-empty}
use fabric_ops.Topology.Values.{unknown_channel_peers}
use fabric_ops.Api.Spec.{FabricNetwork, Org, Channel, ChannelOrg}
use fabric_ops.Channels.Status.{
  message_if, desired_network_orderer_status, known_org_message, found_org_status,
  channel_org_status, channel_org_statuses, no_orgs_messages, first_messages,
}

pub All-append {ℓ κ} :
    {A : Type ℓ} (P : A → Type κ) (xs ys : List A) → All P xs → All P ys → All P (xs ++ ys)
All-append P [] ys hx hy = hy
All-append P (x ∷ xs) ys hx hy = (hx.0, All-append P xs ys hx.1 hy)

abbrev pub Texts : List String → Type 0
Texts ms = All (λ m. m ≢ "") ms

message_if-Texts : (b : Bool) (m : String) → m ≢ "" → Texts (message_if b m)
message_if-Texts true m h = (h, tt)
message_if-Texts false m h = tt

message_if-empty : (b : Bool) (m : String) → message_if b m ≡ [] → b ≡ false
message_if-empty true m h = absurd (cc)
message_if-empty false m h = refl

positive : (n : ℕ) → nat_eq n 0 ≡ false → 0 < n
positive n h = ground arith

true_of_not : (b : Bool) → not b ≡ false → b ≡ true
true_of_not b h = ground arith

module _ (hash : String → String) (namespace_of : Org → String) where
  -- The organization is known, and has peers on the channel, all of which it declares.
  abbrev pub Member : Map Org → ChannelOrg → Type 0
  Member orgs o =
      (org : Org) × (lookup o.name orgs ≡ some org)
      × (o.peers ≢ [])
      × (unknown_channel_peers hash org o.peers ≡ [])

  known-Texts :
      (o : ChannelOrg) (ready : Map Bool) (unknown : List String)
      → Texts (known_org_message hash namespace_of o ready unknown).1
        × ((known_org_message hash namespace_of o ready unknown).1 ≡ []
            → (o.peers ≢ []) × (unknown ≡ []))
  unfolding known_org_message
  known-Texts o ready [] = by_peers o.peers
    where
      by_peers :
          (peers : List String)
          → let found = elim peers as (λ _. String × List String) [
            | [] ↦ (
              "At least one peer is required",
              (o.name <> ": at least one peer is required") ∷ [],
            )
            | _ ∷ _ ↦ (
              elim (lookup o.name ready) [
                | some true ↦ "Waiting for peer join Jobs"
                | _ ↦ "Waiting for org components to become ready"
              ],
              [],
            )
          ] in
            Texts found.1 × (found.1 ≡ [] → (peers ≢ []) × ◌≡◌ {A = List String} [] [])
      by_peers [] = (
        (
          ending_nonempty o.name ": at least one peer is required"
              (differ ": at least one peer is required" "" refl),
          tt,
        ),
        λ h. absurd (cc),
      )
      by_peers (p ∷ ps) = (tt, λ h. ((λ e. absurd (cc)), refl))
  known-Texts o ready (u ∷ us) = by_peers o.peers
    where
      by_peers :
          (peers : List String)
          → let found = elim peers as (λ _. String × List String) [
            | [] ↦ (
              "At least one peer is required",
              (o.name <> ": at least one peer is required") ∷ [],
            )
            | _ ∷ _ ↦ (
              "Unknown peers: " <> join ", " (u ∷ us),
              (o.name <> ": unknown peers " <> join ", " (u ∷ us)) ∷ [],
            )
          ] in
            Texts found.1 × (found.1 ≡ [] → (peers ≢ []) × (u ∷ us ≡ []))
      by_peers [] = (
        (
          ending_nonempty o.name ": at least one peer is required"
              (differ ": at least one peer is required" "" refl),
          tt,
        ),
        λ h. absurd (cc),
      )
      by_peers (p ∷ ps) = (
        (
          ending_nonempty o.name (": unknown peers " <> join ", " (u ∷ us)) (
              append_nonempty ": unknown peers " (join ", " (u ∷ us))
                (differ ": unknown peers " "" refl)),
          tt,
        ),
        λ h. absurd (cc),
      )

  found-Texts :
      (orgs : Map Org) (ready : Map Bool) (o : ChannelOrg) (found : Option Org)
      → lookup o.name orgs ≡ found
      → Texts (found_org_status hash namespace_of ready o found).1
        × ((found_org_status hash namespace_of ready o found).1 ≡ [] → Member orgs o)
  unfolding found_org_status
  found-Texts orgs ready o none e = (
    (ending_nonempty o.name ": unknown org" (differ ": unknown org" "" refl), tt),
    λ h. absurd (cc),
  )
  found-Texts orgs ready o (some org) e =
      let known = known-Texts o ready (unknown_channel_peers hash org o.peers) in
      (known.0, λ h. let right = known.1 h in (org, e, right.0, right.1))

  org-Texts :
      (orgs : Map Org) (ready : Map Bool) (o : ChannelOrg)
      → Texts (channel_org_status hash namespace_of orgs ready o).1
        × ((channel_org_status hash namespace_of orgs ready o).1 ≡ [] → Member orgs o)
  unfolding channel_org_status
  org-Texts orgs ready o = found-Texts orgs ready o (lookup o.name orgs) refl

  pub orgs-Texts :
      (orgs : Map Org) (ready : Map Bool) (os : List ChannelOrg)
      → Texts (channel_org_statuses hash namespace_of orgs ready os).1
        × ((channel_org_statuses hash namespace_of orgs ready os).1 ≡ [] → All (Member orgs) os)
  unfolding channel_org_statuses
  orgs-Texts orgs ready [] = (tt, λ h. tt)
  orgs-Texts orgs ready (o ∷ os) =
      let first = org-Texts orgs ready o in
      let rest = orgs-Texts orgs ready os in
      (
        All-append _ _ _ first.0 rest.0,
        λ h. let parts = append-empty _ _ h in (first.1 parts.0, rest.1 parts.1),
      )

  no_orgs-Texts :
      (orgs : List ChannelOrg)
      → Texts (no_orgs_messages hash namespace_of orgs)
        × (no_orgs_messages hash namespace_of orgs ≡ [] → orgs ≢ [])
  unfolding no_orgs_messages
  no_orgs-Texts [] = ((differ "At least one peer org is required" "" refl, tt), λ h. absurd (cc))
  no_orgs-Texts (o ∷ os) = (tt, λ h e. absurd (cc))

  pub first-Texts :
      (net : FabricNetwork) (channel : Channel)
      → Texts (first_messages hash namespace_of net channel)
        × (first_messages hash namespace_of net channel ≡ []
            → (trim_space channel.name ≢ "")
              × (channel.orgs ≢ [])
              × (0 < (desired_network_orderer_status net).desired)
              × (net.spec.global.tls ≡ true))
  unfolding first_messages
  first-Texts net channel =
      let m1 = message_if (trim_space channel.name == "") "Channel name is required" in
      let m2 = no_orgs_messages hash namespace_of channel.orgs in
      let m3 =
        message_if (nat_eq (desired_network_orderer_status net).desired 0)
          "At least one orderer is required" in
      let m4 =
        message_if (not net.spec.global.tls)
          "Channel block generation requires spec.global.tls=true" in
      let orgs = no_orgs-Texts channel.orgs in
      (
        All-append _ (m1 ++ m2 ++ m3) m4
            (All-append _ (m1 ++ m2) m3
              (All-append _ m1 m2
                (message_if-Texts _ "Channel name is required"
                  (differ "Channel name is required" "" refl))
                orgs.0)
              (message_if-Texts _ "At least one orderer is required"
                (differ "At least one orderer is required" "" refl)))
            (message_if-Texts _ "Channel block generation requires spec.global.tls=true"
              (differ "Channel block generation requires spec.global.tls=true" "" refl)),
        λ h.
            let e4 = append-empty (m1 ++ m2 ++ m3) m4 h in
            let e3 = append-empty (m1 ++ m2) m3 e4.0 in
            let e2 = append-empty m1 m2 e3.0 in
            (
              differ (trim_space channel.name) "" (message_if-empty _ _ e2.0),
              orgs.1 e2.1,
              positive _ (message_if-empty _ _ e3.1),
              true_of_not _ (message_if-empty _ _ e4.1),
            ),
      )
