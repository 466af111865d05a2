-- ===== src/Controller/Reconcile/Requeue.antt =====
-- When a network is looked at again, and what happens to one whose topology is wrong.
use fabric_ops.Prelude.{
  ℕ, ◌≤◌, ◌<◌, String, Bool, true, false, List, [], ◌∷◌, none, some, ◌≡◌, ◌≢◌, ◌⊎◌, inl, inr, refl,
  if◌then◌else◌, arith,
}
use fabric_ops.Api.Status.{OrgStatus}
use fabric_ops.Api.Network.{ChannelStatus, ChaincodeStatus}
use fabric_ops.Controller.Conditions.{is_ready, verdict}
use fabric_ops.Controller.Conditions.Ready.{EverythingReady, is_ready-EverythingReady}
use fabric_ops.Controller.Reconcile.{
  StoredNetwork, NetworkTasks, Failure, Answer, waiting_requeue, result_with_cleanup_requeue,
  update_status, clean_up, conclude, run_network, invalid_status, run_orgs, run_deletion, run_found,
  reconcile, Found, missing, unreadable, found,
}

-- The earlier of two times, where 0 is none.
abbrev pub Earlier : ℕ → ℕ → ℕ → Type 0
Earlier a b n =
    ((n ≡ a) ⊎ (n ≡ b)) × ((n ≡ 0) → (a ≡ 0) × (b ≡ 0)) × (0 < a → n ≤ a) × (0 < b → n ≤ b)

pub result_with_cleanup_requeue-Earlier : (a b : ℕ) → Earlier a b (result_with_cleanup_requeue a b)
unfolding result_with_cleanup_requeue
result_with_cleanup_requeue-Earlier a b = ground arith

module _ {W : Type 0} (t : NetworkTasks W) (net : StoredNetwork) where
  clean_up-Requeue :
      (requeue : ℕ) (w : W)
      → 0 < requeue
      → (clean_up t net requeue w).0.1 ≡ none
      → (0 < (clean_up t net requeue w).0.0) × ((clean_up t net requeue w).0.0 ≤ requeue)
  unfolding clean_up
  clean_up-Requeue requeue w h e = by_failure (t.cleanup_succeeded_jobs net.network w) e
    where
      by_failure :
          (cleaned : (ℕ × Failure) × W)
          → let answer = elim cleaned.0.1 as (λ _. Answer × W) [
            | some error ↦ ((0, some error), cleaned.1)
            | none ↦ ((result_with_cleanup_requeue requeue cleaned.0.0, none), cleaned.1)
          ] in
            answer.0.1 ≡ none → (0 < answer.0.0) × (answer.0.0 ≤ requeue)
      by_failure ((after, some error), v) f = absurd (cc)
      by_failure ((after, none), v) f =
          let earlier = result_with_cleanup_requeue-Earlier requeue after in
          ground (arith, earlier, h)

  -- When the end of Reconcile, after the last of its parts, returns no error, then the
  -- network is ready with all of its organizations, channels, chaincodes and certificates,
  -- or it is looked at again after a time that is not 0 and at most ten seconds, whatever
  -- time the cleanup of Jobs asks for.
  pub conclude-Requeue :
      (orgs : List OrgStatus) (channels : List ChannelStatus) (chaincodes : List ChaincodeStatus)
      (w : W)
      → (conclude t net orgs channels chaincodes w).0.1 ≡ none
      → EverythingReady orgs channels chaincodes
        ⊎ ((0 < (conclude t net orgs channels chaincodes w).0.0)
            × ((conclude t net orgs channels chaincodes w).0.0 ≤ waiting_requeue))
  unfolding conclude
  conclude-Requeue orgs channels chaincodes w =
      by_readiness (is_ready orgs channels chaincodes) refl (
        update_status t net.status
          (verdict t.set_condition net.status.conditions net.generation orgs channels chaincodes) w)
    where
      by_readiness :
          (b : Bool)
          → is_ready orgs channels chaincodes ≡ b
          → (written : Failure × W)
          → let answer = elim written.0 as (λ _. Answer × W) [
            | some error ↦ ((0, some error), written.1)
            | none ↦ clean_up t net (if b then 0 else waiting_requeue) written.1
          ] in
            answer.0.1 ≡ none
            → EverythingReady orgs channels chaincodes
              ⊎ ((0 < answer.0.0) × (answer.0.0 ≤ waiting_requeue))
      by_readiness true e written f = inl ((is_ready-EverythingReady orgs channels chaincodes).0 e)
      by_readiness false e (some error, v) f = absurd (cc)
      by_readiness false e (none, v) f = inr (clean_up-Requeue waiting_requeue v (omega arith) f)

-- The tasks that act on the parts of a network, exchanged for others.
abbrev pub with_other_parts : {W : Type 0} → NetworkTasks W → NetworkTasks W → NetworkTasks W
with_other_parts t u = record t {
  org_tasks = u.org_tasks;
  reconcile_channels = u.reconcile_channels;
  reconcile_chaincodes = u.reconcile_chaincodes;
  reconcile_connection_profiles = u.reconcile_connection_profiles;
  cleanup_succeeded_jobs = u.cleanup_succeeded_jobs;
}

module _ {W : Type 0} (t u : NetworkTasks W) where
  run_network-Untouched :
      (net : StoredNetwork)
      → t.validate_topology net.network ≢ []
      → (w : W) → run_network (with_other_parts t u) net w ≡ run_network t net w
  unfolding run_network
  run_network-Untouched net invalid w = by_problems (t.validate_topology net.network) invalid
    where
      by_problems :
          (problems : List String)
          → problems ≢ []
          → let run = λ (orgs : Answer × W). elim problems as (λ _. Answer × W) [
            | [] ↦ orgs
            | p ∷ more ↦
                let written = update_status t net.status (invalid_status t net (p ∷ more)) w in
                ((0, written.0), written.1)
          ] in
            run (run_orgs (with_other_parts t u) net w) ≡ run (run_orgs t net w)
      by_problems [] h = absurd (h refl)
      by_problems (p ∷ more) h = refl

  run_found-Untouched :
      (net : StoredNetwork)
      → t.validate_topology net.network ≢ []
      → (w : W) → run_found (with_other_parts t u) net w ≡ run_found t net w
  unfolding run_found run_deletion
  run_found-Untouched net invalid w =
      by_finalizer net.is_deleting net.is_finalized (t.ensure_finalizer w)
    where
      by_finalizer :
          (is_deleting is_finalized : Bool) (ensured : Failure × W)
          → let run = λ (network : W → Answer × W).
            if is_deleting
            then run_deletion t net w
            else if is_finalized
            then network w
            else elim ensured.0 as (λ _. Answer × W) [
              | some error ↦ ((0, some error), ensured.1)
              | none ↦ network ensured.1
            ] in
            run (run_network (with_other_parts t u) net) ≡ run (run_network t net)
      by_finalizer true f ensured = refl
      by_finalizer false true ensured = run_network-Untouched net invalid w
      by_finalizer false false (some error, v) = refl
      by_finalizer false false (none, v) = run_network-Untouched net invalid v

  -- Where every network that is read has a problem in its topology, Reconcile ends in the
  -- same way and in the same world with any other tasks for the organizations, channels,
  -- chaincodes, connection profiles and the cleanup of Jobs, on every path of it, a network
  -- that is missing, unreadable, being deleted or without the finalizer included: it runs
  -- none of them.
  pub reconcile-Untouched :
      (w : W)
      → ((net : StoredNetwork)
          → (t.get_network w).0 ≡ found net
          → t.validate_topology net.network ≢ [])
      → reconcile (with_other_parts t u) w ≡ reconcile t w
  unfolding reconcile
  reconcile-Untouched w invalid = by_found (t.get_network w) (λ net e. invalid net e)
    where
      by_found :
          (got : Found × W)
          → ((net : StoredNetwork) → got.0 ≡ found net → t.validate_topology net.network ≢ [])
          → let run = λ (next : StoredNetwork → W → Answer × W). elim got.0 as (λ _. Answer × W) [
            | missing ↦ ((0, none), got.1)
            | unreadable error ↦ ((0, some error), got.1)
            | found net ↦ next net got.1
          ] in
            run (run_found (with_other_parts t u)) ≡ run (run_found t)
      by_found (missing, v) h = refl
      by_found (unreadable error, v) h = refl
      by_found (found net, v) h = run_found-Untouched net (h net refl) v
