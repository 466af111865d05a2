-- ===== src/Cleanup.antt =====
-- The deletion of Jobs that have succeeded: internal/controller/fabricnetwork_job_cleanup.go, and
-- `deleteOwnedObject` of fabricnetwork_org.go. Times are nanoseconds; `age < ttl` is written as
-- `now < completion + ttl`, since a completion may lie in the future.
pub mod Due
pub mod Next
mod Examples
use fabric_ops.Prelude.{
  ℕ, zero, suc, ◌+◌, ◌-◌, ◌*◌, String, Bool, true, false, not, ◌&&◌, ◌||◌, List, [], ◌∷◌, Option,
  none, some, ◌==◌, ltb, if◌then◌else◌,
}
use fabric_ops.Prelude.Maps.{Map, insert}
use fabric_ops.Text.{◌<>◌}
use fabric_ops.Cluster.Calls.{Meta, Job}
use fabric_ops.Cluster.Objects.{
  FabricNetworkOwner, read_text, org_labels, resource_annotations, owner_from, is_owner,
  is_same_owner, job_succeeded,
}
use fabric_ops.Controller.Tasks.{Task, problem, return, pass_on}
use fabric_ops.Api.Spec.{FabricNetwork, Org}

-- `JobCleanupConfig`.
pub record JobCleanupConfig : Type 0 where
  pub succeeded_history_ttl_seconds : Option ℕ

-- A Job with its completion time.
pub record FinishedJob : Type 0 where
  pub job : Job
  pub completion_time : Option ℕ

abbrev pub annotation_succeeded_job_cleanup : String
annotation_succeeded_job_cleanup = "fabricops.io/succeeded-job-cleanup"

unfoldable pub succeeded_job_cleanup_annotations : Map String → Map String
unfolding insert
succeeded_job_cleanup_annotations annotations =
    insert annotation_succeeded_job_cleanup "true" annotations

unfoldable pub succeeded_job_cleanup_ttl : Option JobCleanupConfig → Option ℕ
succeeded_job_cleanup_ttl none = none
succeeded_job_cleanup_ttl (some jobs) = elim jobs.succeeded_history_ttl_seconds [
  | none ↦ none
  | some seconds ↦ some (seconds * 1000000000)
]

unfoldable pub succeeded_job_cleanup_eligible : Job → Bool
succeeded_job_cleanup_eligible job =
    read_text annotation_succeeded_job_cleanup job.meta.annotations == "true"

unfoldable pub has_fabric_network_owner : Meta → Bool
unfolding is_owner owner_from
has_fabric_network_owner meta =
    is_owner (owner_from meta.annotations) || is_owner (owner_from meta.labels)

-- What the loop does with a Job: nothing, wait for that time, or delete it.
pub data Disposal : Type 0 where
  retained : Disposal
  waiting : ℕ → Disposal
  due : Disposal

unfoldable pub disposal : ℕ → ℕ → FinishedJob → Disposal
unfolding succeeded_job_cleanup_eligible job_succeeded
disposal ttl now finished = elim finished.completion_time [
  | none ↦ retained
  | some completion ↦
      if not (succeeded_job_cleanup_eligible finished.job) || not (job_succeeded finished.job)
      then retained
      else if ltb now (completion + ttl)
      then waiting (completion + ttl - now)
      else due
]

unfoldable pub next_cleanup : ℕ → ℕ → ℕ
next_cleanup zero remaining = remaining
next_cleanup (suc next) remaining = if ltb remaining (suc next) then remaining else suc next

-- The owner of the object that is found.
existing_owner : Meta → FabricNetworkOwner
unfolding is_owner owner_from
existing_owner meta =
    if is_owner (owner_from meta.annotations)
    then owner_from meta.annotations
    else owner_from meta.labels

-- The owner that is wanted, read where that of the object was found.
desired_owner : Meta → Meta → FabricNetworkOwner
unfolding is_owner owner_from
desired_owner meta expected =
    if is_owner (owner_from meta.annotations)
    then owner_from expected.annotations
    else owner_from expected.labels

-- The error of `ensureMatchingFabricNetworkOwner` for a Job.
owner_conflict : String → Job → FabricNetworkOwner → FabricNetworkOwner → String
owner_conflict namespace job existing desired =
    "Job " <> namespace <> "/" <> job.meta.name <> " is owned by FabricNetwork "
    <> existing.namespace <> "/" <> existing.name <> ", refusing to update for FabricNetwork "
    <> desired.namespace <> "/" <> desired.name

-- The object that `cleanupSucceededJobs` compares the owner of a Job with.
unfoldable pub expected_owner : (String → String) → FabricNetwork → Org → Meta
unfolding org_labels resource_annotations
expected_owner hash net org = record {
  name = "";
  labels = org_labels hash net org "network";
  annotations = resource_annotations net org;
}

-- The calls of the API server: the Jobs of a namespace that carry the labels of the network, and the deletion
-- of one, where a Job that is gone is no error.
module _ {W : Type 0} (list_jobs : String → Task W (List FinishedJob))
    (delete_job : String → Job → Task W (Unit {0})) where
  unfoldable pub delete_owned_object : String → Job → Meta → Task W (Unit {0})
  unfolding has_fabric_network_owner is_same_owner existing_owner desired_owner owner_conflict
  delete_owned_object namespace job expected =
      if not (has_fabric_network_owner job.meta)
      then return tt
      else if is_same_owner job.meta expected
      then delete_job namespace job
      else (λ w. (
        problem (
            owner_conflict namespace job (existing_owner job.meta)
              (desired_owner job.meta expected)),
        w,
      ))

  unfoldable pub cleanup_jobs : ℕ → ℕ → String → Meta → ℕ → List FinishedJob → Task W ℕ
  unfolding disposal next_cleanup delete_owned_object
  cleanup_jobs ttl now namespace expected next [] w = return next w
  cleanup_jobs ttl now namespace expected next (finished ∷ rest) w =
      elim (disposal ttl now finished) [
        | retained ↦ cleanup_jobs ttl now namespace expected next rest w
        | waiting remaining ↦
            cleanup_jobs ttl now namespace expected (next_cleanup next remaining) rest w
        | due ↦
            pass_on (λ done. cleanup_jobs ttl now namespace expected next rest)
              (delete_owned_object namespace finished.job
                (record expected { name = finished.job.meta.name }) w)
      ]

  module _ (hash : String → String) (namespace_of : Org → String) (net : FabricNetwork) where
    unfoldable pub cleanup_orgs : ℕ → ℕ → ℕ → List Org → Task W ℕ
    unfolding cleanup_jobs expected_owner
    cleanup_orgs ttl now next [] w = return next w
    cleanup_orgs ttl now next (org ∷ rest) w =
        pass_on
          (λ jobs w1.
            pass_on (λ later. cleanup_orgs ttl now later rest)
              (cleanup_jobs ttl now (namespace_of org) (expected_owner hash net org) next jobs w1))
          (list_jobs (namespace_of org) w)

    unfoldable pub cleanup_succeeded_jobs : Option JobCleanupConfig → ℕ → Task W ℕ
    unfolding succeeded_job_cleanup_ttl cleanup_orgs
    cleanup_succeeded_jobs jobs now = elim (succeeded_job_cleanup_ttl jobs) [
      | none ↦ return 0
      | some ttl ↦ cleanup_orgs ttl now 0 net.spec.orgs
    ]
