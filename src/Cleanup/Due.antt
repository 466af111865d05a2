-- ===== src/Cleanup/Due.antt =====
-- Which Jobs are deleted.
use fabric_ops.Prelude.{
  ℕ, ◌+◌, ◌-◌, ◌≤◌, String, Bool, true, false, not, ◌||◌, List, [], ◌∷◌, Option, none, some, ◌≡◌,
  refl, ltb, if◌then◌else◌, arith,
}
use fabric_ops.Cluster.Calls.{Meta, Job}
use fabric_ops.Cluster.Objects.{is_same_owner, job_succeeded}
use fabric_ops.Controller.Tasks.{Reply, problem, value, Task, pass_on}
use fabric_ops.Api.Spec.{FabricNetwork, Org}
use fabric_ops.Cleanup.{
  JobCleanupConfig, FinishedJob, succeeded_job_cleanup_ttl, succeeded_job_cleanup_eligible,
  has_fabric_network_owner, Disposal, retained, waiting, due, disposal, next_cleanup,
  expected_owner, delete_owned_object, cleanup_jobs, cleanup_orgs, cleanup_succeeded_jobs,
}

-- The Job is marked for cleanup, has succeeded, and did so at least that time ago.
abbrev pub IsOver : ℕ → ℕ → FinishedJob → Type 0
IsOver ttl now f =
    (succeeded_job_cleanup_eligible f.job ≡ true)
    × (job_succeeded f.job ≡ true)
    × ((completion : ℕ) × (f.completion_time ≡ some completion) × (completion + ttl ≤ now))

-- The owner that the Job names is the one that is expected.
abbrev pub IsOwned : Meta → Job → Type 0
IsOwned expected job =
    (has_fabric_network_owner job.meta ≡ true)
    × (is_same_owner job.meta (record expected { name = job.meta.name }) ≡ true)

over :
    (marked succeeded : Bool) (now deadline : ℕ)
    → if◌then◌else◌ {A = Disposal}
        (not marked || not succeeded)
        retained
        (if ltb now deadline then waiting (deadline - now) else due)
      ≡ due
    → (marked ≡ true) × (succeeded ≡ true) × (deadline ≤ now)
over marked succeeded now deadline h = ground arith

disposal-IsOver : (ttl now : ℕ) (f : FinishedJob) → disposal ttl now f ≡ due → IsOver ttl now f
unfolding disposal
disposal-IsOver ttl now f h = by_time f.completion_time refl h
  where
    by_time :
        (o : Option ℕ)
        → f.completion_time ≡ o
        → elim o as (λ _. Disposal) [
          | none ↦ retained
          | some completion ↦
              if not (succeeded_job_cleanup_eligible f.job) || not (job_succeeded f.job)
              then retained
              else if ltb now (completion + ttl)
              then waiting (completion + ttl - now)
              else due
        ]
          ≡ due
        → IsOver ttl now f
    by_time none e d = absurd (cc)
    by_time (some completion) e d =
        let facts =
          over (succeeded_job_cleanup_eligible f.job) (job_succeeded f.job) now (completion + ttl)
            d in
        (facts.0, facts.1, (completion, e, facts.2))

module _ {W : Type 0} (I : W → Type 0) where
  after_reply :
      {A B : Type 0} (next : A → Task W B) (r : Reply A × W)
      → I r.1
      → ((a : A) (w : W) → I w → I (next a w).1)
      → I (pass_on next r).1
  after_reply next (problem text, w) h kept = h
  after_reply next (value a, w) h kept = kept a w h

  guarded :
      (owned same : Bool) (delete : Task W (Unit {0})) (text : String) (w : W)
      → ((owned ≡ true) × (same ≡ true) → I w → I (delete w).1)
      → I w
      → I
          (if◌then◌else◌ {A = Task W (Unit {0})}
            (not owned)
            (λ w. (value tt, w))
            (if same then delete else (λ w. (problem text, w)))
            w).1
  guarded false same delete text w kept h = h
  guarded true true delete text w kept h = kept (refl, refl) h
  guarded true false delete text w kept h = h

module _ {W : Type 0} (I : W → Type 0) (list_jobs : String → Task W (List FinishedJob))
    (delete_job : String → Job → Task W (Unit {0})) where
  delete-Kept :
      (namespace : String) (expected : Meta) (job : Job) (w : W)
      → (IsOwned expected job → I w → I (delete_job namespace job w).1)
      → I w
      → I
          (delete_owned_object list_jobs delete_job namespace job
            (record expected { name = job.meta.name })
            w).1
  unfolding delete_owned_object
  delete-Kept namespace expected job w kept h =
      guarded I (has_fabric_network_owner job.meta)
        (is_same_owner job.meta (record expected { name = job.meta.name }))
        (delete_job namespace job) _ w kept h

  jobs-Kept :
      (ttl now : ℕ) (namespace : String) (expected : Meta)
      → ((f : FinishedJob) (w : W)
          → IsOver ttl now f
          → IsOwned expected f.job
          → I w
          → I (delete_job namespace f.job w).1)
      → (next : ℕ) (jobs : List FinishedJob) (w : W) → I w
      → I (cleanup_jobs list_jobs delete_job ttl now namespace expected next jobs w).1
  unfolding cleanup_jobs
  jobs-Kept ttl now namespace expected kept next [] w h = h
  jobs-Kept ttl now namespace expected kept next (f ∷ rest) w h =
      by_disposal (λ later. jobs-Kept ttl now namespace expected kept later rest)
        (disposal ttl now f) refl
    where
      by_disposal :
          ((later : ℕ) (w1 : W)
            → I w1
            → I (cleanup_jobs list_jobs delete_job ttl now namespace expected later rest w1).1)
          → (d : Disposal) → disposal ttl now f ≡ d
          → I
              (elim d as (λ _. Reply ℕ × W) [
                | retained ↦
                    cleanup_jobs list_jobs delete_job ttl now namespace expected next rest w
                | waiting remaining ↦
                    cleanup_jobs list_jobs delete_job ttl now namespace expected
                      (next_cleanup next remaining)
                      rest
                      w
                | due ↦
                    pass_on
                      (λ done.
                        cleanup_jobs list_jobs delete_job ttl now namespace expected next rest)
                      (delete_owned_object list_jobs delete_job namespace f.job
                        (record expected { name = f.job.meta.name })
                        w)
              ]).1
      by_disposal later retained e = later next w h
      by_disposal later (waiting remaining) e = later (next_cleanup next remaining) w h
      by_disposal later due e =
          after_reply I
            (λ done. cleanup_jobs list_jobs delete_job ttl now namespace expected next rest)
            (delete_owned_object list_jobs delete_job namespace f.job
              (record expected { name = f.job.meta.name }) w)
            (delete-Kept namespace expected f.job w (kept f w (disposal-IsOver ttl now f e)) h)
            (λ done w1 h1. later next w1 h1)

  module _ (hash : String → String) (namespace_of : Org → String) (net : FabricNetwork) where
    -- The deletion of a Job that may be deleted keeps the invariant.
    abbrev pub DeletesKeep : ℕ → ℕ → Type 0
    DeletesKeep ttl now =
        (org : Org) (f : FinishedJob) (w : W)
        → IsOver ttl now f
        → IsOwned (expected_owner hash net org) f.job
        → I w
        → I (delete_job (namespace_of org) f.job w).1

    orgs-Kept :
        (ttl now : ℕ)
        → ((namespace : String) (w : W) → I w → I (list_jobs namespace w).1)
        → DeletesKeep ttl now
        → (next : ℕ) (orgs : List Org) (w : W) → I w
        → I (cleanup_orgs list_jobs delete_job hash namespace_of net ttl now next orgs w).1
    unfolding cleanup_orgs
    orgs-Kept ttl now listed kept next [] w h = h
    orgs-Kept ttl now listed kept next (org ∷ rest) w h =
        after_reply I
          (λ jobs w1.
            pass_on
              (λ later. cleanup_orgs list_jobs delete_job hash namespace_of net ttl now later rest)
              (cleanup_jobs list_jobs delete_job ttl now (namespace_of org)
                (expected_owner hash net org) next jobs w1))
          (list_jobs (namespace_of org) w) (listed (namespace_of org) w h)
          (λ jobs w1 h1.
            after_reply I
              (λ later. cleanup_orgs list_jobs delete_job hash namespace_of net ttl now later rest)
              (cleanup_jobs list_jobs delete_job ttl now (namespace_of org)
                (expected_owner hash net org) next jobs w1)
              (jobs-Kept ttl now (namespace_of org) (expected_owner hash net org) (kept org) next
                jobs w1 h1)
              (λ later w2 h2. orgs-Kept ttl now listed kept later rest w2 h2))

    -- An invariant of the world is kept by cleanupSucceededJobs, with an error or without,
    -- if listing Jobs keeps it and, where a time to live is set, so does the deletion of a
    -- Job that is marked for cleanup, has succeeded at least that time ago, and names the
    -- network as its owner: it deletes no other Job.
    pub cleanup_succeeded_jobs-Kept :
        (jobs : Option JobCleanupConfig) (now : ℕ)
        → ((namespace : String) (w : W) → I w → I (list_jobs namespace w).1)
        → ((ttl : ℕ) → succeeded_job_cleanup_ttl jobs ≡ some ttl → DeletesKeep ttl now)
        → (w : W) → I w
        → I (cleanup_succeeded_jobs list_jobs delete_job hash namespace_of net jobs now w).1
    unfolding cleanup_succeeded_jobs
    cleanup_succeeded_jobs-Kept jobs now listed kept w h =
        by_ttl (succeeded_job_cleanup_ttl jobs) refl
      where
        by_ttl :
            (o : Option ℕ)
            → succeeded_job_cleanup_ttl jobs ≡ o
            → I
                ((elim o as (λ _. Task W ℕ) [
                  | none ↦ (λ w. (value 0, w))
                  | some ttl ↦
                      cleanup_orgs list_jobs delete_job hash namespace_of net ttl now 0
                        net.spec.orgs
                ])
                  w).1
        by_ttl none e = h
        by_ttl (some ttl) e = orgs-Kept ttl now listed (kept ttl e) 0 net.spec.orgs w h
