-- ===== src/Cleanup/Examples.antt =====
-- A namespace with a Job to delete, one to wait for and one that is not marked.
use fabric_ops.Prelude.{ℕ, String, true, List, [], ◌∷◌, All, none, some, ◌≡◌, refl}
use fabric_ops.Prelude.Maps.{Map, lookup}
use fabric_ops.Cluster.Calls.{Job}
use fabric_ops.Cluster.Objects.{job_succeeded}
use fabric_ops.Controller.Tasks.{Reply, value, Task, return, Gives}
use fabric_ops.Api.Spec.{FabricNetwork, Org}
use fabric_ops.Cleanup.{
  JobCleanupConfig, FinishedJob, succeeded_job_cleanup_annotations, succeeded_job_cleanup_eligible,
  expected_owner, cleanup_jobs, cleanup_succeeded_jobs,
}
use fabric_ops.Cleanup.Due.{cleanup_succeeded_jobs-Kept}
use fabric_ops.Cleanup.Next.{Awaits, cleanup_jobs-Awaits}

abbrev owned : Map String
owned =
    ("fabricops.io/fabricnetwork", "net") ∷ ("fabricops.io/fabricnetwork-namespace", "fabric") ∷ []

abbrev finished : String → Map String → ℕ → FinishedJob
finished name annotations completion = record {
  job = record {
    meta = record { name = name; labels = []; annotations = annotations };
    conditions = record { kind = "Complete"; holds = true } ∷ [];
    succeeded = 1;
  };
  completion_time = some completion;
}

abbrev jobs : List FinishedJob
jobs =
    finished "old" (succeeded_job_cleanup_annotations owned) 1000000000
    ∷ finished "new" (succeeded_job_cleanup_annotations owned) 9000000000
    ∷ finished "result" owned 1000000000
    ∷ []

-- The world is the list of the Jobs that were deleted.
abbrev list_jobs : String → Task (List Job) (List FinishedJob)
list_jobs namespace = return jobs

abbrev delete_job : String → Job → Task (List Job) (Unit {0})
delete_job namespace job w = (value tt, job ∷ w)

abbrev org : Org
org = record {
  organization = record { name = "Org1"; domain = "org1.example.com"; msp_name = "Org1MSP" };
  ca = record { db = "sqlite"; registrar = none };
  orderers = [];
  peer = none;
}

abbrev net : FabricNetwork
net = record {
  name = "net";
  namespace = "fabric";
  uid = "";
  spec = record {
    global = record { fabric_version = "2.5"; tls = true };
    orgs = org ∷ [];
    channels = [];
    chaincodes = [];
  };
}

abbrev config : JobCleanupConfig
config = record { succeeded_history_ttl_seconds = some 3 }

abbrev ran : Reply ℕ × List Job
ran =
    cleanup_succeeded_jobs list_jobs delete_job (λ s. "0") (λ o. "org1") net (some config)
      10000000000 []

deleted : List Job → List String
deleted [] = []
deleted (j ∷ js) = j.meta.name ∷ deleted js

cleaned : (ran.0 ≡ value 2000000000) × (deleted ran.1 ≡ ("old" ∷ []))
unfolding cleanup_succeeded_jobs deleted succeeded_job_cleanup_annotations lookup
cleaned = (refl, refl)

-- Only Jobs that are marked and have succeeded are deleted.
abbrev OnlySucceeded : List Job → Type 0
OnlySucceeded = All (λ j. (succeeded_job_cleanup_eligible j ≡ true) × (job_succeeded j ≡ true))

cleanup_succeeded_jobs-Kept_example : OnlySucceeded ran.1
cleanup_succeeded_jobs-Kept_example =
    cleanup_succeeded_jobs-Kept OnlySucceeded list_jobs delete_job (λ s. "0") (λ o. "org1") net
      (some config) 10000000000 (λ namespace w h. h)
      (λ ttl e o f w over mine h. ((over.0, over.1), h)) [] tt

cleanup_jobs-Awaits_example : Gives (Awaits 3000000000 10000000000 0 jobs) (
    cleanup_jobs list_jobs delete_job 3000000000 10000000000 "org1"
      (expected_owner (λ s. "0") net org)
      0
      jobs
      [])
cleanup_jobs-Awaits_example =
    cleanup_jobs-Awaits list_jobs delete_job 3000000000 10000000000 "org1"
      (expected_owner (λ s. "0") net org) 0 jobs []
