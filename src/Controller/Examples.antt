-- ===== src/Controller/Examples.antt =====
-- A network of one organization, in a world that is the list of the statuses that were written.
use fabric_ops.Prelude.{
  ℕ, String, true, false, List, [], ◌∷◌, none, ◌≡◌, ◌↔◌, ◌⊎◌, ◌<◌, ◌≤◌, refl, sym, ap, subst, ◌==◌,
  eq_iff, eq_refl, All, if◌then◌else◌, arith,
}
use fabric_ops.Api.Spec.{FabricNetwork, Org}
use fabric_ops.Api.Status.{OrgStatus, staging}
use fabric_ops.Api.Network.{Condition, Phase, ready, failed, creating, unset, FabricNetworkStatus}
use fabric_ops.Rotation.Steps.{ca_registrar_rotation_blocks_work}
use fabric_ops.Controller.Tasks.{problem, return}
use fabric_ops.Controller.Orgs.{
  OrgTasks, unset_rotation, initial_org_status, reconcile_org, reconcile_orgs_from,
}
use fabric_ops.Controller.Orgs.Ready.{PrefixOf, reconcile_orgs_from-PrefixOf}
use fabric_ops.Controller.Orgs.Blocked.{with_enrollments, reconcile_org-Blocked}
use fabric_ops.Controller.Conditions.{SetsCondition, is_ready}
use fabric_ops.Controller.Conditions.Ready.{Honest, EverythingReady, is_ready-EverythingReady}
use fabric_ops.Controller.Reconcile.{
  waiting_requeue, StoredNetwork, Found, found, NetworkTasks, result_with_cleanup_requeue, conclude,
  reconcile,
}
use fabric_ops.Controller.Reconcile.Honest.{reconcile-Honest}
use fabric_ops.Controller.Reconcile.Requeue.{
  Earlier, result_with_cleanup_requeue-Earlier, conclude-Requeue, with_other_parts,
  reconcile-Untouched,
}

set_condition : List Condition → Condition → List Condition
set_condition [] c = c ∷ []
set_condition (d ∷ rest) c =
    let more = set_condition rest c in if d.kind == c.kind then c ∷ rest else d ∷ more

set_condition-SetsCondition : SetsCondition set_condition
unfolding set_condition
set_condition-SetsCondition [] c =
    (ground (arith, eq_refl c.kind), λ kind h. ground (arith, eq_iff c.kind kind, h))
set_condition-SetsCondition (d ∷ rest) c =
    let (now, others) = set_condition-SetsCondition rest c in
    (
      ground (arith, now, eq_refl c.kind, eq_iff d.kind c.kind),
      λ kind h.
          let other = others kind h in
          ground (arith, other, h, eq_iff d.kind c.kind, eq_iff d.kind kind, eq_iff c.kind kind),
    )

abbrev Log : Type 0
Log = List FabricNetworkStatus

abbrev org : String → Org
org name = record {
  organization = record { name = name; domain = "org1.example.com"; msp_name = "Org1MSP" };
  ca = record { db = "sqlite"; registrar = none };
  orderers = [];
  peer = none;
}

abbrev net : FabricNetwork
net = record {
  name = "net";
  namespace = "fabric";
  uid = "";
  spec = record {
    global = record { fabric_version = "2.5"; tls = true };
    orgs = org "Org1" ∷ org "Org2" ∷ [];
    channels = [];
    chaincodes = [];
  };
}

abbrev stored : StoredNetwork
stored = record {
  network = net;
  generation = 7;
  is_deleting = false;
  is_finalized = true;
  status = record {
    phase = unset;
    message = "";
    org_status = [];
    channel_status = [];
    chaincode_status = [];
    conditions = [];
  };
}

-- `orderers` of three are ready.
abbrev org_tasks : ℕ → OrgTasks Log
org_tasks orderers = record {
  namespace = "org1";
  ca_endpoint = "";
  orderer_endpoints = [];
  peer_endpoints = [];
  ensure_namespace = return tt;
  network_policy_enabled = true;
  ensure_network_policy = return tt;
  ensure_network_policy_absent = return tt;
  service_monitor_enabled = false;
  ensure_service_monitor = return tt;
  reconcile_identity_material = return tt;
  reconcile_ca = return true;
  reconcile_ca_registrar_rotation = λ ca. return unset_rotation;
  reconcile_admin_enrollment = return tt;
  reconcile_workload_enrollments = return tt;
  identity_material_status = return (true, "");
  reconcile_certificate_lifecycle = λ ca identity blocked. return ([], false, "");
  reconcile_orderers = return (record { desired = 3; ready = orderers });
  reconcile_peers = return (record { desired = 1; ready = 1 });
}

abbrev tasks : ℕ → List String → NetworkTasks Log
tasks orderers problems = record {
  get_network = λ log. (found stored, log);
  cleanup_network = λ n log. (none, log);
  ensure_finalizer = λ log. (none, log);
  remove_finalizer = λ log. (none, log);
  validate_topology = λ n. problems;
  set_condition = set_condition;
  deep_equal = λ a b. false;
  patch_status = λ s log. (none, s ∷ log);
  record_event = λ reason message log. log;
  org_tasks = λ n o. org_tasks orderers;
  reconcile_channels = λ n orgs log. (([], none), log);
  reconcile_chaincodes = λ n channels log. (([], none), log);
  reconcile_connection_profiles = λ n orgs log. ((orgs, none), log);
  cleanup_succeeded_jobs = λ n log. ((0, none), log);
}

phases : Log → List Phase
phases [] = []
phases (s ∷ log) = s.phase ∷ phases log

written :
    (phases (reconcile (tasks 3 []) []).1 ≡ (ready ∷ []))
    × (phases (reconcile (tasks 2 []) []).1 ≡ (creating ∷ []))
    × ((reconcile (tasks 2 []) []).0.0 ≡ waiting_requeue)
    × (phases (reconcile (tasks 3 ("no orderer" ∷ [])) []).1 ≡ (failed ∷ []))
unfolding phases reconcile
written = (refl, refl, refl, refl)

generation_of : Found → ℕ
generation_of (found n) = n.generation
generation_of _ = 7

reconcile-Honest_example : All (Honest 7) (reconcile (tasks 3 []) []).1
unfolding generation_of
reconcile-Honest_example =
    reconcile-Honest (All (Honest 7)) (tasks 3 [])
      (
        (λ w i. i),
        (λ n w i. i),
        (λ w i. i),
        (λ w i. i),
        (λ reason message w i. i),
        (λ n o. (
          (λ w i. i),
          (λ w i. i),
          (λ w i. i),
          (λ w i. i),
          (λ w i. i),
          (λ w i. i),
          (λ ca w i. i),
          (λ w i. i),
          (λ w i. i),
          (λ w i. i),
          (λ ca identity blocked w i. i),
          (λ w i. i),
          (λ w i. i),
        )),
        (λ n orgs w i. i),
        (λ n channels w i. i),
        (λ n orgs w i. i),
        (λ n w i. i),
      )
      set_condition-SetsCondition []
      (λ n e s honest w i. (subst (λ g. Honest g s) (sym (ap generation_of e)) honest, i)) tt

-- A Job is to be deleted in 300 milliseconds.
abbrev cleaning : NetworkTasks Log
cleaning = record (tasks 3 []) { cleanup_succeeded_jobs = λ n log. ((300000000, none), log) }

requeued : (conclude cleaning stored [] [] [] []).0.0 ≡ 300000000
unfolding conclude
requeued = refl

conclude-Requeue_example :
    EverythingReady [] [] []
    ⊎ ((0 < (conclude cleaning stored [] [] [] []).0.0)
        × ((conclude cleaning stored [] [] [] []).0.0 ≤ waiting_requeue))
unfolding conclude
conclude-Requeue_example = conclude-Requeue cleaning stored [] [] [] [] refl

reconcile-Untouched_example :
    reconcile (with_other_parts (tasks 3 ("no orderer" ∷ [])) (tasks 2 [])) []
    ≡ reconcile (tasks 3 ("no orderer" ∷ [])) []
reconcile-Untouched_example =
    reconcile-Untouched (tasks 3 ("no orderer" ∷ [])) (tasks 2 []) [] (λ n e h. absurd (cc))

abbrev one_status : OrgStatus
one_status = initial_org_status (org_tasks 3) (org "Org1")

is_ready-EverythingReady_example :
    (is_ready (one_status ∷ []) [] [] ≡ true) ↔ EverythingReady (one_status ∷ []) [] []
is_ready-EverythingReady_example = is_ready-EverythingReady (one_status ∷ []) [] []

result_with_cleanup_requeue-Earlier_example : Earlier 10 4 (result_with_cleanup_requeue 10 4)
result_with_cleanup_requeue-Earlier_example = result_with_cleanup_requeue-Earlier 10 4

reconcile_orgs_from-PrefixOf_example :
    PrefixOf net.spec.orgs (reconcile_orgs_from (λ o. org_tasks 2) net.spec.orgs []).0
reconcile_orgs_from-PrefixOf_example =
    reconcile_orgs_from-PrefixOf (λ o. org_tasks 2) net.spec.orgs []

abbrev rotating_tasks : OrgTasks Log
rotating_tasks = record (org_tasks 3) {
  reconcile_ca_registrar_rotation = λ ca. return (record unset_rotation { phase = staging });
}

reconcile_org-Blocked_example :
    reconcile_org
      (with_enrollments rotating_tasks (λ log. (problem "refused", log)) (return tt))
      (org "Org1")
      []
    ≡ reconcile_org rotating_tasks (org "Org1") []
unfolding ca_registrar_rotation_blocks_work
reconcile_org-Blocked_example =
    reconcile_org-Blocked rotating_tasks (λ log. (problem "refused", log)) (return tt) (org "Org1")
      (λ ca w. refl) []
