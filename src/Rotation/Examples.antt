-- ===== src/Rotation/Examples.antt =====
-- A rotation whose Job has succeeded, in a namespace with the first credentials of the authority.
use fabric_ops.Prelude.{String, true, false, [], ◌∷◌, Option, none, some, ◌≡◌, refl, subst, differ}
use fabric_ops.Prelude.Maps.{lookup}
use fabric_ops.Api.Spec.{FabricNetwork, Org}
use fabric_ops.Api.Status.{CaRegistrarRotationPhase, CaRegistrarRotationStatus, ready}
use fabric_ops.Cluster.Calls.{
  Secret, Job, World, Outcome, failed, done, conflicted, granted, give, call,
}
use fabric_ops.Cluster.Objects.{read_text}
use fabric_ops.Rotation.Secrets.{
  ca_registrar_rotation_request_id, ca_bootstrap_secret_name, ca_registrar_previous_secret_name,
  ca_registrar_staged_secret_name, build_ca_registrar_staged_secret,
  enrollment_credential_secret_validation_error,
}
use fabric_ops.Rotation.Steps.{Outside, reconcile_ca_registrar_rotation}
use fabric_ops.Rotation.Reconcile.{reconcile_ca_registrar_rotation-Safe}
use fabric_ops.Rotation.Promotion.{Safe, DistinctNames, DrawsUsable}

abbrev org : Org
org = record {
  organization = record { name = "Org1"; domain = "org1.example.com"; msp_name = "Org1MSP" };
  ca = record {
    db = "sqlite";
    registrar = some (record { rotation = some (record { request_id = "2" }) });
  };
  orderers = [];
  peer = none;
}

abbrev net : FabricNetwork
net = record {
  name = "net";
  namespace = "fabric";
  uid = "";
  spec = record {
    global = record { fabric_version = "2.5"; tls = true };
    orgs = org ∷ [];
    channels = [];
    chaincodes = [];
  };
}

abbrev outside : Outside
outside = record {
  hash = λ s. "0";
  digest = λ s. "d2";
  password = some "xyz";
  now = 5;
  format_time = λ t. "then";
  parse_time = λ s. none;
  ensure_enrollment_rbac = give tt;
}

abbrev first_secret : Secret
first_secret = record {
  meta = record { name = "org1-ca-bootstrap"; labels = []; annotations = [] };
  kind = "Opaque";
  content = ("username", "admin") ∷ ("password", "abc") ∷ ("user-pass", "admin:abc") ∷ [];
}

abbrev finished : Job
finished = record {
  meta = record { name = "org1-ca-bootstrap-rotate-d2"; labels = []; annotations = [] };
  conditions = record { kind = "Complete"; holds = true } ∷ [];
  succeeded = 1;
}

-- One conflict on the way is tried again.
abbrev world : World
world = record {
  secrets = ("org1-ca-bootstrap", first_secret) ∷ [];
  jobs = ("org1-ca-bootstrap-rotate-d2", finished) ∷ [];
  answers =
      granted ∷ granted ∷ granted ∷ granted ∷ granted ∷ granted ∷ granted ∷ granted ∷ granted
      ∷ granted ∷ granted ∷ granted ∷ granted ∷ conflicted ∷ [];
}

phase_after : Outcome CaRegistrarRotationStatus × World → Option CaRegistrarRotationPhase
phase_after (done s, w) = some s.phase
phase_after (failed f, w) = none

username : World → String
username w = elim (lookup "org1-ca-bootstrap" w.secrets) [
  | none ↦ ""
  | some s ↦ read_text "username" s.content
]

rotated :
    (phase_after (reconcile_ca_registrar_rotation outside net org true world) ≡ some ready)
    × (username (reconcile_ca_registrar_rotation outside net org true world).1 ≡ "admin-d2")
    × (username (reconcile_ca_registrar_rotation outside net org false world).1 ≡ "admin")
unfolding reconcile_ca_registrar_rotation phase_after username call
rotated = (refl, refl, refl)

distinct : DistinctNames outside net org (ca_registrar_rotation_request_id org)
unfolding ca_bootstrap_secret_name ca_registrar_previous_secret_name ca_registrar_staged_secret_name
    ca_registrar_rotation_request_id
distinct = (differ _ _ refl, differ _ _ refl, differ _ _ refl)

only_password : (p : String) → outside.password ≡ some p → "xyz" ≡ p
only_password p h = cc

usable : DrawsUsable outside net org (ca_registrar_rotation_request_id org)
unfolding build_ca_registrar_staged_secret enrollment_credential_secret_validation_error
    ca_registrar_rotation_request_id
usable p h =
    subst
      (λ q.
        enrollment_credential_secret_validation_error (
          build_ca_registrar_staged_secret outside.hash outside.digest net org
            (ca_registrar_rotation_request_id org) q)
        ≡ "")
      (only_password p h) refl

reconcile_ca_registrar_rotation-Safe_example :
    Safe outside net org
      (ca_registrar_rotation_request_id org)
      world.secrets
      (reconcile_ca_registrar_rotation outside net org true world).1
reconcile_ca_registrar_rotation-Safe_example =
    reconcile_ca_registrar_rotation-Safe outside net org distinct (λ ss js w h. h) usable true world
