-- ===== src/Rotation/Secrets.antt =====
-- The Secrets and the Job of a rotation: their names, how they are checked and how they are built
-- (internal/controller/fabricnetwork_ca_registrar_rotation.go and fabricnetwork_identity.go). The pod of
-- the Job is left out. Parameters: the FNV hash of long names, and `shortDigest`, which is SHA-256.
use fabric_ops.Prelude.{
  String, Bool, not, ◌&&◌, List, [], ◌∷◌, none, some, ◌==◌, all, if◌then◌else◌,
}
use fabric_ops.Prelude.Maps.{Map, insert, has_key}
use fabric_ops.Text.{◌<>◌, trim_space, join}
use fabric_ops.Naming.{sanitize_name}
use fabric_ops.Api.Spec.{FabricNetwork, Org}
use fabric_ops.Cluster.Calls.{Secret, Job}
use fabric_ops.Cluster.Objects.{read_text, resource_annotations, identity_labels}
use fabric_ops.Cluster.Writes.{annotation_succeeded_job_cleanup}

abbrev pub annotation_request_id : String
annotation_request_id = "fabricops.io/ca-registrar-rotation-request-id"

abbrev pub annotation_rotation_time : String
annotation_rotation_time = "fabricops.io/ca-registrar-rotation-time"

abbrev pub annotation_previous_secret : String
annotation_previous_secret = "fabricops.io/ca-registrar-previous-secret"

abbrev pub label_identity_kind : String
label_identity_kind = "fabricops.io/identity-kind"

unfoldable pub ca_bootstrap_secret_keys : List String
ca_bootstrap_secret_keys = "username" ∷ "password" ∷ "user-pass" ∷ []

unfoldable pub missing_secret_keys : Map String → List String → List String
unfolding has_key
missing_secret_keys content [] = []
missing_secret_keys content (key ∷ keys) =
    let rest = missing_secret_keys content keys in if has_key key content then rest else key ∷ rest

-- The reason for which the credentials of a Secret cannot be used, and "" where they can.
unfoldable pub enrollment_credential_secret_validation_error : Secret → String
unfolding missing_secret_keys ca_bootstrap_secret_keys trim_space join
enrollment_credential_secret_validation_error s =
    let username = trim_space (read_text "username" s.content) in
    let password = trim_space (read_text "password" s.content) in
    let user_pass = trim_space (read_text "user-pass" s.content) in
    elim (missing_secret_keys s.content ca_bootstrap_secret_keys) [
      | key ∷ keys ↦ "missing keys: " <> join "," (key ∷ keys)
      | [] ↦
          if username == ""
          then "empty enrollment username"
          else if password == ""
          then "empty enrollment password"
          else if not (user_pass == (username <> ":" <> password))
          then "enrollment user-pass does not match username/password"
          else ""
    ]

unfoldable pub ca_registrar_rotation_request_id : Org → String
ca_registrar_rotation_request_id org = elim org.ca.registrar [
  | none ↦ ""
  | some registrar ↦ elim registrar.rotation [ none ↦ "" | some rotation ↦ rotation.request_id ]
]

unfoldable pub credential_secret_username : Secret → String
credential_secret_username s = read_text "username" s.content

-- The active Secret was promoted from the staged one for this request.
unfoldable pub ca_registrar_rotation_promoted : Secret → Secret → String → Bool
unfolding ca_bootstrap_secret_keys
ca_registrar_rotation_promoted active staged request_id =
    read_text annotation_request_id active.meta.annotations == request_id
    && all (λ key. read_text key active.content == read_text key staged.content)
        ca_bootstrap_secret_keys

module _ (hash digest : String → String) where
  unfoldable pub ca_bootstrap_secret_name : Org → String
  unfolding sanitize_name
  ca_bootstrap_secret_name org = sanitize_name hash (org.organization.name <> "-ca-bootstrap")

  unfoldable pub ca_registrar_staged_secret_name : Org → String → String
  unfolding sanitize_name ca_bootstrap_secret_name
  ca_registrar_staged_secret_name org request_id =
      sanitize_name hash (ca_bootstrap_secret_name org <> "-next-" <> digest request_id)

  unfoldable pub ca_registrar_previous_secret_name : Org → String
  unfolding sanitize_name ca_bootstrap_secret_name
  ca_registrar_previous_secret_name org =
      sanitize_name hash (ca_bootstrap_secret_name org <> "-previous")

  unfoldable pub ca_registrar_rotation_job_name : Org → String → String
  unfolding sanitize_name ca_bootstrap_secret_name
  ca_registrar_rotation_job_name org request_id =
      sanitize_name hash (ca_bootstrap_secret_name org <> "-rotate-" <> digest request_id)

  unfoldable pub ca_registrar_next_username : String → String
  unfolding sanitize_name
  ca_registrar_next_username request_id = sanitize_name hash ("admin-" <> digest request_id)

  -- What the three Secrets of a rotation have in common.
  unfoldable pub credential_secret :
      FabricNetwork → Org → String → String → Map String → Map String → Secret
  unfolding identity_labels
  credential_secret net org name identity_kind annotations content = record {
    meta = record {
      name = name;
      labels = identity_labels hash net org "ca" name ((label_identity_kind, identity_kind) ∷ []);
      annotations = annotations;
    };
    kind = "Opaque";
    content = content;
  }

  unfoldable pub build_ca_registrar_staged_secret : FabricNetwork → Org → String → String → Secret
  unfolding credential_secret ca_registrar_staged_secret_name ca_registrar_next_username
      resource_annotations insert
  build_ca_registrar_staged_secret net org request_id password =
      let username = ca_registrar_next_username request_id in
      credential_secret net org (ca_registrar_staged_secret_name org request_id) "ca-bootstrap-next"
        (insert annotation_request_id request_id (resource_annotations net org))
        (("username", username)
          ∷ ("password", password)
          ∷ ("user-pass", username <> ":" <> password)
          ∷ [])

  -- The annotation of `from`, where it has one that is not empty.
  keep_annotation : String → Map String → Map String → Map String
  unfolding insert
  keep_annotation key from annotations =
      if read_text key from == "" then annotations else insert key (read_text key from) annotations

  unfoldable pub build_ca_registrar_previous_secret : FabricNetwork → Org → Secret → Secret
  unfolding credential_secret ca_registrar_previous_secret_name keep_annotation resource_annotations
  build_ca_registrar_previous_secret net org active =
      credential_secret net org (ca_registrar_previous_secret_name org) "ca-bootstrap-previous"
        (keep_annotation annotation_rotation_time active.meta.annotations (
          keep_annotation annotation_request_id active.meta.annotations
            (resource_annotations net org)))
        active.content

  -- `time` is the time of the rotation in RFC 3339.
  unfoldable pub build_promoted_ca_registrar_secret :
      FabricNetwork → Org → Secret → String → String → Secret
  unfolding credential_secret ca_bootstrap_secret_name ca_registrar_previous_secret_name
      resource_annotations insert
  build_promoted_ca_registrar_secret net org staged request_id time =
      credential_secret net org (ca_bootstrap_secret_name org) "ca-bootstrap"
        (insert annotation_previous_secret (ca_registrar_previous_secret_name org) (
          insert annotation_rotation_time time
            (insert annotation_request_id request_id (resource_annotations net org))))
        staged.content

  unfoldable pub build_ca_registrar_rotation_job : FabricNetwork → Org → String → Job
  unfolding identity_labels ca_registrar_rotation_job_name ca_bootstrap_secret_name
      resource_annotations insert
  build_ca_registrar_rotation_job net org request_id = record {
    meta = record {
      name = ca_registrar_rotation_job_name org request_id;
      labels =
          identity_labels hash net org "ca" (ca_bootstrap_secret_name org)
            ((label_identity_kind, "ca-registrar-rotation") ∷ []);
      annotations =
          insert annotation_succeeded_job_cleanup "true"
            (insert annotation_request_id request_id (resource_annotations net org));
    };
    conditions = [];
    succeeded = 0;
  }
