-- ===== src/Cluster/Writes.antt =====
-- How an object is brought to what is wanted: `updateObjectWithRetry` of
-- internal/controller/fabricnetwork_controller.go, `ensureSecret` of fabricnetwork_identity.go,
-- `upsertSecretData` and `secretDataEqual` of fabricnetwork_ca_registrar_rotation.go and `ensureJob` of
-- fabricnetwork_enrollment.go. An object stands under its own name in the namespace.
use fabric_ops.Prelude.{
  ℕ, String, Bool, true, not, ◌&&◌, ◌||◌, [], ◌∷◌, none, some, ◌==◌, nat_eq, length, all,
  if◌then◌else◌,
}
use fabric_ops.Prelude.Maps.{Map}
use fabric_ops.Cluster.Calls.{
  Meta, Secret, Job, Action, give, fail, existing, other_owner, ◌>>=◌, get_secret, put_secret,
  write_secret, get_job, put_job, retry_on_conflict,
}
use fabric_ops.Cluster.Objects.{read_text, merge_string_map, is_same_owner}

-- `retry.DefaultRetry.Steps`.
abbrev pub default_retries : ℕ
default_retries = 5

-- One attempt of `updateObjectWithRetry` on a Secret; `mutate` gives the new object and whether it changed.
unfoldable pub update_secret_once : Meta → (Secret → Secret × Bool) → Action (Unit {0})
unfolding get_secret write_secret is_same_owner
update_secret_once desired mutate = do
  found ← get_secret desired.name
  old ← existing found
  if is_same_owner old.meta desired
      then (if (mutate old).1 then write_secret desired.name (mutate old).0 else give tt)
      else fail other_owner

unfoldable pub update_secret : Meta → (Secret → Secret × Bool) → Action (Unit {0})
unfolding update_secret_once retry_on_conflict
update_secret desired mutate = retry_on_conflict default_retries (update_secret_once desired mutate)

-- `secretDataEqual`: as long as the other, and the other reads the same at each key of the first.
unfoldable pub secret_data_equal : Map String → Map String → Bool
secret_data_equal a b =
    nat_eq (length a) (length b) && all (λ entry. entry.1 == read_text entry.0 b) a

-- A Secret with the labels and the annotations of `desired` merged in, and whether they changed it.
unfoldable pub merged_secret : Secret → Secret → Secret × Bool
unfolding merge_string_map
merged_secret desired old =
    let labels = merge_string_map old.meta.labels desired.meta.labels in
    let annotations = merge_string_map old.meta.annotations desired.meta.annotations in
    (
      record old {
        meta = record { name = old.meta.name; labels = labels.0; annotations = annotations.0 };
      },
      elim old.meta.labels [ [] ↦ true | _ ∷ _ ↦ labels.1 ] || annotations.1,
    )

-- The mutation of `ensureSecret`.
unfoldable pub ensured_secret : Secret → (Secret → String) → Secret → Secret × Bool
unfolding merged_secret
ensured_secret desired validation_error old =
    if validation_error (merged_secret desired old).0 == "" then merged_secret desired old else (
      record (merged_secret desired old).0 { content = desired.content; kind = desired.kind },
      true,
    )

unfoldable pub ensure_secret : Secret → (Secret → String) → Action (Unit {0})
unfolding get_secret put_secret update_secret ensured_secret
ensure_secret desired validation_error = do
  found ← get_secret desired.meta.name
  elim found [
    | none ↦ put_secret desired
    | some _ ↦ update_secret desired.meta (ensured_secret desired validation_error)
  ]

-- The mutation of `upsertSecretData`.
unfoldable pub upserted_secret : Secret → Secret → Secret × Bool
unfolding merge_string_map secret_data_equal
upserted_secret desired old =
    let labels = merge_string_map old.meta.labels desired.meta.labels in
    let annotations = merge_string_map old.meta.annotations desired.meta.annotations in
    let same = secret_data_equal old.content desired.content in
    (
      record old {
        meta = record { name = old.meta.name; labels = labels.0; annotations = annotations.0 };
        kind = desired.kind;
        content = if same then old.content else desired.content;
      },
      labels.1 || annotations.1 || not (old.kind == desired.kind) || not same,
    )

unfoldable pub upsert_secret_data : Secret → Action (Unit {0})
unfolding get_secret put_secret update_secret upserted_secret
upsert_secret_data desired = do
  found ← get_secret desired.meta.name
  elim found [
    | none ↦ put_secret desired
    | some _ ↦ update_secret desired.meta (upserted_secret desired)
  ]

-- The mutation of `ensureJob` keeps a Job from cleanup that did not ask for it.
without : String → Map String → Map String
without k [] = []
without k ((j, v) ∷ m) = let rest = without k m in if j == k then rest else (j, v) ∷ rest

abbrev pub annotation_succeeded_job_cleanup : String
annotation_succeeded_job_cleanup = "fabricops.io/succeeded-job-cleanup"

unfoldable pub ensured_job : Job → Job → Job × Bool
unfolding merge_string_map without
ensured_job desired old =
    let wanted =
      if read_text annotation_succeeded_job_cleanup old.meta.annotations == "true"
      then desired.meta.annotations
      else without annotation_succeeded_job_cleanup desired.meta.annotations in
    let labels = merge_string_map old.meta.labels desired.meta.labels in
    let annotations = merge_string_map old.meta.annotations wanted in
    (
      record old {
        meta = record { name = old.meta.name; labels = labels.0; annotations = annotations.0 };
      },
      labels.1 || annotations.1,
    )

unfoldable pub update_job_once : Job → Action (Unit {0})
unfolding get_job put_job is_same_owner ensured_job
update_job_once desired = do
  found ← get_job desired.meta.name
  old ← existing found
  if is_same_owner old.meta desired.meta
      then (if (ensured_job desired old).1 then put_job (ensured_job desired old).0 else give tt)
      else fail other_owner

unfoldable pub ensure_job : Job → Action (Unit {0})
unfolding get_job put_job update_job_once retry_on_conflict
ensure_job desired = do
  found ← get_job desired.meta.name
  elim found [
    | none ↦ put_job desired
    | some _ ↦ retry_on_conflict default_retries (update_job_once desired)
  ]
