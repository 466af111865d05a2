-- ===== src/Cluster/Objects.antt =====
-- Labels, annotations and ownership: `baseLabels`, `orgLabels`, `resourceAnnotations` and `mergeMap` of
-- internal/controller/fabricnetwork_org.go, `identityLabels` of fabricnetwork_identity.go, `mergeStringMap`
-- of fabricnetwork_enrollment.go, and the owner checks of fabricnetwork_controller.go. A map that is read
-- from the server is nil when it is empty.
use fabric_ops.Prelude.{
  zero, suc, String, Bool, true, false, not, ◌&&◌, ◌||◌, List, [], ◌∷◌, ◌++◌, none, some, ◌==◌,
  if◌then◌else◌,
}
use fabric_ops.Prelude.Maps.{Map, lookup, insert}
use fabric_ops.Naming.{sanitize_name}
use fabric_ops.Cluster.Calls.{Meta, Job, JobCondition}
use fabric_ops.Api.Spec.{FabricNetwork, Org}

abbrev pub label_fabric_network : String
label_fabric_network = "fabricops.io/fabricnetwork"

abbrev pub label_fabric_network_namespace : String
label_fabric_network_namespace = "fabricops.io/fabricnetwork-namespace"

-- `m[key]` of a map of texts: the empty text for a key that is not there.
abbrev pub read_text : String → Map String → String
read_text key m = elim (lookup key m) [ none ↦ "" | some v ↦ v ]

-- `maps.Copy(m, extra)`.
unfoldable pub copy_into : Map String → Map String → Map String
unfolding insert
copy_into m [] = m
copy_into m ((k, v) ∷ extra) = copy_into (insert k v m) extra

unfoldable pub resource_annotations : FabricNetwork → Org → Map String
resource_annotations net org =
    let base =
      ("fabricops.io/managed-by", "fabricops-controller")
      ∷ (label_fabric_network, net.name)
      ∷ (label_fabric_network_namespace, net.namespace)
      ∷ ("fabricops.io/org", org.organization.name)
      ∷ [] in
    if net.uid == "" then base else base ++ ("fabricops.io/fabricnetwork-uid", net.uid) ∷ []

module _ (hash : String → String) where
  unfoldable pub base_labels : FabricNetwork → Map String
  unfolding sanitize_name
  base_labels net =
      (label_fabric_network, sanitize_name hash net.name)
      ∷ (label_fabric_network_namespace, sanitize_name hash net.namespace)
      ∷ ("app.kubernetes.io/name", "fabricops")
      ∷ ("app.kubernetes.io/managed-by", "fabricops")
      ∷ ("app.kubernetes.io/part-of", sanitize_name hash net.name)
      ∷ []

  unfoldable pub org_labels : FabricNetwork → Org → String → Map String
  unfolding base_labels insert sanitize_name
  org_labels net org component = insert "app.kubernetes.io/component" component (
      insert "fabricops.io/component" component
        (insert "fabricops.io/org" (sanitize_name hash org.organization.name) (base_labels net)))

  unfoldable pub identity_labels : FabricNetwork → Org → String → String → Map String → Map String
  unfolding org_labels copy_into insert
  identity_labels net org component workload extra =
      copy_into (insert "fabricops.io/workload" workload (org_labels net org component)) extra

merge_entry : Map String × Bool → String → String → Map String × Bool
unfolding insert lookup
merge_entry state key value =
    if read_text key state.0 == value then state else (insert key value state.0, true)

merge_from : Map String × Bool → Map String → Map String × Bool
unfolding merge_entry
merge_from state [] = state
merge_from state ((key, value) ∷ desired) = merge_from (merge_entry state key value) desired

-- `mergeStringMap`: the map after it, and whether it changed.
unfoldable pub merge_string_map : Map String → Map String → Map String × Bool
unfolding merge_from
merge_string_map old desired =
    merge_from (old, elim old [ [] ↦ elim desired [ [] ↦ false | _ ∷ _ ↦ true ] | _ ∷ _ ↦ false ])
      desired

pub record FabricNetworkOwner : Type 0 where
  pub name : String
  pub namespace : String

-- `fabricNetworkOwnerFromAnnotations` and `fabricNetworkOwnerFromLabels`, of the map that they read.
unfoldable pub owner_from : Map String → FabricNetworkOwner
owner_from m = record {
  name = read_text label_fabric_network m;
  namespace = read_text label_fabric_network_namespace m;
}

unfoldable pub is_owner : FabricNetworkOwner → Bool
is_owner o = not (o.name == "") || not (o.namespace == "")

unfoldable pub is_matching_owner : FabricNetworkOwner → FabricNetworkOwner → Bool
is_matching_owner old desired = old.name == desired.name && old.namespace == desired.namespace

-- `ensureSameFabricNetworkOwner` finds no fault.
unfoldable pub is_same_owner : Meta → Meta → Bool
unfolding is_owner is_matching_owner owner_from
is_same_owner old desired =
    if is_owner (owner_from old.annotations)
    then is_matching_owner (owner_from old.annotations) (owner_from desired.annotations)
    else if is_owner (owner_from old.labels)
    then is_matching_owner (owner_from old.labels) (owner_from desired.labels)
    else true

is_failure : List JobCondition → Bool
is_failure [] = false
is_failure (c ∷ cs) =
    (c.holds && (c.kind == "Failed" || c.kind == "FailureTarget")) || is_failure cs

unfoldable pub job_failed : Job → Bool
unfolding is_failure
job_failed j = is_failure j.conditions

is_complete : List JobCondition → Bool
is_complete [] = false
is_complete (c ∷ cs) = (c.holds && c.kind == "Complete") || is_complete cs

unfoldable pub job_succeeded : Job → Bool
unfolding is_complete
job_succeeded j = is_complete j.conditions || elim j.succeeded [ zero ↦ false | suc _ ↦ true ]
