-- ===== src/Endpoints/Names.antt =====
-- The status lists the orderers that the channels count.
use fabric_ops.Prelude.{
  ℕ, zero, suc, ◌+◌, String, List, [], ◌∷◌, ◌++◌, map, ◌≡◌, refl, sym, ap, ◌∙◌,
}
use fabric_ops.Text.{◌<>◌, itoa}
use fabric_ops.Naming.{sanitize_name}
use fabric_ops.Topology.Values.{
  OrdererInstance, group_instances_from, group_instances, org_instances, instances_of,
  desired_orderer_instances,
}
use fabric_ops.Api.Spec.{FabricNetwork, Org, OrdererGroup}
use fabric_ops.Api.Status.{OrdererEndpointStatus}
use fabric_ops.Endpoints.Status.{
  orderer_endpoint_status, orderer_statuses_of, orderer_statuses_from, orderer_endpoint_statuses,
}

map-append {ℓ κ} :
    {A : Type ℓ} {B : Type κ} (f : A → B) (xs ys : List A) → map f (xs ++ ys) ≡ map f xs ++ map f ys
map-append f [] ys = refl
map-append f (x ∷ xs) ys = ap (λ rest. f x ∷ rest) (map-append f xs ys)

-- The names of the orderers in the statuses of the organizations, in their order.
abbrev pub status_names : (String → String) → (Org → String) → List Org → List String
status_names hash namespace_of [] = []
status_names hash namespace_of (o ∷ os) =
    map (λ (s : OrdererEndpointStatus). s.name) (orderer_endpoint_statuses hash o (namespace_of o))
    ++ status_names hash namespace_of os

module _ (hash : String → String) where
  -- The two loops over the instances of a group count alike.
  names-agree :
      (org : Org) (namespace : String) (g : OrdererGroup) (i left : ℕ)
      → map
          (λ (s : OrdererEndpointStatus). s.name)
          (orderer_statuses_of hash org namespace g i left)
        ≡ map (λ (o : OrdererInstance). o.name) (group_instances_from hash org g i left)
  unfolding orderer_statuses_of orderer_endpoint_status group_instances_from
  names-agree org namespace g i zero = refl
  names-agree org namespace g i (suc left) =
      ap (λ rest. sanitize_name hash (g.prefix <> itoa i) ∷ rest)
        (names-agree org namespace g (i + 1) left)

  groups-agree :
      (org : Org) (namespace : String) (groups : List OrdererGroup)
      → map
          (λ (s : OrdererEndpointStatus). s.name)
          (orderer_statuses_from hash org namespace groups)
        ≡ map (λ (i : OrdererInstance). i.name) (org_instances hash org groups)
  unfolding orderer_statuses_from org_instances group_instances
  groups-agree org namespace [] = refl
  groups-agree org namespace (g ∷ groups) =
      map-append (λ (s : OrdererEndpointStatus). s.name)
        (orderer_statuses_of hash org namespace g 0 g.instances)
        (orderer_statuses_from hash org namespace groups)
      ∙ ap
          (λ first.
            first
            ++ map (λ (s : OrdererEndpointStatus). s.name)
                (orderer_statuses_from hash org namespace groups))
          (names-agree org namespace g 0 g.instances)
      ∙ ap (λ later. map (λ (i : OrdererInstance). i.name) (group_instances hash org g) ++ later)
          (groups-agree org namespace groups)
      ∙ sym (
          map-append (λ (i : OrdererInstance). i.name) (group_instances hash org g)
            (org_instances hash org groups))

  orgs-agree :
      (namespace_of : Org → String) (orgs : List Org)
      → status_names hash namespace_of orgs
        ≡ map (λ (i : OrdererInstance). i.name) (instances_of hash orgs)
  unfolding orderer_endpoint_statuses instances_of
  orgs-agree namespace_of [] = refl
  orgs-agree namespace_of (o ∷ os) =
      ap (λ names. names ++ status_names hash namespace_of os)
        (groups-agree o (namespace_of o) o.orderers)
      ∙ ap
          (λ later.
            map (λ (i : OrdererInstance). i.name) (org_instances hash o o.orderers) ++ later)
          (orgs-agree namespace_of os)
      ∙ sym (
          map-append (λ (i : OrdererInstance). i.name) (org_instances hash o o.orderers)
            (instances_of hash os))

  -- The orderers that the endpoint statuses of the organizations list are, by name and in
  -- order, those that desiredOrdererInstances makes for the network, though each counts the
  -- instances of a group in a loop of its own.
  pub orderer_endpoint_statuses-desired_orderer_instances :
      (namespace_of : Org → String) (net : FabricNetwork)
      → status_names hash namespace_of net.spec.orgs
        ≡ map (λ (i : OrdererInstance). i.name) (desired_orderer_instances hash net)
  unfolding desired_orderer_instances
  orderer_endpoint_statuses-desired_orderer_instances namespace_of net =
      orgs-agree namespace_of net.spec.orgs
