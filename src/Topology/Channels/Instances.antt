-- ===== src/Topology/Channels/Instances.antt =====
-- The orderer instances of a network are those of its groups.
use fabric_ops.Prelude.{
  ◌∙◌, ℕ, zero, suc, ◌+◌, ◌<◌, ◌⊎◌, ap, sym, subst, String, List, [], ◌∷◌, ◌++◌, ◌≡◌, refl, inl,
  inr, arith,
}
use fabric_ops.Text.{◌<>◌, itoa}
use fabric_ops.Naming.{sanitize_name}
use fabric_ops.Topology.Values.{
  OrdererInstance, group_instances_from, group_instances, org_instances, instances_of,
}
use fabric_ops.Topology.Network.Orgs.{Among}
use fabric_ops.Api.Spec.{Org, OrdererGroup}

Among-append : {A : Type 0} (x : A) (xs ys : List A) → Among x (xs ++ ys) → Among x xs ⊎ Among x ys
Among-append x [] ys h = inr h
Among-append x (y ∷ xs) ys (inl same) = inl (inl same)
Among-append x (y ∷ xs) ys (inr later) = elim (Among-append x xs ys later) [
  | inl here ↦ inl (inr here)
  | inr there ↦ inr there
]

Among-first : {A : Type 0} (x : A) (xs ys : List A) → Among x xs → Among x (xs ++ ys)
Among-first x [] ys h = elim h [ ]
Among-first x (y ∷ xs) ys (inl same) = inl same
Among-first x (y ∷ xs) ys (inr later) = inr (Among-first x xs ys later)

Among-second : {A : Type 0} (x : A) (xs ys : List A) → Among x ys → Among x (xs ++ ys)
Among-second x [] ys h = h
Among-second x (y ∷ xs) ys h = inr (Among-second x xs ys h)

module _ (hash : String → String) where
  -- The instance is of that group of that organization, and named by a counter below the number of instances.
  abbrev pub Runs : List Org → OrdererInstance → Type 0
  Runs orgs o =
      Among o.org orgs
      × Among o.group o.org.orderers
      × ((i : ℕ) × (i < o.group.instances)
          × (o.name ≡ sanitize_name hash (o.group.prefix <> itoa i)))

  group-Counted :
      (org : Org) (g : OrdererGroup) (i left : ℕ) (o : OrdererInstance)
      → Among o (group_instances_from hash org g i left)
      → (o.org ≡ org)
        × (o.group ≡ g)
        × ((k : ℕ) × (k < i + left) × (o.name ≡ sanitize_name hash (g.prefix <> itoa k)))
  unfolding group_instances_from
  group-Counted org g i zero o h = elim h [ ]
  group-Counted org g i (suc left) o (inl same) =
      (ap (λ x. x.org) same, ap (λ x. x.group) same, (i, omega arith, ap (λ x. x.name) same))
  group-Counted org g i (suc left) o (inr later) =
      let (in_org, in_group, counted) = group-Counted org g (i + 1) left o later in
      (in_org, in_group, (counted.0, omega (arith, counted.1), counted.2))

  group-Runs :
      (org : Org) (groups : List OrdererGroup) (o : OrdererInstance)
      → Among o (org_instances hash org groups)
      → (o.org ≡ org)
        × Among o.group groups
        × ((i : ℕ) × (i < o.group.instances)
            × (o.name ≡ sanitize_name hash (o.group.prefix <> itoa i)))
  unfolding org_instances group_instances
  group-Runs org [] o h = elim h [ ]
  group-Runs org (g ∷ groups) o h =
      elim (Among-append o (group_instances hash org g) (org_instances hash org groups) h) [
        | inl here ↦
            let (in_org, in_group, counted) = group-Counted org g 0 g.instances o here in
            (
              in_org,
              inl in_group,
              subst
                  (λ (x : OrdererGroup).
                    (i : ℕ) × (i < x.instances)
                    × (o.name ≡ sanitize_name hash (x.prefix <> itoa i)))
                  (sym in_group) (counted.0, omega (arith, counted.1), counted.2),
            )
        | inr there ↦ let found = group-Runs org groups o there in (found.0, inr found.1, found.2)
      ]

  pub instances-Runs :
      (orgs : List Org) (o : OrdererInstance) → Among o (instances_of hash orgs) → Runs orgs o
  unfolding instances_of
  instances-Runs [] o h = elim h [ ]
  instances-Runs (org ∷ orgs) o h =
      elim (Among-append o (org_instances hash org org.orderers) (instances_of hash orgs) h) [
        | inl here ↦
            let found = group-Runs org org.orderers o here in
            (
              inl found.0,
              subst (λ (x : Org). Among o.group x.orderers) (sym found.0) found.1,
              found.2,
            )
        | inr there ↦ let found = instances-Runs orgs o there in (inr found.0, found.1, found.2)
      ]

  -- The first instance of a group.
  group-first :
      (org : Org) (g : OrdererGroup)
      → 0 < g.instances
      → (o : OrdererInstance) × (o.group ≡ g) × Among o (group_instances hash org g)
  unfolding group_instances group_instances_from
  group-first org g some_instance = by_number g.instances some_instance
    where
      by_number :
          (n : ℕ)
          → 0 < n
          → (o : OrdererInstance) × (o.group ≡ g) × Among o (group_instances_from hash org g 0 n)
      by_number zero h = absurd (omega (arith, h))
      by_number (suc n) h = (_, refl, inl refl)

  groups-first :
      (org : Org) (groups : List OrdererGroup) (g : OrdererGroup)
      → Among g groups
      → 0 < g.instances
      → (o : OrdererInstance) × (o.group ≡ g) × Among o (org_instances hash org groups)
  unfolding org_instances
  groups-first org [] g h some_instance = elim h [ ]
  groups-first org (first ∷ groups) g (inl same) some_instance =
      let found =
        group-first org first (subst (λ (x : OrdererGroup). 0 < x.instances) same some_instance) in
      (found.0, found.1 ∙ sym same, Among-first found.0 _ (org_instances hash org groups) found.2)
  groups-first org (first ∷ groups) g (inr later) some_instance =
      let found = groups-first org groups g later some_instance in
      (found.0, found.1, Among-second found.0 (group_instances hash org first) _ found.2)

  pub orgs-first :
      (orgs : List Org) (org : Org) (g : OrdererGroup)
      → Among org orgs
      → Among g org.orderers
      → 0 < g.instances
      → (o : OrdererInstance) × (o.group ≡ g) × Among o (instances_of hash orgs)
  unfolding instances_of
  orgs-first [] org g h has_group some_instance = elim h [ ]
  orgs-first (first ∷ orgs) org g (inl same) has_group some_instance =
      let found =
        groups-first first first.orderers g (subst (λ (x : Org). Among g x.orderers) same has_group)
          some_instance in
      (found.0, found.1, Among-first found.0 _ (instances_of hash orgs) found.2)
  orgs-first (first ∷ orgs) org g (inr later) has_group some_instance =
      let found = orgs-first orgs org g later has_group some_instance in
      (found.0, found.1, Among-second found.0 (org_instances hash first first.orderers) _ found.2)
