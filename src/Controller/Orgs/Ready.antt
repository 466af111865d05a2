-- ===== src/Controller/Orgs/Ready.antt =====
-- What the status of an organization says, and which statuses a loop that fails has.
use fabric_ops.Prelude.{
  ℕ, ◌≤◌, String, Bool, true, false, not, ◌&&◌, List, [], ◌∷◌, ◌++◌, map, All, Option, none, some,
  ◌≡◌, refl, leb, if◌then◌else◌, arith,
}
use fabric_ops.Api.Spec.{Org}
use fabric_ops.Api.Status.{OrgStatus}
use fabric_ops.Rotation.Steps.{ca_registrar_rotation_blocks_work}
use fabric_ops.Controller.Tasks.{
  Reply, problem, value, Task, ◌>>=◌, ◌>>◌, when_needed, Gives, Gives-pass_on,
}
use fabric_ops.Controller.Orgs.{
  OrgTasks, workload_ready, reconcile_workloads, observed_org_status, initial_org_status,
  reconcile_org, reconcile_orgs_from,
}

-- A ready organization has its identities, its certificate authority and all of its orderers and peers.
abbrev pub Complete : OrgStatus → Type 0
Complete s =
    s.ready ≡ true
    → (s.identity_ready ≡ true)
      × (s.ca_ready ≡ true)
      × (s.orderers.desired ≤ s.orderers.ready)
      × (s.peers.desired ≤ s.peers.ready)

-- The status is of the organization.
abbrev pub Describes : Org → OrgStatus → Type 0
Describes org s = s.name ≡ org.organization.name

all_true :
    (a b c d : Bool) → a && b && c && d ≡ true → (a ≡ true) × (b ≡ true) × (c ≡ true) × (d ≡ true)
all_true a b c d h = ground arith

-- The statuses are those of the first organizations, in their order, and of all where there is no error.
abbrev pub PrefixOf : List Org → List OrgStatus × Option String → Type 0
PrefixOf orgs (statuses, failure) =
    (more : List String) × (map (λ (o : Org). o.organization.name) orgs
      ≡ map (λ (s : OrgStatus). s.name) statuses ++ more)
    × (failure ≡ none → more ≡ [])
    × All Complete statuses

le_of_leb : (a b : ℕ) → leb a b ≡ true → a ≤ b
le_of_leb a b h = ground arith

module _ {W : Type 0} where
  Gives-either :
      {A : Type 0} (P : A → Type 0) (b : Bool) (f g : Task W A) (w : W)
      → Gives P (f w)
      → Gives P (g w)
      → Gives P ((if b then f else g) w)
  Gives-either P true f g w hf hg = hf
  Gives-either P false f g w hf hg = hg

  workloads-Complete :
      (t : OrgTasks W) (org : Org) (s : OrgStatus)
      → Describes org s
      → (w : W) → Gives (λ r. Complete r × Describes org r) (reconcile_workloads t org s w)
  unfolding reconcile_workloads workload_ready
  workloads-Complete t org s d w =
      Gives-either (λ r. Complete r × Describes org r) (not s.identity_ready) _ _ w
        ((λ h. absurd (cc)), d)
        (Gives-pass_on (λ r. Complete r × Describes org r) _ (t.reconcile_orderers w)
          (λ orderers v.
            Gives-pass_on (λ r. Complete r × Describes org r) _ (t.reconcile_peers v)
              (λ peers u. (
                λ h.
                    let every =
                      all_true s.identity_ready s.ca_ready (leb orderers.desired orderers.ready)
                        (leb peers.desired peers.ready) h in
                    (every.0, every.1, le_of_leb _ _ every.2, le_of_leb _ _ every.3),
                d,
              ))))

  abbrev Good : Org → Task W OrgStatus → Type 0
  Good org task = (w : W) → Gives (λ s. Complete s × Describes org s) (task w)

  and_then :
      {A : Type 0} (org : Org) (task : Task W A) (next : A → Task W OrgStatus)
      → ((a : A) → Good org (next a))
      → Good org (task >>= next)
  and_then org task next h w = Gives-pass_on (λ s. Complete s × Describes org s) next (task w) h

  pub reconcile_org-Complete :
      (t : OrgTasks W) (org : Org) (w : W)
      → Gives (λ s. Complete s × Describes org s) (reconcile_org t org w)
  unfolding reconcile_org observed_org_status initial_org_status
  reconcile_org-Complete t org w =
      and_then org t.ensure_namespace _
        (λ _.
          and_then org
            (if t.network_policy_enabled
              then t.ensure_network_policy
              else t.ensure_network_policy_absent)
            _
            (λ _.
              and_then org (when_needed t.service_monitor_enabled t.ensure_service_monitor) _ (λ _.
                and_then org t.reconcile_identity_material _ (λ _.
                  and_then org t.reconcile_ca _ (λ c.
                    and_then org (t.reconcile_ca_registrar_rotation c) _ (λ r.
                      and_then org
                        (when_needed (c && not (ca_registrar_rotation_blocks_work r))
                          (t.reconcile_admin_enrollment >> t.reconcile_workload_enrollments))
                        _
                        (λ _. and_then org t.identity_material_status _ (λ i.
                          and_then org
                            (t.reconcile_certificate_lifecycle c i.0
                              (ca_registrar_rotation_blocks_work r))
                            _
                            (λ l.
                              workloads-Complete t org (observed_org_status t org c r i l)
                                refl)))))))))
        w

  add_org :
      (tasks : Org → OrgTasks W) (org : Org) (orgs : List Org) (first : Reply OrgStatus × W)
      → Gives (λ s. Complete s × Describes org s) first
      → ((w : W) → PrefixOf orgs (reconcile_orgs_from tasks orgs w).0)
      → let rest = reconcile_orgs_from tasks orgs first.1 in
        PrefixOf
          (org ∷ orgs)
          (elim first.0 as (λ _. (List OrgStatus × Option String) × W) [
            | problem text ↦ (([], some text), first.1)
            | value status ↦ ((status ∷ rest.0.0, rest.0.1), rest.1)
          ]).0
  add_org tasks org orgs (problem text, v) h rest = (_, refl, (λ e. absurd (cc)), tt)
  add_org tasks org orgs (value status, v) h rest =
      let (more, names, all_done, complete) = rest v in
      (more, ground (arith, names, h.1), all_done, (h.0, complete))

  -- The statuses that the loop over the organizations returns have the names of the first of
  -- them, in their order, and of all of them where there is no error; each of them that says
  -- it is ready has its identities and its certificate authority, and as many ready orderers
  -- and peers as are wanted.
  pub reconcile_orgs_from-PrefixOf :
      (tasks : Org → OrgTasks W) (orgs : List Org) (w : W)
      → PrefixOf orgs (reconcile_orgs_from tasks orgs w).0
  unfolding reconcile_orgs_from
  reconcile_orgs_from-PrefixOf tasks [] w = ([], refl, (λ h. refl), tt)
  reconcile_orgs_from-PrefixOf tasks (org ∷ orgs) w =
      add_org tasks org orgs (reconcile_org (tasks org) org w)
        (reconcile_org-Complete (tasks org) org w) (reconcile_orgs_from-PrefixOf tasks orgs)
