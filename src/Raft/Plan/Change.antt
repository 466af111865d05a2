-- ===== src/Raft/Plan/Change.antt =====
-- The four ways in which the comparison of the two sets of keys can end in a plan.
use fabric_ops.Prelude.{
  ℕ, zero, suc, ◌≤◌, false, List, Option, none, some, ◌≡◌, refl, ◌⊎◌, inl, inr, arith,
  if◌then◌else◌, sym, ap, ◌∙◌, subst, ltb, nat_eq,
}
use fabric_ops.Prelude.Maps.{Map}
use fabric_ops.Raft.Result.{Result, ok, err, more_than_one_change}
use fabric_ops.Raft.Json.{RawMessage}
use fabric_ops.Raft.Consenters.{RaftConsenter}
use fabric_ops.Raft.Plan.{RaftUpdatePlan, Codec, missing_from, updated_plan, plan_change}
use fabric_ops.Raft.Plan.Missing.{
  Covered, OneMissing, missing_from-none, missing_from-one, missing_from-le,
}

-- How a plan comes about from the two sets of keys.
pub data Change (original : RawMessage) (codec : Codec) (base : RaftUpdatePlan) (raw : RawMessage)
    (current desired : List RaftConsenter) (current_keys desired_keys : Map ℕ)
    (plan : RaftUpdatePlan) : Type 0 where
  same :
      plan ≡ base
      → Covered desired_keys current_keys
      → Covered current_keys desired_keys
      → Change original codec base raw current desired current_keys desired_keys plan
  add :
      (i : ℕ) (removed : Option ℕ)
      → OneMissing desired_keys current_keys (some i)
      → Covered current_keys desired_keys
      → updated_plan codec original base raw current desired (some i) removed ≡ ok plan
      → Change original codec base raw current desired current_keys desired_keys plan
  remove :
      (i : ℕ)
      → OneMissing current_keys desired_keys (some i)
      → Covered desired_keys current_keys
      → updated_plan codec original base raw current desired none (some i) ≡ ok plan
      → Change original codec base raw current desired current_keys desired_keys plan

-- The number of changes of a plan that is made.
changes_cases :
    (n ch : ℕ)
    → n ≤ ch
    → ltb 1 ch ≡ false
    → ((n ≡ 0) × (ch ≡ n)) ⊎ ((n ≡ 1) × (ch ≡ n)) ⊎ ((n ≡ 0) × (ch ≡ suc n))
changes_cases zero zero le h = inl (refl, refl)
changes_cases zero (suc zero) le h = inr (inr (refl, refl))
changes_cases (suc zero) (suc zero) le h = inr (inl (refl, refl))
changes_cases n ch le h = absurd (ground arith)

module _ (original : RawMessage) (codec : Codec) (base : RaftUpdatePlan) (raw : RawMessage)
    (current desired : List RaftConsenter) (current_keys desired_keys : Map ℕ) where
  -- The two loops.
  adds : Option ℕ × ℕ
  adds = missing_from current_keys none 0 desired_keys

  changes : Option ℕ × ℕ
  unfolding adds
  changes = missing_from desired_keys none adds.1 current_keys

  abbrev outcome : Option ℕ → Option ℕ → ℕ → Result RaftUpdatePlan
  outcome added removed n =
      if ltb 1 n
      then err more_than_one_change
      else if nat_eq n 0
      then ok base
      else updated_plan codec original base raw current desired added removed

  plan_change_lem :
      plan_change codec original base raw current desired current_keys desired_keys
      ≡ outcome adds.0 changes.0 changes.1
  unfolding plan_change adds changes
  plan_change_lem = refl

  few : {plan : RaftUpdatePlan} (a b : Option ℕ) (n : ℕ) → outcome a b n ≡ ok plan → ltb 1 n ≡ false
  few a b n e = ground arith

  changes-le : adds.1 ≤ changes.1
  unfolding changes adds
  changes-le = missing_from-le desired_keys none adds.1 current_keys

  outcome_none :
      {plan : RaftUpdatePlan} (a b : Option ℕ) (n : ℕ)
      → n ≡ 0
      → outcome a b n ≡ ok plan
      → plan ≡ base
  outcome_none a b n z e = ground arith

  outcome_one :
      {plan : RaftUpdatePlan} (a b : Option ℕ) (n : ℕ)
      → n ≡ 1
      → outcome a b n ≡ ok plan
      → updated_plan codec original base raw current desired a b ≡ ok plan
  outcome_one a b n z e = ground arith

  added : adds.1 ≡ 1 → OneMissing desired_keys current_keys adds.0
  unfolding adds
  added = missing_from-one current_keys none 0 desired_keys

  none_added : adds.1 ≡ 0 → (adds.0 ≡ none) × Covered desired_keys current_keys
  unfolding adds
  none_added = missing_from-none current_keys none 0 desired_keys

  removed : changes.1 ≡ suc adds.1 → OneMissing current_keys desired_keys changes.0
  unfolding changes
  removed = missing_from-one desired_keys none adds.1 current_keys

  none_removed : changes.1 ≡ adds.1 → (changes.0 ≡ none) × Covered current_keys desired_keys
  unfolding changes
  none_removed = missing_from-none desired_keys none adds.1 current_keys

  made :
      {plan : RaftUpdatePlan}
      → outcome adds.0 changes.0 changes.1 ≡ ok plan
      → ((adds.1 ≡ 0) × (changes.1 ≡ adds.1))
        ⊎ ((adds.1 ≡ 1) × (changes.1 ≡ adds.1))
        ⊎ ((adds.1 ≡ 0) × (changes.1 ≡ suc adds.1))
      → Change original codec base raw current desired current_keys desired_keys plan
  made e (inl (p, q)) =
      Change.same (outcome_none adds.0 changes.0 changes.1 (q ∙ p) e) (none_added p).1
        (none_removed q).1
  made {plan} e (inr (inl (p, q))) =
      let o = added p in
      Change.add o.at changes.0 (subst (OneMissing desired_keys current_keys) o.last o)
        (none_removed q).1
        (subst (λ a. updated_plan codec original base raw current desired a changes.0 ≡ ok plan)
          o.last (outcome_one adds.0 changes.0 changes.1 (q ∙ p) e))
  made {plan} e (inr (inr (p, q))) =
      let o = removed q in
      Change.remove o.at (subst (OneMissing current_keys desired_keys) o.last o) (none_added p).1 (
        subst (λ a. updated_plan codec original base raw current desired none a ≡ ok plan) o.last
          (subst (λ a. updated_plan codec original base raw current desired a changes.0 ≡ ok plan)
            (none_added p).0 (outcome_one adds.0 changes.0 changes.1 (q ∙ ap suc p) e)))

  pub plan_change-Change :
      {plan : RaftUpdatePlan}
      → plan_change codec original base raw current desired current_keys desired_keys ≡ ok plan
      → Change original codec base raw current desired current_keys desired_keys plan
  plan_change-Change e =
      let f = sym plan_change_lem ∙ e in
      made f (changes_cases adds.1 changes.1 changes-le (few adds.0 changes.0 changes.1 f))
