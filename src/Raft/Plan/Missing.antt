-- ===== src/Raft/Plan/Missing.antt =====
-- The two loops of the plan that compare the sets of keys.
use fabric_ops.Prelude.{
  ℕ, suc, ◌≤◌, String, true, false, [], ◌∷◌, Option, some, ◌≡◌, refl, inl, inr, ◌==◌, eq_iff,
  eq_refl, arith, Bool-cases, if◌then◌else◌,
}
use fabric_ops.Prelude.Maps.{Map, lookup, has_key, has_key-cons, lookup-cons}
use fabric_ops.Raft.Plan.{missing_from}

-- Every key of `m` is a key of `other`.
abbrev pub Covered : Map ℕ → Map ℕ → Type 0
Covered m other = (k : String) → has_key k m ≡ true → has_key k other ≡ true

-- `key` is the one key of `m` that `other` lacks.
pub record OneMissing (m other : Map ℕ) (index : Option ℕ) : Type 0 where
  pub key : String
  pub at : ℕ
  pub last : index ≡ some at
  pub found : lookup key m ≡ some at
  pub lacking : has_key key other ≡ false
  pub others : (k : String) → has_key k m ≡ true → (key == k) ≡ false → has_key k other ≡ true

pub missing_from-le :
    (other : Map ℕ) (last : Option ℕ) (n : ℕ) (m : Map ℕ) → n ≤ (missing_from other last n m).1
unfolding missing_from
missing_from-le other last n [] = omega arith
missing_from-le other last n ((k, i) ∷ m) = ground (
  arith,
  missing_from-le other (if has_key k other then last else some i)
      (if has_key k other then n else suc n) m,
)

step_covered :
    (other : Map ℕ) (last : Option ℕ) (n : ℕ) (k : String) (i : ℕ) (m : Map ℕ)
    → has_key k other ≡ true
    → missing_from other last n ((k, i) ∷ m) ≡ missing_from other last n m
unfolding missing_from
step_covered other last n k i m h = rw h

step_lacking :
    (other : Map ℕ) (last : Option ℕ) (n : ℕ) (k : String) (i : ℕ) (m : Map ℕ)
    → has_key k other ≡ false
    → missing_from other last n ((k, i) ∷ m) ≡ missing_from other (some i) (suc n) m
unfolding missing_from
step_lacking other last n k i m h = rw h

Covered-nil : (other : Map ℕ) → Covered [] other
unfolding has_key
Covered-nil other k h = cc

Covered-cons :
    (j : String) (i : ℕ) (m other : Map ℕ)
    → has_key j other ≡ true
    → Covered m other
    → Covered ((j, i) ∷ m) other
Covered-cons j i m other h c k e = ground (arith, c k, has_key-cons k j i m, eq_iff j k)

-- No key is counted: all are covered, and the index stays.
pub missing_from-none :
    (other : Map ℕ) (last : Option ℕ) (n : ℕ) (m : Map ℕ)
    → (missing_from other last n m).1 ≡ n
    → ((missing_from other last n m).0 ≡ last) × Covered m other
missing_from-none other last n [] e = unfold missing_from in (refl, Covered-nil other)
missing_from-none other last n ((j, i) ∷ m) e = elim (Bool-cases (has_key j other)) [
  | inl there ↦
      let (same, covered) =
        missing_from-none other last n m (rw (step_covered other last n j i m there) at e) in
      (rw (step_covered other last n j i m there) same, Covered-cons j i m other there covered)
  | inr lacks ↦ absurd (
      omega (
        arith,
        missing_from-le other (some i) (suc n) m,
        rw (step_lacking other last n j i m lacks) at e,
      ))
]

OneMissing-here :
    (j : String) (i : ℕ) (m other : Map ℕ) {index : Option ℕ}
    → index ≡ some i
    → has_key j other ≡ false
    → Covered m other
    → OneMissing ((j, i) ∷ m) other index
OneMissing-here j i m other e lacks c = record {
  key = j;
  at = i;
  last = e;
  found = ground (arith, lookup-cons j j i m, eq_refl j);
  lacking = lacks;
  others = λ k h ne. ground (arith, c k, has_key-cons k j i m);
}

OneMissing-later :
    (j : String) (i : ℕ) (m other : Map ℕ) {index : Option ℕ}
    → has_key j other ≡ true
    → OneMissing m other index
    → OneMissing ((j, i) ∷ m) other index
OneMissing-later j i m other h o = record {
  key = o.key;
  at = o.at;
  last = o.last;
  found = ground (arith, lookup-cons o.key j i m, eq_iff j o.key, o.found, o.lacking);
  lacking = o.lacking;
  others = λ k e ne. ground (arith, o.others k, has_key-cons k j i m, eq_iff j k);
}

-- One key is counted: the index is that of the one key that is not covered.
pub missing_from-one :
    (other : Map ℕ) (last : Option ℕ) (n : ℕ) (m : Map ℕ)
    → (missing_from other last n m).1 ≡ suc n
    → OneMissing m other (missing_from other last n m).0
missing_from-one other last n [] e = absurd (unfold missing_from in omega arith)
missing_from-one other last n ((j, i) ∷ m) e = elim (Bool-cases (has_key j other)) [
  | inl there ↦ rw (step_covered other last n j i m there) (
      OneMissing-later j i m other there
        (missing_from-one other last n m (rw (step_covered other last n j i m there) at e)))
  | inr lacks ↦
      let (same, covered) =
        missing_from-none other (some i) (suc n) m
          (rw (step_lacking other last n j i m lacks) at e) in
      rw (step_lacking other last n j i m lacks) (OneMissing-here j i m other same lacks covered)
]
