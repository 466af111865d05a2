-- ===== src/Controller/Tasks.antt =====
-- Tasks of a controller: they read and change a world `W`, and end with a value or with the text of an error.
pub mod Agree
use fabric_ops.Prelude.{String, Bool, true, false}

pub data Reply {ℓ} (A : Type ℓ) : Type ℓ where
  problem : String → Reply A
  value : A → Reply A

abbrev pub Task : Type 0 → Type 0 → Type 0
Task W A = W → Reply A × W

module _ {W : Type 0} where
  abbrev pub pass_on : {A B : Type 0} → (A → Task W B) → Reply A × W → Reply B × W
  pass_on next (problem text, w) = (problem text, w)
  pass_on next (value a, w) = next a w

  infixl 5 ◌>>=◌
  abbrev pub ◌>>=◌ : {A B : Type 0} → Task W A → (A → Task W B) → Task W B
  ◌>>=◌ task next w = pass_on next (task w)

  infixl 5 ◌>>◌
  abbrev pub ◌>>◌ : {B : Type 0} → Task W (Unit {0}) → Task W B → Task W B
  first >> second = first >>= λ unit. second

  abbrev pub return : {A : Type 0} → A → Task W A
  return a w = (value a, w)

  -- The task under a condition.
  abbrev pub when_needed : Bool → Task W (Unit {0}) → Task W (Unit {0})
  when_needed true task = task
  when_needed false task = return tt

  -- The task ended with this value.
  abbrev pub Gives : {A : Type 0} → (A → Type 0) → Reply A × W → Type 0
  Gives P (problem text, w) = Unit
  Gives P (value a, w) = P a

  pub Gives-pass_on :
      {A B : Type 0} (P : B → Type 0) (next : A → Task W B) (r : Reply A × W)
      → ((a : A) (w : W) → Gives P (next a w))
      → Gives P (pass_on next r)
  Gives-pass_on P next (problem text, w) h = tt
  Gives-pass_on P next (value a, w) h = h a w
