-- ===== src/Topology/Lists.antt =====
-- Lists of problems that are empty, and names that differ from one another.
use fabric_ops.Prelude.{
  String, Bool, true, false, List, [], ◌∷◌, ◌++◌, ◌≡◌, refl, All, eq_iff, arith,
}
use fabric_ops.Prelude.Maps.{Map, has_key, insert, has_key-insert}
use fabric_ops.Topology.Values.{has}
use fabric_ops.Topology.Refs.{when}

pub append-empty {ℓ} : {A : Type ℓ} (xs ys : List A) → xs ++ ys ≡ [] → (xs ≡ []) × (ys ≡ [])
append-empty [] ys e = (refl, e)
append-empty (x ∷ xs) ys e = ground (arith, e)

pub when-empty : (b : Bool) (s : String) → when b s ≡ [] → b ≡ false
unfolding when
when-empty true s e = ground (arith, e)
when-empty false s e = refl

-- No two of the names are equal.
abbrev pub Distinct : List String → Type 0
Distinct [] = Unit
Distinct (x ∷ xs) = (has x xs ≡ false) × Distinct xs

-- None of the names is a key of the map.
abbrev pub Fresh {ℓ} : {V : Type ℓ} → Map V → List String → Type 0
Fresh m = All λ name. has_key name m ≡ false

-- None of the names is in the list.
abbrev pub Apart : List String → List String → Type 0
Apart seen = All λ name. has name seen ≡ false

module _ {ℓ} {V : Type ℓ} where
  -- Names that are fresh after a key was inserted are fresh before, and none is that key.
  pub Fresh-insert :
      (m : Map V) (k : String) (v : V) (names : List String)
      → Fresh (insert k v m) names
      → Fresh m names × (has k names ≡ false)
  Fresh-insert m k v [] h = (tt, refl)
  Fresh-insert m k v (n ∷ ns) h =
      let rest = Fresh-insert m k v ns h.1 in
      ground (arith, h.0, has_key-insert k n v m, eq_iff k n, eq_iff n k, rest)

pub Apart-cons :
    (seen : List String) (k : String) (names : List String)
    → Apart (k ∷ seen) names
    → Apart seen names × (has k names ≡ false)
Apart-cons seen k [] h = (tt, refl)
Apart-cons seen k (n ∷ ns) h =
    let rest = Apart-cons seen k ns h.1 in ground (arith, h.0, eq_iff k n, eq_iff n k, rest)
