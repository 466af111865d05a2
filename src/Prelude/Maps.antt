-- ===== src/Prelude/Maps.antt =====
-- A Go map with string keys, as an association list.
use mathlib.Core.Path.{◌≡◌, refl}
use mathlib.Core.Bool.{Bool, true, false}
use mathlib.Core.List.{List, [], ◌∷◌}
use mathlib.Core.Option.{Option, none, some}
use Prim.Native.String.{String}
use native.Mathlib.Omega.{arith}
use text.Mathlib.Text.{◌==◌}
use text.Mathlib.TextEquality.{eq_iff}
use fabric_ops.Prelude.Tests.{if◌then◌else◌}

abbrev pub Map {ℓ} : Type ℓ → Type ℓ
Map V = List (String × V)

module _ {ℓ} {V : Type ℓ} where
  -- `m[key] = value`.
  unfoldable pub insert : String → V → Map V → Map V
  insert key value [] = (key, value) ∷ []
  insert key value ((first, old) ∷ rest) =
      if first == key then (key, value) ∷ rest else (first, old) ∷ insert key value rest

  -- `m[key]`, with `none` for a key that is not in the map.
  unfoldable pub lookup : String → Map V → Option V
  lookup key [] = none
  lookup key ((first, value) ∷ rest) = if first == key then some value else lookup key rest

  -- `_, ok := m[k]`.
  unfoldable pub has_key : String → Map V → Bool
  unfolding lookup
  has_key k m = elim (lookup k m) [ none ↦ false | some _ ↦ true ]

  pub lookup-insert :
      (written read : String) (value : V) (m : Map V)
      → lookup read (insert written value m)
        ≡ (if written == read then some value else lookup read m)
  unfolding insert lookup
  lookup-insert written read value ((first, old) ∷ rest) =
      let ih = lookup-insert written read value rest in
      ground (arith, ih, eq_iff first written, eq_iff first read, eq_iff written read)
  lookup-insert written read value [] = refl

  pub has_key-insert :
      (k j : String) (v : V) (m : Map V)
      → has_key j (insert k v m) ≡ (if k == j then true else has_key j m)
  unfolding has_key
  has_key-insert k j v m = ground (arith, lookup-insert k j v m)

  pub has_key-cons :
      (k j : String) (v : V) (m : Map V)
      → has_key k ((j, v) ∷ m) ≡ (if j == k then true else has_key k m)
  unfolding has_key
  has_key-cons k j v m = ground arith

  pub lookup-cons :
      (k j : String) (v : V) (m : Map V)
      → lookup k ((j, v) ∷ m) ≡ (if j == k then some v else lookup k m)
  unfolding lookup
  lookup-cons k j v m = refl

  pub has_key-lookup : (k : String) (v : V) (m : Map V) → lookup k m ≡ some v → has_key k m ≡ true
  unfolding has_key
  has_key-lookup k v m h = ground arith
