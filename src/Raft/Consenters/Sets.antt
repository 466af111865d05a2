-- ===== src/Raft/Consenters/Sets.antt =====
-- The set of keys of a list of consenters, after one is added or taken out.
use fabric_ops.Prelude.{
  ℕ, zero, suc, String, true, false, ◌||◌, List, [], ◌∷◌, ◌++◌, some, ◌≡◌, inl, inr, ◌==◌, eq_iff,
  arith, Option-cases, get_elem?, erase_idx?,
}
use fabric_ops.Raft.Consenters.{RaftConsenter, Tls}
use fabric_ops.Raft.Consenters.Rounds.{in_set, is_key, consenter_key}
use fabric_ops.Raft.Consenters.Owners.{KeysDistinct}

-- The place of the list that `get_elem?` reads and `erase_idx?` takes out.
pub record Taken (cs : List RaftConsenter) (i : ℕ) (c : RaftConsenter) (cs' : List RaftConsenter)
    : Type 0 where
  pub read : get_elem? cs i ≡ some c
  pub left : erase_idx? cs i ≡ some cs'

Taken-suc :
    (x : RaftConsenter) (xs : List RaftConsenter) (i : ℕ) {c : RaftConsenter}
    {ys : List RaftConsenter}
    → Taken (x ∷ xs) (suc i) c ys
    → (zs : List RaftConsenter) × Taken xs i c zs × (ys ≡ x ∷ zs)
Taken-suc x xs i t = elim (Option-cases (erase_idx? xs i)) [
  | inl nothing ↦ absurd (ground (arith, t.left))
  | inr found ↦ (found.0, record { read = t.read; left = found.1 }, ground (arith, found.1, t.left))
]

module _ (tls : Tls) where
  pub in_set-append :
      (k : String) (cs : List RaftConsenter) (t : RaftConsenter)
      → in_set tls k (cs ++ t ∷ []) ≡ (in_set tls k cs || is_key tls k t)
  in_set-append k [] t = ground arith
  in_set-append k (c ∷ cs) t = ground (arith, in_set-append k cs t)

  pub in_set-Taken :
      (k : String) (cs : List RaftConsenter) (i : ℕ) {c : RaftConsenter} {cs' : List RaftConsenter}
      → Taken cs i c cs'
      → in_set tls k cs ≡ (is_key tls k c || in_set tls k cs')
  in_set-Taken k [] i t = absurd (ground (arith, t.left))
  in_set-Taken k (x ∷ xs) zero t = ground (arith, t.left, t.read)
  in_set-Taken k (x ∷ xs) (suc i) t =
      let (zs, t', e) = Taken-suc x xs i t in rw e (ground (arith, in_set-Taken k xs i t'))

  -- Where no two have one key, the key that is taken out is not left.
  pub not_in_set-Taken :
      (k : String) (cs : List RaftConsenter) (i : ℕ) {c : RaftConsenter} {cs' : List RaftConsenter}
      → KeysDistinct tls cs
      → Taken cs i c cs'
      → is_key tls k c ≡ true
      → in_set tls k cs' ≡ false
  not_in_set-Taken k [] i d t h = absurd (ground (arith, t.left))
  not_in_set-Taken k (x ∷ xs) zero d t h = ground (arith, t.left, t.read, d.0 k)
  not_in_set-Taken k (x ∷ xs) (suc i) d t h =
      let (zs, t', e) = Taken-suc x xs i t in
      rw e (ground (arith, not_in_set-Taken k xs i d.1 t' h, in_set-Taken k xs i t', d.0 k))

  -- A consenter has one key.
  pub is_key_unique :
      (key k : String) (c : RaftConsenter) → is_key tls key c ≡ true → is_key tls k c ≡ (key == k)
  unfolding is_key
  is_key_unique key k c h = elim (Option-cases (consenter_key tls c)) [
    | inl nothing ↦ absurd (ground arith)
    | inr found ↦
        let e : found.0 ≡ key = ground (arith, found.1, eq_iff found.0 key) in
        rw (found.1, is_key) (rw e)
  ]
