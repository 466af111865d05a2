-- ===== src/Raft/Consenters/Keys.antt =====
-- What the keys of a valid set of consenters say of the set.
use fabric_ops.Prelude.{
  ℕ, suc, ◌+◌, ◌≡◌, refl, ap, ◌∙◌, String, Bool, true, false, ◌||◌, List, [], ◌∷◌, Option, none,
  some, get_elem?, arith, Bool-cases, inl, inr, subst, ◌⊎◌, ◌≢◌,
}
use fabric_ops.Prelude.Maps.{Map, lookup, has_key}
use fabric_ops.Raft.Result.{ok, >>=-eq-ok}
use fabric_ops.Raft.Consenters.{
  RaftConsenter, Tls, Seen, nothing_seen, check_consenter, check_from, validate_raft_consenters,
}
use fabric_ops.Raft.Consenters.Rounds.{
  is_key, in_set, check_consenter-ok, Round-has_key, Round-lookup, Round,
}
use fabric_ops.Raft.Consenters.Owners.{FixedLength, check_from-KeysDistinct, ValidKeys}

module _ (tls : Tls) where
  or_swap : (a b d : Bool) → (a || (b || d)) ≡ ((b || a) || d)
  or_swap a b d = ground arith

  -- After the loop the keys are those of the consenters, and those from before.
  has_key-check_from :
      (index : ℕ) (seen : Seen) (cs : List RaftConsenter) {seen' : Seen} (k : String)
      → check_from tls index seen cs ≡ ok seen'
      → has_key k seen'.keys ≡ (in_set tls k cs || has_key k seen.keys)
  unfolding check_from
  has_key-check_from index seen [] k e = cc
  has_key-check_from index seen (c ∷ cs) k e =
      let (next, first, rest) = >>=-eq-ok (check_consenter tls index seen c) _ e in
      let r = check_consenter-ok tls index seen c first in
      has_key-check_from (suc index) next cs k rest
      ∙ ap (λ b. in_set tls k cs || b) (Round-has_key tls c r k)
      ∙ or_swap (in_set tls k cs) (is_key tls k c) (has_key k seen.keys)

  -- The key `k` is that of the consenter at the place `i - n`.
  record At (k : String) (i n : ℕ) (cs : List RaftConsenter) : Type 0 where
    place : ℕ
    consenter : RaftConsenter
    offset : i ≡ n + place
    found : get_elem? cs place ≡ some consenter
    keyed : is_key tls k consenter ≡ true

  At-cons :
      {k : String} {i n : ℕ} {cs : List RaftConsenter} (c : RaftConsenter)
      → At k i (suc n) cs
      → At k i n (c ∷ cs)
  At-cons c a = record {
    place = suc a.place;
    consenter = a.consenter;
    offset = omega (arith, a.offset);
    found = a.found;
    keyed = a.keyed;
  }

  here_or_before :
      {index i : ℕ} {seen seen' : Seen} (c : RaftConsenter) (cs : List RaftConsenter)
      (r : Round tls index seen c seen') (k : String)
      → lookup k seen'.keys ≡ some i
      → (lookup k seen.keys ≡ some i) ⊎ At k i index (c ∷ cs)
  here_or_before {index} {i} c cs r k e = elim (Bool-cases (is_key tls k c)) [
    | inl keyed ↦ inr (record {
      place = 0;
      consenter = c;
      offset = ground (arith, Round-lookup tls c r k);
      found = refl;
      keyed = keyed;
    })
    | inr other ↦ inl (ground (arith, Round-lookup tls c r k))
  ]

  -- A key of the result leads to the consenter at its index.
  lookup-check_from :
      (index : ℕ) (seen : Seen) (cs : List RaftConsenter) {seen' : Seen} (k : String) {i : ℕ}
      → check_from tls index seen cs ≡ ok seen'
      → lookup k seen'.keys ≡ some i
      → (lookup k seen.keys ≡ some i) ⊎ At k i index cs
  unfolding check_from
  lookup-check_from index seen [] k e h = inl (cc)
  lookup-check_from index seen (c ∷ cs) k e h =
      let (next, first, rest) = >>=-eq-ok (check_consenter tls index seen c) _ e in
      let r = check_consenter-ok tls index seen c first in
      elim (lookup-check_from (suc index) next cs k rest h) [
        | inl old ↦ here_or_before c cs r k old
        | inr later ↦ inr (At-cons c later)
      ]

  or_false : (b : Bool) → (b || false) ≡ b
  or_false b = ground arith

  start : {i j : ℕ} → i ≡ 0 + j → j ≡ i
  start p = omega arith

  none_ne : {i : ℕ} → ◌≢◌ {A = Option ℕ} none (some i)
  none_ne p = cc

  place_of :
      {k : String} {i : ℕ} {cs : List RaftConsenter}
      → At k i 0 cs
      → (c : RaftConsenter) × (get_elem? cs i ≡ some c) × (is_key tls k c ≡ true)
  place_of {cs = cs} a = (
    a.consenter,
    subst (λ j. get_elem? cs j ≡ some a.consenter) (start a.offset) a.found,
    a.keyed,
  )

  valid_of :
      FixedLength tls
      → (cs : List RaftConsenter) (seen : Seen) → check_from tls 0 nothing_seen cs ≡ ok seen
      → ValidKeys tls cs seen.keys
  unfolding lookup has_key
  valid_of fixed cs seen e = record {
    members = λ k. has_key-check_from 0 nothing_seen cs k e ∙ or_false (in_set tls k cs);
    places = λ k i h. elim (lookup-check_from 0 nothing_seen cs k e h) [
      | inl old ↦ elim (none_ne old) [ ]
      | inr a ↦ place_of a
    ];
    distinct = check_from-KeysDistinct tls fixed 0 nothing_seen cs e;
  }

  -- When validateRaftConsenters returns keys, a text is one of them exactly if it is the key
  -- of a consenter of the list, the index that it is given is that of such a consenter, and
  -- no two consenters of the list have one key. The digests of certificates are of one
  -- length.
  pub validate_raft_consenters-ValidKeys :
      FixedLength tls
      → (cs : List RaftConsenter) {keys : Map ℕ} → validate_raft_consenters tls cs ≡ ok keys
      → ValidKeys tls cs keys
  unfolding validate_raft_consenters
  validate_raft_consenters-ValidKeys fixed [] e = cc
  validate_raft_consenters-ValidKeys fixed (c ∷ cs) {keys} e =
      let (seen, all, last) = >>=-eq-ok (check_from tls 0 nothing_seen (c ∷ cs)) _ e in
      let same : seen.keys ≡ keys = cc in
      subst (ValidKeys tls (c ∷ cs)) same (valid_of fixed (c ∷ cs) seen all)
