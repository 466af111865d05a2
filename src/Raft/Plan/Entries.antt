-- ===== src/Raft/Plan/Entries.antt =====
-- The entries of the config and the consenters that they decode to.
use fabric_ops.Prelude.{
  ℕ, zero, suc, List, [], ◌∷◌, ◌++◌, Option, none, some, ◌≡◌, refl, inl, inr, ap, arith,
  Option-cases, erase_idx?,
}
use fabric_ops.Raft.Json.{Json, items, of_items}
use fabric_ops.Raft.Consenters.{RaftConsenter}
use fabric_ops.Raft.Plan.{Codec, decode_all}

pub items-of_items : (js : List Json) → items (of_items js) ≡ js
items-of_items [] = refl
items-of_items (j ∷ js) = ap (λ r. j ∷ r) (items-of_items js)

-- The parts of a success of `decode_all`.
record Decoded (codec : Codec) (j : Json) (js : List Json) (cs : List RaftConsenter) : Type 0 where
  first : RaftConsenter
  rest : List RaftConsenter
  decode_first : codec.decode_consenter j ≡ some first
  decode_rest : decode_all codec js ≡ some rest
  whole : cs ≡ first ∷ rest

module _ (codec : Codec) where
  Decoded-of :
      (j : Json) (js : List Json) (cs : List RaftConsenter) (x : Option RaftConsenter)
      (y : Option (List RaftConsenter))
      → codec.decode_consenter j ≡ x
      → decode_all codec js ≡ y
      → decode_all codec (j ∷ js) ≡ some cs
      → Decoded codec j js cs
  unfolding decode_all
  Decoded-of j js cs none y p q e = absurd (ground arith)
  Decoded-of j js cs (some c) none p q e = absurd (ground arith)
  Decoded-of j js cs (some c) (some rest) p q e = record {
    first = c;
    rest = rest;
    decode_first = p;
    decode_rest = q;
    whole = ground arith;
  }

  decoded :
      (j : Json) (js : List Json) (cs : List RaftConsenter)
      → decode_all codec (j ∷ js) ≡ some cs
      → Decoded codec j js cs
  decoded j js cs e =
      Decoded-of j js cs (codec.decode_consenter j) (decode_all codec js) refl refl e

  decode_all-cons :
      (j : Json) (js : List Json) {c : RaftConsenter} {cs : List RaftConsenter}
      → codec.decode_consenter j ≡ some c
      → decode_all codec js ≡ some cs
      → decode_all codec (j ∷ js) ≡ some (c ∷ cs)
  unfolding decode_all
  decode_all-cons j js p q = rw (p, decode_all) (rw (q, decode_all) refl)

  decode_all-nil : {cs : List RaftConsenter} → decode_all codec [] ≡ some cs → cs ≡ []
  unfolding decode_all
  decode_all-nil e = cc

  pub decode_all-append :
      (js : List Json) (cs : List RaftConsenter) (c : RaftConsenter)
      → decode_all codec js ≡ some cs
      → decode_all codec (js ++ codec.encode_consenter c ∷ []) ≡ some (cs ++ c ∷ [])
  decode_all-append [] cs c e = rw (decode_all-nil e) (
      decode_all-cons (codec.encode_consenter c) [] (codec.decode-encode c)
        (unfold decode_all in refl))
  decode_all-append (j ∷ js) cs c e =
      let d = decoded j js cs e in
      rw d.whole (
        decode_all-cons j (js ++ codec.encode_consenter c ∷ []) d.decode_first
          (decode_all-append js d.rest c d.decode_rest))

  erased :
      (x : Json) (xs : List Json) (i : ℕ) {ys : List Json}
      → erase_idx? (x ∷ xs) (suc i) ≡ some ys
      → (zs : List Json) × (erase_idx? xs i ≡ some zs) × (ys ≡ x ∷ zs)
  erased x xs i e = elim (Option-cases (erase_idx? xs i)) [
    | inl nothing ↦ absurd (ground arith)
    | inr found ↦ (found.0, found.1, ground (arith, found.1))
  ]

  -- What is left of the entries decodes to what is left of the consenters.
  pub decode_all-erase :
      (js : List Json) (cs : List RaftConsenter) (i : ℕ) {js' : List Json}
      → decode_all codec js ≡ some cs
      → erase_idx? js i ≡ some js'
      → (cs' : List RaftConsenter) × (erase_idx? cs i ≡ some cs')
        × (decode_all codec js' ≡ some cs')
  decode_all-erase [] cs i e h = absurd (ground arith)
  decode_all-erase (j ∷ js) cs zero e h =
      let d = decoded j js cs e in (d.rest, ground (arith, d.whole), ground (arith, d.decode_rest))
  decode_all-erase (j ∷ js) cs (suc i) e h =
      let d = decoded j js cs e in
      let (zs, left, ys) = erased j js i h in
      let (cs', a, b) = decode_all-erase js d.rest i d.decode_rest left in
      (d.first ∷ cs', ground (arith, d.whole, a), rw ys (decode_all-cons j zs d.decode_first b))
