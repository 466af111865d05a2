-- ===== src/Raft/Consenters/Owners.antt =====
-- The map of certificates: no two consenters of a valid list have one key.
use Prim.Native.String.{count}
use text.Mathlib.TextLemmas.{append_inj, append_cancel_left, append_assoc, length-append}
use fabric_ops.Prelude.{
  ℕ, suc, ◌≡◌, ◌<◌, refl, sym, ap, ◌∙◌, String, Bool, true, false, List, [], ◌∷◌, Option, none,
  some, ◌==◌, any, get_elem?, arith, eq_iff, eq_refl, Bool-cases, inl, inr, subst, ◌≢◌,
}
use fabric_ops.Prelude.Maps.{Map, lookup, insert, has_key, lookup-insert}
use fabric_ops.Text.{◌<>◌}
use fabric_ops.Raft.Result.{Result, ok, err, >>=-eq-ok}
use fabric_ops.Raft.Consenters.{
  Bytes, RaftConsenter, Tls, Seen, endpoint, single_block, leaf_certificate, leaf_hash, check_owner,
  check_consenter, check_from,
}
use fabric_ops.Raft.Consenters.Rounds.{
  value, leaf, consenter_key, is_key, in_set, check_consenter-ok, Round,
}

module _ (tls : Tls) where
  -- The server certificate has the digest `h`.
  unfoldable pub has_server : String → RaftConsenter → Bool
  has_server h c = elim (leaf tls c.server_tls_cert) [ none ↦ false | some g ↦ g == h ]

  own_only : (index o : ℕ) (x : Option ℕ) → o < index → x ≡ some o → check_owner tls index x ≢ ok tt
  unfolding check_owner
  own_only index o x lt e h = ground arith

  owned_ne :
      {index o : ℕ} (m : Map ℕ) (g h : String)
      → o < index
      → lookup h m ≡ some o
      → check_owner tls index (lookup g m) ≡ ok tt
      → (g == h) ≡ false
  owned_ne {index} {o} m g h lt e c = elim (Bool-cases (g == h)) [
    | inl same ↦ absurd (
        own_only index o (lookup g m) lt
          (subst (λ x. lookup x m ≡ some o) (sym ((eq_iff g h).0 same)) e) c)
    | inr other ↦ other
  ]

  -- A digest that an earlier consenter owns is not used by this one.
  Round-owner :
      {index o : ℕ} {seen seen' : Seen} (c : RaftConsenter) (r : Round tls index seen c seen')
      (h : String)
      → o < index
      → lookup h seen.certificates ≡ some o
      → (lookup h seen'.certificates ≡ some o) × (has_server h c ≡ false)
  unfolding has_server
  Round-owner {index} {o} {seen} c r h lt e =
      let not_client = owned_ne seen.certificates r.client h lt e r.client_owner in
      let kept : lookup h (insert r.client index seen.certificates) ≡ some o =
        ground (arith, lookup-insert r.client h index seen.certificates) in
      let not_server =
        owned_ne (insert r.client index seen.certificates) r.server h lt kept r.server_owner in
      (
        ground (arith, lookup-insert r.server h index (insert r.client index seen.certificates)),
        ground arith,
      )

  -- No consenter of the rest uses a digest that an earlier one owns.
  any-has_server :
      (index o : ℕ) (seen : Seen) (cs : List RaftConsenter) {seen' : Seen} (h : String)
      → check_from tls index seen cs ≡ ok seen'
      → o < index
      → lookup h seen.certificates ≡ some o
      → any (has_server h) cs ≡ false
  unfolding check_from
  any-has_server index o seen [] h e lt owned = refl
  any-has_server index o seen (c ∷ cs) h e lt owned =
      let (next, first, rest) = >>=-eq-ok (check_consenter tls index seen c) _ e in
      let (owned', free) = Round-owner c (check_consenter-ok tls index seen c first) h lt owned in
      rw free (any-has_server (suc index) o next cs h rest (omega arith) owned')

  -- The digests of `sha256` have one length.
  abbrev pub FixedLength : Type 0
  FixedLength = (b : Bytes) → count (tls.sha256_hex b) ≡ 64

  ok_of_value : {A : Type 0} (m : Result A) {a : A} → value m ≡ some a → m ≡ ok a
  ok_of_value (ok a) e = cc
  ok_of_value (err x) e = cc

  leaf-count : FixedLength → (cert : Bytes) {h : String} → leaf tls cert ≡ some h → count h ≡ 64
  unfolding leaf leaf_hash
  leaf-count fixed cert {h} e =
      let (block, _, a) =
        >>=-eq-ok (single_block tls 0 cert) _ (ok_of_value (leaf_hash tls 0 cert) e) in
      let (parsed, _, b) = >>=-eq-ok (leaf_certificate tls 0 block) _ a in
      let same : h ≡ tls.sha256_hex parsed.raw = cc in rw same (fixed parsed.raw)

  -- Texts that are equal end alike, as far as their ends have one length.
  end_of :
      (e e' a a' b b' : String)
      → e <> (("/" <> a) <> ("/" <> b)) ≡ e' <> (("/" <> a') <> ("/" <> b'))
      → count b ≡ count b'
      → b ≡ b'
  end_of e e' a a' b b' p len =
      let q : (e <> ("/" <> a)) <> ("/" <> b) ≡ (e' <> ("/" <> a')) <> ("/" <> b') =
        append_assoc e ("/" <> a) ("/" <> b) ∙ p ∙ sym (append_assoc e' ("/" <> a') ("/" <> b')) in
      let counts =
        sym (length-append (e <> ("/" <> a)) ("/" <> b))
        ∙ ap count q
        ∙ length-append (e' <> ("/" <> a')) ("/" <> b') in
      let (_, ends) =
        append_inj q (omega (arith, counts, length-append "/" b, length-append "/" b')) in
      append_cancel_left "/" b b' ends

  -- The parts of a consenter's key.
  record Keyed (k : String) (c : RaftConsenter) : Type 0 where
    client : String
    server : String
    server_leaf : leaf tls c.server_tls_cert ≡ some server
    text : endpoint tls c <> (("/" <> client) <> ("/" <> server)) ≡ k

  Keyed-of :
      (k : String) (c : RaftConsenter) (x y : Option String)
      → leaf tls c.client_tls_cert ≡ x
      → leaf tls c.server_tls_cert ≡ y
      → is_key tls k c ≡ true
      → Keyed k c
  unfolding is_key consenter_key
  Keyed-of k c none y p q h = absurd (ground arith)
  Keyed-of k c (some a) none p q h = absurd (ground arith)
  Keyed-of k c (some a) (some b) p q h = record {
    client = a;
    server = b;
    server_leaf = q;
    text = ground (arith, eq_iff (endpoint tls c <> (("/" <> a) <> ("/" <> b))) k);
  }

  is_key-Keyed : (k : String) (c : RaftConsenter) → is_key tls k c ≡ true → Keyed k c
  is_key-Keyed k c h =
      Keyed-of k c (leaf tls c.client_tls_cert) (leaf tls c.server_tls_cert) refl refl h

  -- Consenters with one key have one server certificate.
  is_key-has_server :
      FixedLength
      → (k h : String) (c c' : RaftConsenter) → leaf tls c.server_tls_cert ≡ some h
      → is_key tls k c ≡ true
      → is_key tls k c' ≡ true
      → has_server h c' ≡ true
  unfolding has_server
  is_key-has_server fixed k h c c' e key key' =
      let a = is_key-Keyed k c key in
      let b = is_key-Keyed k c' key' in
      let counts =
        leaf-count fixed c.server_tls_cert a.server_leaf
        ∙ sym (leaf-count fixed c'.server_tls_cert b.server_leaf) in
      let same = end_of _ _ a.client b.client a.server b.server (a.text ∙ sym b.text) counts in
      ground (arith, a.server_leaf, b.server_leaf, eq_iff b.server h)

  any_mono :
      (p q : RaftConsenter → Bool) (cs : List RaftConsenter)
      → ((c : RaftConsenter) → p c ≡ true → q c ≡ true)
      → any q cs ≡ false
      → any p cs ≡ false
  any_mono p q [] h e = refl
  any_mono p q (c ∷ cs) h e = ground (arith, h c, any_mono p q cs h)

  -- No two consenters of the list have one key.
  abbrev pub KeysDistinct : List RaftConsenter → Type 0
  KeysDistinct [] = Unit
  KeysDistinct (c ∷ cs) =
      ((k : String) → is_key tls k c ≡ true → in_set tls k cs ≡ false) × KeysDistinct cs

  pub check_from-KeysDistinct :
      FixedLength
      → (index : ℕ) (seen : Seen) (cs : List RaftConsenter) {seen' : Seen}
      → check_from tls index seen cs ≡ ok seen'
      → KeysDistinct cs
  unfolding check_from
  check_from-KeysDistinct fixed index seen [] e = tt
  check_from-KeysDistinct fixed index seen (c ∷ cs) e =
      let (next, first, rest) = >>=-eq-ok (check_consenter tls index seen c) _ e in
      let r = check_consenter-ok tls index seen c first in
      let owned : lookup r.server next.certificates ≡ some index = ground (
        arith,
        lookup-insert r.server r.server index (insert r.client index seen.certificates),
        eq_refl r.server,
      ) in
      (
        λ k keyed.
            any_mono (is_key tls k) (has_server r.server) cs
              (λ c'. is_key-has_server fixed k r.server c c' r.server_leaf keyed)
              (any-has_server (suc index) index next cs r.server rest (omega arith) owned),
        check_from-KeysDistinct fixed (suc index) next cs rest,
      )

  -- What the map of keys of a valid list says of the list.
  pub record ValidKeys (cs : List RaftConsenter) (keys : Map ℕ) : Type 0 where
    pub members : (k : String) → has_key k keys ≡ in_set tls k cs
    pub places :
        (k : String) (i : ℕ)
        → lookup k keys ≡ some i
        → (c : RaftConsenter) × (get_elem? cs i ≡ some c) × (is_key tls k c ≡ true)
    pub distinct : KeysDistinct cs
