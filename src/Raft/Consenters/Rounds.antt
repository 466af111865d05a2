-- ===== src/Raft/Consenters/Rounds.antt =====
-- What one round of the loop over the consenters does, when it finds no fault.
use fabric_ops.Prelude.{
  ℕ, ◌≡◌, refl, String, Bool, true, false, ◌||◌, List, Option, none, some, ◌==◌, if◌then◌else◌, any,
  arith, subst,
}
use fabric_ops.Prelude.Maps.{Map, lookup, insert, has_key, has_key-insert, lookup-insert}
use fabric_ops.Text.{◌<>◌}
use fabric_ops.Raft.Result.{Result, ok, err, >>=-eq-ok}
use fabric_ops.Raft.Consenters.{
  Bytes, RaftConsenter, Tls, Seen, endpoint, single_block, leaf_certificate, leaf_hash, check_owner,
  check_address, check_certificate, check_consenter,
}

-- The value of a success.
abbrev pub value {ℓ} : {A : Type ℓ} → Result A → Option A
value (ok a) = some a
value (err e) = none

module _ (tls : Tls) where
  -- The digest of a role's certificate, with no regard to the index.
  unfoldable pub leaf : Bytes → Option String
  leaf cert = value (leaf_hash tls 0 cert)

  leaf-leaf_hash :
      (index : ℕ) (cert : Bytes) {h : String} → leaf_hash tls index cert ≡ ok h → leaf cert ≡ some h
  unfolding leaf leaf_hash single_block leaf_certificate
  leaf-leaf_hash index cert h = ground arith

  -- The identity of a consenter: endpoint and the digests of both certificates.
  unfoldable pub consenter_key : RaftConsenter → Option String
  consenter_key c = elim (leaf c.client_tls_cert) [
    | none ↦ none
    | some client ↦ elim (leaf c.server_tls_cert) [
      | none ↦ none
      | some server ↦ some (endpoint tls c <> (("/" <> client) <> ("/" <> server)))
    ]
  ]

  -- The consenter has the key `k`.
  unfoldable pub is_key : String → RaftConsenter → Bool
  is_key k c = elim (consenter_key c) [ none ↦ false | some j ↦ j == k ]

  -- One of the consenters has the key `k`.
  abbrev pub in_set : String → List RaftConsenter → Bool
  in_set k = any (is_key k)

  -- What one round does.
  pub record Round (index : ℕ) (seen : Seen) (c : RaftConsenter) (seen' : Seen) : Type 0 where
    pub client : String
    pub server : String
    pub client_leaf : leaf c.client_tls_cert ≡ some client
    pub server_leaf : leaf c.server_tls_cert ≡ some server
    pub client_owner : check_owner tls index (lookup client seen.certificates) ≡ ok tt
    pub server_owner :
        check_owner tls index (lookup server (insert client index seen.certificates)) ≡ ok tt
    pub keys :
        seen'.keys ≡ insert (endpoint tls c <> (("/" <> client) <> ("/" <> server))) index seen.keys
    pub certificates :
        seen'.certificates ≡ insert server index (insert client index seen.certificates)
    pub endpoints : seen'.endpoints ≡ insert (endpoint tls c) true seen.endpoints
    pub fresh : has_key (endpoint tls c) seen.endpoints ≡ false

  check_certificate-ok :
      (index : ℕ) (m : Map ℕ) (cert : Bytes) {text : String} {m' : Map ℕ}
      → check_certificate tls index m cert ≡ ok (text, m')
      → (h : String) × (leaf cert ≡ some h)
        × (check_owner tls index (lookup h m) ≡ ok tt)
        × (text ≡ "/" <> h)
        × (m' ≡ insert h index m)
  unfolding check_certificate
  check_certificate-ok index m cert e =
      let (h, hash, rest) = >>=-eq-ok (leaf_hash tls index cert) _ e in
      let (u, owner, done) = >>=-eq-ok (check_owner tls index (lookup h m)) _ rest in
      (h, leaf-leaf_hash index cert hash, owner, cc, cc)

  check_address-fresh :
      (index : ℕ) (endpoints : Map Bool) (c : RaftConsenter)
      → check_address tls index endpoints c ≡ ok tt
      → has_key (endpoint tls c) endpoints ≡ false
  unfolding check_address
  check_address-fresh index endpoints c e = ground arith

  Round-of :
      (index : ℕ) (seen : Seen) (c : RaftConsenter) (client server : String × Map ℕ) {seen' : Seen}
      → check_address tls index seen.endpoints c ≡ ok tt
      → check_certificate tls index seen.certificates c.client_tls_cert ≡ ok client
      → check_certificate tls index client.1 c.server_tls_cert ≡ ok server
      → ok (record {
        keys = insert (endpoint tls c <> (client.0 <> server.0)) index seen.keys;
        endpoints = insert (endpoint tls c) true seen.endpoints;
        certificates = server.1;
      })
        ≡ ok seen'
      → Round index seen c seen'
  Round-of index seen c (t1, m1) (t2, m2) address first second done =
      let (h1, leaf1, owner1, text1, map1) =
        check_certificate-ok index seen.certificates c.client_tls_cert first in
      let (h2, leaf2, owner2, text2, map2) =
        check_certificate-ok index m1 c.server_tls_cert second in
      record {
        client = h1;
        server = h2;
        client_leaf = leaf1;
        server_leaf = leaf2;
        client_owner = owner1;
        server_owner = subst (λ m. check_owner tls index (lookup h2 m) ≡ ok tt) map1 owner2;
        keys = cc;
        certificates = cc;
        endpoints = cc;
        fresh = check_address-fresh index seen.endpoints c address;
      }

  pub check_consenter-ok :
      (index : ℕ) (seen : Seen) (c : RaftConsenter) {seen' : Seen}
      → check_consenter tls index seen c ≡ ok seen'
      → Round index seen c seen'
  unfolding check_consenter
  check_consenter-ok index seen c e =
      let (_, address, a) = >>=-eq-ok (check_address tls index seen.endpoints c) _ e in
      let (client, first, b) =
        >>=-eq-ok (check_certificate tls index seen.certificates c.client_tls_cert) _ a in
      let (server, second, d) =
        >>=-eq-ok (check_certificate tls index client.1 c.server_tls_cert) _ b in
      Round-of index seen c client server address first second d

  Round-key :
      {index : ℕ} {seen seen' : Seen} (c : RaftConsenter) (r : Round index seen c seen')
      → consenter_key c ≡ some (endpoint tls c <> (("/" <> r.client) <> ("/" <> r.server)))
  unfolding consenter_key
  Round-key c r = rw (r.client_leaf, consenter_key) (rw (r.server_leaf, consenter_key) refl)

  -- A round adds the key of its consenter.
  pub Round-has_key :
      {index : ℕ} {seen seen' : Seen} (c : RaftConsenter) (r : Round index seen c seen')
      (k : String)
      → has_key k seen'.keys ≡ (is_key k c || has_key k seen.keys)
  unfolding is_key
  Round-has_key {index} {seen} c r k = ground (
    arith,
    Round-key c r,
    has_key-insert (endpoint tls c <> (("/" <> r.client) <> ("/" <> r.server))) k index seen.keys,
  )

  pub Round-lookup :
      {index : ℕ} {seen seen' : Seen} (c : RaftConsenter) (r : Round index seen c seen')
      (k : String)
      → lookup k seen'.keys ≡ (if is_key k c then some index else lookup k seen.keys)
  unfolding is_key
  Round-lookup {index} {seen} c r k = ground (
    arith,
    Round-key c r,
    lookup-insert (endpoint tls c <> (("/" <> r.client) <> ("/" <> r.server))) k index seen.keys,
  )
