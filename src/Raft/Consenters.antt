-- ===== src/Raft/Consenters.antt =====
-- `validateRaftConsenters` of internal/channelconfig/raft.go. What it takes from net, pem, x509,
-- sha256 and the Kubernetes validation package is the parameter `Tls`.
pub mod Rounds
pub mod Owners
pub mod Keys
pub mod Sets
use fabric_ops.Prelude.{
  ℕ, zero, suc, ◌≡◌, String, Bool, true, false, not, ◌&&◌, ◌||◌, List, [], ◌∷◌, Option, none, some,
  ◌==◌, ltb, nat_eq, if◌then◌else◌,
}
use fabric_ops.Prelude.Maps.{Map, lookup, insert, has_key}
use fabric_ops.Text.{◌<>◌, to_lower, trim_suffix, itoa, join_host_port}
use fabric_ops.Raft.Result.{
  Error, Result, ok, err, no_consenter, bad_host, bad_port, duplicate_endpoint,
  not_single_certificate, bad_certificate, ca_certificate, certificate_reuse, ◌>>=◌, ◌>>◌, guard,
  or_error,
}

abbrev pub Bytes : Type 0
Bytes = List ℕ

-- `port` is a uint32.
pub record RaftConsenter : Type 0 where
  pub host : String
  pub port : ℕ
  pub client_tls_cert : Bytes
  pub server_tls_cert : Bytes

-- `pem.Block`, with its rest as `pem.Decode` returns them.
pub record PemBlock : Type 0 where
  pub kind : String
  pub bytes : Bytes
  pub rest : Bytes

-- The fields of `x509.Certificate` that are read.
pub record Certificate : Type 0 where
  pub raw : Bytes
  pub is_ca : Bool

-- `sha256_hex` is the text that `%x` gives for a digest: 64 digits, and no other has them.
pub record Tls : Type 0 where
  pub is_ip : String → Bool
  pub is_dns1123_subdomain : String → Bool
  pub pem_decode : Bytes → Option PemBlock
  pub is_blank : Bytes → Bool
  pub parse_certificate : Bytes → Option Certificate
  pub sha256_hex : Bytes → String

-- The three maps of the loop.
pub record Seen : Type 0 where
  pub keys : Map ℕ
  pub endpoints : Map Bool
  pub certificates : Map ℕ

abbrev pub nothing_seen : Seen
nothing_seen = record { keys = []; endpoints = []; certificates = [] }

module _ (tls : Tls) where
  -- The host as it is compared: without a final dot, in lower case.
  unfoldable pub normal_host : RaftConsenter → String
  normal_host c = to_lower (trim_suffix c.host ".")

  unfoldable pub endpoint : RaftConsenter → String
  unfolding normal_host
  endpoint c = join_host_port (normal_host c) (itoa c.port)

  -- `pem.Decode` and the test that the block is one certificate and nothing else.
  unfoldable pub single_block : ℕ → Bytes → Result PemBlock
  single_block index cert = do
    block ← or_error (tls.pem_decode cert) (not_single_certificate index)
    guard (block.kind == "CERTIFICATE" && tls.is_blank block.rest) (not_single_certificate index)
    ok block

  unfoldable pub leaf_certificate : ℕ → PemBlock → Result Certificate
  leaf_certificate index block = do
    parsed ← or_error (tls.parse_certificate block.bytes) (bad_certificate index)
    guard (not parsed.is_ca) (ca_certificate index)
    ok parsed

  -- The digest of the one leaf certificate of a role.
  unfoldable pub leaf_hash : ℕ → Bytes → Result String
  leaf_hash index cert = do
    block ← single_block index cert
    parsed ← leaf_certificate index block
    ok (tls.sha256_hex parsed.raw)

  -- `owner, ok := certificates[hash]; ok && owner != index` is an error.
  unfoldable pub check_owner : ℕ → Option ℕ → Result (Unit {0})
  check_owner index none = ok tt
  check_owner index (some owner) = guard (nat_eq owner index) (certificate_reuse owner index)

  -- One round of the inner loop: the text that it appends to the key, and the certificates.
  unfoldable pub check_certificate : ℕ → Map ℕ → Bytes → Result (String × Map ℕ)
  check_certificate index certificates cert = do
    hash ← leaf_hash index cert
    check_owner index (lookup hash certificates)
    ok ("/" <> hash, insert hash index certificates)

  -- The checks of the host, the port and the endpoint.
  unfoldable pub check_address : ℕ → Map Bool → RaftConsenter → Result (Unit {0})
  check_address index endpoints c = do
    guard (tls.is_ip (normal_host c) || tls.is_dns1123_subdomain (normal_host c)) (bad_host index)
    guard (not (nat_eq c.port 0 || ltb 65535 c.port)) (bad_port index)
    guard (not (has_key (endpoint c) endpoints)) (duplicate_endpoint (endpoint c))

  -- One round of the outer loop.
  unfoldable pub check_consenter : ℕ → Seen → RaftConsenter → Result Seen
  check_consenter index seen c = do
    check_address index seen.endpoints c
    client ← check_certificate index seen.certificates c.client_tls_cert
    server ← check_certificate index client.1 c.server_tls_cert
    ok (record {
      keys = insert (endpoint c <> (client.0 <> server.0)) index seen.keys;
      endpoints = insert (endpoint c) true seen.endpoints;
      certificates = server.1;
    })

  unfoldable pub check_from : ℕ → Seen → List RaftConsenter → Result Seen
  check_from index seen [] = ok seen
  check_from index seen (c ∷ cs) = do
    seen' ← check_consenter index seen c
    check_from (suc index) seen' cs

  unfoldable pub validate_raft_consenters : List RaftConsenter → Result (Map ℕ)
  validate_raft_consenters [] = err no_consenter
  validate_raft_consenters (c ∷ cs) = do seen ← check_from 0 nothing_seen (c ∷ cs); ok seen.keys
