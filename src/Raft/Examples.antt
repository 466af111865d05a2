-- ===== src/Raft/Examples.antt =====
-- A channel with two consenters, to which a third is added.
use fabric_ops.Prelude.{
  ℕ, zero, suc, String, Bool, true, false, not, List, [], ◌∷◌, Option, none, some, ◌≡◌, refl, ap,
  ◌==◌,
}
use fabric_ops.Prelude.Maps.{Map, lookup, insert, has_key}
use fabric_ops.Text.{to_lower, trim_suffix, itoa, join_host_port, parse_uint64}
use fabric_ops.Raft.Result.{Result, ok}
use fabric_ops.Raft.Json.{
  Json, null, str, arr, obj, Items, nil, cons, end, field, RawMessage, raft_json_value, of_items,
  replace_raft_json_value, unmarshal_object, object_field, present, write_field, fields_into,
  of_map,
}
use fabric_ops.Raft.Consenters.{
  Bytes, RaftConsenter, Tls, validate_raft_consenters, check_from, check_consenter, check_address,
  check_certificate, check_owner, leaf_hash, single_block, leaf_certificate, endpoint, normal_host,
}
use fabric_ops.Raft.Consenters.Owners.{FixedLength, ValidKeys}
use fabric_ops.Raft.Consenters.Keys.{validate_raft_consenters-ValidKeys}
use fabric_ops.Raft.Json.Paths.{Replaces, replaces}
use fabric_ops.Raft.Plan.{
  raft_consenters_from_config, Codec, Consensus, RaftUpdatePlan, plan_raft_config, check_config,
  plan_consenters, plan_change, base_plan, updated_plan, changed_entries, missing_from,
  unmarshal_consenters, unmarshal_entries, decode_all, plan_warnings,
}
use fabric_ops.Raft.Plan.Review.{
  validate_raft_plan, compare_plans, Reviewed, validate_raft_plan-Reviewed,
}
use fabric_ops.Raft.Plan.Realises.{Realises, plan_raft_config-Realises}

-- A certificate is its own text, and a digest ends in one of its bytes.
last_digit : ℕ → String
last_digit zero = "0"
last_digit (suc zero) = "1"
last_digit (suc (suc zero)) = "2"
last_digit (suc (suc (suc zero))) = "3"
last_digit (suc (suc (suc (suc zero)))) = "4"
last_digit _ = "5"

abbrev digest : Bytes → String
digest [] = "0000000000000000000000000000000000000000000000000000000000000000"
digest (zero ∷ b) = "0000000000000000000000000000000000000000000000000000000000000000"
digest (suc zero ∷ b) = "0000000000000000000000000000000000000000000000000000000000000001"
digest (suc (suc zero) ∷ b) = "0000000000000000000000000000000000000000000000000000000000000002"
digest (suc (suc (suc zero)) ∷ b) =
    "0000000000000000000000000000000000000000000000000000000000000003"
digest (suc (suc (suc (suc zero))) ∷ b) =
    "0000000000000000000000000000000000000000000000000000000000000004"
digest (suc (suc (suc (suc (suc zero)))) ∷ b) =
    "0000000000000000000000000000000000000000000000000000000000000005"
digest (x ∷ b) = "0000000000000000000000000000000000000000000000000000000000000006"

abbrev tls : Tls
tls = record {
  is_ip = λ h. false;
  is_dns1123_subdomain = λ h. not (h == "");
  pem_decode = λ b. some (record { kind = "CERTIFICATE"; bytes = b; rest = [] });
  is_blank = λ b. true;
  parse_certificate = λ b. some (record { raw = b; is_ca = false });
  sha256_hex = digest;
}

tls-FixedLength : FixedLength tls
tls-FixedLength [] = refl
tls-FixedLength (zero ∷ b) = refl
tls-FixedLength (suc zero ∷ b) = refl
tls-FixedLength (suc (suc zero) ∷ b) = refl
tls-FixedLength (suc (suc (suc zero)) ∷ b) = refl
tls-FixedLength (suc (suc (suc (suc zero))) ∷ b) = refl
tls-FixedLength (suc (suc (suc (suc (suc zero)))) ∷ b) = refl
tls-FixedLength (suc (suc (suc (suc (suc (suc x))))) ∷ b) = refl

-- Numbers as arrays of that length.
nat_json : ℕ → Items
nat_json zero = nil
nat_json (suc n) = cons null (nat_json n)

json_nat : Items → ℕ
json_nat nil = zero
json_nat (cons j js) = suc (json_nat js)

json_nat-nat_json : (n : ℕ) → json_nat (nat_json n) ≡ n
unfolding json_nat nat_json
json_nat-nat_json zero = refl
json_nat-nat_json (suc n) = ap suc (json_nat-nat_json n)

bytes_json : Bytes → Items
bytes_json [] = nil
bytes_json (b ∷ bs) = cons (arr (nat_json b)) (bytes_json bs)

json_bytes : Items → Bytes
json_bytes nil = []
json_bytes (cons (arr js) r) = json_nat js ∷ json_bytes r
json_bytes (cons j r) = json_bytes r

json_bytes-bytes_json : (b : Bytes) → json_bytes (bytes_json b) ≡ b
unfolding json_bytes bytes_json
json_bytes-bytes_json [] = refl
json_bytes-bytes_json (b ∷ bs) = rw (json_nat-nat_json b, json_bytes-bytes_json bs)

encode : RaftConsenter → Json
encode c = arr (
    cons (str c.host) (
      cons (arr (nat_json c.port)) (
        cons (arr (bytes_json c.client_tls_cert)) (cons (arr (bytes_json c.server_tls_cert)) nil))))

decode : Json → Option RaftConsenter
decode (arr (cons (str host) (cons (arr port) (cons (arr client) (cons (arr server) nil))))) =
    some (record {
      host = host;
      port = json_nat port;
      client_tls_cert = json_bytes client;
      server_tls_cert = json_bytes server;
    })
decode _ = none

decode-encode : (c : RaftConsenter) → decode (encode c) ≡ some c
unfolding decode encode
decode-encode c = rw (
  json_nat-nat_json c.port,
  json_bytes-bytes_json c.client_tls_cert,
  json_bytes-bytes_json c.server_tls_cert,
)

text_of : Result RawMessage → Option String
text_of (ok (some (str s))) = some s
text_of _ = none

consensus_of : Option String → Option String → Option Consensus
consensus_of (some t) (some s) = some (record { kind = t; state = s })
consensus_of _ _ = none

abbrev codec : Codec
codec = record {
  decode_block = λ b. none;
  decode_sequence = λ raw. text_of (raft_json_value raw ("sequence" ∷ []));
  decode_consensus = λ raw.
      consensus_of (text_of (raft_json_value raw ("type" ∷ [])))
        (text_of (raft_json_value raw ("state" ∷ [])));
  decode_consenter = decode;
  encode_consenter = encode;
  decode_plan = λ b. none;
  decode-encode = decode-encode;
}

abbrev consenter : String → ℕ → RaftConsenter
consenter host n = record {
  host = host;
  port = 7;
  client_tls_cert = n ∷ [];
  server_tls_cert = n ∷ [];
}

one : Json → String → Json
one j k = obj (field k j end)

abbrev config_of : List Json → Json
config_of cs = obj (
    field "sequence" (str "3") (
      field "channel_group"
        (obj (
          field "groups"
            (obj (
              field "Orderer"
                (obj (
                  field "values"
                    (obj (
                      field "ConsensusType"
                        (obj (
                          field "value"
                            (obj (
                              field "metadata"
                                (obj (
                                  field "consenters" (arr (of_items cs))
                                    (field "options" null end)))
                                (field "type" (str "etcdraft")
                                  (field "state" (str "STATE_NORMAL") end))))
                            end))
                        end))
                    end))
                end))
            end))
        end))

abbrev two : List RaftConsenter
two = consenter "a.example" 1 ∷ consenter "B.example." 2 ∷ []

abbrev three : List RaftConsenter
three = consenter "c.example" 3 ∷ consenter "b.example" 2 ∷ consenter "A.example" 1 ∷ []

original : RawMessage
original =
    some (config_of (encode (consenter "a.example" 1) ∷ encode (consenter "B.example." 2) ∷ []))

abbrev added_plan : RaftUpdatePlan
added_plan = record {
  api_version = "fabricops.io/v1alpha1";
  kind = "FabricChannelRaftUpdatePlan";
  channel = "ch";
  config_sequence = "3";
  action = "Add";
  target = some (consenter "c.example" 3);
  current_quorum = 2;
  desired_quorum = 2;
  warnings = plan_warnings;
  original_config = original;
  updated_config = some (
      config_of (
        encode (consenter "a.example" 1)
        ∷ encode (consenter "B.example." 2)
        ∷ encode (consenter "c.example" 3)
        ∷ []));
}

added_ok : plan_raft_config codec tls original "ch" three ≡ ok added_plan
unfolding original encode decode nat_json json_nat bytes_json json_bytes text_of consensus_of
    plan_raft_config check_config plan_consenters plan_change base_plan updated_plan changed_entries
    missing_from unmarshal_consenters unmarshal_entries decode_all raft_json_value
    replace_raft_json_value unmarshal_object object_field present write_field fields_into of_map
    lookup insert has_key validate_raft_consenters check_from check_consenter check_address
    check_certificate check_owner leaf_hash single_block leaf_certificate endpoint normal_host
    to_lower trim_suffix itoa join_host_port parse_uint64
added_ok = refl

plan_raft_config-Realises_example : Realises codec tls original added_plan three
plan_raft_config-Realises_example =
    plan_raft_config-Realises codec tls tls-FixedLength original "ch" three added_ok

abbrev keys_of_two : Map ℕ
keys_of_two =
    (
      "a.example:7/0000000000000000000000000000000000000000000000000000000000000001/0000000000000000000000000000000000000000000000000000000000000001",
      0,
    )
    ∷ (
      "b.example:7/0000000000000000000000000000000000000000000000000000000000000002/0000000000000000000000000000000000000000000000000000000000000002",
      1,
    )
    ∷ []

two_keys : validate_raft_consenters tls two ≡ ok keys_of_two
unfolding validate_raft_consenters lookup insert has_key check_from check_consenter check_address
    check_certificate check_owner leaf_hash single_block leaf_certificate endpoint normal_host
    to_lower trim_suffix itoa join_host_port
two_keys = refl

validate_raft_consenters-ValidKeys_example : ValidKeys tls two keys_of_two
validate_raft_consenters-ValidKeys_example =
    validate_raft_consenters-ValidKeys tls tls-FixedLength two two_keys

abbrev document : RawMessage
document = some (obj (field "a" (obj (field "b" (str "x") end)) (field "c" (str "y") end)))

document_reads : raft_json_value document ("a" ∷ "b" ∷ []) ≡ ok (some (str "x"))
unfolding raft_json_value unmarshal_object object_field present fields_into lookup insert
document_reads = refl

replaces_example : Replaces document ("a" ∷ "b" ∷ []) (str "z")
replaces_example = replaces document ("a" ∷ "b" ∷ []) (str "z") document_reads refl

abbrev reviewing : Codec
reviewing = record codec { decode_plan = λ b. some added_plan }

-- The values that are compared are the sequences.
sequence_of : RawMessage → Option String
unfolding text_of raft_json_value
sequence_of raw = text_of (raft_json_value raw ("sequence" ∷ []))

sequences_equal : String → String → Bool
sequences_equal a b = a == b

reviewed_ok : validate_raft_plan reviewing tls sequence_of sequences_equal [] "ch" ≡ ok added_plan
unfolding validate_raft_plan compare_plans sequence_of sequences_equal raft_consenters_from_config
    original encode decode nat_json json_nat bytes_json json_bytes text_of consensus_of
    plan_raft_config check_config plan_consenters plan_change base_plan updated_plan changed_entries
    missing_from unmarshal_consenters unmarshal_entries decode_all raft_json_value
    replace_raft_json_value unmarshal_object object_field present write_field fields_into of_map
    lookup insert has_key validate_raft_consenters check_from check_consenter check_address
    check_certificate check_owner leaf_hash single_block leaf_certificate endpoint normal_host
    to_lower trim_suffix itoa join_host_port parse_uint64
reviewed_ok = refl

validate_raft_plan-Reviewed_example :
    Reviewed reviewing tls sequence_of sequences_equal [] "ch" added_plan
validate_raft_plan-Reviewed_example =
    validate_raft_plan-Reviewed reviewing tls sequence_of sequences_equal [] "ch" tls-FixedLength
      added_plan reviewed_ok
