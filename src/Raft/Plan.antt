-- ===== src/Raft/Plan.antt =====
-- `PlanRaftUpdate`, `planRaftConfig` and `RaftConsentersFromConfig` of
-- internal/channelconfig/raft.go. The decoding of JSON into Go structs is the parameter `Codec`.
pub mod Missing
pub mod Entries
pub mod Change
pub mod Realises
pub mod Review
use fabric_ops.Prelude.{
  ℕ, zero, suc, ◌+◌, ◌/◌, String, Bool, true, false, not, ◌&&◌, ◌||◌, List, [], ◌∷◌, ◌++◌, Option,
  none, some, ◌≡◌, ◌==◌, ltb, nat_eq, length, get_elem?, erase_idx?, if◌then◌else◌,
}
use fabric_ops.Prelude.Maps.{Map, has_key}
use fabric_ops.Text.{parse_uint64}
use fabric_ops.Raft.Result.{
  Error, Result, ok, err, decode_config_block, not_one_transaction, not_config_transaction,
  decode_channel_config, bad_sequence, decode_consensus_type, unsupported_consensus,
  decode_current_consenters, current_consenters, desired_consenters, more_than_one_change,
  decode_json, panic, ◌>>=◌, ◌>>◌, guard, or_error, wrap,
}
use fabric_ops.Raft.Json.{
  Json, null, arr, Items, nil, cons, RawMessage, items, of_items, raft_json_value,
  replace_raft_json_value,
}
use fabric_ops.Raft.Consenters.{Bytes, RaftConsenter, Tls, validate_raft_consenters}

pub record RaftUpdatePlan : Type 0 where
  pub api_version : String
  pub kind : String
  pub channel : String
  pub config_sequence : String
  pub action : String
  pub target : Option RaftConsenter
  pub current_quorum : ℕ
  pub desired_quorum : ℕ
  pub warnings : List String
  pub original_config : RawMessage
  pub updated_config : RawMessage

-- One transaction of the decoded block: the fields of its channel header, and its config.
pub record Transaction : Type 0 where
  pub channel_id : String
  pub kind : ℕ
  pub config : RawMessage

-- The `type` and `state` of the ConsensusType value.
pub record Consensus : Type 0 where
  pub kind : String
  pub state : String

-- `json.Unmarshal` into the structs of the package, with `none` for an error, and `json.Marshal`
-- of a consenter, which `json.Unmarshal` reads back.
pub record Codec : Type 0 where
  pub decode_block : Bytes → Option (List Transaction)
  pub decode_sequence : RawMessage → Option String
  pub decode_consensus : RawMessage → Option Consensus
  pub decode_consenter : Json → Option RaftConsenter
  pub encode_consenter : RaftConsenter → Json
  pub decode_plan : Bytes → Option RaftUpdatePlan
  pub decode-encode : (c : RaftConsenter) → decode_consenter (encode_consenter c) ≡ some c

abbrev pub consensus_path : List String
consensus_path = "channel_group" ∷ "groups" ∷ "Orderer" ∷ "values" ∷ "ConsensusType" ∷ "value" ∷ []

abbrev pub consenters_path : List String
consenters_path = consensus_path ++ "metadata" ∷ "consenters" ∷ []

-- One round of the two loops over keys: `last` is the index of the last key that `other` lacks,
-- and `changes` counts such keys. The order is that of the map.
unfoldable pub missing_from : Map ℕ → Option ℕ → ℕ → Map ℕ → Option ℕ × ℕ
missing_from other last changes [] = (last, changes)
missing_from other last changes ((key, index) ∷ m) =
    missing_from other (if has_key key other then last else some index)
      (if has_key key other then changes else suc changes) m

abbrev pub api_version_text : String
api_version_text = "fabricops.io/v1alpha1"

abbrev pub plan_kind : String
plan_kind = "FabricChannelRaftUpdatePlan"

abbrev pub plan_warnings : List String
plan_warnings =
    "Offline plan only: no update is signed or submitted and no workloads are changed"
    ∷ "Node health, catch-up, quorum availability, TLS trust/validity, and policy signatures are not verified"
    ∷ "Orderer MSPs, endpoint advertisements, policies, and Raft tuning are unchanged" ∷ []

-- `json.Unmarshal(raw, &entries)` for `entries []json.RawMessage`.
unfoldable pub unmarshal_entries : RawMessage → Error → Result (List Json)
unmarshal_entries (some null) e = ok []
unmarshal_entries (some (arr js)) e = ok (items js)
unmarshal_entries _ e = err e

module _ (codec : Codec) where
  unfoldable pub decode_all : List Json → Option (List RaftConsenter)
  decode_all [] = some []
  decode_all (j ∷ js) = elim (codec.decode_consenter j) [
    | none ↦ none
    | some c ↦ elim (decode_all js) [ none ↦ none | some cs ↦ some (c ∷ cs) ]
  ]

  -- `json.Unmarshal(raw, &consenters)` for `consenters []RaftConsenter`.
  unfoldable pub unmarshal_consenters : RawMessage → Error → Result (List RaftConsenter)
  unfolding unmarshal_entries
  unmarshal_consenters raw e = do entries ← unmarshal_entries raw e; or_error (decode_all entries) e

  unfoldable pub raft_consenters_from_config : RawMessage → Result (List RaftConsenter)
  raft_consenters_from_config config = do
    raw ← raft_json_value config consenters_path
    unmarshal_consenters raw decode_json

  -- The plan for no change.
  unfoldable pub base_plan :
      RawMessage → String → String → List RaftConsenter → List RaftConsenter → RaftUpdatePlan
  base_plan original channel sequence current desired = record {
    api_version = api_version_text;
    kind = plan_kind;
    channel = channel;
    config_sequence = sequence;
    action = "AlreadyApplied";
    target = none;
    current_quorum = length current / 2 + 1;
    desired_quorum = length desired / 2 + 1;
    warnings = plan_warnings;
    original_config = original;
    updated_config = original;
  }

  -- The action, the target and the entries after the change; `none` stands for the index -1.
  unfoldable pub changed_entries :
      List RaftConsenter
      → List RaftConsenter
      → List Json
      → Option ℕ
      → Option ℕ
      → Result (String × RaftConsenter × List Json)
  changed_entries current desired entries (some added) removed = do
    target ← or_error (get_elem? desired added) panic
    ok ("Add", target, entries ++ codec.encode_consenter target ∷ [])
  changed_entries current desired entries none (some removed) = do
    target ← or_error (get_elem? current removed) panic
    rest ← or_error (erase_idx? entries removed) panic
    ok ("Remove", target, rest)
  changed_entries current desired entries none none = err panic

  -- The plan with its change made in the config.
  unfoldable pub updated_plan :
      RawMessage
      → RaftUpdatePlan
      → RawMessage
      → List RaftConsenter
      → List RaftConsenter
      → Option ℕ
      → Option ℕ
      → Result RaftUpdatePlan
  updated_plan original plan current_raw current desired added removed = do
    entries ← unmarshal_entries current_raw decode_json
    (action, target, entries') ← changed_entries current desired entries added removed
    config ← replace_raft_json_value original consenters_path (arr (of_items entries'))
    ok (record plan { action = action; target = some target; updated_config = some config })

  -- The end of `planRaftConfig`, from the two sets of keys.
  unfoldable pub plan_change :
      RawMessage
      → RaftUpdatePlan
      → RawMessage
      → List RaftConsenter
      → List RaftConsenter
      → Map ℕ
      → Map ℕ
      → Result RaftUpdatePlan
  plan_change original plan current_raw current desired current_keys desired_keys =
      let (added, n) = missing_from current_keys none 0 desired_keys in
      let (removed, changes) = missing_from desired_keys none n current_keys in
      if ltb 1 changes
      then err more_than_one_change
      else if nat_eq changes 0
      then ok plan
      else updated_plan original plan current_raw current desired added removed

  -- The sequence of the config, and the checks of it and of the consensus type.
  unfoldable pub check_config : RawMessage → Result String
  check_config original = do
    sequence ← or_error (codec.decode_sequence original) decode_channel_config
    _ ← or_error (parse_uint64 sequence) bad_sequence
    consensus_raw ← raft_json_value original consensus_path
    consensus ← or_error (codec.decode_consensus consensus_raw) decode_consensus_type
    guard (consensus.kind == "etcdraft" && consensus.state == "STATE_NORMAL") unsupported_consensus
    ok sequence

  module _ (tls : Tls) where
    -- `planRaftConfig` from the reading of the consenters on.
    unfoldable pub plan_consenters :
        RawMessage → String → String → List RaftConsenter → Result RaftUpdatePlan
    plan_consenters original channel sequence desired = do
      current_raw ← raft_json_value original consenters_path
      current ← unmarshal_consenters current_raw decode_current_consenters
      current_keys ← wrap current_consenters (validate_raft_consenters tls current)
      desired_keys ← wrap desired_consenters (validate_raft_consenters tls desired)
      plan_change original (base_plan original channel sequence current desired) current_raw current
          desired current_keys desired_keys

    unfoldable pub plan_raft_config :
        RawMessage → String → List RaftConsenter → Result RaftUpdatePlan
    plan_raft_config original channel desired = do
      sequence ← check_config original
      plan_consenters original channel sequence desired

    -- The one transaction of a block.
    unfoldable pub plan_transaction :
        String → List RaftConsenter → List Transaction → Result RaftUpdatePlan
    plan_transaction channel desired (t ∷ []) = do
      guard (nat_eq t.kind 1 && t.channel_id == channel) (not_config_transaction channel)
      plan_raft_config t.config channel desired
    plan_transaction channel desired _ = err not_one_transaction

    unfoldable pub plan_raft_update : Bytes → String → List RaftConsenter → Result RaftUpdatePlan
    plan_raft_update block channel desired = do
      transactions ← or_error (codec.decode_block block) decode_config_block
      guard (not (channel == "")) not_one_transaction
      plan_transaction channel desired transactions
