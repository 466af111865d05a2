-- ===== src/Raft/Plan/Review.antt =====
-- `ValidateRaftPlan` of internal/channelconfig/raft.go. The decoding into Go values, with numbers as
-- texts, and `reflect.DeepEqual` of them are parameters.
use fabric_ops.Prelude.{
  String, Bool, true, not, ◌&&◌, List, Option, some, ◌≡◌, ◌==◌, subst, eq_iff, arith,
}
use fabric_ops.Raft.Result.{
  Result, ok, decode_plan, not_a_plan, plan_mismatch, outside_delta, decode_json, ◌>>=◌, ◌>>◌,
  guard, or_error, guard-eq-ok, or_error-eq-ok, >>=-elim,
}
use fabric_ops.Raft.Json.{RawMessage}
use fabric_ops.Raft.Consenters.{Bytes, RaftConsenter, Tls}
use fabric_ops.Raft.Consenters.Owners.{FixedLength}
use fabric_ops.Raft.Plan.{
  Codec, RaftUpdatePlan, api_version_text, plan_kind, raft_consenters_from_config, plan_raft_config,
}
use fabric_ops.Raft.Plan.Realises.{Realises, plan_raft_config-Realises}

module _ (codec : Codec) (tls : Tls) {V : Type 0} (decode : RawMessage → Option V)
    (deep_equal : V → V → Bool) where
  both : (a b : Bool) → a && b ≡ true → (a ≡ true) × (b ≡ true)
  both a b h = ground arith

  last_of_four : (a b c d : Bool) → a && b && c && d ≡ true → d ≡ true
  last_of_four a b c d h = ground arith

  same_plan : (p q : RaftUpdatePlan) → ok p ≡ ok q → p ≡ q
  same_plan p q h = cc

  -- The comparison of the reviewed plan with the one that was computed.
  unfoldable pub compare_plans : RaftUpdatePlan → RaftUpdatePlan → Result RaftUpdatePlan
  compare_plans supplied computed = do
    guard
        (supplied.config_sequence == computed.config_sequence && supplied.action == computed.action)
        plan_mismatch
    actual ← or_error (decode supplied.updated_config) decode_json
    want ← or_error (decode computed.updated_config) decode_json
    guard (deep_equal actual want) outside_delta
    ok computed

  unfoldable pub validate_raft_plan : Bytes → String → Result RaftUpdatePlan
  unfolding raft_consenters_from_config plan_raft_config compare_plans
  validate_raft_plan raw channel = do
    supplied ← or_error (codec.decode_plan raw) decode_plan
    guard
        (supplied.api_version == api_version_text
          && supplied.kind == plan_kind
          && not (channel == "")
          && supplied.channel == channel)
        (not_a_plan channel)
    desired ← raft_consenters_from_config codec supplied.updated_config
    computed ← plan_raft_config codec tls supplied.original_config channel desired
    compare_plans supplied computed

  -- What the reviewed plan asks for, and what it is compared with.
  abbrev pub Reviewed : Bytes → String → RaftUpdatePlan → Type 0
  Reviewed raw channel plan =
      (supplied : RaftUpdatePlan) × (desired : List RaftConsenter) × (codec.decode_plan raw
        ≡ some supplied)
      × (supplied.channel ≡ channel)
      × (raft_consenters_from_config codec supplied.updated_config ≡ ok desired)
      × Realises codec tls supplied.original_config plan desired
      × (supplied.config_sequence ≡ plan.config_sequence)
      × (supplied.action ≡ plan.action)
      × ((actual : V) × (want : V) × (decode supplied.updated_config ≡ some actual)
          × (decode plan.updated_config ≡ some want)
          × (deep_equal actual want ≡ true))

  compare_plans-eq-ok :
      (supplied computed plan : RaftUpdatePlan)
      → compare_plans supplied computed ≡ ok plan
      → (computed ≡ plan)
        × (supplied.config_sequence ≡ computed.config_sequence)
        × (supplied.action ≡ computed.action)
        × ((actual : V) × (want : V) × (decode supplied.updated_config ≡ some actual)
            × (decode computed.updated_config ≡ some want)
            × (deep_equal actual want ≡ true))
  unfolding compare_plans
  compare_plans-eq-ok supplied computed plan e =
      let (same_text, rest) =
        guard-eq-ok
          (supplied.config_sequence == computed.config_sequence
            && supplied.action == computed.action)
          plan_mismatch _ e in
      >>=-elim (or_error (decode supplied.updated_config) decode_json) _ rest λ actual decoded e1.
        >>=-elim (or_error (decode computed.updated_config) decode_json) _ e1 λ want wanted e2.
          let (same, is_ok) = guard-eq-ok (deep_equal actual want) outside_delta _ e2 in
          let texts = both _ _ same_text in
          (
            same_plan computed plan is_ok,
            (eq_iff supplied.config_sequence computed.config_sequence).0 texts.0,
            (eq_iff supplied.action computed.action).0 texts.1,
            (actual, want, or_error-eq-ok _ _ decoded, or_error-eq-ok _ _ wanted, same),
          )

  review :
      (raw : Bytes) (channel : String) (supplied computed plan : RaftUpdatePlan)
      (desired : List RaftConsenter)
      → FixedLength tls
      → codec.decode_plan raw ≡ some supplied
      → supplied.channel ≡ channel
      → raft_consenters_from_config codec supplied.updated_config ≡ ok desired
      → plan_raft_config codec tls supplied.original_config channel desired ≡ ok computed
      → compare_plans supplied computed ≡ ok plan
      → Reviewed raw channel plan
  review raw channel supplied computed plan desired fixed decoded at read planned compared =
      let (same, sequence, action, reads) = compare_plans-eq-ok supplied computed plan compared in
      subst (λ p. Reviewed raw channel p) same
        (
          supplied,
          desired,
          decoded,
          at,
          read,
          plan_raft_config-Realises codec tls fixed supplied.original_config channel desired
              planned,
          sequence,
          action,
          reads,
        )

  -- When ValidateRaftPlan returns a plan, the reviewed one was decoded and is for the
  -- channel, its updated config decodes to consenters that the returned plan realises on the
  -- original config of the reviewed one, both have the same sequence and action, and their
  -- updated configs decode to values that are deeply equal. The digests of certificates are
  -- of one length.
  pub validate_raft_plan-Reviewed :
      (raw : Bytes) (channel : String)
      → FixedLength tls
      → (plan : RaftUpdatePlan) → validate_raft_plan raw channel ≡ ok plan
      → Reviewed raw channel plan
  unfolding validate_raft_plan
  validate_raft_plan-Reviewed raw channel fixed plan e =
      >>=-elim (or_error (codec.decode_plan raw) decode_plan) _ e λ supplied decoded e1.
        let (header, rest) =
          guard-eq-ok
            (supplied.api_version == api_version_text
              && supplied.kind == plan_kind
              && not (channel == "")
              && supplied.channel == channel)
            (not_a_plan channel) _ e1 in
        >>=-elim (raft_consenters_from_config codec supplied.updated_config) _ rest
          λ desired read e2.
            >>=-elim (plan_raft_config codec tls supplied.original_config channel desired) _ e2
              λ computed planned e3.
                review raw channel supplied computed plan desired fixed (or_error-eq-ok _ _ decoded)
                  ((eq_iff supplied.channel channel).0 (
                    last_of_four (supplied.api_version == api_version_text)
                      (supplied.kind == plan_kind) (not (channel == ""))
                      (supplied.channel == channel) header))
                  read planned e3
