-- ===== src/Raft/Plan/Realises.antt =====
-- A plan that is made does what it says: the config that it proposes has the consenters that
-- were asked for, and differs from the original nowhere else.
use fabric_ops.Prelude.{
  ℕ, String, true, List, [], ◌∷◌, ◌++◌, Option, none, some, ◌≡◌, refl, inl, inr, eq_iff, arith,
  Option-cases, get_elem?, erase_idx?, sym, ap, ◌∙◌, subst,
}
use fabric_ops.Prelude.Maps.{Map, has_key-lookup}
use fabric_ops.Raft.Result.{
  Error, ok, decode_json, decode_current_consenters, current_consenters, desired_consenters, wrap,
  >>=-eq-ok, >>=-elim, wrap-eq-ok, or_error-eq-ok,
}
use fabric_ops.Raft.Json.{Json, arr, RawMessage, of_items, raft_json_value, replace_raft_json_value}
use fabric_ops.Raft.Json.Paths.{diverge, replaces}
use fabric_ops.Raft.Consenters.{RaftConsenter, Tls, validate_raft_consenters}
use fabric_ops.Raft.Consenters.Rounds.{in_set}
use fabric_ops.Raft.Consenters.Owners.{ValidKeys, FixedLength}
use fabric_ops.Raft.Consenters.Keys.{validate_raft_consenters-ValidKeys}
use fabric_ops.Raft.Consenters.Sets.{
  Taken, in_set-append, in_set-Taken, not_in_set-Taken, is_key_unique,
}
use fabric_ops.Raft.Plan.{
  RaftUpdatePlan, Codec, consenters_path, unmarshal_entries, decode_all, unmarshal_consenters,
  raft_consenters_from_config, base_plan, changed_entries, updated_plan, plan_raft_config,
  plan_consenters, check_config,
}
use fabric_ops.Raft.Plan.Entries.{items-of_items, decode_all-append, decode_all-erase}
use fabric_ops.Raft.Plan.Change.{Change, plan_change-Change}

-- The config `updated` has the consenters `consenters`, and is `original` at every path that
-- parts from the one to them.
pub record Rewrites (codec : Codec) (original updated : RawMessage)
    (consenters : List RaftConsenter) : Type 0 where
  pub decoded : raft_consenters_from_config codec updated ≡ ok consenters
  pub frame :
      (q : List String)
      → diverge consenters_path q ≡ true
      → raft_json_value updated q ≡ raft_json_value original q

-- Only the error of a decoding depends on where it is made.
unmarshal_entries_error :
    (raw : RawMessage) (e e' : Error) {js : List Json}
    → unmarshal_entries raw e ≡ ok js
    → unmarshal_entries raw e' ≡ ok js
unfolding unmarshal_entries
unmarshal_entries_error raw e e' h = ground arith

abbrev updated_config : RaftUpdatePlan → RawMessage
updated_config p = p.updated_config

module _ (codec : Codec) (original raw : RawMessage)
    (read : raft_json_value original consenters_path ≡ ok raw) where
  unmarshal-decode_all :
      (e : Error) {cs : List RaftConsenter}
      → unmarshal_consenters codec raw e ≡ ok cs
      → (js : List Json) × (unmarshal_entries raw decode_json ≡ ok js)
        × (decode_all codec js ≡ some cs)
  unfolding unmarshal_consenters
  unmarshal-decode_all e h =
      let (js, entries, rest) = >>=-eq-ok (unmarshal_entries raw e) _ h in
      (
        js,
        unmarshal_entries_error raw e decode_json entries,
        or_error-eq-ok (decode_all codec js) e rest,
      )

  -- The config as it stands.
  Rewrites-same :
      (e : Error) {cs : List RaftConsenter}
      → unmarshal_consenters codec raw e ≡ ok cs
      → Rewrites codec original original cs
  unfolding raft_consenters_from_config unmarshal_consenters
  Rewrites-same e h =
      let (js, entries, all) = unmarshal-decode_all e h in
      record { decoded = rw read (rw entries (rw all refl)); frame = λ q d. refl }

  ok_plan : {x y : RaftUpdatePlan} → ok x ≡ ok y → x ≡ y
  ok_plan p = cc

  ok_inj : {x y : Json} → ok x ≡ ok y → x ≡ y
  ok_inj p = cc

  -- The config with other entries in the place of the consenters.
  Rewrites-written :
      (js : List Json) {cs : List RaftConsenter} {config : Json}
      → decode_all codec js ≡ some cs
      → replace_raft_json_value original consenters_path (arr (of_items js)) ≡ ok config
      → Rewrites codec original (some config) cs
  unfolding raft_consenters_from_config unmarshal_consenters unmarshal_entries
  Rewrites-written js {cs} d w =
      let r = replaces original consenters_path (arr (of_items js)) read refl in
      let same = ok_inj (sym r.replaced ∙ w) in
      subst (λ x. Rewrites codec original (some x) cs) same
        (record { decoded = rw r.read_back (rw (items-of_items js) (rw d refl)); frame = r.frame })

  decoded_by :
      (e : Error) (js : List Json) {cs : List RaftConsenter}
      → unmarshal_consenters codec raw e ≡ ok cs
      → unmarshal_entries raw decode_json ≡ ok js
      → decode_all codec js ≡ some cs
  unfolding unmarshal_consenters
  decoded_by e js h entries =
      or_error-eq-ok (decode_all codec js) e
        (rw (unmarshal_entries_error raw decode_json e entries) at h)

  module _ (base : RaftUpdatePlan) (e : Error) {current : List RaftConsenter}
      (desired : List RaftConsenter) (now : unmarshal_consenters codec raw e ≡ ok current) where
    -- The parts of a plan that changes the config.
    record Written (added removed : Option ℕ) (plan : RaftUpdatePlan) : Type 0 where
      entries : List Json
      out : String × RaftConsenter × List Json
      config : Json
      decodes : decode_all codec entries ≡ some current
      changed : changed_entries codec current desired entries added removed ≡ ok out
      replaced : replace_raft_json_value original consenters_path (arr (of_items out.2)) ≡ ok config
      result : plan.updated_config ≡ some config

    updated_plan-Written :
        (added removed : Option ℕ) {plan : RaftUpdatePlan}
        → updated_plan codec original base raw current desired added removed ≡ ok plan
        → Written added removed plan
    unfolding updated_plan
    updated_plan-Written added removed {plan} h =
        let (js, entries, a) = >>=-eq-ok (unmarshal_entries raw decode_json) _ h in
        let (out, changed, b) =
          >>=-eq-ok (changed_entries codec current desired js added removed) _ a in
        let (config, replaced, d) =
          >>=-eq-ok (replace_raft_json_value original consenters_path (arr (of_items out.2))) _ b in
        let result : some config ≡ plan.updated_config = ap updated_config (ok_plan d) in
        record {
          entries = js;
          out = out;
          config = config;
          decodes = decoded_by e js now entries;
          changed = changed;
          replaced = replaced;
          result = sym result;
        }

    Rewrites-result :
        {added removed : Option ℕ} {plan : RaftUpdatePlan} (w : Written added removed plan)
        {cs : List RaftConsenter}
        → decode_all codec w.out.2 ≡ some cs
        → Rewrites codec original plan.updated_config cs
    Rewrites-result w {cs} d =
        subst (λ x. Rewrites codec original x cs) (sym w.result)
          (Rewrites-written w.out.2 d w.replaced)

    -- The plan's config has the current consenters and the one to be added.
    Rewrites-added :
        (i : ℕ) (removed : Option ℕ) {plan : RaftUpdatePlan} {target : RaftConsenter}
        → get_elem? desired i ≡ some target
        → updated_plan codec original base raw current desired (some i) removed ≡ ok plan
        → Rewrites codec original plan.updated_config (current ++ target ∷ [])
    unfolding changed_entries
    Rewrites-added i removed {target = target} at h =
        let w = updated_plan-Written (some i) removed h in
        let out : w.out.2 ≡ w.entries ++ codec.encode_consenter target ∷ [] =
          ground (arith, w.changed) in
        Rewrites-result w (rw out (decode_all-append codec w.entries current target w.decodes))

    -- The plan's config has the current consenters but the one to be removed.
    Rewrites-removed :
        (i : ℕ) {plan : RaftUpdatePlan} {target : RaftConsenter}
        → get_elem? current i ≡ some target
        → updated_plan codec original base raw current desired none (some i) ≡ ok plan
        → (rest : List RaftConsenter) × Taken current i target rest
          × Rewrites codec original plan.updated_config rest
    unfolding changed_entries
    Rewrites-removed i {target = target} at h =
        let w = updated_plan-Written none (some i) h in
        elim (Option-cases (erase_idx? w.entries i)) [
          | inl nothing ↦ absurd (ground (arith, w.changed))
          | inr found ↦
              let (rest, left, all) =
                decode_all-erase codec w.entries current i w.decodes found.1 in
              let out : w.out.2 ≡ found.0 = ground (arith, w.changed, found.1) in
              (rest, record { read = at; left = left }, Rewrites-result w (rw out all))
        ]

-- The plan: its config rewrites the original, and its consenters have the keys of those desired.
pub record Realises (codec : Codec) (tls : Tls) (original : RawMessage) (plan : RaftUpdatePlan)
    (desired : List RaftConsenter) : Type 0 where
  pub consenters : List RaftConsenter
  pub rewrites : Rewrites codec original plan.updated_config consenters
  pub same_set : (k : String) → in_set tls k consenters ≡ in_set tls k desired

module _ (codec : Codec) (tls : Tls) (original raw : RawMessage) (base : RaftUpdatePlan) (e : Error)
    (current desired : List RaftConsenter) (current_keys desired_keys : Map ℕ)
    (read : raft_json_value original consenters_path ≡ ok raw)
    (now : unmarshal_consenters codec raw e ≡ ok current)
    (unchanged : base.updated_config ≡ original) (c : ValidKeys tls current current_keys)
    (d : ValidKeys tls desired desired_keys) where
  Realises-of :
      {plan : RaftUpdatePlan}
      → Change original codec base raw current desired current_keys desired_keys plan
      → Realises codec tls original plan desired
  Realises-of {plan} (Change.same p more less) = record {
    consenters = current;
    rewrites =
        subst (λ x. Rewrites codec original x current) (sym (ap updated_config p ∙ unchanged))
          (Rewrites-same codec original raw read e now);
    same_set = λ k. ground (arith, c.members k, d.members k, more k, less k);
  }
  Realises-of {plan} (Change.add i removed o less u) =
      let (target, at, keyed) = d.places o.key i (o.found ∙ sym o.last) in
      record {
        consenters = current ++ target ∷ [];
        rewrites = Rewrites-added codec original raw read base e desired now i removed at u;
        same_set = λ k. ground (
          arith,
          in_set-append tls k current target,
          is_key_unique tls o.key k target keyed,
          c.members k,
          d.members k,
          o.others k,
          less k,
          has_key-lookup o.key i desired_keys (o.found ∙ sym o.last),
          eq_iff o.key k,
        );
      }
  Realises-of {plan} (Change.remove i o more u) =
      let (target, at, keyed) = c.places o.key i (o.found ∙ sym o.last) in
      let (rest, taken, rewrites) =
        Rewrites-removed codec original raw read base e desired now i at u in
      record {
        consenters = rest;
        rewrites = rewrites;
        same_set = λ k. ground (
          arith,
          in_set-Taken tls k current i taken,
          not_in_set-Taken tls k current i c.distinct taken,
          is_key_unique tls o.key k target keyed,
          c.members k,
          d.members k,
          o.others k,
          more k,
          o.lacking,
          eq_iff o.key k,
        );
      }

module _ (codec : Codec) (tls : Tls) (fixed : FixedLength tls) where
  plan_consenters-Realises :
      (original : RawMessage) (channel sequence : String) (desired : List RaftConsenter)
      {plan : RaftUpdatePlan}
      → plan_consenters codec tls original channel sequence desired ≡ ok plan
      → Realises codec tls original plan desired
  unfolding plan_consenters
  plan_consenters-Realises original channel sequence desired e =
      >>=-elim (raft_json_value original consenters_path) _ e λ raw read e1.
        >>=-elim (unmarshal_consenters codec raw decode_current_consenters) _ e1 λ current now e2.
          >>=-elim (wrap current_consenters (validate_raft_consenters tls current)) _ e2 λ ck c e3.
            >>=-elim (wrap desired_consenters (validate_raft_consenters tls desired)) _ e3
              λ dk d e4.
                Realises-of codec tls original raw
                  (base_plan codec original channel sequence current desired)
                  decode_current_consenters current desired ck dk read now
                  (unfold base_plan in refl)
                  (validate_raft_consenters-ValidKeys tls fixed current (wrap-eq-ok _ _ c))
                  (validate_raft_consenters-ValidKeys tls fixed desired (wrap-eq-ok _ _ d))
                  (plan_change-Change original codec
                    (base_plan codec original channel sequence current desired) raw current desired
                    ck dk e4)

  -- When planRaftConfig returns a plan, its updated config decodes to consenters whose keys
  -- are exactly those of the desired ones, and at every path that parts from the one to the
  -- consenters it reads as the original config. The digests of certificates are of one
  -- length.
  pub plan_raft_config-Realises :
      (original : RawMessage) (channel : String) (desired : List RaftConsenter)
      {plan : RaftUpdatePlan}
      → plan_raft_config codec tls original channel desired ≡ ok plan
      → Realises codec tls original plan desired
  unfolding plan_raft_config
  plan_raft_config-Realises original channel desired e =
      >>=-elim (check_config codec original) _ e
        λ sequence _ e1. plan_consenters-Realises original channel sequence desired e1
