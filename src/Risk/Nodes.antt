-- ===== src/Risk/Nodes.antt =====
-- `evaluateNodeCore` and `EvaluateBatch` of internal/application/iprisk/service.go, with the checks on
-- decisions and summaries of internal/domain/iprisk.go.
pub mod Allowed
pub mod Reasons
pub mod Total
use clash_sub_parser.Prelude.{
  ℕ, String, Bool, true, false, not, ◌&&◌, ◌||◌, List, [], ◌∷◌, ◌++◌, map, if◌then◌else◌, any, ltb,
  ◌==◌, Option, none, some, same, String_discrete,
}
use clash_sub_parser.Prelude.Strings.{codes, to_lower, trim_space}
use clash_sub_parser.Prelude.Sort.{sort_texts}
use clash_sub_parser.Policy.Identifiers.{is_valid_uuid_v7, is_valid_logical_id}
use clash_sub_parser.Resolver.Admission.{
  RiskAction, risk_allow, risk_block, risk_review, risk_unknown, other_risk, is_lenient,
}
use clash_sub_parser.Risk.Texts.{
  Scanner, valid_digest, is_safe_reason, identifier_failure, no_failure,
}
use clash_sub_parser.Risk.Policies.{
  RiskBand, low, medium, high, critical, unknown_band, other_band, Trait, proxy, vpn, tor,
  residential_proxy, hosting, unknown_trait, other_trait, RiskPolicy, RiskError,
  invalid_fusion_mode, invalid_decision, invalid_summary, effective_action, policy_failure,
  ref_is_named, band_is_valid,
}
use clash_sub_parser.Risk.Providers.{
  IpRiskObservation, IpRiskStatus, available, unknown, error, stale, other_status, Reason,
  missing_observation, exit_identity_mismatch, observation_expired, observation_exceeded_max_age,
  missing_confidence, insufficient_confidence, missing_score, observation_status, trait_rule,
  score_band, no_reason, ProviderResult,
}
use clash_sub_parser.Risk.Fusion.{
  FusedReason, plain, must_allow, risk, must_allow_blocked, must_allow_review, must_allow_passed,
  risk_blocked, risk_under_review, risk_of, Fused, evaluate_providers, fuse,
}

abbrev pub status_text : IpRiskStatus → List ℕ
status_text available = codes "available"
status_text unknown = codes "unknown"
status_text error = codes "error"
status_text stale = codes "stale"
status_text (other_status s) = to_lower (codes s)

abbrev pub trait_text : Trait → List ℕ
trait_text proxy = codes "proxy"
trait_text vpn = codes "vpn"
trait_text tor = codes "tor"
trait_text residential_proxy = codes "residential_proxy"
trait_text hosting = codes "hosting"
trait_text unknown_trait = codes "unknown"
trait_text (other_trait s) = to_lower (codes s)

abbrev pub band_text : RiskBand → List ℕ
band_text low = codes "low"
band_text medium = codes "medium"
band_text high = codes "high"
band_text critical = codes "critical"
band_text unknown_band = codes "unknown"
band_text (other_band s) = to_lower (codes s)

abbrev pub action_text : RiskAction → List ℕ
action_text risk_allow = codes "allow"
action_text risk_block = codes "block"
action_text risk_review = codes "review"
action_text risk_unknown = codes "unknown"
action_text (other_risk s) = codes s

unfoldable pub reason_text : Reason → List ℕ
reason_text missing_observation = codes "missing_observation"
reason_text exit_identity_mismatch = codes "exit_identity_mismatch"
reason_text observation_expired = codes "observation_expired"
reason_text observation_exceeded_max_age = codes "observation_exceeded_max_age"
reason_text missing_confidence = codes "missing_confidence"
reason_text insufficient_confidence = codes "insufficient_confidence"
reason_text missing_score = codes "missing_score"
reason_text (observation_status s) = codes "observation_status_" ++ status_text s
reason_text (trait_rule t) = codes "trait_rule_" ++ trait_text t
reason_text (score_band b) = codes "score_band_" ++ band_text b
reason_text no_reason = []

unfoldable pub fused_text : FusedReason → List ℕ
unfolding reason_text
fused_text (plain r) = reason_text r
fused_text (must_allow r) = codes "all_must_allow_" ++ reason_text r
fused_text (risk r) = codes "highest_risk_" ++ reason_text r
fused_text must_allow_blocked = codes "all_must_allow_blocked"
fused_text must_allow_review = codes "all_must_allow_review"
fused_text must_allow_passed = codes "all_must_allow_passed"
fused_text risk_blocked = codes "highest_risk_blocked"
fused_text risk_under_review = codes "highest_risk_review"
fused_text (risk_of a) = codes "highest_risk_" ++ action_text a

abbrev pub underscored : ℕ → ℕ
underscored c = if c == b' ' || c == b'-' then b'_' else c

abbrev pub or_evaluated : List ℕ → List ℕ
or_evaluated [] = codes "risk_decision_evaluated"
or_evaluated (c ∷ cs) = c ∷ cs

-- `normalizeReasonCode`
unfoldable pub normalize_reason : List ℕ → List ℕ
unfolding trim_space
normalize_reason cs = or_evaluated (map underscored (to_lower (trim_space cs)))

abbrev pub action_is_valid : RiskAction → Bool
action_is_valid (other_risk s) = false
action_is_valid _ = true

abbrev pub status_is_valid : IpRiskStatus → Bool
status_is_valid (other_status s) = false
status_is_valid _ = true

pub record Decision : Type 0 where
  pub node_logical_id : String
  pub policy_revision_id : String
  pub decision : RiskAction
  pub reason_code : List ℕ
  pub observation_digest_set : List String
  pub evaluated_at : ℕ

pub record NodeEvaluation : Type 0 where
  pub node_decision : Decision
  pub risk_band : RiskBand
  pub chosen : ProviderResult

-- The digests with no text twice, and without the empty one.
unfoldable pub digests_of : List ProviderResult → List String
digests_of [] = []
digests_of (r ∷ rs) =
    let rest = digests_of rs in
    if same r.evidence_digest "" || any (same r.evidence_digest) rest
    then rest
    else r.evidence_digest ∷ rest

-- Two equal texts.
abbrev pub has_repeats : List String → Bool
has_repeats [] = false
has_repeats (s ∷ ss) = any (same s) ss || has_repeats ss

pub data Result (A : Type 0) : Type 0 where
  ok : A → Result A
  err : RiskError → Result A

module _ (scan : Scanner) where
  -- `RiskDecision.Validate`
  unfoldable pub decision_is_valid : Decision → Bool
  unfolding is_valid_logical_id is_valid_uuid_v7 is_safe_reason valid_digest
  decision_is_valid d =
      is_valid_logical_id d.node_logical_id
      && is_valid_uuid_v7 d.policy_revision_id
      && action_is_valid d.decision
      && is_safe_reason scan d.reason_code
      && ltb 0 d.evaluated_at
      && not (any (λ (s : String). not (valid_digest (codes s))) d.observation_digest_set)
      && not (has_repeats d.observation_digest_set)

  -- `IPRiskSummary.Validate` on the summary of a decision
  unfoldable pub summary_is_valid : NodeEvaluation → Bool
  unfolding is_valid_uuid_v7 is_safe_reason
  summary_is_valid e =
      action_is_valid e.node_decision.decision
      && band_is_valid e.risk_band
      && status_is_valid e.chosen.status
      && ref_is_named scan e.chosen.ref
      && ltb 0 e.chosen.observed_at
      && ltb 0 e.chosen.expires_at
      && ltb e.chosen.observed_at e.chosen.expires_at
      && is_safe_reason scan e.node_decision.reason_code
      && is_valid_uuid_v7 e.node_decision.policy_revision_id

  abbrev pub validated : NodeEvaluation → Result NodeEvaluation
  validated e =
      if not (decision_is_valid e.node_decision)
      then err invalid_decision
      else if not (summary_is_valid e)
      then err invalid_summary
      else ok e

  abbrev pub report : RiskPolicy → String → ℕ → List ProviderResult → Fused → NodeEvaluation
  report policy node now results f = record {
    node_decision = record {
      node_logical_id = node;
      policy_revision_id = policy.revision_id;
      decision = f.final_action;
      reason_code = normalize_reason (fused_text f.final_reason);
      observation_digest_set = sort_texts (digests_of results);
      evaluated_at = now;
    };
    risk_band = f.final_band;
    chosen = f.chosen;
  }

  abbrev pub conclude :
      RiskPolicy → String → ℕ → List ProviderResult → Option Fused → Result NodeEvaluation
  conclude policy node now results none = err invalid_fusion_mode
  conclude policy node now results (some f) = validated (report policy node now results f)

  -- `evaluateNodeCore`
  unfoldable pub evaluate_node :
      RiskPolicy → String → String → List IpRiskObservation → ℕ → Result NodeEvaluation
  unfolding conclude evaluate_providers fuse
  evaluate_node policy node expected os now =
      let results = evaluate_providers policy node expected now os policy.providers in
      conclude policy node now results
        (fuse (effective_action policy.unknown_action) policy.mode results)
