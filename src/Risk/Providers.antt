-- ===== src/Risk/Providers.antt =====
-- `evaluateSingleProviderObservation` of internal/application/iprisk/service.go. Times are numbers of
-- nanoseconds, and `Sub` does not reach its limit of 292 years.
pub mod Clear
pub mod Sound
use clash_sub_parser.Prelude.{
  ℕ, ◌+◌, ◌-◌, String, Bool, true, false, not, ◌&&◌, ◌||◌, List, [], ◌∷◌, if◌then◌else◌, ltb, leb,
  Option, none, some, same, ◌++◌,
}
use clash_sub_parser.Prelude.Int.{ℤ, pos, negsuc, to_ℕ}
use clash_sub_parser.Prelude.Strings.{codes, to_lower}
use clash_sub_parser.Probing.Health.{is_positive}
use clash_sub_parser.Filters.Matching.{int_lt, time_since}
use clash_sub_parser.Resolver.Admission.{
  RiskAction, risk_allow, risk_block, risk_review, risk_unknown, other_risk,
}
use clash_sub_parser.Risk.Policies.{
  RiskBand, low, medium, high, critical, unknown_band, Trait, ProviderRef, ScoreBand, TraitRule,
  RiskPolicy, same_trait,
}

pub data IpRiskStatus : Type 0 where
  available unknown error stale : IpRiskStatus
  other_status : String → IpRiskStatus

-- What the evaluation reads of an observation.
pub record IpRiskObservation : Type 0 where
  pub id : String
  pub node_logical_id : String
  pub exit_identity_digest : String
  pub provider : String
  pub provider_schema_version : String
  pub observed_at : ℕ
  pub expires_at : ℕ
  pub status : IpRiskStatus
  pub score : Option ℤ
  pub confidence : Option ℤ
  pub anonymizer_traits : List Trait
  pub evidence_digest : String

pub data Reason : Type 0 where
  missing_observation exit_identity_mismatch observation_expired : Reason
  observation_exceeded_max_age missing_confidence insufficient_confidence missing_score : Reason
  observation_status : IpRiskStatus → Reason
  trait_rule : Trait → Reason
  score_band : RiskBand → Reason
  no_reason : Reason

pub record ProviderResult : Type 0 where
  pub ref : ProviderRef
  pub action : RiskAction
  pub risk_band : RiskBand
  pub reason : Reason
  pub observed_at : ℕ
  pub expires_at : ℕ
  pub status : IpRiskStatus
  pub evidence_digest : String
  pub is_available : Bool

unfoldable pub band_rank : RiskBand → ℕ
band_rank critical = 4
band_rank high = 3
band_rank medium = 2
band_rank low = 1
band_rank _ = 0

unfoldable pub action_rank : RiskAction → ℕ
action_rank risk_block = 3
action_rank risk_review = 2
action_rank risk_allow = 1
action_rank _ = 0

unfoldable pub max_band : RiskBand → RiskBand → RiskBand
unfolding band_rank
max_band a b = if leb (band_rank b) (band_rank a) then a else b

abbrev pub Ruled : Type 0
Ruled = RiskAction × Reason

abbrev pub apply_rule : Trait → TraitRule → Ruled → Ruled
apply_rule t r (a, why) =
    if same_trait r.rule_trait t && ltb (action_rank a) (action_rank r.rule_action)
    then (r.rule_action, trait_rule t)
    else (a, why)

unfoldable pub apply_rules : Trait → List TraitRule → Ruled → Ruled
apply_rules t [] x = x
apply_rules t (r ∷ rs) x = apply_rules t rs (apply_rule t r x)

-- The strictest rule on the traits; the zero value of the action is the empty text.
unfoldable pub judge_traits : List Trait → List TraitRule → Ruled → Ruled
unfolding apply_rules
judge_traits [] rules x = x
judge_traits (t ∷ ts) rules x = judge_traits ts rules (apply_rules t rules x)

abbrev pub trait_verdict : List Trait → List TraitRule → Ruled
trait_verdict ts rules = judge_traits ts rules (other_risk "", no_reason)

abbrev pub in_band : ℤ → ScoreBand → Bool
in_band n b = not (int_lt n b.min) && not (int_lt b.max n)

pub record Scored : Type 0 where
  pub score_band : RiskBand
  pub score_action : RiskAction
  pub score_reason : Reason

-- The first band that holds the score.
unfoldable pub judge_score : ℤ → List ScoreBand → Scored
judge_score n [] = record {
  score_band = unknown_band;
  score_action = risk_unknown;
  score_reason = no_reason;
}
judge_score n (b ∷ bs) =
    let rest = judge_score n bs in
    if in_band n b
    then (record { score_band = b.band; score_action = b.action; score_reason = score_band b.band })
    else rest

abbrev pub is_blocking : RiskAction → Bool
is_blocking risk_block = true
is_blocking _ = false

abbrev pub lifted_band : RiskAction → RiskBand → RiskBand
lifted_band risk_block b = max_band b high
lifted_band risk_review b = max_band b medium
lifted_band _ b = b

-- A confidence below the least one.
abbrev pub is_weak : ℤ → Option ℤ → Bool
is_weak least none = false
is_weak least (some c) = int_lt c least

abbrev pub is_none : Option ℤ → Bool
is_none none = true
is_none (some c) = false

abbrev pub is_available_status : IpRiskStatus → Bool
is_available_status available = true
is_available_status _ = false

module _ (policy : RiskPolicy) (ref : ProviderRef) where
  -- A result that says that the risk is unknown, with the evidence that it keeps.
  abbrev pub unknown_result : IpRiskObservation → Reason → IpRiskStatus → String → ProviderResult
  unknown_result o why st digest = record {
    ref = ref;
    action = risk_unknown;
    risk_band = unknown_band;
    reason = why;
    observed_at = o.observed_at;
    expires_at = o.expires_at;
    status = st;
    evidence_digest = digest;
    is_available = false;
  }

  abbrev pub known_result : IpRiskObservation → RiskAction → RiskBand → Reason → ProviderResult
  known_result o a b why = record {
    ref = ref;
    action = a;
    risk_band = b;
    reason = why;
    observed_at = o.observed_at;
    expires_at = o.expires_at;
    status = o.status;
    evidence_digest = o.evidence_digest;
    is_available = true;
  }

  -- The trait and the score together.
  abbrev pub combined : IpRiskObservation → Ruled → Scored → ProviderResult
  combined o (a, why) s =
      if ltb (action_rank s.score_action) (action_rank a)
      then known_result o a (lifted_band a s.score_band) why
      else known_result o s.score_action s.score_band s.score_reason

  abbrev pub scored_result : IpRiskObservation → Option ℤ → Ruled → ProviderResult
  scored_result o none (a, why) =
      if is_blocking a
      then known_result o risk_block critical why
      else unknown_result o missing_score o.status o.evidence_digest
  scored_result o (some n) x = combined o x (judge_score n policy.score_bands)

  -- The checks on an observation, in their order.
  unfoldable pub judge_observation : String → ℕ → IpRiskObservation → ProviderResult
  unfolding scored_result
  judge_observation expected now o =
      if not (is_available_status o.status)
      then unknown_result o (observation_status o.status) o.status ""
      else if not (same expected "") && not (same o.exit_identity_digest expected)
      then unknown_result o exit_identity_mismatch unknown ""
      else if leb o.expires_at now
      then unknown_result o observation_expired stale ""
      else if is_positive policy.max_observation_age
          && int_lt policy.max_observation_age (time_since now o.observed_at)
      then unknown_result o observation_exceeded_max_age stale ""
      else if is_positive policy.minimum_confidence && is_none o.confidence
      then unknown_result o missing_confidence o.status o.evidence_digest
      else if is_positive policy.minimum_confidence
          && is_weak policy.minimum_confidence o.confidence
      then unknown_result o insufficient_confidence o.status o.evidence_digest
      else scored_result o o.score (trait_verdict o.anonymizer_traits policy.trait_rules)

  abbrev pub default_ttl : ℕ
  default_ttl =
      if is_positive policy.max_observation_age
      then to_ℕ policy.max_observation_age
      else 86400000000000

  -- `evaluateSingleProviderObservation`
  unfoldable pub evaluate_provider : String → ℕ → Option IpRiskObservation → ProviderResult
  unfolding judge_observation
  evaluate_provider expected now none = record {
    ref = ref;
    action = risk_unknown;
    risk_band = unknown_band;
    reason = missing_observation;
    observed_at = now;
    expires_at = now + default_ttl;
    status = unknown;
    evidence_digest = "";
    is_available = false;
  }
  evaluate_provider expected now (some o) = judge_observation expected now o
