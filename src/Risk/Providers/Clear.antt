-- ===== src/Risk/Providers/Clear.antt =====
-- The observations that `evaluateSingleProviderObservation` of internal/application/iprisk/service.go
-- lets decide.
use clash_sub_parser.Prelude.{
  ℕ, String, ◌<◌, ◌≡◌, refl, true, false, ◌&&◌, ◌||◌, Option, none, some, arith, same,
}
use clash_sub_parser.Probing.Health.{is_positive}
use clash_sub_parser.Filters.Matching.{int_lt, time_since}
use clash_sub_parser.Risk.Policies.{RiskPolicy, ProviderRef}
use clash_sub_parser.Risk.Providers.{
  IpRiskObservation, judge_observation, evaluate_provider, is_available_status, is_none, is_weak,
}

module _ (policy : RiskPolicy) (expected : String) (now : ℕ) where
  -- An observation that is available, of the expected exit, neither expired nor too old, and of
  -- enough confidence.
  pub record IsClear (o : IpRiskObservation) : Type 0 where
    pub is_ready : is_available_status o.status ≡ true
    pub has_exit : (same expected "" || same o.exit_identity_digest expected) ≡ true
    pub not_expired : now < o.expires_at
    pub not_old :
        (is_positive policy.max_observation_age
          && int_lt policy.max_observation_age (time_since now o.observed_at))
        ≡ false
    pub is_confident :
        (is_positive policy.minimum_confidence
          && (is_none o.confidence || is_weak policy.minimum_confidence o.confidence))
        ≡ false

  judge_observation-IsClear :
      (ref : ProviderRef) (o : IpRiskObservation)
      → (judge_observation policy ref expected now o).is_available ≡ true
      → IsClear o
  unfolding judge_observation
  judge_observation-IsClear ref o h = ground arith

  -- A provider whose result is available has a clear observation.
  pub evaluate_provider-IsClear :
      (ref : ProviderRef) (found : Option IpRiskObservation)
      → (evaluate_provider policy ref expected now found).is_available ≡ true
      → (o : IpRiskObservation) × (found ≡ some o) × IsClear o
  unfolding evaluate_provider
  evaluate_provider-IsClear ref none h = absurd cc
  evaluate_provider-IsClear ref (some o) h = (o, refl, judge_observation-IsClear ref o h)
