-- ===== src/Risk/Providers/Sound.antt =====
-- The results of `evaluateSingleProviderObservation` of internal/application/iprisk/service.go are
-- well formed.
use clash_sub_parser.Prelude.{
  ℕ, ◌<◌, String, ◌≡◌, refl, Bool, true, false, not, ◌&&◌, ◌||◌, List, [], ◌∷◌, Option, none, some,
  arith, if_cases, any, ltb, String_discrete, leb, ◌==◌, same,
}
use clash_sub_parser.Prelude.Strings.{codes}
use clash_sub_parser.Prelude.Int.{ℤ}
use clash_sub_parser.Filters.Matching.{int_lt, time_since}
use clash_sub_parser.Probing.Health.{is_positive}
use clash_sub_parser.Resolver.Admission.{RiskAction, risk_block, other_risk}
use clash_sub_parser.Risk.Texts.{valid_digest}
use clash_sub_parser.Risk.Policies.{
  RiskBand, critical, Trait, TraitRule, ScoreBand, RiskPolicy, ProviderRef, is_bad_band,
  band_is_valid, trait_is_valid, bad_trait_rule, same_trait,
}
use clash_sub_parser.Risk.Providers.{
  IpRiskObservation, IpRiskStatus, Reason, observation_status, trait_rule, score_band,
  ProviderResult, Ruled, apply_rule, apply_rules, judge_traits, trait_verdict, Scored, judge_score,
  action_rank, max_band, lifted_band, combined, scored_result, judge_observation, default_ttl,
  is_available_status, is_none, is_weak, unknown, stale, is_blocking, known_result, missing_score,
  unknown_result, exit_identity_mismatch, observation_expired, observation_exceeded_max_age,
  missing_confidence, insufficient_confidence, no_reason, evaluate_provider,
}
use clash_sub_parser.Risk.Nodes.{action_is_valid, status_is_valid}

-- A reason that the code itself makes.
abbrev pub reason_is_known : Reason → Bool
reason_is_known (observation_status s) = status_is_valid s
reason_is_known (trait_rule t) = trait_is_valid t
reason_is_known (score_band b) = band_is_valid b
reason_is_known _ = true

abbrev pub digest_is_fine : String → Bool
digest_is_fine s = same s "" || valid_digest (codes s)

empty_is_fine : digest_is_fine "" ≡ true
unfolding String_discrete
empty_is_fine = refl

-- What `IPRiskObservation.Validate` makes sure of, as far as the evaluation rests on it.
pub record IsWellFormed (o : IpRiskObservation) : Type 0 where
  pub status_ok : status_is_valid o.status ≡ true
  pub observed : 0 < o.observed_at
  pub lasting : o.observed_at < o.expires_at
  pub digest_ok : valid_digest (codes o.evidence_digest) ≡ true

pub record IsSound (r : ProviderResult) : Type 0 where
  pub action_ok : action_is_valid r.action ≡ true
  pub band_ok : band_is_valid r.risk_band ≡ true
  pub reason_ok : reason_is_known r.reason ≡ true
  pub status_ok : status_is_valid r.status ≡ true
  pub observed : 0 < r.observed_at
  pub lasting : r.observed_at < r.expires_at
  pub digest_ok : digest_is_fine r.evidence_digest ≡ true

abbrev IsScored : Scored → Type 0
IsScored s =
    (action_is_valid s.score_action ≡ true)
    × (band_is_valid s.score_band ≡ true)
    × (reason_is_known s.score_reason ≡ true)

judge_score_sound :
    (n : ℤ) (bs : List ScoreBand) → any is_bad_band bs ≡ false → IsScored (judge_score n bs)
unfolding judge_score
judge_score_sound n [] h = (refl, refl, refl)
judge_score_sound n (b ∷ bs) h = ground (arith, judge_score_sound n bs)

-- The zero value of an action is of rank 0.
abbrev IsRuled : Ruled → Type 0
IsRuled x = ((action_is_valid x.0 || action_rank x.0 == 0) ≡ true) × (reason_is_known x.1 ≡ true)

same_trait-valid :
    (s t : Trait) → same_trait s t ≡ true → trait_is_valid s ≡ true → trait_is_valid t ≡ true
same_trait-valid s t h k = ground arith

apply_rule-IsRuled :
    (t : Trait) (r : TraitRule) (x : Ruled)
    → bad_trait_rule r ≡ false
    → IsRuled x
    → IsRuled (apply_rule t r x)
apply_rule-IsRuled t r (a, why) h i = ground (arith, same_trait-valid r.rule_trait t)

apply_rules-IsRuled :
    (t : Trait) (rs : List TraitRule) (x : Ruled)
    → any bad_trait_rule rs ≡ false
    → IsRuled x
    → IsRuled (apply_rules t rs x)
unfolding apply_rules
apply_rules-IsRuled t [] x h i = i
apply_rules-IsRuled t (r ∷ rs) x h i =
    apply_rules-IsRuled t rs (apply_rule t r x) (ground arith)
      (apply_rule-IsRuled t r x (ground arith) i)

judge_traits-IsRuled :
    (ts : List Trait) (rs : List TraitRule) (x : Ruled)
    → any bad_trait_rule rs ≡ false
    → IsRuled x
    → IsRuled (judge_traits ts rs x)
unfolding judge_traits
judge_traits-IsRuled [] rs x h i = i
judge_traits-IsRuled (t ∷ ts) rs x h i =
    judge_traits-IsRuled ts rs (apply_rules t rs x) h (apply_rules-IsRuled t rs x h i)

ranked :
    (a : RiskAction)
    → (action_is_valid a || action_rank a == 0) ≡ true
    → 0 < action_rank a
    → action_is_valid a ≡ true
unfolding action_rank
ranked a i h = ground arith

zero_value-IsRuled : IsRuled (other_risk "", no_reason)
unfolding action_rank
zero_value-IsRuled = (refl, refl)

lifted_band-valid :
    (a : RiskAction) (b : RiskBand)
    → band_is_valid b ≡ true
    → band_is_valid (lifted_band a b) ≡ true
unfolding max_band
lifted_band-valid a b h = ground arith

module _ (policy : RiskPolicy) (ref : ProviderRef) where
  unknown_result-IsSound :
      (o : IpRiskObservation) (why : Reason) (st : IpRiskStatus) (d : String)
      → IsWellFormed o
      → reason_is_known why ≡ true
      → status_is_valid st ≡ true
      → digest_is_fine d ≡ true
      → IsSound (unknown_result policy ref o why st d)
  unknown_result-IsSound o why st d w r s g = record {
    action_ok = refl;
    band_ok = refl;
    reason_ok = r;
    status_ok = s;
    observed = w.observed;
    lasting = w.lasting;
    digest_ok = g;
  }

  own_digest_is_fine :
      (o : IpRiskObservation) → IsWellFormed o → digest_is_fine o.evidence_digest ≡ true
  own_digest_is_fine o w = ground (arith, w.digest_ok)

  known_result-IsSound :
      (o : IpRiskObservation) (a : RiskAction) (b : RiskBand) (why : Reason)
      → IsWellFormed o
      → action_is_valid a ≡ true
      → band_is_valid b ≡ true
      → reason_is_known why ≡ true
      → IsSound (known_result policy ref o a b why)
  known_result-IsSound o a b why w h k r = record {
    action_ok = h;
    band_ok = k;
    reason_ok = r;
    status_ok = w.status_ok;
    observed = w.observed;
    lasting = w.lasting;
    digest_ok = own_digest_is_fine o w;
  }

  combined-IsSound :
      (o : IpRiskObservation) (x : Ruled) (s : Scored)
      → IsWellFormed o
      → IsRuled x
      → IsScored s
      → IsSound (combined policy ref o x s)
  combined-IsSound o (a, why) s w (i, j) (p, q, r) =
      if_cases IsSound (ltb (action_rank s.score_action) (action_rank a)) _ _
        (λ l.
          known_result-IsSound o a (lifted_band a s.score_band) why w (ranked a i (ground arith))
            (lifted_band-valid a s.score_band q) j)
        (λ _. known_result-IsSound o s.score_action s.score_band s.score_reason w p q r)

  module _ (bands : any is_bad_band policy.score_bands ≡ false)
      (rules : any bad_trait_rule policy.trait_rules ≡ false)
      (lasting_policy : is_positive policy.max_observation_age ≡ true) where
    scored_result-IsSound :
        (o : IpRiskObservation) (s : Option ℤ) (x : Ruled)
        → IsWellFormed o
        → IsRuled x
        → IsSound (scored_result policy ref o s x)
    scored_result-IsSound o none (a, why) w (i, j) =
        if_cases IsSound (is_blocking a) _ _
          (λ _. known_result-IsSound o risk_block critical why w refl refl j)
          (λ _.
            unknown_result-IsSound o missing_score o.status o.evidence_digest w refl w.status_ok
              (own_digest_is_fine o w))
    scored_result-IsSound o (some n) x w i =
        combined-IsSound o x (judge_score n policy.score_bands) w i
          (judge_score_sound n policy.score_bands bands)

    judge_observation-IsSound :
        (expected : String) (now : ℕ) (o : IpRiskObservation)
        → IsWellFormed o
        → IsSound (judge_observation policy ref expected now o)
    unfolding judge_observation
    judge_observation-IsSound expected now o w =
        let unseen : (why : Reason) (st : IpRiskStatus)
            → reason_is_known why ≡ true
            → status_is_valid st ≡ true
            → IsSound (unknown_result policy ref o why st "") =
          λ why st r s. unknown_result-IsSound o why st "" w r s empty_is_fine in
        let seen : (why : Reason)
            → reason_is_known why ≡ true
            → IsSound (unknown_result policy ref o why o.status o.evidence_digest) =
          λ why r.
            unknown_result-IsSound o why o.status o.evidence_digest w r w.status_ok
              (own_digest_is_fine o w) in
        if_cases IsSound (not (is_available_status o.status)) _ _
          (λ _. unseen (observation_status o.status) o.status w.status_ok w.status_ok)
          (λ _.
            if_cases IsSound (not (same expected "") && not (same o.exit_identity_digest expected))
              _ _ (λ _. unseen exit_identity_mismatch unknown refl refl)
              (λ _.
                if_cases IsSound (leb o.expires_at now) _ _
                  (λ _. unseen observation_expired stale refl refl)
                  (λ _.
                    if_cases IsSound
                      (is_positive policy.max_observation_age
                        && int_lt policy.max_observation_age (time_since now o.observed_at))
                      _ _ (λ _. unseen observation_exceeded_max_age stale refl refl)
                      (λ _.
                        if_cases IsSound
                          (is_positive policy.minimum_confidence && is_none o.confidence) _ _
                          (λ _. seen missing_confidence refl)
                          (λ _.
                            if_cases IsSound
                              (is_positive policy.minimum_confidence
                                && is_weak policy.minimum_confidence o.confidence)
                              _ _ (λ _. seen insufficient_confidence refl)
                              (λ _.
                                scored_result-IsSound o o.score
                                  (trait_verdict o.anonymizer_traits policy.trait_rules) w
                                  (judge_traits-IsRuled o.anonymizer_traits policy.trait_rules
                                    (other_risk "", no_reason) rules zero_value-IsRuled)))))))

    default_ttl-positive : 0 < default_ttl policy ref
    default_ttl-positive = ground arith

    pub evaluate_provider-IsSound :
        (expected : String) (now : ℕ) (o : Option IpRiskObservation)
        → 0 < now
        → ((x : IpRiskObservation) → o ≡ some x → IsWellFormed x)
        → IsSound (evaluate_provider policy ref expected now o)
    unfolding evaluate_provider
    evaluate_provider-IsSound expected now none n w = record {
      action_ok = refl;
      band_ok = refl;
      reason_ok = refl;
      status_ok = refl;
      observed = n;
      lasting = omega (arith, default_ttl-positive);
      digest_ok = empty_is_fine;
    }
    evaluate_provider-IsSound expected now (some o) n w =
        judge_observation-IsSound expected now o (w o refl)
