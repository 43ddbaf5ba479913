-- ===== src/Risk/Tests.antt =====
-- A policy with two providers, and two nodes, for internal/application/iprisk/service.go.
use clash_sub_parser.Prelude.{
  ℕ, ◌+◌, length, Option, String, ◌≡◌, refl, true, false, not, List, [], ◌∷◌, none, some, arith,
  any, count_if, map, inl, inr, String_discrete,
}
use clash_sub_parser.Prelude.Int.{pos}
use clash_sub_parser.Prelude.Members.{In}
use clash_sub_parser.Prelude.Sort.{sort_texts}
use clash_sub_parser.Policy.Identifiers.{is_valid_uuid_v7, is_valid_logical_id}
use clash_sub_parser.Resolver.Admission.{
  risk_allow, risk_block, risk_review, other_risk, AdmissionNode, evaluate_risk_admission,
  unique_strings,
}
use clash_sub_parser.Risk.Texts.{
  Scanner, is_identifier, is_reason_code, is_sensitive, valid_digest, is_safe_reason,
  identifier_failure,
}
use clash_sub_parser.Risk.Policies.{
  low, high, FusionMode, ProviderRef, ScoreBand, RiskPolicy, proxy, effective_action,
  validate_score_bands, policy_failure,
}
use clash_sub_parser.Risk.Policies.Bands.{validate_score_bands-covers}
use clash_sub_parser.Risk.Providers.{
  IpRiskObservation, available, in_band, judge_score, action_rank,
}
use clash_sub_parser.Risk.Providers.Clear.{IsClear}
use clash_sub_parser.Risk.Fusion.{blocks, reviews, is_of}
use clash_sub_parser.Risk.Nodes.{
  NodeEvaluation, Result, ok, evaluate_node, decision_is_valid, summary_is_valid, normalize_reason,
  fused_text, digests_of,
}
use clash_sub_parser.Risk.Nodes.Allowed.{evaluate_node-IsClear, result_of}
use clash_sub_parser.Risk.Batches.{Batch, BatchInput, evaluate_batch, unseen}
use clash_sub_parser.Risk.Providers.Sound.{IsWellFormed}
use clash_sub_parser.Risk.Nodes.Reasons.{IsQuiet}
use clash_sub_parser.Risk.Batches.Total.{IsStocked, evaluate_batch_total}
use clash_sub_parser.Risk.Batches.Resolved.{
  decision_of, is_known, evaluate_batch-evaluate_risk_admission,
}

abbrev scan : Scanner
scan = record {
  has_address = λ s. false;
  has_url_query = λ s. false;
  has_query_secret = λ s. false;
}

abbrev bands : List ScoreBand
bands =
    record { min = pos 60; max = pos 100; band = high; action = risk_block }
    ∷ record { min = pos 0; max = pos 59; band = low; action = risk_allow }
    ∷ []

abbrev provider_of : String → ProviderRef
provider_of p = record { provider = p; schema_version = "v1" }

abbrev policy_of : FusionMode → RiskPolicy
policy_of m = record {
  revision_id = "01890000-0000-7000-8000-000000000001";
  mode = m;
  providers = provider_of "alpha" ∷ provider_of "beta" ∷ [];
  max_observation_age = pos 1000;
  minimum_confidence = pos 50;
  score_bands = bands;
  trait_rules = record { rule_trait = proxy; rule_action = risk_review } ∷ [];
  unknown_action = risk_block;
  conflict_action = other_risk "";
  review_action = risk_review;
}

abbrev policy : RiskPolicy
policy = policy_of FusionMode.all_must_allow

abbrev first_node : String
first_node = "node_0123456789abcdef"

abbrev second_node : String
second_node = "node_fedcba9876543210"

abbrev digest_text : String
digest_text = "sha256:0123456789abcdef0123456789abcdef0123456789abcdef0123456789abcdef"

abbrev observed : String → String → ℕ → IpRiskObservation
observed node p score = record {
  id = "o";
  node_logical_id = node;
  exit_identity_digest = "";
  provider = p;
  provider_schema_version = "v1";
  observed_at = 100;
  expires_at = 900;
  status = available;
  score = some (pos score);
  confidence = some (pos 80);
  anonymizer_traits = [];
  evidence_digest = digest_text;
}

abbrev observations : List IpRiskObservation
observations =
    observed first_node "alpha" 10
    ∷ observed first_node "beta" 20
    ∷ observed second_node "alpha" 10
    ∷ observed second_node "beta" 70
    ∷ []

bands_accepted : validate_score_bands bands ≡ none
unfolding validate_score_bands
bands_accepted = refl

validate_score_bands-covers_example : count_if (in_band (pos 59)) bands ≡ 1
validate_score_bands-covers_example =
    validate_score_bands-covers bands 59 bands_accepted (omega arith)

abbrev evaluated : Result NodeEvaluation
evaluated = evaluate_node scan policy first_node "" observations 500

policy_accepted : policy_failure scan policy ≡ none
unfolding policy_failure is_valid_uuid_v7 clash_sub_parser.Risk.Texts.identifier_failure
    String_discrete validate_score_bands
policy_accepted = refl

-- The first node is allowed.
evaluated_allow :
    (e : NodeEvaluation) × (evaluate_node scan policy first_node "" observations 500 ≡ ok e)
    × (e.node_decision.decision ≡ risk_allow)
unfolding evaluate_node decision_is_valid summary_is_valid is_valid_logical_id is_valid_uuid_v7
    is_safe_reason identifier_failure valid_digest normalize_reason fused_text digests_of sort_texts
    String_discrete judge_score clash_sub_parser.Risk.Providers.judge_traits
evaluated_allow = (_, refl, refl)

evaluate_node-IsClear_example :
    (o : IpRiskObservation) × In o observations
    × (is_of first_node (provider_of "beta") o ≡ true)
    × IsClear policy "" 500 o
    × (blocks (result_of scan policy first_node "" 500 observations (provider_of "beta")) ≡ false)
    × (reviews (result_of scan policy first_node "" 500 observations (provider_of "beta")) ≡ false)
evaluate_node-IsClear_example =
    evaluate_node-IsClear scan policy first_node "" 500 observations evaluated_allow.0
      (provider_of "beta") policy_accepted (λ e. absurd cc) evaluated_allow.1 evaluated_allow.2
      (inr (inl refl))

abbrev input : BatchInput
input = record {
  node_ids = second_node ∷ first_node ∷ second_node ∷ [];
  exit_digests = λ i. "";
  observations = observations;
  evaluated_at = 500;
}

abbrev node_of : String → AdmissionNode
node_of i = record { logical_id = i; display_name = i; protocol = "ss"; active = true }

abbrev nodes : List AdmissionNode
nodes = node_of first_node ∷ node_of second_node ∷ []

-- The first node is admitted, the second excluded.
evaluated_batch :
    (b : Batch) × (evaluate_batch scan (λ i. none) policy input ≡ ok b)
    × (b.admitted_node_ids ≡ first_node ∷ [])
    × (b.excluded_node_ids ≡ second_node ∷ [])
    × (any (λ (e : NodeEvaluation). not (is_known nodes e)) b.evaluations ≡ false)
unfolding evaluate_batch policy_failure validate_score_bands unseen decision_is_valid
    summary_is_valid is_valid_logical_id is_valid_uuid_v7 is_safe_reason identifier_failure
    valid_digest normalize_reason fused_text digests_of sort_texts String_discrete judge_score
    clash_sub_parser.Risk.Providers.judge_traits
evaluated_batch = (_, refl, refl, refl, refl)

evaluate_batch-evaluate_risk_admission_example :
    (evaluate_risk_admission nodes policy.revision_id
      (map decision_of evaluated_batch.0.evaluations)
      (effective_action policy.review_action)).0
    ≡ unique_strings evaluated_batch.0.excluded_node_ids
evaluate_batch-evaluate_risk_admission_example =
    evaluate_batch-evaluate_risk_admission scan (λ i. none) policy input evaluated_batch.0 nodes
      evaluated_batch.1 evaluated_batch.4

observed-IsWellFormed : (node p : String) (score : ℕ) → IsWellFormed (observed node p score)
unfolding valid_digest
observed-IsWellFormed node p score = record {
  status_ok = refl;
  observed = omega arith;
  lasting = omega arith;
  digest_ok = refl;
}

observations-IsWellFormed : (o : IpRiskObservation) → In o observations → IsWellFormed o
observations-IsWellFormed o (inl e) = rw e (observed-IsWellFormed first_node "alpha" 10)
observations-IsWellFormed o (inr (inl e)) = rw e (observed-IsWellFormed first_node "beta" 20)
observations-IsWellFormed o (inr (inr (inl e))) =
    rw e (observed-IsWellFormed second_node "alpha" 10)
observations-IsWellFormed o (inr (inr (inr (inl e)))) =
    rw e (observed-IsWellFormed second_node "beta" 70)
observations-IsWellFormed o (inr (inr (inr (inr e)))) = absurd e

abbrev scan-IsQuiet : IsQuiet scan
scan-IsQuiet = record {
  no_address = λ cs h. refl;
  no_url_query = λ cs h. refl;
  no_query_secret = λ cs h. refl;
}

abbrev stock : String → Option (List IpRiskObservation)
stock node = some (observed node "alpha" 10 ∷ [])

stock-IsStocked : IsStocked scan stock policy input
stock-IsStocked node = (observed node "alpha" 10 ∷ [], refl, one)
  where
    one : (o : IpRiskObservation) → In o (observed node "alpha" 10 ∷ []) → IsWellFormed o
    one o (inl e) = rw e (observed-IsWellFormed node "alpha" 10)
    one o (inr e) = absurd e

ids_are_valid : any (λ i. not (is_valid_logical_id i)) input.node_ids ≡ false
unfolding is_valid_logical_id
ids_are_valid = refl

evaluate_batch_total_example :
    (b : Batch) × (evaluate_batch scan stock policy input ≡ ok b)
    × (length b.admitted_node_ids + length b.excluded_node_ids ≡ length (unseen [] input.node_ids))
evaluate_batch_total_example =
    evaluate_batch_total scan stock policy input stock-IsStocked observations-IsWellFormed
      policy_accepted scan-IsQuiet (omega arith) ids_are_valid
