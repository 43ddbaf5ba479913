-- ===== src/Risk/Nodes/Allowed.antt =====
-- What it takes for `evaluateNodeCore` of internal/application/iprisk/service.go to allow a node.
use clash_sub_parser.Prelude.{
  ℕ, suc, String, ◌≡◌, ◌≢◌, refl, sym, ap, ◌∙◌, Bool, true, false, not, ◌&&◌, List, [], ◌∷◌, Option,
  none, some, arith, if_cases, Bool-cases, inl, inr, length, ◌==◌, any, ltb,
}
use clash_sub_parser.Prelude.Members.{In}
use clash_sub_parser.Resolver.Admission.{risk_allow}
use clash_sub_parser.Policy.Identifiers.{is_valid_uuid_v7, is_valid_logical_id}
use clash_sub_parser.Prelude.Strings.{codes}
use clash_sub_parser.Risk.Texts.{Scanner, is_safe_reason, valid_digest}
use clash_sub_parser.Risk.Policies.{
  ProviderRef, RiskPolicy, effective_action, policy_failure, is_single,
}
use clash_sub_parser.Risk.Providers.{IpRiskObservation, ProviderResult, evaluate_provider}
use clash_sub_parser.Risk.Providers.Clear.{IsClear, evaluate_provider-IsClear}
use clash_sub_parser.Risk.Fusion.{
  is_of, latest_of, evaluate_providers, Fused, blocks, reviews, fuse,
}
use clash_sub_parser.Risk.Fusion.Cautious.{latest_of-In, needs_all, fuse-Clears}
use clash_sub_parser.Risk.Nodes.{
  Decision, NodeEvaluation, ok, conclude, evaluate_node, validated, decision_is_valid,
  summary_is_valid, action_is_valid, has_repeats, report,
}

validated-ok : (scan : Scanner) (x e : NodeEvaluation) → validated scan x ≡ ok e → x ≡ e
validated-ok scan x e h =
    if_cases (λ r. r ≡ ok e → x ≡ e) (not (decision_is_valid scan x.node_decision)) _ _
      (λ _ k. absurd cc)
      (λ _.
        if_cases (λ r. r ≡ ok e → x ≡ e) (not (summary_is_valid scan x)) _ _ (λ _ k. absurd cc)
          (λ _ k. cc))
      h

third_of_seven : (a b c d e f g : Bool) → (a && b && c && d && e && f && g) ≡ true → c ≡ true
third_of_seven a b c d e f g h = ground arith

decision_is_valid-action :
    (scan : Scanner) (d : Decision)
    → decision_is_valid scan d ≡ true
    → action_is_valid d.decision ≡ true
unfolding decision_is_valid
decision_is_valid-action scan d h =
    third_of_seven (is_valid_logical_id d.node_logical_id) (is_valid_uuid_v7 d.policy_revision_id)
      (action_is_valid d.decision) (is_safe_reason scan d.reason_code) (ltb 0 d.evaluated_at)
      (not (any (λ (s : String). not (valid_digest (codes s))) d.observation_digest_set))
      (not (has_repeats d.observation_digest_set)) h

validated-valid :
    (scan : Scanner) (x e : NodeEvaluation)
    → validated scan x ≡ ok e
    → decision_is_valid scan x.node_decision ≡ true
validated-valid scan x e h = elim (Bool-cases (decision_is_valid scan x.node_decision)) [
  | inl t ↦ t
  | inr f ↦ absurd (cc (rw f at h))
]

module _ (scan : Scanner) (policy : RiskPolicy) where
  policy_failure-is_single :
      policy_failure scan policy ≡ none
      → (is_single policy.mode && not (length policy.providers == 1)) ≡ false
  unfolding policy_failure
  policy_failure-is_single h = ground arith

  module _ (node expected : String) (now : ℕ) (os : List IpRiskObservation) where
    abbrev results_of : List ProviderRef → List ProviderResult
    results_of = evaluate_providers policy node expected now os

    abbrev pub result_of : ProviderRef → ProviderResult
    result_of ref = evaluate_provider policy ref expected now (latest_of node ref os none)

    pub length-results : (refs : List ProviderRef) → length (results_of refs) ≡ length refs
    unfolding evaluate_providers
    length-results [] = refl
    length-results (ref ∷ refs) = ap suc (length-results refs)

    In-results :
        (refs : List ProviderRef) (ref : ProviderRef)
        → In ref refs
        → In (result_of ref) (results_of refs)
    unfolding evaluate_providers
    In-results [] ref i = i
    In-results (r ∷ refs) ref (inl e) = inl (ap result_of e)
    In-results (r ∷ refs) ref (inr i) = inr (In-results refs ref i)

    -- What a result tells of the fusion.
    conclude-ok :
        (results : List ProviderResult) (o : Option Fused) (e : NodeEvaluation)
        → conclude scan policy node now results o ≡ ok e
        → (f : Fused) × (o ≡ some f) × (f.final_action ≡ e.node_decision.decision)
    conclude-ok results none e h = absurd cc
    conclude-ok results (some f) e h =
        (f, refl, ap (λ (x : NodeEvaluation). x.node_decision.decision) (validated-ok scan _ e h))

    -- A result is of the policy's revision, and its decision is one of the four actions.
    pub evaluate_node-signed :
        (e : NodeEvaluation)
        → evaluate_node scan policy node expected os now ≡ ok e
        → (e.node_decision.policy_revision_id ≡ policy.revision_id)
          × (action_is_valid e.node_decision.decision ≡ true)
    unfolding evaluate_node
    evaluate_node-signed e h = signed (fuse _ policy.mode (results_of policy.providers)) h
      where
        signed :
            (o : Option Fused)
            → conclude scan policy node now (results_of policy.providers) o ≡ ok e
            → (e.node_decision.policy_revision_id ≡ policy.revision_id)
              × (action_is_valid e.node_decision.decision ≡ true)
        signed none k = absurd cc
        signed (some f) k =
            let same_one : report scan policy node now (results_of policy.providers) f ≡ e =
              validated-ok scan _ e k in
            (
              ap (λ (x : NodeEvaluation). x.node_decision.policy_revision_id) (sym same_one),
              ap (λ (x : NodeEvaluation). action_is_valid x.node_decision.decision) (sym same_one)
                  ∙ decision_is_valid-action scan _ (validated-valid scan _ e k),
            )

    -- A node that an accepted policy allows, and whose policy does not allow what is unknown, has
    -- for each provider of the policy an observation that is available, of the expected exit,
    -- neither expired nor too old, and of enough confidence; no provider blocks the node, and where
    -- all must allow it, none asks for a review.
    pub evaluate_node-IsClear :
        (e : NodeEvaluation) (ref : ProviderRef)
        → policy_failure scan policy ≡ none
        → effective_action policy.unknown_action ≢ risk_allow
        → evaluate_node scan policy node expected os now ≡ ok e
        → e.node_decision.decision ≡ risk_allow
        → In ref policy.providers
        → (o : IpRiskObservation) × In o os
          × (is_of node ref o ≡ true)
          × IsClear policy expected now o
          × (blocks (result_of ref) ≡ false)
          × ((needs_all policy.mode && reviews (result_of ref)) ≡ false)
    unfolding evaluate_node
    evaluate_node-IsClear e ref accepted strict done allowed i =
        let (f, fused, act) = conclude-ok (results_of policy.providers) _ e done in
        let one = rw (← length-results policy.providers) at (policy_failure-is_single accepted) in
        let (b, l, r) =
          fuse-Clears _ strict policy.mode (results_of policy.providers) f (result_of ref) one fused
            (act ∙ allowed) (In-results policy.providers ref i) in
        let (o, found, clear) =
          evaluate_provider-IsClear policy expected now ref (latest_of node ref os none)
            (ground (arith, l)) in
        elim (latest_of-In node ref os none o found) [
          | inl n ↦ absurd cc
          | inr (j, k) ↦ (o, j, k, clear, b, r)
        ]
