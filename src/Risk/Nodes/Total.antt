-- ===== src/Risk/Nodes/Total.antt =====
-- `evaluateNodeCore` of internal/application/iprisk/service.go gives a result.
use clash_sub_parser.Prelude.{
  same, ℕ, ◌<◌, String, ◌≡◌, refl, ap, ◌∙◌, Bool, true, false, not, List, [], ◌∷◌, Option, none,
  some, arith, inl, inr, any, ltb, length, ◌==◌,
}
use clash_sub_parser.Prelude.Members.{In}
use clash_sub_parser.Prelude.Strings.{codes}
use clash_sub_parser.Prelude.Sort.{sort_texts, insert_text, any-insert_text, any-sort_texts}
use clash_sub_parser.Policy.Identifiers.{is_valid_logical_id}
use clash_sub_parser.Resolver.Admission.{RiskAction}
use clash_sub_parser.Risk.Texts.{Scanner, valid_digest}
use clash_sub_parser.Risk.Policies.{
  ProviderRef, RiskPolicy, policy_failure, ref_is_named, effective_action,
}
use clash_sub_parser.Risk.Policies.Accepted.{
  IsAccepted, policy_failure-IsAccepted, validate_score_bands_good, providers_failure_good,
}
use clash_sub_parser.Risk.Providers.{
  IpRiskObservation, ProviderResult, judge_observation, evaluate_provider,
}
use clash_sub_parser.Risk.Providers.Sound.{
  IsWellFormed, IsSound, digest_is_fine, evaluate_provider-IsSound,
}
use clash_sub_parser.Risk.Fusion.{latest_of, evaluate_providers, Fused, fuse}
use clash_sub_parser.Risk.Fusion.Cautious.{latest_of-In}
use clash_sub_parser.Risk.Fusion.Sound.{IsFused, fuse-IsFused}
use clash_sub_parser.Risk.Nodes.{
  NodeEvaluation, ok, evaluate_node, conclude, validated, report, decision_is_valid,
  summary_is_valid, action_is_valid, has_repeats, digests_of,
}
use clash_sub_parser.Risk.Nodes.Allowed.{length-results}
use clash_sub_parser.Risk.Nodes.Reasons.{IsQuiet, fused_reason_is_safe}

ltb_of_lt : (m n : ℕ) → m < n → ltb m n ≡ true
ltb_of_lt m n h = ground arith

effective_action-valid : (a : RiskAction) → action_is_valid (effective_action a) ≡ true
effective_action-valid a = ground arith

bad_digest : String → Bool
bad_digest s = not (valid_digest (codes s))

digests_of_good :
    (rs : List ProviderResult)
    → ((r : ProviderResult) → In r rs → digest_is_fine r.evidence_digest ≡ true)
    → any (λ (s : String). not (valid_digest (codes s))) (digests_of rs) ≡ false
unfolding digests_of
digests_of_good [] s = refl
digests_of_good (r ∷ rs) s = ground (arith, s r (inl refl), digests_of_good rs (λ q i. s q (inr i)))

evaluate_provider-ref :
    (policy : RiskPolicy) (ref : ProviderRef) (expected : String) (now : ℕ)
    (o : Option IpRiskObservation)
    → (evaluate_provider policy ref expected now o).ref ≡ ref
unfolding evaluate_provider judge_observation
evaluate_provider-ref policy ref expected now none = refl
evaluate_provider-ref policy ref expected now (some o) = ground arith

digests_of-has_repeats : (rs : List ProviderResult) → has_repeats (digests_of rs) ≡ false
unfolding digests_of
digests_of-has_repeats [] = refl
digests_of-has_repeats (r ∷ rs) = ground (arith, digests_of-has_repeats rs)

has_repeats-insert_text :
    (s : String) (ts : List String) → has_repeats (insert_text s ts) ≡ has_repeats (s ∷ ts)
unfolding insert_text
has_repeats-insert_text s [] = refl
has_repeats-insert_text s (t ∷ ts) =
    ground (arith, has_repeats-insert_text s ts, any-insert_text (same t) s ts)

has_repeats-sort_texts : (ts : List String) → has_repeats (sort_texts ts) ≡ has_repeats ts
unfolding sort_texts
has_repeats-sort_texts [] = refl
has_repeats-sort_texts (t ∷ ts) = ground (
  arith,
  has_repeats-insert_text t (sort_texts ts),
  any-sort_texts (same t) ts,
  has_repeats-sort_texts ts,
)

module _ (scan : Scanner) (policy : RiskPolicy) where
  -- A result that the checks on decisions and summaries let pass.
  abbrev IsReported : ProviderResult → Type 0
  IsReported r = IsSound r × (ref_is_named scan r.ref ≡ true)

  validated_ok :
      (e : NodeEvaluation)
      → decision_is_valid scan e.node_decision ≡ true
      → summary_is_valid scan e ≡ true
      → validated scan e ≡ ok e
  validated_ok e d s = rw (d, s) refl

  module _ (node expected : String) (now : ℕ) (os : List IpRiskObservation) where
    module _ (accepted : IsAccepted scan policy) (later : 0 < now)
        (observed : (o : IpRiskObservation) → In o os → IsWellFormed o) where
      latest_of-IsWellFormed :
          (ref : ProviderRef) (o : IpRiskObservation)
          → latest_of node ref os none ≡ some o
          → IsWellFormed o
      latest_of-IsWellFormed ref o h = elim (latest_of-In node ref os none o h) [
        | inl n ↦ absurd cc
        | inr (i, k) ↦ observed o i
      ]

      results_sound :
          (refs : List ProviderRef)
          → ((p : ProviderRef) → In p refs → ref_is_named scan p ≡ true)
          → (r : ProviderResult) → In r (evaluate_providers policy node expected now os refs)
          → IsReported r
      unfolding evaluate_providers
      results_sound [] named r i = absurd i
      results_sound (ref ∷ refs) named r (inl e) =
          let sound =
            evaluate_provider-IsSound policy ref
              (validate_score_bands_good policy.score_bands accepted.bands_ok) accepted.rules_ok
              accepted.age_ok expected now (latest_of node ref os none) later
              (latest_of-IsWellFormed ref) in
          rw e (
            sound,
            ap (ref_is_named scan)
                  (evaluate_provider-ref policy ref expected now (latest_of node ref os none))
                ∙ named ref (inl refl),
          )
      results_sound (ref ∷ refs) named r (inr i) = results_sound refs (λ p j. named p (inr j)) r i

      decision_ok :
          (results : List ProviderResult) (f : Fused)
          → IsQuiet scan
          → is_valid_logical_id node ≡ true
          → ((r : ProviderResult) → In r results → IsReported r)
          → IsFused IsReported f
          → decision_is_valid scan (report scan policy node now results f).node_decision ≡ true
      unfolding decision_is_valid
      decision_ok results f quiet known sound (a, b, c, (s, n)) =
          let digests =
            any-sort_texts (λ (t : String). not (valid_digest (codes t))) (digests_of results)
            ∙ digests_of_good results (λ r i. (sound r i).0.digest_ok) in
          rw
            (
              known,
              accepted.revision_ok,
              a,
              fused_reason_is_safe scan f.final_reason quiet c,
              ltb_of_lt 0 now later,
              digests,
              has_repeats-sort_texts (digests_of results) ∙ digests_of-has_repeats results,
            )
            refl

      summary_ok :
          (results : List ProviderResult) (f : Fused)
          → IsQuiet scan
          → IsFused IsReported f
          → summary_is_valid scan (report scan policy node now results f) ≡ true
      unfolding summary_is_valid
      summary_ok results f quiet (a, b, c, (s, n)) =
          rw
            (
              a,
              b,
              s.status_ok,
              n,
              ltb_of_lt 0 f.chosen.observed_at s.observed,
              ltb_of_lt 0 f.chosen.expires_at (omega (arith, s.observed, s.lasting)),
              ltb_of_lt f.chosen.observed_at f.chosen.expires_at s.lasting,
              fused_reason_is_safe scan f.final_reason quiet c,
              accepted.revision_ok,
            )
            refl

      conclude_ok :
          (results : List ProviderResult)
          → IsQuiet scan
          → is_valid_logical_id node ≡ true
          → (length results == 0) ≡ false
          → ((r : ProviderResult) → In r results → IsReported r)
          → (e : NodeEvaluation) × (conclude scan policy node now results
                (fuse (effective_action policy.unknown_action) policy.mode results)
              ≡ ok e)
      conclude_ok [] quiet known some_result sound = absurd cc
      conclude_ok (r ∷ rs) quiet known some_result sound =
          let (f, done, fused) =
            fuse-IsFused (effective_action policy.unknown_action)
              (effective_action-valid policy.unknown_action) IsReported (λ q s. s.0) policy.mode r
              rs sound accepted.mode_ok in
          (
            report scan policy node now (r ∷ rs) f,
            ap (conclude scan policy node now (r ∷ rs)) done
                ∙ validated_ok _ (decision_ok (r ∷ rs) f quiet known sound fused)
                    (summary_ok (r ∷ rs) f quiet fused),
          )

    -- An accepted policy gives a decision, and never an error: for a node with a valid identifier, at a
    -- time after zero, on observations that are well formed, where the patterns for addresses and
    -- secrets find nothing in a text of small letters and `_`.
    pub evaluate_node_total :
        policy_failure scan policy ≡ none
        → IsQuiet scan
        → is_valid_logical_id node ≡ true
        → 0 < now
        → ((o : IpRiskObservation) → In o os → IsWellFormed o)
        → (e : NodeEvaluation) × (evaluate_node scan policy node expected os now ≡ ok e)
    unfolding evaluate_node
    evaluate_node_total fine quiet known later observed =
        let accepted = policy_failure-IsAccepted scan policy fine in
        conclude_ok accepted later observed
          (evaluate_providers policy node expected now os policy.providers) quiet known
          (ap (λ n. n == 0) (length-results scan policy node expected now os policy.providers)
            ∙ accepted.some_provider)
          (results_sound accepted later observed policy.providers
            (λ p. providers_failure_good scan [] policy.providers p accepted.providers_ok))
