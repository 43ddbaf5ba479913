-- ===== src/Risk/Batches/Total.antt =====
-- `EvaluateBatch` of internal/application/iprisk/service.go gives a result.
use clash_sub_parser.Prelude.{
  ◌<◌, String, ◌≡◌, refl, sym, subst, length, ◌+◌, suc, ℕ, length-append, ◌∙◌, Bool, true, false,
  not, List, [], ◌∷◌, Option, none, some, arith, any, filter_if, same,
}
use clash_sub_parser.Prelude.Members.{In, In-filter_if}
use clash_sub_parser.Prelude.Sort.{sort_texts, length-sort_texts, any-sort_texts}
use clash_sub_parser.Policy.Identifiers.{is_valid_logical_id}
use clash_sub_parser.Resolver.Admission.{is_lenient}
use clash_sub_parser.Risk.Texts.{Scanner}
use clash_sub_parser.Risk.Policies.{RiskPolicy, effective_action, policy_failure}
use clash_sub_parser.Risk.Providers.{IpRiskObservation}
use clash_sub_parser.Risk.Providers.Sound.{IsWellFormed}
use clash_sub_parser.Risk.Nodes.{NodeEvaluation, ok}
use clash_sub_parser.Risk.Nodes.Reasons.{IsQuiet}
use clash_sub_parser.Risk.Nodes.Total.{evaluate_node_total}
use clash_sub_parser.Risk.Batches.{
  Batch, BatchInput, unseen, classify, observations_of, evaluate_member, evaluate_members,
  empty_batch, sorted, evaluate_batch,
}

-- A test that fails on all texts fails on those that are left.
any-unseen :
    (p : String → Bool) (seen ids : List String)
    → any p ids ≡ false
    → any p (unseen seen ids) ≡ false
unfolding unseen
any-unseen p seen [] h = refl
any-unseen p seen (i ∷ ids) h = ground (arith, any-unseen p (i ∷ seen) ids, any-unseen p seen ids)

-- How many nodes have their place in a result.
abbrev placed : Batch → ℕ
placed b = length b.admitted_node_ids + length b.excluded_node_ids

placed-classify :
    (lenient : Bool) (e : NodeEvaluation) (b : Batch)
    → placed (classify lenient e b) ≡ suc (placed b)
unfolding classify
placed-classify lenient e b = ground (
  arith,
  length-append b.admitted_node_ids (e.node_decision.node_logical_id ∷ []),
  length-append b.excluded_node_ids (e.node_decision.node_logical_id ∷ []),
)

abbrev AreWellFormed : List IpRiskObservation → Type 0
AreWellFormed os = (o : IpRiskObservation) → In o os → IsWellFormed o

module _ (scan : Scanner) (fetch : String → Option (List IpRiskObservation)) (policy : RiskPolicy)
    (input : BatchInput) where
  -- The repository gives well formed observations.
  abbrev pub IsStocked : Type 0
  IsStocked =
      (node : String) → (os : List IpRiskObservation) × (fetch node ≡ some os) × AreWellFormed os

  module _ (stocked : IsStocked) (observed : AreWellFormed input.observations) where
    observations_of_total :
        (node : String)
        → (os : List IpRiskObservation) × (observations_of scan fetch node input.observations
            ≡ ok os)
          × AreWellFormed os
    observations_of_total node =
        given
          (filter_if (λ (o : IpRiskObservation). same o.node_logical_id node) input.observations)
          refl
      where
        given :
            (kept : List IpRiskObservation)
            → filter_if (λ (o : IpRiskObservation). same o.node_logical_id node) input.observations
              ≡ kept
            → (os : List IpRiskObservation) × (observations_of scan fetch node input.observations
                ≡ ok os)
              × AreWellFormed os
        given [] e =
            let (os, found, fine) = stocked node in (os, rw (e, found, observations_of) refl, fine)
        given (o ∷ rest) e = (
          o ∷ rest,
          rw (e, observations_of) refl,
          λ q i. observed q (In-filter_if _ input.observations q (subst (In q) (sym e) i)).0,
        )

    module _ (fine : policy_failure scan policy ≡ none) (quiet : IsQuiet scan)
        (later : 0 < input.evaluated_at) where
      evaluate_member_total :
          (node : String)
          → is_valid_logical_id node ≡ true
          → (e : NodeEvaluation) × (evaluate_member scan fetch policy input node ≡ ok e)
      unfolding evaluate_member
      evaluate_member_total node known =
          let (os, found, formed) = observations_of_total node in
          let (e, done) =
            evaluate_node_total scan policy node (input.exit_digests node) input.evaluated_at os
              fine quiet known later formed in
          (e, rw found done)

      evaluate_members_total :
          (nodes : List String) (b : Batch)
          → any (λ i. not (is_valid_logical_id i)) nodes ≡ false
          → (r : Batch) × (evaluate_members scan fetch policy input nodes b ≡ ok r)
            × (placed r ≡ placed b + length nodes)
      unfolding evaluate_members
      evaluate_members_total [] b h = (b, refl, omega arith)
      evaluate_members_total (node ∷ nodes) b h =
          let (e, done) = evaluate_member_total node (ground arith) in
          let lenient = is_lenient (effective_action policy.review_action) in
          let (r, rest, all) = evaluate_members_total nodes (classify lenient e b) (ground arith) in
          (r, rw done rest, omega (arith, all, placed-classify lenient e b))

      -- An accepted policy gives a result for a batch, and never an error, and the result admits or
      -- excludes as many nodes as the batch has identifiers, repetitions aside: where these are
      -- valid, the time is after zero, the observations of the input are well formed, the repository
      -- gives well formed observations for each node, and the patterns for addresses and secrets
      -- find nothing in a text of small letters and `_`.
      pub evaluate_batch_total :
          any (λ i. not (is_valid_logical_id i)) input.node_ids ≡ false
          → (b : Batch) × (evaluate_batch scan fetch policy input ≡ ok b)
            × (length b.admitted_node_ids + length b.excluded_node_ids
                ≡ length (unseen [] input.node_ids))
      unfolding evaluate_batch
      evaluate_batch_total known =
          let (b, done, all) =
            evaluate_members_total (sort_texts (unseen [] input.node_ids)) empty_batch (
              any-sort_texts _ (unseen [] input.node_ids) ∙ any-unseen _ [] input.node_ids known) in
          (
            sorted scan fetch policy input b,
            rw (fine, known, done) refl,
            omega (
              arith,
              all,
              length-sort_texts b.admitted_node_ids,
              length-sort_texts b.excluded_node_ids,
              length-sort_texts (unseen [] input.node_ids),
            ),
          )
