-- ===== src/Risk/Batches/Resolved.antt =====
-- The nodes that `EvaluateBatch` of internal/application/iprisk/service.go excludes, and those that
-- `evaluateRiskAdmission` of internal/resolver/risk_admission.go excludes by its decisions.
use clash_sub_parser.Prelude.{
  String, ◌≡◌, refl, sym, ap, subst, ◌∙◌, Bool, true, false, not, List, [], ◌∷◌, ◌++◌, Option, none,
  arith, if◌then◌else◌, Bool-cases, Option-cases, inl, inr, ◌⊎◌, map, filter_if, any, same,
  String_discrete, is_yes,
}
use mathlib.Core.List.{append-nil}
use clash_sub_parser.Prelude.Members.{In, In-any}
use clash_sub_parser.Prelude.Sort.{sort_texts}
use clash_sub_parser.Policy.Identifiers.{is_valid_uuid_v7, is_valid_logical_id}
use clash_sub_parser.Resolver.Admission.{
  RiskDecision, AdmissionNode, excludes, is_lenient, risky_ids, unique_strings,
  evaluate_risk_admission,
}
use clash_sub_parser.Risk.Texts.{Scanner}
use clash_sub_parser.Risk.Policies.{RiskPolicy, RiskError, effective_action, policy_failure}
use clash_sub_parser.Risk.Providers.{IpRiskObservation}
use clash_sub_parser.Risk.Nodes.{NodeEvaluation, Result, ok, err, action_is_valid}
use clash_sub_parser.Risk.Nodes.Allowed.{evaluate_node-signed}
use clash_sub_parser.Risk.Batches.{
  BatchInput, Batch, empty_batch, classify, evaluate_member, observations_of, evaluate_members,
  evaluate_batch, unseen,
}

Result-cases :
    {A : Type 0} (r : Result A) → ((x : RiskError) × (r ≡ err x)) ⊎ ((a : A) × (r ≡ ok a))
Result-cases (err x) = inl (x, refl)
Result-cases (ok a) = inr (a, refl)

ok_inj : {A : Type 0} {a b : A} → ok a ≡ ok b → a ≡ b
ok_inj h = cc

evaluate_member-signed :
    (scan : Scanner) (fetch : String → Option (List IpRiskObservation)) (policy : RiskPolicy)
    (input : BatchInput) (node : String) (e : NodeEvaluation)
    → evaluate_member scan fetch policy input node ≡ ok e
    → (e.node_decision.policy_revision_id ≡ policy.revision_id)
      × (action_is_valid e.node_decision.decision ≡ true)
unfolding evaluate_member
evaluate_member-signed scan fetch policy input node e h =
    elim (Result-cases (observations_of scan fetch node input.observations)) [
      | inl (x, f) ↦ absurd (cc (rw f at h))
      | inr (os, f) ↦
          evaluate_node-signed scan policy node (input.exit_digests node) input.evaluated_at os e
            (rw f at h)
    ]

-- What the resolver reads of a decision.
abbrev pub decision_of : NodeEvaluation → RiskDecision
decision_of e = record {
  node_logical_id = e.node_decision.node_logical_id;
  policy_revision_id = e.node_decision.policy_revision_id;
  decision = e.node_decision.decision;
}

abbrev id_of : NodeEvaluation → String
id_of e = e.node_decision.node_logical_id

module _ (lenient : Bool) (revision : String) where
  abbrev is_excluded : NodeEvaluation → Bool
  is_excluded e = excludes lenient e.node_decision.decision

  abbrev IsSigned : NodeEvaluation → Type 0
  IsSigned e =
      (e.node_decision.policy_revision_id ≡ revision)
      × (action_is_valid e.node_decision.decision ≡ true)

  -- The excluded nodes are those whose decisions exclude them, and all decisions are of the revision.
  record IsFiled (b : Batch) : Type 0 where
    excluded : b.excluded_node_ids ≡ map id_of (filter_if is_excluded b.evaluations)
    admitted : b.admitted_node_ids ≡ map id_of (filter_if (λ e. not (is_excluded e)) b.evaluations)
    signed : (e : NodeEvaluation) → In e b.evaluations → IsSigned e

  filter_if-last :
      (p : NodeEvaluation → Bool) (es : List NodeEvaluation) (e : NodeEvaluation)
      → map id_of (filter_if p (es ++ (e ∷ [])))
        ≡ map id_of (filter_if p es) ++ (if p e then id_of e ∷ [] else [])
  filter_if-last p [] e = ground arith
  filter_if-last p (x ∷ es) e = ground (arith, filter_if-last p es e)

  In-last :
      (es : List NodeEvaluation) (e x : NodeEvaluation) → In x (es ++ (e ∷ [])) → In x es ⊎ (x ≡ e)
  In-last [] e x (inl h) = inr h
  In-last [] e x (inr h) = absurd h
  In-last (y ∷ es) e x (inl h) = inl (inl h)
  In-last (y ∷ es) e x (inr h) = elim (In-last es e x h) [ inl i ↦ inl (inr i) | inr i ↦ inr i ]

  classify_ids :
      (e : NodeEvaluation) (b : Batch)
      → action_is_valid e.node_decision.decision ≡ true
      → ((classify lenient e b).evaluations ≡ b.evaluations ++ (e ∷ []))
        × ((classify lenient e b).excluded_node_ids
            ≡ b.excluded_node_ids ++ (if is_excluded e then id_of e ∷ [] else []))
        × ((classify lenient e b).admitted_node_ids
            ≡ b.admitted_node_ids ++ (if not (is_excluded e) then id_of e ∷ [] else []))
  unfolding classify
  classify_ids e b h =
      ground (arith, append-nil b.excluded_node_ids, append-nil b.admitted_node_ids)

  -- An entry at the end of both lists.
  extended :
      (p : NodeEvaluation → Bool) (e : NodeEvaluation) (es fs : List NodeEvaluation)
      (ids ids' : List String)
      → fs ≡ es ++ (e ∷ [])
      → ids' ≡ ids ++ (if p e then id_of e ∷ [] else [])
      → ids ≡ map id_of (filter_if p es)
      → ids' ≡ map id_of (filter_if p fs)
  extended p e es fs ids ids' f g h =
      g
      ∙ ap (λ zs. zs ++ (if p e then id_of e ∷ [] else [])) h
      ∙ sym (filter_if-last p es e)
      ∙ ap (λ zs. map id_of (filter_if p zs)) (sym f)

  classify-IsFiled :
      (e : NodeEvaluation) (b : Batch) → IsSigned e → IsFiled b → IsFiled (classify lenient e b)
  classify-IsFiled e b s f =
      let (es, xs, ys) = classify_ids e b s.1 in
      record {
        excluded = extended is_excluded e b.evaluations _ _ _ es xs f.excluded;
        admitted = extended (λ d. not (is_excluded d)) e b.evaluations _ _ _ es ys f.admitted;
        signed = λ x i. elim (In-last b.evaluations e x (rw es at i)) [
          | inl j ↦ f.signed x j
          | inr same_one ↦ subst IsSigned (sym same_one) s
        ];
      }

  risky_ids-excluded :
      (nodes : List AdmissionNode) (es : List NodeEvaluation)
      → ((e : NodeEvaluation)
          → In e es
          → IsSigned e × (any (λ (n : AdmissionNode). same n.logical_id (id_of e)) nodes ≡ true))
      → risky_ids revision lenient nodes (map decision_of es) ≡ map id_of (filter_if is_excluded es)
  unfolding risky_ids
  risky_ids-excluded nodes [] h = refl
  risky_ids-excluded nodes (e ∷ es) h =
      let ((r, v), k) = h e (inl refl) in
      ground (arith, r, k, risky_ids-excluded nodes es (λ x i. h x (inr i)))

evaluate_members-IsFiled :
    (scan : Scanner) (fetch : String → Option (List IpRiskObservation)) (policy : RiskPolicy)
    (input : BatchInput) (nodes : List String) (b c : Batch)
    → evaluate_members scan fetch policy input nodes b ≡ ok c
    → IsFiled (is_lenient (effective_action policy.review_action)) policy.revision_id b
    → IsFiled (is_lenient (effective_action policy.review_action)) policy.revision_id c
unfolding evaluate_members
evaluate_members-IsFiled scan fetch policy input [] b c h f = subst (IsFiled _ _) (ok_inj h) f
evaluate_members-IsFiled scan fetch policy input (node ∷ nodes) b c h f =
    elim (Result-cases (evaluate_member scan fetch policy input node)) [
      | inl (x, e) ↦ absurd (cc (rw e at h))
      | inr (d, e) ↦
          evaluate_members-IsFiled scan fetch policy input nodes _ c (rw e at h)
            (classify-IsFiled _ _ d b (evaluate_member-signed scan fetch policy input node d e) f)
    ]

policy_failure-is_valid_uuid_v7 :
    (scan : Scanner) (policy : RiskPolicy)
    → policy_failure scan policy ≡ none
    → is_valid_uuid_v7 policy.revision_id ≡ true
unfolding policy_failure
policy_failure-is_valid_uuid_v7 scan policy h = ground arith

empty_invalid : is_valid_uuid_v7 "" ≡ false
unfolding is_valid_uuid_v7
empty_invalid = refl

uuid_named : (s : String) → is_valid_uuid_v7 s ≡ true → same s "" ≡ false
uuid_named s h = elim (String_discrete s "") as (λ d. is_yes d ≡ false) [
  | yes e ↦ absurd (cc (ap is_valid_uuid_v7 e, empty_invalid))
  | no ne ↦ refl
]

evaluate_batch-ok :
    (scan : Scanner) (fetch : String → Option (List IpRiskObservation)) (policy : RiskPolicy)
    (input : BatchInput) (b : Batch)
    → evaluate_batch scan fetch policy input ≡ ok b
    → (policy_failure scan policy ≡ none)
      × (c : Batch) × IsFiled
          (is_lenient (effective_action policy.review_action))
          policy.revision_id
          c
      × (b.evaluations ≡ c.evaluations)
      × (b.excluded_node_ids ≡ sort_texts c.excluded_node_ids)
unfolding evaluate_batch
evaluate_batch-ok scan fetch policy input b h = elim (Option-cases (policy_failure scan policy)) [
  | inr (x, e) ↦ absurd (cc (rw e at h))
  | inl e ↦ elim (Bool-cases (any (λ i. not (is_valid_logical_id i)) input.node_ids)) [
    | inl t ↦ absurd (cc (rw (e, t) at h))
    | inr t ↦
        elim (Result-cases (
          evaluate_members scan fetch policy input (sort_texts (unseen [] input.node_ids))
            empty_batch)) [
              | inl (x, m) ↦ absurd (cc (rw (e, t, m) at h))
              | inr (c, m) ↦
                  let same_batch = ok_inj (rw (e, t, m) at h) in
                  (
                    e,
                    c,
                    evaluate_members-IsFiled scan fetch policy input _ empty_batch c m
                        (record { excluded = refl; admitted = refl; signed = λ x i. absurd i }),
                    ap (λ (x : Batch). x.evaluations) (sym same_batch),
                    ap (λ (x : Batch). x.excluded_node_ids) (sym same_batch),
                  )
            ]
  ]
]

-- The resolver has the node of an evaluation.
abbrev pub is_known : List AdmissionNode → NodeEvaluation → Bool
is_known nodes e = any (λ (n : AdmissionNode). same n.logical_id (id_of e)) nodes

all_known :
    (nodes : List AdmissionNode) (es : List NodeEvaluation)
    → any (λ (e : NodeEvaluation). not (is_known nodes e)) es ≡ false
    → (e : NodeEvaluation) → In e es
    → is_known nodes e ≡ true
all_known nodes es h e i = elim (Bool-cases (is_known nodes e)) [
  | inl t ↦ t
  | inr t ↦
      absurd (cc (h, In-any (λ (d : NodeEvaluation). not (is_known nodes d)) es e i (ap not t)))
]

-- The decisions of a batch, read by the resolver under the same setting for reviews, exclude the
-- nodes that the batch excludes, each once, where the resolver knows every node of the batch.
pub evaluate_batch-evaluate_risk_admission :
    (scan : Scanner) (fetch : String → Option (List IpRiskObservation)) (policy : RiskPolicy)
    (input : BatchInput) (b : Batch) (nodes : List AdmissionNode)
    → evaluate_batch scan fetch policy input ≡ ok b
    → any (λ (e : NodeEvaluation). not (is_known nodes e)) b.evaluations ≡ false
    → (evaluate_risk_admission nodes policy.revision_id
        (map decision_of b.evaluations)
        (effective_action policy.review_action)).0
      ≡ unique_strings b.excluded_node_ids
unfolding evaluate_risk_admission
evaluate_batch-evaluate_risk_admission scan fetch policy input b nodes h known =
    let lenient = is_lenient (effective_action policy.review_action) in
    let (valid, b0, f, e, ids) = evaluate_batch-ok scan fetch policy input b h in
    let decisions =
      risky_ids-excluded lenient policy.revision_id nodes b.evaluations
        (λ x i. (f.signed x (rw e at i), all_known nodes b.evaluations known x i)) in
    let named : same policy.revision_id "" ≡ false =
      uuid_named policy.revision_id (policy_failure-is_valid_uuid_v7 scan policy valid) in
    rw (named, decisions)
      (ap unique_strings (
        ap sort_texts (
          ap (λ es. map id_of (filter_if (is_excluded lenient policy.revision_id) es)) e
          ∙ sym f.excluded)
        ∙ sym ids))
