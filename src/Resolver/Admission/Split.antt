-- ===== src/Resolver/Admission/Split.antt =====
-- The split of the nodes by internal/resolver/admission.go and internal/resolver/risk_admission.go.
use clash_sub_parser.Prelude.{
  ◌≡◌, ◌≢◌, ◌↔◌, inl, inr, ap, subst, String, Bool, true, false, not, ◌&&◌, List, [], ◌∷◌, ◌++◌,
  length, count_if, if_cases, any, same, Bool-cases, String_discrete, arith,
}
use clash_sub_parser.Prelude.Members.{In, In-any, any-In}
use clash_sub_parser.Prelude.Sort.{Occurs, Occurs-sort_texts}
use clash_sub_parser.Resolver.Admission.{
  AdmissionNode, AdmissionRule, Verdict, is_admitted, judge_node, exchange_rules, RiskAction,
  RiskDecision, excludes, is_lenient, is_relevant, risky_ids, evaluate_risk_admission, admit_nodes,
}
use clash_sub_parser.Resolver.Admission.Judged.{Passes, judge_node_cases}
use clash_sub_parser.Resolver.Admission.Ordered.{
  IsAscending, count_if-exchange_rules, exchange_rules-IsAscending,
}
use clash_sub_parser.Resolver.Admission.Filed.{
  Occurs-append, Occurs-unique_strings, any-Occurs, file_nodes-admitted, file_nodes-admits,
  file_nodes-excludes, file_nodes-excluded,
}

risky_ids-Occurs :
    (revision : String) (lenient : Bool) (nodes : List AdmissionNode) (ds : List RiskDecision)
    (d : RiskDecision)
    → In d ds
    → is_relevant revision nodes d ≡ true
    → excludes lenient d.decision ≡ true
    → Occurs d.node_logical_id (risky_ids revision lenient nodes ds)
unfolding risky_ids
risky_ids-Occurs revision lenient nodes [] d i r x = absurd i
risky_ids-Occurs revision lenient nodes (c ∷ ds) d (inl e) r x =
    if_cases (Occurs d.node_logical_id)
      (is_relevant revision nodes c && excludes lenient c.decision) _ _
      (λ h. inl (ap (λ (y : RiskDecision). y.node_logical_id) e))
      (λ h. absurd (
        ground (
          arith,
          h,
          r,
          x,
          ap (is_relevant revision nodes) e,
          ap (λ (y : RiskDecision). excludes lenient y.decision) e,
        )))
risky_ids-Occurs revision lenient nodes (c ∷ ds) d (inr i) r x =
    if_cases (Occurs d.node_logical_id)
      (is_relevant revision nodes c && excludes lenient c.decision) _ _
      (λ h. inr (risky_ids-Occurs revision lenient nodes ds d i r x))
      (λ h. risky_ids-Occurs revision lenient nodes ds d i r x)

evaluate_risk_admission-Occurs :
    (nodes : List AdmissionNode) (revision : String) (ds : List RiskDecision) (review : RiskAction)
    (d : RiskDecision)
    → revision ≢ ""
    → In d ds
    → is_relevant revision nodes d ≡ true
    → excludes (is_lenient review) d.decision ≡ true
    → Occurs d.node_logical_id (evaluate_risk_admission nodes revision ds review).0
unfolding evaluate_risk_admission
evaluate_risk_admission-Occurs nodes revision ds review d ne i r x =
    if_cases (λ (z : List String × List (RiskDecision × Bool)). Occurs d.node_logical_id z.0)
      (same revision "") _ _ (λ h. absurd (ground (arith, h, ne)))
      (λ h. (Occurs-unique_strings d.node_logical_id _).1 (
        (Occurs-sort_texts d.node_logical_id _).1
          (risky_ids-Occurs revision (is_lenient review) nodes ds d i r x)))

is_relevant_of_node :
    (revision : String) (nodes : List AdmissionNode) (d : RiskDecision) (x : AdmissionNode)
    → In x nodes
    → d.policy_revision_id ≡ revision
    → d.node_logical_id ≡ x.logical_id
    → is_relevant revision nodes d ≡ true
is_relevant_of_node revision nodes d x i r q = ground (
  arith,
  r,
  In-any (λ (n : AdmissionNode). same n.logical_id d.node_logical_id) nodes x i (ground (arith, q)),
)

-- A decision of the revision that excludes the node.
abbrev pub bars : String → RiskAction → String → RiskDecision → Bool
bars revision review t d =
    same d.policy_revision_id revision
    && (excludes (is_lenient review) d.decision && same d.node_logical_id t)

-- There is a policy of risks, and one of its decisions excludes the node.
abbrev pub is_barred : String → List RiskDecision → RiskAction → String → Bool
is_barred revision decisions review t =
    not (same revision "") && any (bars revision review t) decisions

absent_of : (t : String) (ts : List String) → (Occurs t ts → ⊥) → any (same t) ts ≡ false
absent_of t ts h = elim (Bool-cases (any (same t) ts)) [
  | inl e ↦ absurd (h ((any-Occurs t ts).0 e))
  | inr e ↦ e
]

unbarred :
    (revision : String) (ds : List RiskDecision) (review : RiskAction) (t : String)
    → ((d : RiskDecision)
        → In d ds
        → revision ≢ ""
        → d.policy_revision_id ≡ revision
        → excludes (is_lenient review) d.decision ≡ true
        → d.node_logical_id ≢ t)
    → is_barred revision ds review t ≡ false
unbarred revision ds review t h = elim (Bool-cases (any (bars revision review t) ds)) [
  | inr e ↦ ground (arith, e)
  | inl e ↦ elim (String_discrete revision "") [
    | yes q ↦ ground (arith, q)
    | no ne ↦
        let (d, i, b) = any-In (bars revision review t) ds e in
        absurd (h d i ne (ground (arith, b)) (ground (arith, b)) (ground (arith, b)))
  ]
]

risky_ids-bars :
    (revision : String) (review : RiskAction) (nodes : List AdmissionNode) (ds : List RiskDecision)
    (t : String)
    → Occurs t (risky_ids revision (is_lenient review) nodes ds)
    → any (bars revision review t) ds ≡ true
unfolding risky_ids
risky_ids-bars revision review nodes [] t o = absurd o
risky_ids-bars revision review nodes (d ∷ ds) t o =
    if_cases (λ ids. Occurs t ids → any (bars revision review t) (d ∷ ds) ≡ true)
      (is_relevant revision nodes d && excludes (is_lenient review) d.decision) _ _
      (λ h k. elim k [
        | inl e ↦ ground (arith, h, e)
        | inr i ↦ ground (arith, risky_ids-bars revision review nodes ds t i)
      ])
      (λ h k. ground (arith, risky_ids-bars revision review nodes ds t k)) o

evaluate_risk_admission-is_barred :
    (nodes : List AdmissionNode) (revision : String) (ds : List RiskDecision) (review : RiskAction)
    (t : String)
    → Occurs t (evaluate_risk_admission nodes revision ds review).0
    → is_barred revision ds review t ≡ true
unfolding evaluate_risk_admission
evaluate_risk_admission-is_barred nodes revision ds review t =
    if_cases
      (λ (z : List String × List (RiskDecision × Bool)).
        Occurs t z.0 → is_barred revision ds review t ≡ true)
      (same revision "") _ _ (λ h o. absurd o)
      (λ h o. ground (
        arith,
        h,
        risky_ids-bars revision review nodes ds t
            ((Occurs-sort_texts t _).0 ((Occurs-unique_strings t _).0 o)),
      ))

module _ (matches : AdmissionNode → String → Bool) (nodes : List AdmissionNode)
    (rules : List AdmissionRule) (excluded : List String) (revision : String)
    (decisions : List RiskDecision) (review : RiskAction) where
  -- A node is active, not excluded by the caller, not excluded by a decision of the current policy of
  -- risks, where one is set, and the first of the ordered rules that matches it, if any, neither rejects
  -- nor quarantines.
  pub record MayEnter (ordered : List AdmissionRule) (x : AdmissionNode) : Type 0 where
    pub active_ok : x.active ≡ true
    pub not_excluded : any (same x.logical_id) excluded ≡ false
    pub not_barred : is_barred revision decisions review x.logical_id ≡ false
    pub rules_pass : Passes matches ordered x

  abbrev sorted_rules : List AdmissionRule
  sorted_rules = exchange_rules (length rules) rules

  abbrev risky : List String
  risky = excluded ++ (evaluate_risk_admission nodes revision decisions review).0

  abbrev decide : AdmissionNode → Verdict
  decide = judge_node matches sorted_rules risky

  decide-MayEnter :
      (x : AdmissionNode) → In x nodes → decide x ≡ is_admitted → MayEnter sorted_rules x
  decide-MayEnter x m v =
      let (active, safe, passes) = (judge_node_cases matches sorted_rules risky x).0 v in
      let apart : Occurs x.logical_id risky → ⊥ =
        λ o. absurd (ground (arith, safe, (any-Occurs x.logical_id risky).1 o)) in
      record {
        active_ok = active;
        not_excluded =
            absent_of x.logical_id excluded
              (λ o. apart ((Occurs-append x.logical_id excluded _).1 (inl o)));
        not_barred = unbarred revision decisions review x.logical_id (λ d k ne r e q. apart (
            (Occurs-append x.logical_id excluded _).1 (
              inr (
                subst (λ t. Occurs t (evaluate_risk_admission nodes revision decisions review).0) q
                  (evaluate_risk_admission-Occurs nodes revision decisions review d ne k
                    (is_relevant_of_node revision nodes d x m r q) e)))));
        rules_pass = passes;
      }

  MayEnter-decide : (x : AdmissionNode) → MayEnter sorted_rules x → decide x ≡ is_admitted
  MayEnter-decide x e = (judge_node_cases matches sorted_rules risky x).1 (
    e.active_ok,
    absent_of x.logical_id risky (λ o. elim ((Occurs-append x.logical_id excluded _).0 o) [
      | inl k ↦ absurd (ground (arith, e.not_excluded, (any-Occurs x.logical_id excluded).1 k))
      | inr k ↦ absurd (
          ground (
            arith,
            e.not_barred,
            evaluate_risk_admission-is_barred nodes revision decisions review x.logical_id k,
          ))
    ]),
    e.rules_pass,
  )

  -- There is an ascending order of the rules by position with which a node is admitted exactly when it is
  -- one of the nodes and may enter: it is active, neither the caller nor a decision of the current policy
  -- of risks excludes it, and the first rule of that order that matches it, if any, neither rejects nor
  -- quarantines. The excluded IDs are exactly those of the nodes that may not enter.
  pub admit_nodes_lem :
      (ordered : List AdmissionRule) × IsAscending ordered
      × ((p : AdmissionRule → Bool) → count_if p ordered ≡ count_if p rules)
      × ((x : AdmissionNode)
          → In x (admit_nodes matches nodes rules excluded revision decisions review).admitted_nodes
            ↔ (In x nodes × MayEnter ordered x))
      × ((t : String)
          → Occurs t
              (admit_nodes matches nodes rules excluded revision decisions review).excluded_node_ids
            ↔ ((y : AdmissionNode) × In y nodes × (y.logical_id ≡ t) × (MayEnter ordered y → ⊥)))
  unfolding admit_nodes
  admit_nodes_lem = (
    sorted_rules,
    exchange_rules-IsAscending (length rules) rules (omega arith),
    λ p. count_if-exchange_rules p (length rules) rules,
    λ x. (
      λ i. elim (file_nodes-admitted decide nodes _ x i) [
        | inl a ↦ absurd a
        | inr (m, v) ↦ (m, decide-MayEnter x m v)
      ],
      λ (m, e). file_nodes-admits decide nodes _ x (inr (m, MayEnter-decide x e)),
    ),
    λ t. (
      λ o.
          elim (file_nodes-excluded decide nodes _ t
            ((Occurs-sort_texts t _).0 ((Occurs-unique_strings t _).0 o))) [
              | inl a ↦ absurd a
              | inr (y, i, q, w) ↦ (y, i, q, λ e. w (MayEnter-decide y e))
            ],
      λ (y, i, q, w). (Occurs-unique_strings t _).1 (
          (Occurs-sort_texts t _).1
            (file_nodes-excludes decide nodes _ t (inr (y, i, q, λ v. w (decide-MayEnter y i v))))),
    ),
  )
