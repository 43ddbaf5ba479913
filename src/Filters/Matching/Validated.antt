-- ===== src/Filters/Matching/Validated.antt =====
-- Filters of internal/domain/node_filter.go that their validation accepts.
use clash_sub_parser.Prelude.{
  ℕ, ◌≡◌, ◌≤◌, inl, inr, refl, sym, ap, ◌∙◌, String, Bool, true, false, ◌||◌, List, [], ◌∷◌, length,
  if_cases, Option, none, some, Option-cases, Bool-cases, arith, String_discrete,
}
use clash_sub_parser.Prelude.Int.{ℤ}
use clash_sub_parser.Prelude.Strings.{codes, trim_space}
use clash_sub_parser.Prelude.Trim.{trim_space_twice}
use clash_sub_parser.Prelude.Maps.{Map, find}
use clash_sub_parser.Prelude.Members.{In}
use clash_sub_parser.Probing.Health.{Observation}
use clash_sub_parser.Prelude.Numbers.{parse_int}
use clash_sub_parser.Filters.Regex.{Library, Matcher, compile_filter_regex, match_regex}
use clash_sub_parser.Filters.Conditions.{
  FilterField, FilterOp, FilterCondition, display_name, protocol, source_subscriptions,
  probe_verdict, probe_latency_ms, op_contains, op_not_contains, op_regex, op_not_regex, op_equals,
  op_not_equals, parse_filter_field, parse_filter_op, condition_failure, conditions_failure,
  known_failure, is_some_kind, is_given, spec_failure,
}
use clash_sub_parser.Filters.Matching.{
  Node, Reason, matches_condition, unknown_field, missing_probe_kind, regex_is_invalid,
  fresh_observation, match_name, judge, is_op, field_reason, latency_reason, verdict_is_available,
  is_expired, observation_expired,
}

-- The reasons that blame the condition instead of the node.
abbrev pub is_misconfigured : Option Reason → Bool
is_misconfigured (some unknown_field) = true
is_misconfigured (some missing_probe_kind) = true
is_misconfigured (some regex_is_invalid) = true
is_misconfigured _ = false

judge-is_misconfigured :
    (wanted unwanted : FilterOp) (op : Option FilterOp) (r : Reason) (found : Bool)
    → is_misconfigured (some r) ≡ false
    → is_misconfigured (judge wanted unwanted op r found) ≡ false
judge-is_misconfigured wanted unwanted op r found h = ground (arith, h)

match_name-is_misconfigured :
    (op : Option FilterOp) (re : Option Matcher) (text : List ℕ)
    → is_given re ≡ true
    → is_misconfigured (match_name op re text) ≡ false
match_name-is_misconfigured op none text h = absurd cc
match_name-is_misconfigured op (some re) text h = elim (Option-cases (match_regex re text)) [
  | inl e ↦ rw e refl
  | inr (b, e) ↦ rw e (judge-is_misconfigured op_regex op_not_regex op _ b refl)
]

fresh_observation-is_misconfigured :
    (c : FilterCondition) (latest : Map String Observation) (as_of : ℕ)
    (test : Observation → Option Reason)
    → is_some_kind c.probe_kind ≡ true
    → ((o : Observation) → is_misconfigured (test o) ≡ false)
    → is_misconfigured (fresh_observation c latest as_of test) ≡ false
fresh_observation-is_misconfigured c latest as_of test k t = elim (Option-cases c.probe_kind) [
  | inl e ↦ absurd (ground (arith, ap is_some_kind e))
  | inr (kind, e) ↦ elim (Option-cases (find String_discrete kind latest)) [
    | inl f ↦ rw (e, fresh_observation, f) refl
    | inr (o, f) ↦
        rw (e, fresh_observation, f)
          (if_cases (λ r. is_misconfigured r ≡ false) (is_expired c.freshness_seconds o as_of)
            (some observation_expired) (test o) (λ x. refl) (λ x. t o))
  ]
]

latency_reason-is_misconfigured :
    (limit : Option ℤ) (latency : ℤ) → is_misconfigured (latency_reason limit latency) ≡ false
latency_reason-is_misconfigured none latency = refl
latency_reason-is_misconfigured (some limit) latency = ground arith

-- Validate compiles the trimmed value, MatchesCondition the value itself.
compile_filter_regex-trim_space :
    (lib : Library) (p : List ℕ)
    → compile_filter_regex lib (trim_space p) ≡ compile_filter_regex lib p
unfolding compile_filter_regex
compile_filter_regex-trim_space lib p = rw (trim_space_twice p) refl

regex_op_given :
    (lib : Library) (c : FilterCondition) (op : FilterOp)
    → known_failure lib c (some display_name) (some op) ≡ none
    → (is_op op_regex (some op) || is_op op_not_regex (some op)) ≡ true
    → is_given (compile_filter_regex lib (codes c.value)) ≡ true
regex_op_given lib c op h k =
    ap is_given (sym (compile_filter_regex-trim_space lib (codes c.value)))
    ∙ elim (Bool-cases (is_given (compile_filter_regex lib (trim_space (codes c.value))))) [
      | inl e ↦ e
      | inr e ↦ absurd (ground (arith, h, k, e))
    ]

module _ (lib : Library) (c : FilterCondition) (node : Node) (latest : Map String Observation)
    (as_of : ℕ) where
  field_reason-is_misconfigured :
      (f : Option FilterField) (op : Option FilterOp)
      → known_failure lib c f op ≡ none
      → is_misconfigured (field_reason lib f op c node latest as_of) ≡ false
  field_reason-is_misconfigured none op h = absurd cc
  field_reason-is_misconfigured (some f) none h = absurd cc
  field_reason-is_misconfigured (some display_name) (some op) h =
      if_cases (λ r. is_misconfigured r ≡ false)
        (is_op op_regex (some op) || is_op op_not_regex (some op)) _ _
        (λ k.
          match_name-is_misconfigured (some op) _ (codes node.name) (regex_op_given lib c op h k))
        (λ k. judge-is_misconfigured op_contains op_not_contains (some op) _ _ refl)
  field_reason-is_misconfigured (some protocol) (some op) h =
      judge-is_misconfigured op_equals op_not_equals (some op) _ _ refl
  field_reason-is_misconfigured (some source_subscriptions) (some op) h =
      judge-is_misconfigured op_contains op_not_contains (some op) _ _ refl
  field_reason-is_misconfigured (some probe_verdict) (some op) h =
      fresh_observation-is_misconfigured c latest as_of _ (ground (arith, h))
        (λ o. judge-is_misconfigured op_equals op_not_equals (some op) _ _ refl)
  field_reason-is_misconfigured (some probe_latency_ms) (some op) h =
      fresh_observation-is_misconfigured c latest as_of _ (ground (arith, h)) (λ o.
        if_cases (λ r. is_misconfigured r ≡ false) (verdict_is_available o.verdict) _ _
          (λ k. latency_reason-is_misconfigured (parse_int (codes c.value)) o.latency_ms)
          (λ k. refl))

conditions_failure-In :
    (lib : Library) (cs : List FilterCondition) (c : FilterCondition)
    → conditions_failure lib cs ≡ none
    → In c cs
    → condition_failure lib c ≡ none
unfolding conditions_failure
conditions_failure-In lib [] c h i = absurd i
conditions_failure-In lib (d ∷ cs) c h i = elim (Option-cases (condition_failure lib d)) [
  | inl e ↦ elim i [
    | inl q ↦ ap (condition_failure lib) q ∙ e
    | inr j ↦ conditions_failure-In lib cs c (ground (arith, h, e)) j
  ]
  | inr (x, e) ↦ absurd (ground (arith, h, e))
]

-- A filter that Validate accepts has at most 32 conditions, and none of them ever rejects a node
-- because of an unknown field, a missing kind of probe or an expression that does not compile.
pub spec_failure-is_misconfigured :
    (lib : Library) (cs : List FilterCondition)
    → spec_failure lib cs ≡ none
    → (length cs ≤ 32)
      × ((c : FilterCondition) (node : Node) (latest : Map String Observation) (as_of : ℕ)
          → In c cs
          → is_misconfigured (matches_condition lib c node latest as_of) ≡ false)
unfolding spec_failure matches_condition condition_failure
spec_failure-is_misconfigured lib cs h = (
  ground (arith, h),
  λ c node latest as_of i.
      field_reason-is_misconfigured lib c node latest as_of (parse_filter_field c.field)
        (parse_filter_op c.op) (conditions_failure-In lib cs c (ground (arith, h)) i),
)
