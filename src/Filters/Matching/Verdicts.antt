-- ===== src/Filters/Matching/Verdicts.antt =====
-- What the filters of internal/domain/node_filter.go let through.
use clash_sub_parser.Prelude.{
  ℕ, ◌≡◌, ◌≤◌, ◌+◌, ◌*◌, ◌↔◌, inl, inr, refl, sym, ap, subst, ◌∙◌, String, true, false, List, [],
  ◌∷◌, if◌then◌else◌, Option, none, some, Option-cases, Bool-cases, arith, String_discrete,
}
use clash_sub_parser.Prelude.Int.{ℤ, pos, negsuc}
use clash_sub_parser.Prelude.Strings.{codes, trim_space}
use clash_sub_parser.Prelude.Maps.{Map, find}
use clash_sub_parser.Prelude.Members.{In}
use clash_sub_parser.Probing.States.{kind_is_valid}
use clash_sub_parser.Probing.Health.{
  Observation, Verdict, available, restricted, unknown, error, stale, other_verdict,
}
use clash_sub_parser.Prelude.Numbers.{parse_int}
use clash_sub_parser.Prelude.Numbers.Numerals.{IsNumeralOf, parse_int_sound}
use clash_sub_parser.Filters.Regex.{Library, Matcher, compile_filter_regex, match_regex}
use clash_sub_parser.Filters.Regex.Engines.{Says, evaluate, evaluate_lem}
use clash_sub_parser.Filters.Conditions.{
  FilterOp, FilterCondition, display_name, probe_latency_ms, op_regex, op_not_regex,
  parse_filter_field, parse_filter_op, condition_failure, is_unbounded, is_bad_threshold,
  is_some_kind, known_failure,
}
use clash_sub_parser.Filters.Matching.{
  Node, Reason, latency_requires_available, matches_condition, matches_filter, match_name,
  freshness_of, is_expired, int_lt, latency_reason, fresh_observation, verdict_is_available,
}

-- A node passes MatchesFilter exactly when it matches every condition of the filter.
pub matches_filter_lem :
    (lib : Library) (cs : List FilterCondition) (node : Node) (latest : Map String Observation)
    (as_of : ℕ)
    → (matches_filter lib cs node latest as_of ≡ none)
      ↔ ((c : FilterCondition) → In c cs → matches_condition lib c node latest as_of ≡ none)
unfolding matches_filter
matches_filter_lem lib [] node latest as_of = (λ h c i. absurd i, λ h. refl)
matches_filter_lem lib (c ∷ cs) node latest as_of =
    let (f, g) = matches_filter_lem lib cs node latest as_of in
    elim (Option-cases (matches_condition lib c node latest as_of)) [
      | inl e ↦ (
        λ h d i. elim i [
          | inl q ↦ ap (λ x. matches_condition lib x node latest as_of) q ∙ e
          | inr j ↦ f (ground (arith, h, e)) d j
        ],
        λ h. ground (arith, e, g (λ d j. h d (inr j))),
      )
      | inr (r, e) ↦
          (λ h. absurd (ground (arith, h, e)), λ h. absurd (ground (arith, h c (inl refl), e)))
    ]

after : {A B C : Type 0} → A ↔ B → B ↔ C → A ↔ C
after (f, g) (h, k) = (λ x. h (f x), λ z. g (k z))

match_name_cases :
    (re : Option Matcher) (text : List ℕ)
    → ((match_name (some op_regex) re text ≡ none) ↔ (evaluate re text ≡ some true))
      × ((match_name (some op_not_regex) re text ≡ none) ↔ (evaluate re text ≡ some false))
match_name_cases none text = ground arith
match_name_cases (some re) text = elim (Option-cases (match_regex re text)) [
  | inl e ↦ ground (arith, e)
  | inr (b, e) ↦ elim (Bool-cases b) [
    | inl f ↦ ground (arith, e ∙ ap some f)
    | inr f ↦ ground (arith, e ∙ ap some f)
  ]
]

-- A name condition with the operator regex matches exactly when an engine says that its expression is
-- found in the name, and with not_regex exactly when an engine says that it is not found: RE2, or
-- backtracking where RE2 cannot compile the expression. The expression is the value without the blanks
-- around it, of 1 to 1024 bytes, behind (?i) unless it starts with that, and the name has at most 4096
-- bytes; where an engine has no answer, the name matches under neither operator.
pub matches_condition-op_regex :
    (lib : Library) (c : FilterCondition) (node : Node) (latest : Map String Observation)
    (as_of : ℕ)
    → parse_filter_field c.field ≡ some display_name
    → (parse_filter_op c.op ≡ some op_regex
        → (matches_condition lib c node latest as_of ≡ none)
          ↔ Says lib (codes c.value) (codes node.name) true)
      × (parse_filter_op c.op ≡ some op_not_regex
          → (matches_condition lib c node latest as_of ≡ none)
            ↔ Says lib (codes c.value) (codes node.name) false)
unfolding matches_condition
matches_condition-op_regex lib c node latest as_of f =
    let (a, b) = match_name_cases (compile_filter_regex lib (codes c.value)) (codes node.name) in
    let said = evaluate_lem lib (codes c.value) (codes node.name) in
    (λ o. rw (f, o) (after a (said true)), λ o. rw (f, o) (after b (said false)))

-- The bound of a validated freshness keeps its number of nanoseconds below the limit of the machine.
is_expired-is_unbounded :
    (freshness : Option ℤ) (o : Observation) (as_of : ℕ)
    → is_unbounded freshness ≡ false
    → (is_expired freshness o as_of ≡ false)
      ↔ (as_of ≤ o.observed_at + freshness_of freshness * 1000000000)
unfolding is_expired
is_expired-is_unbounded none o as_of h = ground arith
is_expired-is_unbounded (some (pos n)) o as_of h = ground arith
is_expired-is_unbounded (some (negsuc n)) o as_of h = absurd cc

threshold_cases :
    (z : Option ℤ)
    → is_bad_threshold z ≡ false
    → (limit : ℕ) × (z ≡ some (pos limit)) × (limit ≤ 60000)
threshold_cases none h = absurd cc
threshold_cases (some (pos n)) h = (n, refl, ground arith)
threshold_cases (some (negsuc n)) h = absurd cc

kind_cases :
    (k : Option String)
    → is_some_kind k ≡ true
    → (kind : String) × (k ≡ some kind) × (kind_is_valid kind ≡ true)
kind_cases none h = absurd cc
kind_cases (some k) h = (k, refl, h)

known_failure-probe_latency_ms :
    (lib : Library) (c : FilterCondition) (op : Option FilterOp)
    → known_failure lib c (some probe_latency_ms) op ≡ none
    → (is_bad_threshold (parse_int (trim_space (codes c.value))) ≡ false)
      × (is_some_kind c.probe_kind ≡ true)
      × (is_unbounded c.freshness_seconds ≡ false)
known_failure-probe_latency_ms lib c none h = absurd cc
known_failure-probe_latency_ms lib c (some op) h =
    (ground (arith, h), ground (arith, h), ground (arith, h))

verdict_is_available_cases : (v : Verdict) → (verdict_is_available v ≡ true) ↔ (v ≡ available)
verdict_is_available_cases available = (λ h. refl, λ h. refl)
verdict_is_available_cases restricted = ground arith
verdict_is_available_cases unknown = ground arith
verdict_is_available_cases error = ground arith
verdict_is_available_cases stale = ground arith
verdict_is_available_cases (other_verdict x) = ground arith

-- The test of a fresh observation against a limit.
abbrev latency_test : ℕ → Observation → Option Reason
latency_test limit o =
    if verdict_is_available o.verdict
    then latency_reason (some (pos limit)) o.latency_ms
    else some latency_requires_available

latency_cases :
    (limit : ℕ) (o : Observation)
    → (latency_test limit o ≡ none)
      ↔ ((o.verdict ≡ available) × (int_lt (pos limit) o.latency_ms ≡ false))
latency_cases limit o =
    ground
      (arith, verdict_is_available_cases o.verdict, Bool-cases (int_lt (pos limit) o.latency_ms))

fresh_observation-none :
    (c : FilterCondition) (kind : String) (latest : Map String Observation) (as_of : ℕ)
    (test : Observation → Option Reason)
    → c.probe_kind ≡ some kind
    → is_unbounded c.freshness_seconds ≡ false
    → (fresh_observation c latest as_of test ≡ none) ↔ (
        (o : Observation) × (find String_discrete kind latest ≡ some o)
        × (as_of ≤ o.observed_at + freshness_of c.freshness_seconds * 1000000000)
        × (test o ≡ none))
fresh_observation-none c kind latest as_of test k b =
    elim (Option-cases (find String_discrete kind latest)) [
      | inl e ↦ rw (k, e) (λ h. absurd cc, λ x. absurd (ground (arith, x.1)))
      | inr (o, e) ↦
          let (u, w) = is_expired-is_unbounded c.freshness_seconds o as_of b in
          rw (k, e)
            (
              λ h. (o, refl, u (ground (arith, h)), ground (arith, h)),
              λ (p, q, r, z).
                  let j : o ≡ p = cc in
                  ground (
                    arith,
                    w (
                        subst
                          (λ y.
                            as_of ≤ y.observed_at + freshness_of c.freshness_seconds * 1000000000)
                          (sym j) r),
                    ap test j,
                    z,
                  ),
            )
    ]

-- A latency condition that Validate accepts and whose value has no blanks around it names a kind of
-- probe and has a decimal number of at most 60000 as its value, and matches a node exactly when the
-- latest observation of that kind is there, no older than the freshness, available, and of a latency
-- that is not above that number.
pub matches_condition-probe_latency_ms :
    (lib : Library) (c : FilterCondition)
    → condition_failure lib c ≡ none
    → parse_filter_field c.field ≡ some probe_latency_ms
    → trim_space (codes c.value) ≡ codes c.value
    → (kind : String) × (limit : ℕ) × (c.probe_kind ≡ some kind)
      × (kind_is_valid kind ≡ true)
      × IsNumeralOf limit (codes c.value)
      × (limit ≤ 60000)
      × ((node : Node) (latest : Map String Observation) (as_of : ℕ)
          → (matches_condition lib c node latest as_of ≡ none) ↔ (
              (o : Observation) × (find String_discrete kind latest ≡ some o)
              × (as_of ≤ o.observed_at + freshness_of c.freshness_seconds * 1000000000)
              × (o.verdict ≡ available)
              × (int_lt (pos limit) o.latency_ms ≡ false)))
unfolding matches_condition condition_failure
matches_condition-probe_latency_ms lib c v f t =
    let (bad, given, bounded) =
      known_failure-probe_latency_ms lib c (parse_filter_op c.op)
        (subst (λ x. known_failure lib c x (parse_filter_op c.op) ≡ none) f v) in
    let (limit, number, small) = threshold_cases (parse_int (trim_space (codes c.value))) bad in
    let (kind, named, valid) = kind_cases c.probe_kind given in
    (
      kind,
      limit,
      named,
      valid,
      parse_int_sound limit (codes c.value) (ap parse_int (sym t) ∙ number),
      small,
      λ node latest as_of.
          rw (f, ap parse_int (sym t) ∙ number)
            (let (u, w) =
                fresh_observation-none c kind latest as_of (latency_test limit) named bounded in
              (
                λ h.
                    let (o, p, q, z) = u h in
                    let (a, b) = (latency_cases limit o).0 z in (o, p, q, a, b),
                λ (o, p, q, a, b). w (o, p, q, (latency_cases limit o).1 (a, b)),
              )),
    )
