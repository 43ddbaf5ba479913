-- ===== src/Filters/Matching.antt =====
-- `MatchesCondition` and `MatchesFilter` of internal/domain/node_filter.go. Times are numbers of
-- nanoseconds; `Sub` does not reach its limit of 292 years.
pub mod Verdicts
pub mod Validated
use clash_sub_parser.Prelude.{
  ℕ, ◌*◌, ◌-◌, ◌%◌, String, Bool, true, false, not, ◌&&◌, ◌||◌, List, [], ◌∷◌, if◌then◌else◌, ltb,
  leb, any, Option, none, some, same, String_discrete,
}
use clash_sub_parser.Prelude.Int.{ℤ, pos, negsuc}
use clash_sub_parser.Prelude.Strings.{codes, same_codes, contains, trim_space}
use clash_sub_parser.Prelude.Maps.{Map, find}
use clash_sub_parser.Probing.Health.{
  Verdict, available, restricted, unknown, error, stale, other_verdict, Observation, is_positive,
}
use clash_sub_parser.Prelude.Numbers.{parse_int}
use clash_sub_parser.Filters.Regex.{Library, Matcher, compile_filter_regex, match_regex}
use clash_sub_parser.Filters.Conditions.{
  FilterField, display_name, protocol, source_subscriptions, probe_verdict, probe_latency_ms,
  FilterOp, op_contains, op_not_contains, op_regex, op_not_regex, op_equals, op_not_equals, op_lte,
  parse_filter_field, parse_filter_op, FilterCondition,
}

-- What a filter reads of a node, with the subscriptions it comes from.
pub record Node : Type 0 where
  pub name : String
  pub node_protocol : String
  pub subscription_ids : List String

-- Why a node is rejected.
pub data Reason : Type 0 where
  regex_is_invalid regex_match_failed name_differs protocol_differs source_differs : Reason
  missing_probe_kind no_observation observation_expired verdict_differs : Reason
  latency_requires_available threshold_is_invalid latency_above unknown_field : Reason

-- `z < w`
abbrev pub int_lt : ℤ → ℤ → Bool
int_lt (pos a) (pos b) = ltb a b
int_lt (pos a) (negsuc b) = false
int_lt (negsuc a) (pos b) = true
int_lt (negsuc a) (negsuc b) = ltb b a

-- `t.Sub(u)`
abbrev pub time_since : ℕ → ℕ → ℤ
time_since t u = if ltb t u then negsuc (u - t - 1) else pos (t - u)

-- A signed number of 64 bits.
abbrev wrap64 : ℕ → ℤ
wrap64 n =
    let m = n % 0x10000000000000000 in
    if ltb m 0x8000000000000000 then pos m else negsuc (0x10000000000000000 - m - 1)

-- How long an observation counts, in seconds.
abbrev pub freshness_of : Option ℤ → ℕ
freshness_of (some (pos n)) = if ltb 0 n then n else 86400
freshness_of _ = 86400

unfoldable pub is_expired : Option ℤ → Observation → ℕ → Bool
is_expired freshness o as_of =
    int_lt (wrap64 (freshness_of freshness * 1000000000)) (time_since as_of o.observed_at)

abbrev verdict_codes : Verdict → List ℕ
verdict_codes available = codes "available"
verdict_codes restricted = codes "restricted"
verdict_codes unknown = codes "unknown"
verdict_codes error = codes "error"
verdict_codes stale = codes "stale"
verdict_codes (other_verdict v) = codes v

-- An operator that asks for a match or for none, and one that asks for neither.
abbrev pub is_op : FilterOp → Option FilterOp → Bool
is_op op_contains (some op_contains) = true
is_op op_not_contains (some op_not_contains) = true
is_op op_regex (some op_regex) = true
is_op op_not_regex (some op_not_regex) = true
is_op op_equals (some op_equals) = true
is_op op_not_equals (some op_not_equals) = true
is_op op_lte (some op_lte) = true
is_op _ _ = false

-- The tests on a match that all fields share.
abbrev pub judge : FilterOp → FilterOp → Option FilterOp → Reason → Bool → Option Reason
judge wanted unwanted op r found =
    if is_op wanted op && not found
    then some r
    else if is_op unwanted op && found
    then some r
    else none

abbrev judge_regex : Option FilterOp → Option Bool → Option Reason
judge_regex op none = some regex_match_failed
judge_regex op (some found) = judge op_regex op_not_regex op name_differs found

-- A regular expression on a name.
abbrev pub match_name : Option FilterOp → Option Matcher → List ℕ → Option Reason
match_name op none name = some regex_is_invalid
match_name op (some re) name = judge_regex op (match_regex re name)

abbrev pub latency_reason : Option ℤ → ℤ → Option Reason
latency_reason none latency = some threshold_is_invalid
latency_reason (some limit) latency = if int_lt limit latency then some latency_above else none

abbrev pub verdict_is_available : Verdict → Bool
verdict_is_available available = true
verdict_is_available _ = false

-- The latest observation of the condition's kind, where it is fresh.
abbrev pub fresh_observation :
    FilterCondition → Map String Observation → ℕ → (Observation → Option Reason) → Option Reason
fresh_observation c latest as_of test = elim c.probe_kind [
  | none ↦ some missing_probe_kind
  | some kind ↦ elim (find String_discrete kind latest) [
    | none ↦ some no_observation
    | some o ↦
        let r = test o in
        if is_expired c.freshness_seconds o as_of then some observation_expired else r
  ]
]

module _ (lib : Library) where
  -- The cases of `MatchesCondition` by the field; no reason is a match.
  abbrev pub field_reason :
      Option FilterField
      → Option FilterOp
      → FilterCondition
      → Node
      → Map String Observation
      → ℕ
      → Option Reason
  field_reason (some display_name) op c node latest as_of =
      let by_regex = match_name op (compile_filter_regex lib (codes c.value)) (codes node.name) in
      let by_text =
        judge op_contains op_not_contains op name_differs
          (contains (lib.lower_case (codes node.name)) (lib.lower_case (codes c.value))) in
      if is_op op_regex op || is_op op_not_regex op then by_regex else by_text
  field_reason (some protocol) op c node latest as_of =
      judge op_equals op_not_equals op protocol_differs
        (lib.equal_fold (codes node.node_protocol) (codes c.value))
  field_reason (some source_subscriptions) op c node latest as_of =
      judge op_contains op_not_contains op source_differs
        (any (λ s. same s c.value) node.subscription_ids)
  field_reason (some probe_verdict) op c node latest as_of = fresh_observation c latest as_of (λ o.
      judge op_equals op_not_equals op verdict_differs
        (same_codes (verdict_codes o.verdict) (lib.lower_case (trim_space (codes c.value)))))
  field_reason (some probe_latency_ms) op c node latest as_of =
      fresh_observation c latest as_of (λ o.
        if verdict_is_available o.verdict
        then latency_reason (parse_int (codes c.value)) o.latency_ms
        else some latency_requires_available)
  field_reason none op c node latest as_of = some unknown_field

  -- `MatchesCondition`
  unfoldable pub matches_condition :
      FilterCondition → Node → Map String Observation → ℕ → Option Reason
  unfolding is_expired
  matches_condition c node latest as_of =
      field_reason (parse_filter_field c.field) (parse_filter_op c.op) c node latest as_of

  -- `MatchesFilter`
  unfoldable pub matches_filter :
      List FilterCondition → Node → Map String Observation → ℕ → Option Reason
  unfolding matches_condition
  matches_filter [] node latest as_of = none
  matches_filter (c ∷ cs) node latest as_of = elim (matches_condition c node latest as_of) [
    | some r ↦ some r
    | none ↦ matches_filter cs node latest as_of
  ]
