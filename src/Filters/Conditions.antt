-- ===== src/Filters/Conditions.antt =====
-- `FilterCondition.Validate` and `NodeFilterSpec.Validate` of internal/domain/node_filter.go.
use clash_sub_parser.Prelude.{
  ℕ, String, Bool, true, false, not, ◌&&◌, ◌||◌, List, [], ◌∷◌, if◌then◌else◌, ltb, ◌==◌, any,
  length, Option, none, some,
}
use clash_sub_parser.Prelude.Int.{ℤ, pos, negsuc}
use clash_sub_parser.Prelude.Numbers.{parse_int}
use clash_sub_parser.Prelude.Strings.{codes, same_codes, to_lower, trim_space}
use clash_sub_parser.Policy.Identifiers.{is_uuid_v7}
use clash_sub_parser.Probing.States.{kind_is_valid}
use clash_sub_parser.Filters.Regex.{Library, byte_length, compile_filter_regex}

pub data FilterField : Type 0 where
  display_name protocol source_subscriptions probe_verdict probe_latency_ms : FilterField

pub data FilterOp : Type 0 where
  op_contains op_not_contains op_regex op_not_regex op_equals op_not_equals op_lte : FilterOp

-- An entry of a table by its name.
abbrev parse_name : {A : Type 0} → List (String × A) → List ℕ → Option A
parse_name [] s = none
parse_name ((n, v) ∷ table) s = if same_codes s (codes n) then some v else parse_name table s

-- `ParseFilterField`
unfoldable pub parse_filter_field : String → Option FilterField
parse_filter_field s =
    parse_name
      (("display_name", display_name)
        ∷ ("protocol", protocol)
        ∷ ("source_subscription_ids", source_subscriptions)
        ∷ ("probe_verdict", probe_verdict)
        ∷ ("probe_latency_ms", probe_latency_ms)
        ∷ [])
      (to_lower (trim_space (codes s)))

-- `ParseFilterOp`
unfoldable pub parse_filter_op : String → Option FilterOp
parse_filter_op s =
    parse_name
      (("contains", op_contains)
        ∷ ("not_contains", op_not_contains)
        ∷ ("regex", op_regex)
        ∷ ("not_regex", op_not_regex)
        ∷ ("equals", op_equals)
        ∷ ("not_equals", op_not_equals)
        ∷ ("lte", op_lte)
        ∷ [])
      (to_lower (trim_space (codes s)))

pub record FilterCondition : Type 0 where
  pub field : String
  pub op : String
  pub value : String
  pub probe_kind : Option String
  pub freshness_seconds : Option ℤ

pub data FilterError : Type 0 where
  invalid_filter_field invalid_filter_op invalid_filter_value : FilterError
  invalid_probe_kind invalid_freshness_seconds too_many_conditions : FilterError

-- `ParseProtocol(s)` has no error.
unfoldable pub protocol_is_valid : List ℕ → Bool
protocol_is_valid s =
    any (λ p. same_codes (to_lower (trim_space s)) (codes p))
      ("socks" ∷ "ss" ∷ "vmess" ∷ "vless" ∷ "trojan" ∷ "hysteria2" ∷ "wireguard" ∷ "tuic" ∷ "http"
        ∷ "socks5" ∷ "anytls" ∷ [])

-- `ParseProbeVerdict(s)` has no error.
unfoldable pub verdict_is_valid : List ℕ → Bool
verdict_is_valid s =
    any (λ v. same_codes (to_lower (trim_space s)) (codes v))
      ("available" ∷ "restricted" ∷ "unknown" ∷ "error" ∷ "stale" ∷ [])

abbrev pub is_regex_op : FilterOp → Bool
is_regex_op op_regex = true
is_regex_op op_not_regex = true
is_regex_op _ = false

abbrev is_contains_op : FilterOp → Bool
is_contains_op op_contains = true
is_contains_op op_not_contains = true
is_contains_op _ = false

abbrev is_equals_op : FilterOp → Bool
is_equals_op op_equals = true
is_equals_op op_not_equals = true
is_equals_op _ = false

abbrev pub is_lte_op : FilterOp → Bool
is_lte_op op_lte = true
is_lte_op _ = false

abbrev pub is_given : {A : Type 0} → Option A → Bool
is_given none = false
is_given (some x) = true

-- The first test that fails gives the error.
abbrev first_failure : List (Bool × FilterError) → Option FilterError
first_failure [] = none
first_failure ((failed, e) ∷ tests) =
    let rest = first_failure tests in if failed then some e else rest

abbrev pub is_some_kind : Option String → Bool
is_some_kind none = false
is_some_kind (some k) = kind_is_valid k

-- The freshness is given and out of its bounds.
abbrev pub is_unbounded : Option ℤ → Bool
is_unbounded none = false
is_unbounded (some (pos n)) = ltb n 1 || ltb 604800 n
is_unbounded (some (negsuc n)) = true

-- The threshold of a latency is out of its bounds or no number.
abbrev pub is_bad_threshold : Option ℤ → Bool
is_bad_threshold none = true
is_bad_threshold (some (pos n)) = ltb 60000 n
is_bad_threshold (some (negsuc n)) = true

module _ (lib : Library) where
  abbrev regex_fails : FilterOp → List ℕ → Bool
  regex_fails op value = is_regex_op op && not (is_given (compile_filter_regex lib value))

  -- The cases of `Validate` by the field, on the trimmed value.
  abbrev pub field_failure :
      FilterField → FilterOp → List ℕ → Option String → Option ℤ → Option FilterError
  field_failure display_name op value kind freshness = first_failure (
      (not (is_contains_op op || is_regex_op op), invalid_filter_op)
      ∷ (byte_length value == 0, invalid_filter_value)
      ∷ (ltb (if is_regex_op op then 1024 else 255) (byte_length value), invalid_filter_value)
      ∷ (regex_fails op value, invalid_filter_value)
      ∷ (is_given kind, invalid_filter_field)
      ∷ (is_given freshness, invalid_filter_field)
      ∷ [])
  field_failure protocol op value kind freshness = first_failure (
      (not (is_equals_op op), invalid_filter_op)
      ∷ (not (protocol_is_valid value), invalid_filter_value)
      ∷ (is_given kind || is_given freshness, invalid_filter_field)
      ∷ [])
  field_failure source_subscriptions op value kind freshness = first_failure (
      (not (is_contains_op op), invalid_filter_op)
      ∷ (byte_length value == 0, invalid_filter_value)
      ∷ (not (is_uuid_v7 value), invalid_filter_value)
      ∷ (is_given kind || is_given freshness, invalid_filter_field)
      ∷ [])
  field_failure probe_verdict op value kind freshness = first_failure (
      (not (is_equals_op op), invalid_filter_op)
      ∷ (not (verdict_is_valid value), invalid_filter_value)
      ∷ (not (is_some_kind kind), invalid_probe_kind)
      ∷ (is_unbounded freshness, invalid_freshness_seconds)
      ∷ [])
  field_failure probe_latency_ms op value kind freshness = first_failure (
      (not (is_lte_op op), invalid_filter_op)
      ∷ (is_bad_threshold (parse_int value), invalid_filter_value)
      ∷ (not (is_some_kind kind), invalid_probe_kind)
      ∷ (is_unbounded freshness, invalid_freshness_seconds)
      ∷ [])

  abbrev pub known_failure :
      FilterCondition → Option FilterField → Option FilterOp → Option FilterError
  known_failure c none op = some invalid_filter_field
  known_failure c (some f) none = some invalid_filter_op
  known_failure c (some f) (some op) =
      field_failure f op (trim_space (codes c.value)) c.probe_kind c.freshness_seconds

  -- `FilterCondition.Validate`
  unfoldable pub condition_failure : FilterCondition → Option FilterError
  condition_failure c = known_failure c (parse_filter_field c.field) (parse_filter_op c.op)

  unfoldable pub conditions_failure : List FilterCondition → Option FilterError
  unfolding condition_failure
  conditions_failure [] = none
  conditions_failure (c ∷ cs) = elim (condition_failure c) [
    | some e ↦ some e
    | none ↦ conditions_failure cs
  ]

  -- `NodeFilterSpec.Validate`
  unfoldable pub spec_failure : List FilterCondition → Option FilterError
  unfolding conditions_failure
  spec_failure cs =
      let rest = conditions_failure cs in
      if ltb 32 (length cs) then some too_many_conditions else rest
