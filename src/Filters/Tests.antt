-- ===== src/Filters/Tests.antt =====
-- Concrete filters for internal/domain/node_filter.go.
use clash_sub_parser.Prelude.{
  ℕ, ◌≡◌, ◌≤◌, ◌+◌, ◌*◌, ◌↔◌, refl, sym, ap, ◌∙◌, ◌⊎◌, inl, inr, String, Bool, true, false, List,
  [], ◌∷◌, map, drop, length, if◌then◌else◌, ◌==◌, Option, none, some, arith, String_discrete,
}
use clash_sub_parser.Prelude.Int.{pos}
use clash_sub_parser.Prelude.Strings.{
  codes, same_codes, eq_of_same_codes, contains, has_prefix, to_lower,
}
use clash_sub_parser.Prelude.Maps.{Map, find}
use clash_sub_parser.Prelude.Members.{In}
use clash_sub_parser.Probing.States.{kind_is_valid}
use clash_sub_parser.Probing.Health.{Observation, available}
use clash_sub_parser.Filters.Regex.{Library, Store, Matcher, compile_filter_regex, compile_cached}
use clash_sub_parser.Prelude.Numbers.Numerals.{IsNumeralOf}
use clash_sub_parser.Filters.Regex.Engines.{Says}
use clash_sub_parser.Filters.Regex.Cached.{IsStore, compile_each, compile_each_lem}
use clash_sub_parser.Filters.Conditions.{
  FilterCondition, display_name, op_regex, op_not_regex, parse_filter_op, spec_failure,
}
use clash_sub_parser.Filters.Matching.{
  Node, matches_condition, matches_filter, freshness_of, int_lt,
}
use clash_sub_parser.Filters.Matching.Verdicts.{
  matches_condition-op_regex, matches_condition-probe_latency_ms,
}
use clash_sub_parser.Filters.Matching.Validated.{is_misconfigured, spec_failure-is_misconfigured}

-- Expressions without parentheses are searched for as they are.
abbrev plain_search : List ℕ → Option (List ℕ → Bool)
plain_search p =
    if contains p (codes "(h")
    then none
    else some (λ text. contains (to_lower text) (to_lower (drop 4 p)))

abbrev library : Library
library = record {
  compile_re2 = plain_search;
  compile_backtracking = λ p. none;
  lower_case = to_lower;
  equal_fold = λ s t. same_codes (to_lower s) (to_lower t);
}

-- A cache of one entry.
abbrev entry_of : List ℕ → Option (List ℕ × Matcher) → Option Matcher
entry_of k none = none
entry_of k (some (j, re)) = if same_codes j k then some re else none

abbrev one_entry : Store
one_entry = record {
  Cache = Option (List ℕ × Matcher);
  get = λ k c. (entry_of k c, c);
  add = λ k re c. some (k, re);
}

entry_of-some :
    (j k : List ℕ) (re added : Matcher)
    → entry_of j (some (k, added)) ≡ some re
    → (j ≡ k) × (re ≡ added)
entry_of-some j k re added h =
    let e : same_codes k j ≡ true = ground (arith, h) in
    (sym (eq_of_same_codes k j e), ground (arith, h, e))

one_entry-IsStore : IsStore one_entry
one_entry-IsStore = record {
  get_of_get = λ j k re c h. h;
  get_of_add = λ j k re added c h. inl (entry_of-some j k re added h);
}

compile_each_lem_example :
    compile_each library one_entry (codes "hk" ∷ codes " hk" ∷ codes "(hk" ∷ codes "hk" ∷ []) none
    ≡ map (compile_filter_regex library) (codes "hk" ∷ codes " hk" ∷ codes "(hk" ∷ codes "hk" ∷ [])
compile_each_lem_example =
    compile_each_lem library one_entry (codes "hk" ∷ codes " hk" ∷ codes "(hk" ∷ codes "hk" ∷ [])
      none one_entry-IsStore (λ k. refl)

abbrev by_name : String → String → FilterCondition
by_name o v = record {
  field = "display_name";
  op = o;
  value = v;
  probe_kind = none;
  freshness_seconds = none;
}

abbrev by_latency : FilterCondition
by_latency = record {
  field = "probe_latency_ms";
  op = "lte";
  value = "200";
  probe_kind = some "baseline";
  freshness_seconds = some (pos 60);
}

abbrev node : Node
node = record { name = "HK 01"; node_protocol = "ss"; subscription_ids = [] }

abbrev seen : Observation
seen = record {
  id = "o";
  kind = "baseline";
  verdict = available;
  observed_at = 100;
  latency_ms = pos 150;
  redacted_summary = "";
  connection_revision = none;
}

abbrev latest : Map String Observation
latest = ("baseline", seen) ∷ []

matches_filter_test :
    matches_filter library
      (by_name "regex" "hk" ∷ by_name "not_contains" "us" ∷ by_latency ∷ [])
      node
      latest
      200
    ≡ none
unfolding matches_filter clash_sub_parser.Filters.Conditions.parse_filter_field
    clash_sub_parser.Prelude.Strings.trim_space parse_filter_op compile_filter_regex contains
    clash_sub_parser.Filters.Regex.match_regex find String_discrete
    clash_sub_parser.Prelude.Numbers.parse_int
matches_filter_test = refl

matches_condition-op_regex_example :
    (parse_filter_op "not_regex" ≡ some op_regex
      → (matches_condition library (by_name "not_regex" "us") node latest 200 ≡ none)
        ↔ Says library (codes "us") (codes "HK 01") true)
    × (parse_filter_op "not_regex" ≡ some op_not_regex
        → (matches_condition library (by_name "not_regex" "us") node latest 200 ≡ none)
          ↔ Says library (codes "us") (codes "HK 01") false)
unfolding clash_sub_parser.Filters.Conditions.parse_filter_field
    clash_sub_parser.Prelude.Strings.trim_space
matches_condition-op_regex_example =
    matches_condition-op_regex library (by_name "not_regex" "us") node latest 200 refl

matches_condition-probe_latency_ms_example :
    (kind : String) × (limit : ℕ) × (some "baseline" ≡ some kind)
    × (kind_is_valid kind ≡ true)
    × IsNumeralOf limit (codes "200")
    × (limit ≤ 60000)
    × ((node : Node) (latest : Map String Observation) (as_of : ℕ)
        → (matches_condition library by_latency node latest as_of ≡ none) ↔ (
            (o : Observation) × (find String_discrete kind latest ≡ some o)
            × (as_of ≤ o.observed_at + freshness_of (some (pos 60)) * 1000000000)
            × (o.verdict ≡ available)
            × (int_lt (pos limit) o.latency_ms ≡ false)))
unfolding clash_sub_parser.Filters.Conditions.condition_failure
    clash_sub_parser.Filters.Conditions.parse_filter_field
    clash_sub_parser.Prelude.Strings.trim_space parse_filter_op
    clash_sub_parser.Prelude.Numbers.parse_int String_discrete
matches_condition-probe_latency_ms_example =
    matches_condition-probe_latency_ms library by_latency refl refl refl

spec_failure-is_misconfigured_example :
    (length (by_name "regex" "hk" ∷ by_latency ∷ []) ≤ 32)
    × ((c : FilterCondition) (node : Node) (latest : Map String Observation) (as_of : ℕ)
        → In c (by_name "regex" "hk" ∷ by_latency ∷ [])
        → is_misconfigured (matches_condition library c node latest as_of) ≡ false)
unfolding spec_failure clash_sub_parser.Filters.Conditions.parse_filter_field
    clash_sub_parser.Prelude.Strings.trim_space parse_filter_op compile_filter_regex contains
    clash_sub_parser.Prelude.Numbers.parse_int String_discrete
spec_failure-is_misconfigured_example =
    spec_failure-is_misconfigured library (by_name "regex" "hk" ∷ by_latency ∷ []) refl
