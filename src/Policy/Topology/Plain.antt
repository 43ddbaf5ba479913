-- ===== src/Policy/Topology/Plain.antt =====
-- `ValidatePolicyRules` of internal/domain/policy.go makes no error of the search for cycles.
use clash_sub_parser.Prelude.{
  ℕ, ◌+◌, ◌==◌, ltb, ◌&&◌, any, same, String, Bool, true, false, not, List, [], ◌∷◌, length, none,
  some,
}
use clash_sub_parser.Prelude.Strings.{is_blank}
use clash_sub_parser.Prelude.Int.{is_negative}
use clash_sub_parser.Policy.Source.{
  Failure, PolicyError, ◌or_else◌, refuse_if, cycle_detected, search_out_of_fuel,
  invalid_expression, invalid_position, target_group_not_found, invalid_match_rule_ordering,
}
use clash_sub_parser.Policy.Rules.{
  PolicyRule, sort_rules, rule_failure, rules_failure, match_indices, match_failure,
  validate_policy_rules,
}

-- A failure that the search does not make.
abbrev pub IsPlain : Failure → Type 0
IsPlain none = Unit
IsPlain (some (cycle_detected path)) = ⊥
IsPlain (some search_out_of_fuel) = ⊥
IsPlain (some _) = Unit

or_else-IsPlain : (a b : Failure) → IsPlain a → IsPlain b → IsPlain (a or_else b)
or_else-IsPlain none b p q = q
or_else-IsPlain (some e) b p q = p

refuse_if-IsPlain : (b : Bool) (e : PolicyError) → IsPlain (some e) → IsPlain (refuse_if b e)
refuse_if-IsPlain true e p = p
refuse_if-IsPlain false e p = tt

rule_failure-IsPlain : (ids : List String) (r : PolicyRule) → IsPlain (rule_failure ids r)
unfolding rule_failure
rule_failure-IsPlain ids r =
    checks (is_blank r.expression) (is_negative r.position)
      (ltb 0 (length ids) && not (any (same r.target_group_id) ids))
  where
    checks :
        (a b c : Bool)
        → IsPlain (
            refuse_if a invalid_expression
            or_else refuse_if b invalid_position
            or_else refuse_if c target_group_not_found)
    checks true b c = tt
    checks false true c = tt
    checks false false c = refuse_if-IsPlain c target_group_not_found tt

rules_failure-IsPlain : (ids : List String) (rs : List PolicyRule) → IsPlain (rules_failure ids rs)
unfolding rules_failure
rules_failure-IsPlain ids [] = tt
rules_failure-IsPlain ids (r ∷ rs) =
    or_else-IsPlain (rule_failure ids r) (rules_failure ids rs) (rule_failure-IsPlain ids r)
      (rules_failure-IsPlain ids rs)

match_failure-IsPlain :
    (terminal : Bool) (size : ℕ) (is : List ℕ) → IsPlain (match_failure terminal size is)
unfolding match_failure
match_failure-IsPlain terminal size [] = tt
match_failure-IsPlain terminal size (i ∷ []) =
    refuse_if-IsPlain (terminal && not (i + 1 == size)) invalid_match_rule_ordering tt
match_failure-IsPlain terminal size (i ∷ j ∷ is) = tt

pub validate_policy_rules-IsPlain :
    (rules : List PolicyRule) (ids : List String) (terminal : Bool)
    → IsPlain (validate_policy_rules rules ids terminal)
unfolding validate_policy_rules
validate_policy_rules-IsPlain rules ids terminal =
    or_else-IsPlain (rules_failure ids (sort_rules rules))
      (match_failure terminal (length rules) (match_indices 0 (sort_rules rules)))
      (rules_failure-IsPlain ids (sort_rules rules))
      (match_failure-IsPlain terminal (length rules) (match_indices 0 (sort_rules rules)))
