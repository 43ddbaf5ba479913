-- ===== src/Policy/Rules.antt =====
-- `IsMatchRule` and `ValidatePolicyRules` of internal/domain/policy.go, and `resolveRules` of
-- internal/resolver/graph.go.
use clash_sub_parser.Prelude.{
  ℕ, suc, ◌+◌, String, Bool, true, false, not, ◌||◌, ◌&&◌, List, [], ◌∷◌, ◌++◌, map, if◌then◌else◌,
  ltb, ◌==◌, length, any, filter_if, none, some, same, String_discrete,
}
use clash_sub_parser.Prelude.Strings.{is_blank, codes, to_upper, trim_space, same_codes, has_prefix}
use clash_sub_parser.Prelude.Int.{ℤ, pos, negsuc, is_negative}
use clash_sub_parser.Prelude.Maps.{Map, get, set}
use clash_sub_parser.Policy.Source.{
  Failure, refuse_if, ◌or_else◌, invalid_expression, invalid_position, target_group_not_found,
  invalid_match_rule_ordering,
}

pub record PolicyRule : Type 0 where
  pub id : String
  pub target_group_id : String
  pub expression : String
  pub position : ℤ

-- `IsMatchRule`
unfoldable pub is_match_rule : String → Bool
is_match_rule expr =
    let norm = to_upper (trim_space (codes expr)) in
    same_codes norm (codes "MATCH")
    || (has_prefix norm (codes "MATCH,")
        || (has_prefix norm (codes "MATCH ")
            || (same_codes norm (codes "FINAL")
                || (has_prefix norm (codes "FINAL,") || has_prefix norm (codes "FINAL ")))))

-- `a < b` on positions.
abbrev pub position_lt : ℤ → ℤ → Bool
position_lt (pos a) (pos b) = ltb a b
position_lt (pos a) (negsuc b) = false
position_lt (negsuc a) (pos b) = true
position_lt (negsuc a) (negsuc b) = ltb b a

-- A stable insertion: in front of the first rule that is not less.
unfoldable pub insert_rule : PolicyRule → List PolicyRule → List PolicyRule
insert_rule r [] = r ∷ []
insert_rule r (q ∷ qs) =
    if position_lt q.position r.position then q ∷ insert_rule r qs else r ∷ q ∷ qs

-- `sort.SliceStable` by position: every stable sort gives this list.
unfoldable pub sort_rules : List PolicyRule → List PolicyRule
unfolding insert_rule
sort_rules [] = []
sort_rules (r ∷ rs) = insert_rule r (sort_rules rs)

-- The checks on one rule, given the known group IDs.
unfoldable pub rule_failure : List String → PolicyRule → Failure
rule_failure ids r =
    refuse_if (is_blank r.expression) invalid_expression
    or_else refuse_if (is_negative r.position) invalid_position
    or_else refuse_if (ltb 0 (length ids) && not (any (same r.target_group_id) ids))
        target_group_not_found

unfoldable pub rules_failure : List String → List PolicyRule → Failure
unfolding rule_failure
rules_failure ids [] = none
rules_failure ids (r ∷ rs) = rule_failure ids r or_else rules_failure ids rs

-- `matchIndices`, counted from `i`.
unfoldable pub match_indices : ℕ → List PolicyRule → List ℕ
match_indices i [] = []
match_indices i (r ∷ rs) =
    let rest = match_indices (suc i) rs in if is_match_rule r.expression then i ∷ rest else rest

-- The constraints on the terminal rule.
unfoldable pub match_failure : Bool → ℕ → List ℕ → Failure
match_failure require_terminal size [] = none
match_failure require_terminal size (i ∷ []) =
    refuse_if (require_terminal && not (i + 1 == size)) invalid_match_rule_ordering
match_failure require_terminal size (i ∷ j ∷ rest) = some invalid_match_rule_ordering

-- `ValidatePolicyRules`. `ids` are the keys of `groupSet`.
unfoldable pub validate_policy_rules : List PolicyRule → List String → Bool → Failure
unfolding sort_rules rules_failure match_indices match_failure
validate_policy_rules rules ids require_terminal =
    let sorted = sort_rules rules in
    rules_failure ids sorted
    or_else match_failure require_terminal (length rules) (match_indices 0 sorted)

pub record ResolvedRule : Type 0 where
  pub id : String
  pub target_group_id : String
  pub target_group_name : String
  pub expression : String
  pub position : ℤ
  pub is_terminal : Bool

-- `groupNameMap`, from the pairs of ID and name of the groups.
unfoldable pub name_map : List (String × String) → Map String String → Map String String
name_map [] m = m
name_map ((id, name) ∷ groups) m = name_map groups (set String_discrete id name m)

unfoldable pub resolve_rule : Map String String → PolicyRule → ResolvedRule
unfolding is_match_rule
resolve_rule names r = record {
  id = r.id;
  target_group_id = r.target_group_id;
  target_group_name = get String_discrete "" r.target_group_id names;
  expression = r.expression;
  position = r.position;
  is_terminal = is_match_rule r.expression;
}

-- The rules get the positions from `i` on.
unfoldable pub number_rules : ℕ → List ResolvedRule → List ResolvedRule
number_rules i [] = []
number_rules i (r ∷ rs) = record r { position = pos i } ∷ number_rules (suc i) rs

-- `resolveRules`: the standard rules, and behind them the terminal ones.
unfoldable pub resolve_rules : List PolicyRule → List (String × String) → List ResolvedRule
unfolding sort_rules name_map resolve_rule number_rules
resolve_rules rules groups =
    let resolved = map (resolve_rule (name_map groups [])) (sort_rules rules) in
    number_rules 0
      (filter_if (λ r. not r.is_terminal) resolved ++ filter_if (λ r. r.is_terminal) resolved)
