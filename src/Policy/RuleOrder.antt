-- ===== src/Policy/RuleOrder.antt =====
-- The order of the policy rules: what `ValidatePolicyRules` of internal/domain/policy.go accepts, and
-- the list that `resolveRules` of internal/resolver/graph.go returns.
use clash_sub_parser.Prelude.{
  ◌∙◌, sym, ℕ, zero, suc, ◌+◌, ◌≡◌, ◌⊎◌, inr, refl, subst, ap, String, Bool, true, false, not, List,
  [], ◌∷◌, ◌++◌, map, arith, length, count_if, get_elem?, filter_if, none, some,
}
use clash_sub_parser.Prelude.Int.{ℤ, pos}
use clash_sub_parser.Policy.Source.{Failure, ◌or_else◌}
use clash_sub_parser.Policy.Positions.{
  IsOrdered, stands_at, stands_at-sort_rules, sort_rules-IsOrdered,
}
use clash_sub_parser.Policy.Told.{
  told, to_tell, map-told-number_rules, map-told-filter_if, map-append,
}
use mathlib.Core.Path.{ap₂}
use clash_sub_parser.Policy.Rules.{
  PolicyRule, is_match_rule, sort_rules, rule_failure, rules_failure, match_indices, match_failure,
  validate_policy_rules, ResolvedRule, name_map, resolve_rule, number_rules, resolve_rules,
}

or_else-none : (a b : Failure) → (a or_else b) ≡ none → (a ≡ none) × (b ≡ none)
or_else-none none b h = (refl, h)
or_else-none (some e) b h = absurd cc

-- A place in the list of the places.
abbrev OccursAt : ℕ → List ℕ → Type 0
OccursAt i [] = ⊥
OccursAt i (j ∷ js) = (i ≡ j) ⊎ OccursAt i js

match_indices_lem :
    (k j : ℕ) (rs : List PolicyRule) (r : PolicyRule)
    → get_elem? rs j ≡ some r
    → is_match_rule r.expression ≡ true
    → OccursAt (k + j) (match_indices k rs)
unfolding match_indices
match_indices_lem k j [] r g m = absurd cc
match_indices_lem k zero (q ∷ rs) r g m =
    let e : q ≡ r = cc in ground (arith, ap (λ (x : PolicyRule). is_match_rule x.expression) e)
match_indices_lem k (suc j) (q ∷ rs) r g m = ground (arith, match_indices_lem (suc k) j rs r g m)

match_failure_lem :
    (size i : ℕ) (is : List ℕ) → match_failure true size is ≡ none → OccursAt i is → suc i ≡ size
unfolding match_failure
match_failure_lem size i [] h o = absurd o
match_failure_lem size i (j ∷ []) h o = ground arith
match_failure_lem size i (j ∷ k ∷ is) h o = absurd cc

-- The rule at a place passes the checks on one rule.
rules_failure_lem :
    (ids : List String) (rs : List PolicyRule) (i : ℕ) (r : PolicyRule)
    → rules_failure ids rs ≡ none
    → get_elem? rs i ≡ some r
    → rule_failure ids r ≡ none
unfolding rules_failure
rules_failure_lem ids [] i r h g = absurd cc
rules_failure_lem ids (q ∷ rs) zero r h g =
    let e : q ≡ r = cc in
    subst (λ x. rule_failure ids x ≡ none) e
      (or_else-none (rule_failure ids q) (rules_failure ids rs) h).0
rules_failure_lem ids (q ∷ rs) (suc i) r h g =
    rules_failure_lem ids rs i r (or_else-none (rule_failure ids q) (rules_failure ids rs) h).1 g

-- Where `ValidatePolicyRules` accepts the rules, each rule passes its own checks.
pub validate_policy_rules_each :
    (rules : List PolicyRule) (ids : List String) (terminal : Bool) (i : ℕ) (r : PolicyRule)
    → validate_policy_rules rules ids terminal ≡ none
    → get_elem? (sort_rules rules) i ≡ some r
    → rule_failure ids r ≡ none
unfolding validate_policy_rules
validate_policy_rules_each rules ids terminal i r h g =
    let sorted = sort_rules rules in
    rules_failure_lem ids sorted i r
      (or_else-none (rules_failure ids sorted)
        (match_failure terminal (length rules) (match_indices 0 sorted)) h).0
      g

-- Where `ValidatePolicyRules` accepts the rules with a required terminal rule, a rule that matches all
-- traffic is the last one in the order of the positions.
pub validate_policy_rules_terminal :
    (rules : List PolicyRule) (ids : List String) (i : ℕ) (r : PolicyRule)
    → validate_policy_rules rules ids true ≡ none
    → get_elem? (sort_rules rules) i ≡ some r
    → is_match_rule r.expression ≡ true
    → suc i ≡ length rules
unfolding validate_policy_rules
validate_policy_rules_terminal rules ids i r h g m =
    let sorted = sort_rules rules in
    let e : 0 + i ≡ i = omega arith in
    match_failure_lem (length rules) i (match_indices 0 sorted)
      (or_else-none (rules_failure ids sorted)
        (match_failure true (length rules) (match_indices 0 sorted)) h).1
      (subst (λ j. OccursAt j (match_indices 0 sorted)) e (match_indices_lem 0 i sorted r g m))

-- Rules that `number_rules` has numbered from `k` on.
abbrev pub IsNumbered : ℕ → List ResolvedRule → Type 0
IsNumbered k [] = Unit
IsNumbered k (r ∷ rs) = (r.position ≡ pos k) × IsNumbered (suc k) rs

-- Behind a terminal rule stand terminal rules only.
abbrev pub IsTerminalLast : List ResolvedRule → Type 0
IsTerminalLast [] = Unit
IsTerminalLast (r ∷ rs) =
    ((r.is_terminal ≡ false) ⊎ (count_if (λ q. not q.is_terminal) rs ≡ 0)) × IsTerminalLast rs

number_rules-IsNumbered : (k : ℕ) (rs : List ResolvedRule) → IsNumbered k (number_rules k rs)
unfolding number_rules
number_rules-IsNumbered k [] = tt
number_rules-IsNumbered k (r ∷ rs) = (refl, number_rules-IsNumbered (suc k) rs)

-- All rules of the list are terminal.
abbrev AllTerminal : List ResolvedRule → Type 0
AllTerminal rs = count_if (λ q. not q.is_terminal) rs ≡ 0

count_if-filter_terminal :
    (rs : List ResolvedRule) → AllTerminal (filter_if (λ r. r.is_terminal) rs)
count_if-filter_terminal [] = refl
count_if-filter_terminal (r ∷ rs) = ground (arith, count_if-filter_terminal rs)

AllTerminal-IsTerminalLast : (rs : List ResolvedRule) → AllTerminal rs → IsTerminalLast rs
AllTerminal-IsTerminalLast [] h = tt
AllTerminal-IsTerminalLast (r ∷ rs) h =
    (inr (omega arith), AllTerminal-IsTerminalLast rs (omega arith))

filter_if-IsTerminalLast :
    (rs ts : List ResolvedRule)
    → IsTerminalLast ts
    → IsTerminalLast (filter_if (λ r. not r.is_terminal) rs ++ ts)
filter_if-IsTerminalLast [] ts h = h
filter_if-IsTerminalLast (r ∷ rs) ts h = ground (arith, filter_if-IsTerminalLast rs ts h)

number_rules-count_terminal :
    (k : ℕ) (rs : List ResolvedRule)
    → count_if (λ q. not q.is_terminal) (number_rules k rs) ≡ count_if (λ q. not q.is_terminal) rs
unfolding number_rules
number_rules-count_terminal k [] = refl
number_rules-count_terminal k (r ∷ rs) = omega (arith, number_rules-count_terminal (suc k) rs)

number_rules-IsTerminalLast :
    (k : ℕ) (rs : List ResolvedRule) → IsTerminalLast rs → IsTerminalLast (number_rules k rs)
unfolding number_rules
number_rules-IsTerminalLast k [] h = tt
number_rules-IsTerminalLast k (r ∷ rs) h = (
  ground (arith, h.0, number_rules-count_terminal (suc k) rs),
  number_rules-IsTerminalLast (suc k) rs h.1,
)

-- The rules that `resolveRules` returns have the positions 0, 1, 2, ..., behind a terminal rule stand
-- terminal rules only, and they are the given rules: there is an ascending order of them that keeps
-- the order of the rules of each position, and the result has the ID, the target, its name and the
-- expression of those that do not match all traffic, in this order, and behind them of those that do; the
-- latter, and no others, are terminal.
pub resolve_rules_lem :
    (rules : List PolicyRule) (groups : List (String × String))
    → IsNumbered 0 (resolve_rules rules groups)
      × IsTerminalLast (resolve_rules rules groups)
      × ((ordered : List PolicyRule) × IsOrdered ordered
          × ((n : ℤ) → filter_if (stands_at n) ordered ≡ filter_if (stands_at n) rules)
          × (map told (resolve_rules rules groups)
              ≡ map (to_tell groups) (
                  filter_if (λ r. not (is_match_rule r.expression)) ordered
                  ++ filter_if (λ r. is_match_rule r.expression) ordered)))
unfolding resolve_rules
resolve_rules_lem rules groups =
    let resolved = map (resolve_rule (name_map groups [])) (sort_rules rules) in
    let front = filter_if (λ r. not r.is_terminal) resolved in
    let back = filter_if (λ r. r.is_terminal) resolved in
    (
      number_rules-IsNumbered 0 (front ++ back),
      number_rules-IsTerminalLast 0 (front ++ back) (
          filter_if-IsTerminalLast resolved back
            (AllTerminal-IsTerminalLast back (count_if-filter_terminal resolved))),
      (
        sort_rules rules,
        sort_rules-IsOrdered rules,
        λ n. stands_at-sort_rules n rules,
        map-told-number_rules 0 (front ++ back)
            ∙ map-append told front back
            ∙ ap₂ ◌++◌ (map-told-filter_if groups not (sort_rules rules))
                (map-told-filter_if groups (λ b. b) (sort_rules rules))
            ∙ sym (
                map-append (to_tell groups)
                  (filter_if (λ r. not (is_match_rule r.expression)) (sort_rules rules))
                  (filter_if (λ r. is_match_rule r.expression) (sort_rules rules))),
      ),
    )
