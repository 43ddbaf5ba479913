-- ===== src/Policy/Told.antt =====
-- What the rules that `resolveRules` of internal/resolver/graph.go returns tell of the policy rules.
use clash_sub_parser.Prelude.{
  ℕ, suc, ◌≡◌, refl, ap, String, Bool, List, [], ◌∷◌, ◌++◌, map, filter_if, Bool-cases, inl, inr,
}
use mathlib.Core.Path.{ap₂}
use clash_sub_parser.Prelude.Maps.{get}
use clash_sub_parser.Policy.Rules.{
  PolicyRule, is_match_rule, ResolvedRule, name_map, resolve_rule, number_rules,
}
use clash_sub_parser.Policy.Positions.{last_name, get-name_map}

-- What a resolved rule tells, without its position.
abbrev pub Told : Type 0
Told = String × (String × (String × (String × Bool)))

abbrev pub told : ResolvedRule → Told
told r = (r.id, (r.target_group_id, (r.target_group_name, (r.expression, r.is_terminal))))

-- What is to be told of a rule: the name of the last group of its target, and whether it matches all.
abbrev pub to_tell : List (String × String) → PolicyRule → Told
to_tell groups r = (
  r.id,
  (
    r.target_group_id,
    (last_name groups r.target_group_id "", (r.expression, is_match_rule r.expression)),
  ),
)

pub map-told-number_rules :
    (k : ℕ) (rs : List ResolvedRule) → map told (number_rules k rs) ≡ map told rs
unfolding number_rules
map-told-number_rules k [] = refl
map-told-number_rules k (r ∷ rs) = ap (λ ts. told r ∷ ts) (map-told-number_rules (suc k) rs)

pub map-append :
    {A B : Type 0} (f : A → B) (xs ys : List A) → map f (xs ++ ys) ≡ map f xs ++ map f ys
map-append f [] ys = refl
map-append f (x ∷ xs) ys = ap (λ zs. f x ∷ zs) (map-append f xs ys)

told-resolve_rule :
    (groups : List (String × String)) (r : PolicyRule)
    → told (resolve_rule (name_map groups []) r) ≡ to_tell groups r
unfolding resolve_rule get
told-resolve_rule groups r =
    ap (λ n. (r.id, (r.target_group_id, (n, (r.expression, is_match_rule r.expression)))))
      (get-name_map groups [] r.target_group_id)

pub map-told-filter_if :
    (groups : List (String × String)) (p : Bool → Bool) (rs : List PolicyRule)
    → map told (filter_if (λ r. p r.is_terminal) (map (resolve_rule (name_map groups [])) rs))
      ≡ map (to_tell groups) (filter_if (λ r. p (is_match_rule r.expression)) rs)
unfolding resolve_rule
map-told-filter_if groups p [] = refl
map-told-filter_if groups p (r ∷ rs) = elim (Bool-cases (p (is_match_rule r.expression))) [
  | inl e ↦ rw e (ap₂ ◌∷◌ (told-resolve_rule groups r) (map-told-filter_if groups p rs))
  | inr e ↦ rw e (map-told-filter_if groups p rs)
]
