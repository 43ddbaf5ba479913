-- ===== src/Policy/Positions.antt =====
-- The order of the policy rules by position, and the names of their groups, of `resolveRules` in
-- internal/resolver/graph.go.
use clash_sub_parser.Prelude.{
  ◌≡◌, refl, String, Bool, true, false, ◌&&◌, ◌||◌, List, [], ◌∷◌, if◌then◌else◌, any, filter_if,
  arith, same, String_discrete, ap, ◌∙◌, if_cases,
}
use clash_sub_parser.Prelude.Int.{ℤ, pos, negsuc}
use clash_sub_parser.Prelude.Maps.{Map, get, set, get-set}
use clash_sub_parser.Probing.Health.{same_int}
use clash_sub_parser.Policy.Rules.{PolicyRule, position_lt, insert_rule, sort_rules, name_map}

-- A rule of this position
abbrev pub stands_at : ℤ → PolicyRule → Bool
stands_at n r = same_int r.position n

-- In ascending order of the positions
abbrev pub IsOrdered : List PolicyRule → Type 0
IsOrdered [] = Unit
IsOrdered (r ∷ rs) =
    (any (λ (q : PolicyRule). position_lt q.position r.position) rs ≡ false) × IsOrdered rs

position_lt_apart : (a b n : ℤ) → position_lt a b ≡ true → (same_int a n && same_int b n) ≡ false
position_lt_apart (pos a) (pos b) (pos n) h = ground arith
position_lt_apart (pos a) (pos b) (negsuc n) h = refl
position_lt_apart (pos a) (negsuc b) n h = absurd cc
position_lt_apart (negsuc a) (pos b) (pos n) h = refl
position_lt_apart (negsuc a) (pos b) (negsuc n) h = ground arith
position_lt_apart (negsuc a) (negsuc b) (pos n) h = refl
position_lt_apart (negsuc a) (negsuc b) (negsuc n) h = ground arith

stands_at-insert_rule :
    (n : ℤ) (r : PolicyRule) (rs : List PolicyRule)
    → filter_if (stands_at n) (insert_rule r rs) ≡ filter_if (stands_at n) (r ∷ rs)
unfolding insert_rule
stands_at-insert_rule n r [] = refl
stands_at-insert_rule n r (q ∷ rs) =
    ground (arith, stands_at-insert_rule n r rs, position_lt_apart q.position r.position n)

pub stands_at-sort_rules :
    (n : ℤ) (rs : List PolicyRule)
    → filter_if (stands_at n) (sort_rules rs) ≡ filter_if (stands_at n) rs
unfolding sort_rules
stands_at-sort_rules n [] = refl
stands_at-sort_rules n (r ∷ rs) =
    ground (arith, stands_at-insert_rule n r (sort_rules rs), stands_at-sort_rules n rs)

pub position_lt_asym : (a b : ℤ) → position_lt a b ≡ true → position_lt b a ≡ false
position_lt_asym (pos a) (pos b) h = ground arith
position_lt_asym (pos a) (negsuc b) h = absurd cc
position_lt_asym (negsuc a) (pos b) h = refl
position_lt_asym (negsuc a) (negsuc b) h = ground arith

pub not_below :
    (p b a : ℤ) → position_lt p b ≡ false → position_lt b a ≡ false → position_lt p a ≡ false
not_below (pos p) (pos b) (pos a) h k = ground arith
not_below (pos p) b (negsuc a) h k = refl
not_below (pos p) (negsuc b) (pos a) h k = absurd cc
not_below (negsuc p) (pos b) a h k = absurd cc
not_below (negsuc p) (negsuc b) (pos a) h k = absurd cc
not_below (negsuc p) (negsuc b) (negsuc a) h k = ground arith

any_below :
    (a b : ℤ) (rs : List PolicyRule)
    → position_lt b a ≡ false
    → any (λ (q : PolicyRule). position_lt q.position b) rs ≡ false
    → any (λ (q : PolicyRule). position_lt q.position a) rs ≡ false
any_below a b [] h k = refl
any_below a b (q ∷ rs) h k = ground (arith, any_below a b rs h, not_below q.position b a)

any-insert_rule :
    (p : PolicyRule → Bool) (r : PolicyRule) (rs : List PolicyRule)
    → any p (insert_rule r rs) ≡ (p r || any p rs)
unfolding insert_rule
any-insert_rule p r [] = refl
any-insert_rule p r (q ∷ rs) = ground (arith, any-insert_rule p r rs)

insert_rule-IsOrdered :
    (r : PolicyRule) (rs : List PolicyRule) → IsOrdered rs → IsOrdered (insert_rule r rs)
unfolding insert_rule
insert_rule-IsOrdered r [] h = (refl, tt)
insert_rule-IsOrdered r (q ∷ rs) (h, i) =
    if_cases IsOrdered (position_lt q.position r.position) _ _
      (λ l. (
        ground (
          arith,
          any-insert_rule (λ (x : PolicyRule). position_lt x.position q.position) r rs,
          position_lt_asym q.position r.position l,
        ),
        insert_rule-IsOrdered r rs i,
      ))
      (λ l. (ground (arith, l, any_below r.position q.position rs l h), (h, i)))

pub sort_rules-IsOrdered : (rs : List PolicyRule) → IsOrdered (sort_rules rs)
unfolding sort_rules
sort_rules-IsOrdered [] = tt
sort_rules-IsOrdered (r ∷ rs) = insert_rule-IsOrdered r (sort_rules rs) (sort_rules-IsOrdered rs)

-- The name of the last group of this ID
abbrev pub last_name : List (String × String) → String → String → String
last_name [] i name = name
last_name ((j, n) ∷ groups) i name = last_name groups i (if same j i then n else name)

pub get-name_map :
    (groups : List (String × String)) (m : Map String String) (i : String)
    → get String_discrete "" i (name_map groups m) ≡ last_name groups i (get String_discrete "" i m)
unfolding name_map
get-name_map [] m i = refl
get-name_map ((j, n) ∷ groups) m i =
    get-name_map groups (set String_discrete j n m) i
    ∙ ap (last_name groups i) (ground (arith, get-set String_discrete "" j i n m))
