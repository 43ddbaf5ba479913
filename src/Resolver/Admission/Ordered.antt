-- ===== src/Resolver/Admission/Ordered.antt =====
-- The exchange of the rules by position of internal/resolver/admission.go sorts them.
use clash_sub_parser.Prelude.{
  ℕ, zero, suc, ◌≤◌, ◌≡◌, refl, ap, Bool, true, false, ◌||◌, List, [], ◌∷◌, any, count_if,
  any-count_if, length, if◌then◌else◌, Bool-cases, inl, inr, arith,
}
use clash_sub_parser.Prelude.Int.{ℤ, pos, negsuc}
use clash_sub_parser.Policy.Rules.{position_lt}
use clash_sub_parser.Policy.Positions.{not_below, position_lt_asym}
use clash_sub_parser.Resolver.Admission.{AdmissionRule, bring_first, exchange_rules}

abbrev is_below : ℤ → AdmissionRule → Bool
is_below n r = position_lt r.position n

-- In ascending order of the positions
abbrev pub IsAscending : List AdmissionRule → Type 0
IsAscending [] = Unit
IsAscending (r ∷ rs) =
    (any (λ (q : AdmissionRule). position_lt q.position r.position) rs ≡ false) × IsAscending rs

position_lt_self : (a : ℤ) → position_lt a a ≡ false
position_lt_self (pos n) = ground arith
position_lt_self (negsuc n) = ground arith

length-bring_first :
    (x : AdmissionRule) (ys : List AdmissionRule) → length (bring_first x ys).1 ≡ length ys
length-bring_first x [] = refl
length-bring_first x (y ∷ ys) =
    ap suc (length-bring_first (if position_lt y.position x.position then y else x) ys)

count_if-bring_first :
    (p : AdmissionRule → Bool) (x : AdmissionRule) (ys : List AdmissionRule)
    → count_if p ((bring_first x ys).0 ∷ (bring_first x ys).1) ≡ count_if p (x ∷ ys)
count_if-bring_first p x [] = refl
count_if-bring_first p x (y ∷ ys) = elim (Bool-cases (position_lt y.position x.position)) [
  | inl e ↦ rw e (omega (arith, count_if-bring_first p y ys))
  | inr e ↦ rw e (omega (arith, count_if-bring_first p x ys))
]

-- What comes first is not above `x`, and nothing of the rest is below it.
abbrev IsLeast : AdmissionRule → AdmissionRule × List AdmissionRule → Type 0
IsLeast x (first, rest) =
    (position_lt x.position first.position ≡ false) × (any (is_below first.position) rest ≡ false)

or_false : (a b : Bool) → a ≡ false → b ≡ false → (a || b) ≡ false
or_false a b h k = ground arith

bring_first_step :
    (x y : AdmissionRule) (ys : List AdmissionRule) (b : Bool)
    → position_lt y.position x.position ≡ b
    → IsLeast y (bring_first y ys)
    → IsLeast x (bring_first x ys)
    → IsLeast x (
      (bring_first (if b then y else x) ys).0,
      (if b then x else y) ∷ (bring_first (if b then y else x) ys).1,
    )
bring_first_step x y ys true e (f, g) _ =
    let above =
      not_below x.position y.position (bring_first y ys).0.position
        (position_lt_asym y.position x.position e) f in
    (above, or_false _ _ above g)
bring_first_step x y ys false e _ (f, g) =
    (f, or_false _ _ (not_below y.position x.position (bring_first x ys).0.position e f) g)

bring_first-IsLeast : (x : AdmissionRule) (ys : List AdmissionRule) → IsLeast x (bring_first x ys)
bring_first-IsLeast x [] = (position_lt_self x.position, refl)
bring_first-IsLeast x (y ∷ ys) =
    bring_first_step x y ys (position_lt y.position x.position) refl (bring_first-IsLeast y ys)
      (bring_first-IsLeast x ys)

pub count_if-exchange_rules :
    (p : AdmissionRule → Bool) (n : ℕ) (rs : List AdmissionRule)
    → count_if p (exchange_rules n rs) ≡ count_if p rs
unfolding exchange_rules
count_if-exchange_rules p zero rs = refl
count_if-exchange_rules p (suc n) [] = refl
count_if-exchange_rules p (suc n) (r ∷ rs) =
    omega (arith, count_if-exchange_rules p n (bring_first r rs).1, count_if-bring_first p r rs)

any_of_count_if :
    {A : Type 0} (p : A → Bool) (xs ys : List A)
    → count_if p xs ≡ count_if p ys
    → any p ys ≡ false
    → any p xs ≡ false
any_of_count_if p xs ys e h = ground (arith, any-count_if p xs, any-count_if p ys)

pub exchange_rules-IsAscending :
    (n : ℕ) (rs : List AdmissionRule) → length rs ≤ n → IsAscending (exchange_rules n rs)
unfolding exchange_rules
exchange_rules-IsAscending zero [] h = tt
exchange_rules-IsAscending zero (r ∷ rs) h = absurd (omega arith)
exchange_rules-IsAscending (suc n) [] h = tt
exchange_rules-IsAscending (suc n) (r ∷ rs) h =
    let (f, g) = bring_first-IsLeast r rs in
    (
      any_of_count_if (is_below (bring_first r rs).0.position)
          (exchange_rules n (bring_first r rs).1) (bring_first r rs).1
          (count_if-exchange_rules (is_below (bring_first r rs).0.position) n (bring_first r rs).1)
          g,
      exchange_rules-IsAscending n (bring_first r rs).1 (omega (arith, length-bring_first r rs)),
    )
