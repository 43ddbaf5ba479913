-- ===== src/Prelude/Numbers/Numerals.antt =====
-- The texts that `strconv.ParseInt` reads as numbers that are not negative.
use clash_sub_parser.Prelude.{
  ℕ, zero, suc, ◌+◌, ◌*◌, ◌-◌, ◌<◌, ◌≡◌, ◌⊎◌, inl, inr, false, not, List, [], ◌∷◌, ◌==◌, Option,
  none, some, any, length, arith, Bool-cases, leb, ◌&&◌,
}
use clash_sub_parser.Prelude.Int.{pos}
use clash_sub_parser.Prelude.Numbers.{parse_digits, parse_number, to_pos, to_neg, parse_int}

-- The number that decimal digits spell behind `n`, with no bound.
abbrev pub value : ℕ → List ℕ → ℕ
value n [] = n
value n (c ∷ cs) = value (n * 10 + (c - b'0')) cs

-- One digit or more, and the number that they spell.
pub record AreDigitsOf (n : ℕ) (cs : List ℕ) : Type 0 where
  pub some_digit : 0 < length cs
  pub only_digits : any (λ c. not (leb b'0' c && leb c b'9')) cs ≡ false
  pub spelled : n ≡ value 0 cs

-- A text of digits that may have a sign in front; behind a minus stands 0.
abbrev pub IsNumeralOf : ℕ → List ℕ → Type 0
IsNumeralOf n cs =
    AreDigitsOf n cs
    ⊎ ((ds : List ℕ) × (cs ≡ b'+' ∷ ds) × AreDigitsOf n ds)
    ⊎ ((ds : List ℕ) × (cs ≡ b'-' ∷ ds) × AreDigitsOf n ds × (n ≡ 0))

parse_digits_sound :
    (k n : ℕ) (cs : List ℕ)
    → parse_digits k cs ≡ some n
    → (any (λ c. not (leb b'0' c && leb c b'9')) cs ≡ false) × (n ≡ value k cs)
parse_digits_sound k n [] h = ground arith
parse_digits_sound k n (c ∷ cs) h = ground (arith, parse_digits_sound (k * 10 + (c - b'0')) n cs)

parse_number_sound : (n : ℕ) (cs : List ℕ) → parse_number cs ≡ some n → AreDigitsOf n cs
parse_number_sound n [] h = absurd cc
parse_number_sound n (c ∷ cs) h =
    let (only, e) = parse_digits_sound 0 n (c ∷ cs) h in
    record { some_digit = omega arith; only_digits = only; spelled = e }

to_pos_sound : (o : Option ℕ) (n : ℕ) → to_pos o ≡ some (pos n) → o ≡ some n
to_pos_sound none n h = absurd cc
to_pos_sound (some m) n h = ground arith

to_neg_sound : (o : Option ℕ) (n : ℕ) → to_neg o ≡ some (pos n) → (o ≡ some n) × (n ≡ 0)
to_neg_sound none n h = absurd cc
to_neg_sound (some zero) n h = ground arith
to_neg_sound (some (suc m)) n h = absurd (ground arith)

-- What `strconv.ParseInt` reads as a number spells it.
pub parse_int_sound : (n : ℕ) (cs : List ℕ) → parse_int cs ≡ some (pos n) → IsNumeralOf n cs
unfolding parse_int
parse_int_sound n [] h = absurd cc
parse_int_sound n (c ∷ cs) h = elim (Bool-cases (c == b'+')) [
  | inl p ↦
      inr (inl (cs, ground (arith, p), parse_number_sound n cs (to_pos_sound _ n (rw p at h))))
  | inr p ↦ elim (Bool-cases (c == b'-')) [
    | inl m ↦
        let (e, z) = to_neg_sound (parse_number cs) n (rw (p, m) at h) in
        inr (inr (cs, ground (arith, m), parse_number_sound n cs e, z))
    | inr m ↦ inl (parse_number_sound n (c ∷ cs) (to_pos_sound _ n (rw (p, m) at h)))
  ]
]
