-- ===== src/Fetch/Addresses/Public.antt =====
-- The addresses that internal/fetch/policy.go lets through.
use clash_sub_parser.Prelude.{
  ℕ, suc, ◌≡◌, ◌≤◌, ◌<◌, ◌+◌, ◌*◌, ◌/◌, ◌%◌, ◌↔◌, refl, ◌∙◌, Bool, true, false, not, ◌&&◌, ◌||◌,
  List, [], ◌∷◌, map, any, ◌++◌, if_cases, ◌==◌, ltb, leb, arith,
}
use clash_sub_parser.Fetch.Addresses.{
  Ip, v4, v6, Network, network4, network6, unwrap, blocked4, blocked6, default_blocked, agrees,
  contains_ip, is_special, validate_ip,
}
use native.Mathlib.Nat.{suc-mul, div-add-mod', le-div_iff_mul-le, div-lt_iff_lt-mul}

-- The number lies in one of the ranges of addresses, given by the first and the number of them.
abbrev pub in_ranges : List (ℕ × ℕ) → ℕ → Bool
in_ranges [] n = false
in_ranges ((start, size) ∷ ranges) n = leb start n && ltb n (start + size) || in_ranges ranges n

abbrev is_aligned : List (ℕ × ℕ) → Bool
is_aligned [] = true
is_aligned ((start, size) ∷ ranges) = ltb 0 size && start % size == 0 && is_aligned ranges

-- Where a network starts at a multiple of its size, the bits of its mask say that it has the address.
agrees_lem :
    (start size n : ℕ)
    → 0 < size
    → start % size ≡ 0
    → agrees start size n ≡ (leb start n && ltb n (start + size))
agrees_lem start size n p m = ground (arith, lower, upper, aligned)
  where
    aligned : start / size * size ≡ start
    aligned = omega (arith, div-add-mod' start size, m)

    lower : (start / size ≤ n / size) ↔ (start / size * size ≤ n)
    lower = le-div_iff_mul-le {k = size} {x = start / size} {y = n} p

    upper : (n / size < suc (start / size)) ↔ (n < start / size * size + size)
    upper = ground (
      arith,
      div-lt_iff_lt-mul {k = size} {x = n} {y = suc (start / size)} p,
      suc-mul (start / size) size,
    )

any4 :
    (ranges : List (ℕ × ℕ)) (n : ℕ)
    → is_aligned ranges ≡ true
    → any (λ b. contains_ip b (v4 n)) (map (λ (a, k). network4 a k) ranges) ≡ in_ranges ranges n
any4 [] n h = refl
any4 ((start, size) ∷ ranges) n h =
    let positive : 0 < size = ground (arith, h) in
    let aligned : start % size ≡ 0 = ground (arith, h) in
    ground (arith, agrees_lem start size n positive aligned, any4 ranges n (ground (arith, h)))

is_special-blocked4 : (n : ℕ) → is_special (v4 n) ≡ true → in_ranges blocked4 n ≡ true
is_special-blocked4 n h = ground arith

-- The network of addresses that stand for others is whole, and no other one lies in it.
abbrev is_apart : List (ℕ × ℕ) → Bool
is_apart [] = true
is_apart ((start, size) ∷ ranges) =
    (not (start / 0x100000000 == 0xffff) || start == 0xffff00000000 && size == 0x100000000)
    && is_apart ranges

any6 :
    (ranges : List (ℕ × ℕ)) (n : ℕ)
    → is_aligned ranges ≡ true
    → is_apart ranges ≡ true
    → (n / 0x100000000 == 0xffff) ≡ false
    → any (λ b. contains_ip b (v6 n)) (map (λ (a, k). network6 a k) ranges) ≡ in_ranges ranges n
any6 [] n h k u = refl
any6 ((start, size) ∷ ranges) n h k u =
    let positive : 0 < size = ground (arith, h) in
    let aligned : start % size ≡ 0 = ground (arith, h) in
    ground (
      arith,
      u,
      k,
      agrees_lem start size n positive aligned,
      any6 ranges n (ground (arith, h)) (ground (arith, k)) u,
    )

is_special-blocked6 : (n : ℕ) → is_special (v6 n) ≡ true → in_ranges blocked6 n ≡ true
is_special-blocked6 n h = ground arith

any-append : (p : Network → Bool) (xs ys : List Network) → any p (xs ++ ys) ≡ (any p xs || any p ys)
any-append p [] ys = refl
any-append p (x ∷ xs) ys = ground (arith, any-append p xs ys)

none4 :
    (ranges : List (ℕ × ℕ)) (n : ℕ)
    → any (λ b. contains_ip b (v6 n)) (map (λ (a, k). network4 a k) ranges) ≡ false
none4 [] n = refl
none4 (r ∷ ranges) n = none4 ranges n

none6 :
    (ranges : List (ℕ × ℕ)) (n : ℕ)
    → any (λ b. contains_ip b (v4 n)) (map (λ (a, k). network6 a k) ranges) ≡ false
none6 [] n = refl
none6 (r ∷ ranges) n = none6 ranges n

-- The address lies in a range of its width.
abbrev pub is_reserved : Ip → Bool
is_reserved (v4 n) = in_ranges blocked4 n
is_reserved (v6 n) = in_ranges blocked6 n

-- An address of 16 bytes that does not stand for one of 4.
abbrev IsPlain : Ip → Type 0
IsPlain (v4 n) = Unit
IsPlain (v6 n) = (n / 0x100000000 == 0xffff) ≡ false

unwrap-IsPlain : (ip : Ip) → IsPlain (unwrap ip)
unwrap-IsPlain (v4 n) = tt
unwrap-IsPlain (v6 n) = if_cases IsPlain (n / 0x100000000 == 0xffff) _ _ (λ h. tt) (λ h. h)

or_false : (b : Bool) → (b || false) ≡ b
or_false true = refl
or_false false = refl

covered :
    (special found reserved : Bool)
    → (special ≡ true → reserved ≡ true)
    → found ≡ reserved
    → (not special && not found) ≡ not reserved
covered special found reserved h e = ground (arith, h, e)

plain_lem :
    (ip : Ip)
    → IsPlain ip
    → (not (is_special ip) && not (any (λ b. contains_ip b ip) default_blocked))
      ≡ not (is_reserved ip)
plain_lem (v4 n) u = covered _ _ _ (is_special-blocked4 n) (
    any-append (λ b. contains_ip b (v4 n)) (map (λ (a, k). network4 a k) blocked4)
      (map (λ (a, k). network6 a k) blocked6)
    ∙ rw (any4 blocked4 n refl, none6 blocked6 n) (or_false _))
plain_lem (v6 n) u = covered _ _ _ (is_special-blocked6 n) (
    any-append (λ b. contains_ip b (v6 n)) (map (λ (a, k). network4 a k) blocked4)
      (map (λ (a, k). network6 a k) blocked6)
    ∙ rw (none4 blocked4 n) (any6 blocked6 n refl refl u))

-- With the default networks, ValidateIP accepts an address exactly when the address it stands for lies
-- in none of the reserved ranges, given by their first address and size.
pub validate_ip_lem : (ip : Ip) → validate_ip default_blocked ip ≡ not (is_reserved (unwrap ip))
unfolding validate_ip
validate_ip_lem ip = plain_lem (unwrap ip) (unwrap-IsPlain ip)
