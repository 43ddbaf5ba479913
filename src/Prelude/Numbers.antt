-- ===== src/Prelude/Numbers.antt =====
-- Numbers in texts, as `strconv` reads and `fmt` writes them.
pub mod Numerals
use clash_sub_parser.Prelude.{
  ℕ, zero, suc, ◌+◌, ◌*◌, ◌-◌, ◌/◌, ◌%◌, Bool, false, ◌&&◌, List, [], ◌∷◌, ◌++◌, if◌then◌else◌, ltb,
  leb, ◌==◌, Option, none, some,
}
use clash_sub_parser.Prelude.Int.{ℤ, pos, negsuc}

abbrev pub is_digit : ℕ → Bool
is_digit c = leb b'0' c && leb c b'9'

-- The number that the digits add to `n`.
abbrev parse_digits : ℕ → List ℕ → Option ℕ
parse_digits n [] = some n
parse_digits n (c ∷ cs) =
    let rest = parse_digits (n * 10 + (c - b'0')) cs in if is_digit c then rest else none

abbrev parse_number : List ℕ → Option ℕ
parse_number [] = none
parse_number (c ∷ cs) = parse_digits 0 (c ∷ cs)

-- A magnitude as a number of 64 bits that is not negative, and as a negative one.
abbrev to_pos : Option ℕ → Option ℤ
to_pos none = none
to_pos (some n) = if ltb n 0x8000000000000000 then some (pos n) else none

abbrev to_neg : Option ℕ → Option ℤ
to_neg none = none
to_neg (some zero) = some (pos 0)
to_neg (some (suc n)) = if ltb n 0x8000000000000000 then some (negsuc n) else none

-- `strconv.ParseInt(s, 10, 64)`
unfoldable pub parse_int : List ℕ → Option ℤ
parse_int [] = none
parse_int (c ∷ cs) =
    if c == b'+'
    then to_pos (parse_number cs)
    else if c == b'-'
    then to_neg (parse_number cs)
    else to_pos (parse_number (c ∷ cs))

-- The value of a hexadecimal digit.
abbrev hex_value : ℕ → Option ℕ
hex_value c =
    if is_digit c
    then some (c - b'0')
    else if leb b'a' c && leb c b'f'
    then some (c - b'a' + 10)
    else if leb b'A' c && leb c b'F'
    then some (c - b'A' + 10)
    else none

abbrev parse_hex : ℕ → List ℕ → Option ℕ
parse_hex n [] = some n
parse_hex n (c ∷ cs) = elim (hex_value c) [ none ↦ none | some d ↦ parse_hex (n * 16 + d) cs ]

abbrev fits64 : Option ℕ → Bool
fits64 none = false
fits64 (some n) = ltb n 0x10000000000000000

-- `strconv.ParseUint(s, 10, 64)` and `strconv.ParseUint(s, 16, 64)` have no error.
unfoldable pub is_uint : List ℕ → Bool
is_uint cs = fits64 (parse_number cs)

unfoldable pub is_hex_uint : List ℕ → Bool
is_hex_uint [] = false
is_hex_uint (c ∷ cs) = fits64 (parse_hex 0 (c ∷ cs))

-- The last `fuel` digits of a number, without leading zeros.
abbrev pub decimal : ℕ → ℕ → List ℕ
decimal zero n = []
decimal (suc fuel) n =
    let rest = decimal fuel (n / 10) in
    if ltb n 10 then (b'0' + n) ∷ [] else rest ++ ((b'0' + n % 10) ∷ [])
