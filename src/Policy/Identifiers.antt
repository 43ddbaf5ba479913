-- ===== src/Policy/Identifiers.antt =====
-- The forms of identifiers of internal/domain/id.go.
use clash_sub_parser.Prelude.{
  ℕ, zero, suc, String, Bool, true, false, ◌||◌, ◌&&◌, List, [], ◌∷◌, if◌then◌else◌, leb, ◌==◌,
  length, take, drop, Option, none, some,
}
use clash_sub_parser.Prelude.Strings.{codes, same_codes}

is_hex : ℕ → Bool
is_hex c = leb b'0' c && leb c b'9' || (leb b'a' c && leb c b'f' || leb b'A' c && leb c b'F')

-- How many hexadecimal digits a text starts with.
hex_run : List ℕ → ℕ
unfolding is_hex
hex_run [] = 0
hex_run (c ∷ cs) = let rest = suc (hex_run cs) in if is_hex c then rest else 0

-- `n` hexadecimal digits, and what stands behind them.
hex_digits : ℕ → List ℕ → Option (List ℕ)
unfolding is_hex
hex_digits zero cs = some cs
hex_digits (suc n) [] = none
hex_digits (suc n) (c ∷ cs) = let rest = hex_digits n cs in if is_hex c then rest else none

-- One character of a set, and what stands behind it.
one_of : (ℕ → Bool) → List ℕ → Option (List ℕ)
one_of p [] = none
one_of p (c ∷ cs) = if p c then some cs else none

infixl 5 ◌>>=◌
abbrev ◌>>=◌ : Option (List ℕ) → (List ℕ → Option (List ℕ)) → Option (List ℕ)
none >>= f = none
some cs >>= f = f cs

abbrev is_dash : ℕ → Bool
is_dash c = c == b'-'

abbrev is_variant : ℕ → Bool
is_variant c = c == b'8' || (c == b'9' || (c == b'a' || (c == b'b' || (c == b'A' || c == b'B'))))

uuid_rest : List ℕ → Option (List ℕ)
unfolding hex_digits one_of
uuid_rest s = do
  s1 ← hex_digits 8 s
  s2 ← one_of is_dash s1
  s3 ← hex_digits 4 s2
  s4 ← one_of is_dash s3
  s5 ← one_of (λ c. c == b'7') s4
  s6 ← hex_digits 3 s5
  s7 ← one_of is_dash s6
  s8 ← one_of is_variant s7
  s9 ← hex_digits 3 s8
  s10 ← one_of is_dash s9
  hex_digits 12 s10

-- `uuidv7Regex` on code points
unfoldable pub is_uuid_v7 : List ℕ → Bool
unfolding uuid_rest
is_uuid_v7 s = elim (uuid_rest s) [ none ↦ false | some r ↦ elim r [ [] ↦ true | _ ∷ _ ↦ false ] ]

-- `IsValidUUIDv7`
unfoldable pub is_valid_uuid_v7 : String → Bool
unfolding is_uuid_v7
is_valid_uuid_v7 s = is_uuid_v7 (codes s)

all_hex : List ℕ → Bool
unfolding hex_run
all_hex cs = hex_run cs == length cs && (leb 16 (length cs) && leb (length cs) 64)

-- `logicalIDRegex`. The prefix has letters that are no digits, so it is never part of the digits.
unfoldable pub is_valid_logical_id : String → Bool
unfolding all_hex
is_valid_logical_id s =
    all_hex (codes s) || same_codes (take 5 (codes s)) (codes "node_") && all_hex (drop 5 (codes s))
