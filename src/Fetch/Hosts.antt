-- ===== src/Fetch/Hosts.antt =====
-- The forms of hosts in internal/fetch/policy.go, as lists of code points.
use clash_sub_parser.Prelude.{
  ℕ, Bool, true, false, not, ◌&&◌, ◌||◌, List, [], ◌∷◌, if◌then◌else◌, any, leb, ◌==◌, length, drop,
}
use clash_sub_parser.Prelude.Strings.{codes, contains, has_prefix, to_lower, trim_space}
use clash_sub_parser.Prelude.Numbers.{is_uint, is_hex_uint}

-- The list ends with the character.
abbrev pub ends_with : ℕ → List ℕ → Bool
ends_with d [] = false
ends_with d (c ∷ []) = c == d
ends_with d (c ∷ x ∷ cs) = ends_with d (x ∷ cs)

-- `strings.TrimSuffix(s, ".")`
abbrev trim_dot : List ℕ → List ℕ
trim_dot [] = []
trim_dot (c ∷ []) = if c == b'.' then [] else c ∷ []
trim_dot (c ∷ x ∷ cs) = c ∷ trim_dot (x ∷ cs)

abbrev add_first : ℕ → List (List ℕ) → List (List ℕ)
add_first c [] = (c ∷ []) ∷ []
add_first c (p ∷ ps) = (c ∷ p) ∷ ps

-- `strings.Split(s, ".")`
abbrev split_dots : List ℕ → List (List ℕ)
split_dots [] = [] ∷ []
split_dots (c ∷ cs) =
    let parts = split_dots cs in if c == b'.' then [] ∷ parts else add_first c parts

abbrev pub has_hex_prefix : List ℕ → Bool
has_hex_prefix p = has_prefix (to_lower p) (codes "0x")

abbrev normal_part : List ℕ → List ℕ
normal_part part = to_lower (trim_space part)

-- The part is a decimal or hexadecimal number.
abbrev is_numeric_part : List ℕ → Bool
is_numeric_part p = if has_hex_prefix p then is_hex_uint (drop 2 p) else is_uint p

abbrev has_leading_zero : List ℕ → Bool
has_leading_zero (c ∷ d ∷ cs) = c == b'0'
has_leading_zero _ = false

abbrev is_odd_part : List ℕ → Bool
is_odd_part p = has_hex_prefix p || has_leading_zero p

-- The tests on the parts between dots.
abbrev is_odd_dotted : List (List ℕ) → Bool
is_odd_dotted parts =
    not (any (λ p. not (is_numeric_part (normal_part p))) parts)
    && (leb (length parts) 3 || length parts == 4 && any (λ p. is_odd_part (normal_part p)) parts)

abbrev is_odd_number : List ℕ → Bool
is_odd_number clean =
    is_uint clean
    || has_hex_prefix clean && is_hex_uint (drop 2 clean)
    || contains clean (codes ".") && is_odd_dotted (split_dots clean)

abbrev pub is_empty : List ℕ → Bool
is_empty [] = true
is_empty (c ∷ cs) = false

-- `isObfuscatedIP`
unfoldable pub is_obfuscated_ip : List ℕ → Bool
is_obfuscated_ip host =
    let clean = trim_dot (trim_space host) in not (is_empty clean) && is_odd_number clean

-- The host is written as an IPv6 address that stands for one of four bytes.
unfoldable pub is_mapped_text : List ℕ → Bool
is_mapped_text host =
    contains (to_lower host) (codes "::ffff:") || contains (to_lower host) (codes ":ffff:")
