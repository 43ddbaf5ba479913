-- ===== src/Prelude/Strings.antt =====
-- Go's `strings` on the code points of a text. The letter cases are those that meet ASCII: beside the
-- ASCII letters only U+0131 and U+017F have an upper case in ASCII, and U+0130 and U+212A a lower case,
-- and all other characters stay outside ASCII. So a comparison with an ASCII text comes out as in Go.
use Prim.Native.Nat.{ℕ, ◌+◌, ◌-◌}
use Prim.Native.Char.{code}
use Prim.Native.String.{String}
use mathlib.Core.Path.{◌≡◌, refl}
use native.Mathlib.Omega.{arith}
use mathlib.Core.Bool.{Bool, true, false, ◌&&◌, ◌||◌}
use mathlib.Core.List.{List, [], ◌∷◌, map}
use clash_sub_parser.Prelude.Tests.{ltb, leb, ◌==◌, if◌then◌else◌}

abbrev pub codes : String → List ℕ
codes String.[] = []
codes (String.◌∷◌ c s) = code c ∷ codes s

-- `unicode.IsSpace`
abbrev pub is_space : ℕ → Bool
is_space c =
    leb 9 c && leb c 13
    || (c == 32
        || (c == 0x85
            || (c == 0xa0
                || (c == 0x1680
                    || (leb 0x2000 c && leb c 0x200a
                        || (c == 0x2028
                            || (c == 0x2029 || (c == 0x202f || (c == 0x205f || c == 0x3000)))))))))

unfoldable pub trim_left : List ℕ → List ℕ
trim_left [] = []
trim_left (c ∷ cs) = let rest = trim_left cs in if is_space c then rest else c ∷ cs

unfoldable pub trim_right : List ℕ → List ℕ
trim_right [] = []
trim_right (c ∷ cs) = elim (trim_right cs) [
  | [] ↦ if is_space c then [] else c ∷ []
  | d ∷ ds ↦ c ∷ d ∷ ds
]

-- `strings.TrimSpace`
unfoldable pub trim_space : List ℕ → List ℕ
unfolding trim_left trim_right
trim_space cs = trim_right (trim_left cs)

-- `strings.TrimSpace(s) == ""`
unfoldable pub is_blank : String → Bool
unfolding trim_space
is_blank s = elim (trim_space (codes s)) [ [] ↦ true | _ ∷ _ ↦ false ]

abbrev pub upper : ℕ → ℕ
upper c =
    if leb 97 c && leb c 122
    then c - 32
    else if c == 0x131
    then 73
    else if c == 0x17f
    then 83
    else c

abbrev pub lower : ℕ → ℕ
lower c =
    if leb 65 c && leb c 90
    then c + 32
    else if c == 0x130
    then 105
    else if c == 0x212a
    then 107
    else c

-- `strings.ToUpper` and `strings.ToLower`
abbrev pub to_upper : List ℕ → List ℕ
to_upper = map upper

abbrev pub to_lower : List ℕ → List ℕ
to_lower = map lower

abbrev pub same_codes : List ℕ → List ℕ → Bool
same_codes [] [] = true
same_codes (c ∷ cs) (d ∷ ds) = c == d && same_codes cs ds
same_codes _ _ = false

-- `strings.HasPrefix`
abbrev pub has_prefix : List ℕ → List ℕ → Bool
has_prefix cs [] = true
has_prefix [] (d ∷ ds) = false
has_prefix (c ∷ cs) (d ∷ ds) = c == d && has_prefix cs ds

-- `strings.Contains`
unfoldable pub contains : List ℕ → List ℕ → Bool
contains [] t = has_prefix [] t
contains (c ∷ cs) t = has_prefix (c ∷ cs) t || contains cs t

-- `s < t`, by the code points: UTF-8 keeps their order.
abbrev pub codes_lt : List ℕ → List ℕ → Bool
codes_lt [] [] = false
codes_lt [] (d ∷ ds) = true
codes_lt (c ∷ cs) [] = false
codes_lt (c ∷ cs) (d ∷ ds) = ltb c d || c == d && codes_lt cs ds

pub same_codes_self : (s : List ℕ) → same_codes s s ≡ true
same_codes_self [] = refl
same_codes_self (c ∷ s) = ground (arith, same_codes_self s)

pub eq_of_same_codes : (s t : List ℕ) → same_codes s t ≡ true → s ≡ t
eq_of_same_codes [] [] h = refl
eq_of_same_codes [] (d ∷ t) h = absurd cc
eq_of_same_codes (c ∷ s) [] h = absurd cc
eq_of_same_codes (c ∷ s) (d ∷ t) h = ground (arith, eq_of_same_codes s t)
