-- ===== src/Fetch/Addresses.antt =====
-- `ValidateIP` of internal/fetch/policy.go with its blocked networks. An address of `net` has 4 or 16
-- bytes, and is here its number.
pub mod Public
use clash_sub_parser.Prelude.{
  ℕ, ◌+◌, ◌*◌, ◌/◌, ◌%◌, ◌-◌, Bool, true, false, not, ◌&&◌, ◌||◌, List, [], ◌∷◌, map, any, ◌++◌,
  if◌then◌else◌, ◌==◌, ltb, leb, Option, none, some,
}

pub data Ip : Type 0 where
  v4 : ℕ → Ip
  v6 : ℕ → Ip

-- `To4`: an address of 16 bytes that stands for one of 4 is unwrapped.
abbrev pub unwrap : Ip → Ip
unwrap (v4 n) = v4 n
unwrap (v6 n) = if n / 0x100000000 == 0xffff then v4 (n % 0x100000000) else v6 n

-- The number of four bytes.
abbrev pub dotted : ℕ → ℕ → ℕ → ℕ → ℕ
dotted a b c d = ((a * 256 + b) * 256 + c) * 256 + d

-- A number of 16 bytes that starts with these two or four.
abbrev pub leading16 : ℕ → ℕ
leading16 a = a * 0x10000000000000000000000000000

abbrev pub leading32 : ℕ → ℕ
leading32 a = a * 0x1000000000000000000000000

-- A network: its first address, and how many addresses it has (2 to the bits that are not masked).
pub data Network : Type 0 where
  network4 : ℕ → ℕ → Network
  network6 : ℕ → ℕ → Network

-- `defaultBlockedCIDRs`
abbrev pub blocked4 : List (ℕ × ℕ)
blocked4 =
    (dotted 0 0 0 0, 0x1000000)
    ∷ (dotted 10 0 0 0, 0x1000000)
    ∷ (dotted 100 64 0 0, 0x400000)
    ∷ (dotted 127 0 0 0, 0x1000000)
    ∷ (dotted 169 254 0 0, 0x10000)
    ∷ (dotted 172 16 0 0, 0x100000)
    ∷ (dotted 192 0 0 0, 0x100)
    ∷ (dotted 192 0 2 0, 0x100)
    ∷ (dotted 192 88 99 0, 0x100)
    ∷ (dotted 192 168 0 0, 0x10000)
    ∷ (dotted 198 18 0 0, 0x20000)
    ∷ (dotted 198 51 100 0, 0x100)
    ∷ (dotted 203 0 113 0, 0x100)
    ∷ (dotted 224 0 0 0, 0x10000000)
    ∷ (dotted 240 0 0 0, 0x10000000)
    ∷ (dotted 255 255 255 255, 1)
    ∷ []

abbrev pub blocked6 : List (ℕ × ℕ)
blocked6 =
    (0, 1)
    ∷ (1, 1)
    ∷ (0xffff00000000, 0x100000000)
    ∷ (leading32 0x64ff9b, 0x100000000)
    ∷ (leading16 0x100, 0x10000000000000000)
    ∷ (leading16 0x2001, 0x200000000000000000000000000)
    ∷ (leading32 0x20010db8, 0x1000000000000000000000000)
    ∷ (leading16 0x2002, 0x10000000000000000000000000000)
    ∷ (leading16 0xfc00, 0x2000000000000000000000000000000)
    ∷ (leading16 0xfe80, 0x400000000000000000000000000000)
    ∷ (leading16 0xff00, 0x1000000000000000000000000000000)
    ∷ []

-- The networks that `DefaultPolicy` parses from the texts.
abbrev pub default_blocked : List Network
default_blocked = map (λ (a, n). network4 a n) blocked4 ++ map (λ (a, n). network6 a n) blocked6

-- `Contains`, on addresses of one width: the bits of the mask agree.
abbrev pub agrees : ℕ → ℕ → ℕ → Bool
agrees start size n = n / size == start / size

-- `Contains` of an address that is not unwrapped any further.
abbrev pub contains_ip : Network → Ip → Bool
contains_ip (network4 start size) (v4 n) = agrees start size n
contains_ip (network6 start size) (v6 n) =
    if start / 0x100000000 == 0xffff then false else agrees start size n
contains_ip _ _ = false

-- `IsLoopback`, `IsPrivate`, `IsLinkLocalUnicast`, `IsLinkLocalMulticast`, `IsMulticast` and
-- `IsUnspecified` of `net`, on the first bytes.
abbrev pub is_special : Ip → Bool
is_special (v4 n) =
    n / 0x1000000 == 127
    || (n / 0x1000000 == 10 || (n / 0x100000 == 172 * 16 + 1 || n / 0x10000 == 192 * 256 + 168))
    || (n / 0x10000 == 169 * 256 + 254
        || (n / 0x100 == 224 * 0x10000 || (n / 0x10000000 == 14 || n == 0)))
is_special (v6 n) =
    n == 1
    || n / 0x2000000000000000000000000000000 == 0x7e
    || (n / 0x400000000000000000000000000000 == 0x3fa
        || (n / 0x1000000000000000000000000000000 == 0xff
              && n / 0x10000000000000000000000000000 % 16 == 2
            || (n / 0x1000000000000000000000000000000 == 0xff || n == 0)))

-- `ValidateIP` of an address that is there: whether it returns nil. Networks of the other width are
-- skipped for an IPv4 address; for an IPv6 address `checkIP` is `ip`.
unfoldable pub validate_ip : List Network → Ip → Bool
validate_ip blocked ip =
    not (is_special (unwrap ip)) && not (any (λ b. contains_ip b (unwrap ip)) blocked)
