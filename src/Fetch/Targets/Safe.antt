-- ===== src/Fetch/Targets/Safe.antt =====
-- Where a host that internal/fetch/policy.go accepts leads to.
use clash_sub_parser.Prelude.{
  ℕ, ◌≡◌, ◌<◌, inl, inr, refl, ap, ◌∙◌, true, false, not, List, [], ◌∷◌, length, Option, none, some,
  Option-cases, Bool-cases, arith,
}
use clash_sub_parser.Prelude.Strings.{trim_space}
use clash_sub_parser.Prelude.Members.{In, In-any}
use clash_sub_parser.Fetch.Addresses.{Ip, default_blocked, validate_ip, unwrap}
use clash_sub_parser.Fetch.Addresses.Public.{is_reserved, validate_ip_lem}
use clash_sub_parser.Fetch.Targets.{
  Net, Url, FetchPolicy, FetchError, is_host_allowed, is_scheme_allowed, host_failure, url_failure,
  addresses_failure, validate_target, ssrf_blocked, dns_resolution_failed,
}

-- The addresses that a host stands for.
abbrev pub addresses_of : Net → List ℕ → Option (List Ip)
addresses_of net host = elim (net.parse_ip host) [
  | some ip ↦ some (ip ∷ [])
  | none ↦ net.look_up host
]

-- There are addresses, and none of them is reserved.
abbrev pub IsPublic : Net → List ℕ → Type 0
IsPublic net host =
    (ips : List Ip) × (addresses_of net host ≡ some ips)
    × (0 < length ips)
    × ((ip : Ip) → In ip ips → is_reserved (unwrap ip) ≡ false)

valid_reserved : (ip : Ip) → validate_ip default_blocked ip ≡ true → is_reserved (unwrap ip) ≡ false
valid_reserved ip h = ground (arith, validate_ip_lem ip, h)

addresses_failure_cases :
    (net : Net) (p : FetchPolicy) (a b : FetchError) (found : Option (List Ip))
    → p.blocked ≡ default_blocked
    → addresses_failure net p a b found ≡ none
    → (ips : List Ip) × (found ≡ some ips)
      × (0 < length ips)
      × ((ip : Ip) → In ip ips → is_reserved (unwrap ip) ≡ false)
addresses_failure_cases net p a b none d h = absurd cc
addresses_failure_cases net p a b (some []) d h = absurd cc
addresses_failure_cases net p a b (some (i ∷ is)) d h = (
  i ∷ is,
  refl,
  omega arith,
  λ ip m. elim (Bool-cases (validate_ip default_blocked ip)) [
    | inl e ↦ valid_reserved ip e
    | inr e ↦ absurd (
        ground (
          arith,
          h,
          In-any (λ x. not (validate_ip p.blocked x)) (i ∷ is) ip m
              (ground (arith, e, ap (λ l. validate_ip l ip) d)),
        ))
  ],
)

pub host_failure-none :
    (net : Net) (p : FetchPolicy) (a b : FetchError) (host : List ℕ)
    → p.blocked ≡ default_blocked
    → host_failure net p a b host ≡ none
    → IsPublic net host
unfolding host_failure
host_failure-none net p a b host d h = elim (Option-cases (net.parse_ip host)) [
  | inl e ↦
      rw (addresses_of, e)
        (addresses_failure_cases net p a b (net.look_up host) d (ground (arith, h, e)))
  | inr (ip, e) ↦
      rw (addresses_of, e)
        (
          ip ∷ [],
          refl,
          omega arith,
          λ j m. elim m [
            | inl q ↦
                ap (λ x. is_reserved (unwrap x)) q
                ∙ valid_reserved ip (ground (arith, h, e, ap (λ l. validate_ip l ip) d))
            | inr n ↦ absurd n
          ],
        )
]

url_failure-none :
    (net : Net) (p : FetchPolicy) (u : Url)
    → is_host_allowed net p (trim_space u.hostname) ≡ false
    → is_host_allowed net p u.host_port ≡ false
    → url_failure net p u ≡ none
    → (is_scheme_allowed net p u.scheme ≡ true)
      × (host_failure net p ssrf_blocked dns_resolution_failed (trim_space u.hostname) ≡ none)
url_failure-none net p u h k v = (ground (arith, h, k, v), ground (arith, h, k, v))

-- A URL that ValidateTarget accepts under the default networks, and whose host is not exempted, has an
-- allowed scheme and a host that stands for at least one address, none of them in a reserved range.
pub validate_target-IsPublic :
    (net : Net) (p : FetchPolicy) (u : Url)
    → p.blocked ≡ default_blocked
    → is_host_allowed net p (trim_space u.hostname) ≡ false
    → is_host_allowed net p u.host_port ≡ false
    → validate_target net p (some u) ≡ none
    → (is_scheme_allowed net p u.scheme ≡ true) × IsPublic net (trim_space u.hostname)
unfolding validate_target
validate_target-IsPublic net p u d h k v =
    let (s, r) = url_failure-none net p u h k v in
    (s, host_failure-none net p ssrf_blocked dns_resolution_failed (trim_space u.hostname) d r)
