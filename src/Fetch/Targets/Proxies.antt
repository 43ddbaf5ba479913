-- ===== src/Fetch/Targets/Proxies.antt =====
-- `parseCanonicalProxyURL`, `AddAllowedProxy`, `IsProxyHostAllowed` and `ValidateProxy` of
-- internal/fetch/policy.go.
pub mod Trusted
use clash_sub_parser.Prelude.{
  ℕ, Bool, true, false, not, ◌&&◌, ◌||◌, List, [], ◌∷◌, ◌++◌, if◌then◌else◌, any, ◌==◌, ltb, Option,
  none, some,
}
use clash_sub_parser.Prelude.Int.{ℤ, pos, negsuc}
use clash_sub_parser.Prelude.Strings.{codes, contains, has_prefix, same_codes, to_lower, trim_space}
use clash_sub_parser.Prelude.Numbers.{parse_int, decimal}
use clash_sub_parser.Fetch.Addresses.{Ip, v4, v6, unwrap}
use clash_sub_parser.Fetch.Hosts.{ends_with, is_empty, is_obfuscated_ip, is_mapped_text}
use clash_sub_parser.Fetch.Targets.{
  Net, Url, FetchPolicy, FetchError, host_failure, invalid_proxy_url, proxy_ssrf_blocked,
  proxy_dns_resolution_failed,
}

-- The normal form of an endpoint, or why it has none.
pub data Canonical : Type 0 where
  refused : FetchError → Canonical
  endpoint : List ℕ → Canonical

abbrev is_http : List ℕ → Bool
is_http s = same_codes s (codes "http") || same_codes s (codes "https")

abbrev is_v4 : Ip → Bool
is_v4 (v4 n) = true
is_v4 (v6 n) = false

-- The address has four bytes or stands for one of them, and is written with a colon.
abbrev is_mapped : Option Ip → List ℕ → Bool
is_mapped none host = false
is_mapped (some ip) host = is_v4 (unwrap ip) && contains host (codes ":")

abbrev starts_with_zero : List ℕ → Bool
starts_with_zero (c ∷ d ∷ cs) = c == b'0'
starts_with_zero _ = false

-- `strconv.Atoi`, and the bounds of a port.
abbrev port_number : Option ℤ → Option ℕ
port_number none = none
port_number (some (pos n)) = if ltb n 1 || ltb 65535 n then none else some n
port_number (some (negsuc n)) = none

module _ (net : Net) where
  abbrev canonical_host : Option Ip → List ℕ → List ℕ
  canonical_host none host = net.lower_case host
  canonical_host (some ip) host =
      if is_v4 (unwrap ip)
      then net.format_ip (unwrap ip)
      else codes "[" ++ (net.format_ip ip ++ codes "]")

  abbrev canonical_text : Url → Option ℕ → Canonical
  canonical_text u none = refused invalid_proxy_url
  canonical_text u (some port) = endpoint (
      net.lower_case u.scheme
      ++ (codes "://"
          ++ (canonical_host (net.parse_ip u.hostname) u.hostname
              ++ (codes ":" ++ decimal 5 port))))

  -- The tests on the parsed endpoint. A port of at most 65535 has at most 5 digits.
  abbrev canonical_url : List ℕ → Option Url → Canonical
  canonical_url clean none = refused invalid_proxy_url
  canonical_url clean (some u) =
      if not (is_http (to_lower u.scheme))
        || (not (is_empty u.path) && not (same_codes u.path (codes "/"))
            || (not (is_empty u.raw_query)
                || (u.force_query || (not (is_empty u.fragment) || contains clean (codes "#")))))
      then refused invalid_proxy_url
      else if is_empty u.hostname || (ends_with b'.' u.hostname || contains u.hostname (codes "%"))
      then refused invalid_proxy_url
      else if is_obfuscated_ip u.hostname
          || (is_mapped_text u.hostname || is_mapped (net.parse_ip u.hostname) u.hostname)
      then refused proxy_ssrf_blocked
      else if is_empty u.port || starts_with_zero u.port
      then refused invalid_proxy_url
      else canonical_text u (port_number (parse_int u.port))

  -- `parseCanonicalProxyURL`
  unfoldable pub parse_canonical_proxy_url : List ℕ → Canonical
  parse_canonical_proxy_url raw =
      let clean = trim_space raw in
      if is_empty clean
        || not (
            has_prefix (to_lower clean) (codes "http://")
            || has_prefix (to_lower clean) (codes "https://"))
      then refused invalid_proxy_url
      else canonical_url clean (net.parse_url clean)

  abbrev pub is_listed : List (List ℕ) → Canonical → Bool
  is_listed allowed (refused e) = false
  is_listed allowed (endpoint c) = any (λ a. same_codes a c) allowed

  abbrev add_canonical : FetchPolicy → Canonical → Option FetchError × FetchPolicy
  add_canonical p (refused e) = (some e, p)
  add_canonical p (endpoint c) =
      if any (λ a. same_codes a c) p.allowed_proxy_hosts
      then (none, p)
      else (none, record p { allowed_proxy_hosts = p.allowed_proxy_hosts ++ (c ∷ []) })

  -- `AddAllowedProxy`
  unfoldable pub add_allowed_proxy : List ℕ → FetchPolicy → Option FetchError × FetchPolicy
  unfolding parse_canonical_proxy_url
  add_allowed_proxy raw p = add_canonical p (parse_canonical_proxy_url raw)

  -- `IsProxyHostAllowed`
  unfoldable pub is_proxy_host_allowed : FetchPolicy → List ℕ → Bool
  unfolding parse_canonical_proxy_url
  is_proxy_host_allowed p target =
      p.allow_private
      || not (is_empty (trim_space target))
        && is_listed p.allowed_proxy_hosts (parse_canonical_proxy_url (trim_space target))

  abbrev parsed_failure : FetchPolicy → Option Url → Option FetchError
  parsed_failure p none = some invalid_proxy_url
  parsed_failure p (some u) =
      host_failure net p proxy_ssrf_blocked proxy_dns_resolution_failed u.hostname

  abbrev proxy_failure : FetchPolicy → Canonical → Option FetchError
  proxy_failure p (refused e) = some e
  proxy_failure p (endpoint c) =
      if is_proxy_host_allowed p c then none else parsed_failure p (net.parse_url c)

  -- `ValidateProxy`
  unfoldable pub validate_proxy : FetchPolicy → Option Url → Option FetchError
  unfolding is_proxy_host_allowed host_failure
  validate_proxy p none = some invalid_proxy_url
  validate_proxy p (some u) = proxy_failure p (parse_canonical_proxy_url u.text)
