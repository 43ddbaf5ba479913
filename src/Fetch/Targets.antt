-- ===== src/Fetch/Targets.antt =====
-- `ValidateTarget` of internal/fetch/policy.go. A URL is what `net/url` parses of it.
pub mod Safe
pub mod Proxies
use clash_sub_parser.Prelude.{
  ℕ, Bool, true, false, not, ◌&&◌, ◌||◌, List, [], ◌∷◌, if◌then◌else◌, any, ◌==◌, Option, none,
  some,
}
use clash_sub_parser.Prelude.Strings.{codes, same_codes, trim_space}
use clash_sub_parser.Fetch.Addresses.{Ip, Network, default_blocked, validate_ip}
use clash_sub_parser.Fetch.Hosts.{ends_with, is_empty, is_obfuscated_ip, is_mapped_text}

-- What `String`, `Hostname`, `Host`, `Port` and the fields of a `url.URL` give.
pub record Url : Type 0 where
  pub text : List ℕ
  pub scheme : List ℕ
  pub host_port : List ℕ
  pub hostname : List ℕ
  pub port : List ℕ
  pub path : List ℕ
  pub raw_query : List ℕ
  pub force_query : Bool
  pub fragment : List ℕ
  pub has_user : Bool

-- `url.Parse`, `net.ParseIP`, `IP.String`, the resolver, whose errors are `none`, and the letter cases
-- of `strings`.
pub record Net : Type 0 where
  pub parse_url : List ℕ → Option Url
  pub parse_ip : List ℕ → Option Ip
  pub format_ip : Ip → List ℕ
  pub look_up : List ℕ → Option (List Ip)
  pub lower_case : List ℕ → List ℕ
  pub equal_fold : List ℕ → List ℕ → Bool

-- `Policy`, with the resolver in `Net`.
pub record FetchPolicy : Type 0 where
  pub allowed_schemes : List (List ℕ)
  pub blocked : List Network
  pub allowed_hosts : List (List ℕ)
  pub allowed_proxy_hosts : List (List ℕ)
  pub allow_private : Bool

-- `DefaultPolicy`
abbrev pub default_policy : FetchPolicy
default_policy = record {
  allowed_schemes = codes "http" ∷ codes "https" ∷ [];
  blocked = default_blocked;
  allowed_hosts = [];
  allowed_proxy_hosts = [];
  allow_private = false;
}

pub data FetchError : Type 0 where
  invalid_url missing_scheme unsupported_scheme ssrf_blocked dns_resolution_failed : FetchError
  invalid_proxy_url proxy_ssrf_blocked proxy_dns_resolution_failed : FetchError

module _ (net : Net) where
  -- `IsHostAllowed`
  unfoldable pub is_host_allowed : FetchPolicy → List ℕ → Bool
  is_host_allowed p target =
      p.allow_private
      || any
          (λ allowed.
            net.equal_fold (net.lower_case (trim_space target))
              (net.lower_case (trim_space allowed)))
          p.allowed_hosts

  abbrev pub is_scheme_allowed : FetchPolicy → List ℕ → Bool
  is_scheme_allowed p scheme =
      any (λ allowed. net.equal_fold (net.lower_case scheme) allowed) p.allowed_schemes

  -- The addresses of a lookup, of which there is one and all are valid.
  abbrev pub addresses_failure :
      FetchPolicy → FetchError → FetchError → Option (List Ip) → Option FetchError
  addresses_failure p blocked unresolved none = some unresolved
  addresses_failure p blocked unresolved (some []) = some unresolved
  addresses_failure p blocked unresolved (some (ip ∷ ips)) =
      if any (λ a. not (validate_ip p.blocked a)) (ip ∷ ips) then some blocked else none

  -- The end of `ValidateTarget` and of `ValidateProxy`: the host as an address, or its lookup.
  unfoldable pub host_failure : FetchPolicy → FetchError → FetchError → List ℕ → Option FetchError
  host_failure p blocked unresolved host = elim (net.parse_ip host) [
    | some ip ↦ if validate_ip p.blocked ip then none else some blocked
    | none ↦ addresses_failure p blocked unresolved (net.look_up host)
  ]

  abbrev pub url_failure : FetchPolicy → Url → Option FetchError
  url_failure p u =
      let host = trim_space u.hostname in
      if is_empty (net.lower_case u.scheme)
      then some missing_scheme
      else if not (is_scheme_allowed p u.scheme)
      then some unsupported_scheme
      else if is_empty host || ends_with b'.' host
      then some invalid_url
      else if is_obfuscated_ip host || is_mapped_text host
      then some ssrf_blocked
      else if is_host_allowed p host || is_host_allowed p u.host_port
      then none
      else host_failure p ssrf_blocked dns_resolution_failed host

  -- `ValidateTarget`
  unfoldable pub validate_target : FetchPolicy → Option Url → Option FetchError
  unfolding is_host_allowed host_failure
  validate_target p none = some invalid_url
  validate_target p (some u) = url_failure p u
