-- ===== src/Fetch/Tests.antt =====
-- Concrete addresses, hosts and endpoints for internal/fetch/policy.go.
use clash_sub_parser.Prelude.{
  ℕ, ◌+◌, ◌≡◌, ◌≢◌, ◌⊎◌, refl, Bool, true, false, not, List, [], ◌∷◌, if◌then◌else◌, Option, none,
  some,
}
use clash_sub_parser.Prelude.Strings.{codes, same_codes, to_lower, trim_space}
use clash_sub_parser.Fetch.Addresses.{v4, v6, unwrap, dotted, default_blocked, validate_ip}
use clash_sub_parser.Fetch.Addresses.Public.{is_reserved, validate_ip_lem}
use clash_sub_parser.Fetch.Hosts.{is_obfuscated_ip}
use clash_sub_parser.Fetch.Targets.{
  Net, Url, FetchPolicy, default_policy, ssrf_blocked, is_scheme_allowed, validate_target,
}
use clash_sub_parser.Fetch.Targets.Safe.{IsPublic, validate_target-IsPublic}
use clash_sub_parser.Fetch.Targets.Proxies.{
  endpoint, parse_canonical_proxy_url, add_allowed_proxy, is_proxy_host_allowed, validate_proxy,
}
use clash_sub_parser.Fetch.Targets.Proxies.Trusted.{validate_proxy-IsPublic}

abbrev site : Url
site = record {
  text = codes "http://example.org:81";
  scheme = codes "http";
  host_port = codes "example.org:81";
  hostname = codes "example.org";
  port = codes "81";
  path = [];
  raw_query = [];
  force_query = false;
  fragment = [];
  has_user = false;
}

abbrev local : Url
local = record site {
  text = codes "http://Local:81";
  host_port = codes "Local:81";
  hostname = codes "Local";
}

-- Two known URLs, one of which has a public address.
abbrev net : Net
net = record {
  parse_url = λ t.
      if same_codes (to_lower t) (codes "http://example.org:81")
      then some site
      else if same_codes (to_lower t) (codes "http://local:81")
      then some local
      else none;
  parse_ip = λ t. none;
  format_ip = λ a. [];
  look_up = λ t.
      if same_codes t (codes "example.org")
      then some (v4 (dotted 8 8 8 8) ∷ [])
      else some (v4 (dotted 127 0 0 1) ∷ []);
  lower_case = to_lower;
  equal_fold = λ s t. same_codes (to_lower s) (to_lower t);
}

mapped_test : validate_ip default_blocked (v6 (0xffff00000000 + dotted 127 0 0 1)) ≡ false
unfolding validate_ip
mapped_test = refl

is_obfuscated_ip_test : is_obfuscated_ip (codes "0177.0.0.1") ≡ true
unfolding is_obfuscated_ip trim_space clash_sub_parser.Prelude.Numbers.is_uint
    clash_sub_parser.Prelude.Strings.contains
is_obfuscated_ip_test = refl

dotted_test : is_obfuscated_ip (codes "10.0.0.1") ≡ false
unfolding is_obfuscated_ip trim_space clash_sub_parser.Prelude.Numbers.is_uint
    clash_sub_parser.Prelude.Strings.contains
dotted_test = refl

validate_ip_lem_example :
    validate_ip default_blocked (v4 (dotted 8 8 8 8))
    ≡ not (is_reserved (unwrap (v4 (dotted 8 8 8 8))))
validate_ip_lem_example = validate_ip_lem (v4 (dotted 8 8 8 8))

local_test : validate_target net default_policy (some local) ≡ some ssrf_blocked
unfolding validate_target trim_space is_obfuscated_ip clash_sub_parser.Prelude.Numbers.is_uint
    clash_sub_parser.Prelude.Strings.contains clash_sub_parser.Fetch.Hosts.is_mapped_text
    validate_ip
local_test = refl

validate_target-IsPublic_example :
    (is_scheme_allowed net default_policy (codes "http") ≡ true)
    × IsPublic net (trim_space (codes "example.org"))
unfolding clash_sub_parser.Fetch.Targets.is_host_allowed validate_target trim_space is_obfuscated_ip
    clash_sub_parser.Prelude.Numbers.is_uint clash_sub_parser.Prelude.Strings.contains
    clash_sub_parser.Fetch.Hosts.is_mapped_text validate_ip
validate_target-IsPublic_example =
    validate_target-IsPublic net default_policy site refl refl refl refl

add_allowed_proxy_test :
    (add_allowed_proxy net (codes " http://Local:81") default_policy).1.allowed_proxy_hosts
    ≡ codes "http://local:81" ∷ []
unfolding add_allowed_proxy trim_space clash_sub_parser.Prelude.Strings.contains is_obfuscated_ip
    clash_sub_parser.Prelude.Numbers.is_uint clash_sub_parser.Fetch.Hosts.is_mapped_text
    clash_sub_parser.Prelude.Numbers.parse_int
add_allowed_proxy_test = refl

validate_proxy-IsPublic_example :
    (c : List ℕ) × (parse_canonical_proxy_url net (codes "http://example.org:81") ≡ endpoint c)
    × ((is_proxy_host_allowed net default_policy c ≡ true)
        ⊎ ((v : Url) × (net.parse_url c ≡ some v) × IsPublic net v.hostname))
unfolding validate_proxy trim_space clash_sub_parser.Prelude.Strings.contains is_obfuscated_ip
    clash_sub_parser.Prelude.Numbers.is_uint clash_sub_parser.Fetch.Hosts.is_mapped_text
    clash_sub_parser.Prelude.Numbers.parse_int validate_ip
validate_proxy-IsPublic_example = validate_proxy-IsPublic net default_policy site refl refl
