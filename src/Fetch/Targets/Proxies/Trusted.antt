-- ===== src/Fetch/Targets/Proxies/Trusted.antt =====
-- The proxies that internal/fetch/policy.go trusts.
use clash_sub_parser.Prelude.{
  ℕ, ◌≡◌, ◌≢◌, ◌⊎◌, inl, inr, refl, ap, ◌∙◌, sym, Bool, true, false, ◌||◌, List, [], ◌∷◌, ◌++◌,
  if_cases, any, Option, none, some, Option-cases, Bool-cases, arith,
}
use clash_sub_parser.Prelude.Strings.{same_codes, same_codes_self, eq_of_same_codes, trim_space}
use clash_sub_parser.Prelude.Trim.{trim_space_twice}
use clash_sub_parser.Fetch.Hosts.{is_empty}
use clash_sub_parser.Fetch.Addresses.{default_blocked}
use clash_sub_parser.Fetch.Targets.{
  Net, Url, FetchPolicy, FetchError, proxy_ssrf_blocked, proxy_dns_resolution_failed,
}
use clash_sub_parser.Fetch.Targets.Safe.{IsPublic, host_failure-none}
use clash_sub_parser.Fetch.Targets.Proxies.{
  Canonical, refused, endpoint, parse_canonical_proxy_url, add_allowed_proxy, add_canonical,
  is_listed, is_proxy_host_allowed, validate_proxy,
}

Canonical-cases :
    (c : Canonical) → ((e : FetchError) × (c ≡ refused e)) ⊎ ((t : List ℕ) × (c ≡ endpoint t))
Canonical-cases (refused e) = inl (e, refl)
Canonical-cases (endpoint t) = inr (t, refl)

any_last :
    (p : List ℕ → Bool) (xs : List (List ℕ)) (x : List ℕ)
    → any p (xs ++ (x ∷ [])) ≡ (any p xs || p x)
any_last p [] x = ground arith
any_last p (y ∷ ys) x = ground (arith, any_last p ys x)

module _ (net : Net) where
  parse_canonical_proxy_url-trim_space :
      (raw : List ℕ)
      → parse_canonical_proxy_url net (trim_space raw) ≡ parse_canonical_proxy_url net raw
  unfolding parse_canonical_proxy_url
  parse_canonical_proxy_url-trim_space raw = rw (trim_space_twice raw) refl

  is_empty_of_endpoint :
      (raw t : List ℕ)
      → parse_canonical_proxy_url net raw ≡ endpoint t
      → is_empty (trim_space raw) ≡ false
  unfolding parse_canonical_proxy_url
  is_empty_of_endpoint raw t h = elim (Bool-cases (is_empty (trim_space raw))) [
    | inl e ↦ absurd (ground (arith, h, e))
    | inr e ↦ e
  ]

  -- What the policy trusts, by the normal form.
  is_proxy_host_allowed_lem :
      (p : FetchPolicy) (raw : List ℕ)
      → is_proxy_host_allowed net p raw ≡ (
          p.allow_private
          || is_listed net p.allowed_proxy_hosts (parse_canonical_proxy_url net raw))
  unfolding is_proxy_host_allowed
  is_proxy_host_allowed_lem p raw = elim (Canonical-cases (parse_canonical_proxy_url net raw)) [
    | inl (e, f) ↦ rw (parse_canonical_proxy_url-trim_space raw, f) (ground arith)
    | inr (t, f) ↦
        rw (parse_canonical_proxy_url-trim_space raw, f, is_empty_of_endpoint raw t f) refl
  ]

  is_listed_after :
      (p : FetchPolicy) (c d : Canonical)
      → ((add_canonical net p c).0 ≡ none
          → is_listed net (add_canonical net p c).1.allowed_proxy_hosts c ≡ true)
        × (is_listed net (add_canonical net p c).1.allowed_proxy_hosts d ≡ true
            → (is_listed net p.allowed_proxy_hosts d ≡ true) ⊎ (d ≡ c))
        × ((add_canonical net p c).1.allow_private ≡ p.allow_private)
  is_listed_after p (refused e) d = (λ h. absurd cc, λ h. inl h, refl)
  is_listed_after p (endpoint t) d =
      if_cases
        (λ (r : Option FetchError × FetchPolicy).
          (r.0 ≡ none → is_listed net r.1.allowed_proxy_hosts (endpoint t) ≡ true)
          × (is_listed net r.1.allowed_proxy_hosts d ≡ true
              → (is_listed net p.allowed_proxy_hosts d ≡ true) ⊎ (d ≡ endpoint t))
          × (r.1.allow_private ≡ p.allow_private))
        (any (λ a. same_codes a t) p.allowed_proxy_hosts) _ _ (λ e. (λ h. e, λ h. inl h, refl))
        (λ e. (
          λ h.
              ground
                (arith, any_last (λ a. same_codes a t) p.allowed_proxy_hosts t, same_codes_self t),
          λ h. is_listed_last d h,
          refl,
        ))
    where
      is_listed_last :
          (d : Canonical)
          → is_listed net (p.allowed_proxy_hosts ++ (t ∷ [])) d ≡ true
          → (is_listed net p.allowed_proxy_hosts d ≡ true) ⊎ (d ≡ endpoint t)
      is_listed_last (refused e) h = absurd cc
      is_listed_last (endpoint s) h =
          elim (Bool-cases (any (λ a. same_codes a s) p.allowed_proxy_hosts)) [
            | inl e ↦ inl e
            | inr e ↦ inr (
                ap endpoint (
                  sym (
                    eq_of_same_codes t s (
                      ground
                        (arith, e, h, any_last (λ a. same_codes a s) p.allowed_proxy_hosts t)))))
          ]

add_allowed_proxy-add_canonical :
    (net : Net) (p : FetchPolicy) (raw : List ℕ)
    → add_allowed_proxy net raw p ≡ add_canonical net p (parse_canonical_proxy_url net raw)
unfolding add_allowed_proxy
add_allowed_proxy-add_canonical net p raw = refl

add_canonical_failed :
    (net : Net) (p : FetchPolicy) (c : Canonical)
    → (add_canonical net p c).0 ≢ none
    → (add_canonical net p c).1 ≡ p
add_canonical_failed net p (refused e) h = refl
add_canonical_failed net p (endpoint t) h =
    if_cases (λ (r : Option FetchError × FetchPolicy). r.0 ≢ none → r.1 ≡ p)
      (any (λ a. same_codes a t) p.allowed_proxy_hosts) _ _ (λ e k. refl) (λ e k. absurd (k refl)) h

-- After AddAllowedProxy accepts an endpoint, the policy trusts it; an endpoint that is trusted then was
-- trusted before or has the same normal form. Where AddAllowedProxy fails, the policy stays as it was.
pub add_allowed_proxy_lem :
    (net : Net) (p : FetchPolicy) (raw other : List ℕ)
    → ((add_allowed_proxy net raw p).0 ≡ none
        → is_proxy_host_allowed net (add_allowed_proxy net raw p).1 raw ≡ true)
      × (is_proxy_host_allowed net (add_allowed_proxy net raw p).1 other ≡ true
          → (is_proxy_host_allowed net p other ≡ true)
            ⊎ (parse_canonical_proxy_url net other ≡ parse_canonical_proxy_url net raw))
      × ((add_allowed_proxy net raw p).0 ≢ none → (add_allowed_proxy net raw p).1 ≡ p)
add_allowed_proxy_lem net p raw other =
    let c = parse_canonical_proxy_url net raw in
    let d = parse_canonical_proxy_url net other in
    let (own, others, private) = is_listed_after net p c d in
    rw (add_allowed_proxy-add_canonical net p raw) (
      λ h. is_proxy_host_allowed_lem net (add_canonical net p c).1 raw ∙ ground (arith, own h),
      λ h. elim (Bool-cases (is_proxy_host_allowed net p other)) [
        | inl e ↦ inl e
        | inr e ↦
            elim (others (
              ground (
                arith,
                h,
                e,
                private,
                is_proxy_host_allowed_lem net (add_canonical net p c).1 other,
                is_proxy_host_allowed_lem net p other,
              ))) [
                | inl l ↦ absurd (ground (arith, e, l, is_proxy_host_allowed_lem net p other))
                | inr q ↦ inr q
              ]
      ],
      add_canonical_failed net p c,
    )

-- A proxy that ValidateProxy accepts under the default networks, by a policy that does not allow
-- private addresses, has a normal form, and is trusted by the policy or its host stands for at least
-- one address and for none in a reserved range.
pub validate_proxy-IsPublic :
    (net : Net) (p : FetchPolicy) (u : Url)
    → p.blocked ≡ default_blocked
    → validate_proxy net p (some u) ≡ none
    → (c : List ℕ) × (parse_canonical_proxy_url net u.text ≡ endpoint c)
      × ((is_proxy_host_allowed net p c ≡ true)
          ⊎ ((v : Url) × (net.parse_url c ≡ some v) × IsPublic net v.hostname))
unfolding validate_proxy
validate_proxy-IsPublic net p u d h =
    elim (Canonical-cases (parse_canonical_proxy_url net u.text)) [
      | inl (e, f) ↦ absurd (ground (arith, h, f))
      | inr (c, f) ↦ (
        c,
        f,
        elim (Bool-cases (is_proxy_host_allowed net p c)) [
          | inl t ↦ inl t
          | inr t ↦ elim (Option-cases (net.parse_url c)) [
            | inl g ↦ absurd (ground (arith, h, f, t, g))
            | inr (v, g) ↦ inr (
              v,
              g,
              host_failure-none net p proxy_ssrf_blocked proxy_dns_resolution_failed v.hostname d
                  (ground (arith, h, f, t, g)),
            )
          ]
        ],
      )
    ]
