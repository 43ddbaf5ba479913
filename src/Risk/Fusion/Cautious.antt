-- ===== src/Risk/Fusion/Cautious.antt =====
-- When the fusion of `evaluateNodeCore` in internal/application/iprisk/service.go allows a node.
use clash_sub_parser.Prelude.{
  String, ◌≡◌, ◌≢◌, refl, sym, ap, ◌∙◌, Bool, true, false, not, ◌&&◌, List, [], ◌∷◌, Option, none,
  some, arith, if◌then◌else◌, if_cases, Bool-cases, Option-cases, inl, inr, ◌⊎◌, length, ◌==◌,
}
use clash_sub_parser.Prelude.Members.{In}
use clash_sub_parser.Resolver.Admission.{RiskAction, risk_allow}
use clash_sub_parser.Risk.Policies.{
  FusionMode, single_provider, all_must_allow, highest_risk, other_mode, ProviderRef, is_single,
}
use clash_sub_parser.Risk.Providers.{IpRiskObservation, ProviderResult}
use clash_sub_parser.Risk.Fusion.{
  is_of, latest_of, keep_later, is_later, Fused, blocks, lacks, reviews, first_with, worst_blocking,
  partly_known, fuse_single, fuse_all, fuse_highest, fuse,
}

first_with-none :
    (p : ProviderResult → Bool) (rs : List ProviderResult) (r : ProviderResult)
    → first_with p rs ≡ none
    → In r rs
    → p r ≡ false
unfolding first_with
first_with-none p [] r h i = absurd i
first_with-none p (x ∷ rs) r h (inl e) = ground (arith, ap p e)
first_with-none p (x ∷ rs) r h (inr i) = ground (arith, first_with-none p rs r)

worst_blocking-ne-none :
    (rs : List ProviderResult) (top : ProviderResult) → worst_blocking rs (some top) ≢ none
unfolding worst_blocking
worst_blocking-ne-none [] top h = absurd cc
worst_blocking-ne-none (r ∷ rs) top h =
    if_cases (λ o. worst_blocking rs o ≢ none) (blocks r) _ _
      (λ _.
        if_cases (λ o. worst_blocking rs o ≢ none) _ (some r) (some top)
          (λ _. worst_blocking-ne-none rs r) (λ _. worst_blocking-ne-none rs top))
      (λ _. worst_blocking-ne-none rs top) h

worst_blocking-none :
    (rs : List ProviderResult) (r : ProviderResult)
    → worst_blocking rs none ≡ none
    → In r rs
    → blocks r ≡ false
unfolding worst_blocking
worst_blocking-none [] r h i = absurd i
worst_blocking-none (x ∷ rs) r h i = elim (Bool-cases (blocks x)) [
  | inl e ↦ absurd (worst_blocking-ne-none rs x (rw e at h))
  | inr e ↦ elim i [
    | inl same_result ↦ ap blocks same_result ∙ e
    | inr j ↦ worst_blocking-none rs r (rw e at h) j
  ]
]

pub latest_of-In :
    (node : String) (ref : ProviderRef) (os : List IpRiskObservation)
    (kept : Option IpRiskObservation) (o : IpRiskObservation)
    → latest_of node ref os kept ≡ some o
    → (kept ≡ some o) ⊎ (In o os × (is_of node ref o ≡ true))
unfolding latest_of
latest_of-In node ref [] kept o h = inl h
latest_of-In node ref (p ∷ os) kept o h =
    elim (latest_of-In node ref os (if is_of node ref p then keep_later p kept else kept) o h) [
      | inl e ↦ kept_or_new kept e
      | inr (i, f) ↦ inr (inr i, f)
    ]
  where
    kept_or_new :
        (k : Option IpRiskObservation)
        → (if is_of node ref p then keep_later p k else k) ≡ some o
        → (k ≡ some o) ⊎ (In o (p ∷ os) × (is_of node ref o ≡ true))
    kept_or_new none e = elim (Bool-cases (is_of node ref p)) [
      | inl t ↦
          let same_one : p ≡ o = cc (rw t at e) in
          inr (inl (sym same_one), ap (is_of node ref) (sym same_one) ∙ t)
      | inr t ↦ inl (rw t at e)
    ]
    kept_or_new (some k) e = elim (Bool-cases (is_of node ref p)) [
      | inl t ↦ elim (Bool-cases (is_later p k)) [
        | inl l ↦
            let same_one : p ≡ o = cc (rw (t, l) at e) in
            inr (inl (sym same_one), ap (is_of node ref) (sym same_one) ∙ t)
        | inr l ↦ inl (rw (t, l) at e)
      ]
      | inr t ↦ inl (rw t at e)
    ]

abbrev pub needs_all : FusionMode → Bool
needs_all all_must_allow = true
needs_all _ = false

module _ (ua : RiskAction) (strict : ua ≢ risk_allow) where
  -- A result that neither blocks nor is unknown, and of which the strictest mode needs no review.
  abbrev pub Clears : FusionMode → ProviderResult → Type 0
  Clears m r = (blocks r ≡ false) × (lacks r ≡ false) × ((needs_all m && reviews r) ≡ false)

  fuse_single-Clears :
      (r : ProviderResult)
      → (fuse_single ua r).final_action ≡ risk_allow
      → (blocks r ≡ false) × (lacks r ≡ false)
  unfolding fuse_single
  fuse_single-Clears r h = ground (arith, strict)

  fuse_all-Clears :
      (r : ProviderResult) (rs : List ProviderResult) (x : ProviderResult)
      → (fuse_all ua r rs).final_action ≡ risk_allow
      → In x (r ∷ rs)
      → (blocks x ≡ false) × (lacks x ≡ false) × (reviews x ≡ false)
  unfolding fuse_all
  fuse_all-Clears r rs x h i = elim (Option-cases (first_with blocks (r ∷ rs))) [
    | inr (c, e) ↦ absurd (ground arith)
    | inl e ↦ elim (Option-cases (first_with lacks (r ∷ rs))) [
      | inr (c, f) ↦ absurd (ground (arith, strict))
      | inl f ↦ elim (Option-cases (first_with reviews (r ∷ rs))) [
        | inr (c, g) ↦ absurd (ground arith)
        | inl g ↦ (
          first_with-none blocks (r ∷ rs) x e i,
          first_with-none lacks (r ∷ rs) x f i,
          first_with-none reviews (r ∷ rs) x g i,
        )
      ]
    ]
  ]

  partly_known_strict :
      (u : ProviderResult) (o : Option ProviderResult)
      → (partly_known ua u o).final_action ≢ risk_allow
  partly_known_strict u none h = strict h
  partly_known_strict u (some c) h = cc

  fuse_highest-Clears :
      (r : ProviderResult) (rs : List ProviderResult) (x : ProviderResult)
      → (fuse_highest ua r rs).final_action ≡ risk_allow
      → In x (r ∷ rs)
      → (blocks x ≡ false) × (lacks x ≡ false)
  unfolding fuse_highest
  fuse_highest-Clears r rs x h i = elim (Option-cases (worst_blocking (r ∷ rs) none)) [
    | inr (c, e) ↦ absurd (ground arith)
    | inl e ↦ elim (Option-cases (first_with lacks (r ∷ rs))) [
      | inr (c, f) ↦ absurd (ground (arith, partly_known_strict c (first_with reviews (r ∷ rs))))
      | inl f ↦ (worst_blocking-none (r ∷ rs) x e i, first_with-none lacks (r ∷ rs) x f i)
    ]
  ]

  -- The modes together. `single_provider` has one provider.
  pub fuse-Clears :
      (m : FusionMode) (rs : List ProviderResult) (f : Fused) (x : ProviderResult)
      → (is_single m && not (length rs == 1)) ≡ false
      → fuse ua m rs ≡ some f
      → f.final_action ≡ risk_allow
      → In x rs
      → Clears m x
  unfolding fuse
  fuse-Clears m [] f x one e h i = absurd i
  fuse-Clears single_provider (r ∷ []) f x one e h (inl i) =
      let same_one : fuse_single ua r ≡ f = cc in
      let (b, l) = fuse_single-Clears r (ap (λ (g : Fused). g.final_action) same_one ∙ h) in
      (ap blocks i ∙ b, ap lacks i ∙ l, refl)
  fuse-Clears single_provider (r ∷ []) f x one e h (inr i) = absurd i
  fuse-Clears single_provider (r ∷ q ∷ rs) f x one e h i = absurd (ground arith)
  fuse-Clears all_must_allow (r ∷ rs) f x one e h i =
      let same_one : fuse_all ua r rs ≡ f = cc in
      fuse_all-Clears r rs x (ap (λ (g : Fused). g.final_action) same_one ∙ h) i
  fuse-Clears highest_risk (r ∷ rs) f x one e h i =
      let same_one : fuse_highest ua r rs ≡ f = cc in
      let (b, l) = fuse_highest-Clears r rs x (ap (λ (g : Fused). g.final_action) same_one ∙ h) i in
      (b, l, refl)
  fuse-Clears (other_mode s) (r ∷ rs) f x one e h i = absurd cc
