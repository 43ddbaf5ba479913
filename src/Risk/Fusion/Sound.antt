-- ===== src/Risk/Fusion/Sound.antt =====
-- The fusion of `evaluateNodeCore` in internal/application/iprisk/service.go on well formed results.
use clash_sub_parser.Prelude.{
  ◌≡◌, refl, Bool, true, List, [], ◌∷◌, Option, none, some, if_cases, Option-cases, inl, inr,
}
use clash_sub_parser.Prelude.Members.{In}
use clash_sub_parser.Resolver.Admission.{RiskAction}
use clash_sub_parser.Risk.Policies.{
  RiskBand, low, medium, critical, FusionMode, single_provider, all_must_allow, highest_risk,
  other_mode, mode_is_valid, band_is_valid,
}
use clash_sub_parser.Risk.Providers.{ProviderResult}
use clash_sub_parser.Risk.Providers.Sound.{IsSound, reason_is_known}
use clash_sub_parser.Risk.Nodes.{action_is_valid}
use clash_sub_parser.Risk.Fusion.{
  FusedReason, plain, must_allow, risk, risk_of, Fused, blocks, lacks, reviews, first_with,
  max_band_across, worst_blocking, worst, partly_known, fuse_single, fuse_all, fuse_highest, fuse,
}

-- A reason that the code itself makes.
abbrev pub fused_is_known : FusedReason → Bool
fused_is_known (plain r) = reason_is_known r
fused_is_known (must_allow r) = reason_is_known r
fused_is_known (risk r) = reason_is_known r
fused_is_known (risk_of a) = action_is_valid a
fused_is_known _ = true

max_band_across-valid :
    (rs : List ProviderResult) (top : RiskBand)
    → ((r : ProviderResult) → In r rs → IsSound r)
    → band_is_valid top ≡ true
    → band_is_valid (max_band_across rs top) ≡ true
unfolding max_band_across
max_band_across-valid [] top s h = h
max_band_across-valid (r ∷ rs) top s h =
    max_band_across-valid rs _ (λ q i. s q (inr i))
      (if_cases (λ b. band_is_valid b ≡ true) _ r.risk_band top (λ _. (s r (inl refl)).band_ok)
        (λ _. h))

-- The results that the fusion chooses are among those that it was given.
module _ (P : ProviderResult → Type 0) where
  kept : (r q : ProviderResult) → P r → some r ≡ some q → P q
  kept r q x e = let same_one : r ≡ q = cc in rw same_one at x

  first_with-P :
      (p : ProviderResult → Bool) (rs : List ProviderResult) (c : ProviderResult)
      → ((r : ProviderResult) → In r rs → P r)
      → first_with p rs ≡ some c
      → P c
  unfolding first_with
  first_with-P p [] c s h = absurd cc
  first_with-P p (r ∷ rs) c s h =
      if_cases (λ o. o ≡ some c → P c) (p r) _ _ (λ _. kept r c (s r (inl refl)))
        (λ _ e. first_with-P p rs c (λ q i. s q (inr i)) e) h

  worst_blocking-P :
      (rs : List ProviderResult) (top : Option ProviderResult) (c : ProviderResult)
      → ((r : ProviderResult) → In r rs → P r)
      → ((r : ProviderResult) → top ≡ some r → P r)
      → worst_blocking rs top ≡ some c
      → P c
  unfolding worst_blocking
  worst_blocking-P [] top c s t h = t c h
  worst_blocking-P (r ∷ rs) none c s t h =
      worst_blocking-P rs _ c (λ q i. s q (inr i))
        (λ q.
          if_cases (λ o. o ≡ some q → P q) (blocks r) (some r) none (λ _. kept r q (s r (inl refl)))
            (λ _. t q))
        h
  worst_blocking-P (r ∷ rs) (some b) c s t h =
      worst_blocking-P rs _ c (λ q i. s q (inr i))
        (λ q.
          if_cases (λ o. o ≡ some q → P q) (blocks r) _ (some b)
            (λ _.
              if_cases (λ o. o ≡ some q → P q) _ (some r) (some b) (λ _. kept r q (s r (inl refl)))
                (λ _. t q))
            (λ _. t q))
        h

  worst-P :
      (rs : List ProviderResult) (best : ProviderResult)
      → P best
      → ((r : ProviderResult) → In r rs → P r)
      → P (worst best rs)
  unfolding worst
  worst-P [] best b s = b
  worst-P (r ∷ rs) best b s =
      worst-P rs _ (if_cases P _ r best (λ _. s r (inl refl)) (λ _. b)) (λ q i. s q (inr i))

abbrev pub IsFused : (ProviderResult → Type 0) → Fused → Type 0
IsFused P f =
    (action_is_valid f.final_action ≡ true)
    × (band_is_valid f.final_band ≡ true)
    × (fused_is_known f.final_reason ≡ true)
    × P f.chosen

module _ (ua : RiskAction) (fine : action_is_valid ua ≡ true) (P : ProviderResult → Type 0)
    (sound : (r : ProviderResult) → P r → IsSound r) where
  fuse_single-IsFused : (r : ProviderResult) → P r → IsFused P (fuse_single ua r)
  unfolding fuse_single
  fuse_single-IsFused r x =
      let s = sound r x in
      if_cases (IsFused P) (lacks r) _ _ (λ _. (fine, refl, s.reason_ok, x))
        (λ _. (s.action_ok, s.band_ok, s.reason_ok, x))

  partly_known-IsFused :
      (u : ProviderResult) (o : Option ProviderResult)
      → P u
      → ((c : ProviderResult) → o ≡ some c → P c)
      → IsFused P (partly_known ua u o)
  partly_known-IsFused u none x y = (fine, refl, (sound u x).reason_ok, x)
  partly_known-IsFused u (some c) x y = (refl, refl, refl, y c refl)

  module _ (r : ProviderResult) (rs : List ProviderResult)
      (all_sound : (q : ProviderResult) → In q (r ∷ rs) → P q) where
    spanned :
        (top : RiskBand)
        → band_is_valid top ≡ true
        → band_is_valid (max_band_across (r ∷ rs) top) ≡ true
    spanned top h = max_band_across-valid (r ∷ rs) top (λ q i. sound q (all_sound q i)) h

    fuse_all-IsFused : IsFused P (fuse_all ua r rs)
    unfolding fuse_all
    fuse_all-IsFused = elim (Option-cases (first_with blocks (r ∷ rs))) [
      | inr (c, e) ↦
          rw (e, fuse_all)
            (refl, spanned critical refl, refl, first_with-P P blocks (r ∷ rs) c all_sound e)
      | inl e ↦ elim (Option-cases (first_with lacks (r ∷ rs))) [
        | inr (c, f) ↦
            let x = first_with-P P lacks (r ∷ rs) c all_sound f in
            rw (e, f, fuse_all) (fine, refl, (sound c x).reason_ok, x)
        | inl f ↦ elim (Option-cases (first_with reviews (r ∷ rs))) [
          | inr (c, g) ↦
              rw (e, f, g, fuse_all)
                (refl, spanned medium refl, refl, first_with-P P reviews (r ∷ rs) c all_sound g)
          | inl g ↦ rw (e, f, g, fuse_all) (refl, spanned low refl, refl, all_sound r (inl refl))
        ]
      ]
    ]

    fuse_highest-IsFused : IsFused P (fuse_highest ua r rs)
    unfolding fuse_highest
    fuse_highest-IsFused = elim (Option-cases (worst_blocking (r ∷ rs) none)) [
      | inr (c, e) ↦
          rw (e, fuse_highest)
            (
              refl,
              spanned critical refl,
              refl,
              worst_blocking-P P (r ∷ rs) none c all_sound (λ q k. absurd cc) e,
            )
      | inl e ↦ elim (Option-cases (first_with lacks (r ∷ rs))) [
        | inr (c, f) ↦
            rw (e, f, fuse_highest)
              (partly_known-IsFused c (first_with reviews (r ∷ rs))
                (first_with-P P lacks (r ∷ rs) c all_sound f)
                (λ q. first_with-P P reviews (r ∷ rs) q all_sound))
        | inl f ↦
            let x = worst-P P rs r (all_sound r (inl refl)) (λ q i. all_sound q (inr i)) in
            let s = sound (worst r rs) x in
            rw (e, f, fuse_highest) (s.action_ok, s.band_ok, s.action_ok, x)
      ]
    ]

  -- A mode of the code and a result give a fused result.
  pub fuse-IsFused :
      (m : FusionMode) (r : ProviderResult) (rs : List ProviderResult)
      → ((q : ProviderResult) → In q (r ∷ rs) → P q)
      → mode_is_valid m ≡ true
      → (f : Fused) × (fuse ua m (r ∷ rs) ≡ some f) × IsFused P f
  unfolding fuse
  fuse-IsFused single_provider r rs s h =
      (fuse_single ua r, refl, fuse_single-IsFused r (s r (inl refl)))
  fuse-IsFused all_must_allow r rs s h = (fuse_all ua r rs, refl, fuse_all-IsFused r rs s)
  fuse-IsFused highest_risk r rs s h = (fuse_highest ua r rs, refl, fuse_highest-IsFused r rs s)
  fuse-IsFused (other_mode t) r rs s h = absurd cc
