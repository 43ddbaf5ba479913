-- ===== src/Risk/Fusion.antt =====
-- How `evaluateNodeCore` of internal/application/iprisk/service.go joins the results of the providers.
pub mod Cautious
pub mod Sound
use clash_sub_parser.Prelude.{
  ℕ, String, Bool, true, false, not, ◌&&◌, ◌||◌, List, [], ◌∷◌, if◌then◌else◌, ltb, leb, ◌==◌, any,
  Option, none, some, same, String_discrete,
}
use clash_sub_parser.Prelude.Strings.{codes, codes_lt}
use clash_sub_parser.Prelude.Maps.{Map}
use clash_sub_parser.Resolver.Admission.{
  RiskAction, risk_allow, risk_block, risk_review, risk_unknown, other_risk,
}
use clash_sub_parser.Risk.Policies.{
  RiskBand, low, medium, high, critical, unknown_band, FusionMode, single_provider, all_must_allow,
  highest_risk, other_mode, ProviderRef, RiskPolicy, effective_action, is_unknown_band,
}
use clash_sub_parser.Risk.Providers.{
  IpRiskObservation, IpRiskStatus, Reason, ProviderResult, band_rank, action_rank,
  evaluate_provider, is_blocking,
}

-- Where `o` takes the place of the observation that was kept.
abbrev pub is_later : IpRiskObservation → IpRiskObservation → Bool
is_later o kept =
    ltb kept.observed_at o.observed_at
    || o.observed_at == kept.observed_at && codes_lt (codes kept.id) (codes o.id)

abbrev pub is_of : String → ProviderRef → IpRiskObservation → Bool
is_of node ref o =
    same o.node_logical_id node
    && (same o.provider ref.provider && same o.provider_schema_version ref.schema_version)

abbrev pub keep_later : IpRiskObservation → Option IpRiskObservation → Option IpRiskObservation
keep_later o none = some o
keep_later o (some kept) = if is_later o kept then some o else some kept

-- The entry of `latestByProvider` for one provider, after the loop over the observations.
unfoldable pub latest_of :
    String
    → ProviderRef
    → List IpRiskObservation
    → Option IpRiskObservation
    → Option IpRiskObservation
latest_of node ref [] kept = kept
latest_of node ref (o ∷ os) kept =
    latest_of node ref os (if is_of node ref o then keep_later o kept else kept)

unfoldable pub evaluate_providers :
    RiskPolicy
    → String
    → String
    → ℕ
    → List IpRiskObservation
    → List ProviderRef
    → List ProviderResult
unfolding latest_of evaluate_provider
evaluate_providers policy node expected now os [] = []
evaluate_providers policy node expected now os (ref ∷ refs) =
    evaluate_provider policy ref expected now (latest_of node ref os none)
    ∷ evaluate_providers policy node expected now os refs

-- The reason of a fused result; `all_must_allow_` and `highest_risk_` stand before the reason that
-- they pass on.
pub data FusedReason : Type 0 where
  plain must_allow risk : Reason → FusedReason
  must_allow_blocked must_allow_review must_allow_passed : FusedReason
  risk_blocked risk_under_review : FusedReason
  risk_of : RiskAction → FusedReason

pub record Fused : Type 0 where
  pub final_action : RiskAction
  pub final_band : RiskBand
  pub final_reason : FusedReason
  pub chosen : ProviderResult

abbrev pub is_reviewing : RiskAction → Bool
is_reviewing risk_review = true
is_reviewing _ = false

abbrev is_unknown_action : RiskAction → Bool
is_unknown_action risk_unknown = true
is_unknown_action _ = false

abbrev pub blocks : ProviderResult → Bool
blocks r = is_blocking r.action

abbrev pub lacks : ProviderResult → Bool
lacks r = is_unknown_action r.action || not r.is_available

abbrev pub reviews : ProviderResult → Bool
reviews r = is_reviewing r.action

-- The first result that passes the test.
unfoldable pub first_with : (ProviderResult → Bool) → List ProviderResult → Option ProviderResult
first_with p [] = none
first_with p (r ∷ rs) = let rest = first_with p rs in if p r then some r else rest

-- `maxBandAcross`
unfoldable pub max_band_across : List ProviderResult → RiskBand → RiskBand
unfolding band_rank
max_band_across [] top = top
max_band_across (r ∷ rs) top = max_band_across rs (
    if not (is_unknown_band r.risk_band) && ltb (band_rank top) (band_rank r.risk_band)
    then r.risk_band
    else top)

-- The blocking result of the highest band.
unfoldable pub worst_blocking : List ProviderResult → Option ProviderResult → Option ProviderResult
unfolding band_rank
worst_blocking [] top = top
worst_blocking (r ∷ rs) top = worst_blocking rs (
    if blocks r
    then elim top [
      | none ↦ some r
      | some b ↦
          if same b.ref.provider "" || ltb (band_rank b.risk_band) (band_rank r.risk_band)
          then some r
          else some b
    ]
    else top)

-- The result of the highest band, of the strictest action among those.
unfoldable pub worst : ProviderResult → List ProviderResult → ProviderResult
unfolding band_rank action_rank
worst best [] = best
worst best (r ∷ rs) =
    worst
      (if ltb (band_rank best.risk_band) (band_rank r.risk_band)
          || band_rank r.risk_band == band_rank best.risk_band
            && ltb (action_rank best.action) (action_rank r.action)
        then r
        else best)
      rs

module _ (unknown_action : RiskAction) where
  abbrev pub unknown_fused : FusedReason → ProviderResult → Fused
  unknown_fused why r = record {
    final_action = unknown_action;
    final_band = unknown_band;
    final_reason = why;
    chosen = r;
  }

  unfoldable pub fuse_single : ProviderResult → Fused
  unfolding unknown_fused
  fuse_single r = if lacks r then unknown_fused (plain r.reason) r else record {
    final_action = r.action;
    final_band = r.risk_band;
    final_reason = plain r.reason;
    chosen = r;
  }

  abbrev pub passed : ProviderResult → List ProviderResult → Fused
  passed r rs = record {
    final_action = risk_allow;
    final_band = max_band_across (r ∷ rs) low;
    final_reason = must_allow_passed;
    chosen = r;
  }

  abbrev pub reviewed : ProviderResult → List ProviderResult → Fused
  reviewed c rs = record {
    final_action = risk_review;
    final_band = max_band_across rs medium;
    final_reason = must_allow_review;
    chosen = c;
  }

  abbrev pub blocked : FusedReason → ProviderResult → List ProviderResult → Fused
  blocked why c rs = record {
    final_action = risk_block;
    final_band = max_band_across rs critical;
    final_reason = why;
    chosen = c;
  }

  -- `RiskFusionAllMustAllow`, on the results `r ∷ rs`
  unfoldable pub fuse_all : ProviderResult → List ProviderResult → Fused
  unfolding first_with max_band_across
  fuse_all r rs = elim (first_with blocks (r ∷ rs)) [
    | some c ↦ blocked must_allow_blocked c (r ∷ rs)
    | none ↦ elim (first_with lacks (r ∷ rs)) [
      | some c ↦ unknown_fused (must_allow c.reason) c
      | none ↦ elim (first_with reviews (r ∷ rs)) [
        | some c ↦ reviewed c (r ∷ rs)
        | none ↦ passed r rs
      ]
    ]
  ]

  abbrev pub partly_known : ProviderResult → Option ProviderResult → Fused
  partly_known u none = unknown_fused (risk u.reason) u
  partly_known u (some c) = record {
    final_action = risk_review;
    final_band = medium;
    final_reason = risk_under_review;
    chosen = c;
  }

  abbrev pub highest : ProviderResult → Fused
  highest b = record {
    final_action = b.action;
    final_band = b.risk_band;
    final_reason = risk_of b.action;
    chosen = b;
  }

  -- `RiskFusionHighestRisk`, on the results `r ∷ rs`
  unfoldable pub fuse_highest : ProviderResult → List ProviderResult → Fused
  unfolding worst_blocking max_band_across first_with worst
  fuse_highest r rs = elim (worst_blocking (r ∷ rs) none) [
    | some c ↦ blocked risk_blocked c (r ∷ rs)
    | none ↦ elim (first_with lacks (r ∷ rs)) [
      | some c ↦ partly_known c (first_with reviews (r ∷ rs))
      | none ↦ highest (worst r rs)
    ]
  ]

  -- The modes. A validated policy has a mode and a provider, so `none` is not met.
  unfoldable pub fuse : FusionMode → List ProviderResult → Option Fused
  unfolding fuse_single fuse_all fuse_highest
  fuse m [] = none
  fuse m (r ∷ rs) = elim m [
    | single_provider ↦ some (fuse_single r)
    | all_must_allow ↦ some (fuse_all r rs)
    | highest_risk ↦ some (fuse_highest r rs)
    | other_mode s ↦ none
  ]
