-- ===== src/Risk/Policies.antt =====
-- Risk policies of internal/domain/iprisk.go and their validation.
pub mod Bands
pub mod Accepted
use clash_sub_parser.Prelude.{
  ℕ, zero, suc, ◌≤◌, String, Bool, true, false, not, ◌&&◌, ◌||◌, List, [], ◌∷◌, if◌then◌else◌, any,
  length, ◌==◌, Option, none, some, same, ◌≡◌, refl,
}
use clash_sub_parser.Prelude.Int.{ℤ, pos, negsuc}
use clash_sub_parser.Prelude.Sort.{sort_by}
use clash_sub_parser.Policy.Identifiers.{is_valid_uuid_v7}
use clash_sub_parser.Probing.Health.{is_positive, same_int}
use clash_sub_parser.Filters.Matching.{int_lt}
use clash_sub_parser.Resolver.Admission.{
  RiskAction, risk_allow, risk_block, risk_review, risk_unknown, other_risk,
}
use clash_sub_parser.Risk.Texts.{Scanner, no_failure, identifier_failure}

pub data RiskBand : Type 0 where
  low medium high critical unknown_band : RiskBand
  other_band : String → RiskBand

pub data Trait : Type 0 where
  proxy vpn tor residential_proxy hosting unknown_trait : Trait
  other_trait : String → Trait

pub data FusionMode : Type 0 where
  single_provider all_must_allow highest_risk : FusionMode
  other_mode : String → FusionMode

pub record ProviderRef : Type 0 where
  pub provider : String
  pub schema_version : String

pub record ScoreBand : Type 0 where
  pub min : ℤ
  pub max : ℤ
  pub band : RiskBand
  pub action : RiskAction

pub record TraitRule : Type 0 where
  pub rule_trait : Trait
  pub rule_action : RiskAction

pub record RiskPolicy : Type 0 where
  pub revision_id : String
  pub mode : FusionMode
  pub providers : List ProviderRef
  pub max_observation_age : ℤ
  pub minimum_confidence : ℤ
  pub score_bands : List ScoreBand
  pub trait_rules : List TraitRule
  pub unknown_action : RiskAction
  pub conflict_action : RiskAction
  pub review_action : RiskAction

-- `isPolicyAction`
abbrev pub is_policy_action : RiskAction → Bool
is_policy_action risk_allow = true
is_policy_action risk_review = true
is_policy_action risk_block = true
is_policy_action _ = false

-- `EffectiveUnknownAction`, `EffectiveConflictAction`, `EffectiveReviewAction` of the action they read
abbrev pub effective_action : RiskAction → RiskAction
effective_action a = if is_policy_action a then a else risk_review

abbrev pub band_is_valid : RiskBand → Bool
band_is_valid (other_band s) = false
band_is_valid _ = true

abbrev pub is_unknown_band : RiskBand → Bool
is_unknown_band unknown_band = true
is_unknown_band _ = false

abbrev pub trait_is_valid : Trait → Bool
trait_is_valid (other_trait s) = false
trait_is_valid _ = true

abbrev pub is_unknown_trait : Trait → Bool
is_unknown_trait unknown_trait = true
is_unknown_trait _ = false

abbrev pub mode_is_valid : FusionMode → Bool
mode_is_valid (other_mode s) = false
mode_is_valid _ = true

-- An action that is the empty text.
abbrev is_absent : RiskAction → Bool
is_absent (other_risk s) = same s ""
is_absent _ = false

pub data RiskError : Type 0 where
  invalid_policy_revision invalid_provider_selection invalid_provider_reference : RiskError
  duplicate_provider_reference invalid_policy_threshold : RiskError
  missing_score_bands incomplete_score_bands invalid_score_band overlapping_score_bands : RiskError
  invalid_trait_rule duplicate_trait_rule invalid_policy_action : RiskError
  invalid_fusion_mode invalid_decision invalid_summary invalid_node_id fetch_failed : RiskError

abbrev pub Failure : Type 0
Failure = Option RiskError

infixr 5 ◌or_else◌
abbrev pub ◌or_else◌ : Failure → Failure → Failure
none or_else g = g
some e or_else g = some e

abbrev pub refuse_if : Bool → RiskError → Failure
refuse_if b e = if b then some e else none

-- Where a chain of checks passes, its first check does, and so do the others.
pub or_else-none :
    (b : Bool) (e : RiskError) (f : Failure)
    → ((if b then some e else none) or_else f) ≡ none
    → (b ≡ false) × (f ≡ none)
or_else-none true e f h = absurd cc
or_else-none false e f h = (refl, h)

-- `n + 1`; the numbers of bands stay far below the limit of 64 bits.
abbrev pub int_succ : ℤ → ℤ
int_succ (pos n) = pos (suc n)
int_succ (negsuc zero) = pos 0
int_succ (negsuc (suc n)) = negsuc n

abbrev pub starts_before : ScoreBand → ScoreBand → Bool
starts_before a b = int_lt a.min b.min

abbrev pub is_bad_band : ScoreBand → Bool
is_bad_band b =
    int_lt b.min (pos 0)
    || (int_lt (pos 100) b.max
        || (int_lt b.max b.min
            || (not (band_is_valid b.band)
                || (is_unknown_band b.band || not (is_policy_action b.action)))))

-- The loop over the ordered bands after one that ends at `last`, and the test of the end.
unfoldable pub rest_failure : ℤ → List ScoreBand → Failure
rest_failure last [] = refuse_if (not (same_int last (pos 100))) incomplete_score_bands
rest_failure last (b ∷ bs) =
    refuse_if (is_bad_band b) invalid_score_band
    or_else refuse_if (not (same_int b.min (int_succ last))) overlapping_score_bands
    or_else rest_failure b.max bs

unfoldable pub ordered_failure : List ScoreBand → Failure
unfolding rest_failure
ordered_failure [] = some missing_score_bands
ordered_failure (b ∷ bs) =
    refuse_if (not (same_int b.min (pos 0))) incomplete_score_bands
    or_else refuse_if (is_bad_band b) invalid_score_band
    or_else rest_failure b.max bs

-- `validateScoreBands`. Bands with the same start are refused in every order.
unfoldable pub validate_score_bands : List ScoreBand → Failure
unfolding ordered_failure sort_by
validate_score_bands bands = ordered_failure (sort_by starts_before bands)

abbrev pub same_ref : ProviderRef → ProviderRef → Bool
same_ref p q = same p.provider q.provider && same p.schema_version q.schema_version

abbrev pub bad_trait_rule : TraitRule → Bool
bad_trait_rule r =
    not (trait_is_valid r.rule_trait)
    || (is_unknown_trait r.rule_trait || not (is_policy_action r.rule_action))

abbrev pub same_trait : Trait → Trait → Bool
same_trait proxy proxy = true
same_trait vpn vpn = true
same_trait tor tor = true
same_trait residential_proxy residential_proxy = true
same_trait hosting hosting = true
same_trait unknown_trait unknown_trait = true
same_trait (other_trait s) (other_trait t) = same s t
same_trait _ _ = false

-- Two rules on one trait.
abbrev has_twins : List TraitRule → Bool
has_twins [] = false
has_twins (r ∷ rs) =
    any (λ (q : TraitRule). same_trait r.rule_trait q.rule_trait) rs || has_twins rs

abbrev bad_action : RiskAction → Bool
bad_action a = not (is_absent a) && not (is_policy_action a)

abbrev pub is_single : FusionMode → Bool
is_single single_provider = true
is_single _ = false

module _ (scan : Scanner) where
  abbrev is_named : String → Bool
  is_named s = elim (identifier_failure scan s) [ no_failure ↦ true | _ ↦ false ]

  abbrev pub ref_is_named : ProviderRef → Bool
  ref_is_named p = is_named p.provider && is_named p.schema_version

  -- The loop over the providers, with those that were seen.
  unfoldable pub providers_failure : List ProviderRef → List ProviderRef → Failure
  providers_failure seen [] = none
  providers_failure seen (p ∷ ps) =
      refuse_if (not (ref_is_named p)) invalid_provider_reference
      or_else refuse_if (any (same_ref p) seen) duplicate_provider_reference
      or_else providers_failure (p ∷ seen) ps

  abbrev selection_is_bad : FusionMode → List ProviderRef → Bool
  selection_is_bad m ps = not (mode_is_valid m) || length ps == 0

  -- `RiskPolicy.Validate`
  unfoldable pub policy_failure : RiskPolicy → Failure
  unfolding providers_failure
  policy_failure p =
      refuse_if (not (is_valid_uuid_v7 p.revision_id)) invalid_policy_revision
      or_else refuse_if (selection_is_bad p.mode p.providers) invalid_provider_selection
      or_else refuse_if (is_single p.mode && not (length p.providers == 1))
          invalid_provider_selection
      or_else providers_failure [] p.providers
      or_else refuse_if
          (not (is_positive p.max_observation_age)
            || (int_lt p.minimum_confidence (pos 0) || int_lt (pos 100) p.minimum_confidence))
          invalid_policy_threshold
      or_else validate_score_bands p.score_bands
      or_else refuse_if (any bad_trait_rule p.trait_rules) invalid_trait_rule
      or_else refuse_if (has_twins p.trait_rules) duplicate_trait_rule
      or_else refuse_if
          (bad_action p.unknown_action
            || (bad_action p.conflict_action || bad_action p.review_action))
          invalid_policy_action
