-- ===== src/Risk/Policies/Accepted.antt =====
-- What `RiskPolicy.Validate` of internal/domain/iprisk.go makes sure of.
use clash_sub_parser.Prelude.{
  ◌≡◌, refl, ap, true, false, not, List, [], ◌∷◌, none, arith, inl, inr, any, any-count_if, length,
  ◌==◌, count_if,
}
use clash_sub_parser.Prelude.Int.{ℤ, pos}
use clash_sub_parser.Prelude.Members.{In}
use clash_sub_parser.Prelude.Sort.{sort_by, count_if-sort_by}
use clash_sub_parser.Policy.Identifiers.{is_valid_uuid_v7}
use clash_sub_parser.Probing.Health.{is_positive, same_int}
use clash_sub_parser.Risk.Texts.{Scanner}
use clash_sub_parser.Risk.Policies.{
  ScoreBand, ProviderRef, RiskPolicy, is_bad_band, starts_before, rest_failure, ordered_failure,
  validate_score_bands, bad_trait_rule, policy_failure, providers_failure, ref_is_named, same_ref,
  mode_is_valid, or_else-none, refuse_if, ◌or_else◌, int_succ, incomplete_score_bands,
  invalid_score_band, overlapping_score_bands, invalid_provider_reference,
  duplicate_provider_reference,
}

rest_failure_good :
    (last : ℤ) (bs : List ScoreBand) → rest_failure last bs ≡ none → count_if is_bad_band bs ≡ 0
unfolding rest_failure
rest_failure_good last [] h = refl
rest_failure_good last (b ∷ bs) h =
    let (fine, rest) =
      or_else-none (is_bad_band b) invalid_score_band
        (refuse_if (not (same_int b.min (int_succ last))) overlapping_score_bands
          or_else rest_failure b.max bs)
        h in
    let (meets, rest') =
      or_else-none (not (same_int b.min (int_succ last))) overlapping_score_bands
        (rest_failure b.max bs) rest in
    ground (arith, fine, rest_failure_good b.max bs rest')

ordered_failure_good :
    (bs : List ScoreBand) → ordered_failure bs ≡ none → count_if is_bad_band bs ≡ 0
unfolding ordered_failure
ordered_failure_good [] h = absurd cc
ordered_failure_good (b ∷ bs) h =
    let (starts, rest) =
      or_else-none (not (same_int b.min (pos 0))) incomplete_score_bands
        (refuse_if (is_bad_band b) invalid_score_band or_else rest_failure b.max bs) h in
    let (fine, rest') =
      or_else-none (is_bad_band b) invalid_score_band (rest_failure b.max bs) rest in
    ground (arith, fine, rest_failure_good b.max bs rest')

pub validate_score_bands_good :
    (bs : List ScoreBand) → validate_score_bands bs ≡ none → any is_bad_band bs ≡ false
unfolding validate_score_bands
validate_score_bands_good bs h = ground (
  arith,
  any-count_if is_bad_band bs,
  count_if-sort_by starts_before is_bad_band bs,
  ordered_failure_good (sort_by starts_before bs) h,
)

module _ (scan : Scanner) where
  pub providers_failure_good :
      (seen ps : List ProviderRef) (p : ProviderRef)
      → providers_failure scan seen ps ≡ none
      → In p ps
      → ref_is_named scan p ≡ true
  unfolding providers_failure
  providers_failure_good seen [] p h i = absurd i
  providers_failure_good seen (q ∷ ps) p h i =
      let (named, rest) =
        or_else-none (not (ref_is_named scan q)) invalid_provider_reference
          (refuse_if (any (same_ref q) seen) duplicate_provider_reference
            or_else providers_failure scan (q ∷ seen) ps)
          h in
      let (single, rest') =
        or_else-none (any (same_ref q) seen) duplicate_provider_reference
          (providers_failure scan (q ∷ seen) ps) rest in
      elim i [
        | inl e ↦ ground (arith, named, ap (ref_is_named scan) e)
        | inr j ↦ providers_failure_good (q ∷ seen) ps p rest' j
      ]

  -- What an accepted policy gives.
  pub record IsAccepted (p : RiskPolicy) : Type 0 where
    pub revision_ok : is_valid_uuid_v7 p.revision_id ≡ true
    pub mode_ok : mode_is_valid p.mode ≡ true
    pub some_provider : (length p.providers == 0) ≡ false
    pub providers_ok : providers_failure scan [] p.providers ≡ none
    pub age_ok : is_positive p.max_observation_age ≡ true
    pub bands_ok : validate_score_bands p.score_bands ≡ none
    pub rules_ok : any bad_trait_rule p.trait_rules ≡ false

  pub policy_failure-IsAccepted : (p : RiskPolicy) → policy_failure scan p ≡ none → IsAccepted p
  unfolding policy_failure
  policy_failure-IsAccepted p h = record {
    revision_ok = ground arith;
    mode_ok = ground arith;
    some_provider = ground arith;
    providers_ok = ground arith;
    age_ok = ground arith;
    bands_ok = ground arith;
    rules_ok = ground arith;
  }
