-- ===== src/Risk/Policies/Bands.antt =====
-- What the validation of score bands in internal/domain/iprisk.go makes sure of.
use clash_sub_parser.Prelude.{
  ℕ, suc, ◌≤◌, ◌≡◌, refl, sym, ◌∙◌, true, false, not, ◌||◌, List, [], ◌∷◌, if◌then◌else◌, count_if,
  none, arith, leb,
}
use clash_sub_parser.Prelude.Int.{ℤ, pos, negsuc}
use clash_sub_parser.Prelude.Sort.{sort_by, count_if-sort_by}
use clash_sub_parser.Probing.Health.{same_int}
use clash_sub_parser.Filters.Matching.{int_lt}
use clash_sub_parser.Risk.Policies.{
  ScoreBand, is_bad_band, starts_before, rest_failure, ordered_failure, validate_score_bands,
  band_is_valid, is_unknown_band, is_policy_action, ◌or_else◌, or_else-none, refuse_if,
  incomplete_score_bands, invalid_score_band, overlapping_score_bands,
}
use clash_sub_parser.Risk.Providers.{in_band}

-- A band that starts at `lo` and is not bad.
good_band :
    (b : ScoreBand) (lo : ℕ)
    → is_bad_band b ≡ false
    → b.min ≡ pos lo
    → (hi : ℕ) × (b.max ≡ pos hi) × (lo ≤ hi) × (hi ≤ 100)
good_band b lo h e = high_end b.max (rw e at h)
  where
    high_end :
        (m : ℤ)
        → (int_lt (pos lo) (pos 0)
            || (int_lt (pos 100) m
                || (int_lt m (pos lo)
                    || (not (band_is_valid b.band)
                        || (is_unknown_band b.band || not (is_policy_action b.action))))))
          ≡ false
        → (hi : ℕ) × (m ≡ pos hi) × (lo ≤ hi) × (hi ≤ 100)
    high_end (pos hi) k = (hi, refl, ground arith, ground arith)
    high_end (negsuc hi) k = absurd (ground arith)

in_band_iff :
    (n : ℕ) (b : ScoreBand) (lo hi : ℕ)
    → b.min ≡ pos lo
    → b.max ≡ pos hi
    → in_band (pos n) b ≡ (if leb lo n then leb n hi else false)
in_band_iff n b lo hi p q = rw (p, q) (ground arith)

eq_of_same_int : (m : ℤ) (k : ℕ) → same_int m (pos k) ≡ true → m ≡ pos k
eq_of_same_int (pos n) k h = ground arith
eq_of_same_int (negsuc n) k h = absurd cc

-- How many of the bands behind one that ends at `hi` hold a score.
count_rest :
    (n hi : ℕ) (bs : List ScoreBand)
    → n ≤ 100
    → hi ≤ 100
    → rest_failure (pos hi) bs ≡ none
    → count_if (in_band (pos n)) bs ≡ (if leb n hi then 0 else 1)
unfolding rest_failure
count_rest n hi [] k l h = ground arith
count_rest n hi (b ∷ bs) k l h =
    let (fine, rest) =
      or_else-none (is_bad_band b) invalid_score_band
        (refuse_if (not (same_int b.min (pos (suc hi)))) overlapping_score_bands
          or_else rest_failure b.max bs)
        h in
    let (meets, rest') =
      or_else-none (not (same_int b.min (pos (suc hi)))) overlapping_score_bands
        (rest_failure b.max bs) rest in
    let start = eq_of_same_int b.min (suc hi) (ground (arith, meets)) in
    let (top, e, p, q) = good_band b (suc hi) fine start in
    let ih = count_rest n top bs k q (rw e at rest') in
    let holds = in_band_iff n b (suc hi) top start e in rw holds (ground (arith, ih))

count_ordered :
    (n : ℕ) (bs : List ScoreBand)
    → n ≤ 100
    → ordered_failure bs ≡ none
    → count_if (in_band (pos n)) bs ≡ 1
unfolding ordered_failure
count_ordered n [] k h = absurd cc
count_ordered n (b ∷ bs) k h =
    let (starts, rest) =
      or_else-none (not (same_int b.min (pos 0))) incomplete_score_bands
        (refuse_if (is_bad_band b) invalid_score_band or_else rest_failure b.max bs) h in
    let (fine, rest') =
      or_else-none (is_bad_band b) invalid_score_band (rest_failure b.max bs) rest in
    let start = eq_of_same_int b.min 0 (ground (arith, starts)) in
    let (top, e, p, q) = good_band b 0 fine start in
    let ih = count_rest n top bs k q (rw e at rest') in
    let holds = in_band_iff n b 0 top start e in rw holds (ground (arith, ih))

-- Accepted bands cover the scores from 0 to 100, and no two of them meet.
pub validate_score_bands-covers :
    (bands : List ScoreBand) (n : ℕ)
    → validate_score_bands bands ≡ none
    → n ≤ 100
    → count_if (in_band (pos n)) bands ≡ 1
unfolding validate_score_bands
validate_score_bands-covers bands n h k =
    sym (count_if-sort_by starts_before (in_band (pos n)) bands)
    ∙ count_ordered n (sort_by starts_before bands) k h
