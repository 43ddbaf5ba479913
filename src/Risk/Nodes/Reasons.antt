-- ===== src/Risk/Nodes/Reasons.antt =====
-- The reason codes of `evaluateNodeCore` in internal/application/iprisk/service.go are safe.
use clash_sub_parser.Prelude.{
  ℕ, ◌≡◌, refl, Bool, true, false, not, ◌&&◌, ◌||◌, List, any, leb, ◌==◌,
}
use clash_sub_parser.Resolver.Admission.{
  risk_allow, risk_block, risk_review, risk_unknown, other_risk,
}
use clash_sub_parser.Risk.Texts.{
  Scanner, is_reason_code, has_secret_word, is_sensitive, is_safe_reason,
}
use clash_sub_parser.Risk.Policies.{
  low, medium, high, critical, unknown_band, other_band, proxy, vpn, tor, residential_proxy,
  hosting, unknown_trait, other_trait,
}
use clash_sub_parser.Risk.Providers.{
  available, unknown, error, stale, other_status, Reason, missing_observation,
  exit_identity_mismatch, observation_expired, observation_exceeded_max_age, missing_confidence,
  insufficient_confidence, missing_score, observation_status, trait_rule, score_band, no_reason,
}
use clash_sub_parser.Risk.Providers.Sound.{reason_is_known}
use clash_sub_parser.Risk.Fusion.{
  FusedReason, plain, must_allow, risk, must_allow_blocked, must_allow_review, must_allow_passed,
  risk_blocked, risk_under_review, risk_of,
}
use clash_sub_parser.Risk.Fusion.Sound.{fused_is_known}
use clash_sub_parser.Risk.Nodes.{fused_text, normalize_reason}

-- A text of small letters and `_`
abbrev pub is_wordy : List ℕ → Bool
is_wordy cs = not (any (λ c. not (leb b'a' c && leb c b'z' || c == b'_')) cs)

-- What the patterns of internal/domain/iprisk.go find has a `.`, a `:` or a `=` in it.
pub record IsQuiet (scan : Scanner) : Type 0 where
  pub no_address : (cs : List ℕ) → is_wordy cs ≡ true → scan.has_address cs ≡ false
  pub no_url_query : (cs : List ℕ) → is_wordy cs ≡ true → scan.has_url_query cs ≡ false
  pub no_query_secret : (cs : List ℕ) → is_wordy cs ≡ true → scan.has_query_secret cs ≡ false

abbrev IsPlain : FusedReason → Type 0
IsPlain f =
    (is_wordy (normalize_reason (fused_text f)) ≡ true)
    × (is_reason_code (normalize_reason (fused_text f)) ≡ true)
    × (has_secret_word (normalize_reason (fused_text f)) ≡ false)

-- Of a reason that the code itself makes, alone and behind the two prefixes.
reason_lem :
    (r : Reason)
    → reason_is_known r ≡ true
    → IsPlain (plain r) × IsPlain (must_allow r) × IsPlain (risk r)
unfolding normalize_reason fused_text is_reason_code has_secret_word
reason_lem missing_observation h = ((refl, refl, refl), (refl, refl, refl), (refl, refl, refl))
reason_lem exit_identity_mismatch h = ((refl, refl, refl), (refl, refl, refl), (refl, refl, refl))
reason_lem observation_expired h = ((refl, refl, refl), (refl, refl, refl), (refl, refl, refl))
reason_lem observation_exceeded_max_age h =
    ((refl, refl, refl), (refl, refl, refl), (refl, refl, refl))
reason_lem missing_confidence h = ((refl, refl, refl), (refl, refl, refl), (refl, refl, refl))
reason_lem insufficient_confidence h = ((refl, refl, refl), (refl, refl, refl), (refl, refl, refl))
reason_lem missing_score h = ((refl, refl, refl), (refl, refl, refl), (refl, refl, refl))
reason_lem no_reason h = ((refl, refl, refl), (refl, refl, refl), (refl, refl, refl))
reason_lem (observation_status available) h =
    ((refl, refl, refl), (refl, refl, refl), (refl, refl, refl))
reason_lem (observation_status unknown) h =
    ((refl, refl, refl), (refl, refl, refl), (refl, refl, refl))
reason_lem (observation_status error) h =
    ((refl, refl, refl), (refl, refl, refl), (refl, refl, refl))
reason_lem (observation_status stale) h =
    ((refl, refl, refl), (refl, refl, refl), (refl, refl, refl))
reason_lem (observation_status (other_status s)) h = absurd cc
reason_lem (trait_rule proxy) h = ((refl, refl, refl), (refl, refl, refl), (refl, refl, refl))
reason_lem (trait_rule vpn) h = ((refl, refl, refl), (refl, refl, refl), (refl, refl, refl))
reason_lem (trait_rule tor) h = ((refl, refl, refl), (refl, refl, refl), (refl, refl, refl))
reason_lem (trait_rule residential_proxy) h =
    ((refl, refl, refl), (refl, refl, refl), (refl, refl, refl))
reason_lem (trait_rule hosting) h = ((refl, refl, refl), (refl, refl, refl), (refl, refl, refl))
reason_lem (trait_rule unknown_trait) h =
    ((refl, refl, refl), (refl, refl, refl), (refl, refl, refl))
reason_lem (trait_rule (other_trait s)) h = absurd cc
reason_lem (score_band low) h = ((refl, refl, refl), (refl, refl, refl), (refl, refl, refl))
reason_lem (score_band medium) h = ((refl, refl, refl), (refl, refl, refl), (refl, refl, refl))
reason_lem (score_band high) h = ((refl, refl, refl), (refl, refl, refl), (refl, refl, refl))
reason_lem (score_band critical) h = ((refl, refl, refl), (refl, refl, refl), (refl, refl, refl))
reason_lem (score_band unknown_band) h =
    ((refl, refl, refl), (refl, refl, refl), (refl, refl, refl))
reason_lem (score_band (other_band s)) h = absurd cc

fused_lem : (f : FusedReason) → fused_is_known f ≡ true → IsPlain f
unfolding normalize_reason fused_text is_reason_code has_secret_word
fused_lem (plain r) h = (reason_lem r h).0
fused_lem (must_allow r) h = (reason_lem r h).1
fused_lem (risk r) h = (reason_lem r h).2
fused_lem (risk_of (other_risk s)) h = absurd cc
fused_lem must_allow_blocked h = (refl, refl, refl)
fused_lem must_allow_review h = (refl, refl, refl)
fused_lem must_allow_passed h = (refl, refl, refl)
fused_lem risk_blocked h = (refl, refl, refl)
fused_lem risk_under_review h = (refl, refl, refl)
fused_lem (risk_of risk_allow) h = (refl, refl, refl)
fused_lem (risk_of risk_block) h = (refl, refl, refl)
fused_lem (risk_of risk_review) h = (refl, refl, refl)
fused_lem (risk_of risk_unknown) h = (refl, refl, refl)

pub fused_reason_is_safe :
    (scan : Scanner) (f : FusedReason)
    → IsQuiet scan
    → fused_is_known f ≡ true
    → is_safe_reason scan (normalize_reason (fused_text f)) ≡ true
unfolding is_safe_reason is_sensitive
fused_reason_is_safe scan f q h =
    let (w, c, s) = fused_lem f h in
    rw (c, q.no_address _ w, q.no_url_query _ w, q.no_query_secret _ w, s) refl
