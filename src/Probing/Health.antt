-- ===== src/Probing/Health.antt =====
-- internal/domain/probe_health.go. Times are numbers of nanoseconds; `Sub` does not reach its limit of
-- 292 years.
pub mod Latest
use clash_sub_parser.Prelude.{
  ℕ, ◌-◌, String, Bool, true, false, not, ◌&&◌, ◌||◌, List, [], ◌∷◌, if◌then◌else◌, ltb, leb, ◌==◌,
  Option, none, some, same, String_discrete,
}
use clash_sub_parser.Prelude.Int.{ℤ, pos, negsuc, is_negative, to_ℕ}
use clash_sub_parser.Prelude.Strings.{codes, contains, codes_lt}
use clash_sub_parser.Prelude.Maps.{Map, find, set}

pub data Verdict : Type 0 where
  available restricted unknown error stale : Verdict
  other_verdict : String → Verdict

pub record Observation : Type 0 where
  pub id : String
  pub kind : String
  pub verdict : Verdict
  pub observed_at : ℕ
  pub latency_ms : ℤ
  pub redacted_summary : String
  pub connection_revision : Option ℤ

pub data BaselineHealth : Type 0 where
  healthy degraded unhealthy unknown_health : BaselineHealth

pub data NodeHealth : Type 0 where
  healthy degraded unhealthy undetermined untested : NodeHealth

-- `0 < z`
abbrev pub is_positive : ℤ → Bool
is_positive (pos n) = ltb 0 n
is_positive (negsuc n) = false

abbrev pub same_int : ℤ → ℤ → Bool
same_int (pos a) (pos b) = a == b
same_int (negsuc a) (negsuc b) = a == b
same_int _ _ = false

-- The last revision of the connection, where the observation has it.
abbrev pub is_of_revision : Option ℤ → ℤ → Bool
is_of_revision none r = false
is_of_revision (some q) r = is_positive r && same_int q r

-- A baseline observation of this revision that is neither of the future nor too old.
abbrev pub certifies : Observation → ℤ → ℕ → ℤ → Bool
certifies o revision now freshness =
    same o.kind "baseline"
    && is_of_revision o.connection_revision revision
    && is_positive freshness
    && not (ltb now o.observed_at)
    && ltb (now - o.observed_at) (to_ℕ freshness)

-- The health that a verdict shows.
unfoldable pub health_of : Observation → BaselineHealth × Bool
health_of o = elim o.verdict [
  | available ↦ (BaselineHealth.healthy, is_positive o.latency_ms)
  | restricted ↦ (BaselineHealth.degraded, is_positive o.latency_ms)
  | error ↦
      if contains (codes o.redacted_summary) (codes "reason=node_connect_failed")
      then (BaselineHealth.unhealthy, false)
      else (unknown_health, false)
  | _ ↦ (unknown_health, false)
]

-- `EvaluateBaselineHealth`
unfoldable pub evaluate_baseline_health : Option Observation → ℤ → ℕ → ℤ → BaselineHealth × Bool
unfolding health_of
evaluate_baseline_health none revision now freshness = (unknown_health, false)
evaluate_baseline_health (some o) revision now freshness =
    if certifies o revision now freshness then health_of o else (unknown_health, false)

abbrev pub category : BaselineHealth → NodeHealth
category BaselineHealth.healthy = NodeHealth.healthy
category BaselineHealth.degraded = NodeHealth.degraded
category BaselineHealth.unhealthy = NodeHealth.unhealthy
category unknown_health = undetermined

-- `ClassifyNodeHealth`
unfoldable pub classify_node_health : Map String Observation → ℤ → ℕ → ℤ → NodeHealth
unfolding evaluate_baseline_health
classify_node_health [] revision now freshness = untested
classify_node_health (e ∷ m) revision now freshness =
    category
      (evaluate_baseline_health (find String_discrete "baseline" (e ∷ m)) revision now freshness).0

-- `a` replaces `b`: it is later, or of the same time with a greater ID.
abbrev pub is_newer : Observation → Observation → Bool
is_newer a b =
    ltb b.observed_at a.observed_at
    || a.observed_at == b.observed_at && codes_lt (codes b.id) (codes a.id)

-- The body of the loop over the observations.
unfoldable pub observe : Observation → Map String Observation → Map String Observation
observe o m = elim (find String_discrete o.kind m) [
  | none ↦ set String_discrete o.kind o m
  | some old ↦ if is_newer o old then set String_discrete o.kind o m else m
]

unfoldable pub observe_all : List Observation → Map String Observation → Map String Observation
unfolding observe
observe_all [] m = m
observe_all (o ∷ os) m = observe_all os (observe o m)

-- `ClassifyNodeHealthFromSlice`
unfoldable pub classify_node_health_from_slice : List Observation → ℤ → ℕ → ℤ → NodeHealth
unfolding observe_all classify_node_health
classify_node_health_from_slice [] revision now freshness = untested
classify_node_health_from_slice (o ∷ os) revision now freshness =
    classify_node_health (observe_all (o ∷ os) []) revision now freshness
