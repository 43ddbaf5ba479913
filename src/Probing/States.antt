-- ===== src/Probing/States.antt =====
-- `ProbeRun` of internal/domain/probe.go and `ProbeBatch` and `ProbeSchedule` of
-- internal/domain/probe_schedule.go. The identifiers, leases and counts of a run or batch are not read
-- by the transitions.
pub mod Lifecycle
use clash_sub_parser.Prelude.{
  ℕ, String, Bool, true, false, not, ◌&&◌, ◌||◌, List, [], ◌∷◌, if◌then◌else◌, ltb, leb, any,
  Option, none, some, same,
}

-- `queued` is also the "pending" of a batch.
pub data RunState : Type 0 where
  queued running succeeded failed cancelled expired : RunState
  other_state : String → RunState

abbrev pub state_is_valid : RunState → Bool
state_is_valid (other_state s) = false
state_is_valid _ = true

abbrev pub is_terminal : RunState → Bool
is_terminal succeeded = true
is_terminal failed = true
is_terminal cancelled = true
is_terminal expired = true
is_terminal _ = false

-- The `switch` of `CanTransitionTo`.
abbrev may_follow : RunState → RunState → Bool
may_follow queued running = true
may_follow queued cancelled = true
may_follow queued expired = true
may_follow running succeeded = true
may_follow running failed = true
may_follow running cancelled = true
may_follow running expired = true
may_follow _ _ = false

-- `CanTransitionTo`, of a run and of a batch.
unfoldable pub can_transition_to : RunState → RunState → Bool
can_transition_to state target =
    if not (state_is_valid target)
    then false
    else if is_terminal state
    then false
    else may_follow state target

pub record ProbeRun : Type 0 where
  pub id : String
  pub state : RunState
  pub updated_at : ℕ

-- `TransitionTo`: the run afterwards, and whether it returns nil.
unfoldable pub transition_to : ℕ → RunState → ProbeRun → ProbeRun × Bool
unfolding can_transition_to
transition_to now target r =
    if can_transition_to r.state target
    then (record r { state = target; updated_at = now }, true)
    else (r, false)

pub data ScheduleError : Type 0 where
  invalid_interval invalid_kinds invalid_kind duplicate_kind : ScheduleError

abbrev pub kind_is_valid : String → Bool
kind_is_valid k =
    same k "baseline"
    || same k "geo"
    || same k "streaming"
    || same k "ai"
    || same k "speed"
    || same k "ip_risk"

-- The loop over the kinds, with those that were seen.
unfoldable pub kinds_failure : List String → List String → Option ScheduleError
kinds_failure seen [] = none
kinds_failure seen (k ∷ ks) =
    let rest = kinds_failure (k ∷ seen) ks in
    if not (kind_is_valid k)
    then some invalid_kind
    else if any (same k) seen
    then some duplicate_kind
    else rest

-- `ProbeSchedule.Validate`. A negative interval fails as one below the bound does.
unfoldable pub schedule_failure : ℕ → List String → Option ScheduleError
unfolding kinds_failure
schedule_failure interval [] =
    if ltb interval 60 || ltb 604800 interval then some invalid_interval else some invalid_kinds
schedule_failure interval (k ∷ ks) =
    if ltb interval 60 || ltb 604800 interval
    then some invalid_interval
    else kinds_failure [] (k ∷ ks)
