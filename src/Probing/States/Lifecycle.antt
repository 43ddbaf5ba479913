-- ===== src/Probing/States/Lifecycle.antt =====
-- Requests for transitions, in any order, on one run of internal/domain/probe.go.
use clash_sub_parser.Prelude.{
  ℕ, ◌+◌, ◌≤◌, ◌≡◌, refl, ◌⊎◌, inl, inr, ap, ◌<◌, true, false, not, List, [], ◌∷◌, arith,
  if◌then◌else◌, any, count_if, length, none, same, String, String_discrete, Bool-cases,
}
use clash_sub_parser.Probing.States.{
  RunState, queued, running, succeeded, failed, cancelled, expired, other_state, is_terminal,
  state_is_valid, can_transition_to, ProbeRun, transition_to, kind_is_valid, kinds_failure,
  schedule_failure,
}

-- Requests one after the other: the run afterwards, and how many were granted.
unfoldable pub request_all : List (ℕ × RunState) → ProbeRun → ProbeRun × ℕ
request_all [] r = (r, 0)
request_all ((now, target) ∷ requests) r =
    let (r', ok) = transition_to now target r in
    let (r'', n) = request_all requests r' in (r'', if ok then n + 1 else n)

-- The number of steps that may come.
abbrev steps_left : RunState → ℕ
steps_left queued = 2
steps_left running = 1
steps_left _ = 0

-- A granted request uses up a step, and leads to one of the states.
can_transition_to-steps_left :
    (s t : RunState)
    → can_transition_to s t ≡ true
    → (steps_left t < steps_left s) × (state_is_valid t ≡ true) × (is_terminal s ≡ false)
unfolding can_transition_to
can_transition_to-steps_left queued queued h = absurd cc
can_transition_to-steps_left queued running h = (omega arith, refl, refl)
can_transition_to-steps_left queued succeeded h = absurd cc
can_transition_to-steps_left queued failed h = absurd cc
can_transition_to-steps_left queued cancelled h = (omega arith, refl, refl)
can_transition_to-steps_left queued expired h = (omega arith, refl, refl)
can_transition_to-steps_left queued (other_state y) h = absurd cc
can_transition_to-steps_left running queued h = absurd cc
can_transition_to-steps_left running running h = absurd cc
can_transition_to-steps_left running succeeded h = (omega arith, refl, refl)
can_transition_to-steps_left running failed h = (omega arith, refl, refl)
can_transition_to-steps_left running cancelled h = (omega arith, refl, refl)
can_transition_to-steps_left running expired h = (omega arith, refl, refl)
can_transition_to-steps_left running (other_state y) h = absurd cc
can_transition_to-steps_left succeeded t h = ground arith
can_transition_to-steps_left failed t h = ground arith
can_transition_to-steps_left cancelled t h = ground arith
can_transition_to-steps_left expired t h = ground arith
can_transition_to-steps_left (other_state x) t h = ground arith

transition_to_cases :
    (now : ℕ) (target : RunState) (r : ProbeRun)
    → ((transition_to now target r).1 ≡ false) × ((transition_to now target r).0 ≡ r)
      ⊎ ((transition_to now target r).1 ≡ true)
        × (can_transition_to r.state target ≡ true)
        × ((transition_to now target r).0.state ≡ target)
unfolding transition_to
transition_to_cases now target r = elim (Bool-cases (can_transition_to r.state target)) [
  | inl e ↦ inr (ground (arith, e))
  | inr e ↦ inl (ground (arith, e))
]

request_all-steps_left :
    (requests : List (ℕ × RunState)) (r : ProbeRun)
    → ((request_all requests r).1 + steps_left (request_all requests r).0.state
        ≤ steps_left r.state)
      × (state_is_valid r.state ≡ true → state_is_valid (request_all requests r).0.state ≡ true)
unfolding request_all
request_all-steps_left [] r = (omega arith, λ h. h)
request_all-steps_left ((now, target) ∷ requests) r =
    let (a, b) = request_all-steps_left requests (transition_to now target r).0 in
    elim (transition_to_cases now target r) [
      | inl (e, f) ↦ ground (
        arith,
        e,
        a,
        b,
        ap steps_left (ap (λ (x : ProbeRun). x.state) f),
        ap (λ (x : ProbeRun). x.state) f,
      )
      | inr (e, c, f) ↦
          let (u, v, w) = can_transition_to-steps_left r.state target c in
          ground (arith, e, f, a, b, u, v, ap steps_left f, ap state_is_valid f)
    ]

-- Whatever transitions are requested of a run with a known state, in whatever order, at most two are
-- granted and the run stays in a known state.
pub request_all_lem :
    (requests : List (ℕ × RunState)) (r : ProbeRun)
    → state_is_valid r.state ≡ true
    → ((request_all requests r).1 ≤ 2) × (state_is_valid (request_all requests r).0.state ≡ true)
request_all_lem requests r h =
    let (a, b) = request_all-steps_left requests r in (omega (arith, a, few r.state), b h)
  where
    few : (s : RunState) → steps_left s ≤ 2
    few s = ground arith

-- A run in a terminal state stays as it is, whatever is requested of it, and no request is granted.
pub request_all-is_terminal :
    (requests : List (ℕ × RunState)) (r : ProbeRun)
    → is_terminal r.state ≡ true
    → request_all requests r ≡ (r, 0)
unfolding request_all
request_all-is_terminal [] r h = refl
request_all-is_terminal ((now, target) ∷ requests) r h = elim (transition_to_cases now target r) [
  | inl (e, f) ↦
      ground (arith, e, f, request_all-is_terminal requests r h, ap (request_all requests) f)
  | inr (e, c, f) ↦ absurd (ground (arith, h, can_transition_to-steps_left r.state target c))
]

-- No kind stands in the list twice.
abbrev pub IsDistinct : List String → Type 0
IsDistinct [] = Unit
IsDistinct (k ∷ ks) = (any (same k) ks ≡ false) × IsDistinct ks

kinds_failure-none :
    (seen ks : List String)
    → kinds_failure seen ks ≡ none
    → (count_if (λ k. not (kind_is_valid k)) ks ≡ 0)
      × IsDistinct ks
      × ((k : String) → any (same k) seen ≡ true → any (same k) ks ≡ false)
unfolding kinds_failure
kinds_failure-none seen [] h = (refl, tt, λ k e. refl)
kinds_failure-none seen (k ∷ ks) h =
    let (a, b, c) = kinds_failure-none (k ∷ seen) ks (ground arith) in
    (
      ground arith,
      (c k (ground arith), b),
      λ j e. elim (String_discrete j k) [
        | yes q ↦ absurd (ground (arith, ap (λ x. any (same x) seen) q))
        | no ne ↦ ground (arith, ne, c j)
      ],
    )

-- A schedule that passes its validation has an interval between a minute and a week, at least one
-- kind, and no kind that is unknown or stands in it twice.
pub schedule_failure-none :
    (interval : ℕ) (kinds : List String)
    → schedule_failure interval kinds ≡ none
    → (60 ≤ interval)
      × (interval ≤ 604800)
      × (0 < length kinds)
      × (count_if (λ k. not (kind_is_valid k)) kinds ≡ 0)
      × IsDistinct kinds
unfolding schedule_failure
schedule_failure-none interval [] h = absurd (ground arith)
schedule_failure-none interval (k ∷ ks) h =
    let (a, b, c) = kinds_failure-none [] (k ∷ ks) (ground arith) in
    (ground arith, ground arith, omega arith, a, b)
