-- ===== src/Probing/Tests.antt =====
-- Concrete runs, schedules and observations of internal/domain/probe.go, probe_schedule.go and
-- probe_health.go.
use clash_sub_parser.Prelude.{
  String, ℕ, ◌≡◌, ◌≢◌, refl, ◌≤◌, ◌<◌, inl, inr, ◌⊎◌, Bool, true, false, not, List, [], ◌∷◌, arith,
  length, count_if, none, some,
}
use clash_sub_parser.Prelude.Int.{pos}
use clash_sub_parser.Probing.States.{
  RunState, queued, running, succeeded, failed, other_state, ProbeRun, transition_to,
}
use clash_sub_parser.Probing.States.Lifecycle.{request_all}
use clash_sub_parser.Probing.Health.{
  Observation, Verdict, available, restricted, error, healthy, classify_node_health_from_slice,
  category, evaluate_baseline_health,
}
use clash_sub_parser.Probing.Health.Latest.{classify_node_health_from_slice_lem}

abbrev new_run : ProbeRun
new_run = record { id = "r"; state = queued; updated_at = 1 }

abbrev done_run : ProbeRun
done_run = record { id = "r"; state = failed; updated_at = 4 }

abbrev requests : List (ℕ × RunState)
requests = (2, succeeded) ∷ (3, running) ∷ (4, failed) ∷ (5, queued) ∷ (6, other_state "odd") ∷ []

request_all_test : request_all requests new_run ≡ (done_run, 2)
unfolding request_all transition_to
request_all_test = refl

abbrev kinds : List String
kinds = "baseline" ∷ "speed" ∷ []

abbrev observation : String → String → Verdict → ℕ → Observation
observation i k v t = record {
  id = i;
  kind = k;
  verdict = v;
  observed_at = t;
  latency_ms = pos 20;
  redacted_summary = "";
  connection_revision = some (pos 3);
}

abbrev observations : List Observation
observations =
    observation "a" "baseline" error 10
    ∷ observation "c" "baseline" available 20
    ∷ observation "d" "speed" error 30
    ∷ observation "b" "baseline" restricted 20
    ∷ []

classify_node_health_from_slice_test :
    classify_node_health_from_slice observations (pos 3) 40 (pos 100) ≡ healthy
unfolding classify_node_health_from_slice clash_sub_parser.Prelude.Maps.find
    clash_sub_parser.Prelude.Maps.set clash_sub_parser.Prelude.String_discrete
classify_node_health_from_slice_test = refl

classify_node_health_from_slice_lem_example :
    classify_node_health_from_slice observations (pos 3) 40 (pos 100)
    ≡ category
        (evaluate_baseline_health
          (some (observation "c" "baseline" available 20))
          (pos 3)
          40
          (pos 100)).0
classify_node_health_from_slice_lem_example =
    classify_node_health_from_slice_lem observations (observation "c" "baseline" available 20)
      (pos 3) 40 (pos 100) (inr (inl refl)) refl
      (inr (inr refl), (inl refl, (inr (inl (λ e. cc)), (inr (inr refl), tt))))
