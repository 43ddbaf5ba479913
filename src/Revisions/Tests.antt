-- ===== src/Revisions/Tests.antt =====
-- A history of the revisions of internal/application/revision/service.go.
use clash_sub_parser.Prelude.{
  String, ◌≡◌, refl, true, List, [], ◌∷◌, none, some, same, if◌then◌else◌, String_discrete,
}
use clash_sub_parser.Prelude.Int.{pos}
use clash_sub_parser.Prelude.Maps.{find, set}
use clash_sub_parser.Prelude.Sort.{sort_texts}
use clash_sub_parser.Policy.Source.{Filters}
use clash_sub_parser.Policy.Topology.{GroupType}
use clash_sub_parser.Revisions.Rows.{
  draft, active, archived, Revision, ok, StoredGroup, Database, row_of, set_active, differs,
}
use clash_sub_parser.Revisions.Service.{activate, graph_is_valid}
use clash_sub_parser.Revisions.Lifecycle.{Lives, states_of, retired}
use clash_sub_parser.Revisions.History.{
  Call, create_call, ensure_call, activate_call, run, run_refines, run-IsSingle, IsSingle,
}
use clash_sub_parser.Revisions.Fresh.{IsPresent, activate-IsPresent}

abbrev no_filters : Filters
no_filters = record { Spec = Unit; spec_is_valid = λ f. true; regex_compiles = λ p. true }

abbrev digest : List (StoredGroup no_filters) → String
digest gs = "d"

abbrev empty : Database no_filters
empty = record {
  revisions = [];
  snapshots = [];
  groups = [];
  edges = [];
  policy_rules = λ i. [];
  admission_rules = λ i. [];
}

abbrev calls : List (Call no_filters)
calls =
    ensure_call "first" 1
    ∷ create_call draft (some "first") "second" 2
    ∷ activate_call "second"
    ∷ activate_call "first"
    ∷ []

abbrev group_of : String → StoredGroup no_filters
group_of n = record {
  group = record {
    id = "01890000-0000-7000-8000-000000000001";
    name = n;
    group_type = GroupType.select;
    sources = [];
  };
  revision = pos 1;
}

abbrev rows : Database no_filters
rows = record empty {
  groups = group_of "g" ∷ [];
  snapshots = ("second", group_of "g" ∷ []) ∷ [];
  revisions =
      record {
        id = "first";
        parent_id = none;
        content_digest = "d";
        state = active;
        created_at = 1;
      }
      ∷ record {
        id = "second";
        parent_id = none;
        content_digest = "d";
        state = draft;
        created_at = 2;
      }
      ∷ [];
}

-- The second revision becomes active, and the first cannot come back.
run_test :
    (states_of (run no_filters digest calls empty).revisions "first" ≡ some archived)
    × (states_of (run no_filters digest calls empty).revisions "second" ≡ some active)
unfolding run String_discrete clash_sub_parser.Policy.Cycles.search_all sort_texts
    clash_sub_parser.Policy.Rules.validate_policy_rules set_active find set differs
run_test = (refl, refl)

run_refines_example : Lives (states_of []) (states_of (run no_filters digest calls empty).revisions)
run_refines_example = run_refines no_filters digest calls empty

empty_IsSingle : IsSingle (states_of [])
unfolding row_of
empty_IsSingle i j p q = absurd cc

run-IsSingle_example : IsSingle (states_of (run no_filters digest calls empty).revisions)
run-IsSingle_example = run-IsSingle no_filters digest calls empty empty_IsSingle

activated_second : (r : Revision) × ((activate no_filters digest "second" rows).1 ≡ ok r)
unfolding activate String_discrete graph_is_valid
    clash_sub_parser.Policy.Identifiers.is_valid_uuid_v7 clash_sub_parser.Policy.Cycles.search_all
    sort_texts clash_sub_parser.Policy.Graph.neighbors set
    clash_sub_parser.Policy.Rules.validate_policy_rules find differs set_active
activated_second = (_, refl)

activate-IsPresent_example :
    (snapshot : List (StoredGroup no_filters)) × (find String_discrete "second" rows.snapshots
      ≡ some snapshot)
    × IsPresent no_filters digest rows snapshot
    × (states_of rows.revisions "second" ≡ some draft)
    × (states_of (activate no_filters digest "second" rows).0.revisions "first" ≡ (
        if same "first" "second" then some active else retired (states_of rows.revisions "first")))
activate-IsPresent_example =
    activate-IsPresent no_filters digest "second" "first" rows activated_second.0 activated_second.1
