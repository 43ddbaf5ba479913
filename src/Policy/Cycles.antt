-- ===== src/Policy/Cycles.antt =====
-- The three-colour depth-first search of `ValidatePolicyTopology` in internal/domain/policy.go. Colours
-- are 0 for white, 1 for grey and 2 for black. The recursion runs on fuel; `Total` shows that the
-- number of groups is enough.
pub mod Sound
pub mod Total
pub mod Path
use clash_sub_parser.Prelude.{
  ℕ, zero, suc, String, Bool, List, [], ◌∷◌, ◌++◌, if◌then◌else◌, ◌==◌, String_discrete, same,
}
use clash_sub_parser.Prelude.Maps.{Map, get, set}
use clash_sub_parser.Policy.Graph.{Adjacency, neighbors}

pub record Search : Type 0 where
  pub color : Map String ℕ
  pub stack : List String

pub data Outcome : Type 0 where
  done : Search → Outcome
  cycle : List String → Outcome
  out_of_fuel : Outcome

abbrev pub color_of : String → Search → ℕ
color_of u d = get String_discrete 0 u d.color

-- `stack[idx:]` from the first place of `v`.
unfoldable pub drop_until : String → List String → List String
drop_until v [] = []
drop_until v (s ∷ stack) = if same s v then s ∷ stack else drop_until v stack

-- The path that the error carries.
unfoldable pub cycle_path : String → String → List String → List String
unfolding drop_until
cycle_path u v stack = elim (drop_until v stack) [
  | [] ↦ u ∷ v ∷ u ∷ []
  | s ∷ path ↦ (s ∷ path) ++ v ∷ []
]

-- `stack[:len(stack)-1]`
abbrev pub pop : List String → List String
pop [] = []
pop (s ∷ []) = []
pop (s ∷ t ∷ stack) = s ∷ pop (t ∷ stack)

abbrev pub then_do : Outcome → (Search → Outcome) → Outcome
then_do (done d) f = f d
then_do (cycle path) f = cycle path
then_do out_of_fuel f = out_of_fuel

-- The loop over the neighbours of `u`; `call` is the search of a neighbour.
unfoldable pub visit_all : (String → Search → Outcome) → String → List String → Search → Outcome
unfolding cycle_path
visit_all call u [] d = done d
visit_all call u (v ∷ vs) d =
    if color_of v d == 1
    then cycle (cycle_path u v d.stack)
    else then_do (if color_of v d == 0 then call v d else done d) (visit_all call u vs)

abbrev pub enter : String → Search → Search
enter u d = record { color = set String_discrete u 1 d.color; stack = d.stack ++ u ∷ [] }

abbrev pub leave : String → Search → Search
leave u d = record { color = set String_discrete u 2 d.color; stack = pop d.stack }

unfoldable pub dfs : ℕ → Adjacency → String → Search → Outcome
unfolding visit_all
dfs zero adj u d = out_of_fuel
dfs (suc fuel) adj u d =
    then_do (visit_all (dfs fuel adj) u (neighbors adj u) (enter u d)) (λ e. done (leave u e))

-- The loop over the sorted group IDs.
unfoldable pub search_all : ℕ → Adjacency → List String → Search → Outcome
unfolding dfs
search_all fuel adj [] d = done d
search_all fuel adj (id ∷ ids) d =
    then_do (if color_of id d == 0 then dfs fuel adj id d else done d) (search_all fuel adj ids)

abbrev pub blank : Search
blank = record { color = []; stack = [] }
