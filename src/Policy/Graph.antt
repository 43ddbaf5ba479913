-- ===== src/Policy/Graph.antt =====
-- The adjacency map of `ValidatePolicyTopology` in internal/domain/policy.go.
use clash_sub_parser.Prelude.{◌↔◌, String, List, [], String_discrete}
use clash_sub_parser.Prelude.Sort.{Occurs, sort_texts, Occurs-sort_texts}
use clash_sub_parser.Prelude.Maps.{Map, get}

abbrev pub Adjacency : Type 0
Adjacency = Map String (List String)

-- The neighbours of a group, in the order in which the search visits them.
unfoldable pub neighbors : Adjacency → String → List String
unfolding sort_texts
neighbors adj u = sort_texts (get String_discrete [] u adj)

-- The children of a group.
abbrev pub Child : Adjacency → String → String → Type 0
Child adj u v = Occurs v (get String_discrete [] u adj)

pub Occurs-neighbors : (adj : Adjacency) (u v : String) → Occurs v (neighbors adj u) ↔ Child adj u v
unfolding neighbors
Occurs-neighbors adj u v = Occurs-sort_texts v (get String_discrete [] u adj)
