-- ===== src/Policy/Topology/Closed.antt =====
-- The adjacency map of `ValidatePolicyTopology` names known groups only, and has every reference.
use clash_sub_parser.Prelude.{
  ◌≡◌, ◌↔◌, subst, ◌⊎◌, inl, String, true, List, [], ◌∷◌, ◌++◌, arith, if_cases, any, Option, none,
  some, same, String_discrete,
}
use clash_sub_parser.Prelude.Maps.{Map, get, set, get-set}
use clash_sub_parser.Policy.Graph.{Adjacency, Child}
use clash_sub_parser.Prelude.Sort.{Occurs}
use clash_sub_parser.Policy.Source.{Filters, Failure, MemberSource, GroupEdge}
use clash_sub_parser.Policy.Topology.{
  Built, built, failed, ◌>>=◌, unless, push_child, add_child, add_edges, add_all_edges,
  start_children, NodeGroup, group_ids, referenced, add_sources, add_all_sources, adjacency,
}

-- Every child is one of the groups.
abbrev pub IsClosed : List String → Adjacency → Type 0
IsClosed ids adj = (u v : String) → Child adj u v → Occurs v ids

-- The children so far are kept.
abbrev pub Extends : Adjacency → Adjacency → Type 0
Extends a b = (u v : String) → Child a u v → Child b u v

abbrev Grows : List String → Adjacency → Built → Type 0
Grows ids a (built b) = IsClosed ids b × Extends a b
Grows ids a (failed e) = Unit

Occurs-any : (v : String) (ids : List String) → any (same v) ids ≡ true → Occurs v ids
Occurs-any v [] h = cc
Occurs-any v (id ∷ ids) h = ground (arith, Occurs-any v ids)

Occurs-snoc : (w v : String) (xs : List String) → Occurs w (xs ++ v ∷ []) ↔ (Occurs w xs ⊎ (w ≡ v))
Occurs-snoc w v [] = ground arith
Occurs-snoc w v (x ∷ xs) = ground (arith, Occurs-snoc w v xs)

Child-push_child :
    (u v x y : String) (adj : Adjacency)
    → Child (push_child u v adj) x y ↔ (Child adj x y ⊎ ((u ≡ x) × (y ≡ v)))
unfolding push_child
Child-push_child u v x y adj = elim (String_discrete u x) [
  | yes e ↦
      subst (λ (k : String). Child (push_child u v adj) k y ↔ (Child adj k y ⊎ ((u ≡ k) × (y ≡ v))))
        e
        (ground (
          arith,
          get-set String_discrete [] u u (get String_discrete [] u adj ++ v ∷ []) adj,
          Occurs-snoc y v (get String_discrete [] u adj),
        ))
  | no ne ↦
      ground (arith, get-set String_discrete [] u x (get String_discrete [] u adj ++ v ∷ []) adj)
]

push_child-Grows :
    (ids : List String) (u v : String) (adj : Adjacency)
    → IsClosed ids adj
    → Occurs v ids
    → Grows ids adj (built (push_child u v adj))
push_child-Grows ids u v adj closed o = (
  λ x y c. ground (arith, Child-push_child u v x y adj, closed x y),
  λ x y c. (Child-push_child u v x y adj).1 (inl c),
)

Grows->>= :
    (ids : List String) (a : Adjacency) (o : Built) (f : Adjacency → Built)
    → Grows ids a o
    → ((b : Adjacency) → IsClosed ids b → Grows ids b (f b))
    → Grows ids a (o >>= f)
Grows->>= ids a (failed e) f g h = tt
Grows->>= ids a (built b) f g h = step (f b) (h b g.0)
  where
    step : (o : Built) → Grows ids b o → Grows ids a o
    step (failed e) k = tt
    step (built c) k = (k.0, λ u v x. k.1 u v (g.1 u v x))

Grows-unless :
    (ids : List String) (a : Adjacency) (f : Failure) (o : Built)
    → Grows ids a o
    → Grows ids a (unless f o)
Grows-unless ids a none o g = g
Grows-unless ids a (some e) o g = tt

add_child-Grows :
    (ids : List String) (u : String) (o : Option String) (adj : Adjacency)
    → IsClosed ids adj
    → Grows ids adj (add_child ids u o adj)
unfolding add_child
add_child-Grows ids u none adj c = (c, λ x y k. k)
add_child-Grows ids u (some v) adj c =
    if_cases (Grows ids adj) (same v "") _ _ (λ h. (c, λ x y k. k))
      (λ h.
        if_cases (Grows ids adj) (same v u) _ _ (λ i. tt)
          (λ i.
            if_cases (Grows ids adj) (any (same v) ids) _ _
              (λ j. push_child-Grows ids u v adj c (Occurs-any v ids j)) (λ j. tt)))

add_edges-Grows :
    (ids : List String) (u : String) (es : List GroupEdge) (adj : Adjacency)
    → IsClosed ids adj
    → Grows ids adj (add_edges ids u es adj)
unfolding add_edges
add_edges-Grows ids u [] adj c = (c, λ x y k. k)
add_edges-Grows ids u (e ∷ es) adj c =
    Grows->>= ids adj _ (add_edges ids u es)
      (Grows-unless ids adj _ _ (add_child-Grows ids u e.child_group_id adj c))
      (λ b k. add_edges-Grows ids u es b k)

add_all_edges-Grows :
    (ids : List String) (edges : Map String (List GroupEdge)) (adj : Adjacency)
    → IsClosed ids adj
    → Grows ids adj (add_all_edges ids edges adj)
unfolding add_all_edges
add_all_edges-Grows ids [] adj c = (c, λ x y k. k)
add_all_edges-Grows ids ((u, es) ∷ edges) adj c =
    Grows->>= ids adj _ (add_all_edges ids edges)
      (if_cases (Grows ids adj) (any (same u) ids) _ _ (λ h. add_edges-Grows ids u es adj c)
        (λ h. tt))
      (λ b k. add_all_edges-Grows ids edges b k)

start_children-IsClosed :
    (all ids : List String) (adj : Adjacency)
    → IsClosed all adj
    → IsClosed all (start_children ids adj)
unfolding start_children
start_children-IsClosed all [] adj c = c
start_children-IsClosed all (id ∷ ids) adj c =
    start_children-IsClosed all ids (set String_discrete id [] adj)
      (λ u v k. ground (arith, get-set String_discrete [] id u [] adj, c u v))

module _ (F : Filters) where
  add_sources-Grows :
      (ids : List String) (u : String) (ss : List (MemberSource F)) (adj : Adjacency)
      → IsClosed ids adj
      → Grows ids adj (add_sources F ids u ss adj)
  unfolding add_sources
  add_sources-Grows ids u [] adj c = (c, λ x y k. k)
  add_sources-Grows ids u (s ∷ ss) adj c =
      Grows->>= ids adj _ (add_sources F ids u ss)
        (Grows-unless ids adj _ _ (add_child-Grows ids u (referenced F s) adj c))
        (λ b k. add_sources-Grows ids u ss b k)

  add_all_sources-Grows :
      (ids : List String) (gs : List (NodeGroup F)) (adj : Adjacency)
      → IsClosed ids adj
      → Grows ids adj (add_all_sources F ids gs adj)
  unfolding add_all_sources
  add_all_sources-Grows ids [] adj c = (c, λ x y k. k)
  add_all_sources-Grows ids (g ∷ gs) adj c =
      Grows->>= ids adj _ (add_all_sources F ids gs) (add_sources-Grows ids g.id g.sources adj c)
        (λ b k. add_all_sources-Grows ids gs b k)

  -- Every child in the map of an accepted policy is one of its groups.
  pub adjacency-IsClosed :
      (groups : List (NodeGroup F)) (edges : Map String (List GroupEdge)) (adj : Adjacency)
      → adjacency F groups edges ≡ built adj
      → IsClosed (group_ids F groups) adj
  unfolding adjacency
  adjacency-IsClosed groups edges adj h =
      let ids = group_ids F groups in
      let start = start_children-IsClosed ids ids [] (λ u v k. absurd (unfold get in k)) in
      (subst (Grows ids (start_children ids [])) h (
        Grows->>= ids (start_children ids []) _ (add_all_sources F ids groups)
          (add_all_edges-Grows ids edges (start_children ids []) start)
          (λ b k. add_all_sources-Grows ids groups b k))).0
