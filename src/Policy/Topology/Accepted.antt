-- ===== src/Policy/Topology/Accepted.antt =====
-- What `ValidatePolicyTopology` promises of the group graph.
use mathlib.Core.WellFounded.{Acc}
use clash_sub_parser.Prelude.{
  ◌≡◌, ◌≢◌, ◌↔◌, inl, inr, ◌++◌, refl, sym, subst, String, Bool, List, [], ◌∷◌, length, none, some,
  count_if-le-length,
}
use clash_sub_parser.Prelude.Maps.{Map}
use clash_sub_parser.Policy.Graph.{Adjacency, Child}
use clash_sub_parser.Prelude.Sort.{Occurs, sort_texts, Occurs-sort_texts}
use clash_sub_parser.Policy.Cycles.{Outcome, search_all, blank}
use clash_sub_parser.Policy.Cycles.Sound.{Below, search_all_acyclic}
use clash_sub_parser.Policy.Cycles.Total.{Ends, search_all-Ends}
use clash_sub_parser.Policy.Cycles.Path.{IsWalk, IsWalk-snoc, IsCycle, search_all_cycle}
use clash_sub_parser.Policy.Source.{Filters, Failure, GroupEdge, cycle_detected, search_out_of_fuel}
use clash_sub_parser.Policy.Rules.{PolicyRule, validate_policy_rules}
use clash_sub_parser.Policy.Topology.{
  built, NodeGroup, group_ids, groups_failure, adjacency, search_failure, validate_policy_topology,
}
use clash_sub_parser.Policy.Topology.Plain.{IsPlain, validate_policy_rules-IsPlain}
use clash_sub_parser.Policy.Topology.Closed.{IsClosed, adjacency-IsClosed}

-- The search of the groups does not run out of fuel.
search-Ends :
    (ids : List String) (adj : Adjacency)
    → IsClosed ids adj
    → Ends ids blank (search_all (length ids) adj (sort_texts ids) blank)
search-Ends ids adj closed =
    search_all-Ends ids adj closed (length ids) (sort_texts ids) blank
      (λ v o. (Occurs-sort_texts v ids).0 o) (count_if-le-length _ ids)

-- No group of a cycle is accessible.
accessible-IsWalk :
    (adj : Adjacency) (v : String) (inner : List String)
    → Acc (Below adj) v
    → IsWalk adj ((v ∷ inner) ++ v ∷ [])
    → ⊥
accessible-IsWalk adj v [] (Acc.intro _ f) w = accessible-IsWalk adj v [] (f v w.0) w
accessible-IsWalk adj v (u ∷ rest) (Acc.intro _ f) w =
    accessible-IsWalk adj u (rest ++ v ∷ []) (f u w.0) (IsWalk-snoc adj (u ∷ rest) v u w.1 w.0)

-- The end of a walk is a child.
IsWalk-last :
    (adj : Adjacency) (x : String) (xs : List String) (v : String)
    → IsWalk adj ((x ∷ xs) ++ v ∷ [])
    → (u : String) × Child adj u v
IsWalk-last adj x [] v w = (x, w.0)
IsWalk-last adj x (y ∷ xs) v w = IsWalk-last adj y xs v w.1

IsCycle-inaccessible :
    (ids : List String) (adj : Adjacency) (path : List String)
    → IsClosed ids adj
    → ((id : String) → Occurs id ids → Acc (Below adj) id)
    → IsCycle adj path
    → ⊥
IsCycle-inaccessible ids adj path closed all (v, inner, e, w) =
    let walk = subst (IsWalk adj) e w in
    let (u, c) = IsWalk-last adj v inner v walk in
    accessible-IsWalk adj v inner (all v (closed u v c)) walk

-- What the last checks return, by the outcome of the search.
abbrev verdict : List String → List PolicyRule → Bool → Outcome → Failure
verdict ids rules terminal o = elim o [
  | Outcome.done d ↦ validate_policy_rules rules ids terminal
  | Outcome.cycle path ↦ some (cycle_detected path)
  | Outcome.out_of_fuel ↦ some search_out_of_fuel
]

-- Each group of the list is accessible: every walk along the children from it ends.
abbrev pub AllAccessible : Adjacency → List String → Type 0
AllAccessible adj [] = Unit
AllAccessible adj (id ∷ ids) = Acc (Below adj) id × AllAccessible adj ids

AllAccessible-of_each :
    (adj : Adjacency) (ids : List String)
    → ((id : String) → Occurs id ids → Acc (Below adj) id)
    → AllAccessible adj ids
AllAccessible-of_each adj [] f = tt
AllAccessible-of_each adj (id ∷ ids) f =
    (f id (inl refl), AllAccessible-of_each adj ids (λ x o. f x (inr o)))

AllAccessible-Acc :
    (adj : Adjacency) (ids : List String) (id : String)
    → AllAccessible adj ids
    → Occurs id ids
    → Acc (Below adj) id
AllAccessible-Acc adj [] id a o = absurd o
AllAccessible-Acc adj (x ∷ ids) id a (inl e) = subst (Acc (Below adj)) (sym e) a.0
AllAccessible-Acc adj (x ∷ ids) id a (inr o) = AllAccessible-Acc adj ids id a.1 o

-- What a failure of the last checks says of the graph.
record Judges (ids : List String) (adj : Adjacency) (rules : List PolicyRule) (terminal : Bool)
    (f : Failure) : Type 0 where
  accepts : (f ≡ none) ↔ (AllAccessible adj ids × (validate_policy_rules rules ids terminal ≡ none))
  shows_cycle : (path : List String) → f ≡ some (cycle_detected path) → IsCycle adj path
  ends : f ≢ some search_out_of_fuel

verdict-Judges :
    (ids : List String) (adj : Adjacency) (rules : List PolicyRule) (terminal : Bool) (o : Outcome)
    → IsClosed ids adj
    → search_all (length ids) adj (sort_texts ids) blank ≡ o
    → Judges ids adj rules terminal (verdict ids rules terminal o)
verdict-Judges ids adj rules terminal (Outcome.done d) closed s = record {
  accepts = (
    λ h. (
      AllAccessible-of_each adj ids (λ id o.
          search_all_acyclic (length ids) adj (sort_texts ids) d s id
            ((Occurs-sort_texts id ids).1 o)),
      h,
    ),
    λ h. h.1,
  );
  shows_cycle =
      λ path h. absurd (subst IsPlain h (validate_policy_rules-IsPlain rules ids terminal));
  ends = λ h. subst IsPlain h (validate_policy_rules-IsPlain rules ids terminal);
}
verdict-Judges ids adj rules terminal (Outcome.cycle path) closed s =
    let is_cycle = search_all_cycle (length ids) adj (sort_texts ids) path s in
    record {
      accepts = (
        λ h. absurd cc,
        λ h. absurd (
            IsCycle-inaccessible ids adj path closed (λ id o. AllAccessible-Acc adj ids id h.0 o)
              is_cycle),
      );
      shows_cycle = λ other h. subst (IsCycle adj) (cycle_detected-injective h) is_cycle;
      ends = λ h. cc;
    }
  where
    cycle_detected-injective :
        {a b : List String} → some (cycle_detected a) ≡ some (cycle_detected b) → a ≡ b
    cycle_detected-injective h = cc
verdict-Judges ids adj rules terminal Outcome.out_of_fuel closed s =
    absurd (subst (Ends ids blank) s (search-Ends ids adj closed))

module _ (F : Filters) (groups : List (NodeGroup F)) (edges : Map String (List GroupEdge))
    (rules : List PolicyRule) (terminal : Bool) (adj : Adjacency)
    (g : groups_failure F groups ≡ none) (a : adjacency F groups edges ≡ built adj) where
  validate_policy_topology-Judges :
      Judges
        (group_ids F groups)
        adj
        rules
        terminal
        (validate_policy_topology F groups edges rules terminal)
  unfolding validate_policy_topology search_failure
  validate_policy_topology-Judges =
      rw (g, a)
        (verdict-Judges (group_ids F groups) adj rules terminal _
          (adjacency-IsClosed F groups edges adj a) refl)

  -- Where the checks on the groups, edges and sources pass with the child map `adj`, the topology is
  -- accepted exactly when every group is accessible in `adj`, that is, every walk along the children
  -- from a group ends, and the rules pass their checks.
  pub validate_policy_topology_iff :
      (validate_policy_topology F groups edges rules terminal ≡ none) ↔ (
        AllAccessible adj (group_ids F groups)
        × (validate_policy_rules rules (group_ids F groups) terminal ≡ none))
  validate_policy_topology_iff = validate_policy_topology-Judges.accepts

  -- Where the checks on the groups, edges and sources pass with the child map `adj`, the path of a
  -- cycle error is a walk along the children in `adj` that starts and ends in the same group.
  pub validate_policy_topology-IsCycle :
      (path : List String)
      → validate_policy_topology F groups edges rules terminal ≡ some (cycle_detected path)
      → IsCycle adj path
  validate_policy_topology-IsCycle = validate_policy_topology-Judges.shows_cycle

  -- Where the checks on the groups, edges and sources pass with a child map, the search for a cycle
  -- does not run out of fuel.
  pub validate_policy_topology_total :
      validate_policy_topology F groups edges rules terminal ≢ some search_out_of_fuel
  validate_policy_topology_total = validate_policy_topology-Judges.ends
