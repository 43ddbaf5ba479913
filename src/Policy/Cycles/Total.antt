-- ===== src/Policy/Cycles/Total.antt =====
-- The search ends: as much fuel as there are white groups is enough, and every group it meets is one of
-- the list.
use clash_sub_parser.Prelude.{
  ℕ, zero, suc, ◌≤◌, ◌<◌, ◌≡◌, ◌≢◌, refl, subst, inl, inr, String, List, [], ◌∷◌, arith,
  if◌then◌else◌, if_cases, ◌==◌, String_discrete, length, count_if, count_if-le-length,
}
use clash_sub_parser.Prelude.Maps.{get-set}
use clash_sub_parser.Policy.Graph.{Adjacency, neighbors, Child, Occurs-neighbors}
use clash_sub_parser.Prelude.Sort.{Occurs}
use clash_sub_parser.Policy.Cycles.{
  Search, Outcome, done, cycle, out_of_fuel, color_of, then_do, visit_all, enter, leave, dfs,
  search_all, blank,
}

-- The number of white groups in the list.
abbrev pub white : List String → Search → ℕ
white ids d = count_if (λ id. color_of id d == 0) ids

-- A search ends, and leaves at most as many white groups.
abbrev pub Ends : List String → Search → Outcome → Type 0
Ends ids d (done e) = white ids e ≤ white ids d
Ends ids d (cycle path) = Unit
Ends ids d out_of_fuel = ⊥

white-enter :
    (ids : List String) (u : String) (d : Search)
    → color_of u d ≡ 0
    → (white ids (enter u d) ≤ white ids d) × (Occurs u ids → white ids (enter u d) < white ids d)
white-enter [] u d h = (omega arith, λ o. absurd o)
white-enter (id ∷ ids) u d h =
    ground (arith, get-set String_discrete 0 u id 1 d.color, white-enter ids u d h)

white-leave : (ids : List String) (u : String) (d : Search) → white ids (leave u d) ≤ white ids d
white-leave [] u d = omega arith
white-leave (id ∷ ids) u d =
    ground (arith, get-set String_discrete 0 u id 2 d.color, white-leave ids u d)

Ends-then_do :
    (ids : List String) (d : Search) (o : Outcome) (f : Search → Outcome)
    → Ends ids d o
    → ((e : Search) → white ids e ≤ white ids d → Ends ids e (f e))
    → Ends ids d (then_do o f)
Ends-then_do ids d (done e) f h g = widen (f e) h (g e h)
  where
    widen : (o : Outcome) → white ids e ≤ white ids d → Ends ids e o → Ends ids d o
    widen (done x) l k = omega arith
    widen (cycle path) l k = tt
    widen out_of_fuel l k = k
Ends-then_do ids d (cycle path) f h g = tt
Ends-then_do ids d out_of_fuel f h g = h

Ends-leave :
    (ids : List String) (u : String) (d : Search) (o : Outcome)
    → white ids (enter u d) ≤ white ids d
    → Ends ids (enter u d) o
    → Ends ids d (then_do o (λ e. done (leave u e)))
Ends-leave ids u d (done e) l h = omega (arith, white-leave ids u e)
Ends-leave ids u d (cycle path) l h = tt
Ends-leave ids u d out_of_fuel l h = h

module _ (ids : List String) (adj : Adjacency)
    (closed : (u v : String) → Child adj u v → Occurs v ids) where
  visit_all-Ends :
      (call : String → Search → Outcome) (n : ℕ) (u : String) (vs : List String) (d : Search)
      → ((v : String) (e : Search)
          → Occurs v ids
          → color_of v e ≡ 0
          → white ids e ≤ n
          → Ends ids e (call v e))
      → ((v : String) → Occurs v vs → Occurs v ids)
      → white ids d ≤ n
      → Ends ids d (visit_all call u vs d)
  unfolding visit_all
  visit_all-Ends call n u [] d calls inside h = omega arith
  visit_all-Ends call n u (v ∷ vs) d calls inside h =
      if_cases (Ends ids d) (color_of v d == 1) _ _ (λ g. tt)
        (λ g.
          Ends-then_do ids d (if color_of v d == 0 then call v d else done d) (visit_all call u vs)
            (if_cases (Ends ids d) (color_of v d == 0) (call v d) (done d)
              (λ w. calls v d (inside v (inl refl)) (ground arith) h) (λ w. omega arith))
            (λ e l. visit_all-Ends call n u vs e calls (λ w o. inside w (inr o)) (omega arith)))

  -- The search of a white group of the list, with as much fuel as there are white groups.
  dfs-Ends :
      (fuel : ℕ) (u : String) (d : Search)
      → Occurs u ids
      → color_of u d ≡ 0
      → white ids d ≤ fuel
      → Ends ids d (dfs fuel adj u d)
  unfolding dfs
  dfs-Ends zero u d o w h = absurd (omega (arith, (white-enter ids u d w).1 o))
  dfs-Ends (suc fuel) u d o w h =
      let l = (white-enter ids u d w).1 o in
      Ends-leave ids u d (visit_all (dfs fuel adj) u (neighbors adj u) (enter u d)) (omega arith) (
        visit_all-Ends (dfs fuel adj) fuel u (neighbors adj u) (enter u d)
          (λ v e i c b. dfs-Ends fuel v e i c b)
          (λ v i. closed u v ((Occurs-neighbors adj u v).0 i)) (omega arith))

  pub search_all-Ends :
      (fuel : ℕ) (vs : List String) (d : Search)
      → ((v : String) → Occurs v vs → Occurs v ids)
      → white ids d ≤ fuel
      → Ends ids d (search_all fuel adj vs d)
  unfolding search_all
  search_all-Ends fuel [] d inside h = omega arith
  search_all-Ends fuel (v ∷ vs) d inside h =
      Ends-then_do ids d (if color_of v d == 0 then dfs fuel adj v d else done d)
        (search_all fuel adj vs)
        (if_cases (Ends ids d) (color_of v d == 0) (dfs fuel adj v d) (done d)
          (λ w. dfs-Ends fuel v d (inside v (inl refl)) (ground arith) h) (λ w. omega arith))
        (λ e l. search_all-Ends fuel vs e (λ w o. inside w (inr o)) (omega arith))

-- The search of all groups, with as much fuel as there are groups, does not run out of it.
pub search_all_total :
    (ids : List String) (adj : Adjacency)
    → ((u v : String) → Child adj u v → Occurs v ids)
    → search_all (length ids) adj ids blank ≢ out_of_fuel
search_all_total ids adj closed h =
    subst (Ends ids blank) h
      (search_all-Ends ids adj closed (length ids) ids blank (λ v o. o) (count_if-le-length _ ids))
