-- ===== src/Policy/Cycles/Sound.antt =====
-- If the search ends without a cycle, every group that it met is accessible: all walks along the
-- children from it end.
use mathlib.Core.WellFounded.{Acc}
use clash_sub_parser.Prelude.{
  ℕ, zero, suc, ◌≤◌, ◌≡◌, ◌≢◌, refl, subst, inl, inr, String, List, [], ◌∷◌, arith, ite,
  if◌then◌else◌, ◌==◌, String_discrete, Bool-cases,
}
use clash_sub_parser.Prelude.Maps.{get, get-set}
use clash_sub_parser.Policy.Graph.{Adjacency, neighbors, Child, Occurs-neighbors}
use clash_sub_parser.Prelude.Sort.{Occurs}
use clash_sub_parser.Policy.Cycles.{
  Search, Outcome, done, cycle, out_of_fuel, color_of, then_do, visit_all, enter, leave, dfs,
  search_all, blank,
}

-- `v` below `u`: a child of it.
abbrev pub Below : Adjacency → String → String → Type 0
Below adj v u = Child adj u v

-- Black groups are accessible.
abbrev pub BlackAcc : Adjacency → Search → Type 0
BlackAcc adj d = (w : String) → 2 ≤ color_of w d → Acc (Below adj) w

-- Black groups stay black.
abbrev pub Keeps : Search → Search → Type 0
Keeps d e = (w : String) → 2 ≤ color_of w d → 2 ≤ color_of w e

-- No other group is grey afterwards.
abbrev pub Fades : Search → Search → Type 0
Fades d e = (w : String) → color_of w e ≡ 1 → color_of w d ≡ 1

-- What a search of the white group `u` from `d` promises of the state it ends in.
abbrev pub Searched : Adjacency → String → Search → Search → Type 0
Searched adj u d e = BlackAcc adj e × Keeps d e × (2 ≤ color_of u e) × Fades d e

abbrev Calls : Adjacency → (String → Search → Outcome) → Type 0
Calls adj call =
    (v : String) (d e : Search)
    → BlackAcc adj d
    → color_of v d ≡ 0
    → call v d ≡ done e
    → Searched adj v d e

then_do-eq-done :
    (o : Outcome) (f : Search → Outcome) (e : Search)
    → then_do o f ≡ done e
    → (d : Search) × (o ≡ done d) × (f d ≡ done e)
then_do-eq-done (done d) f e h = (d, refl, h)
then_do-eq-done (cycle path) f e h = cc
then_do-eq-done out_of_fuel f e h = cc

done-injective : {d e : Search} → done d ≡ done e → d ≡ e
done-injective h = ground arith

-- A white group is searched, and a black one is left: it is black afterwards.
visit_one :
    (adj : Adjacency) (call : String → Search → Outcome) (v : String) (d e : Search)
    → Calls adj call
    → BlackAcc adj d
    → color_of v d ≢ 1
    → (if color_of v d == 0 then call v d else done d) ≡ done e
    → Searched adj v d e
visit_one adj call v d e calls black grey h = elim (Bool-cases (color_of v d == 0)) [
  | inl white ↦ calls v d e black (ground (arith, white)) (rw white at h)
  | inr other ↦
      let same_state : d ≡ e = ground (arith, rw other at h) in
      (
        rw (← same_state) black,
        λ w b. rw (← same_state) b,
        rw (← same_state) (ground (arith, other)),
        λ w g. rw same_state g,
      )
]

visit_all_sound :
    (adj : Adjacency) (call : String → Search → Outcome) (u : String) (vs : List String)
    (d e : Search)
    → Calls adj call
    → BlackAcc adj d
    → visit_all call u vs d ≡ done e
    → BlackAcc adj e × Keeps d e × ((v : String) → Occurs v vs → 2 ≤ color_of v e) × Fades d e
unfolding visit_all
visit_all_sound adj call u [] d e calls black h =
    let same_state : d ≡ e = ground arith in
    (rw (← same_state) black, λ w b. rw (← same_state) b, λ v o. absurd o, λ w g. rw same_state g)
visit_all_sound adj call u (v ∷ vs) d e calls black h = elim (Bool-cases (color_of v d == 1)) [
  | inl grey ↦ absurd (cc (rw grey at h))
  | inr not_grey ↦
      let (m, a, b) = then_do-eq-done _ _ e (rw not_grey at h) in
      let (black', keeps, v_black, fades) =
        visit_one adj call v d m calls black (λ g. ground (arith, not_grey)) a in
      let (black'', keeps', all, fades') = visit_all_sound adj call u vs m e calls black' b in
      (
        black'',
        λ w k. keeps' w (keeps w k),
        λ w o. elim o [ inl f ↦ rw f (keeps' v v_black) | inr later ↦ all w later ],
        λ w g. fades w (fades' w g),
      )
]

color_of-leave :
    (u w : String) (m : Search)
    → color_of w (leave u m) ≡ ite (String_discrete u w) 2 (color_of w m)
color_of-leave u w m = get-set String_discrete 0 u w 2 m.color

leave-Searched :
    (adj : Adjacency) (u : String) (d m : Search)
    → BlackAcc adj m
    → Acc (Below adj) u
    → Keeps (enter u d) m
    → Fades (enter u d) m
    → color_of u d ≡ 0
    → Searched adj u d (leave u m)
leave-Searched adj u d m black acc_u keeps fades white = (
  λ w k. elim (String_discrete u w) [
    | yes e ↦ subst (Acc (Below adj)) e acc_u
    | no ne ↦ black w (ground (arith, color_of-leave u w m))
  ],
  λ w k. ground (arith, color_of-leave u w m, keeps w, get-set String_discrete 0 u w 1 d.color),
  ground (arith, color_of-leave u u m),
  λ w g. ground (arith, color_of-leave u w m, fades w, get-set String_discrete 0 u w 1 d.color),
)

-- The search of one white group.
pub dfs_sound :
    (fuel : ℕ) (adj : Adjacency) (u : String) (d e : Search)
    → BlackAcc adj d
    → color_of u d ≡ 0
    → dfs fuel adj u d ≡ done e
    → Searched adj u d e
unfolding dfs
dfs_sound zero adj u d e black white h = cc
dfs_sound (suc fuel) adj u d e black white h =
    let vs = neighbors adj u in
    let (m, a, b) =
      then_do-eq-done (visit_all (dfs fuel adj) u vs (enter u d)) (λ x. done (leave u x)) e h in
    let entered : BlackAcc adj (enter u d) =
      λ w k. black w (ground (arith, white, get-set String_discrete 0 u w 1 d.color)) in
    let (black', keeps, all, fades) =
      visit_all_sound adj (dfs fuel adj) u vs (enter u d) m (dfs_sound fuel adj) entered a in
    let acc_u : Acc (Below adj) u =
      Acc.intro u (λ v c. black' v (all v ((Occurs-neighbors adj u v).1 c))) in
    subst (Searched adj u d) (done-injective b)
      (leave-Searched adj u d m black' acc_u keeps fades white)

-- The loop over all groups: each of them is accessible, if it ends without a cycle.
pub search_all_sound :
    (fuel : ℕ) (adj : Adjacency) (ids : List String) (d e : Search)
    → BlackAcc adj d
    → ((w : String) → color_of w d ≢ 1)
    → search_all fuel adj ids d ≡ done e
    → (id : String) → Occurs id ids
    → Acc (Below adj) id
unfolding search_all
search_all_sound fuel adj [] d e black grey h id o = absurd o
search_all_sound fuel adj (i ∷ ids) d e black grey h id o =
    let (m, a, b) =
      then_do-eq-done (if color_of i d == 0 then dfs fuel adj i d else done d)
        (search_all fuel adj ids) e h in
    let (black', keeps, i_black, fades) =
      visit_one adj (dfs fuel adj) i d m (dfs_sound fuel adj) black (grey i) a in
    elim o [
      | inl f ↦ rw f (black' i i_black)
      | inr later ↦ search_all_sound fuel adj ids m e black' (λ w g. grey w (fades w g)) b id later
    ]

-- If the search from white ends without a cycle, every group in the list is accessible.
pub search_all_acyclic :
    (fuel : ℕ) (adj : Adjacency) (ids : List String) (e : Search)
    → search_all fuel adj ids blank ≡ done e
    → (id : String) → Occurs id ids
    → Acc (Below adj) id
search_all_acyclic fuel adj ids e =
    search_all_sound fuel adj ids blank e (λ w b. absurd (unfold get in omega arith))
      (λ w g. unfold get in ground arith)
