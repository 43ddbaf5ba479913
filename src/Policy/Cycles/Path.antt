-- ===== src/Policy/Cycles/Path.antt =====
-- The path of a `cycle_detected` error is a cycle of the policy graph.
use clash_sub_parser.Prelude.{
  ℕ, zero, suc, ◌≡◌, refl, ap, ◌∙◌, sym, subst, ◌⊎◌, inl, inr, String, List, [], ◌∷◌, ◌++◌, arith,
  if◌then◌else◌, if_cases, ◌==◌, String_discrete,
}
use clash_sub_parser.Prelude.Maps.{get, get-set}
use clash_sub_parser.Policy.Graph.{Adjacency, neighbors, Child, Occurs-neighbors}
use clash_sub_parser.Prelude.Sort.{Occurs}
use clash_sub_parser.Policy.Cycles.{
  Search, Outcome, done, cycle, out_of_fuel, color_of, then_do, drop_until, cycle_path, pop,
  visit_all, enter, leave, dfs, search_all, blank,
}

-- Each group is a child of the one before it.
abbrev pub IsWalk : Adjacency → List String → Type 0
IsWalk adj [] = Unit
IsWalk adj (u ∷ []) = Unit
IsWalk adj (u ∷ v ∷ path) = Child adj u v × IsWalk adj (v ∷ path)

-- A walk that starts and ends in `v`, over at least one group in between its ends or a self-loop.
abbrev pub IsCycle : Adjacency → List String → Type 0
IsCycle adj path =
    (v : String) × (inner : List String) × (path ≡ (v ∷ inner) ++ v ∷ []) × IsWalk adj path

pub IsWalk-snoc :
    (adj : Adjacency) (xs : List String) (u v : String)
    → IsWalk adj (xs ++ u ∷ [])
    → Child adj u v
    → IsWalk adj ((xs ++ u ∷ []) ++ v ∷ [])
IsWalk-snoc adj [] u v w c = (c, tt)
IsWalk-snoc adj (x ∷ []) u v w c = (w.0, (c, tt))
IsWalk-snoc adj (x ∷ y ∷ xs) u v w c = (w.0, IsWalk-snoc adj (y ∷ xs) u v w.1 c)

IsWalk-tail :
    (adj : Adjacency) (x : String) (xs : List String) → IsWalk adj (x ∷ xs) → IsWalk adj xs
IsWalk-tail adj x [] w = tt
IsWalk-tail adj x (y ∷ xs) w = w.1

Occurs-snoc : (v u : String) (xs : List String) → Occurs v (xs ++ u ∷ []) → Occurs v xs ⊎ (v ≡ u)
Occurs-snoc v u [] o = ground arith
Occurs-snoc v u (x ∷ xs) o = ground (arith, Occurs-snoc v u xs)

Occurs-append_left : (v : String) (xs ys : List String) → Occurs v xs → Occurs v (xs ++ ys)
Occurs-append_left v [] ys o = absurd o
Occurs-append_left v (x ∷ xs) ys o = ground (arith, Occurs-append_left v xs ys)

Occurs-last : (u : String) (xs : List String) → Occurs u (xs ++ u ∷ [])
Occurs-last u [] = inl refl
Occurs-last u (x ∷ xs) = inr (Occurs-last u xs)

pop-snoc : (xs : List String) (u : String) → pop (xs ++ u ∷ []) ≡ xs
pop-snoc [] u = refl
pop-snoc (x ∷ []) u = refl
pop-snoc (x ∷ y ∷ xs) u = ap (◌∷◌ x) (pop-snoc (y ∷ xs) u)

-- The tail of a walk from the first place of `v`.
drop_until-IsWalk :
    (adj : Adjacency) (v : String) (stack : List String)
    → Occurs v stack
    → IsWalk adj (stack ++ v ∷ [])
    → (inner : List String) × (drop_until v stack ≡ v ∷ inner) × IsWalk adj ((v ∷ inner) ++ v ∷ [])
unfolding drop_until
drop_until-IsWalk adj v [] o w = absurd o
drop_until-IsWalk adj v (s ∷ stack) o w = elim (String_discrete s v) [
  | yes e ↦
      (stack, ground (arith, e), subst (λ (x : String). IsWalk adj ((x ∷ stack) ++ v ∷ [])) e w)
  | no ne ↦
      let (inner, a, b) =
        drop_until-IsWalk adj v stack (ground (arith, ne))
          (IsWalk-tail adj s (stack ++ v ∷ []) w) in
      (inner, ground (arith, ne, a), b)
]

cycle_path-IsCycle :
    (adj : Adjacency) (u v : String) (stack : List String)
    → Occurs v stack
    → IsWalk adj (stack ++ v ∷ [])
    → IsCycle adj (cycle_path u v stack)
unfolding cycle_path
cycle_path-IsCycle adj u v stack o w =
    let (inner, a, b) = drop_until-IsWalk adj v stack o w in
    (v, inner, rw (a, cycle_path) refl, rw (a, cycle_path) b)

-- The grey groups are on the stack.
abbrev GreyOnStack : Search → Type 0
GreyOnStack d = (w : String) → color_of w d ≡ 1 → Occurs w d.stack

-- A search from `d` leaves the stack as it was, or finds a cycle.
abbrev Found : Adjacency → Search → Outcome → Type 0
Found adj d (done e) = GreyOnStack e × (e.stack ≡ d.stack)
Found adj d (cycle path) = IsCycle adj path
Found adj d out_of_fuel = Unit

Found-then_do :
    (adj : Adjacency) (d : Search) (o : Outcome) (f : Search → Outcome)
    → Found adj d o
    → ((e : Search) → GreyOnStack e → e.stack ≡ d.stack → Found adj d (f e))
    → Found adj d (then_do o f)
Found-then_do adj d (done e) f h g = g e h.0 h.1
Found-then_do adj d (cycle path) f h g = h
Found-then_do adj d out_of_fuel f h g = tt

Found-same :
    (adj : Adjacency) (d e : Search) (o : Outcome)
    → e.stack ≡ d.stack
    → Found adj e o
    → Found adj d o
Found-same adj d e (done x) s f = (f.0, f.1 ∙ s)
Found-same adj d e (cycle path) s f = f
Found-same adj d e out_of_fuel s f = tt

visit_all-Found :
    (adj : Adjacency) (call : String → Search → Outcome) (u : String) (below : List String)
    (vs : List String) (d : Search)
    → ((v : String) (e : Search)
        → GreyOnStack e
        → IsWalk adj (e.stack ++ v ∷ [])
        → Found adj e (call v e))
    → ((v : String) → Occurs v vs → Child adj u v)
    → GreyOnStack d
    → d.stack ≡ below ++ u ∷ []
    → IsWalk adj (below ++ u ∷ [])
    → Found adj d (visit_all call u vs d)
unfolding visit_all
visit_all-Found adj call u below [] d calls child grey s w = (grey, refl)
visit_all-Found adj call u below (v ∷ vs) d calls child grey s w =
    let longer : IsWalk adj (d.stack ++ v ∷ []) =
      rw s (IsWalk-snoc adj below u v w (child v (inl refl))) in
    if_cases (Found adj d) (color_of v d == 1) _ _
      (λ g. cycle_path-IsCycle adj u v d.stack (grey v (ground arith)) longer)
      (λ g.
        Found-then_do adj d (if color_of v d == 0 then call v d else done d) (visit_all call u vs)
          (if_cases (Found adj d) (color_of v d == 0) (call v d) (done d)
            (λ h. calls v d grey longer) (λ h. (grey, refl)))
          (λ e grey' s'. Found-same adj d e (visit_all call u vs e) s' (
            visit_all-Found adj call u below vs e calls (λ x o. child x (inr o)) grey' (s' ∙ s) w)))

Found-leave :
    (adj : Adjacency) (u : String) (d : Search) (o : Outcome)
    → Found adj (enter u d) o
    → Found adj d (then_do o (λ e. done (leave u e)))
Found-leave adj u d (done e) (grey, s) = (
  λ x g. elim (String_discrete u x) [
    | yes k ↦ ground (arith, get-set String_discrete 0 u x 2 e.color)
    | no ne ↦
        let on_stack : Occurs x (d.stack ++ u ∷ []) =
          subst (Occurs x) s (grey x (ground (arith, get-set String_discrete 0 u x 2 e.color))) in
        subst (Occurs x) (sym (ap pop s ∙ pop-snoc d.stack u))
          (elim (Occurs-snoc x u d.stack on_stack) [ inl o ↦ o | inr k ↦ absurd (ne (sym k)) ])
  ],
  ap pop s ∙ pop-snoc d.stack u,
)
Found-leave adj u d (cycle path) h = h
Found-leave adj u d out_of_fuel h = tt

dfs-Found :
    (fuel : ℕ) (adj : Adjacency) (u : String) (d : Search)
    → GreyOnStack d
    → IsWalk adj (d.stack ++ u ∷ [])
    → Found adj d (dfs fuel adj u d)
unfolding dfs
dfs-Found zero adj u d grey w = tt
dfs-Found (suc fuel) adj u d grey w =
    Found-leave adj u d (visit_all (dfs fuel adj) u (neighbors adj u) (enter u d)) (
      visit_all-Found adj (dfs fuel adj) u d.stack (neighbors adj u) (enter u d)
        (λ v e g k. dfs-Found fuel adj v e g k) (λ v o. (Occurs-neighbors adj u v).0 o)
        (λ x g. entered x g) refl w)
  where
    entered : (x : String) → color_of x (enter u d) ≡ 1 → Occurs x (d.stack ++ u ∷ [])
    entered x g = elim (String_discrete u x) [
      | yes e ↦ subst (λ y. Occurs y (d.stack ++ u ∷ [])) e (Occurs-last u d.stack)
      | no ne ↦
          Occurs-append_left x d.stack (u ∷ [])
            (grey x (ground (arith, get-set String_discrete 0 u x 1 d.color)))
    ]

search_all-Found :
    (fuel : ℕ) (adj : Adjacency) (ids : List String) (d : Search)
    → GreyOnStack d
    → d.stack ≡ []
    → Found adj d (search_all fuel adj ids d)
unfolding search_all
search_all-Found fuel adj [] d grey s = (grey, refl)
search_all-Found fuel adj (id ∷ ids) d grey s =
    Found-then_do adj d (if color_of id d == 0 then dfs fuel adj id d else done d)
      (search_all fuel adj ids)
      (if_cases (Found adj d) (color_of id d == 0) (dfs fuel adj id d) (done d)
        (λ h. dfs-Found fuel adj id d grey (rw s tt)) (λ h. (grey, refl)))
      (λ e grey' s'.
        Found-same adj d e (search_all fuel adj ids e) s'
          (search_all-Found fuel adj ids e grey' (s' ∙ s)))

-- The path of a search that finds a cycle, started from white, is a cycle.
pub search_all_cycle :
    (fuel : ℕ) (adj : Adjacency) (ids path : List String)
    → search_all fuel adj ids blank ≡ cycle path
    → IsCycle adj path
search_all_cycle fuel adj ids path h =
    subst (Found adj blank) h
      (search_all-Found fuel adj ids blank (λ w g. unfold get in ground arith) refl)
