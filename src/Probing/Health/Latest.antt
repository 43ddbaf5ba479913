-- ===== src/Probing/Health/Latest.antt =====
-- The health of a node by a list of observations, in internal/domain/probe_health.go, is that of its
-- latest baseline observation.
use clash_sub_parser.Prelude.{
  ℕ, ◌≡◌, ◌≢◌, refl, sym, subst, ap, ◌∙◌, ◌⊎◌, inl, inr, true, false, List, [], ◌∷◌, arith,
  if◌then◌else◌, if_cases, Option, none, some, Option-cases, List-cases, same, String,
  String_discrete,
}
use clash_sub_parser.Prelude.Int.{ℤ}
use clash_sub_parser.Prelude.Strings.{codes, codes_lt}
use clash_sub_parser.Prelude.Maps.{Map, find, find-set}
use clash_sub_parser.Prelude.Members.{In}
use clash_sub_parser.Probing.Health.{
  Observation, category, evaluate_baseline_health, classify_node_health, is_newer, observe,
  observe_all, classify_node_health_from_slice,
}

abbrev Latest : Type 0
Latest = Map String Observation

codes_lt_asymm : (s t : List ℕ) → codes_lt s t ≡ true → codes_lt t s ≡ false
codes_lt_asymm [] [] h = absurd cc
codes_lt_asymm [] (d ∷ t) h = refl
codes_lt_asymm (c ∷ s) [] h = absurd cc
codes_lt_asymm (c ∷ s) (d ∷ t) h = ground (arith, codes_lt_asymm s t)

is_newer_asymm : (a b : Observation) → is_newer a b ≡ true → is_newer b a ≡ false
is_newer_asymm a b h = ground (arith, codes_lt_asymm (codes b.id) (codes a.id))

-- The later of an observation and the one so far.
abbrev later : Observation → Option Observation → Option Observation
later o none = some o
later o (some old) = if is_newer o old then some o else some old

-- The latest observation of a kind, starting from one so far.
latest : String → List Observation → Option Observation → Option Observation
latest k [] e = e
latest k (o ∷ os) e = latest k os (if same o.kind k then later o e else e)

find-observe :
    (o : Observation) (k : String) (m : Latest)
    → find String_discrete k (observe o m)
      ≡ (if same o.kind k then later o (find String_discrete k m) else find String_discrete k m)
unfolding observe
find-observe o k m = elim (String_discrete o.kind k) [
  | yes e ↦
      subst
        (λ x. find String_discrete x (observe o m) ≡ (
          if same o.kind x then later o (find String_discrete x m) else find String_discrete x m))
        e
        (elim (Option-cases (find String_discrete o.kind m)) [
          | inl f ↦ ground (arith, f, find-set String_discrete o.kind o.kind o m)
          | inr (old, f) ↦ ground (arith, f, find-set String_discrete o.kind o.kind o m)
        ])
  | no ne ↦ ground (
    arith,
    ne,
    find-set String_discrete o.kind k o m,
    Option-cases (find String_discrete o.kind m),
  )
]

find-observe_all :
    (os : List Observation) (k : String) (m : Latest)
    → find String_discrete k (observe_all os m) ≡ latest k os (find String_discrete k m)
unfolding observe_all latest
find-observe_all [] k m = refl
find-observe_all (o ∷ os) k m =
    find-observe_all os k (observe o m) ∙ ap (latest k os) (find-observe o k m)

-- `b` is the latest of its kind.
abbrev Beats : Observation → Observation → Type 0
Beats b o = (o ≡ b) ⊎ ((o.kind ≢ b.kind) ⊎ (is_newer b o ≡ true))

-- One observation of the list is not followed by a later one.
abbrev pub IsLatest : Observation → List Observation → Type 0
IsLatest b [] = Unit
IsLatest b (o ∷ os) = Beats b o × IsLatest b os

later-latest :
    (b o : Observation)
    → Beats b o
    → (if same o.kind b.kind then later o (some b) else some b) ≡ some b
later-latest b o (inl e) =
    subst (λ x. (if same x.kind b.kind then later x (some b) else some b) ≡ some b) (sym e)
      (if_cases (λ r. r ≡ some b) (same b.kind b.kind) _ _
        (λ h. if_cases (λ r. r ≡ some b) (is_newer b b) _ _ (λ n. refl) (λ n. refl)) (λ h. refl))
later-latest b o (inr (inl ne)) = ground (arith, ne)
later-latest b o (inr (inr n)) = ground (arith, is_newer_asymm b o n)

latest-keeps :
    (b : Observation) (os : List Observation) → IsLatest b os → latest b.kind os (some b) ≡ some b
unfolding latest
latest-keeps b [] l = refl
latest-keeps b (o ∷ os) l = ap (latest b.kind os) (later-latest b o l.0) ∙ latest-keeps b os l.1

abbrev IsBehind : Observation → Option Observation → Type 0
IsBehind b none = Unit
IsBehind b (some e) = (e ≡ b) ⊎ (is_newer b e ≡ true)

later-itself :
    (b : Observation) (e : Option Observation)
    → IsBehind b e
    → (if same b.kind b.kind then later b e else e) ≡ some b
later-itself b none h = ground arith
later-itself b (some x) (inl q) =
    if_cases (λ r. r ≡ some b) (same b.kind b.kind) _ _
      (λ h. if_cases (λ r. r ≡ some b) (is_newer b x) _ _ (λ n. refl) (λ n. ap some q))
      (λ h. ap some q)
later-itself b (some x) (inr n) = ground (arith, n)

later-IsBehind :
    (b o : Observation) (e : Option Observation)
    → Beats b o
    → IsBehind b e
    → IsBehind b (if same o.kind b.kind then later o e else e)
later-IsBehind b o e l h = if_cases (IsBehind b) (same o.kind b.kind) _ _ (λ k. step e h k) (λ k. h)
  where
    step :
        (e : Option Observation) → IsBehind b e → same o.kind b.kind ≡ true → IsBehind b (later o e)
    step none h k = elim l [
      | inl q ↦ inl q
      | inr (inl ne) ↦ absurd (ground (arith, k, ne))
      | inr (inr n) ↦ inr n
    ]
    step (some x) h k =
        if_cases (IsBehind b) (is_newer o x) _ _
          (λ n. elim l [
            | inl q ↦ inl q
            | inr (inl ne) ↦ absurd (ground (arith, k, ne))
            | inr (inr m) ↦ inr m
          ])
          (λ n. h)

latest-finds :
    (b : Observation) (os : List Observation) (e : Option Observation)
    → IsLatest b os
    → In b os
    → IsBehind b e
    → latest b.kind os e ≡ some b
unfolding latest
latest-finds b [] e l i h = absurd i
latest-finds b (o ∷ os) e l (inl q) h =
    subst (λ x. latest b.kind os (if same x.kind b.kind then later x e else e) ≡ some b) q
      (ap (latest b.kind os) (later-itself b e h) ∙ latest-keeps b os l.1)
latest-finds b (o ∷ os) e l (inr i) h = latest-finds b os _ l.1 i (later-IsBehind b o e l.0 h)

-- Where one baseline observation of a list is later than all other ones of it (with the greater ID for
-- equal times), the health of the node is that of this observation, whatever the order of the list.
pub classify_node_health_from_slice_lem :
    (os : List Observation) (b : Observation) (revision : ℤ) (now : ℕ) (freshness : ℤ)
    → In b os
    → b.kind ≡ "baseline"
    → IsLatest b os
    → classify_node_health_from_slice os revision now freshness
      ≡ category (evaluate_baseline_health (some b) revision now freshness).0
unfolding classify_node_health_from_slice classify_node_health find
classify_node_health_from_slice_lem [] b revision now freshness i k l = absurd i
classify_node_health_from_slice_lem (o ∷ os) b revision now freshness i k l =
    elim (List-cases (observe_all (o ∷ os) [])) [
      | inl e ↦
          let gone : none ≡ some b = sym (ap (find String_discrete "baseline") e) ∙ found in
          absurd (ground arith)
      | inr (x, m, e) ↦ rw e (
          ap (λ y. category (evaluate_baseline_health y revision now freshness).0)
            (ap (find String_discrete "baseline") (sym e) ∙ found))
    ]
  where
    found : find String_discrete "baseline" (observe_all (o ∷ os) []) ≡ some b
    found =
        find-observe_all (o ∷ os) "baseline" []
        ∙ subst (λ y. latest y (o ∷ os) none ≡ some b) k (latest-finds b (o ∷ os) none l i tt)
