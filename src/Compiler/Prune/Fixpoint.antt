-- ===== src/Compiler/Prune/Fixpoint.antt =====
-- The rounds of `PruneUnavailableOptionalGroups` of internal/compiler/prune.go end.
use clash_sub_parser.Prelude.{
  ℕ, zero, suc, ◌+◌, ◌<◌, ◌≡◌, ◌≢◌, refl, subst, ap, inl, inr, Bool, true, not, List, [], ◌∷◌, ◌++◌,
  map, arith, length, any, filter_if, if_cases, none, some, Option-cases, List-cases,
}
use clash_sub_parser.Compiler.Prune.{
  ResolvedGroup, Snapshot, Notice, has_key, is_pruned, keep_groups, can_prune, notice, candidates,
  without_candidates, prune_one_pass, prune_rounds, prune_unavailable_optional_groups,
}
use clash_sub_parser.Prelude.Members.{In, any-In, In-any, In-filter_if, length-filter_if, In-same}

length-map : {A B : Type 0} (f : A → B) (xs : List A) → length (map f xs) ≡ length xs
length-map f [] = refl
length-map f (x ∷ xs) = ap suc (length-map f xs)

-- A pruned group with an ID or a name is left out.
has_key-is_pruned :
    (out : List ResolvedGroup) (g : ResolvedGroup)
    → In g out
    → has_key g ≡ true
    → is_pruned out g ≡ true
has_key-is_pruned out g i h = ground (
  arith,
  In-same (λ (k : ResolvedGroup). k.id) out g i,
  In-same (λ (k : ResolvedGroup). k.name) out g i,
)

any-is_pruned :
    (s : Snapshot)
    → any has_key (candidates s) ≡ true
    → any (is_pruned (candidates s)) s.groups ≡ true
any-is_pruned s h =
    let (g, i, k) = any-In has_key (candidates s) h in
    In-any (is_pruned (candidates s)) s.groups g
      (unfold candidates in (In-filter_if (can_prune s.rules s.groups) s.groups g i).0)
      (has_key-is_pruned (candidates s) g i k)

map-ne-nil : {A B : Type 0} (f : A → B) (xs : List A) → any (λ x. true) xs ≡ true → map f xs ≢ []
map-ne-nil f [] h = λ e. absurd cc
map-ne-nil f (x ∷ xs) h = λ e. absurd cc

any-weaken :
    (p : ResolvedGroup → Bool) (xs : List ResolvedGroup)
    → any p xs ≡ true
    → any (λ x. true) xs ≡ true
any-weaken p [] h = h
any-weaken p (x ∷ xs) h = refl

without_candidates_lem :
    (s : Snapshot)
    → any has_key (candidates s) ≡ true
    → (length (without_candidates s).0.groups < length s.groups) × ((without_candidates s).1 ≢ [])
unfolding without_candidates keep_groups
without_candidates_lem s h = (
  rw (length-map _ (filter_if (λ g. not (is_pruned (candidates s) g)) s.groups))
      (length-filter_if (is_pruned (candidates s)) s.groups (any-is_pruned s h)),
  map-ne-nil (notice s.groups) (candidates s) (any-weaken has_key (candidates s) h),
)

-- A pass that changes the snapshot leaves fewer groups, and says so.
prune_one_pass-some :
    (s : Snapshot) (r : Snapshot × List Notice)
    → prune_one_pass s ≡ some r
    → (length r.0.groups < length s.groups) × (r.1 ≢ [])
unfolding prune_one_pass
prune_one_pass-some s r =
    if_cases (λ o. o ≡ some r → (length r.0.groups < length s.groups) × (r.1 ≢ []))
      (any has_key (candidates s)) (some (without_candidates s)) none
      (λ h e.
        subst (λ x. (length x.0.groups < length s.groups) × (x.1 ≢ [])) (some-injective e)
          (without_candidates_lem s h))
      (λ h e. absurd cc)
  where
    some-injective : {a b : Snapshot × List Notice} → some a ≡ some b → a ≡ b
    some-injective e = cc

append-ne-nil : (xs ys : List Notice) → ys ≢ [] → xs ++ ys ≢ []
append-ne-nil [] ys h = h
append-ne-nil (x ∷ xs) ys h = λ e. absurd cc

-- A round that changes the snapshot leaves a report.
prune_rounds-seen :
    (fuel : ℕ) (s : Snapshot) (seen : List Notice) → seen ≢ [] → (prune_rounds fuel s seen).1 ≢ []
unfolding prune_rounds
prune_rounds-seen zero s seen h = h
prune_rounds-seen (suc fuel) s seen h = elim (Option-cases (prune_one_pass s)) [
  | inl e ↦ rw (e, prune_rounds) h
  | inr (r, e) ↦
      rw (e, prune_rounds)
        (prune_rounds-seen fuel r.0 (seen ++ r.1)
          (append-ne-nil seen r.1 (prune_one_pass-some s r e).1))
]

-- As many rounds as there are groups reach a snapshot that no pass changes.
prune_rounds-none :
    (fuel : ℕ) (s : Snapshot) (seen : List Notice)
    → length s.groups < fuel
    → prune_one_pass (prune_rounds fuel s seen).0 ≡ none
unfolding prune_rounds
prune_rounds-none zero s seen h = absurd (omega arith)
prune_rounds-none (suc fuel) s seen h = elim (Option-cases (prune_one_pass s)) [
  | inl e ↦ rw (e, prune_rounds) e
  | inr (r, e) ↦
      rw (e, prune_rounds)
        (prune_rounds-none fuel r.0 (seen ++ r.1) (omega (arith, (prune_one_pass-some s r e).0)))
]

-- Without a report nothing changed.
prune_rounds-quiet :
    (fuel : ℕ) (s : Snapshot) → (prune_rounds fuel s []).1 ≡ [] → (prune_rounds fuel s []).0 ≡ s
unfolding prune_rounds
prune_rounds-quiet zero s h = refl
prune_rounds-quiet (suc fuel) s h = elim (Option-cases (prune_one_pass s)) [
  | inl e ↦ rw (e, prune_rounds) refl
  | inr (r, e) ↦ absurd (
      prune_rounds-seen fuel r.0 ([] ++ r.1) (prune_one_pass-some s r e).1
        (rw (e, prune_rounds) at h))
]

-- The rounds of PruneUnavailableOptionalGroups are enough: no further pass changes its result.
pub prune_unavailable_optional_groups-none :
    (s : Snapshot) → prune_one_pass (prune_unavailable_optional_groups s).0 ≡ none
unfolding prune_unavailable_optional_groups
prune_unavailable_optional_groups-none s =
    let r = prune_rounds (length s.groups + 1) s [] in
    let fixed = prune_rounds-none (length s.groups + 1) s [] (omega arith) in
    elim (List-cases r.1) [
      | inl e ↦
          rw (e, prune_unavailable_optional_groups)
            (subst (λ x. prune_one_pass x ≡ none) (prune_rounds-quiet (length s.groups + 1) s e)
              fixed)
      | inr (n, ns, e) ↦ rw (e, prune_unavailable_optional_groups) fixed
    ]
