-- ===== src/Compiler/Prune/Targets.antt =====
-- The targets of the rules survive the pruning of internal/compiler/prune.go.
use clash_sub_parser.Prelude.{
  ℕ, zero, suc, ◌+◌, ◌≤◌, ◌≡◌, refl, ◌∙◌, inl, inr, Bool, true, false, not, ◌||◌, ◌&&◌, List, [],
  ◌∷◌, ◌++◌, map, arith, length, any, filter_if, count_if, List-cases, Bool-cases, same,
}
use clash_sub_parser.Policy.Rules.{ResolvedRule}
use clash_sub_parser.Compiler.Prune.{
  ResolvedGroup, Member, Snapshot, Notice, has_key, is_pruned, is_dropped, is_targeted, keep_groups,
  can_prune, candidates, without_candidates, prune_one_pass, prune_rounds,
  prune_unavailable_optional_groups,
}
use clash_sub_parser.Prelude.Members.{In, In-filter_if, same-In, count_if-zero}

-- The same ID and name.
abbrev pub same_key : ResolvedGroup → ResolvedGroup → Bool
same_key g h = same h.id g.id && same h.name g.name

-- The same ID or the same name, and no rule goes to it.
abbrev pub is_rival : List ResolvedRule → ResolvedGroup → ResolvedGroup → Bool
is_rival rules g h = (same h.id g.id || same h.name g.name) && not (is_targeted rules h)

-- How many groups have the same ID and name.
abbrev pub copies : ResolvedGroup → Snapshot → ℕ
copies g s = count_if (same_key g) s.groups

abbrev pub rivals : ResolvedGroup → Snapshot → ℕ
rivals g s = count_if (is_rival s.rules g) s.groups

-- A candidate is no target of a rule.
candidate-is_targeted :
    (s : Snapshot) (k : ResolvedGroup)
    → In k (candidates s)
    → In k s.groups × (is_targeted s.rules k ≡ false)
unfolding candidates can_prune
candidate-is_targeted s k i =
    let (j, e) = In-filter_if (can_prune s.rules s.groups) s.groups k i in (j, ground (arith, e))

-- A group without rivals is not pruned, nor is a copy of it.
same_key-is_pruned :
    (g h : ResolvedGroup) (s : Snapshot)
    → rivals g s ≡ 0
    → same_key g h ≡ true
    → is_pruned (candidates s) h ≡ false
same_key-is_pruned g h s r e = elim (Bool-cases (is_pruned (candidates s) h)) [
  | inr f ↦ f
  | inl f ↦ elim (Bool-cases (any (same h.id) (map (λ (k : ResolvedGroup). k.id) (candidates s)))) [
    | inl a ↦
        let (k, i, q) = same-In (λ (k : ResolvedGroup). k.id) h.id (candidates s) a in
        let (j, t) = candidate-is_targeted s k i in
        absurd (ground (arith, q, t, e, count_if-zero (is_rival s.rules g) s.groups k r j))
    | inr a ↦
        let b : any (same h.name) (map (λ (k : ResolvedGroup). k.name) (candidates s)) ≡ true =
          ground (arith, a, f) in
        let (k, i, q) = same-In (λ (k : ResolvedGroup). k.name) h.name (candidates s) b in
        let (j, t) = candidate-is_targeted s k i in
        absurd (ground (arith, q, t, e, count_if-zero (is_rival s.rules g) s.groups k r j))
  ]
]

count_if-keep_groups :
    (p : ResolvedGroup → Bool) (out groups : List ResolvedGroup)
    → ((h : ResolvedGroup) (ms : List Member) → p (record h { members = ms }) ≡ p h)
    → (count_if p (keep_groups out groups) ≤ count_if p groups)
      × (((h : ResolvedGroup) → p h ≡ true → is_pruned out h ≡ false)
          → count_if p (keep_groups out groups) ≡ count_if p groups)
unfolding keep_groups
count_if-keep_groups p out [] same_p = (omega arith, λ kept. refl)
count_if-keep_groups p out (h ∷ hs) same_p =
    let (a, b) = count_if-keep_groups p out hs same_p in
    (
      ground (arith, same_p h (filter_if (λ m. not (is_dropped out m)) h.members), a),
      λ kept.
          ground
            (arith, same_p h (filter_if (λ m. not (is_dropped out m)) h.members), b kept, kept h),
    )

-- A pass keeps the copies of a group without rivals, and makes no rivals.
without_candidates-copies :
    (g : ResolvedGroup) (s : Snapshot)
    → rivals g s ≡ 0
    → (copies g (without_candidates s).0 ≡ copies g s) × (rivals g (without_candidates s).0 ≡ 0)
unfolding without_candidates
without_candidates-copies g s r = (
  (count_if-keep_groups (same_key g) (candidates s) s.groups (λ h ms. refl)).1
      (λ h e. same_key-is_pruned g h s r e),
  omega
      (arith, (count_if-keep_groups (is_rival s.rules g) (candidates s) s.groups (λ h ms. refl)).0),
)

prune_rounds-copies :
    (fuel : ℕ) (g : ResolvedGroup) (s : Snapshot) (seen : List Notice)
    → rivals g s ≡ 0
    → copies g (prune_rounds fuel s seen).0 ≡ copies g s
unfolding prune_rounds prune_one_pass
prune_rounds-copies zero g s seen r = refl
prune_rounds-copies (suc fuel) g s seen r =
    let next = without_candidates s in
    let kept = without_candidates-copies g s r in
    elim (Bool-cases (any has_key (candidates s))) [
      | inl e ↦
          rw (e, prune_rounds, prune_one_pass)
            (prune_rounds-copies fuel g next.0 (seen ++ next.1) kept.1 ∙ kept.0)
      | inr e ↦ rw (e, prune_rounds, prune_one_pass) refl
    ]

-- A group whose ID and name belong only to groups that rules go to is kept by
-- PruneUnavailableOptionalGroups: as many groups have its ID and name after it as before.
pub prune_unavailable_optional_groups-copies :
    (g : ResolvedGroup) (s : Snapshot)
    → rivals g s ≡ 0
    → copies g (prune_unavailable_optional_groups s).0 ≡ copies g s
unfolding prune_unavailable_optional_groups
prune_unavailable_optional_groups-copies g s r =
    let kept = prune_rounds-copies (length s.groups + 1) g s [] r in
    elim (List-cases (prune_rounds (length s.groups + 1) s []).1) [
      | inl e ↦ rw (e, prune_unavailable_optional_groups) refl
      | inr (n, ns, e) ↦ rw (e, prune_unavailable_optional_groups) kept
    ]
