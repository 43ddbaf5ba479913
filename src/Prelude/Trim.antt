-- ===== src/Prelude/Trim.antt =====
-- Trimming a text twice.
use clash_sub_parser.Prelude.{
  ℕ, ◌≡◌, refl, ap, ◌∙◌, ◌⊎◌, inl, inr, false, List, [], ◌∷◌, arith, if◌then◌else◌, if_cases,
  List-cases,
}
use clash_sub_parser.Prelude.Strings.{is_space, trim_left, trim_right, trim_space}

-- The text does not begin with a blank.
abbrev IsStuck : List ℕ → Type 0
IsStuck [] = Unit
IsStuck (c ∷ cs) = is_space c ≡ false

trim_left-IsStuck : (cs : List ℕ) → IsStuck (trim_left cs)
unfolding trim_left
trim_left-IsStuck [] = tt
trim_left-IsStuck (c ∷ cs) = if_cases IsStuck (is_space c) _ _ (λ h. trim_left-IsStuck cs) (λ h. h)

trim_left_of_stuck : (cs : List ℕ) → IsStuck cs → trim_left cs ≡ cs
unfolding trim_left
trim_left_of_stuck [] h = refl
trim_left_of_stuck (c ∷ cs) h = rw h refl

trim_right-step :
    (c : ℕ) (cs : List ℕ)
    → (trim_right cs ≡ []) × (trim_right (c ∷ cs) ≡ (if is_space c then [] else c ∷ []))
      ⊎ ((d : ℕ) × (ds : List ℕ) × (trim_right cs ≡ d ∷ ds) × (trim_right (c ∷ cs) ≡ c ∷ d ∷ ds))
unfolding trim_right
trim_right-step c cs = elim (List-cases (trim_right cs)) [
  | inl e ↦ inl (e, rw e refl)
  | inr (d, ds, e) ↦ inr (d, ds, e, rw e refl)
]

trim_right-IsStuck : (cs : List ℕ) → IsStuck cs → IsStuck (trim_right cs)
unfolding trim_right
trim_right-IsStuck [] h = tt
trim_right-IsStuck (c ∷ cs) h = elim (trim_right-step c cs) [
  | inl (e, f) ↦ rw (f, h) h
  | inr (d, ds, e, f) ↦ rw f h
]

trim_right_twice : (cs : List ℕ) → trim_right (trim_right cs) ≡ trim_right cs
unfolding trim_right
trim_right_twice [] = refl
trim_right_twice (c ∷ cs) = elim (trim_right-step c cs) [
  | inl (e, f) ↦
      rw f (if_cases (λ x. trim_right x ≡ x) (is_space c) _ _ (λ h. refl) (λ h. rw h refl))
  | inr (d, ds, e, f) ↦ rw f (elim (trim_right-step c (d ∷ ds)) [
    | inl (g, k) ↦ absurd (ground (arith, ap trim_right e, trim_right_twice cs))
    | inr (x, xs, g, k) ↦
        k ∙ ap (λ ys. c ∷ ys) (ground (arith, ap trim_right e, trim_right_twice cs))
  ])
]

-- Trimming a trimmed text changes nothing.
pub trim_space_twice : (cs : List ℕ) → trim_space (trim_space cs) ≡ trim_space cs
unfolding trim_space
trim_space_twice cs =
    ap trim_right (trim_left_of_stuck _ (trim_right-IsStuck (trim_left cs) (trim_left-IsStuck cs)))
    ∙ trim_right_twice (trim_left cs)
