-- ===== src/Resolver/Admission/Judged.antt =====
-- What the rules of internal/resolver/admission.go decide on a node.
use clash_sub_parser.Prelude.{
  ◌≡◌, ◌≢◌, ◌⊎◌, inl, inr, ◌↔◌, refl, String, Bool, true, false, not, List, [], ◌∷◌, any, same,
  Bool-cases, if◌then◌else◌,
}
use clash_sub_parser.Resolver.Admission.{
  AdmissionNode, AdmissionRule, RuleAction, allow, reject, quarantine, other_action, Verdict,
  is_admitted, is_inactive, is_risky, verdict_of, first_verdict, judge_node,
}

-- The first rule that matches, if any, neither rejects nor quarantines.
abbrev pub Passes : (AdmissionNode → String → Bool) → List AdmissionRule → AdmissionNode → Type 0
Passes matches [] n = Unit
Passes matches (r ∷ rs) n =
    ((matches n r.expression ≡ true) × (r.action ≢ reject) × (r.action ≢ quarantine))
    ⊎ ((matches n r.expression ≡ false) × Passes matches rs n)

verdict_of_cases :
    (r : AdmissionRule)
    → (verdict_of r ≡ is_admitted) ↔ ((r.action ≢ reject) × (r.action ≢ quarantine))
verdict_of_cases r = elim_action r r.action refl
  where
    elim_action :
        (r : AdmissionRule) (a : RuleAction)
        → r.action ≡ a
        → (verdict_of r ≡ is_admitted) ↔ ((r.action ≢ reject) × (r.action ≢ quarantine))
    elim_action r allow e = rw e (λ h. (λ k. cc, λ k. cc), λ h. refl)
    elim_action r (other_action s) e = rw e (λ h. (λ k. cc, λ k. cc), λ h. refl)
    elim_action r reject e = rw e (λ h. absurd cc, λ h. absurd (h.0 refl))
    elim_action r quarantine e = rw e (λ h. absurd cc, λ h. absurd (h.1 refl))

first_verdict-Passes :
    (matches : AdmissionNode → String → Bool) (rules : List AdmissionRule) (n : AdmissionNode)
    → (first_verdict matches rules n ≡ is_admitted) ↔ Passes matches rules n
unfolding first_verdict
first_verdict-Passes matches [] n = (λ h. tt, λ h. refl)
first_verdict-Passes matches (r ∷ rs) n =
    let (f, g) = first_verdict-Passes matches rs n in
    let (u, w) = verdict_of_cases r in
    elim (Bool-cases (matches n r.expression)) [
      | inl e ↦ rw e (
        λ h. inl (refl, (u h).0, (u h).1),
        λ h. elim h [ inl (k, x, y) ↦ w (x, y) | inr (k, x) ↦ absurd cc ],
      )
      | inr e ↦
          rw e (λ h. inr (refl, f h), λ h. elim h [ inl (k, x, y) ↦ absurd cc | inr (k, x) ↦ g x ])
    ]

guarded :
    (a k : Bool) (v : Verdict)
    → ((if not a then is_inactive else if k then is_risky else v) ≡ is_admitted)
      ↔ ((a ≡ true) × (k ≡ false) × (v ≡ is_admitted))
guarded true false v = (λ h. (refl, refl, h), λ (a, k, h). h)
guarded true true v = (λ h. absurd cc, λ (a, k, h). absurd cc)
guarded false k v = (λ h. absurd cc, λ (a, b, h). absurd cc)

pub judge_node_cases :
    (matches : AdmissionNode → String → Bool) (rules : List AdmissionRule) (risky : List String)
    (n : AdmissionNode)
    → (judge_node matches rules risky n ≡ is_admitted)
      ↔ ((n.active ≡ true) × (any (same n.logical_id) risky ≡ false) × Passes matches rules n)
unfolding judge_node
judge_node_cases matches rules risky n =
    let (f, g) = first_verdict-Passes matches rules n in
    let (u, w) = guarded n.active (any (same n.logical_id) risky) (first_verdict matches rules n) in
    (λ h. let (a, k, v) = u h in (a, k, f v), λ (a, k, x). w (a, k, g x))
