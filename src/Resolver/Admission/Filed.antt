-- ===== src/Resolver/Admission/Filed.antt =====
-- Where the loop over the nodes of internal/resolver/admission.go puts them.
use clash_sub_parser.Prelude.{
  ◌≡◌, ◌≢◌, ◌⊎◌, inl, inr, ◌↔◌, refl, ap, subst, ◌∙◌, sym, String, true, List, [], ◌∷◌, ◌++◌, any,
  same, arith,
}
use clash_sub_parser.Prelude.Members.{In}
use clash_sub_parser.Prelude.Sort.{Occurs}
use clash_sub_parser.Resolver.Admission.{
  AdmissionNode, AdmissionResult, Verdict, is_admitted, is_inactive, is_risky, is_rejected,
  is_quarantined, file_node, file_nodes, unique_after, unique_strings,
}

In-append : {A : Type 0} (x : A) (xs ys : List A) → In x (xs ++ ys) ↔ (In x xs ⊎ In x ys)
In-append x [] ys = ground arith
In-append x (y ∷ xs) ys = ground (arith, In-append x xs ys)

pub Occurs-append :
    (x : String) (xs ys : List String) → Occurs x (xs ++ ys) ↔ (Occurs x xs ⊎ Occurs x ys)
Occurs-append x [] ys = ground arith
Occurs-append x (y ∷ xs) ys = ground (arith, Occurs-append x xs ys)

Occurs-unique_after :
    (a last : String) (vs : List String)
    → ((a ≡ last) ⊎ Occurs a (unique_after last vs)) ↔ ((a ≡ last) ⊎ Occurs a vs)
Occurs-unique_after a last [] = ground arith
Occurs-unique_after a last (v ∷ vs) = ground (arith, Occurs-unique_after a v vs)

pub Occurs-unique_strings :
    (a : String) (vs : List String) → Occurs a (unique_strings vs) ↔ Occurs a vs
unfolding unique_strings
Occurs-unique_strings a [] = ground arith
Occurs-unique_strings a (v ∷ vs) = Occurs-unique_after a v vs

pub any-Occurs : (a : String) (vs : List String) → (any (same a) vs ≡ true) ↔ Occurs a vs
any-Occurs a [] = ground arith
any-Occurs a (v ∷ vs) = ground (arith, any-Occurs a vs)

Verdict-cases : (v : Verdict) → (v ≡ is_admitted) ⊎ (v ≢ is_admitted)
Verdict-cases is_admitted = inl refl
Verdict-cases is_inactive = inr (λ e. cc)
Verdict-cases is_risky = inr (λ e. cc)
Verdict-cases (is_rejected x) = inr (λ e. cc)
Verdict-cases (is_quarantined x) = inr (λ e. cc)

module _ (judge : AdmissionNode → Verdict) where
  file_node_cases :
      (n : AdmissionNode) (v : Verdict) (res : AdmissionResult)
      → ((v ≡ is_admitted)
          × ((file_node n v res).admitted_nodes ≡ res.admitted_nodes ++ (n ∷ []))
          × ((file_node n v res).excluded_node_ids ≡ res.excluded_node_ids))
        ⊎ ((v ≢ is_admitted)
            × ((file_node n v res).admitted_nodes ≡ res.admitted_nodes)
            × ((file_node n v res).excluded_node_ids
                ≡ res.excluded_node_ids ++ (n.logical_id ∷ [])))
  file_node_cases n is_admitted res = inl (refl, refl, refl)
  file_node_cases n is_inactive res = inr ((λ e. cc), refl, refl)
  file_node_cases n is_risky res = inr ((λ e. cc), refl, refl)
  file_node_cases n (is_rejected x) res = inr ((λ e. cc), refl, refl)
  file_node_cases n (is_quarantined x) res = inr ((λ e. cc), refl, refl)

  -- A node that comes out as admitted was there, or was judged so.
  pub file_nodes-admitted :
      (ns : List AdmissionNode) (res : AdmissionResult) (x : AdmissionNode)
      → In x (file_nodes judge ns res).admitted_nodes
      → In x res.admitted_nodes ⊎ (In x ns × (judge x ≡ is_admitted))
  unfolding file_nodes
  file_nodes-admitted [] res x i = inl i
  file_nodes-admitted (n ∷ ns) res x i =
      elim (file_nodes-admitted ns (file_node n (judge n) res) x i) [
        | inr (j, e) ↦ inr (inr j, e)
        | inl j ↦ elim (file_node_cases n (judge n) res) [
          | inl (v, a, b) ↦ elim ((In-append x res.admitted_nodes (n ∷ [])).0 (subst (In x) a j)) [
            | inl k ↦ inl k
            | inr (inl e) ↦ inr (inl e, ap judge e ∙ v)
            | inr (inr k) ↦ absurd k
          ]
          | inr (v, a, b) ↦ inl (subst (In x) a j)
        ]
      ]

  -- What was filed as admitted stays so, and what is judged so is filed so.
  pub file_nodes-admits :
      (ns : List AdmissionNode) (res : AdmissionResult) (x : AdmissionNode)
      → In x res.admitted_nodes ⊎ (In x ns × (judge x ≡ is_admitted))
      → In x (file_nodes judge ns res).admitted_nodes
  unfolding file_nodes
  file_nodes-admits [] res x (inl i) = i
  file_nodes-admits [] res x (inr (i, e)) = absurd i
  file_nodes-admits (n ∷ ns) res x h =
      file_nodes-admits ns (file_node n (judge n) res) x (elim (file_node_cases n (judge n) res) [
        | inl (v, a, b) ↦ elim h [
          | inl i ↦ inl (subst (In x) (sym a) ((In-append x res.admitted_nodes (n ∷ [])).1 (inl i)))
          | inr (inl e, q) ↦
              inl (subst (In x) (sym a) ((In-append x res.admitted_nodes (n ∷ [])).1 (inr (inl e))))
          | inr (inr i, q) ↦ inr (i, q)
        ]
        | inr (v, a, b) ↦ elim h [
          | inl i ↦ inl (subst (In x) (sym a) i)
          | inr (inl e, q) ↦ absurd (v (ap judge (sym e) ∙ q))
          | inr (inr i, q) ↦ inr (i, q)
        ]
      ])

  -- A node of this ID that is judged otherwise
  abbrev pub IsTurnedAway : String → List AdmissionNode → Type 0
  IsTurnedAway t ns = (y : AdmissionNode) × In y ns × (y.logical_id ≡ t) × (judge y ≢ is_admitted)

  -- The excluded IDs are those that were there, and those of the nodes that are judged otherwise.
  pub file_nodes-excludes :
      (ns : List AdmissionNode) (res : AdmissionResult) (t : String)
      → Occurs t res.excluded_node_ids ⊎ IsTurnedAway t ns
      → Occurs t (file_nodes judge ns res).excluded_node_ids
  unfolding file_nodes
  file_nodes-excludes [] res t (inl o) = o
  file_nodes-excludes [] res t (inr (y, i, e, v)) = absurd i
  file_nodes-excludes (n ∷ ns) res t h =
      file_nodes-excludes ns (file_node n (judge n) res) t (elim (file_node_cases n (judge n) res) [
        | inl (v, a, b) ↦ elim h [
          | inl o ↦ inl (subst (Occurs t) (sym b) o)
          | inr (y, inl e, q, w) ↦ absurd (w (ap judge e ∙ v))
          | inr (y, inr i, q, w) ↦ inr (y, i, q, w)
        ]
        | inr (v, a, b) ↦ elim h [
          | inl o ↦ inl (added n res t (sym b) (inl o))
          | inr (y, inl e, q, w) ↦
              inl (added n res t (sym b) (inr (sym q ∙ ap (λ (z : AdmissionNode). z.logical_id) e)))
          | inr (y, inr i, q, w) ↦ inr (y, i, q, w)
        ]
      ])
    where
      added :
          (n : AdmissionNode) (res : AdmissionResult) (t : String) {ids : List String}
          → res.excluded_node_ids ++ (n.logical_id ∷ []) ≡ ids
          → Occurs t res.excluded_node_ids ⊎ (t ≡ n.logical_id)
          → Occurs t ids
      added n res t b (inl o) =
          subst (Occurs t) b ((Occurs-append t res.excluded_node_ids _).1 (inl o))
      added n res t b (inr e) =
          subst (Occurs t) b ((Occurs-append t res.excluded_node_ids _).1 (inr (inl e)))

  pub file_nodes-excluded :
      (ns : List AdmissionNode) (res : AdmissionResult) (t : String)
      → Occurs t (file_nodes judge ns res).excluded_node_ids
      → Occurs t res.excluded_node_ids ⊎ IsTurnedAway t ns
  unfolding file_nodes
  file_nodes-excluded [] res t o = inl o
  file_nodes-excluded (n ∷ ns) res t o =
      elim (file_nodes-excluded ns (file_node n (judge n) res) t o) [
        | inr (y, i, q, w) ↦ inr (y, inr i, q, w)
        | inl p ↦ elim (file_node_cases n (judge n) res) [
          | inl (v, a, b) ↦ inl (subst (Occurs t) b p)
          | inr (v, a, b) ↦
              elim ((Occurs-append t res.excluded_node_ids _).0 (subst (Occurs t) b p)) [
                | inl q ↦ inl q
                | inr (inl e) ↦ inr (n, inl refl, sym e, v)
                | inr (inr q) ↦ absurd q
              ]
        ]
      ]
