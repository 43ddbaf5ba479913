-- ===== src/Resolver/Snapshot/Allowed.antt =====
-- The nodes that reach the groups of internal/resolver.
use clash_sub_parser.Prelude.{
  suc, ◌≡◌, ◌⊎◌, inl, inr, refl, ap, subst, sym, String, Bool, true, false, List, [], ◌∷◌, map,
  length, if_cases, any, same, String_discrete, arith,
}
use clash_sub_parser.Prelude.Maps.{Map, has, set, has-set}
use clash_sub_parser.Prelude.Members.{In, In-filter_if}
use clash_sub_parser.Prelude.Sort.{sort_by, insert_by, Occurs}
use clash_sub_parser.Filters.Regex.{Library}
use clash_sub_parser.Resolver.Admission.{AdmissionNode}
use clash_sub_parser.Resolver.Admission.Expressions.{matches_admission_expression}
use clash_sub_parser.Resolver.Admission.Split.{is_barred, admit_nodes_lem}
use clash_sub_parser.Resolver.Groups.{NodeEntry, GroupMemo}
use clash_sub_parser.Resolver.Groups.Preserved.{All}
use clash_sub_parser.Resolver.Groups.Resolve.Admitted.{HasAdmitted, IsGlobal, resolve_each-IsGlobal}
use clash_sub_parser.Resolver.Groups.Resolve.Enough.{resolve_each_total}
use clash_sub_parser.Resolver.Snapshot.{
  ResolveInput, entry_of, index_nodes, admission_result, passes_global, global_admitted,
  inventory_of, resolve_members, entry_lt, group_ids, no_memo,
}

has-index_nodes :
    (t : String) (ns : List AdmissionNode) (m : Map String NodeEntry)
    → has String_discrete t (index_nodes ns m) ≡ true
    → (has String_discrete t m ≡ true) ⊎ ((x : AdmissionNode) × In x ns × (x.logical_id ≡ t))
unfolding index_nodes
has-index_nodes t [] m h = inl h
has-index_nodes t (n ∷ ns) m h =
    elim (has-index_nodes t ns (set String_discrete n.logical_id (entry_of n) m) h) [
      | inr (x, i, e) ↦ inr (x, inr i, e)
      | inl k ↦ elim (String_discrete n.logical_id t) [
        | yes e ↦ inr (n, inl refl, e)
        | no ne ↦ inl (ground (arith, k, ne, has-set String_discrete n.logical_id t (entry_of n) m))
      ]
    ]

index_nodes-has :
    (t : String) (ns : List AdmissionNode) (m : Map String NodeEntry)
    → ((has String_discrete t m ≡ true) ⊎ ((x : AdmissionNode) × In x ns × (x.logical_id ≡ t)))
    → has String_discrete t (index_nodes ns m) ≡ true
unfolding index_nodes
index_nodes-has t [] m (inl h) = h
index_nodes-has t [] m (inr (x, i, e)) = absurd i
index_nodes-has t (n ∷ ns) m h =
    index_nodes-has t ns (set String_discrete n.logical_id (entry_of n) m) (elim h [
      | inl k ↦ inl (ground (arith, k, has-set String_discrete n.logical_id t (entry_of n) m))
      | inr (x, inl e, q) ↦ inl (
          ground (
            arith,
            has-set String_discrete n.logical_id t (entry_of n) m,
            ap (λ (y : AdmissionNode). y.logical_id) e,
            q,
          ))
      | inr (x, inr i, q) ↦ inr (x, i, q)
    ])

module _ {A : Type 0} (lt : A → A → Bool) (x : A) where
  In-insert_by : (y : A) (ys : List A) → In x (insert_by lt y ys) → (x ≡ y) ⊎ In x ys
  In-insert_by y [] i = i
  In-insert_by y (z ∷ ys) i =
      if_cases (λ zs. In x zs → (x ≡ y) ⊎ In x (z ∷ ys)) (lt z y) _ _
        (λ h k. elim k [
          | inl e ↦ inr (inl e)
          | inr j ↦ elim (In-insert_by y ys j) [ inl e ↦ inl e | inr l ↦ inr (inr l) ]
        ])
        (λ h k. k) i

  In-sort_by : (xs : List A) → In x (sort_by lt xs) → In x xs
  unfolding sort_by
  In-sort_by [] i = i
  In-sort_by (y ∷ xs) i = elim (In-insert_by y (sort_by lt xs) i) [
    | inl e ↦ inl e
    | inr j ↦ inr (In-sort_by xs j)
  ]

In-map :
    (n : NodeEntry) (xs : List AdmissionNode)
    → In n (map entry_of xs)
    → (x : AdmissionNode) × In x xs × (n ≡ entry_of x)
In-map n [] i = absurd i
In-map n (x ∷ xs) (inl e) = (x, inl refl, e)
In-map n (x ∷ xs) (inr i) = let (y, j, e) = In-map n xs i in (y, inr j, e)

All-map :
    {A : Type 0} (P Q : A → Type 0) (xs : List A) → ((x : A) → P x → Q x) → All P xs → All Q xs
All-map P Q [] f a = tt
All-map P Q (x ∷ xs) f a = (f x a.0, All-map P Q xs f a.1)

module _ (lib : Library) (input : ResolveInput lib) where
  -- The ID is that of a node of the input that is active, is not excluded, passes the global filter, and
  -- that no decision of the policy of risks excludes.
  abbrev pub IsAllowed : String → Type 0
  IsAllowed t =
      (x : AdmissionNode) × (x.logical_id ≡ t)
      × In x input.nodes
      × (x.active ≡ true)
      × (any (same t) input.excluded_node_ids ≡ false)
      × (passes_global lib input x ≡ true)
      × (is_barred input.risk_policy_revision input.risk_decisions input.risk_review_action t
          ≡ false)

  global_admitted-IsAllowed :
      (x : AdmissionNode) → In x (global_admitted lib input) → IsAllowed x.logical_id
  unfolding global_admitted admission_result
  global_admitted-IsAllowed x i =
      let (j, passes) =
        In-filter_if (passes_global lib input) (admission_result lib input).admitted_nodes x i in
      let (ordered, _, _, entered, _) =
        admit_nodes_lem (matches_admission_expression input.text_library) input.nodes
          input.admission_rules input.excluded_node_ids input.risk_policy_revision
          input.risk_decisions input.risk_review_action in
      let (a, may) = (entered x).0 j in
      (x, refl, a, may.active_ok, may.not_excluded, passes, may.not_barred)

  IsGlobal-IsAllowed : (t : String) → IsGlobal lib (inventory_of lib input) t → IsAllowed t
  unfolding inventory_of has
  IsGlobal-IsAllowed t h = elim (has-index_nodes t (global_admitted lib input) [] h) [
    | inl k ↦ absurd cc
    | inr (x, i, e) ↦ subst IsAllowed e (global_admitted-IsAllowed x i)
  ]

  sorted_nodes-IsGlobal :
      (n : NodeEntry)
      → In n (inventory_of lib input).sorted_nodes
      → IsGlobal lib (inventory_of lib input) n.logical_id
  unfolding inventory_of
  sorted_nodes-IsGlobal n i =
      let (x, j, e) = In-map n (global_admitted lib input) (In-sort_by entry_lt n _ i) in
      index_nodes-has n.logical_id (global_admitted lib input) []
        (inr (x, j, sym (ap (λ (y : NodeEntry). y.logical_id) e)))

-- The groups of the input are resolved without running out of fuel, and every node ID that a resolved
-- group has after its expansion is that of a node of the input that is active, that neither the caller
-- nor a decision of the current policy of risks excludes, and that passes the global filter.
pub resolve_members-IsAllowed :
    (lib : Library) (input : ResolveInput lib)
    → ((resolve_members lib input).1.is_exhausted ≡ false)
      × All
          (λ (m : GroupMemo). (t : String) → Occurs t m.expanded_node_ids → IsAllowed lib input t)
          (resolve_members lib input).0
unfolding resolve_members
resolve_members-IsAllowed lib input = (
  resolve_each_total lib (inventory_of lib input) (suc (length (inventory_of lib input).groups))
      (group_ids lib input) (no_memo lib input) (omega arith) refl refl,
  All-map (HasAdmitted lib (inventory_of lib input)) _ (resolve_members lib input).0
      (λ m h t o. let (a, b, c, d) = h in IsGlobal-IsAllowed lib input t (c t o))
      (resolve_each-IsGlobal lib (inventory_of lib input)
        (suc (length (inventory_of lib input).groups)) (group_ids lib input) (no_memo lib input)
        (sorted_nodes-IsGlobal lib input) refl),
)
