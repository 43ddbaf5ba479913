-- ===== src/Resolver/Groups/Preserved/Gathered.antt =====
-- The leaves of a group in internal/resolver/graph.go keep what its items and the calls for other groups
-- keep.
use clash_sub_parser.Prelude.{String, List, [], ◌∷◌, if_cases, filter_if, any, same}
use clash_sub_parser.Compiler.Prune.{MemberKind, group, node, builtin, no_kind}
use clash_sub_parser.Filters.Regex.{Library}
use clash_sub_parser.Resolver.Items.{Item, is_node}
use clash_sub_parser.Resolver.Groups.{Call, Group, Inventory}
use clash_sub_parser.Resolver.Groups.Resolve.{
  Leaves, add_text, add_leaf, add_all, add_child, keep_leaf, source_filter, gather_item, gather,
}
use clash_sub_parser.Resolver.Groups.Preserved.{All, append-All, filter_if-All, Kept}

add_text-All :
    (R : String → Type 0) (t : String) (ts : List String) → R t → All R ts → All R (add_text t ts)
add_text-All R t ts r a = if_cases (All R) (any (same t) ts) _ _ (λ h. a) (λ h. (r, a))

module _ (lib : Library) (inv : Inventory lib) (call : Call) (kept : Kept lib inv call) where
  abbrev pub IsGoodLeaves : Leaves → Type 0
  IsGoodLeaves l = kept.P l.leaf_shared × All kept.Q l.leaf_list × All kept.R l.node_set

  add_all-IsGoodLeaves :
      (is : List Item) (l : Leaves) → All kept.Q is → IsGoodLeaves l → IsGoodLeaves (add_all is l)
  add_all-IsGoodLeaves [] l a h = h
  add_all-IsGoodLeaves (i ∷ is) l a h =
      let (p, q, r) = h in
      add_all-IsGoodLeaves is (add_leaf i l) a.1 (
        p,
        append-All kept.Q l.leaf_list (i ∷ []) q (a.0, tt),
        if_cases (All kept.R) (is_node i) _ _
            (λ e. add_text-All kept.R i.target_id l.node_set (kept.of_leaf i a.0 e) r) (λ e. r),
      )

  gather_item-IsGoodLeaves :
      (g : Group lib) (i : Item) (l : Leaves)
      → kept.Q i
      → IsGoodLeaves l
      → IsGoodLeaves (gather_item lib inv call g i l)
  unfolding gather_item
  gather_item-IsGoodLeaves g i l q h = by_kind i.kind
    where
      child : IsGoodLeaves (
          add_child lib inv
            (source_filter lib inv i.target_id g.sources)
            (call i.target_id l.leaf_shared)
            l)
      child =
          let (u, v) = kept.of_call i.target_id l.leaf_shared h.0 in
          add_all-IsGoodLeaves
            (filter_if (keep_leaf lib inv (source_filter lib inv i.target_id g.sources))
              (call i.target_id l.leaf_shared).0.leaf_items)
            (record l { leaf_shared = (call i.target_id l.leaf_shared).1 })
            (filter_if-All kept.Q _ _ v) (let (p, q, r) = h in (u, q, r))

      by_kind :
          (k : MemberKind)
          → IsGoodLeaves (elim k [
            | group ↦
                add_child lib inv
                  (source_filter lib inv i.target_id g.sources)
                  (call i.target_id l.leaf_shared)
                  l
            | no_kind ↦ l
            | _ ↦ add_leaf i l
          ])
      by_kind group = child
      by_kind no_kind = h
      by_kind node = add_all-IsGoodLeaves (i ∷ []) l (q, tt) h
      by_kind builtin = add_all-IsGoodLeaves (i ∷ []) l (q, tt) h

  pub gather-IsGoodLeaves :
      (g : Group lib) (is : List Item) (l : Leaves)
      → All kept.Q is
      → IsGoodLeaves l
      → IsGoodLeaves (gather lib inv call g is l)
  unfolding gather
  gather-IsGoodLeaves g [] l a h = h
  gather-IsGoodLeaves g (i ∷ is) l a h =
      gather-IsGoodLeaves g is (gather_item lib inv call g i l) a.1
        (gather_item-IsGoodLeaves g i l a.0 h)
