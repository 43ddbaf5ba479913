-- ===== src/Resolver/Groups/Preserved.antt =====
-- What the work on a group in internal/resolver/graph.go keeps, whatever the call for another group
-- does: a property of the shared state, and one of every item.
pub mod Gathered
pub mod Removed
use clash_sub_parser.Prelude.{
  ℕ, ◌≡◌, ◌⊎◌, inl, inr, refl, ap, subst, ◌∙◌, sym, String, Bool, true, false, not, ◌&&◌, ◌||◌,
  List, [], ◌∷◌, ◌++◌, map, length, if◌then◌else◌, if_cases, any, filter_if, Option, none, some,
  Option-cases, Bool-cases, String_discrete, same, arith,
}
use clash_sub_parser.Prelude.Maps.{find, has}
use clash_sub_parser.Prelude.Members.{In}
use clash_sub_parser.Prelude.Strings.{codes}
use clash_sub_parser.Policy.Source.{
  MemberSourceKind, SourceOperation, add, remove, other_operation, manual_node, group_ref,
  group_nodes, regex, filter, typed_builtin, other_kind, is_given,
}
use clash_sub_parser.Compiler.Prune.{MemberKind, group, node, builtin, no_kind}
use clash_sub_parser.Filters.Regex.{Library, compile_filter_regex}
use clash_sub_parser.Resolver.Items.{Item, Key, Current, is_node, add_item, add_items, forget}
use clash_sub_parser.Resolver.Groups.{
  Call, GroupMemo, Shared, Work, GroupNotice, NodeEntry, Source, Group, Inventory, notify, include,
  consider, node_item, group_item, builtin_item, chosen, filter_reason, leaf_passes,
  add_manual_node, add_group_ref, add_group_nodes, add_regex, add_source,
}
use clash_sub_parser.Resolver.Groups.Removal.{
  should_remove, remove_items, remove_source, remaining, apply_source, apply_sources,
}
use clash_sub_parser.Resolver.Groups.Resolve.{
  Leaves, add_leaf, add_all, add_child, keep_leaf, source_filter, gather_item, gather,
}

module _ {A : Type 0} (Q : A → Type 0) where
  abbrev pub All : List A → Type 0
  All [] = Unit
  All (x ∷ xs) = Q x × All xs

  pub append-All : (xs ys : List A) → All xs → All ys → All (xs ++ ys)
  append-All [] ys a b = b
  append-All (x ∷ xs) ys a b = (a.0, append-All xs ys a.1 b)

  pub filter_if-All : (p : A → Bool) (xs : List A) → All xs → All (filter_if p xs)
  filter_if-All p [] a = tt
  filter_if-All p (x ∷ xs) a =
      if_cases All (p x) _ _ (λ h. (a.0, filter_if-All p xs a.1)) (λ h. filter_if-All p xs a.1)

module _ (Q : Item → Type 0) where
  pub add_items-All :
      (is : List Item) (c : Current) → All Q is → All Q c.items → All Q (add_items is c).items
  unfolding add_items
  add_items-All [] c a b = b
  add_items-All (i ∷ is) c a b = add_items-All is (add_item i c) a.1 (once i c a.0 b)
    where
      once : (i : Item) (c : Current) → Q i → All Q c.items → All Q (add_item i c).items
      once i c q b =
          if_cases (λ (d : Current). All Q d.items) (any _ c.seen) _ _ (λ h. b)
            (λ h. append-All Q c.items (i ∷ []) b (q, tt))

-- What the property of a call is about.
pub record Kept (lib : Library) (inv : Inventory lib) (call : Call) : Type 1 where
  pub P : Shared → Type 0
  pub Q : Item → Type 0
  pub of_call : (t : String) (sh : Shared) → P sh → P (call t sh).1 × All Q (call t sh).0.leaf_items
  pub of_notice :
      (n : GroupNotice) (sh : Shared) → P sh → P (record sh { notices = sh.notices ++ (n ∷ []) })
  pub of_global :
      (id : String) (n : NodeEntry)
      → find String_discrete id inv.global_nodes ≡ some n
      → Q (node_item lib inv id n)
  pub of_sorted : (n : NodeEntry) → In n inv.sorted_nodes → Q (node_item lib inv n.logical_id n)
  pub of_group : (t : String) (g : Group lib) → Q (group_item lib inv t g)
  pub C : Current → Type 0
  pub of_add : (i : Item) (c : Current) → C c → C (add_item i c)
  pub of_drop :
      (pre is : List Item) (i : Item) (seen : List Key)
      → C (record { items = pre ++ (i ∷ is); seen = seen })
      → C (record { items = pre ++ is; seen = forget i seen })
  pub R : String → Type 0
  pub of_leaf : (i : Item) → Q i → is_node i ≡ true → R i.target_id
  pub of_builtin : (b : String) → Q (builtin_item lib inv b)

module _ (lib : Library) (inv : Inventory lib) (call : Call) (kept : Kept lib inv call) where
  abbrev pub IsGood : Work → Type 0
  IsGood w = kept.P w.shared × All kept.Q w.current.items × kept.C w.current

  add_items-C : (is : List Item) (c : Current) → kept.C c → kept.C (add_items is c)
  unfolding add_items
  add_items-C [] c h = h
  add_items-C (i ∷ is) c h = add_items-C is (add_item i c) (kept.of_add i c h)

  notify-IsGood : (n : GroupNotice) (w : Work) → IsGood w → IsGood (notify n w)
  notify-IsGood n w (p, q, c) = (kept.of_notice n w.shared p, q, c)

  include-IsGood : (is : List Item) (w : Work) → All kept.Q is → IsGood w → IsGood (include is w)
  include-IsGood is w a (p, q, c) =
      (p, add_items-All kept.Q is w.current a q, add_items-C is w.current c)

  chosen-All : (p : NodeEntry → Bool) → All kept.Q (chosen lib inv p)
  chosen-All p = among inv.sorted_nodes kept.of_sorted
    where
      among :
          (ns : List NodeEntry)
          → ((n : NodeEntry) → In n ns → kept.Q (node_item lib inv n.logical_id n))
          → All kept.Q (map (λ (n : NodeEntry). node_item lib inv n.logical_id n) (filter_if p ns))
      among [] h = tt
      among (n ∷ ns) h =
          if_cases (λ xs. All kept.Q (map (λ (n : NodeEntry). node_item lib inv n.logical_id n) xs))
            (p n) _ _ (λ e. (h n (inl refl), among ns (λ m i. h m (inr i))))
            (λ e. among ns (λ m i. h m (inr i)))

  add_manual_node-IsGood :
      (g : Group lib) (s : Source lib) (id : String) (w : Work)
      → IsGood w
      → IsGood (add_manual_node lib inv g s id w)
  add_manual_node-IsGood g s id w h =
      elim (Option-cases (find String_discrete id inv.global_nodes)) [
        | inl e ↦
            rw (add_manual_node, e)
              (if_cases IsGood (has String_discrete id inv.admitted_nodes) _ _
                (λ _. notify-IsGood _ w h) (λ _. notify-IsGood _ w h))
        | inr (n, e) ↦ elim (Option-cases s.filter_spec) [
          | inl f ↦ rw (add_manual_node, e, f) (include-IsGood _ w (kept.of_global id n e, tt) h)
          | inr (spec, f) ↦ elim (Option-cases (filter_reason lib inv spec n id)) [
            | inl r ↦
                rw (add_manual_node, e, f, r) (include-IsGood _ w (kept.of_global id n e, tt) h)
            | inr (x, r) ↦ rw (add_manual_node, e, f, r) (notify-IsGood _ w h)
          ]
        ]
      ]

  add_group_ref-IsGood : (t : String) (w : Work) → IsGood w → IsGood (add_group_ref lib inv t w)
  add_group_ref-IsGood t w h = elim (Option-cases (find String_discrete t inv.groups)) [
    | inl e ↦ rw (add_group_ref, e) (notify-IsGood _ w h)
    | inr (g, e) ↦ rw (add_group_ref, e) (include-IsGood _ w (kept.of_group t g, tt) h)
  ]

  add_group_nodes-IsGood :
      (s : Source lib) (t : String) (w : Work)
      → IsGood w
      → IsGood (add_group_nodes lib inv call s t w)
  add_group_nodes-IsGood s t w h =
      if_cases IsGood (has String_discrete t inv.groups) _ _
        (λ e.
          let (p, q) = kept.of_call t w.shared h.0 in
          (
            p,
            add_items-All kept.Q _ w.current (filter_if-All kept.Q _ _ q) h.1,
            add_items-C _ w.current h.2,
          ))
        (λ e. h)

  add_regex-IsGood :
      (g : Group lib) (p : String) (w : Work) → IsGood w → IsGood (add_regex lib inv g p w)
  add_regex-IsGood g p w h = elim (Option-cases (compile_filter_regex lib (codes p))) [
    | inl e ↦ rw (add_regex, e) (notify-IsGood _ w h)
    | inr (re, e) ↦ rw (add_regex, e) (include-IsGood _ w (chosen-All _) h)
  ]

  pub add_source-IsGood :
      (g : Group lib) (k : MemberSourceKind) (s : Source lib) (w : Work)
      → IsGood w
      → IsGood (add_source lib inv call g k s w)
  unfolding add_source
  add_source-IsGood g manual_node s w h = elim (Option-cases s.node_logical_id) [
    | inl e ↦ rw e h
    | inr (id, e) ↦ rw e (add_manual_node-IsGood g s id (consider 1 w) h)
  ]
  add_source-IsGood g group_ref s w h = elim (Option-cases s.target_group_id) [
    | inl e ↦ rw e h
    | inr (t, e) ↦ rw e (add_group_ref-IsGood t w h)
  ]
  add_source-IsGood g group_nodes s w h = elim (Option-cases s.target_group_id) [
    | inl e ↦ rw e h
    | inr (t, e) ↦ rw e (add_group_nodes-IsGood s t w h)
  ]
  add_source-IsGood g regex s w h = elim (Option-cases s.pattern) [
    | inl e ↦ rw e h
    | inr (p, e) ↦ rw e (
        if_cases IsGood (is_given (some p)) _ _
          (λ _. add_regex-IsGood g p (consider (length inv.sorted_nodes) w) h) (λ _. h))
  ]
  add_source-IsGood g filter s w h = elim (Option-cases s.filter_spec) [
    | inl e ↦ rw e h
    | inr (spec, e) ↦
        rw e (include-IsGood _ (consider (length inv.sorted_nodes) w) (chosen-All _) h)
  ]
  add_source-IsGood g typed_builtin s w h = elim (Option-cases s.builtin_name) [
    | inl e ↦ rw e h
    | inr (b, e) ↦ rw e (include-IsGood _ w (kept.of_builtin (inv.trim_upper b), tt) h)
  ]
  add_source-IsGood g (other_kind k) s w h = h
