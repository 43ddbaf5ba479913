-- ===== src/Resolver/Groups/Preserved/Removed.antt =====
-- What the sources that remove items, and the loop over the sources, keep in internal/resolver/graph.go.
use clash_sub_parser.Prelude.{
  ◌≡◌, inl, inr, refl, ap, subst, sym, Bool, true, false, List, [], ◌∷◌, ◌++◌, if◌then◌else◌,
  if_cases, Option-cases, String_discrete,
}
use clash_sub_parser.Prelude.Maps.{find}
use clash_sub_parser.Policy.Source.{
  MemberSourceKind, SourceOperation, add, remove, other_operation, manual_node, group_ref,
  group_nodes, regex, filter, typed_builtin, other_kind,
}
use clash_sub_parser.Filters.Regex.{Library}
use clash_sub_parser.Resolver.Items.{Item, Key, Current, is_node, forget}
use clash_sub_parser.Resolver.Groups.{Call, Shared, Work, Source, Group, Inventory, add_source}
use clash_sub_parser.Resolver.Groups.Removal.{
  should_remove, remove_items, remove_source, apply_source, apply_sources,
}
use clash_sub_parser.Resolver.Groups.Preserved.{All, Kept, IsGood, add_source-IsGood}

append_assoc : (xs ys zs : List Item) → (xs ++ ys) ++ zs ≡ xs ++ (ys ++ zs)
append_assoc [] ys zs = refl
append_assoc (x ∷ xs) ys zs = ap (λ l. x ∷ l) (append_assoc xs ys zs)

module _ (lib : Library) (inv : Inventory lib) (call : Call) (kept : Kept lib inv call) where
  should_remove-P :
      (k : MemberSourceKind) (s : Source lib) (i : Item) (sh : Shared)
      → kept.P sh
      → kept.P (should_remove lib inv call k s i sh).1
  unfolding should_remove
  should_remove-P manual_node s i sh h = h
  should_remove-P group_ref s i sh h = h
  should_remove-P group_nodes s i sh h = elim (Option-cases s.target_group_id) [
    | inl e ↦ rw e h
    | inr (t, e) ↦ rw e (
        if_cases (λ (r : Bool × Shared). kept.P r.1) (is_node i) _ _ (λ _. (kept.of_call t sh h).0)
          (λ _. h))
  ]
  should_remove-P regex s i sh h = h
  should_remove-P filter s i sh h = elim (Option-cases s.filter_spec) [
    | inl e ↦ rw e h
    | inr (spec, e) ↦ elim (Option-cases (find String_discrete i.target_id inv.global_nodes)) [
      | inl f ↦ rw (e, should_remove, f) h
      | inr (n, f) ↦ rw (e, should_remove, f) h
    ]
  ]
  should_remove-P typed_builtin s i sh h = elim (Option-cases s.builtin_name) [
    | inl e ↦ rw e h
    | inr (b, e) ↦ rw e h
  ]
  should_remove-P (other_kind k) s i sh h = h

  remove_items-P :
      (k : MemberSourceKind) (s : Source lib) (is : List Item) (seen : List Key) (sh : Shared)
      → kept.P sh
      → All kept.Q is
      → kept.P (remove_items lib inv call k s is seen sh).1
        × All kept.Q (remove_items lib inv call k s is seen sh).0.items
  unfolding remove_items
  remove_items-P k s [] seen sh p q = (p, tt)
  remove_items-P k s (i ∷ is) seen sh p q =
      let (b, sh1) = should_remove lib inv call k s i sh in
      let (u, v) =
        remove_items-P k s is (if b then forget i seen else seen) sh1 (should_remove-P k s i sh p)
          q.1 in
      (u, if_cases (λ (c : Current). All kept.Q c.items) b _ _ (λ _. v) (λ _. (q.0, v)))

  remove_items-C :
      (k : MemberSourceKind) (s : Source lib) (pre is : List Item) (seen : List Key) (sh : Shared)
      → kept.C (record { items = pre ++ is; seen = seen })
      → kept.C (record {
        items = pre ++ (remove_items lib inv call k s is seen sh).0.items;
        seen = (remove_items lib inv call k s is seen sh).0.seen;
      })
  unfolding remove_items
  remove_items-C k s pre [] seen sh h = h
  remove_items-C k s pre (i ∷ is) seen sh h =
      by_verdict
        (λ pre' seen' g. remove_items-C k s pre' is seen' (should_remove lib inv call k s i sh).1 g)
        (should_remove lib inv call k s i sh).0
    where
      sh1 : Shared
      sh1 = (should_remove lib inv call k s i sh).1

      next : Bool → Current
      next b = (remove_items lib inv call k s is (if b then forget i seen else seen) sh1).0

      outcome : Bool → Current
      outcome b = if b then next b else record (next b) { items = i ∷ (next b).items }

      by_verdict :
          ((pre' : List Item) (seen' : List Key)
            → kept.C (record { items = pre' ++ is; seen = seen' })
            → kept.C (record {
              items = pre' ++ (remove_items lib inv call k s is seen' sh1).0.items;
              seen = (remove_items lib inv call k s is seen' sh1).0.seen;
            }))
          → (b : Bool)
          → kept.C (record { items = pre ++ (outcome b).items; seen = (outcome b).seen })
      by_verdict again true = again pre (forget i seen) (kept.of_drop pre is i seen h)
      by_verdict again false =
          subst (λ xs. kept.C (record { items = xs; seen = (next false).seen }))
            (append_assoc pre (i ∷ []) (next false).items)
            (again (pre ++ (i ∷ [])) seen (
              subst (λ xs. kept.C (record { items = xs; seen = seen }))
                (sym (append_assoc pre (i ∷ []) is)) h))

  apply_source-IsGood :
      (g : Group lib) (s : Source lib) (w : Work)
      → IsGood lib inv call kept w
      → IsGood lib inv call kept (apply_source lib inv call g s w)
  unfolding apply_source
  apply_source-IsGood g s w h = by_operation s.operation
    where
      by_operation :
          (o : SourceOperation)
          → IsGood lib inv call kept (elim o [
            | add ↦ add_source lib inv call g s.kind s w
            | remove ↦ remove_source lib inv call s w
            | other_operation o ↦ w
          ])
      by_operation add = add_source-IsGood lib inv call kept g s.kind s w h
      by_operation remove =
          let (p, q) = remove_items-P s.kind s w.current.items w.current.seen w.shared h.0 h.1 in
          (p, q, remove_items-C s.kind s [] w.current.items w.current.seen w.shared h.2)
      by_operation (other_operation o) = h

  pub apply_sources-IsGood :
      (g : Group lib) (ss : List (Source lib)) (w : Work)
      → IsGood lib inv call kept w
      → IsGood lib inv call kept (apply_sources lib inv call g ss w)
  unfolding apply_sources
  apply_sources-IsGood g [] w h = h
  apply_sources-IsGood g (s ∷ ss) w h =
      apply_sources-IsGood g ss (apply_source lib inv call g s w) (apply_source-IsGood g s w h)
