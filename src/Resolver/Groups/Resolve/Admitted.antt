-- ===== src/Resolver/Groups/Resolve/Admitted.antt =====
-- Only nodes that are admitted and pass the global filter get into the groups of
-- internal/resolver/graph.go.
use clash_sub_parser.Prelude.{
  ℕ, zero, suc, ◌≡◌, ◌⊎◌, inl, inr, refl, ap, subst, ◌∙◌, sym, String, Bool, true, false, not, List,
  [], ◌∷◌, ◌++◌, any, same, filter_if, Option, none, some, Option-cases, Bool-cases,
  String_discrete, arith, ite,
}
use clash_sub_parser.Prelude.Maps.{Map, find, set, has, find-set}
use clash_sub_parser.Prelude.Members.{In}
use clash_sub_parser.Prelude.Sort.{Occurs, Occurs-sort_texts}
use clash_sub_parser.Filters.Regex.{Library}
use clash_sub_parser.Resolver.Items.{Item, is_node}
use clash_sub_parser.Resolver.Items.Distinct.{IsDistinct, Agrees, add_item-Agrees, drop-Agrees}
use clash_sub_parser.Resolver.Groups.{
  Call, GroupMemo, empty_memo, Shared, NodeEntry, Group, Inventory,
}
use clash_sub_parser.Resolver.Groups.Removal.{apply_sources}
use clash_sub_parser.Resolver.Groups.Resolve.{
  gather, memo_of, sorted_sources, start_work, start_leaves, enter, resolve_group,
  resolve_group_memo, resolve_each,
}
use clash_sub_parser.Resolver.Groups.Resolve.Steps.{resolve_group_memo_cases}
use clash_sub_parser.Resolver.Groups.Preserved.{All, Kept}
use clash_sub_parser.Resolver.Groups.Preserved.Removed.{apply_sources-IsGood}
use clash_sub_parser.Resolver.Groups.Preserved.Gathered.{gather-IsGoodLeaves}

has_of_find :
    {V : Type 0} (k : String) (v : V) (m : Map String V)
    → find String_discrete k m ≡ some v
    → has String_discrete k m ≡ true
unfolding find has
has_of_find k v [] h = absurd cc
has_of_find k v ((j, w) ∷ m) h = ground (arith, has_of_find k v m)

All-Occurs : (R : String → Type 0) (ts : List String) (t : String) → All R ts → Occurs t ts → R t
All-Occurs R [] t a o = absurd o
All-Occurs R (u ∷ ts) t a (inl e) = subst R (sym e) a.0
All-Occurs R (u ∷ ts) t a (inr o) = All-Occurs R ts t a.1 o

module _ (lib : Library) (inv : Inventory lib) where
  abbrev pub IsGlobal : String → Type 0
  IsGlobal t = has String_discrete t inv.global_nodes ≡ true

  -- An item for a node has one of the nodes.
  abbrev pub IsAdmitted : Item → Type 0
  IsAdmitted i = is_node i ≡ true → IsGlobal i.target_id

  -- The members, the leaves and the nodes of a memo have nodes that are there, and no member is twice.
  abbrev pub HasAdmitted : GroupMemo → Type 0
  HasAdmitted m =
      All IsAdmitted m.members
      × All IsAdmitted m.leaf_items
      × ((t : String) → Occurs t m.expanded_node_ids → IsGlobal t)
      × IsDistinct m.members

  abbrev pub HasAdmittedMemo : Shared → Type 0
  HasAdmittedMemo sh =
      (gid : String) (m : GroupMemo) → find String_discrete gid sh.memo ≡ some m → HasAdmitted m

  set-HasAdmittedMemo :
      (gid : String) (m : GroupMemo) (sh : Shared)
      → HasAdmitted m
      → HasAdmittedMemo sh
      → HasAdmittedMemo (record sh { memo = set String_discrete gid m sh.memo })
  set-HasAdmittedMemo gid m sh h p t n f = elim (String_discrete gid t) [
    | yes e ↦
        let q : m ≡ n = ground (arith, e, f, find-set String_discrete gid t m sh.memo) in
        subst HasAdmitted q h
    | no ne ↦ p t n (ground (arith, ne, f, find-set String_discrete gid t m sh.memo))
  ]

  empty_memo-HasAdmitted : HasAdmitted empty_memo
  unfolding clash_sub_parser.Prelude.Sort.sort_texts
  empty_memo-HasAdmitted = (tt, tt, (λ t o. absurd o), tt)

  module _ (sorted : (n : NodeEntry) → In n inv.sorted_nodes → IsGlobal n.logical_id) where
    kept_admitted :
        (call : Call)
        → ((t : String) (sh : Shared)
            → HasAdmittedMemo sh
            → HasAdmittedMemo (call t sh).1 × HasAdmitted (call t sh).0)
        → Kept lib inv call
    kept_admitted call h = record {
      P = HasAdmittedMemo;
      Q = IsAdmitted;
      R = IsGlobal;
      C = Agrees;
      of_add = add_item-Agrees;
      of_drop = drop-Agrees;
      of_call = λ t sh p. let (a, b) = h t sh p in let (c, d, e, f) = b in (a, d);
      of_notice = λ n sh p. p;
      of_global = λ id n e k. has_of_find id n inv.global_nodes e;
      of_sorted = λ n i k. sorted n i;
      of_group = λ t g k. absurd cc;
      of_leaf = λ i q k. q k;
      of_builtin = λ b k. absurd cc;
    }

    resolve_group-HasAdmitted :
        (call : Call) (gid : String) (g : Group lib) (sh : Shared)
        → ((t : String) (sh : Shared)
            → HasAdmittedMemo sh
            → HasAdmittedMemo (call t sh).1 × HasAdmitted (call t sh).0)
        → HasAdmittedMemo sh
        → HasAdmittedMemo (resolve_group lib inv call gid g sh).1
          × HasAdmitted (resolve_group lib inv call gid g sh).0
    unfolding resolve_group kept_admitted
    resolve_group-HasAdmitted call gid g sh h p =
        let kept = kept_admitted call h in
        let w = apply_sources lib inv call g (sorted_sources lib inv g) (start_work lib inv sh) in
        let (a, b, agrees) =
          apply_sources-IsGood lib inv call kept g (sorted_sources lib inv g)
            (start_work lib inv sh) (p, tt, (tt, λ k. refl)) in
        let (c, d, e) =
          gather-IsGoodLeaves lib inv call kept g w.current.items (start_leaves lib inv w.shared) b
            (a, tt, tt) in
        let l = gather lib inv call g w.current.items (start_leaves lib inv w.shared) in
        let fine : HasAdmitted (memo_of lib inv g w l) = (
          b,
          d,
          (λ t o. All-Occurs IsGlobal l.node_set t e ((Occurs-sort_texts t l.node_set).0 o)),
          agrees.0,
        ) in
        (set-HasAdmittedMemo gid (memo_of lib inv g w l) l.leaf_shared fine c, fine)

    resolve_group_memo-HasAdmitted :
        (fuel : ℕ) (gid : String) (sh : Shared)
        → HasAdmittedMemo sh
        → HasAdmittedMemo (resolve_group_memo lib inv fuel gid sh).1
          × HasAdmitted (resolve_group_memo lib inv fuel gid sh).0
    unfolding resolve_group_memo
    resolve_group_memo-HasAdmitted zero gid sh p = (p, empty_memo-HasAdmitted)
    resolve_group_memo-HasAdmitted (suc fuel) gid sh p =
        resolve_group_memo_cases lib inv fuel gid sh (λ r. HasAdmittedMemo r.1 × HasAdmitted r.0)
          (λ m e. (p, p gid m e)) (p, empty_memo-HasAdmitted) (λ f. (p, empty_memo-HasAdmitted))
          (λ g f k.
            resolve_group-HasAdmitted (resolve_group_memo lib inv fuel) gid g (enter lib inv gid sh)
              (resolve_group_memo-HasAdmitted fuel) p)

    resolve_each-HasAdmitted :
        (fuel : ℕ) (gids : List String) (sh : Shared)
        → HasAdmittedMemo sh
        → All HasAdmitted (resolve_each lib inv fuel gids sh).0
    unfolding resolve_each
    resolve_each-HasAdmitted fuel [] sh p = tt
    resolve_each-HasAdmitted fuel (gid ∷ gids) sh p =
        let (a, b) = resolve_group_memo-HasAdmitted fuel gid sh p in
        (b, resolve_each-HasAdmitted fuel gids (resolve_group_memo lib inv fuel gid sh).1 a)

-- Where the sorted nodes are among the nodes that pass the global filter, the groups that are
-- resolved one after the other, from an empty memo and on any fuel, have only such nodes: every
-- member and every leaf that is a node, and every expanded node ID. No two members of a group have
-- the same kind and target.
pub resolve_each-IsGlobal :
    (lib : Library) (inv : Inventory lib) (fuel : ℕ) (gids : List String) (sh : Shared)
    → ((n : NodeEntry) → In n inv.sorted_nodes → IsGlobal lib inv n.logical_id)
    → sh.memo ≡ []
    → All (HasAdmitted lib inv) (resolve_each lib inv fuel gids sh).0
unfolding find
resolve_each-IsGlobal lib inv fuel gids sh sorted e =
    resolve_each-HasAdmitted lib inv sorted fuel gids sh
      (λ gid m f. absurd (ground (arith, f, ap (find String_discrete gid) e)))
