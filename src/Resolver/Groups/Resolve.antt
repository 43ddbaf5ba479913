-- ===== src/Resolver/Groups/Resolve.antt =====
-- The end of `resolveGroupMemo` in internal/resolver/graph.go: the leaves of a group, and its memo.
pub mod Admitted
pub mod Enough
pub mod Steps
use clash_sub_parser.Prelude.{
  ℕ, zero, suc, ◌+◌, String, Bool, true, false, not, ◌&&◌, ◌||◌, List, [], ◌∷◌, ◌++◌, map, length,
  if◌then◌else◌, any, filter_if, ltb, Option, none, some, same, String_discrete,
}
use clash_sub_parser.Prelude.Maps.{find, set}
use clash_sub_parser.Prelude.Sort.{sort_by, sort_texts}
use clash_sub_parser.Policy.Source.{
  MemberSourceKind, manual_node, group_ref, group_nodes, regex, filter, typed_builtin, other_kind,
}
use clash_sub_parser.Policy.Rules.{position_lt}
use clash_sub_parser.Compiler.Prune.{MemberKind, group, node, builtin, no_kind}
use clash_sub_parser.Filters.Regex.{Library}
use clash_sub_parser.Filters.Conditions.{FilterCondition}
use clash_sub_parser.Resolver.Items.{Item, Current, is_node, same_kind}
use clash_sub_parser.Resolver.Groups.{
  Call, GroupMemo, empty_memo, Shared, Work, Source, Group, Inventory, leaf_passes,
}
use clash_sub_parser.Resolver.Groups.Removal.{apply_sources}

-- `leafItems` and `leafNodeSet`
pub record Leaves : Type 0 where
  pub leaf_list : List Item
  pub node_set : List String
  pub leaf_shared : Shared

abbrev pub add_text : String → List String → List String
add_text t ts = if any (same t) ts then ts else t ∷ ts

abbrev pub add_leaf : Item → Leaves → Leaves
add_leaf i l = record l {
  leaf_list = l.leaf_list ++ (i ∷ []);
  node_set = if is_node i then add_text i.target_id l.node_set else l.node_set;
}

abbrev pub add_all : List Item → Leaves → Leaves
add_all [] l = l
add_all (i ∷ is) l = add_all is (add_leaf i l)

module _ (lib : Library) (inv : Inventory lib) where
  abbrev is_ref_to : String → Source lib → Bool
  is_ref_to t s = elim s.kind [ group_ref ↦ is_target s.target_group_id | _ ↦ false ]
    where
      is_target : Option String → Bool
      is_target none = false
      is_target (some u) = same u t

  -- The filter of the first source that refers to the group and has one.
  abbrev pub source_filter : String → List (Source lib) → Option (List FilterCondition)
  source_filter t [] = none
  source_filter t (s ∷ ss) =
      let rest = source_filter t ss in if is_ref_to t s then or_rest s.filter_spec rest else rest
    where
      or_rest :
          Option (List FilterCondition)
          → Option (List FilterCondition)
          → Option (List FilterCondition)
      or_rest none rest = rest
      or_rest (some f) rest = some f

  abbrev pub keep_leaf : Option (List FilterCondition) → Item → Bool
  keep_leaf none i = true
  keep_leaf (some f) i = leaf_passes lib inv none (some f) i

  abbrev pub add_child : Option (List FilterCondition) → GroupMemo × Shared → Leaves → Leaves
  add_child f (child, sh) l =
      add_all (filter_if (keep_leaf f) child.leaf_items) (record l { leaf_shared = sh })

  -- The body of the loop over the items.
  unfoldable pub gather_item : Call → Group lib → Item → Leaves → Leaves
  gather_item call g i l = elim i.kind [
    | group ↦ add_child (source_filter i.target_id g.sources) (call i.target_id l.leaf_shared) l
    | no_kind ↦ l
    | _ ↦ add_leaf i l
  ]

  unfoldable pub gather : Call → Group lib → List Item → Leaves → Leaves
  unfolding gather_item
  gather call g [] l = l
  gather call g (i ∷ is) l = gather call g is (gather_item call g i l)

  abbrev targets_of : MemberKind → List Item → List String
  targets_of k is =
      map (λ (i : Item). i.target_id) (filter_if (λ (i : Item). same_kind i.kind k) is)

  -- The result for a group with its items and leaves.
  abbrev pub memo_of : Group lib → Work → Leaves → GroupMemo
  memo_of g w l = record {
    members = w.current.items;
    child_group_ids = targets_of group w.current.items;
    node_logical_ids = targets_of node w.current.items;
    expanded_node_ids = sort_texts l.node_set;
    effective_empty_pass =
        g.empty_fallback_pass
        && not (
            ltb 0 (length (sort_texts l.node_set))
            || any (λ (i : Item). same_kind i.kind builtin) w.current.items);
    leaf_items = l.leaf_list;
    leaf_node_set = l.node_set;
    candidate_count = w.count;
  }

  abbrev pub sorted_sources : Group lib → List (Source lib)
  sorted_sources g =
      sort_by (λ (a : Source lib) (b : Source lib). position_lt a.position b.position) g.sources

  abbrev pub start_work : Shared → Work
  start_work sh = record { current = record { items = []; seen = [] }; count = 0; shared = sh }

  abbrev pub start_leaves : Shared → Leaves
  start_leaves sh = record { leaf_list = []; node_set = []; leaf_shared = sh }

  abbrev pub store_memo : String → GroupMemo → Shared → GroupMemo × Shared
  store_memo gid m sh = (m, record sh { memo = set String_discrete gid m sh.memo })

  -- The work on a group that is there.
  unfoldable pub resolve_group : Call → String → Group lib → Shared → GroupMemo × Shared
  unfolding apply_sources gather
  resolve_group call gid g sh =
      let w = apply_sources lib inv call g (sorted_sources g) (start_work sh) in
      let l = gather call g w.current.items (start_leaves w.shared) in
      store_memo gid (memo_of g w l) l.leaf_shared

  abbrev pub enter : String → Shared → Shared
  enter gid sh = record sh { resolving = gid ∷ sh.resolving }

  -- The deferred `resolving[gid] = false`
  abbrev pub leave : String → GroupMemo × Shared → GroupMemo × Shared
  leave gid (m, sh) = (m, record sh { resolving = filter_if (λ r. not (same gid r)) sh.resolving })

  -- What `resolveGroupMemo` does with a group that is or is not there, one that is or is not being
  -- resolved, and one that has or has not a memo.
  unfoldable pub resolve_found : Call → String → Option (Group lib) → Shared → GroupMemo × Shared
  unfolding resolve_group
  resolve_found call gid none sh = (empty_memo, sh)
  resolve_found call gid (some g) sh = resolve_group call gid g sh

  unfoldable pub resolve_guarded : Call → String → Bool → Shared → GroupMemo × Shared
  unfolding resolve_found
  resolve_guarded call gid true sh = (empty_memo, sh)
  resolve_guarded call gid false sh =
      leave gid (resolve_found call gid (find String_discrete gid inv.groups) (enter gid sh))

  unfoldable pub resolve_with : Call → String → Option GroupMemo → Shared → GroupMemo × Shared
  unfolding resolve_guarded
  resolve_with call gid (some m) sh = (m, sh)
  resolve_with call gid none sh = resolve_guarded call gid (any (same gid) sh.resolving) sh

  -- `resolveGroupMemo`, on fuel.
  unfoldable pub resolve_group_memo : ℕ → String → Shared → GroupMemo × Shared
  unfolding resolve_with
  resolve_group_memo zero gid sh = (empty_memo, record sh { is_exhausted = true })
  resolve_group_memo (suc fuel) gid sh =
      resolve_with (resolve_group_memo fuel) gid (find String_discrete gid sh.memo) sh

  -- The groups one after the other, as `resolveGroups` asks for them.
  unfoldable pub resolve_each : ℕ → List String → Shared → List GroupMemo × Shared
  unfolding resolve_group_memo
  resolve_each fuel [] sh = ([], sh)
  resolve_each fuel (gid ∷ gids) sh =
      let (m, sh1) = resolve_group_memo fuel gid sh in
      let (ms, sh2) = resolve_each fuel gids sh1 in (m ∷ ms, sh2)
