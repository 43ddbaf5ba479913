-- ===== src/Resolver/Groups/Removal.antt =====
-- The sources of `resolveGroupMemo` in internal/resolver/graph.go that remove items, and the loop over
-- the sources.
use clash_sub_parser.Prelude.{
  String, Bool, false, ◌&&◌, List, [], ◌∷◌, if◌then◌else◌, any, Option, none, some, same,
  String_discrete,
}
use clash_sub_parser.Prelude.Maps.{find}
use clash_sub_parser.Prelude.Strings.{codes}
use clash_sub_parser.Policy.Source.{
  add, remove, other_operation, MemberSourceKind, manual_node, group_ref, group_nodes, regex,
  filter, typed_builtin, other_kind,
}
use clash_sub_parser.Compiler.Prune.{MemberKind, group, node, builtin}
use clash_sub_parser.Filters.Regex.{Library, compile_filter_regex, match_regex}
use clash_sub_parser.Resolver.Items.{Item, Current, Key, is_node, same_kind, forget}
use clash_sub_parser.Resolver.Groups.{
  Call, GroupMemo, Shared, Work, Source, Group, Inventory, is_match, is_none, filter_reason,
  add_source,
}

module _ (lib : Library) (inv : Inventory lib) (call : Call) where
  abbrev names_item : MemberKind → Option String → Item → Bool
  names_item k none i = false
  names_item k (some t) i = same_kind i.kind k && same i.target_id t

  abbrev pub is_leaf_of : Item → GroupMemo × Shared → Bool × Shared
  is_leaf_of i (child, sh) = (any (same i.target_id) child.leaf_node_set, sh)

  abbrev matches_pattern : Option String → Item → Bool
  matches_pattern none i = false
  matches_pattern (some p) i = elim (compile_filter_regex lib (codes p)) [
    | none ↦ false
    | some re ↦ is_node i && is_match (match_regex re (codes i.display_name))
  ]

  -- `shouldRemove` by the kind of the source.
  unfoldable pub should_remove : MemberSourceKind → Source lib → Item → Shared → Bool × Shared
  unfolding filter_reason
  should_remove manual_node s i sh = (names_item node s.node_logical_id i, sh)
  should_remove group_ref s i sh = (names_item group s.target_group_id i, sh)
  should_remove group_nodes s i sh = elim s.target_group_id [
    | none ↦ (false, sh)
    | some t ↦ let r = is_leaf_of i (call t sh) in if is_node i then r else (false, sh)
  ]
  should_remove regex s i sh = (matches_pattern s.pattern i, sh)
  should_remove filter s i sh = elim s.filter_spec [
    | none ↦ (false, sh)
    | some spec ↦ elim (find String_discrete i.target_id inv.global_nodes) [
      | none ↦ (false, sh)
      | some n ↦ (is_node i && is_none (filter_reason lib inv spec n i.target_id), sh)
    ]
  ]
  should_remove typed_builtin s i sh = elim s.builtin_name [
    | none ↦ (false, sh)
    | some b ↦ (same_kind i.kind builtin && same i.target_id (inv.trim_upper b), sh)
  ]
  should_remove (other_kind k) s i sh = (false, sh)

  -- The loop over `currentItems`: what remains, and the set of the items seen.
  unfoldable pub remove_items :
      MemberSourceKind → Source lib → List Item → List Key → Shared → Current × Shared
  unfolding should_remove
  remove_items k s [] seen sh = (record { items = []; seen = seen }, sh)
  remove_items k s (i ∷ is) seen sh =
      let (b, sh1) = should_remove k s i sh in
      let (c, sh2) = remove_items k s is (if b then forget i seen else seen) sh1 in
      (if b then c else record c { items = i ∷ c.items }, sh2)

  abbrev pub remaining : Work → Current × Shared → Work
  remaining w (c, sh) = record w { current = c; shared = sh }

  abbrev pub remove_source : Source lib → Work → Work
  remove_source s w = remaining w (remove_items s.kind s w.current.items w.current.seen w.shared)

  unfoldable pub apply_source : Group lib → Source lib → Work → Work
  unfolding remove_items add_source
  apply_source g s w = elim s.operation [
    | add ↦ add_source lib inv call g s.kind s w
    | remove ↦ remove_source s w
    | other_operation o ↦ w
  ]

  -- The loop over the sources of a group.
  unfoldable pub apply_sources : Group lib → List (Source lib) → Work → Work
  unfolding apply_source
  apply_sources g [] w = w
  apply_sources g (s ∷ ss) w = apply_sources g ss (apply_source g s w)
