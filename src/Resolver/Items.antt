-- ===== src/Resolver/Items.antt =====
-- The items of a group in `resolveGroups` of internal/resolver/graph.go, with the set of those seen.
pub mod Distinct
use clash_sub_parser.Prelude.{
  String, Bool, true, false, not, ◌&&◌, List, [], ◌∷◌, ◌++◌, if◌then◌else◌, any, filter_if, same,
}
use clash_sub_parser.Compiler.Prune.{MemberKind, group, node, builtin, no_kind}

-- `resolvedItem`
pub record Item : Type 0 where
  pub kind : MemberKind
  pub target_id : String
  pub display_name : String

-- The ID of an item is the name of its kind, a colon and its target: two IDs agree when both parts do.
abbrev pub Key : Type 0
Key = MemberKind × String

abbrev pub key_of : Item → Key
key_of i = (i.kind, i.target_id)

abbrev pub same_kind : MemberKind → MemberKind → Bool
same_kind group group = true
same_kind node node = true
same_kind builtin builtin = true
same_kind no_kind no_kind = true
same_kind _ _ = false

abbrev pub same_key : Key → Key → Bool
same_key (k, t) (l, u) = same_kind k l && same t u

abbrev pub is_node : Item → Bool
is_node i = same_kind i.kind node

-- `currentItems` and `seenInCurrentSet`
pub record Current : Type 0 where
  pub items : List Item
  pub seen : List Key

-- An item that was not seen is appended.
unfoldable pub add_item : Item → Current → Current
add_item i c =
    if any (same_key (key_of i)) c.seen
    then c
    else record { items = c.items ++ (i ∷ []); seen = key_of i ∷ c.seen }

unfoldable pub add_items : List Item → Current → Current
unfolding add_item
add_items [] c = c
add_items (i ∷ is) c = add_items is (add_item i c)

-- `delete(seenInCurrentSet, item.id)`
unfoldable pub forget : Item → List Key → List Key
forget i seen = filter_if (λ k. not (same_key (key_of i) k)) seen
