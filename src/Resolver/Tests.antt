-- ===== src/Resolver/Tests.antt =====
-- Two groups of internal/resolver/graph.go that refer to each other's nodes.
use clash_sub_parser.Prelude.{
  ℕ, ◌≡◌, ◌<◌, refl, sym, subst, inl, inr, arith, String, Bool, true, false, List, [], ◌∷◌, map,
  Option, none, some,
}
use clash_sub_parser.Prelude.Int.{pos}
use clash_sub_parser.Prelude.Strings.{same_codes, to_lower}
use clash_sub_parser.Prelude.Members.{In}
use clash_sub_parser.Policy.Source.{
  SourceOperation, add, remove, MemberSourceKind, manual_node, group_ref, group_nodes,
  typed_builtin,
}
use clash_sub_parser.Filters.Regex.{Library}
use clash_sub_parser.Resolver.Items.{Item}
use clash_sub_parser.Resolver.Groups.{NodeEntry, Source, Group, Inventory, Shared, GroupMemo}
use clash_sub_parser.Resolver.Groups.Resolve.{resolve_each}
use clash_sub_parser.Resolver.Groups.Resolve.Admitted.{HasAdmitted, IsGlobal, resolve_each-IsGlobal}
use clash_sub_parser.Resolver.Groups.Resolve.Enough.{resolve_each_total}
use clash_sub_parser.Resolver.Groups.Preserved.{All}

abbrev library : Library
library = record {
  compile_re2 = λ p. some (λ text. true);
  compile_backtracking = λ p. none;
  lower_case = to_lower;
  equal_fold = λ s t. same_codes (to_lower s) (to_lower t);
}

abbrev source :
    SourceOperation
    → MemberSourceKind
    → ℕ
    → Option String
    → Option String
    → Option String
    → Source library
source o k p n t b = record {
  id = "s";
  operation = o;
  kind = k;
  position = pos p;
  node_logical_id = n;
  target_group_id = t;
  pattern = none;
  filter_spec = none;
  builtin_name = b;
}

abbrev first_group : Group library
first_group = record {
  id = "g1";
  name = "First";
  empty_fallback_pass = false;
  sources =
      source remove manual_node 2 (some "n2") none none
      ∷ source add group_nodes 1 none (some "g2") none
      ∷ source add group_ref 3 none (some "g2") none
      ∷ [];
}

abbrev second_group : Group library
second_group = record {
  id = "g2";
  name = "Second";
  empty_fallback_pass = false;
  sources =
      source add manual_node 0 (some "n1") none none
      ∷ source add manual_node 1 (some "n2") none none
      ∷ source add manual_node 2 (some "n3") none none
      ∷ source add group_nodes 3 none (some "g1") none
      ∷ source add typed_builtin 4 none none (some "DIRECT")
      ∷ [];
}

abbrev entry : String → NodeEntry
entry n = record { logical_id = n; node_name = n; node_protocol = "ss" }

abbrev inventory : Inventory library
inventory = record {
  groups = ("g1", first_group) ∷ ("g2", second_group) ∷ [];
  sorted_nodes = entry "n1" ∷ entry "n2" ∷ [];
  global_nodes = ("n1", entry "n1") ∷ ("n2", entry "n2") ∷ [];
  admitted_nodes = ("n1", entry "n1") ∷ ("n2", entry "n2") ∷ ("n3", entry "n3") ∷ [];
  node_sources = [];
  latest_obs = [];
  as_of = 0;
  trim_upper = λ s. s;
}

abbrev start : Shared
start = record { memo = []; resolving = []; notices = []; is_exhausted = false }

resolve_each_test :
    map
      (λ (m : GroupMemo). map (λ (i : Item). i.target_id) m.members)
      (resolve_each library inventory 3 ("g1" ∷ "g2" ∷ []) start).0
    ≡ ("n1" ∷ "DIRECT" ∷ "g2" ∷ []) ∷ ("n1" ∷ "n2" ∷ "DIRECT" ∷ []) ∷ []
unfolding resolve_each clash_sub_parser.Prelude.Maps.find clash_sub_parser.Prelude.String_discrete
    clash_sub_parser.Prelude.Sort.sort_by clash_sub_parser.Resolver.Items.add_items
    clash_sub_parser.Prelude.Maps.has clash_sub_parser.Resolver.Items.forget
    clash_sub_parser.Prelude.Maps.set
resolve_each_test = refl

sorted_nodes_found :
    (n : NodeEntry) → In n inventory.sorted_nodes → IsGlobal library inventory n.logical_id
unfolding clash_sub_parser.Prelude.Maps.has clash_sub_parser.Prelude.String_discrete
sorted_nodes_found n (inl e) =
    subst (λ (x : NodeEntry). IsGlobal library inventory x.logical_id) (sym e) refl
sorted_nodes_found n (inr (inl e)) =
    subst (λ (x : NodeEntry). IsGlobal library inventory x.logical_id) (sym e) refl
sorted_nodes_found n (inr (inr i)) = absurd i

resolve_each-IsGlobal_example :
    All
      (HasAdmitted library inventory)
      (resolve_each library inventory 3 ("g1" ∷ "g2" ∷ []) start).0
resolve_each-IsGlobal_example =
    resolve_each-IsGlobal library inventory 3 ("g1" ∷ "g2" ∷ []) start sorted_nodes_found refl

resolve_each_total_example :
    (resolve_each library inventory 3 ("g1" ∷ "g2" ∷ []) start).1.is_exhausted ≡ false
resolve_each_total_example =
    resolve_each_total library inventory 3 ("g1" ∷ "g2" ∷ []) start (omega arith) refl refl
