-- ===== src/Resolver/Groups.antt =====
-- `resolveGroupMemo` of internal/resolver/graph.go: the members of a group from its sources. The parts
-- of a group's work are functions of the call that resolves another group, `Call`.
pub mod Removal
pub mod Resolve
pub mod Preserved
use clash_sub_parser.Prelude.{
  ℕ, ◌+◌, String, Bool, true, false, not, ◌&&◌, ◌||◌, List, [], ◌∷◌, ◌++◌, map, length,
  if◌then◌else◌, any, filter_if, ltb, Option, none, some, same, String_discrete,
}
use clash_sub_parser.Prelude.Int.{ℤ}
use clash_sub_parser.Prelude.Maps.{Map, find, get, has}
use clash_sub_parser.Prelude.Strings.{codes}
use clash_sub_parser.Probing.Health.{Observation}
use clash_sub_parser.Policy.Source.{
  Filters, MemberSource, SourceOperation, add, remove, other_operation, MemberSourceKind,
  manual_node, group_ref, group_nodes, regex, filter, typed_builtin, other_kind, is_given,
}
use clash_sub_parser.Compiler.Prune.{MemberKind, group, node, builtin}
use clash_sub_parser.Filters.Regex.{Library, Matcher, compile_filter_regex, match_regex}
use clash_sub_parser.Filters.Conditions.{FilterCondition, spec_failure}
use clash_sub_parser.Filters.Matching.{Reason, matches_filter}
use clash_sub_parser.Resolver.Items.{Item, Current, is_node, add_item, add_items}

-- The filters of the policy are those of internal/domain/node_filter.go.
abbrev pub is_none {ℓ} : {A : Type ℓ} → Option A → Bool
is_none none = true
is_none (some x) = false

abbrev pub filters : Library → Filters
filters lib = record {
  Spec = List FilterCondition;
  spec_is_valid = λ cs. is_none (spec_failure lib cs);
  regex_compiles = λ p. not (is_none (compile_filter_regex lib (codes p)));
}

-- What is read of a node.
pub record NodeEntry : Type 0 where
  pub logical_id : String
  pub node_name : String
  pub node_protocol : String

pub data GroupNotice : Type 0 where
  member_filtered : String → String → Reason → GroupNotice
  globally_filtered node_missing : String → String → GroupNotice
  target_missing : String → GroupNotice
  regex_invalid : String → GroupNotice

-- `groupMemo`; the position of a member is its place.
pub record GroupMemo : Type 0 where
  pub members : List Item
  pub child_group_ids : List String
  pub node_logical_ids : List String
  pub expanded_node_ids : List String
  pub effective_empty_pass : Bool
  pub leaf_items : List Item
  pub leaf_node_set : List String
  pub candidate_count : ℕ

abbrev pub empty_memo : GroupMemo
empty_memo = record {
  members = [];
  child_group_ids = [];
  node_logical_ids = [];
  expanded_node_ids = [];
  effective_empty_pass = false;
  leaf_items = [];
  leaf_node_set = [];
  candidate_count = 0;
}

-- `memo`, `resolving` and `diagnostics`, and whether the fuel ran out.
pub record Shared : Type 0 where
  pub memo : Map String GroupMemo
  pub resolving : List String
  pub notices : List GroupNotice
  pub is_exhausted : Bool

abbrev pub Call : Type 0
Call = String → Shared → GroupMemo × Shared

-- The work on one group so far.
pub record Work : Type 0 where
  pub current : Current
  pub count : ℕ
  pub shared : Shared

abbrev pub notify : GroupNotice → Work → Work
notify n w = record w { shared = record w.shared { notices = w.shared.notices ++ (n ∷ []) } }

abbrev pub include : List Item → Work → Work
include is w = record w { current = add_items is w.current }

abbrev pub consider : ℕ → Work → Work
consider n w = record w { count = w.count + n }

-- A match without an error.
abbrev pub is_match : Option Bool → Bool
is_match (some true) = true
is_match _ = false

module _ (lib : Library) where
  abbrev pub Source : Type 0
  Source = MemberSource (filters lib)

  pub record Group : Type 0 where
    pub id : String
    pub name : String
    pub empty_fallback_pass : Bool
    pub sources : List Source

  -- The arguments of `resolveGroups` that the resolution of members reads, with the nodes sorted, and
  -- `strings.ToUpper(strings.TrimSpace(s))`.
  pub record Inventory : Type 0 where
    pub groups : Map String Group
    pub sorted_nodes : List NodeEntry
    pub global_nodes : Map String NodeEntry
    pub admitted_nodes : Map String NodeEntry
    pub node_sources : Map String (List String)
    pub latest_obs : Map String (Map String Observation)
    pub as_of : ℕ
    pub trim_upper : String → String

  module _ (inv : Inventory) where
    -- `MatchesFilter` of a node.
    unfoldable pub filter_reason : List FilterCondition → NodeEntry → String → Option Reason
    filter_reason spec n id =
        matches_filter lib spec
          (record {
            name = n.node_name;
            node_protocol = n.node_protocol;
            subscription_ids = get String_discrete [] id inv.node_sources;
          })
          (get String_discrete [] id inv.latest_obs) inv.as_of

    abbrev pub node_item : String → NodeEntry → Item
    node_item id n = record { kind = node; target_id = id; display_name = n.node_name }

    abbrev pub group_item : String → Group → Item
    group_item id g = record { kind = group; target_id = id; display_name = g.name }

    abbrev pub builtin_item : String → Item
    builtin_item name = record { kind = builtin; target_id = name; display_name = name }

    abbrev pub passes : Option (List FilterCondition) → NodeEntry → String → Bool
    passes none n id = true
    passes (some spec) n id = is_none (filter_reason spec n id)

    abbrev matches_re : Option Matcher → NodeEntry → Bool
    matches_re none n = true
    matches_re (some re) n = is_match (match_regex re (codes n.node_name))

    -- The pattern of a source of another group's nodes. One that does not compile lets all pass.
    abbrev pattern_passes : Option String → NodeEntry → Bool
    pattern_passes none n = true
    pattern_passes (some p) n =
        not (is_given (some p)) || matches_re (compile_filter_regex lib (codes p)) n

    abbrev pub leaf_passes : Option String → Option (List FilterCondition) → Item → Bool
    leaf_passes pattern spec i =
        if is_node i
        then elim (find String_discrete i.target_id inv.global_nodes) [
          | none ↦ false
          | some n ↦ pattern_passes pattern n && passes spec n i.target_id
        ]
        else true

    -- The items of the sorted nodes that a test lets through.
    abbrev pub chosen : (NodeEntry → Bool) → List Item
    chosen p = map (λ (n : NodeEntry). node_item n.logical_id n) (filter_if p inv.sorted_nodes)

    abbrev pub add_manual_node : Group → Source → String → Work → Work
    add_manual_node g s id w = elim (find String_discrete id inv.global_nodes) [
      | some n ↦ elim s.filter_spec [
        | none ↦ include (node_item id n ∷ []) w
        | some spec ↦ elim (filter_reason spec n id) [
          | none ↦ include (node_item id n ∷ []) w
          | some r ↦ notify (member_filtered g.name id r) w
        ]
      ]
      | none ↦
          if has String_discrete id inv.admitted_nodes
          then notify (globally_filtered g.name id) w
          else notify (node_missing g.name id) w
    ]

    abbrev pub add_group_ref : String → Work → Work
    add_group_ref target w = elim (find String_discrete target inv.groups) [
      | some tg ↦ include (group_item target tg ∷ []) w
      | none ↦ notify (target_missing target) w
    ]

    abbrev pub add_leaves : Source → GroupMemo × Shared → Work → Work
    add_leaves s (child, shared) w =
        include (filter_if (leaf_passes s.pattern s.filter_spec) child.leaf_items)
          (consider (length child.leaf_items) (record w { shared = shared }))

    abbrev pub add_group_nodes : Call → Source → String → Work → Work
    add_group_nodes call s target w =
        if has String_discrete target inv.groups then add_leaves s (call target w.shared) w else w

    abbrev pub add_regex : Group → String → Work → Work
    add_regex g pattern w = elim (compile_filter_regex lib (codes pattern)) [
      | none ↦ notify (regex_invalid g.name) w
      | some re ↦ include (chosen (λ n. is_match (match_regex re (codes n.node_name)))) w
    ]

    -- The cases of an added source by its kind; a pointer that is nil adds nothing.
    unfoldable pub add_source : Call → Group → MemberSourceKind → Source → Work → Work
    unfolding filter_reason
    add_source call g manual_node s w = elim s.node_logical_id [
      | none ↦ consider 1 w
      | some id ↦ add_manual_node g s id (consider 1 w)
    ]
    add_source call g group_ref s w = elim s.target_group_id [
      | none ↦ w
      | some target ↦ add_group_ref target w
    ]
    add_source call g group_nodes s w = elim s.target_group_id [
      | none ↦ w
      | some target ↦ add_group_nodes call s target w
    ]
    add_source call g regex s w =
        let w' = consider (length inv.sorted_nodes) w in
        elim s.pattern [ none ↦ w' | some p ↦ if is_given (some p) then add_regex g p w' else w' ]
    add_source call g filter s w =
        let w' = consider (length inv.sorted_nodes) w in
        elim s.filter_spec [
          | none ↦ w'
          | some spec ↦ include (chosen (λ n. passes (some spec) n n.logical_id)) w'
        ]
    add_source call g typed_builtin s w = elim s.builtin_name [
      | none ↦ w
      | some b ↦ include (builtin_item (inv.trim_upper b) ∷ []) w
    ]
    add_source call g (other_kind k) s w = w
