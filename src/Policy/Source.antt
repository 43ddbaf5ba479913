-- ===== src/Policy/Source.antt =====
-- The member sources and edges of internal/domain/policy.go, and their validation.
use clash_sub_parser.Prelude.{
  ℕ, String, Bool, true, false, not, ◌||◌, ◌&&◌, List, if◌then◌else◌, Option, none, some, same,
}
use clash_sub_parser.Prelude.Strings.{is_blank, codes, to_upper, trim_space, same_codes}
use clash_sub_parser.Policy.Identifiers.{is_valid_uuid_v7, is_valid_logical_id}
use clash_sub_parser.Prelude.Int.{ℤ, is_negative}

-- `CompileFilterRegex` and the condition checks of `NodeFilterSpec.Validate`
-- (internal/domain/node_filter.go), with the filters that they read.
pub record Filters : Type 1 where
  pub Spec : Type 0
  pub spec_is_valid : Spec → Bool
  pub regex_compiles : String → Bool

pub data SourceOperation : Type 0 where
  add remove : SourceOperation
  other_operation : String → SourceOperation

pub data MemberSourceKind : Type 0 where
  manual_node group_ref group_nodes regex filter typed_builtin : MemberSourceKind
  other_kind : String → MemberSourceKind

pub data PolicyError : Type 0 where
  invalid_source_operation invalid_source_kind invalid_position invalid_source_entry : PolicyError
  invalid_node_logical_id invalid_target_group_id invalid_regex invalid_filter_spec : PolicyError
  invalid_parent_group_id empty_edge_target ambiguous_edge_target : PolicyError
  invalid_child_group_id self_loop_forbidden : PolicyError
  invalid_group_id invalid_group_name invalid_group_type parent_group_not_found : PolicyError
  target_group_not_found invalid_expression invalid_match_rule_ordering : PolicyError
  cycle_detected : List String → PolicyError
  search_out_of_fuel : PolicyError

-- `error`: `none` is `nil`.
abbrev pub Failure : Type 0
Failure = Option PolicyError

-- The next check, where this one passes.
infixr 5 ◌or_else◌
abbrev pub ◌or_else◌ : Failure → Failure → Failure
none or_else g = g
some e or_else g = some e

abbrev pub refuse_if : Bool → PolicyError → Failure
refuse_if b e = if b then some e else none

-- A pointer to a text that is not blank.
abbrev pub is_given : Option String → Bool
is_given none = false
is_given (some s) = not (is_blank s)

abbrev pub is_some {ℓ} : {A : Type ℓ} → Option A → Bool
is_some none = false
is_some (some x) = true

-- A test on the text of a pointer that is not nil.
abbrev pub holds : (String → Bool) → Option String → Bool
holds p none = false
holds p (some s) = p s

is_builtin : List ℕ → Bool
is_builtin name =
    same_codes name (codes "PASS")
    || (same_codes name (codes "DIRECT")
        || (same_codes name (codes "REJECT") || same_codes name (codes "REJECT-DROP")))

module _ (F : Filters) where
  open F use {Spec, spec_is_valid, regex_compiles}

  pub record MemberSource : Type 0 where
    pub id : String
    pub operation : SourceOperation
    pub kind : MemberSourceKind
    pub position : ℤ
    pub node_logical_id : Option String
    pub target_group_id : Option String
    pub pattern : Option String
    pub filter_spec : Option Spec
    pub builtin_name : Option String

  -- `s.Pattern != nil && strings.TrimSpace(*s.Pattern) != ""`
  abbrev has_pattern : MemberSource → Bool
  has_pattern s = is_given s.pattern

  abbrev spec_fails : Option Spec → Bool
  spec_fails none = false
  spec_fails (some f) = not (spec_is_valid f)

  manual_node_failure : MemberSource → Failure
  manual_node_failure s =
      refuse_if (not (is_given s.node_logical_id)) invalid_source_entry
      or_else refuse_if (not (holds is_valid_logical_id s.node_logical_id)) invalid_node_logical_id
      or_else refuse_if (is_some s.target_group_id || is_some s.builtin_name) invalid_source_entry

  group_ref_failure : MemberSource → Failure
  group_ref_failure s =
      refuse_if (not (is_given s.target_group_id)) invalid_source_entry
      or_else refuse_if (not (holds is_valid_uuid_v7 s.target_group_id)) invalid_target_group_id
      or_else refuse_if (is_some s.node_logical_id || (is_some s.builtin_name || has_pattern s))
          invalid_source_entry

  group_nodes_failure : MemberSource → Failure
  group_nodes_failure s =
      refuse_if (not (is_given s.target_group_id)) invalid_source_entry
      or_else refuse_if (not (holds is_valid_uuid_v7 s.target_group_id)) invalid_target_group_id
      or_else refuse_if (is_some s.node_logical_id || is_some s.builtin_name) invalid_source_entry
      or_else refuse_if (has_pattern s && not (holds regex_compiles s.pattern)) invalid_regex
      or_else refuse_if (spec_fails s.filter_spec) invalid_filter_spec

  regex_failure : MemberSource → Failure
  regex_failure s =
      refuse_if (not (has_pattern s)) invalid_source_entry
      or_else refuse_if (not (holds regex_compiles s.pattern)) invalid_regex
      or_else refuse_if
          (is_some s.node_logical_id || (is_some s.target_group_id || is_some s.builtin_name))
          invalid_source_entry

  filter_failure : MemberSource → Failure
  filter_failure s =
      refuse_if (not (is_some s.filter_spec)) invalid_source_entry
      or_else refuse_if (spec_fails s.filter_spec) invalid_filter_spec
      or_else refuse_if
          (is_some s.node_logical_id || (is_some s.target_group_id || is_some s.builtin_name))
          invalid_source_entry

  typed_builtin_failure : MemberSource → Failure
  unfolding is_builtin
  typed_builtin_failure s =
      refuse_if (not (is_given s.builtin_name)) invalid_source_entry
      or_else refuse_if
          (not (holds (λ n. is_builtin (to_upper (trim_space (codes n)))) s.builtin_name))
          invalid_source_entry
      or_else refuse_if
          (is_some s.node_logical_id
            || (is_some s.target_group_id || (is_some s.pattern || is_some s.filter_spec)))
          invalid_source_entry

  -- The `switch` of `ValidateMemberSource`.
  kind_failure : MemberSourceKind → MemberSource → Failure
  unfolding manual_node_failure group_ref_failure group_nodes_failure regex_failure filter_failure
      typed_builtin_failure
  kind_failure manual_node s = manual_node_failure s
  kind_failure group_ref s = group_ref_failure s
  kind_failure group_nodes s = group_nodes_failure s
  kind_failure regex s = regex_failure s
  kind_failure filter s = filter_failure s
  kind_failure typed_builtin s = typed_builtin_failure s
  kind_failure (other_kind k) s = none

  abbrev operation_is_valid : SourceOperation → Bool
  operation_is_valid (other_operation o) = false
  operation_is_valid _ = true

  abbrev kind_is_valid : MemberSourceKind → Bool
  kind_is_valid (other_kind k) = false
  kind_is_valid _ = true

  -- `ValidateMemberSource`
  unfoldable pub validate_member_source : MemberSource → Failure
  unfolding kind_failure
  validate_member_source s =
      refuse_if (not (operation_is_valid s.operation)) invalid_source_operation
      or_else refuse_if (not (kind_is_valid s.kind)) invalid_source_kind
      or_else refuse_if (is_negative s.position) invalid_position
      or_else kind_failure s.kind s

pub record GroupEdge : Type 0 where
  pub id : String
  pub parent_group_id : String
  pub child_group_id : Option String
  pub node_logical_id : Option String
  pub position : ℤ

-- A pointer to a text that is not empty.
abbrev pub is_set : Option String → Bool
is_set none = false
is_set (some s) = not (same s "")

-- `ValidateGroupEdge`
unfoldable pub validate_group_edge : GroupEdge → Failure
validate_group_edge e =
    let has_child = is_set e.child_group_id in
    let has_node = is_set e.node_logical_id in
    refuse_if (not (is_valid_uuid_v7 e.parent_group_id)) invalid_parent_group_id
    or_else refuse_if (not has_child && not has_node) empty_edge_target
    or_else refuse_if (has_child && has_node) ambiguous_edge_target
    or_else refuse_if (has_child && not (holds is_valid_uuid_v7 e.child_group_id))
        invalid_child_group_id
    or_else refuse_if (has_child && holds (same e.parent_group_id) e.child_group_id)
        self_loop_forbidden
    or_else refuse_if (has_node && not (holds is_valid_logical_id e.node_logical_id))
        invalid_node_logical_id
    or_else refuse_if (is_negative e.position) invalid_position
