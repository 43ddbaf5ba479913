-- ===== src/Compiler/Prune.antt =====
-- internal/compiler/prune.go: empty groups that are safe to leave out. A snapshot holds what the code
-- reads of resolver.ResolvedPolicySnapshot (internal/resolver/types.go). A `Notice` is a diagnostic:
-- its severity and code are constants and its text is made of these two fields.
pub mod Fixpoint
pub mod Targets
use clash_sub_parser.Prelude.{
  ℕ, zero, suc, ◌+◌, String, Bool, true, false, not, ◌||◌, ◌&&◌, List, [], ◌∷◌, ◌++◌, map,
  if◌then◌else◌, length, any, count_if, filter_if, ltb, Option, none, some, same,
}
use clash_sub_parser.Prelude.Strings.{codes, trim_space, same_codes, is_blank}
use clash_sub_parser.Prelude.Sort.{sort_texts}
use clash_sub_parser.Policy.Rules.{ResolvedRule}
use clash_sub_parser.Policy.Topology.{GroupType}

-- `no_kind` is the empty text.
pub data MemberKind : Type 0 where
  group node builtin no_kind : MemberKind

pub record Member : Type 0 where
  pub kind : MemberKind
  pub target_id : String
  pub display_name : String

pub record ResolvedGroup : Type 0 where
  pub empty_fallback_pass : Bool
  pub effective_empty_pass : Bool
  pub id : String
  pub name : String
  pub group_type : GroupType
  pub members : List Member
  pub all_node_logical_ids : List String

pub record Notice : Type 0 where
  pub target : String
  pub parents : List String

pub record Snapshot : Type 0 where
  pub groups : List ResolvedGroup
  pub rules : List ResolvedRule
  pub diagnostics : List Notice

abbrev pub is_empty {ℓ} : {A : Type ℓ} → List A → Bool
is_empty [] = true
is_empty (_ ∷ _) = false

-- `UsesEmptyPass`
abbrev pub uses_empty_pass : ResolvedGroup → Bool
uses_empty_pass g =
    g.empty_fallback_pass && (g.effective_empty_pass && is_empty g.all_node_logical_ids)

-- A text that is not blank names the key when its trimmed form is the key.
abbrev pub names : String → String → Bool
names text key = not (is_blank text) && same_codes (trim_space (codes text)) (codes key)

-- A rule goes to the group, by its ID or by its name.
abbrev pub is_targeted : List ResolvedRule → ResolvedGroup → Bool
is_targeted rules g =
    any (λ (r : ResolvedRule). names r.target_group_id g.id) rules
    || any (λ (r : ResolvedRule). names r.target_group_name g.name) rules

abbrev may_be_group : MemberKind → Bool
may_be_group group = true
may_be_group no_kind = true
may_be_group _ = false

abbrev one_if {ℓ} : {A : Type ℓ} → Bool → A → List A
one_if b x = if b then x ∷ [] else []

-- The entries of `parentRefs[key]` that one group makes.
unfoldable pub group_refs : String → ResolvedGroup → List Member → List ResolvedGroup
group_refs key g [] = []
group_refs key g (m ∷ ms) =
    (if may_be_group m.kind
      then one_if (names m.target_id key) g ++ one_if (names m.display_name key) g
      else [])
    ++ group_refs key g ms

-- `parentRefs[key]`
unfoldable pub parent_refs : String → List ResolvedGroup → List ResolvedGroup
unfolding group_refs
parent_refs key [] = []
parent_refs key (g ∷ gs) = group_refs key g g.members ++ parent_refs key gs

-- The parents by name join those by ID, where no parent with their ID is there.
unfoldable pub join_parents : List ResolvedGroup → List ResolvedGroup → List ResolvedGroup
join_parents all [] = all
join_parents all (p ∷ ps) =
    join_parents (if any (λ (q : ResolvedGroup). same q.id p.id) all then all else all ++ p ∷ []) ps

-- `allParents`
unfoldable pub all_parents : ResolvedGroup → List ResolvedGroup → List ResolvedGroup
unfolding parent_refs join_parents
all_parents g groups = join_parents (parent_refs g.id groups) (parent_refs g.name groups)

abbrev pub refers_to : ResolvedGroup → Member → Bool
refers_to g m = names m.target_id g.id || names m.display_name g.name

abbrev is_select : GroupType → Bool
is_select GroupType.select = true
is_select _ = false

-- The parent is a selector and has another member.
abbrev pub can_spare : ResolvedGroup → ResolvedGroup → Bool
can_spare g p = is_select p.group_type && ltb 0 (count_if (λ m. not (refers_to g m)) p.members)

-- The group passes all tests of the loop.
unfoldable pub can_prune : List ResolvedRule → List ResolvedGroup → ResolvedGroup → Bool
unfolding all_parents
can_prune rules groups g =
    not (uses_empty_pass g)
    && is_empty g.members
    && not (is_targeted rules g)
    && not (any (λ p. not (can_spare g p)) (all_parents g groups))

-- `m[key]` for a set of texts that are not empty.
abbrev pub in_set : String → List String → Bool
in_set key keys = not (same key "") && any (same key) keys

-- The distinct texts of a list.
unfoldable pub distinct : List String → List String
distinct [] = []
distinct (x ∷ xs) = let rest = distinct xs in if any (same x) xs then rest else x ∷ rest

abbrev pub notice : List ResolvedGroup → ResolvedGroup → Notice
notice groups g = record {
  target = g.name;
  parents = sort_texts (distinct (map (λ (p : ResolvedGroup). p.name) (all_parents g groups)));
}

-- A group whose ID or name is in the sets.
abbrev pub is_pruned : List ResolvedGroup → ResolvedGroup → Bool
is_pruned out g =
    in_set g.id (map (λ (h : ResolvedGroup). h.id) out)
    || in_set g.name (map (λ (h : ResolvedGroup). h.name) out)

-- A member whose trimmed ID or name is in the sets.
abbrev pub is_dropped : List ResolvedGroup → Member → Bool
is_dropped out m =
    any (λ (h : ResolvedGroup). names m.target_id h.id) out
    || any (λ (h : ResolvedGroup). names m.display_name h.name) out

-- The groups without the pruned ones and their references.
unfoldable pub keep_groups : List ResolvedGroup → List ResolvedGroup → List ResolvedGroup
keep_groups out groups =
    map
      (λ (g : ResolvedGroup). record g {
        members = filter_if (λ m. not (is_dropped out m)) g.members;
      })
      (filter_if (λ g. not (is_pruned out g)) groups)

-- One of the groups has an ID or a name.
abbrev pub has_key : ResolvedGroup → Bool
has_key g = not (same g.id "") || not (same g.name "")

-- The groups that a pass prunes.
unfoldable pub candidates : Snapshot → List ResolvedGroup
unfolding can_prune
candidates s = filter_if (can_prune s.rules s.groups) s.groups

-- The snapshot without them, and the diagnostics.
unfoldable pub without_candidates : Snapshot → Snapshot × List Notice
unfolding candidates keep_groups
without_candidates s =
    let notices = map (notice s.groups) (candidates s) in
    (
      record s {
        groups = keep_groups (candidates s) s.groups;
        diagnostics = s.diagnostics ++ notices;
      },
      notices,
    )

-- `pruneOnePass`: `none` where nothing changed.
unfoldable pub prune_one_pass : Snapshot → Option (Snapshot × List Notice)
unfolding without_candidates
prune_one_pass s = if any has_key (candidates s) then some (without_candidates s) else none

-- The loop, for `fuel` rounds.
unfoldable pub prune_rounds : ℕ → Snapshot → List Notice → Snapshot × List Notice
unfolding prune_one_pass
prune_rounds zero s seen = (s, seen)
prune_rounds (suc fuel) s seen = elim (prune_one_pass s) [
  | none ↦ (s, seen)
  | some (s', notices) ↦ prune_rounds fuel s' (seen ++ notices)
]

-- `PruneUnavailableOptionalGroups`
unfoldable pub prune_unavailable_optional_groups : Snapshot → Snapshot × List Notice
unfolding prune_rounds
prune_unavailable_optional_groups s =
    let r = prune_rounds (length s.groups + 1) s [] in elim r.1 [ [] ↦ (s, []) | _ ∷ _ ↦ r ]
