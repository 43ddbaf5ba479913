-- ===== src/Revisions/Lifecycle.antt =====
-- The life of the revisions of internal/application/revision/service.go: a revision is a draft, then
-- the active one, then archived.
pub mod Kept
use clash_sub_parser.Prelude.{
  ℕ, zero, suc, ◌+◌, ◌≤◌, String, ◌≡◌, ◌≢◌, refl, sym, ap, subst, ◌∙◌, Bool, true, false, not, ◌&&◌,
  List, [], ◌∷◌, ◌++◌, map, if◌then◌else◌, if_cases, Option, none, some, same, String_discrete,
  Bool-cases, Option-cases, inl, inr, ◌⊎◌, arith, length, ◌==◌,
}
use clash_sub_parser.Policy.Source.{Filters}
use clash_sub_parser.Prelude.Maps.{find, set}
use clash_sub_parser.Revisions.Rows.{
  RevisionState, draft, active, archived, other_state, Revision, RevisionError, key_is_taken,
  parent_is_missing, revision_not_found, Result, ok, err, row_of, newest_active, differs, retire,
  promote, is_active, StoredGroup, Database, create_row, set_active, activated, is_taken,
  stale_failure, unless_stale, parent_is_there,
}
use clash_sub_parser.Revisions.Service.{
  Called, graph_is_valid, is_refused_state, parent_is_missing as no_parent, activate_fresh,
  activate_found, add_revision, create, ensure_active, activate, finish_create, finish_active,
  drafted,
}

-- The states of the revisions that there are.
abbrev pub States : Type 0
States = String → Option RevisionState

abbrev pub retired : Option RevisionState → Option RevisionState
retired (some active) = some archived
retired o = o

-- The steps that a life has: a new draft, and a draft that becomes the active revision in place of all
-- that were active.
pub data Lives (f : States) : States → Type 0 where
  same_states : (g : States) → ((i : String) → g i ≡ f i) → Lives f g
  created :
      (g h : States) (i : String)
      → Lives f g
      → g i ≡ none
      → ((j : String) → h j ≡ (if same j i then some draft else g j))
      → Lives f h
  promoted :
      (g h : States) (i : String)
      → Lives f g
      → g i ≡ some draft
      → ((j : String) → h j ≡ (if same j i then some active else retired (g j)))
      → Lives f h

abbrev pub state_in : Option Revision → Option RevisionState
state_in none = none
state_in (some r) = some r.state

-- The states that the rows show.
abbrev pub states_of : List Revision → States
states_of rs i = state_in (row_of i rs)

pub row_of-id : (i : String) (rs : List Revision) (r : Revision) → row_of i rs ≡ some r → i ≡ r.id
unfolding row_of
row_of-id i [] r h = absurd cc
row_of-id i (x ∷ rs) r h = ground (arith, row_of-id i rs r)

pub states_of-append :
    (rs : List Revision) (r : Revision) (j : String)
    → row_of r.id rs ≡ none
    → r.state ≡ draft
    → states_of (rs ++ (r ∷ [])) j ≡ (if same j r.id then some draft else states_of rs j)
unfolding row_of
states_of-append [] r j n d = ground arith
states_of-append (x ∷ rs) r j n d = ground (arith, states_of-append rs r j)

abbrev pub raised : Option RevisionState → Option RevisionState
raised none = none
raised (some s) = some active

promote-id : (i : String) (x : Revision) → (promote i (retire x)).id ≡ x.id
promote-id i x = ground arith

promote-state :
    (i : String) (x : Revision)
    → some (promote i (retire x)).state
      ≡ (if same i x.id then some active else retired (some x.state))
promote-state i x = ground arith

pub states_of-promote :
    (rs : List Revision) (i j : String)
    → states_of (map (promote i) (map retire rs)) j
      ≡ (if same j i then raised (states_of rs j) else retired (states_of rs j))
unfolding row_of
states_of-promote [] i j = ground arith
states_of-promote (x ∷ rs) i j =
    let ih = states_of-promote rs i j in ground (arith, ih, promote-id i x, promote-state i x)

-- The same for a draft.
pub states_of-activated :
    (rs : List Revision) (i j : String)
    → states_of rs i ≡ some draft
    → states_of (map (promote i) (map retire rs)) j
      ≡ (if same j i then some active else retired (states_of rs j))
states_of-activated rs i j d = ground (arith, states_of-promote rs i j, ap raised d)
