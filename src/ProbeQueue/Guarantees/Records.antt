-- ===== src/ProbeQueue/Guarantees/Records.antt =====
-- The keys and the records of `activeNodes` of internal/probe/queue/scheduler.go.
use Prim.Native.Char.{Char, code}
use Prim.Native.String.append
use clash_sub_parser.Prelude.{
  ◌∙◌, not, ◌&&◌, if_cases, ℕ, zero, suc, ◌≡◌, ◌≢◌, refl, ap, String, true, false, ◌||◌, [], ◌∷◌,
  arith, length, none, some, if◌then◌else◌, String_discrete, filter_if, ltb,
}
use clash_sub_parser.Prelude.Maps.{
  Map, find, has, remove, find-remove_of_ne, IsUnique, remove-IsUnique,
}
use clash_sub_parser.ProbeQueue.State.{Scheduler, ActiveRecord, same}
use clash_sub_parser.ProbeQueue.Nodes.{
  make_node_key, node_id_from_key, before_hash, oldest_inactive, evict, prune_active_nodes, is_live,
}

-- No character of the text is `#`.
abbrev pub HasNoHash : String → Type 0
HasNoHash String.[] = Unit
HasNoHash (String.◌∷◌ c s) = (code c ≢ b'#') × HasNoHash s

before_hash-none : (s : String) → HasNoHash s → before_hash s ≡ none
unfolding before_hash
before_hash-none String.[] h = refl
before_hash-none (String.◌∷◌ c s) h = rw (before_hash-none s h.1) (ground arith)

key_nil : (kind : String) → make_node_key "" kind ≡ String.◌∷◌ "#" kind
unfolding make_node_key
key_nil kind = append.nil _ ∙ append.cons "#" "" kind ∙ ap (String.◌∷◌ "#") (append.nil kind)

key_cons :
    (c : Char) (id kind : String)
    → make_node_key (String.◌∷◌ c id) kind ≡ String.◌∷◌ c (make_node_key id kind)
unfolding make_node_key
key_cons c id kind = append.cons c id _

before_hash-make_node_key :
    (id kind : String) → HasNoHash kind → before_hash (make_node_key id kind) ≡ some id
unfolding before_hash
before_hash-make_node_key String.[] kind h =
    ap before_hash (key_nil kind) ∙ (rw (before_hash-none kind h, before_hash) refl)
before_hash-make_node_key (String.◌∷◌ c id) kind h =
    ap before_hash (key_cons c id kind)
    ∙ (rw (before_hash-make_node_key id kind h, before_hash) refl)

-- The node is read back from its key, whatever the node's text, for a kind without `#`.
pub node_id_from_key-make_node_key :
    (id kind : String) → HasNoHash kind → node_id_from_key (make_node_key id kind) ≡ id
unfolding node_id_from_key
node_id_from_key-make_node_key id kind h =
    rw (before_hash-make_node_key id kind h, node_id_from_key) refl

abbrev Nodes : Type 0
Nodes = Map String ActiveRecord

abbrev Keeps : String → ActiveRecord → Nodes → Type 0
Keeps key rec nodes = find String_discrete key nodes ≡ some rec

-- Every record of the key is active.
abbrev AllActive : String → Nodes → Type 0
AllActive key [] = Unit
AllActive key ((k, rec) ∷ nodes) = (k ≡ key → rec.active ≡ true) × AllActive key nodes

AllActive-of_missing :
    (key : String) (nodes : Nodes) → has String_discrete key nodes ≡ false → AllActive key nodes
unfolding has
AllActive-of_missing key [] h = tt
AllActive-of_missing key ((k, rec) ∷ nodes) h =
    (λ e. ground (arith, e), AllActive-of_missing key nodes (ground arith))

AllActive-of_find :
    (key : String) (rec : ActiveRecord) (nodes : Nodes)
    → IsUnique String_discrete nodes
    → find String_discrete key nodes ≡ some rec
    → rec.active ≡ true
    → AllActive key nodes
unfolding find
AllActive-of_find key rec [] u h a = tt
AllActive-of_find key rec ((k, r) ∷ nodes) u h a = (
  λ e. ground (arith, e),
  elim (String_discrete k key) [
    | yes e ↦ AllActive-of_missing key nodes (rw (← e) (u.0))
    | no e ↦ AllActive-of_find key rec nodes u.1 (ground arith) a
  ],
)

-- The eviction never chooses the key of an active node.
oldest_inactive_avoids :
    (nodes : Nodes) (key chosen : String) (until : ℕ)
    → AllActive key nodes
    → chosen ≢ key
    → oldest_inactive nodes chosen until ≢ key
unfolding oldest_inactive
oldest_inactive_avoids [] key chosen until all ne = ne
oldest_inactive_avoids ((k, rec) ∷ nodes) key chosen until all ne =
    let better = not rec.active && (same chosen "" || ltb rec.until until) in
    oldest_inactive_avoids nodes key (if better then k else chosen)
      (if better then rec.until else until) all.1
      (if_cases (λ c. c ≢ key) better k chosen (λ h e. ground (arith, all.0 e)) (λ h. ne))

-- An eviction keeps the records of active nodes.
evict_active :
    (fuel limit : ℕ) (nodes : Nodes) (key : String) (rec : ActiveRecord)
    → IsUnique String_discrete nodes
    → find String_discrete key nodes ≡ some rec
    → rec.active ≡ true
    → find String_discrete key (evict fuel limit nodes) ≡ some rec
unfolding evict
evict_active zero limit nodes key rec u h a = h
evict_active (suc fuel) limit nodes key rec u h a =
    let chosen = oldest_inactive nodes "" 0 in
    if_cases (Keeps key rec) (ltb limit (length nodes)) _ _
      (λ l.
        if_cases (Keeps key rec) (same chosen "") _ _ (λ e. h)
          (λ e.
            evict_active fuel limit (remove String_discrete chosen nodes) key rec
              (remove-IsUnique String_discrete chosen nodes u)
              (find-remove_of_ne String_discrete chosen key nodes (other e) ∙ h) a))
      (λ l. h)
  where
    other : same (oldest_inactive nodes "" 0) "" ≡ false → oldest_inactive nodes "" 0 ≢ key
    other e = elim (String_discrete "" key) [
      | yes f ↦ λ g. ground arith
      | no f ↦ oldest_inactive_avoids nodes key "" 0 (AllActive-of_find key rec nodes u h a) f
    ]

live-IsUnique :
    (now : ℕ) (nodes : Nodes)
    → IsUnique String_discrete nodes
    → (IsUnique String_discrete (filter_if (is_live now) nodes))
      × ((key : String)
          → has String_discrete key nodes ≡ false
          → has String_discrete key (filter_if (is_live now) nodes) ≡ false)
unfolding has
live-IsUnique now [] u = (tt, λ key h. h)
live-IsUnique now ((k, rec) ∷ nodes) u =
    let (a, b) = live-IsUnique now nodes u.1 in
    (ground (arith, b k), λ key h. ground (arith, b key))

find-live :
    (now : ℕ) (nodes : Nodes) (key : String) (rec : ActiveRecord)
    → find String_discrete key nodes ≡ some rec
    → is_live now (key, rec) ≡ true
    → find String_discrete key (filter_if (is_live now) nodes) ≡ some rec
unfolding find
find-live now [] key rec h a = cc
find-live now ((k, r) ∷ nodes) key rec h a = ground (arith, find-live now nodes key rec)

-- Where the records have one entry for each key, the pruning keeps the record of a node and kind
-- that is marked as active.
pub prune_active_nodes-find :
    (now : ℕ) (s : Scheduler) (key : String) (rec : ActiveRecord)
    → IsUnique String_discrete s.active_nodes
    → find String_discrete key s.active_nodes ≡ some rec
    → rec.active ≡ true
    → find String_discrete key (prune_active_nodes now s).active_nodes ≡ some rec
unfolding prune_active_nodes
prune_active_nodes-find now s key rec u h a =
    evict_active _ _ _ key rec (live-IsUnique now s.active_nodes u).0
      (find-live now s.active_nodes key rec h (ground arith)) a
