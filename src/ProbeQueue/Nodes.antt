-- ===== src/ProbeQueue/Nodes.antt =====
-- `activeNodes` of internal/probe/queue/scheduler.go: keys, records and the eviction of old ones.
use Prim.Native.Char.{code}
use Prim.Native.String.{◌++◌ as append}
use clash_sub_parser.Prelude.{
  ℕ, zero, suc, ◌+◌, ◌-◌, String, Bool, true, false, not, ◌||◌, ◌&&◌, [], ◌∷◌, ltb, leb, ◌==◌,
  if◌then◌else◌, length, String_discrete, filter_if, Option, none, some,
}
use clash_sub_parser.Prelude.Maps.{Map, get, set, remove, find}
use clash_sub_parser.ProbeQueue.State.{Scheduler, ActiveRecord, same}

-- `makeNodeKey`
unfoldable pub make_node_key : String → String → String
make_node_key logical_id kind = append logical_id (append "#" kind)

-- The part of a key before its last `#`, where it has one.
unfoldable pub before_hash : String → Option String
before_hash String.[] = none
before_hash (String.◌∷◌ c s) = elim (before_hash s) [
  | some r ↦ some (String.◌∷◌ c r)
  | none ↦ if code c == b'#' then some String.[] else none
]

-- `nodeIDFromKey`
unfoldable pub node_id_from_key : String → String
unfolding before_hash
node_id_from_key key = elim (before_hash key) [ some r ↦ r | none ↦ key ]

abbrev pub zero_record : ActiveRecord
zero_record = record { active = false; count = 0; until = 0; last_run_id = "" }

-- One more task of a node and kind is in the pool.
unfoldable pub retain : String → String → Map String ActiveRecord → Map String ActiveRecord
retain key run nodes =
    let rec = get String_discrete zero_record key nodes in
    set String_discrete key
      (record { active = true; count = rec.count + 1; until = 0; last_run_id = run }) nodes

-- One task less; the last one starts the time to live.
abbrev pub settle : ℕ → ℕ → ActiveRecord → ActiveRecord
settle now ttl rec =
    if leb rec.count 1
    then record rec { active = false; count = 0; until = now + ttl }
    else record rec { active = true; count = rec.count - 1 }

-- The record of a key, settled: a missing key gets one.
unfoldable pub settle_key : ℕ → ℕ → String → Map String ActiveRecord → Map String ActiveRecord
settle_key now ttl key nodes =
    set String_discrete key (settle now ttl (get String_discrete zero_record key nodes)) nodes

-- The record of a key, settled where there is one.
unfoldable pub settle_present : ℕ → ℕ → String → Map String ActiveRecord → Map String ActiveRecord
settle_present now ttl key nodes = elim (find String_discrete key nodes) [
  | none ↦ nodes
  | some rec ↦ set String_discrete key (settle now ttl rec) nodes
]

-- A task leaves its queue for a manual one: its record goes, or has one task less.
unfoldable pub withdraw : String → Map String ActiveRecord → Map String ActiveRecord
withdraw key nodes = elim (find String_discrete key nodes) [
  | none ↦ nodes
  | some rec ↦
      if leb rec.count 1
      then remove String_discrete key nodes
      else set String_discrete key (record rec { active = true; count = rec.count - 1 }) nodes
]

abbrev pub is_live : ℕ → String × ActiveRecord → Bool
is_live now (key, rec) = rec.active || ltb now rec.until

-- The inner loop of the eviction: the first inactive record with the least `until`.
unfoldable pub oldest_inactive : Map String ActiveRecord → String → ℕ → String
oldest_inactive [] key until = key
oldest_inactive ((k, rec) ∷ nodes) key until =
    let better = not rec.active && (same key "" || ltb rec.until until) in
    oldest_inactive nodes (if better then k else key) (if better then rec.until else until)

-- Each round removes one record, so the number of records is enough fuel.
unfoldable pub evict : ℕ → ℕ → Map String ActiveRecord → Map String ActiveRecord
unfolding oldest_inactive
evict zero limit nodes = nodes
evict (suc fuel) limit nodes =
    let key = oldest_inactive nodes "" 0 in
    let rest = evict fuel limit (remove String_discrete key nodes) in
    if ltb limit (length nodes) then (if same key "" then nodes else rest) else nodes

-- `pruneActiveNodesLocked`
unfoldable pub prune_active_nodes : ℕ → Scheduler → Scheduler
unfolding evict
prune_active_nodes now s =
    let live = filter_if (is_live now) s.active_nodes in
    record s { active_nodes = evict (length live) (s.queue_size + s.concurrency) live }
