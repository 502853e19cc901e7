-- ===== src/Manager/Server.antt =====
-- pkg/manager/server.go: the flags of the server, the snapshots of its store, and what is cleared
-- and marked after a restore.
--
-- The store of etcd is a parameter, by what it lists, deletes and puts.
pub mod Volatile
pub mod Settings
mod Tests
use e2d.Snapshot.Streams.{Stream}
use e2d.Prelude.Decimal.{ℤ}
use e2d.Manager.Peers.{Peer, validate_peers}
use e2d.Prelude.{
  ℕ, ◌+◌, ◌-◌, ◌/◌, ◌≡◌, ◌⊎◌, inl, inr, Bool, true, false, Option, none, some, List, [], ◌∷◌, leb,
  ◌==◌, if◌then◌else◌, In, Text, codes, str_eq, has_prefix, str_lt, Error, no_rows, server_stopped,
  deadline, other, Result, ok, err, panic,
}

-- `server`: whether there is an etcd, and the two flags.
pub record Server : Type 0 where
  pub etcd : Bool
  pub started : Bool
  pub restarting : Bool

unfoldable pub new_server : Server
new_server = record { etcd = false; started = false; restarting = false }

unfoldable pub is_restarting : Server → Bool
is_restarting s = s.restarting

unfoldable pub is_running : Server → Bool
is_running s = s.started

-- `isLeader`, by the leader and the id that etcd knows
unfoldable pub is_leader : ℕ → ℕ → Server → Bool
is_leader leader id s = if is_running s then leader == id else false

-- `hardStop` and `gracefulStop`
unfoldable pub stop : Server → Server
stop s = record s { started = false }

inserted_by : Option Error → ℕ → Option ℕ → Option Error
inserted_by insert_error required none = insert_error
inserted_by insert_error required (some size) =
    if size == required
    then none
    else some (other (codes "attempted to join cluster with incorrect RequiredClusterSize"))

after_find : Option Error → ℕ → Error ⊎ Option ℕ → Option Error
unfolding inserted_by
after_find insert_error required (inl no_rows) = inserted_by insert_error required none
after_find insert_error required (inl e) = some e
after_find insert_error required (inr found) = inserted_by insert_error required found

-- `writeClusterInfo`, by the error of the database, what the query for the row 1 finds, the error of
-- its insertion, and the required size: the size in the row must be that of this server.
unfoldable pub write_cluster_info :
    Option Error → Error ⊎ Option ℕ → Option Error → ℕ → Option Error
unfolding after_find
write_cluster_info (some e) found insert_error required = some e
write_cluster_info none found insert_error required = after_find insert_error required found

-- What etcd does when it is started: it cannot be, is ready and takes the cluster information or
-- not, fails, or is not ready in time.
pub data Start : Type 0 where
  cannot_start fails_later : Error → Start
  ready : Option Error → Start
  not_in_time : Start

-- `startEtcd` after its check of the peers
unfoldable pub start_ready : Start → Server → Server × Option Error
start_ready (cannot_start e) s = (record s { etcd = false }, some e)
start_ready (fails_later e) s = (record s { etcd = true }, some e)
start_ready (ready (some e)) s = (record s { etcd = true }, some e)
start_ready (ready none) s = (record s { etcd = true; started = true }, none)
start_ready not_in_time s = (record s { etcd = true }, some deadline)

-- `startEtcd` by the answer of its check
unfoldable pub start_checked : Option Error → Start → Server → Server × Option Error
start_checked (some e) how s = (s, some e)
start_checked none how s = start_ready how s

-- `startEtcd`: the peers must have names and URLs and be enough.
unfoldable pub start_etcd : ℕ → List Peer → Start → Server → Server × Option Error
start_etcd required peers how s = start_checked (validate_peers peers required) how s

-- `restart`: the flag is set while etcd is stopped and started.
unfoldable pub restart : ℕ → List Peer → Start → Server → Server × Option Error
restart required peers how s =
    let r = start_etcd required peers how (stop (record s { restarting = true })) in
    (record r.0 { restarting = false }, r.1)

-- `createSnapshot`, by the revision of the store and the snapshot of its backend with its size
unfoldable pub create_snapshot : ℕ → ℕ → Option (Stream × ℤ) → Result (Stream × ℤ × ℕ)
create_snapshot min_revision revision none = err (
    other
      (if leb revision min_revision then codes "member revision too old" else codes "no snappy"))
create_snapshot min_revision revision (some (r, size)) =
    if leb revision min_revision
    then err (other (codes "member revision too old"))
    else ok (r, size, revision)

abbrev pub volatile_prefix : Text
volatile_prefix = codes "/_e2d"

abbrev pub snapshot_marker_key : Text
snapshot_marker_key = codes "/_e2d/snapshot"

-- The store of etcd, as mvcc gives it.
pub record Kv : Type 1 where
  pub Store : Type 0
  pub get : Store → Text → Option Text
  -- the keys from a key on, with the revision
  pub range_from : Store → Text → Result (List Text × ℕ)
  -- the deletion of one key, and how many keys it deleted
  pub delete_key : Store → Text → Store × ℕ
  pub put_key : Store → Text → Text → Store × ℕ

-- What is relied on of the store.
pub record IsKv (kv : Kv) : Type 0 where
  pub listed :
      (s : kv.Store) (from key v : Text) (keys : List Text × ℕ)
      → kv.range_from s from ≡ ok keys
      → kv.get s key ≡ some v
      → str_lt key from ≡ false
      → In key keys.0
  pub get-delete :
      (s : kv.Store) (key x : Text)
      → kv.get (kv.delete_key s key).0 x ≡ (if str_eq key x then none else kv.get s x)
  pub get-put :
      (s : kv.Store) (key v x : Text)
      → kv.get (kv.put_key s key v).0 x ≡ (if str_eq key x then some v else kv.get s x)

module _ (kv : Kv) where
  -- The loop of `clearVolatilePrefix`, with the number of keys that were deleted.
  unfoldable pub clear_keys : List Text → kv.Store → ℕ → kv.Store × ℕ
  clear_keys [] s deleted = (s, deleted)
  clear_keys (key ∷ keys) s deleted =
      let d = kv.delete_key s key in
      let cleared = clear_keys keys d.0 (deleted + d.1) in
      let kept = clear_keys keys s deleted in
      if has_prefix volatile_prefix key then cleared else kept

  clear_listed : Result (List Text × ℕ) → kv.Store → kv.Store × Result (ℕ × ℕ)
  clear_listed (ok (keys, rev)) s = let c = clear_keys keys s 0 in (c.0, ok (rev, c.1))
  clear_listed (err e) s = (s, err e)
  clear_listed panic s = (s, panic)

  -- `clearVolatilePrefix`: the revision of the listing, and how many keys were deleted
  unfoldable pub clear_volatile_prefix : Server → kv.Store → kv.Store × Result (ℕ × ℕ)
  unfolding clear_listed
  clear_volatile_prefix sv s =
      if is_running sv
      then clear_listed (kv.range_from s volatile_prefix) s
      else (s, err server_stopped)

  -- `placeSnapshotMarker`
  unfoldable pub place_snapshot_marker : Server → Text → kv.Store → kv.Store × Result ℕ
  place_snapshot_marker sv v s =
      if is_running sv
      then (let p = kv.put_key s snapshot_marker_key v in (p.0, ok p.1))
      else (s, err server_stopped)

  abbrev tolerate_stop : Error → Option Error
  tolerate_stop server_stopped = none
  tolerate_stop e = some e

  marked : kv.Store × Result ℕ → kv.Store × Option Error
  marked (s, ok rev) = (s, none)
  marked (s, err e) = (s, tolerate_stop e)
  marked (s, panic) = (s, none)

  cleared_then : Server → Text → kv.Store × Result (ℕ × ℕ) → kv.Store × Option Error
  unfolding marked
  cleared_then sv v (s, ok r) = marked (place_snapshot_marker sv v s)
  cleared_then sv v (s, err e) = (s, tolerate_stop e)
  cleared_then sv v (s, panic) = (s, none)

  -- The end of `startEtcdCluster`, after etcd was started: the store after a restore is cleared and
  -- marked with the time.
  unfoldable pub after_start : Server → Text → Bool → kv.Store → kv.Store × Option Error
  unfolding cleared_then
  after_start sv v restored s =
      if restored then cleared_then sv v (clear_volatile_prefix sv s) else (s, none)
