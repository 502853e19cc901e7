-- ===== src/Manager/Bootstrap.antt =====
-- How a node joins or starts a cluster: startOrJoinEtcdCluster and startEtcdCluster of
-- pkg/manager/manager.go.
--
-- What the peers and etcd answer is a parameter of each step.
pub mod Started
mod Tests
use e2d.Manager.Join.{NodeConfig}
use e2d.Snapshot.Streams.{Cipher, Gzip}
use e2d.Manager.Peers.{Peer}
use e2d.Manager.Gossip.{
  NodeStatus, running, pending, status_eq, Member, Gob, Gossip, update, members, pending_members,
}
use e2d.Manager.Server.{Server, Start, Kv, start_etcd, after_start}
use e2d.Manager.Snapshotter.{Backup, Restore, restore_from_snapshot}
use e2d.Prelude.{
  ℕ, Bool, not, Option, none, some, List, [], ◌∷◌, map, ltb, if◌then◌else◌, length, Text, str_eq,
  Error,
}

-- What a round of `startOrJoinEtcdCluster` meets: what the member list holds before and after the
-- status is told, and the answer of joinEtcdCluster for the URL of a peer.
pub record View : Type 0 where
  pub metas : List (Option Text)
  pub metas_after : List (Option Text)
  pub join_error : Text → Option Error

pub data Outcome : Type 0 where
  joined : Text → Outcome
  new_cluster : List Peer → Outcome
  timed_out : Outcome

joined_or : Text → Option Text → Option Error → Option Text
joined_or url rest none = some url
joined_or url rest (some e) = rest

-- The loop over the peers: the URL of the first one that could be joined
unfoldable pub try_peers : Text → (Text → Option Error) → List Member → Option Text
unfolding joined_or
try_peers name join_error [] = none
try_peers name join_error (m ∷ ms) =
    let rest = try_peers name join_error ms in
    if str_eq m.name name
    then rest
    else if not (status_eq m.status running)
    then rest
    else joined_or m.client_url rest (join_error m.client_url)

abbrev pub peer_of : Member → Peer
peer_of m = record { name = m.name; url = m.peer_url }

module _ (gob : Gob) (cfg : NodeConfig) where
  -- A round without a peer to join: a new cluster is started once enough members are pending.
  unfoldable pub start_if_pending : View → Gossip → Gossip × Option Outcome
  start_if_pending v g =
      let told = (update gob pending g).0 in
      if ltb (length (members gob v.metas g)) cfg.required_cluster_size
      then (g, none)
      else if ltb (length (pending_members gob v.metas_after told)) cfg.required_cluster_size
      then (told, none)
      else (told, some (new_cluster (map peer_of (members gob v.metas_after told))))

  pub after_peers : View → Gossip → Option Text → Gossip × Option Outcome
  unfolding start_if_pending
  after_peers v g (some url) = (g, some (joined url))
  after_peers v g none = start_if_pending v g

  unfoldable pub start_or_join_round : View → Gossip → Gossip × Option Outcome
  unfolding after_peers
  start_or_join_round v g =
      after_peers v g (try_peers cfg.name v.join_error (members gob v.metas g))

  pub continued : Gossip × Option Outcome → (Gossip → Gossip × Outcome) → Gossip × Outcome
  continued (g, some o) k = (g, o)
  continued (g, none) k = k g

  -- `startOrJoinEtcdCluster`, over the rounds before the timeout
  unfoldable pub start_or_join_etcd_cluster : List View → Gossip → Gossip × Outcome
  unfolding continued
  start_or_join_etcd_cluster [] g = (g, timed_out)
  start_or_join_etcd_cluster (v ∷ vs) g =
      continued (start_or_join_round v g) (λ h. start_or_join_etcd_cluster vs h)

-- `startEtcdCluster`, with the store that etcd has after its start with and without a restore
unfoldable pub start_etcd_cluster :
    (kv : Kv)
    → Gzip
    → Cipher
    → Option Text
    → Backup
    → ℕ
    → List Peer
    → Start
    → Text
    → (Bool → kv.Store)
    → Server
    → Server × kv.Store × Option Error
start_etcd_cluster kv g c key b required peers how time store s =
    let r = restore_from_snapshot g c key b required peers in
    let started = start_etcd required peers how s in
    elim started.1 [
      | some e ↦ (started.0, store r.restored, some e)
      | none ↦
          (let after = after_start kv started.0 time r.restored (store r.restored) in
            (started.0, after.0, after.1))
    ]
