-- ===== src/Manager/Bootstrap/Tests.antt =====
-- Two nodes that start a cluster (pkg/manager/manager.go).
use e2d.Manager.Peers.{Peer}
use e2d.Manager.Gossip.{pending, Gossip, update, members, member_of, overlay, pending_members}
use e2d.Manager.Gossip.Samples.{small_gob, gossip_of}
use e2d.Manager.Join.{NodeConfig}
use e2d.Manager.Bootstrap.{
  View, new_cluster, try_peers, start_if_pending, start_or_join_round, start_or_join_etcd_cluster,
}
use e2d.Manager.Bootstrap.Started.{IsStart, start_or_join_etcd_cluster-new_cluster}
use e2d.Prelude.{◌≡◌, refl, some, List, [], ◌∷◌, In, codes, str_eq, deadline, lookup, insert}

abbrev config : NodeConfig
config = record { name = codes "a"; peer_url = codes "/a"; required_cluster_size = 2 }

abbrev alone : View
alone = record {
  metas = some (codes "a") ∷ [];
  metas_after = some (codes "a") ∷ [];
  join_error = λ url. some deadline;
}

abbrev both : View
both = record {
  metas = some (codes "a") ∷ some (codes "b") ∷ [];
  metas_after = some (codes "a") ∷ some (codes "b") ∷ [];
  join_error = λ url. some deadline;
}

abbrev told : Gossip
told = record (gossip_of (codes "a")) { nodes = (codes "b", pending) ∷ [] }

abbrev peers : List Peer
peers =
    record { name = codes "a"; url = codes "/a" }
    ∷ record { name = codes "b"; url = codes "/b" }
    ∷ []

started :
    (start_or_join_etcd_cluster small_gob config (alone ∷ both ∷ []) told).1 ≡ new_cluster peers
unfolding start_or_join_etcd_cluster start_or_join_round start_if_pending try_peers update members
    member_of overlay pending_members str_eq lookup insert
started = refl

start_or_join_etcd_cluster-new_cluster_example :
    (v : View) × (h : Gossip) × In v (alone ∷ both ∷ []) × IsStart small_gob config v h peers
start_or_join_etcd_cluster-new_cluster_example =
    start_or_join_etcd_cluster-new_cluster small_gob config (alone ∷ both ∷ []) told peers started
