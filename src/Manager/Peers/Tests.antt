-- ===== src/Manager/Peers/Tests.antt =====
-- Two peers, in either order.
use e2d.Manager.Peers.{Peer, peer_string, initial_cluster_string_from_peers}
use e2d.Prelude.{◌≡◌, refl, [], ◌∷◌, codes, str_lt}

abbrev peer_a : Peer
peer_a = record { name = codes "a"; url = codes "http://h1" }

abbrev peer_b : Peer
peer_b = record { name = codes "b"; url = codes "http://h2" }

initial_cluster_two :
    initial_cluster_string_from_peers (peer_b ∷ peer_a ∷ []) ≡ codes "a=http://h1,b=http://h2"
unfolding initial_cluster_string_from_peers peer_string str_lt
initial_cluster_two = refl
