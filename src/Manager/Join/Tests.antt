-- ===== src/Manager/Join/Tests.antt =====
-- A node that is added to a cluster and does not start (pkg/manager/manager.go).
use e2d.Manager.Server.{new_server, start_etcd, start_checked, start_ready, not_in_time}
use e2d.Manager.Peers.{validate_peers}
use e2d.Manager.Join.{
  ListedMember, Addition, Answers, done, dir_removed, removed, added, NodeConfig, member_info,
  client_members, join_etcd_cluster,
}
use e2d.Manager.Join.Outcomes.{is_settled, join_etcd_cluster-settled}
use e2d.Prelude.{
  ◌≡◌, refl, inr, true, false, none, some, [], ◌∷◌, codes, str_eq, deadline, lookup, insert,
}

abbrev config : NodeConfig
config = record { name = codes "b"; peer_url = codes "/b"; required_cluster_size = 2 }

abbrev listed : ListedMember
listed = record {
  id = 1;
  name = codes "a";
  client_urls = codes "/c" ∷ [];
  peer_urls = codes "/a" ∷ [];
}

abbrev answers : Answers
answers = record {
  connect = none;
  listed = inr (listed ∷ []);
  start_known = not_in_time;
  lock_old = none;
  remove_old = done;
  lock = none;
  add =
      Addition.answered
        (record { id = 7; name = []; client_urls = []; peer_urls = codes "/b" ∷ [] });
  start_added = not_in_time;
}

join_run : join_etcd_cluster config answers new_server ≡ record {
  server = record { etcd = true; started = false; restarting = false };
  error = some deadline;
  changes = dir_removed ∷ added 7 (codes "/b") ∷ removed 7 ∷ [];
}
unfolding join_etcd_cluster client_members member_info start_etcd start_checked start_ready
    new_server validate_peers str_eq lookup insert
join_run = refl

-- A member that was added without an answer stays.
abbrev lost_answer : Answers
lost_answer = record answers {
  add =
      Addition.unanswered deadline
        (record { id = 7; name = []; client_urls = []; peer_urls = codes "/b" ∷ [] });
}

left_behind :
    (join_etcd_cluster config lost_answer new_server).changes
    ≡ dir_removed ∷ added 7 (codes "/b") ∷ []
unfolding join_etcd_cluster client_members member_info str_eq lookup insert
left_behind = refl

join_etcd_cluster-settled_example :
    is_settled answers.add (join_etcd_cluster config answers new_server) ≡ true
join_etcd_cluster-settled_example = join_etcd_cluster-settled config answers new_server
