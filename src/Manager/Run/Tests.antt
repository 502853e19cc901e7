-- ===== src/Manager/Run/Tests.antt =====
-- A node of three that starts and stops, and its health (pkg/manager/manager.go and service.go).
use e2d.Manager.Gossip.{unknown, update}
use e2d.Manager.Gossip.Samples.{small_gob, gossip_of}
use e2d.Manager.Server.{new_server, is_running}
use e2d.Manager.Join.{NodeConfig}
use e2d.Manager.Run.{Manager, server_stopping, run_loop, run, stop_manager, health, well, unwell}
use e2d.Prelude.{◌≡◌, refl, inr, true, false, none, [], ◌∷◌, codes, panic}

abbrev config : NodeConfig
config = record { name = codes "a"; peer_url = codes "/a"; required_cluster_size = 3 }

abbrev manager : Manager
manager = record {
  server = new_server;
  gossip = gossip_of (codes "a");
  removes_open = true;
  context = 0;
}

-- The status that is told goes from running to unknown, and a restart does not end the loop.
run_told :
    (run small_gob config
      (record { start_cluster = λ ps. none; start_gossip = none; start_or_join = none })
      (server_stopping true ∷ server_stopping false ∷ [])
      manager).0.gossip.self.status
    ≡ unknown
unfolding run run_loop update is_running new_server
run_told = refl

-- A stop before etcd was started ends the program.
stop_early : stop_manager none manager ≡ panic
unfolding stop_manager new_server
stop_early = refl

enough :
    health (record {
      database = none;
      cluster = inr 3;
      client = none;
      healthy = none;
      member_list = inr 3;
    })
    ≡ (well, none)
unfolding health
enough = refl

too_few :
    health (record {
      database = none;
      cluster = inr 3;
      client = none;
      healthy = none;
      member_list = inr 2;
    })
    ≡ (unwell, none)
unfolding health
too_few = refl
