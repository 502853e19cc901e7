-- ===== src/Manager/Run.antt =====
-- Run, Restart and the stops of pkg/manager/manager.go, and pkg/manager/service.go.
--
-- What etcd, the member list and the database answer is a parameter.
mod Tests
use e2d.Manager.Peers.{Peer}
use e2d.Manager.Gossip.{NodeStatus, unknown, running, Gob, Gossip, update, shutdown}
use e2d.Manager.Cleanup.{EtcdMember}
use e2d.Manager.Server.{Server, Start, is_running, is_restarting, stop, restart}
use e2d.Manager.Join.{NodeConfig}
use e2d.Prelude.{
  ℕ, suc, ◌⊎◌, inl, inr, Bool, true, false, not, ◌||◌, Option, none, some, List, [], ◌∷◌, leb, ◌==◌,
  if◌then◌else◌, Text, codes, Error, other, Result, ok, panic,
}

-- `Manager`: its server, its gossip network, whether `removeCh` is open, and how often the context
-- was cancelled and made anew.
pub record Manager : Type 0 where
  pub server : Server
  pub gossip : Gossip
  pub removes_open : Bool
  pub context : ℕ

-- `HardStop` and `GracefulStop`, by the error of the member list; they wait for the etcd server,
-- which is nil before it was started.
unfoldable pub stop_manager : Option Error → Manager → Result Manager
stop_manager e m =
    if m.server.etcd
    then ok (record m {
      server = stop m.server;
      gossip = (shutdown e m.gossip).0;
      removes_open = false;
      context = suc m.context;
    })
    else panic

peer_with : Text → List Text → List Peer → List Peer
peer_with name [] rest = rest
peer_with name (url ∷ urls) rest = record { name = name; url = url } ∷ rest

-- The peers of `Restart`: the members of the cluster by their first URL, without those that have
-- none.
unfoldable pub restart_peers : List EtcdMember → List Peer
unfolding peer_with
restart_peers [] = []
restart_peers (m ∷ ms) = peer_with m.name m.peer_urls (restart_peers ms)

-- `Restart`
unfoldable pub restart_manager : ℕ → List EtcdMember → Start → Manager → Manager × Option Error
restart_manager required ms how m =
    let r = restart required (restart_peers ms) how m.server in (record m { server = r.0 }, r.1)

-- What the steps of `Run` answer: startEtcdCluster, the start of the gossip network, and
-- startOrJoinEtcdCluster.
pub record Steps : Type 0 where
  pub start_cluster : List Peer → Option Error
  pub start_gossip : Option Error
  pub start_or_join : Option Error

-- An event of the loop of `Run`: the server stopped, which may be restarting, an error of etcd, or
-- the context was cancelled.
pub data RunEvent : Type 0 where
  server_stopping : Bool → RunEvent
  etcd_error : Error → RunEvent
  cancelled : RunEvent

module _ (gob : Gob) (cfg : NodeConfig) where
  tell : NodeStatus → Manager → Manager
  tell status m = record m { gossip = (update gob status m.gossip).0 }

  -- The loop of `Run`: a server that restarts is waited for, and one that stopped is told.
  unfoldable pub run_loop : List RunEvent → Manager → Manager × Option Error
  unfolding tell
  run_loop [] m = (m, none)
  run_loop (server_stopping true ∷ evs) m = run_loop evs m
  run_loop (server_stopping false ∷ evs) m =
      (if cfg.required_cluster_size == 1 then m else tell unknown m, none)
  run_loop (etcd_error e ∷ evs) m = (m, some e)
  run_loop (cancelled ∷ evs) m = (m, none)

  after_single : List RunEvent → Manager → Option Error → Manager × Option Error
  after_single evs m (some e) = (m, some e)
  after_single evs m none = run_loop evs m

  after_join : List RunEvent → Manager → Option Error → Manager × Option Error
  unfolding tell
  after_join evs m (some e) = (m, some e)
  after_join evs m none = run_loop evs (tell running m)

  after_gossip : Steps → List RunEvent → Manager → Option Error → Manager × Option Error
  unfolding after_join
  after_gossip st evs m (some e) = (m, some e)
  after_gossip st evs m none = after_join evs m st.start_or_join

  -- `Run`
  unfoldable pub run : Steps → List RunEvent → Manager → Manager × Option Error
  unfolding after_single after_gossip
  run st evs m =
      if is_running m.server
      then (m, some (other (codes "etcd is already running")))
      else if cfg.required_cluster_size == 1
      then after_single evs m
          (st.start_cluster (record { name = cfg.name; url = cfg.peer_url } ∷ []))
      else if cfg.required_cluster_size == 3 || cfg.required_cluster_size == 5
      then after_gossip st evs m st.start_gossip
      else run_loop evs m

-- What `Health` meets, in order: the error of the database, the required size that it holds, the
-- error of the client, that of its health check, and how many members etcd lists
pub record HealthAnswers : Type 0 where
  pub database : Option Error
  pub cluster : Error ⊎ ℕ
  pub client : Option Error
  pub healthy : Option Error
  pub member_list : Error ⊎ ℕ

abbrev pub unwell : Text
unwell = codes "not great, bob"

abbrev pub well : Text
well = codes "It cool"

counted : ℕ → Error ⊎ ℕ → Text × Option Error
counted required (inl e) = (unwell, some e)
counted required (inr n) = (if leb required n then well else unwell, none)

unless : Option Error → Text × Option Error → Text × Option Error
unless (some e) r = (unwell, some e)
unless none r = r

sized : HealthAnswers → Error ⊎ ℕ → Text × Option Error
unfolding unless counted
sized a (inl e) = (unwell, some e)
sized a (inr required) = unless a.client (unless a.healthy (counted required a.member_list))

-- `ManagerService.Health`: the status and the error
unfoldable pub health : HealthAnswers → Text × Option Error
unfolding unless sized
health a = unless a.database (sized a a.cluster)

-- `ManagerService.Restart`: the message, and whether a restart is begun
unfoldable pub restart_service : Server → Text × Bool
restart_service s =
    if is_restarting s
    then (codes "a restart is already in progress", false)
    else (codes "attempting restarting ...", true)
