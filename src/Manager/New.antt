-- ===== src/Manager/New.antt =====
-- `New` of pkg/manager/manager.go: what a manager starts with.
mod Tests
use e2d.Prelude.Decimal.{ℤ, pos, negsuc}
use e2d.Manager.Config.{Config, Env, url_string, validate}
use e2d.Manager.Gossip.{Gossip, GossipConfig, new_gossip}
use e2d.Manager.Gossip.Network.{NetworkConfig, network_config}
use e2d.Manager.Membership.{Membership, new_cluster_membership}
use e2d.Manager.Run.{Manager}
use e2d.Manager.Server.{new_server}
use e2d.Manager.Config.{Url}
use e2d.Manager.Config.Ready.{IsReady, validate-IsReady}
use e2d.Prelude.Sort.{sort_strings}
use e2d.Manager.Peers.{Peer, IsNamed, join, initial_cluster_string_lem}
use e2d.Manager.Server.Settings.{
  ServerConfig, MadeDir, EtcdSettings, etcd_settings, required_peers, start_settings,
}
use e2d.Manager.Server.Settings.Sound.{start_settings_ok, listen_client_urls-scheme}
use e2d.Netutil.{split_host_port}
use e2d.Client.Security.{scheme}
use e2d.Prelude.{
  ℕ, ◌≡◌, refl, sym, ap, ◌∙◌, Bool, true, Option, Text, Result, ok, List, [], All, length, str_eq,
  false, subst, map, codes, ◌++◌, ◌≤◌, bind_ok, ok_injective, ◌>>=◌,
}

-- What `New` makes: the configuration as validated, those of the server and of the member list, the
-- cluster membership, and the manager's state.
pub record Setup : Type 0 where
  pub cfg : Config
  pub server_config : ServerConfig
  pub network : NetworkConfig
  pub cluster : Membership
  pub manager : Manager

server_config_of : Config → Bool → ServerConfig
server_config_of cfg debug = record {
  name = cfg.name;
  dir = cfg.dir;
  client_url = cfg.client_url;
  peer_url = cfg.peer_url;
  required_cluster_size = cfg.required_cluster_size;
  client_security = cfg.client_security;
  peer_security = cfg.peer_security;
  enable_local_listener = true;
  debug = debug;
}

gossip_config_of : Config → GossipConfig
gossip_config_of cfg = record {
  name = cfg.name;
  client_url = url_string cfg.client_url;
  peer_url = url_string cfg.peer_url;
  gossip_host = cfg.gossip_host;
  gossip_port = cfg.gossip_port;
  secret_key = cfg.gossip_secret_key;
}

-- A time that has passed is not below a negative timeout.
timeout_of : ℤ → ℕ
timeout_of (pos n) = n
timeout_of (negsuc n) = 0

setup : Config → Bool → Setup
unfolding server_config_of gossip_config_of timeout_of
setup cfg debug = record {
  cfg = cfg;
  server_config = server_config_of cfg debug;
  network = network_config (gossip_config_of cfg);
  cluster = new_cluster_membership (timeout_of cfg.health_check_timeout);
  manager = record {
    server = new_server;
    gossip = new_gossip (gossip_config_of cfg);
    removes_open = true;
    context = 0;
  };
}

-- `New`
unfoldable pub new_manager : Env → Config → Bool → Result Setup
unfolding setup
new_manager env given debug = do cfg ← validate env given; ok (setup cfg debug)

-- What holds of what `New` makes.
abbrev pub IsStarted : Setup → Type 0
IsStarted s =
    IsReady s.cfg
    × ((state : Text) (dir : MadeDir) (peers : List Peer) (settings : EtcdSettings)
        → start_settings s.server_config state dir peers ≡ ok settings
        → (str_eq settings.dir [] ≡ false)
          × All (λ (u : Url). u.scheme ≡ scheme s.cfg.client_security) settings.listen_client_urls
          × (settings.cluster_state ≡ state)
          × (settings.initial_cluster
              ≡ join (codes ",")
                  (sort_strings (map (λ (p : Peer). p.name ++ codes "=" ++ p.url) peers)))
          × All IsNamed peers
          × (required_peers s.cfg.required_cluster_size ≤ length peers))
    × (s.network.secret_key ≡ s.cfg.gossip_secret_key)
    × (split_host_port s.cfg.gossip_addr ≡ ok (s.network.bind_addr, s.network.bind_port))

-- A manager that `New` has made has a configuration that it can run with. What its server hands to
-- etcd for some peers is a data directory with a name, URLs for clients that all have the scheme of
-- the client security, the state of the cluster, and as its initial cluster the entries name=URL of
-- these peers, sorted and joined by commas; the peers have names and URLs and are at least as many as
-- the cluster requires. The member list has the secret key of the configuration, and listens where the
-- gossip address says.
pub new_manager-start_settings :
    (env : Env) (given : Config) (debug : Bool) (s : Setup)
    → new_manager env given debug ≡ ok s
    → IsStarted s
unfolding new_manager setup server_config_of gossip_config_of network_config etcd_settings
new_manager-start_settings env given debug s h =
    let (cfg, valid, made_of) = bind_ok (validate env given) (λ cfg. ok (setup cfg debug)) s h in
    let is_ready = validate-IsReady env given cfg valid in
    subst IsStarted (ok_injective made_of) (
      is_ready,
      λ state dir peers settings started.
          let r = start_settings_ok (server_config_of cfg debug) state dir peers settings started in
          (
            subst (λ (x : EtcdSettings). str_eq x.dir [] ≡ false) r.0 is_ready.dir,
            subst
                (λ (x : EtcdSettings).
                  All (λ (u : Url). u.scheme ≡ scheme cfg.client_security) x.listen_client_urls)
                r.0
                (listen_client_urls-scheme (server_config_of cfg debug) state peers
                  (ap (λ (u : Url). u.scheme) is_ready.client_url)),
            sym (ap (λ (x : EtcdSettings). x.cluster_state) r.0),
            sym (ap (λ (x : EtcdSettings). x.initial_cluster) r.0)
                ∙ initial_cluster_string_lem peers,
            r.1,
            r.2,
          ),
      refl,
      is_ready.gossip,
    )
