-- ===== src/App/Run.antt =====
-- The command `run` of cmd/e2d/app/run.go: its flags, and the manager that it starts.
use e2d.App.{
  RunOptions, PeerGetter, Snapshotter, get_peer_getter, get_initial_bootstrap_addrs,
  get_snapshot_provider,
}
use e2d.Client.Security.{SecurityConfig}
use e2d.Manager.Config.{Config, Env, minutes}
use e2d.Manager.New.{Setup, IsStarted, new_manager, new_manager-start_settings}
use e2d.Prelude.Decimal.{pos}
use e2d.Snapshot.Url.{ParsedUrl}
use e2d.Prelude.{
  ◌≡◌, subst, Bool, false, Option, none, List, [], Text, codes, Result, ok, bind_ok, ok_injective,
  ◌>>=◌,
}

-- The options without flags.
unfoldable pub default_options : RunOptions
default_options = record {
  name = [];
  data_dir = [];
  host = [];
  client_addr = codes "0.0.0.0:2379";
  peer_addr = codes "0.0.0.0:2380";
  gossip_addr = codes "0.0.0.0:7980";
  ca_cert = [];
  ca_key = [];
  peer_cert = [];
  peer_key = [];
  server_cert = [];
  server_key = [];
  bootstrap_addrs = [];
  required_cluster_size = pos 1;
  health_check_interval = minutes 1;
  health_check_timeout = minutes 5;
  peer_discovery = [];
  snapshot_backup_url = [];
  snapshot_compression = false;
  snapshot_encryption = false;
  snapshot_interval = minutes 1;
  aws_role_session_name = [];
  do_access_token = [];
  do_spaces_key = [];
  do_spaces_secret = [];
}

security_of : Text → Text → Text → SecurityConfig
security_of cert key ca = record {
  cert_file = cert;
  key_file = key;
  cert_auth = false;
  trusted_ca_file = ca;
  auto_tls = false;
}

-- The configuration of the manager, with the addresses that were found.
unfoldable pub manager_config : RunOptions → List Text → Config
unfolding security_of
manager_config o baddrs = record {
  name = o.name;
  dir = o.data_dir;
  required_cluster_size = o.required_cluster_size;
  host = o.host;
  client_addr = o.client_addr;
  client_url = record { scheme = []; host = [] };
  peer_addr = o.peer_addr;
  peer_url = record { scheme = []; host = [] };
  gossip_addr = o.gossip_addr;
  gossip_host = [];
  gossip_port = pos 0;
  bootstrap_addrs = baddrs;
  bootstrap_timeout = pos 0;
  snapshot_interval = o.snapshot_interval;
  snapshot_encryption = o.snapshot_encryption;
  health_check_interval = o.health_check_interval;
  health_check_timeout = o.health_check_timeout;
  client_security = security_of o.server_cert o.server_key o.ca_cert;
  peer_security = security_of o.peer_cert o.peer_key o.ca_cert;
  ca_key_file = o.ca_key;
  gossip_secret_key = none;
  snapshot_encryption_key = none;
}

-- What `run` starts.
pub record Started : Type 0 where
  pub getter : PeerGetter
  pub snapshotter : Option Snapshotter
  pub setup : Setup

module _ (parse : Text → Result ParsedUrl) (env : Env)
    (found : PeerGetter → Result (List Text)) where
  -- `run` up to the run of the manager, by what the peer getters answer.
  unfoldable pub run_command : RunOptions → Bool → Result Started
  run_command o verbose = do
    getter ← get_peer_getter o
    baddrs ← get_initial_bootstrap_addrs o (found getter)
    snapshotter ← get_snapshot_provider parse o
    setup ← new_manager env (manager_config o baddrs) verbose
    ok (record { getter = getter; snapshotter = snapshotter; setup = setup })

  -- What `run` starts is a manager of which all holds that holds of one that `New` has made.
  pub run_command-IsStarted :
      (o : RunOptions) (verbose : Bool) (s : Started)
      → run_command o verbose ≡ ok s
      → IsStarted s.setup
  unfolding run_command
  run_command-IsStarted o verbose s h =
      let (getter, h1, k1) = bind_ok (get_peer_getter o) _ s h in
      let (baddrs, h2, k2) = bind_ok (get_initial_bootstrap_addrs o (found getter)) _ s k1 in
      let (snapshotter, h3, k3) = bind_ok (get_snapshot_provider parse o) _ s k2 in
      let (setup, h4, k4) = bind_ok (new_manager env (manager_config o baddrs) verbose) _ s k3 in
      subst (λ (x : Started). IsStarted x.setup) (ok_injective k4)
        (new_manager-start_settings env (manager_config o baddrs) verbose setup h4)
