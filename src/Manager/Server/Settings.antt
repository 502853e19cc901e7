-- ===== src/Manager/Server/Settings.antt =====
-- pkg/manager/server.go: what etcd is started with, what a snapshot is restored with, and the database
-- that the cluster information is written through.
pub mod Sound
use e2d.Prelude.Decimal.{ℤ, pos, negsuc, format_int}
use e2d.Netutil.{Net, split_host_port}
use e2d.Client.Security.{SecurityConfig, TlsInfo, scheme, enabled, tls_info}
use e2d.E2db.Db
use e2d.Manager.Config.{Url, url_string}
use e2d.Manager.Peers.{Peer, validate_peers, initial_cluster_string_from_peers}
use e2d.Manager.Server.{volatile_prefix}
use e2d.Prelude.{
  ℕ, ◌≡◌, refl, ap, ◌∙◌, Bool, true, false, Option, none, some, List, [], ◌∷◌, ◌++◌, if◌then◌else◌,
  Text, codes, str_eq, Error, Result, ok, err, panic, ◌>>=◌, arith, not, ◌||◌,
}

-- `serverConfig`, but for the level of etcd's logger and the registration of the gRPC service.
pub record ServerConfig : Type 0 where
  pub name : Text
  pub dir : Text
  pub client_url : Url
  pub peer_url : Url
  pub required_cluster_size : ℤ
  pub client_security : SecurityConfig
  pub peer_security : SecurityConfig
  pub enable_local_listener : Bool
  pub debug : Bool

-- How many peers are required: a length is not below a negative number.
unfoldable pub required_peers : ℤ → ℕ
required_peers (pos n) = n
required_peers (negsuc n) = 0

-- embed.Config, as far as it is set; a TLS setting that is not set is `none`.
pub record EtcdSettings : Type 0 where
  pub name : Text
  pub dir : Text
  pub debug : Bool
  pub listen_peer_urls : List Url
  pub advertise_peer_urls : List Url
  pub listen_client_urls : List Url
  pub advertise_client_urls : List Url
  pub client_auto_tls : Bool
  pub peer_auto_tls : Bool
  pub client_tls_info : Option TlsInfo
  pub peer_tls_info : Option TlsInfo
  pub enable_v2 : Bool
  pub cluster_state : Text
  pub initial_cluster : Text
  pub strict_reconfig_check : Bool

-- The port that a host has; the error is dropped.
pub port_of : Result (Text × ℤ) → ℤ
port_of (ok hp) = hp.1
port_of (err e) = pos 0
port_of panic = pos 0

pub local_listener : ServerConfig → Url
unfolding port_of
local_listener cfg = record {
  scheme = scheme cfg.client_security;
  host = codes "127.0.0.1:" ++ format_int (port_of (split_host_port cfg.client_url.host));
}

pub listener_urls : ServerConfig → List Url
unfolding local_listener
listener_urls cfg =
    if cfg.enable_local_listener
    then (cfg.client_url ∷ local_listener cfg ∷ [])
    else (cfg.client_url ∷ [])

pub tls_if_enabled : SecurityConfig → Option TlsInfo
tls_if_enabled sc = if enabled sc then some (tls_info sc) else none

-- The settings of `startEtcd`, for a new or an existing cluster.
unfoldable pub etcd_settings : ServerConfig → Text → List Peer → EtcdSettings
unfolding listener_urls tls_if_enabled
etcd_settings cfg state peers = record {
  name = cfg.name;
  dir = cfg.dir;
  debug = cfg.debug;
  listen_peer_urls = cfg.peer_url ∷ [];
  advertise_peer_urls = cfg.peer_url ∷ [];
  listen_client_urls = listener_urls cfg;
  advertise_client_urls = cfg.client_url ∷ [];
  client_auto_tls = cfg.client_security.auto_tls;
  peer_auto_tls = cfg.peer_security.auto_tls;
  client_tls_info = tls_if_enabled cfg.client_security;
  peer_tls_info = tls_if_enabled cfg.peer_security;
  enable_v2 = false;
  cluster_state = state;
  initial_cluster = initial_cluster_string_from_peers peers;
  strict_reconfig_check = true;
}

-- MkdirAll: a directory that is there is none of its errors.
pub data MadeDir : Type 0 where
  made there : MadeDir
  cannot_make : Error → MadeDir

pub after_dir : EtcdSettings → MadeDir → Result EtcdSettings
after_dir settings made = ok settings
after_dir settings there = ok settings
after_dir settings (cannot_make e) = err e

pub checked : {A : Type 0} → Option Error → Result A → Result A
checked (some e) r = err e
checked none r = r

-- What `startEtcd` hands to embed.StartEtcd, by what becomes of the data directory.
unfoldable pub start_settings : ServerConfig → Text → MadeDir → List Peer → Result EtcdSettings
unfolding after_dir checked
start_settings cfg state dir peers =
    checked (validate_peers peers (required_peers cfg.required_cluster_size))
      (after_dir (etcd_settings cfg state peers) dir)

-- `startNew` and `joinExisting`
unfoldable pub start_new : ServerConfig → MadeDir → List Peer → Result EtcdSettings
start_new cfg dir peers = start_settings cfg (codes "new") dir peers

unfoldable pub join_existing : ServerConfig → MadeDir → List Peer → Result EtcdSettings
join_existing cfg dir peers = start_settings cfg (codes "existing") dir peers

-- snapshot.RestoreConfig; the token is etcd's default one.
pub record RestoreSettings : Type 0 where
  pub snapshot_path : Text
  pub name : Text
  pub output_data_dir : Text
  pub peer_urls : List Text
  pub initial_cluster : Text
  pub skip_hash_check : Bool

-- What `restoreSnapshot` hands to etcd.
unfoldable pub restore_settings : ServerConfig → Text → List Peer → Result RestoreSettings
unfolding checked
restore_settings cfg filename peers =
    checked (validate_peers peers (required_peers cfg.required_cluster_size)) (
      ok (record {
        snapshot_path = filename;
        name = cfg.name;
        output_data_dir = cfg.dir;
        peer_urls = url_string cfg.peer_url ∷ [];
        initial_cluster = initial_cluster_string_from_peers peers;
        skip_hash_check = true;
      }))

-- The database of `writeClusterInfo`: the certificates are those of the peers.
unfoldable pub info_config : ServerConfig → Db.Config
info_config cfg = record {
  client_addr = url_string cfg.client_url;
  cert_file = cfg.peer_security.cert_file;
  key_file = cfg.peer_security.key_file;
  ca_file = cfg.peer_security.trusted_ca_file;
  namespace = volatile_prefix;
  timeout = pos 0;
  auto_sync_interval = pos 0;
  secret_key = [];
  client_url = ([], []);
  key = none;
  security_config = record {
    cert_file = [];
    key_file = [];
    cert_auth = false;
    trusted_ca_file = [];
    auto_tls = false;
  };
}
