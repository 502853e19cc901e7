-- ===== src/Manager/Server/Tests.antt =====
-- A store after a restore, a restart and the snapshotter (pkg/manager/server.go and manager.go).
use mathlib.Core.List.Perm
use e2d.Prelude.Decimal.{pos}
use e2d.Client.Security.{SecurityConfig, scheme}
use e2d.E2db.Db
use e2d.Manager.Config.Samples.{net}
use e2d.Manager.Server.Settings.{ServerConfig, made, start_settings, restore_settings, info_config}
use e2d.Manager.Server.Settings.Sound.{start_settings-perm}
use e2d.Manager.Peers.{Peer, validate_peers}
use e2d.Manager.Server.{
  Server, Kv, IsKv, is_running, ready, stop, start_etcd, start_checked, restart,
  snapshot_marker_key, volatile_prefix, after_start,
}
use e2d.Manager.Server.Volatile.{after_start-get}
use e2d.Prelude.{
  ℕ, ◌≡◌, refl, ap, subst, true, false, none, some, List, [], ◌∷◌, map, if◌then◌else◌, In, Text,
  codes, str_eq, has_prefix, ok, Assoc, lookup, delete, insert, lookup-delete, lookup-insert,
  In-of_lookup,
}

abbrev running_server : Server
running_server = record { etcd = true; started = true; restarting = false }

-- The store as an association list, whose listing gives all keys.
abbrev small_kv : Kv
small_kv = record {
  Store = Assoc Text;
  get = λ s key. lookup key s;
  range_from = λ s key. ok (map (λ e. e.0) s, 7);
  delete_key = λ s key. (delete key s, 1);
  put_key = λ s key v. (insert key v s, 8);
}

In-map : (x v : Text) (m : Assoc Text) → In (x, v) m → In x (map (λ e. e.0) m)
In-map x v [] h = elim h [ ]
In-map x v (e ∷ m) (In.here p) = In.here (ap (λ (q : Text × Text). q.0) p)
In-map x v (e ∷ m) (In.there i) = In.there (In-map x v m i)

listed_keys :
    (keys : List Text × ℕ) (s : Assoc Text) (key v : Text)
    → ok (map (λ e. e.0) s, 7) ≡ ok keys
    → lookup key s ≡ some v
    → In key keys.0
listed_keys keys s key v e g =
    let same : (map (λ (q : Text × Text). q.0) s, 7) ≡ keys = cc e in
    subst (λ (ks : List Text × ℕ). In key ks.0) same (In-map key v s (In-of_lookup key v s g))

small_kv-IsKv : IsKv small_kv
small_kv-IsKv = record {
  listed = λ s from key v keys e g h. listed_keys keys s key v e g;
  get-delete = λ s key x. lookup-delete key x s;
  get-put = λ s key v x. lookup-insert key x v s;
}

abbrev restored : Assoc Text
restored = (codes "/_e2d/cluster", codes "old") ∷ (codes "/app", codes "kept") ∷ []

after_start-get_example :
    lookup (codes "/app") (after_start small_kv running_server (codes "2026") true restored).0 ≡ (
      if str_eq snapshot_marker_key (codes "/app")
      then some (codes "2026")
      else if has_prefix volatile_prefix (codes "/app")
      then none
      else some (codes "kept"))
unfolding lookup str_eq is_running
after_start-get_example =
    after_start-get small_kv small_kv-IsKv running_server (codes "2026") restored
      (codes "/_e2d/cluster" ∷ codes "/app" ∷ []) 7 (codes "/app") is_up refl
  where
    is_up : is_running running_server ≡ true
    is_up = refl

-- A restart with too few peers leaves the server stopped.
restart_short :
    (restart 3 [] (ready none) running_server).0
    ≡ record { etcd = true; started = false; restarting = false }
unfolding restart stop start_etcd start_checked validate_peers
restart_short = refl

abbrev no_security : SecurityConfig
no_security = record {
  cert_file = [];
  key_file = [];
  cert_auth = false;
  trusted_ca_file = [];
  auto_tls = false;
}

abbrev small_config : ServerConfig
small_config = record {
  name = codes "a";
  dir = codes "data";
  client_url = record { scheme = codes "https"; host = codes "10.1.1.1:2379" };
  peer_url = record { scheme = codes "https"; host = codes "10.1.1.1:2380" };
  required_cluster_size = pos 1;
  client_security = record no_security { auto_tls = true };
  peer_security = record no_security { auto_tls = true };
  enable_local_listener = true;
  debug = false;
}

abbrev peer_a : Peer
peer_a = record { name = codes "a"; url = codes "https://10.1.1.1:2380" }

abbrev peer_b : Peer
peer_b = record { name = codes "b"; url = codes "https://10.1.1.2:2380" }

start_settings-perm_example :
    (start_settings small_config (codes "new") made (peer_a ∷ peer_b ∷ [])
      ≡ start_settings small_config (codes "new") made (peer_b ∷ peer_a ∷ []))
    × (restore_settings small_config (codes "snap") (peer_a ∷ peer_b ∷ [])
        ≡ restore_settings small_config (codes "snap") (peer_b ∷ peer_a ∷ []))
start_settings-perm_example =
    start_settings-perm small_config (codes "new") (codes "snap") made {ps = peer_a ∷ peer_b ∷ []}
      {qs = peer_b ∷ peer_a ∷ []} (Perm.swap peer_b peer_a [])

abbrev info : Db.Config
info = record (info_config small_config) {
  client_addr = codes "10.1.1.1:2379";
  namespace = codes "_e2d";
  timeout = pos 5000000000;
  client_url = (codes "http", codes "10.1.1.1:2379");
}

info_valid : Db.validate (λ t. t) net (info_config small_config) ≡ ok info
unfolding Db.validate e2d.Netutil.fix_unspecified_host_addr e2d.Netutil.net_split_host_port
    e2d.Prelude.trim_prefix info_config str_eq e2d.Netutil.parse_addr
    e2d.Netutil.address_is_unspecified e2d.Netutil.address_string Db.trim_slashes scheme
    e2d.Prelude.Decimal.format_int e2d.Client.Security.enabled e2d.Prelude.Decimal.parse_int
    e2d.Prelude.Decimal.format_uint
info_valid = refl
