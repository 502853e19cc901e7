-- ===== src/Manager/Server/Settings/Sound.antt =====
-- What etcd is started with (startEtcd and restoreSnapshot of pkg/manager/server.go).
use mathlib.Core.List.{Perm}
use e2d.Client.Security.{scheme, enabled}
use e2d.Netutil.{Net}
use e2d.E2db.Db
use e2d.Manager.Config.{Url}
use e2d.Manager.Peers.{
  Peer, IsNamed, validate_peers, validate_peers_iff, validate_peers-perm,
  initial_cluster_string-perm,
}
use e2d.Manager.Server.Settings.{
  ServerConfig, required_peers, EtcdSettings, etcd_settings, listener_urls, local_listener, MadeDir,
  made, there, cannot_make, after_dir, checked, start_settings, restore_settings, info_config,
}
use e2d.Prelude.{
  ◌≤◌, ◌≡◌, refl, true, Option, none, some, List, [], arith, inl, inr, Bool-cases, All, length,
  Text, codes, str_eq, Result, ok, ok_injective, Error,
}

-- Nodes that know the same peers in other orders start or join etcd with the same settings, and
-- restore a snapshot with the same ones, or fail in the same way.
pub start_settings-perm :
    (cfg : ServerConfig) (state filename : Text) (dir : MadeDir) {ps qs : List Peer}
    → Perm ps qs
    → (start_settings cfg state dir ps ≡ start_settings cfg state dir qs)
      × (restore_settings cfg filename ps ≡ restore_settings cfg filename qs)
unfolding start_settings restore_settings etcd_settings
start_settings-perm cfg state filename dir p =
    let valid = validate_peers-perm (required_peers cfg.required_cluster_size) p in
    let cluster = initial_cluster_string-perm p in
    (rw (valid, cluster) refl, rw (valid, cluster) refl)

-- A server that lets etcd make its certificates, for clients and for peers, has a client URL with the
-- scheme https, and writes its cluster information through a database whose URL has the scheme http.
pub info_config-scheme :
    (cfg : ServerConfig) (sha : Text → Text) (net : Net) (c : Db.Config)
    → cfg.client_security.auto_tls ≡ true
    → cfg.peer_security.cert_file ≡ []
    → cfg.peer_security.key_file ≡ []
    → cfg.peer_security.trusted_ca_file ≡ []
    → Db.validate sha net (info_config cfg) ≡ ok c
    → (scheme cfg.client_security ≡ codes "https") × (c.client_url.0 ≡ codes "http")
unfolding info_config scheme enabled str_eq
info_config-scheme cfg sha net c auto cert key ca h =
    (ground arith, Db.validate-scheme sha net (info_config cfg) c cert key ca h)

checked_ok :
    {A : Type 0} (o : Option Error) (r : Result A) (a : A)
    → checked o r ≡ ok a
    → (o ≡ none) × (r ≡ ok a)
unfolding checked
checked_ok none r a h = (refl, h)
checked_ok (some e) r a h = cc

after_dir_ok :
    (s settings : EtcdSettings) (dir : MadeDir) → after_dir s dir ≡ ok settings → s ≡ settings
unfolding after_dir
after_dir_ok s settings made h = ok_injective h
after_dir_ok s settings there h = ok_injective h
after_dir_ok s settings (cannot_make e) h = cc

listener_urls-scheme :
    (cfg : ServerConfig)
    → cfg.client_url.scheme ≡ scheme cfg.client_security
    → All (λ (u : Url). u.scheme ≡ scheme cfg.client_security) (listener_urls cfg)
unfolding listener_urls local_listener
listener_urls-scheme cfg h = elim (Bool-cases cfg.enable_local_listener) [
  | inl e ↦ rw e (h, (refl, tt))
  | inr e ↦ rw e (h, tt)
]

-- What `startEtcd` hands to etcd are the settings for its peers, and there are enough of them with
-- names and URLs.
pub start_settings_ok :
    (cfg : ServerConfig) (state : Text) (dir : MadeDir) (peers : List Peer)
    (settings : EtcdSettings)
    → start_settings cfg state dir peers ≡ ok settings
    → (etcd_settings cfg state peers ≡ settings)
      × All IsNamed peers
      × (required_peers cfg.required_cluster_size ≤ length peers)
unfolding start_settings
start_settings_ok cfg state dir peers settings h =
    let required = required_peers cfg.required_cluster_size in
    let r =
      checked_ok (validate_peers peers required) (after_dir (etcd_settings cfg state peers) dir)
        settings h in
    let valid = (validate_peers_iff peers required).0 r.0 in
    (after_dir_ok (etcd_settings cfg state peers) settings dir r.1, valid.0, valid.1)

-- All URLs at which etcd listens for clients have the scheme of the client security, if the client URL
-- has it.
pub listen_client_urls-scheme :
    (cfg : ServerConfig) (state : Text) (peers : List Peer)
    → cfg.client_url.scheme ≡ scheme cfg.client_security
    → All
        (λ (u : Url). u.scheme ≡ scheme cfg.client_security)
        (etcd_settings cfg state peers).listen_client_urls
unfolding etcd_settings
listen_client_urls-scheme cfg state peers h = listener_urls-scheme cfg h
