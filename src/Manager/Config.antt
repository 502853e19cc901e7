-- ===== src/Manager/Config.antt =====
-- pkg/manager/config.go.
--
-- The file system, PEM and PKCS 1, SHA-512/256, bbolt, JSON and the random name are parameters.
pub mod Ready
pub mod Samples
mod Tests
use e2d.Prelude.Decimal.{ℤ, pos, negsuc}
use e2d.Netutil.{
  Net, Address, parse_addr, address_string, address_is_unspecified, fix_unspecified_host_addr,
  detect_host_ipv4, split_host_port,
}
use e2d.Client.Security.{SecurityConfig, scheme}
use e2d.E2db.Key.{filepath_join}
use e2d.Manager.Gossip.{default_gossip_port}
use e2d.Prelude.{
  ℕ, ◌+◌, ◌-◌, ◌*◌, ◌/◌, Bool, true, false, not, ◌&&◌, ◌||◌, Option, none, some, List, [], ◌∷◌,
  ◌++◌, map, ltb, leb, ◌==◌, if◌then◌else◌, length, take, any, Text, codes, str_eq, Error, other,
  Result, ok, err, panic, ◌>>=◌,
}

-- url.URL with a scheme and a host only
pub record Url : Type 0 where
  pub scheme : Text
  pub host : Text

-- `URL.String`
abbrev pub url_string : Url → Text
url_string u = u.scheme ++ (codes "://" ++ u.host)

-- `Config`, less what `validate` passes over; durations are in nanoseconds.
pub record Config : Type 0 where
  pub name : Text
  pub dir : Text
  pub required_cluster_size : ℤ
  pub host : Text
  pub client_addr : Text
  pub client_url : Url
  pub peer_addr : Text
  pub peer_url : Url
  pub gossip_addr : Text
  pub gossip_host : Text
  pub gossip_port : ℤ
  pub bootstrap_addrs : List Text
  pub bootstrap_timeout : ℤ
  pub snapshot_interval : ℤ
  pub snapshot_encryption : Bool
  pub health_check_interval : ℤ
  pub health_check_timeout : ℤ
  pub client_security : SecurityConfig
  pub peer_security : SecurityConfig
  pub ca_key_file : Text
  pub gossip_secret_key : Option Text
  pub snapshot_encryption_key : Option Text

-- A member as etcd stores it
pub record StoredMember : Type 0 where
  pub name : Text
  pub peer_urls : List Text

pub record Env : Type 0 where
  pub net : Net
  pub read_file : Text → Result Text
  -- pem.Decode, and the bytes of its block
  pub pem_decode : Text → Option Text
  -- the error of x509.ParsePKCS1PrivateKey
  pub pkcs1_error : Text → Option Error
  -- SHA-512/256
  pub digest : Text → Text
  -- the values of the bucket `members` of a bbolt file, if there is one, in the order of their keys
  pub open_members : Text → Result (Option (List Text))
  pub unmarshal : Text → Option StoredMember
  pub random_name : Text

abbrev pub is_zero : ℤ → Bool
is_zero (pos n) = n == 0
is_zero (negsuc n) = false

abbrev pub minutes : ℕ → ℤ
minutes n = pos (n * 60000000000)

abbrev pub or_duration : ℤ → ℤ → ℤ
or_duration d e = if is_zero d then e else d

abbrev pub or_text : Text → Text → Text
or_text s t = if str_eq s [] then t else s

pub fix_bootstrap_addrs : Net → List Text → Result (List Text)
fix_bootstrap_addrs net [] = ok []
fix_bootstrap_addrs net (a ∷ rest) = do
  addr ← fix_unspecified_host_addr net a
  addrs ← fix_bootstrap_addrs net rest
  ok (addr ∷ addrs)

pub detect_host : Net → Text → Result Text
detect_host net host = if str_eq host [] then detect_host_ipv4 net else ok host

-- What one of the three addresses becomes, by the host and its default port.
unfoldable pub completed : Net → Text → ℕ → Address → Address
completed net host port a = record {
  host = if address_is_unspecified net a then host else a.host;
  port = if is_zero a.port then pos port else a.port;
}

unfoldable pub complete_addr : Net → Text → ℕ → Text → Result Text
unfolding completed
complete_addr net host port addr = do
  a ← parse_addr addr
  ok (address_string (completed net host port a))

key_of_block : Env → Option Text → Result Text
key_of_block env none = panic
key_of_block env (some block) = elim (env.pkcs1_error block) [
  | some e ↦ err e
  | none ↦ ok (env.digest block)
]

-- The key derived from the CA key; the block of a file that is not PEM is nil and is dereferenced.
unfoldable pub ca_key : Env → Text → Result Text
unfolding key_of_block
ca_key env file = do text ← env.read_file file; key_of_block env (env.pem_decode text)

unfoldable pub derived_keys : Env → Config → Result (Option Text × Option Text)
derived_keys env c =
    if str_eq c.ca_key_file []
    then ok (c.gossip_secret_key, c.snapshot_encryption_key)
    else do key ← ca_key env c.ca_key_file; ok (some key, some key)

abbrev size_error : Error
size_error = other (codes "value of RequiredClusterSize must be 1, 3, or 5")

unfoldable pub allowed_size : ℤ → Result ℕ
allowed_size (negsuc n) = err size_error
allowed_size (pos n) =
    if n == 0 then ok 1 else if n == 1 || n == 3 || n == 5 then ok n else err size_error

abbrev pub is_many : ℤ → Bool
is_many (pos n) = ltb 1 n
is_many (negsuc n) = false

unfoldable pub is_empty : List Text → Bool
is_empty [] = true
is_empty (a ∷ addrs) = false

-- The checks after the keys
unfoldable pub checked_size : Config → List Text → Result ℕ
unfolding allowed_size is_empty
checked_size c addrs =
    if c.snapshot_encryption && str_eq c.ca_key_file []
    then err (other (codes "must provide ca key for snapshot encryption"))
    else if is_empty addrs && is_many c.required_cluster_size
    then err (other (codes "must provide at least 1 BootstrapAddrs when not a single-host cluster"))
    else allowed_size c.required_cluster_size

stored_name : Env → Text → List Text → Option Text
stored_name env url [] = none
stored_name env url (v ∷ rest) =
    let next = stored_name env url rest in
    elim (env.unmarshal v) [
      | none ↦ next
      | some m ↦ if any (str_eq url) m.peer_urls then some m.name else next
    ]

name_among : Env → Text → Result (Option (List Text)) → Option Text
unfolding stored_name
name_among env url (ok (some values)) = stored_name env url values
name_among env url (ok none) = none
name_among env url (err e) = none
name_among env url panic = none

-- `getExistingNameFromDataDir`; every error is the same to its caller.
unfoldable pub get_existing_name_from_data_dir : Env → Text → Url → Option Text
unfolding name_among
get_existing_name_from_data_dir env path peer_url =
    name_among env (url_string peer_url) (env.open_members path)

pub name_or_random : Env → Option Text → Text
name_or_random env (some name) = name
name_or_random env none = env.random_name

abbrev pub lower : ℕ → ℕ
lower c = if leb b'A' c && leb c b'Z' then c + 32 else c

-- `shortName`, with strings.ToLower on ASCII
unfoldable pub short_name : Text → Text
short_name name = map lower (if ltb 5 (length name) then take 5 name else name)

-- `validate`: the configuration that it leaves, or its error; a configuration that is refused is
-- not used.
unfoldable pub validate : Env → Config → Result Config
unfolding fix_bootstrap_addrs detect_host derived_keys name_or_random
validate env c = do
  addrs ← fix_bootstrap_addrs env.net c.bootstrap_addrs
  host ← detect_host env.net c.host
  client_addr ← complete_addr env.net host 2379 c.client_addr
  peer_addr ← complete_addr env.net host 2380 c.peer_addr
  gossip_addr ← complete_addr env.net host default_gossip_port c.gossip_addr
  gossip ← split_host_port gossip_addr
  keys ← derived_keys env c
  size ← checked_size c addrs
  let dir = or_text c.dir (codes "data")
  let peer_url : Url = record { scheme = scheme c.peer_security; host = peer_addr }
  let found =
      get_existing_name_from_data_dir env (filepath_join (dir ∷ codes "member/snap/db" ∷ []))
        peer_url
  ok (record c {
    name = or_text c.name (name_or_random env found);
    dir = dir;
    required_cluster_size = pos size;
    host = host;
    client_addr = client_addr;
    client_url = record { scheme = scheme c.client_security; host = client_addr };
    peer_addr = peer_addr;
    peer_url = peer_url;
    gossip_addr = gossip_addr;
    gossip_host = gossip.0;
    gossip_port = gossip.1;
    bootstrap_addrs = addrs;
    bootstrap_timeout = or_duration c.bootstrap_timeout (minutes 30);
    snapshot_interval = or_duration c.snapshot_interval (minutes 1);
    health_check_interval = or_duration c.health_check_interval (minutes 1);
    health_check_timeout = or_duration c.health_check_timeout (minutes 5);
    gossip_secret_key = keys.0;
    snapshot_encryption_key = keys.1;
  })
