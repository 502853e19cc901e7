-- ===== src/App.antt =====
-- cmd/e2d/app/run.go: the options of `run`; and the hosts of `pki gencerts` in pki.go.
--
-- The services that answer with addresses and open backups are parameters.
pub mod Env
pub mod Run
mod Tests
use e2d.Prelude.Decimal.{ℤ, pos, negsuc, format_int}
use e2d.Netutil.{split_first}
use e2d.Snapshot.Url.{
  ParsedUrl, SnapshotUrl, SnapshotType, file_type, s3_type, spaces_type, to_lower,
  parse_snapshot_backup_url,
}
use e2d.Manager.Gossip.{default_gossip_port}
use e2d.Prelude.{
  ℕ, ◌+◌, ◌-◌, ◌≡◌, sym, ◌∙◌, inl, inr, Bool, false, not, ◌&&◌, Option, none, some, List, [], ◌∷◌,
  ◌++◌, map, append-nil, append_assoc, ltb, leb, ◌==◌, if◌then◌else◌, Bool-cases, select, Text,
  codes, str_eq, Error, other, Result, ok, err, panic, ◌>>=◌,
}

-- discovery.KeyValue
pub record KeyValue : Type 0 where
  pub key : Text
  pub value : Text

-- A byte in front of the pieces of what follows it
in_front : ℕ → List Text → List Text
in_front c [] = (c ∷ []) ∷ []
in_front c (p ∷ pieces) = (c ∷ p) ∷ pieces

-- strings.Split(s, sep) for a separator of one byte
unfoldable pub split_by : ℕ → Text → List Text
unfolding in_front
split_by sep [] = [] ∷ []
split_by sep (c ∷ s) = let rest = split_by sep s in if c == sep then [] ∷ rest else in_front c rest

pair_of : Text → Option (Text × Text) → KeyValue
pair_of s none = record { key = s; value = [] }
pair_of s (some (k, v)) = record { key = k; value = v }

pairs_of : Text → Option (Text × Text) → Text × List KeyValue
unfolding pair_of
pairs_of s none = (s, [])
pairs_of s (some (method, rest)) =
    (method, map (λ p. pair_of p (split_first b'=' p)) (split_by b',' rest))

-- `parsePeerDiscovery`
unfoldable pub parse_peer_discovery : Text → Text × List KeyValue
unfolding pairs_of
parse_peer_discovery s = pairs_of s (split_first b':' s)

-- What finds the peers
pub data PeerGetter : Type 0 where
  auto_scaling_group : PeerGetter
  instance_tags : List KeyValue → PeerGetter
  digital_ocean : Text → Text → PeerGetter
  noop : PeerGetter

-- `runOptions`, durations in nanoseconds; the keys for AWS are left out, which nothing reads.
pub record RunOptions : Type 0 where
  pub name : Text
  pub data_dir : Text
  pub host : Text
  pub client_addr : Text
  pub peer_addr : Text
  pub gossip_addr : Text
  pub ca_cert : Text
  pub ca_key : Text
  pub peer_cert : Text
  pub peer_key : Text
  pub server_cert : Text
  pub server_key : Text
  pub bootstrap_addrs : Text
  pub required_cluster_size : ℤ
  pub health_check_interval : ℤ
  pub health_check_timeout : ℤ
  pub peer_discovery : Text
  pub snapshot_backup_url : Text
  pub snapshot_compression : Bool
  pub snapshot_encryption : Bool
  pub snapshot_interval : ℤ
  pub aws_role_session_name : Text
  pub do_access_token : Text
  pub do_spaces_key : Text
  pub do_spaces_secret : Text

digital_ocean_getter : RunOptions → List KeyValue → Result PeerGetter
digital_ocean_getter o [] = err (other (codes "must provide at least 1 tag"))
digital_ocean_getter o (kv ∷ kvs) = ok (digital_ocean o.do_access_token kv.key)

getter_by_method : RunOptions → Text → List KeyValue → Result PeerGetter
unfolding digital_ocean_getter
getter_by_method o method kvs =
    if str_eq method (codes "aws-autoscaling-group")
    then ok auto_scaling_group
    else if str_eq method (codes "ec2-tags")
    then ok (instance_tags kvs)
    else if str_eq method (codes "do-tags")
    then digital_ocean_getter o kvs
    else if str_eq method (codes "k8s-labels")
    then err (other (codes "peer getter not yet implemented"))
    else ok noop

-- `getPeerGetter`, up to the construction of the getter
unfoldable pub get_peer_getter : RunOptions → Result PeerGetter
unfolding getter_by_method
get_peer_getter o =
    let parsed = parse_peer_discovery o.peer_discovery in
    getter_by_method o (to_lower parsed.0) parsed.1

is_many : ℤ → Bool
is_many (pos n) = ltb 1 n
is_many (negsuc n) = false

some_needed : List Text → Result (List Text)
some_needed [] = err (other (codes "bootstrap addresses must be provided"))
some_needed (a ∷ addrs) = ok (a ∷ addrs)

-- `getInitialBootstrapAddrs`, by what the peer getter answers
unfoldable pub get_initial_bootstrap_addrs : RunOptions → Result (List Text) → Result (List Text)
unfolding is_many some_needed
get_initial_bootstrap_addrs o found =
    if not (str_eq o.bootstrap_addrs [])
    then ok (split_by b',' o.bootstrap_addrs)
    else if is_many o.required_cluster_size
    then (do
      addrs ← found
      some_needed (map (λ a. a ++ b':' ∷ format_int (pos default_gossip_port)) addrs))
    else ok []

pub data Snapshotter : Type 0 where
  file_snapshotter : Text → Snapshotter
  amazon_snapshotter : Text → Text → Text → Snapshotter
  digital_ocean_snapshotter : Text → Text → Text → Snapshotter

snapshotter_of : RunOptions → SnapshotUrl → SnapshotType → Snapshotter
snapshotter_of o u file_type = file_snapshotter u.path
snapshotter_of o u s3_type = amazon_snapshotter o.aws_role_session_name u.bucket u.path
snapshotter_of o u spaces_type =
    digital_ocean_snapshotter o.snapshot_backup_url o.do_spaces_key o.do_spaces_secret

-- `getSnapshotProvider`, up to the construction of the snapshotter
unfoldable pub get_snapshot_provider :
    (Text → Result ParsedUrl) → RunOptions → Result (Option Snapshotter)
unfolding snapshotter_of
get_snapshot_provider parse o = if str_eq o.snapshot_backup_url [] then ok none else (do
  u ← parse_snapshot_backup_url parse o.snapshot_backup_url
  ok (some (snapshotter_of o u u.kind)))

-- `appendHosts`: the inner loop continues itself, so it drops nothing.
unfoldable pub append_hosts : List Text → List Text → List Text
append_hosts hosts [] = hosts
append_hosts hosts (h ∷ hs) =
    let skipped = append_hosts hosts hs in
    let added = append_hosts (hosts ++ h ∷ []) hs in if str_eq h [] then skipped else added

-- The hosts that were given, and then the new ones that are not empty, one that was given as well.
pub append_hosts_lem :
    (hosts new : List Text) → append_hosts hosts new ≡ hosts ++ select (λ h. not (str_eq h [])) new
unfolding append_hosts
append_hosts_lem hosts [] = sym (append-nil hosts)
append_hosts_lem hosts (h ∷ hs) = elim (Bool-cases (str_eq h [])) [
  | inl e ↦ rw e (append_hosts_lem hosts hs)
  | inr e ↦ rw e (
      append_hosts_lem (hosts ++ h ∷ []) hs
      ∙ append_assoc hosts (h ∷ []) (select (λ h. not (str_eq h [])) hs))
]
