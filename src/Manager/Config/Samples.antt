-- ===== src/Manager/Config/Samples.antt =====
-- A configuration of a node of three, and what it is filled up to (pkg/manager/config.go).
use e2d.Prelude.Decimal.{pos, parse_int, format_int, format_uint}
use e2d.Netutil.{
  Net, parse_addr, address_string, address_is_unspecified, fix_unspecified_host_addr,
  detect_host_ipv4, split_host_port, net_split_host_port,
}
use e2d.Client.Security.{SecurityConfig, enabled, scheme}
use e2d.Manager.Config.{
  Url, Config, Env, StoredMember, minutes, complete_addr, completed, ca_key, derived_keys,
  checked_size, allowed_size, is_empty, get_existing_name_from_data_dir, validate,
}
use e2d.Prelude.{
  ◌≡◌, refl, true, false, none, some, [], ◌∷◌, codes, str_eq, has_prefix, trim_prefix, ok,
}

abbrev pub net : Net
net = record {
  interface_addrs =
      ok (
        record { is_net = true; is_loopback = false; is_ipv4 = true; text = codes "10.1.1.1" }
        ∷ []);
  is_unspecified = λ s. str_eq s (codes "0.0.0.0");
  is_loopback = λ s. false;
  is_ipv4 = λ s. true;
}

abbrev pub stored : StoredMember
stored = record { name = codes "NODE"; peer_urls = codes "https://10.1.1.1:2380" ∷ [] }

abbrev pub env : Env
env = record {
  net = net;
  read_file = λ path. ok (codes "PEM");
  pem_decode = λ t. some (codes "block");
  pkcs1_error = λ b. none;
  digest = λ b. codes "digest";
  open_members = λ path. ok (some (codes "json" ∷ []));
  unmarshal = λ v. some stored;
  random_name = codes "F00";
}

abbrev pub unset : Url
unset = record { scheme = []; host = [] }

abbrev pub no_security : SecurityConfig
no_security = record {
  cert_file = [];
  key_file = [];
  cert_auth = false;
  trusted_ca_file = [];
  auto_tls = false;
}

abbrev pub with_tls : SecurityConfig
with_tls = record {
  cert_file = codes "c";
  key_file = codes "k";
  cert_auth = true;
  trusted_ca_file = codes "ca";
  auto_tls = false;
}

abbrev pub given : Config
given = record {
  name = [];
  dir = [];
  required_cluster_size = pos 3;
  host = [];
  client_addr = codes "0.0.0.0:2379";
  client_url = unset;
  peer_addr = codes "0.0.0.0:0";
  peer_url = unset;
  gossip_addr = codes "0.0.0.0:";
  gossip_host = [];
  gossip_port = pos 0;
  bootstrap_addrs = codes "10.1.1.2:7980" ∷ [];
  bootstrap_timeout = pos 0;
  snapshot_interval = pos 5;
  snapshot_encryption = true;
  health_check_interval = pos 0;
  health_check_timeout = pos 0;
  client_security = no_security;
  peer_security = with_tls;
  ca_key_file = codes "ca.key";
  gossip_secret_key = none;
  snapshot_encryption_key = none;
}

abbrev pub ready : Config
ready = record given {
  name = codes "NODE";
  dir = codes "data";
  host = codes "10.1.1.1";
  client_addr = codes "10.1.1.1:2379";
  client_url = record { scheme = codes "http"; host = codes "10.1.1.1:2379" };
  peer_addr = codes "10.1.1.1:2380";
  peer_url = record { scheme = codes "https"; host = codes "10.1.1.1:2380" };
  gossip_addr = codes "10.1.1.1:7980";
  gossip_host = codes "10.1.1.1";
  gossip_port = pos 7980;
  bootstrap_timeout = minutes 30;
  health_check_interval = minutes 1;
  health_check_timeout = minutes 5;
  gossip_secret_key = some (codes "digest");
  snapshot_encryption_key = some (codes "digest");
}

pub validated : validate env given ≡ ok ready
unfolding validate fix_unspecified_host_addr detect_host_ipv4 complete_addr parse_addr
    split_host_port net_split_host_port parse_int format_int format_uint address_string
    address_is_unspecified completed derived_keys ca_key checked_size allowed_size is_empty
    get_existing_name_from_data_dir enabled scheme str_eq trim_prefix has_prefix
validated = refl
