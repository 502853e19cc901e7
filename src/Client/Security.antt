-- ===== src/Client/Security.antt =====
-- pkg/client/config.go.
use e2d.Prelude.Decimal.{ℤ, pos}
use e2d.Prelude.{zero, List, Bool, not, ◌||◌, [], if◌then◌else◌, Text, codes, str_eq}

pub record SecurityConfig : Type 0 where
  pub cert_file : Text
  pub key_file : Text
  pub cert_auth : Bool
  pub trusted_ca_file : Text
  pub auto_tls : Bool

unfoldable pub enabled : SecurityConfig → Bool
enabled sc =
    not (str_eq sc.cert_file [])
    || not (str_eq sc.key_file [])
    || sc.cert_auth
    || not (str_eq sc.trusted_ca_file [])
    || sc.auto_tls

unfoldable pub scheme : SecurityConfig → Text
scheme sc = if enabled sc then codes "https" else codes "http"

-- transport.TLSInfo
pub record TlsInfo : Type 0 where
  pub cert_file : Text
  pub key_file : Text
  pub client_cert_auth : Bool
  pub trusted_ca_file : Text

unfoldable pub tls_info : SecurityConfig → TlsInfo
tls_info sc = record {
  cert_file = sc.cert_file;
  key_file = sc.key_file;
  client_cert_auth = sc.cert_auth;
  trusted_ca_file = sc.trusted_ca_file;
}

-- `Config`, its durations in nanoseconds
pub record ClientConfig : Type 0 where
  pub client_urls : List Text
  pub security_config : SecurityConfig
  pub timeout : ℤ
  pub auto_sync_interval : ℤ

two_seconds : ℤ → ℤ
two_seconds (pos zero) = pos 2000000000
two_seconds t = t

-- `Config.validate`
unfoldable pub validate : ClientConfig → ClientConfig
unfolding two_seconds
validate cfg = record cfg { timeout = two_seconds cfg.timeout }
