-- ===== src/Client/Dial.antt =====
-- The construction of a client, its wait for a key and its check of etcd (pkg/client/client.go).
use e2d.Prelude.Decimal.{ℤ}
use e2d.Client.Security.{TlsInfo, tls_info, ClientConfig, validate}
use e2d.Prelude.{
  Bool, ◌||◌, Option, none, some, List, [], ◌∷◌, if◌then◌else◌, Text, Error, Result, ok, err, panic,
  ◌>>=◌,
}

-- crypto/tls and etcd's transport.
pub record Tls : Type 1 where
  pub Settings : Type 0
  pub insecure : Settings
  pub is_empty : TlsInfo → Bool
  pub client_config : TlsInfo → Result Settings

-- What of clientv3.Config depends on the configuration.
pub record DialConfig (Settings : Type 0) : Type 0 where
  pub endpoints : List Text
  pub dial_timeout : ℤ
  pub tls : Settings
  pub auto_sync_interval : ℤ

module _ (tls : Tls) {C : Type 0} (dial : DialConfig tls.Settings → Result C) where
  -- Without certificates the server's is not verified.
  tls_config : TlsInfo → Result tls.Settings
  tls_config info = if tls.is_empty info then ok tls.insecure else tls.client_config info

  -- `New`: the client of etcd with the configuration that it keeps.
  unfoldable pub new_client : ClientConfig → Result (C × ClientConfig)
  unfolding tls_config
  new_client given =
      let cfg = validate given in
      do
        settings ← tls_config (tls_info cfg.security_config)
        c ← dial (record {
          endpoints = cfg.client_urls;
          dial_timeout = cfg.timeout;
          tls = settings;
          auto_sync_interval = cfg.auto_sync_interval;
        })
        ok (c, cfg)

-- What the loop of `MustGet` meets: what a watch sends, by the value of its first event, which is
-- empty at a deletion, or the end of the context.
pub data Seen : Type 0 where
  canceled : Error → Seen
  progress : Seen
  event : Text → Seen
  context_done : Error → Seen

-- The loop of `MustGet` over what it meets; it waits on at the end of the list.
unfoldable pub watch_loop : List Seen → Option (Result Text)
watch_loop [] = none
watch_loop (canceled e ∷ seen) = some (err e)
watch_loop (progress ∷ seen) = watch_loop seen
watch_loop (event v ∷ seen) = some (ok v)
watch_loop (context_done e ∷ seen) = some (err e)

-- `MustGet`, by what `Get` answers once the watch has begun.
unfoldable pub must_get : Result Text → List Seen → Option (Result Text)
unfolding watch_loop
must_get (ok v) seen = some (ok v)
must_get (err e) seen = watch_loop seen
must_get panic seen = some panic

-- `IsHealthy`, by the error of reading a key: a refusal and a compaction are answers of a healthy
-- server.
unfoldable pub is_healthy : (Error → Bool) → (Error → Bool) → Option Error → Option Error
is_healthy is_permission_denied is_grpc_compacted none = none
is_healthy is_permission_denied is_grpc_compacted (some e) =
    if is_permission_denied e || is_grpc_compacted e then none else some e
