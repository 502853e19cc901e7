-- ===== src/E2db/Db.antt =====
-- pkg/e2db/config.go, codec.go and db.go: the settings of a database, and the codecs of its tables.
--
-- gob and SHA-512/256 are parameters. The client and its namespace are those of etcd.
mod Tests
use e2d.Prelude.Decimal.{ℤ, pos, negsuc}
use e2d.Netutil.{
  Net, Address, parse_addr, address_string, address_is_unspecified, fix_unspecified_host_addr,
  detect_host_ipv4,
}
use e2d.Client.Security.{SecurityConfig, scheme}
use e2d.E2db.Crypto.{Gcm, IsGcm, encrypt, decrypt, decrypt-encrypt}
use e2d.Prelude.{
  ℕ, zero, ◌+◌, ◌-◌, ◌/◌, ◌≡◌, refl, sym, ◌∙◌, Bool, true, false, not, ◌&&◌, ◌||◌, Option, some, [],
  ◌∷◌, ◌++◌, append_assoc, ◌==◌, if◌then◌else◌, length, take, take-append, all, Text, codes, str_eq,
  other, Result, ok, err, bind_ok, ok_injective, ap, str_eq_refl, ◌>>=◌,
}

-- `Config`; its URL is a scheme and a host.
pub record Config : Type 0 where
  pub client_addr : Text
  pub cert_file : Text
  pub key_file : Text
  pub ca_file : Text
  pub namespace : Text
  pub timeout : ℤ
  pub auto_sync_interval : ℤ
  pub secret_key : Text
  pub client_url : Text × Text
  pub key : Option Text
  pub security_config : SecurityConfig

is_set : Text → Bool
is_set s = not (str_eq s [])

-- The security settings: all three files, or none
mtls_config : Config → Result SecurityConfig
unfolding is_set
mtls_config c =
    if is_set c.cert_file || is_set c.key_file || is_set c.ca_file
    then (if is_set c.cert_file && is_set c.key_file && is_set c.ca_file
        then ok (record {
          cert_file = c.cert_file;
          key_file = c.key_file;
          cert_auth = true;
          trusted_ca_file = c.ca_file;
          auto_tls = false;
        })
        else err (
            other
              (codes "must provide all values for mTLS configuration (CertFile,KeyFile,CAFile)")))
    else ok c.security_config

trim_left : Text → Text
trim_left [] = []
trim_left (c ∷ s) = if c == b'/' then trim_left s else c ∷ s

trim_right : Text → Text
trim_right [] = []
trim_right (c ∷ s) = let rest = trim_right s in if c == b'/' && str_eq rest [] then [] else c ∷ rest

-- strings.Trim(s, "/")
unfoldable pub trim_slashes : Text → Text
unfolding trim_left trim_right
trim_slashes s = trim_right (trim_left s)

with_host : Net → Address → Result Address
with_host net a =
    if address_is_unspecified net a
    then (do h ← detect_host_ipv4 net; ok (record a { host = h }))
    else ok a

port_or_default : ℤ → ℤ
port_or_default (pos zero) = pos 2379
port_or_default p = p

with_port : Address → Address
unfolding port_or_default
with_port a = record a { port = port_or_default a.port }

seconds : ℤ → ℤ
seconds (pos zero) = pos 5000000000
seconds d = d

-- `validate`, with SHA-512/256
unfoldable pub validate : (Text → Text) → Net → Config → Result Config
unfolding mtls_config with_host with_port seconds
validate sha net c = do
  addr ← fix_unspecified_host_addr net c.client_addr
  security ← mtls_config c
  a ← parse_addr addr
  b ← with_host net a
  let client_addr = address_string (with_port b)
  ok (record c {
    client_addr = client_addr;
    security_config = security;
    key = if is_set c.secret_key then some (sha c.secret_key) else c.key;
    client_url = (scheme security, client_addr);
    namespace = trim_slashes c.namespace;
    timeout = seconds c.timeout;
  })

-- Without certificates the scheme is that of the settings as they were.
pub validate-scheme :
    (sha : Text → Text) (net : Net) (given c : Config)
    → given.cert_file ≡ []
    → given.key_file ≡ []
    → given.ca_file ≡ []
    → validate sha net given ≡ ok c
    → c.client_url.0 ≡ scheme given.security_config
unfolding validate mtls_config is_set
validate-scheme sha net given c cert key ca h =
    let (addr, h1, k1) = bind_ok (fix_unspecified_host_addr net given.client_addr) _ c h in
    let (security, h2, k2) = bind_ok (mtls_config given) _ c k1 in
    let (a, h3, k3) = bind_ok (parse_addr addr) _ c k2 in
    let (b, h4, k4) = bind_ok (with_host net a) _ c k3 in
    let same : given.security_config ≡ security = ok_injective (sym unset ∙ h2) in
    ap (λ (x : Config). x.client_url.0) (sym (ok_injective k4)) ∙ ap scheme (sym same)
  where
    unset : mtls_config given ≡ ok given.security_config
    unset = rw (cert, key, ca, str_eq_refl []) refl

-- `WithEncryption`: the key of a table. `Sum` puts the digest of nothing, which has 32 bytes, behind
-- the secret, and the first 32 bytes are copied.
unfoldable pub with_encryption : (Text → Text) → Text → Text
with_encryption sha secret = take 32 (secret ++ sha [])

-- gob for values of a type
pub record GobOf {ℓ} (A : Type ℓ) : Type ℓ where
  pub encode : A → Result Text
  pub decode : Text → Result A

module _ {ℓ} {A : Type ℓ} (gob : GobOf A) where
  -- `gobCodec`
  unfoldable pub gob_encode : A → Result Text
  gob_encode x = gob.encode x

  unfoldable pub gob_decode : Text → Result A
  gob_decode text = gob.decode text

  -- `encryptedGobCodec`, at the n-th draw of randomness
  unfoldable pub encrypted_encode : Gcm → ℕ → Text → A → Result Text
  encrypted_encode gcm n key x = do plain ← gob.encode x; encrypt gcm n plain key

  unfoldable pub encrypted_decode : Gcm → Text → Text → Result A
  encrypted_decode gcm key text = do plain ← decrypt gcm text (some key); gob.decode plain

  -- What the encrypting codec has written it reads back as gob reads what gob has written.
  pub encrypted_decode-encrypted_encode :
      (gcm : Gcm) (n : ℕ) (key text : Text) (x : A)
      → IsGcm gcm
      → encrypted_encode gcm n key x ≡ ok text
      → encrypted_decode gcm key text ≡ (gob_encode x >>= gob_decode)
  unfolding encrypted_encode encrypted_decode gob_encode gob_decode
  encrypted_decode-encrypted_encode gcm n key text x laws h =
      let (plain, e, k) = bind_ok (gob.encode x) _ text h in
      rw (e, decrypt-encrypt gcm n plain key text laws k) refl

-- The key of a table with a secret of 32 bytes or more is the beginning of the secret itself, so
-- that secrets which begin with the same 32 bytes give the same key.
pub with_encryption-prefix :
    (sha : Text → Text) (prefix s t : Text)
    → length prefix ≡ 32
    → (with_encryption sha (prefix ++ s) ≡ prefix)
      × (with_encryption sha (prefix ++ s) ≡ with_encryption sha (prefix ++ t))
unfolding with_encryption
with_encryption-prefix sha prefix s t h = (first s, first s ∙ sym (first t))
  where
    first : (u : Text) → take 32 ((prefix ++ u) ++ sha []) ≡ prefix
    first u = rw (append_assoc prefix u (sha []), ← h, take-append prefix (u ++ sha [])) refl
