-- ===== src/Pki.antt =====
-- pkg/pki/pki.go and cmd/e2d/app/pki.go: the root of a cluster's certificates, and the certificates of
-- its servers, peers and clients.
--
-- cfssl, PEM, X.509, SHA-256 and the file system are parameters. Certificates and keys are PEM texts.
pub mod Commands
pub mod Issued
mod Tests
use e2d.Prelude.{
  ℕ, ◌≡◌, Bool, Option, none, some, List, [], ◌∷◌, Text, codes, str_eq, Error, other, Result, ok,
  err, panic, if◌then◌else◌, ◌>>=◌,
}

abbrev pub client_signing_profile : Text
client_signing_profile = codes "client"

abbrev pub peer_signing_profile : Text
peer_signing_profile = codes "peer"

abbrev pub server_signing_profile : Text
server_signing_profile = codes "server"

-- config.SigningProfile: the hours until a certificate expires, and what it may be used for.
pub record SigningProfile : Type 0 where
  pub expiry : ℕ
  pub usage : List Text

abbrev five_years : ℕ
five_years = 43800

profile_with : List Text → SigningProfile
profile_with usage = record {
  expiry = five_years;
  usage = codes "signing" ∷ codes "key encipherment" ∷ usage;
}

-- `SigningProfiles`; another name has the default profile, which names no usage.
unfoldable pub signing_profile : Text → SigningProfile
unfolding profile_with
signing_profile name =
    if str_eq name client_signing_profile
    then profile_with (codes "client auth" ∷ [])
    else if str_eq name peer_signing_profile
    then profile_with (codes "server auth" ∷ codes "client auth" ∷ [])
    else if str_eq name server_signing_profile
    then profile_with (codes "server auth" ∷ [])
    else record { expiry = five_years; usage = [] }

-- csr.CertificateRequest; country, state, locality and organization are the name.
pub record CertificateRequest : Type 0 where
  pub subject : List Text
  pub key_algorithm : Text
  pub key_size : ℕ
  pub hosts : List Text
  pub common_name : Text

-- The libraries; `Cert` and `Key` are what PEM texts are parsed to.
pub record Cfssl : Type 1 where
  pub Cert : Type 0
  pub Key : Type 0
  pub parse_certificate : Text → Result Cert
  pub parse_private_key : Text → Result Key
  -- a new root: its certificate and its key
  pub init_ca : CertificateRequest → Result (Text × Text)
  -- a request to sign, with a new key
  pub process_request : CertificateRequest → Result (Text × Text)
  -- the error of making a signer, and what it signs a request as under a profile
  pub signer_error : Key → Cert → Option Error
  pub sign : Key → Cert → SigningProfile → Text → Result Text
  pub read_file : Text → Result Text
  -- the subject's public key in the first PEM block, if there is a block
  pub pem_block : Text → Option (Result Text)
  pub sha256 : Text → Text

module _ (lib : Cfssl) where
  -- `KeyPair`
  pub record KeyPair : Type 0 where
    pub cert : lib.Cert
    pub cert_pem : Text
    pub key : lib.Key
    pub key_pem : Text

  unfoldable pub new_key_pair_from_pem : Text → Text → Result KeyPair
  new_key_pair_from_pem cert_pem key_pem = do
    cert ← lib.parse_certificate cert_pem
    key ← lib.parse_private_key key_pem
    ok (record { cert = cert; cert_pem = cert_pem; key = key; key_pem = key_pem })

  -- `NewRootCA`; a root is its key pair, the profiles being those above.
  unfoldable pub new_root_ca : CertificateRequest → Result KeyPair
  new_root_ca cr = do pems ← lib.init_ca cr; new_key_pair_from_pem pems.0 pems.1

  unfoldable pub new_root_ca_from_file : Text → Text → Result KeyPair
  new_root_ca_from_file certpath keypath = do
    cert_pem ← lib.read_file certpath
    key_pem ← lib.read_file keypath
    new_key_pair_from_pem cert_pem key_pem

  unfoldable pub new_default_root_ca : Result KeyPair
  new_default_root_ca = new_root_ca (record {
    subject = codes "US" ∷ codes "Boston" ∷ codes "MA" ∷ codes "Critical Stack" ∷ [];
    key_algorithm = codes "rsa";
    key_size = 2048;
    hosts = [];
    common_name = codes "e2d-ca";
  })

  signed_if : Option Error → Result Text → Result Text
  signed_if (some e) r = err e
  signed_if none r = r

  -- `GenerateCertificates`
  unfoldable pub generate_certificates : KeyPair → Text → CertificateRequest → Result KeyPair
  unfolding signed_if
  generate_certificates ca profile cr = do
    request ← lib.process_request cr
    cert_pem ←
        signed_if (lib.signer_error ca.key ca.cert)
          (lib.sign ca.key ca.cert (signing_profile profile) request.0)
    new_key_pair_from_pem cert_pem request.1

  hashed : Option (Result Text) → Result Text
  hashed none = err (other (codes "cannot parse PEM formatted block"))
  hashed (some (ok key)) = ok (lib.sha256 key)
  hashed (some (err e)) = err e
  hashed (some panic) = panic

  -- `GenerateCertHash`
  unfoldable pub generate_cert_hash : Text → Result Text
  unfolding hashed
  generate_cert_hash path = do data_read ← lib.read_file path; hashed (lib.pem_block data_read)
