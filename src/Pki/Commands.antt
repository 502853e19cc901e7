-- ===== src/Pki/Commands.antt =====
-- `pki init` and `pki gencerts` of cmd/e2d/app/pki.go.
--
-- The errors of the file system are a parameter, by path.
use e2d.App.{append_hosts, split_by}
use e2d.E2db.Key.{filepath_dir, filepath_join}
use e2d.Netutil.{Net, detect_host_ipv4}
use e2d.Pki.{
  Cfssl, KeyPair, CertificateRequest, server_signing_profile, peer_signing_profile,
  client_signing_profile, new_default_root_ca, new_root_ca_from_file, generate_certificates,
}
use e2d.Prelude.{
  ℕ, Option, none, some, List, [], ◌∷◌, ◌++◌, if◌then◌else◌, Text, codes, str_eq, Error, Result, ok,
  err, panic,
}

-- The file system: the error of making a directory, but that there is one, and of writing a file.
pub record Disk : Type 0 where
  pub make_dir : Text → Option Error
  pub write : Text → Option Error

pub record File : Type 0 where
  pub path : Text
  pub content : Text
  pub mode : ℕ

-- 0644 and 0600
abbrev readable : ℕ
readable = 420

abbrev private_mode : ℕ
private_mode = 384

-- How a command ends: log.Fatal ends the program.
pub data Ending : Type 0 where
  finished crashed : Ending
  fatal : Error → Ending

first_error : Option Error → Option Error → Option Error
first_error (some e) next = some e
first_error none next = next

module _ (disk : Disk) where
  -- `writeFile`
  unfoldable pub write_file : File → Option Error
  unfolding first_error
  write_file f = first_error (disk.make_dir (filepath_dir f.path)) (disk.write f.path)

  -- A file that is written, and the files of what follows, or the error that ends the command.
  unfoldable pub and_file : Option Error → File → List File × Ending → List File × Ending
  and_file (some e) f rest = ([], fatal e)
  and_file none f rest = (f ∷ rest.0, rest.1)

  unfoldable pub after : Option Error → List File × Ending → List File × Ending
  after (some e) rest = ([], fatal e)
  after none rest = rest

pub record PkiOptions : Type 0 where
  pub ca_cert : Text
  pub ca_key : Text
  pub hosts : Text
  pub output_dir : Text

-- `newCertificateRequest`
unfoldable pub new_certificate_request : Text → List Text → CertificateRequest
new_certificate_request common_name hosts = record {
  subject = codes "US" ∷ codes "Boston" ∷ codes "MA" ∷ [];
  key_algorithm = codes "rsa";
  key_size = 2048;
  hosts = hosts;
  common_name = common_name;
}

-- A pair of files that is issued: its name, its signing profile and its request.
pub record Issue : Type 0 where
  pub name : Text
  pub profile : Text
  pub request : CertificateRequest

unfoldable pub issues : List Text → List Issue
issues hosts =
    record {
      name = codes "server";
      profile = server_signing_profile;
      request = new_certificate_request (codes "etcd server") hosts;
    }
    ∷ record {
      name = codes "peer";
      profile = peer_signing_profile;
      request = new_certificate_request (codes "etcd peer") hosts;
    }
    ∷ record {
      name = codes "client";
      profile = client_signing_profile;
      request = new_certificate_request (codes "etcd client") [];
    }
    ∷ []

pub given_hosts : Text → List Text
given_hosts [] = []
given_hosts (c ∷ s) = split_by b',' (c ∷ s)

module _ (lib : Cfssl) (net : Net) (disk : Disk) (o : PkiOptions) where
  abbrev pub crt_file : Issue → KeyPair lib → File
  crt_file i kp = record {
    path = filepath_join (o.output_dir ∷ (i.name ++ codes ".crt") ∷ []);
    content = kp.cert_pem;
    mode = readable;
  }

  abbrev pub key_file : Issue → KeyPair lib → File
  key_file i kp = record {
    path = filepath_join (o.output_dir ∷ (i.name ++ codes ".key") ∷ []);
    content = kp.key_pem;
    mode = private_mode;
  }

  root_files : Result (KeyPair lib) → List File × Ending
  root_files (ok ca) =
      let crt : File = record { path = o.ca_cert; content = ca.cert_pem; mode = readable } in
      let key : File = record { path = o.ca_key; content = ca.key_pem; mode = private_mode } in
      and_file disk (write_file disk crt) crt
        (and_file disk (write_file disk key) key ([], finished))
  root_files (err e) = ([], fatal e)
  root_files panic = ([], crashed)

  -- `pki init`
  unfoldable pub pki_init : List File × Ending
  unfolding root_files
  pki_init =
      after disk (disk.make_dir (filepath_dir o.ca_cert)) (root_files (new_default_root_ca lib))

  -- The two files of a pair, before those of the pairs that follow.
  unfoldable pub issue_one : Issue → Result (KeyPair lib) → List File × Ending → List File × Ending
  unfolding and_file
  issue_one i (ok kp) rest =
      and_file disk (write_file disk (crt_file i kp)) (crt_file i kp)
        (and_file disk (write_file disk (key_file i kp)) (key_file i kp) rest)
  issue_one i (err e) rest = ([], fatal e)
  issue_one i panic rest = ([], crashed)

  unfoldable pub issue_all : KeyPair lib → List Issue → List File × Ending
  unfolding issue_one
  issue_all ca [] = ([], finished)
  issue_all ca (i ∷ is) =
      issue_one i (generate_certificates lib ca i.profile i.request) (issue_all ca is)

  pub output_error : Option Error
  output_error = if str_eq o.output_dir [] then none else disk.make_dir o.output_dir

  unfoldable pub with_host : KeyPair lib → Result Text → List File × Ending
  unfolding output_error given_hosts after
  with_host ca (ok host) =
      after disk output_error
        (issue_all ca (issues (append_hosts (given_hosts o.hosts) (codes "127.0.0.1" ∷ host ∷ []))))
  with_host ca (err e) = ([], fatal e)
  with_host ca panic = ([], crashed)

  unfoldable pub with_root : Result (KeyPair lib) → List File × Ending
  unfolding with_host
  with_root (ok ca) = with_host ca (detect_host_ipv4 net)
  with_root (err e) = ([], fatal e)
  with_root panic = ([], crashed)

  -- `pki gencerts`
  unfoldable pub pki_gencerts : List File × Ending
  unfolding with_root
  pki_gencerts = with_root (new_root_ca_from_file lib o.ca_cert o.ca_key)
