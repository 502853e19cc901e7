-- ===== src/Pki/Tests.antt =====
-- Certificates of a library that writes what it signs.
use e2d.Netutil.{Net}
use e2d.Pki.{Cfssl, signing_profile}
use e2d.Pki.Commands.{Disk, File, finished, fatal, PkiOptions, pki_gencerts, pki_init}
use e2d.Pki.Issued.{AllWritten, pki_gencerts-AllIssued}
use e2d.Prelude.{◌≡◌, refl, true, false, none, [], ◌∷◌, ◌++◌, map, Text, codes, str_eq, ok}

abbrev lib : Cfssl
lib = record {
  Cert = Text;
  Key = Text;
  parse_certificate = λ t. ok t;
  parse_private_key = λ t. ok t;
  init_ca = λ cr. ok (codes "CA", codes "CAKEY");
  process_request = λ cr. ok (cr.common_name, codes "KEY");
  signer_error = λ key cert. none;
  sign = λ key cert profile request. ok (cert ++ b':' ∷ request);
  read_file = λ path. ok path;
  pem_block = λ t. none;
  sha256 = λ t. t;
}

abbrev net : Net
net = record {
  interface_addrs =
      ok (
        record { is_net = true; is_loopback = false; is_ipv4 = true; text = codes "10.0.0.1" }
        ∷ []);
  is_unspecified = λ s. false;
  is_loopback = λ s. false;
  is_ipv4 = λ s. true;
}

abbrev disk : Disk
disk = record { make_dir = λ path. none; write = λ path. none }

abbrev options : PkiOptions
options = record {
  ca_cert = codes "pki/ca.crt";
  ca_key = codes "pki/ca.key";
  hosts = codes "a,b";
  output_dir = codes "pki";
}

all_written : (pki_gencerts lib net disk options).1 ≡ finished
unfolding pki_gencerts e2d.Pki.new_root_ca_from_file e2d.Pki.new_key_pair_from_pem
    e2d.Netutil.detect_host_ipv4 str_eq e2d.Pki.Commands.issue_all e2d.Pki.Commands.issues
    e2d.Pki.generate_certificates e2d.Pki.Commands.write_file
all_written = refl

the_paths :
    map (λ (f : File). f.path) (pki_gencerts lib net disk options).0
    ≡ codes "pki/server.crt"
      ∷ codes "pki/server.key"
      ∷ codes "pki/peer.crt"
      ∷ codes "pki/peer.key"
      ∷ codes "pki/client.crt"
      ∷ codes "pki/client.key"
      ∷ []
unfolding pki_gencerts e2d.Pki.new_root_ca_from_file e2d.Pki.new_key_pair_from_pem
    e2d.Netutil.detect_host_ipv4 str_eq e2d.Pki.Commands.issue_all e2d.Pki.Commands.issues
    e2d.Pki.generate_certificates e2d.Pki.Commands.write_file e2d.E2db.Key.filepath_join
    e2d.E2db.Key.clean e2d.E2db.Key.resolve e2d.E2db.Key.split_slash e2d.E2db.Key.join_slash
the_paths = refl

pki_gencerts-AllIssued_example :
    AllWritten lib net disk options (pki_gencerts lib net disk options).0
pki_gencerts-AllIssued_example = pki_gencerts-AllIssued lib net disk options all_written
