-- ===== src/Pki/Issued.antt =====
-- What `pki gencerts` has written when it ends (cmd/e2d/app/pki.go).
use e2d.App.{append_hosts, append_hosts_lem}
use e2d.E2db.Key.{filepath_join}
use e2d.Netutil.{Net, detect_host_ipv4}
use e2d.Pki.{Cfssl, KeyPair, CertificateRequest, new_root_ca_from_file, generate_certificates}
use e2d.Pki.Commands.{
  Disk, File, write_file, Ending, finished, and_file, after, PkiOptions, Issue, issues, given_hosts,
  new_certificate_request, crt_file, key_file, issue_one, issue_all, output_error, with_host,
  with_root, pki_gencerts,
}
use e2d.Prelude.{
  ◌≡◌, refl, sym, ap, ◌∙◌, subst, ℕ, ◌++◌, not, select, str_eq, Option, none, some, List, [], ◌∷◌,
  Text, codes, Error, Result, ok, err, panic,
}

module _ (lib : Cfssl) (net : Net) (disk : Disk) (o : PkiOptions) where
  -- The files of some pairs, in order: each pair is generated from the root under the profile and for
  -- the request of its issue.
  abbrev pub IsIssued : KeyPair lib → List Issue → List File → Type 0
  IsIssued ca [] files = files ≡ []
  IsIssued ca (i ∷ is) files =
      (kp : KeyPair lib) × (rest : List File) × (generate_certificates lib ca i.profile i.request
        ≡ ok kp)
      × (files ≡ crt_file lib net disk o i kp ∷ key_file lib net disk o i kp ∷ rest)
      × IsIssued ca is rest

  and_file_finished :
      (e : Option Error) (f : File) (rest : List File × Ending)
      → (and_file disk e f rest).1 ≡ finished
      → ((and_file disk e f rest).0 ≡ f ∷ rest.0) × (rest.1 ≡ finished)
  unfolding and_file
  and_file_finished none f rest h = (refl, h)
  and_file_finished (some e) f rest h = cc

  after_finished :
      (e : Option Error) (rest : List File × Ending)
      → (after disk e rest).1 ≡ finished
      → after disk e rest ≡ rest
  unfolding after
  after_finished none rest h = refl
  after_finished (some e) rest h = cc

  issue_one-IsIssued :
      (ca : KeyPair lib) (i : Issue) (is : List Issue) (r : Result (KeyPair lib))
      (rest : List File × Ending)
      → generate_certificates lib ca i.profile i.request ≡ r
      → (issue_one lib net disk o i r rest).1 ≡ finished
      → (rest.1 ≡ finished → IsIssued ca is rest.0)
      → IsIssued ca (i ∷ is) (issue_one lib net disk o i r rest).0
  unfolding issue_one
  issue_one-IsIssued ca i is (ok kp) rest e h k =
      let crt = crt_file lib net disk o i kp in
      let key = key_file lib net disk o i kp in
      let inner = and_file disk (write_file disk key) key rest in
      let a = and_file_finished (write_file disk crt) crt inner h in
      let b = and_file_finished (write_file disk key) key rest a.1 in
      (kp, rest.0, e, a.0 ∙ ap (λ fs. crt ∷ fs) b.0, k b.1)
  issue_one-IsIssued ca i is (err x) rest e h k = cc
  issue_one-IsIssued ca i is panic rest e h k = cc

  issue_all-IsIssued :
      (ca : KeyPair lib) (is : List Issue)
      → (issue_all lib net disk o ca is).1 ≡ finished
      → IsIssued ca is (issue_all lib net disk o ca is).0
  unfolding issue_all
  issue_all-IsIssued ca [] h = refl
  issue_all-IsIssued ca (i ∷ is) h =
      issue_one-IsIssued ca i is (generate_certificates lib ca i.profile i.request)
        (issue_all lib net disk o ca is) refl h (issue_all-IsIssued ca is)

  abbrev pub AllIssued : List File → Type 0
  AllIssued files =
      (ca : KeyPair lib) × (host : Text) × (new_root_ca_from_file lib o.ca_cert o.ca_key ≡ ok ca)
      × (detect_host_ipv4 net ≡ ok host)
      × IsIssued ca (issues (append_hosts (given_hosts o.hosts) (codes "127.0.0.1" ∷ host ∷ [])))
          files

  with_host-AllIssued :
      (ca : KeyPair lib) (r : Result Text)
      → new_root_ca_from_file lib o.ca_cert o.ca_key ≡ ok ca
      → detect_host_ipv4 net ≡ r
      → (with_host lib net disk o ca r).1 ≡ finished
      → AllIssued (with_host lib net disk o ca r).0
  unfolding with_host
  with_host-AllIssued ca (ok host) root found h =
      let is = issues (append_hosts (given_hosts o.hosts) (codes "127.0.0.1" ∷ host ∷ [])) in
      let same = after_finished (output_error lib net disk o) (issue_all lib net disk o ca is) h in
      (
        ca,
        host,
        root,
        found,
        subst (λ (r : List File × Ending). IsIssued ca is r.0) (sym same)
            (issue_all-IsIssued ca is (sym (ap (λ (r : List File × Ending). r.1) same) ∙ h)),
      )
  with_host-AllIssued ca (err e) root found h = cc
  with_host-AllIssued ca panic root found h = cc

  with_root-AllIssued :
      (r : Result (KeyPair lib))
      → new_root_ca_from_file lib o.ca_cert o.ca_key ≡ r
      → (with_root lib net disk o r).1 ≡ finished
      → AllIssued (with_root lib net disk o r).0
  unfolding with_root
  with_root-AllIssued (ok ca) root h = with_host-AllIssued ca (detect_host_ipv4 net) root refl h
  with_root-AllIssued (err e) root h = cc
  with_root-AllIssued panic root h = cc

  -- A certificate request for a name and some hosts
  abbrev pub request : Text → List Text → CertificateRequest
  request name hosts = record {
    subject = codes "US" ∷ codes "Boston" ∷ codes "MA" ∷ [];
    key_algorithm = codes "rsa";
    key_size = 2048;
    hosts = hosts;
    common_name = name;
  }

  -- A file in the output directory, with its mode
  abbrev pub output : Text → Text → ℕ → File
  output name content mode = record {
    path = filepath_join (o.output_dir ∷ name ∷ []);
    content = content;
    mode = mode;
  }

  -- The six files, of certificates and keys that were generated from a root
  abbrev pub AreThePairs : KeyPair lib → List Text → List File → Type 0
  AreThePairs ca hosts files =
      (server : KeyPair lib) × (peer : KeyPair lib) × (client : KeyPair lib)
      × (generate_certificates lib ca (codes "server") (request (codes "etcd server") hosts)
          ≡ ok server)
      × (generate_certificates lib ca (codes "peer") (request (codes "etcd peer") hosts) ≡ ok peer)
      × (generate_certificates lib ca (codes "client") (request (codes "etcd client") [])
          ≡ ok client)
      × (files
          ≡ output (codes "server.crt") server.cert_pem 420
            ∷ output (codes "server.key") server.key_pem 384
            ∷ output (codes "peer.crt") peer.cert_pem 420
            ∷ output (codes "peer.key") peer.key_pem 384
            ∷ output (codes "client.crt") client.cert_pem 420
            ∷ output (codes "client.key") client.key_pem 384
            ∷ [])

  pairs_lem :
      (ca : KeyPair lib) (hosts : List Text) (files : List File)
      → IsIssued ca (issues hosts) files
      → AreThePairs ca hosts files
  unfolding issues new_certificate_request
  pairs_lem ca hosts files (s, r, gs, fs, (p, r', gp, fp, (c, r'', gc, fc, e))) = (
    s,
    p,
    c,
    gs,
    gp,
    gc,
    fs
        ∙ ap
            (λ x.
              output (codes "server.crt") s.cert_pem 420
              ∷ output (codes "server.key") s.key_pem 384
              ∷ x)
            (fp
              ∙ ap
                  (λ x.
                    output (codes "peer.crt") p.cert_pem 420
                    ∷ output (codes "peer.key") p.key_pem 384
                    ∷ x)
                  (fc
                    ∙ ap
                        (λ x.
                          output (codes "client.crt") c.cert_pem 420
                          ∷ output (codes "client.key") c.key_pem 384
                          ∷ x)
                        e)),
  )

  -- What `pki gencerts` has written
  abbrev pub AllWritten : List File → Type 0
  AllWritten files =
      (ca : KeyPair lib) × (host : Text) × (new_root_ca_from_file lib o.ca_cert o.ca_key ≡ ok ca)
      × (detect_host_ipv4 net ≡ ok host)
      × AreThePairs ca
          (given_hosts o.hosts ++ select (λ h. not (str_eq h [])) (codes "127.0.0.1" ∷ host ∷ []))
          files

  -- When `pki gencerts` ends without an error it has written server.crt, server.key, peer.crt, peer.key,
  -- client.crt and client.key in the output directory, in this order and no other file, the keys for
  -- their owner only: each pair is generated from the root in the files that were given, under the
  -- profile of its name, those of the server and the peer for the given hosts, the loopback address and
  -- the address of this host, that of the client for no host.
  pub pki_gencerts-AllIssued :
      (pki_gencerts lib net disk o).1 ≡ finished → AllWritten (pki_gencerts lib net disk o).0
  unfolding pki_gencerts
  pki_gencerts-AllIssued h =
      let (ca, host, root, found, all) =
        with_root-AllIssued (new_root_ca_from_file lib o.ca_cert o.ca_key) refl h in
      let hosts = append_hosts_lem (given_hosts o.hosts) (codes "127.0.0.1" ∷ host ∷ []) in
      let files = (pki_gencerts lib net disk o).0 in
      (
        ca,
        host,
        root,
        found,
        subst (λ hs. AreThePairs ca hs files) hosts (pairs_lem ca _ files all),
      )
