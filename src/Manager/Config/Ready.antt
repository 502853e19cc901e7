-- ===== src/Manager/Config/Ready.antt =====
-- What holds of a configuration that `validate` accepts (pkg/manager/config.go).
use e2d.Prelude.Decimal.{ℤ, pos, negsuc}
use e2d.Netutil.{Net, Address, parse_addr, address_string, split_host_port}
use e2d.Client.Security.{scheme}
use e2d.Manager.Gossip.{default_gossip_port}
use e2d.Manager.Config.{
  Config, Env, is_zero, is_many, is_empty, or_duration, or_text, complete_addr, completed, ca_key,
  derived_keys, allowed_size, checked_size, fix_bootstrap_addrs, detect_host, validate,
}
use e2d.Prelude.{
  ℕ, ◌*◌, ◌≡◌, refl, subst, ◌⊎◌, inl, inr, Bool, true, false, not, ◌&&◌, ◌||◌, Option, none, some,
  List, [], ◌∷◌, arith, ◌==◌, Bool-cases, Text, codes, str_eq, Result, ok, err, panic, bind_ok,
  ok_injective, ◌>>=◌,
}

abbrev pub has_key : Option Text → Bool
has_key none = false
has_key (some key) = true

-- A number of nodes that a cluster may be started with
abbrev pub is_cluster_size : ℤ → Bool
is_cluster_size (pos n) = n == 1 || n == 3 || n == 5
is_cluster_size (negsuc n) = false

-- An address that has a port
abbrev pub HasPort : Text → Type 0
HasPort addr = (a : Address) × (addr ≡ address_string a) × (is_zero a.port ≡ false)

-- A configuration that the manager can run with.
pub record IsReady (c : Config) : Type 0 where
  pub size : is_cluster_size c.required_cluster_size ≡ true
  -- more than one node are to be reached by some address
  pub bootstrap : (not (is_many c.required_cluster_size) || not (is_empty c.bootstrap_addrs)) ≡ true
  pub encryption : (not c.snapshot_encryption || has_key c.snapshot_encryption_key) ≡ true
  pub dir : str_eq c.dir [] ≡ false
  pub client_addr : HasPort c.client_addr
  pub client_url : c.client_url ≡ record { scheme = scheme c.client_security; host = c.client_addr }
  pub peer_addr : HasPort c.peer_addr
  pub peer_url : c.peer_url ≡ record { scheme = scheme c.peer_security; host = c.peer_addr }
  pub gossip_addr : HasPort c.gossip_addr
  pub gossip : split_host_port c.gossip_addr ≡ ok (c.gossip_host, c.gossip_port)
  pub bootstrap_timeout : is_zero c.bootstrap_timeout ≡ false
  pub snapshot_interval : is_zero c.snapshot_interval ≡ false
  pub health_check_interval : is_zero c.health_check_interval ≡ false
  pub health_check_timeout : is_zero c.health_check_timeout ≡ false

completed_port :
    (net : Net) (host : Text) (n : ℕ) (a : Address)
    → (n == 0) ≡ false
    → is_zero (completed net host n a).port ≡ false
unfolding completed
completed_port net host n a nz = elim (Bool-cases (is_zero a.port)) [
  | inl e ↦ rw e nz
  | inr e ↦ rw (e, e) refl
]

complete_addr-HasPort :
    (net : Net) (host : Text) (n : ℕ) (addr text : Text)
    → (n == 0) ≡ false
    → complete_addr net host n addr ≡ ok text
    → HasPort text
unfolding complete_addr
complete_addr-HasPort net host n addr text nz h =
    let (a, e, k) = bind_ok (parse_addr addr) _ text h in
    (completed net host n a, cc k, completed_port net host n a nz)

or_duration_set : (d : ℤ) (n : ℕ) → (n == 0) ≡ false → is_zero (or_duration d (pos n)) ≡ false
or_duration_set d n nz = elim (Bool-cases (is_zero d)) [ inl e ↦ rw e nz | inr e ↦ rw (e, e) refl ]

or_text_set : (s : Text) (c : ℕ) (t : Text) → str_eq (or_text s (c ∷ t)) [] ≡ false
unfolding str_eq
or_text_set [] c t = refl
or_text_set (x ∷ s) c t = refl

derived_key :
    (env : Env) (c : Config) (keys : Option Text × Option Text)
    → str_eq c.ca_key_file [] ≡ false
    → derived_keys env c ≡ ok keys
    → has_key keys.1 ≡ true
unfolding derived_keys
derived_key env c keys named h = of_key (ca_key env c.ca_key_file) (rw named at h)
  where
    of_key :
        (m : Result Text)
        → (m >>= (λ key. ok (some key, some key))) ≡ ok keys
        → has_key keys.1 ≡ true
    of_key (ok key) e = cc e
    of_key (err x) e = absurd (cc e)
    of_key panic e = absurd (cc e)

is_size-of : (n m : ℕ) → allowed_size (pos n) ≡ ok m → (m ≡ n) ⊎ (m ≡ 1)
unfolding allowed_size
is_size-of n m h = ground arith

allowed_size-is_cluster_size :
    (z : ℤ) (m : ℕ) → allowed_size z ≡ ok m → is_cluster_size (pos m) ≡ true
unfolding allowed_size
allowed_size-is_cluster_size (pos n) m h = ground arith
allowed_size-is_cluster_size (negsuc n) m h = absurd (cc h)

-- The number of nodes is more than one only if it was given as more than one.
allowed_size-is_many :
    (z : ℤ) (m : ℕ) → allowed_size z ≡ ok m → is_many z ≡ false → is_many (pos m) ≡ false
unfolding allowed_size
allowed_size-is_many (pos n) m h e = ground arith
allowed_size-is_many (negsuc n) m h e = absurd (cc h)

checked_size_lem :
    (c : Config) (addrs : List Text) (m : ℕ)
    → checked_size c addrs ≡ ok m
    → ((c.snapshot_encryption && str_eq c.ca_key_file []) ≡ false)
      × ((is_empty addrs && is_many c.required_cluster_size) ≡ false)
      × (allowed_size c.required_cluster_size ≡ ok m)
unfolding checked_size
checked_size_lem c addrs m h = ground arith

-- A configuration that validate accepts has 1, 3 or 5 nodes, an address to bootstrap from if there
-- is more than one, a key if snapshots are encrypted, addresses with ports, the URLs and the gossip
-- host and port that belong to them, a directory, and intervals that are not zero.
pub validate-IsReady : (env : Env) (c r : Config) → validate env c ≡ ok r → IsReady r
unfolding validate
validate-IsReady env c r h =
    let (addrs, h1, k1) = bind_ok (fix_bootstrap_addrs env.net c.bootstrap_addrs) _ r h in
    let (host, h2, k2) = bind_ok (detect_host env.net c.host) _ r k1 in
    let (client_addr, h3, k3) = bind_ok (complete_addr env.net host 2379 c.client_addr) _ r k2 in
    let (peer_addr, h4, k4) = bind_ok (complete_addr env.net host 2380 c.peer_addr) _ r k3 in
    let (gossip_addr, h5, k5) =
      bind_ok (complete_addr env.net host default_gossip_port c.gossip_addr) _ r k4 in
    let (gossip, h6, k6) = bind_ok (split_host_port gossip_addr) _ r k5 in
    let (keys, h7, k7) = bind_ok (derived_keys env c) _ r k6 in
    let (size, h8, k8) = bind_ok (checked_size c addrs) _ r k7 in
    let (encryption, bootstrap, allowed) = checked_size_lem c addrs size h8 in
    subst IsReady (ok_injective k8) (record {
      size = allowed_size-is_cluster_size c.required_cluster_size size allowed;
      bootstrap = many addrs size bootstrap allowed;
      encryption = keyed keys encryption h7;
      dir = or_text_set c.dir b'd' (codes "ata");
      client_addr = complete_addr-HasPort env.net host 2379 c.client_addr client_addr refl h3;
      client_url = refl;
      peer_addr = complete_addr-HasPort env.net host 2380 c.peer_addr peer_addr refl h4;
      peer_url = refl;
      gossip_addr =
          complete_addr-HasPort env.net host default_gossip_port c.gossip_addr gossip_addr refl h5;
      gossip = h6;
      bootstrap_timeout = or_duration_set c.bootstrap_timeout (30 * 60000000000) refl;
      snapshot_interval = or_duration_set c.snapshot_interval (1 * 60000000000) refl;
      health_check_interval = or_duration_set c.health_check_interval (1 * 60000000000) refl;
      health_check_timeout = or_duration_set c.health_check_timeout (5 * 60000000000) refl;
    })
  where
    many :
        (addrs : List Text) (size : ℕ)
        → (is_empty addrs && is_many c.required_cluster_size) ≡ false
        → allowed_size c.required_cluster_size ≡ ok size
        → (not (is_many (pos size)) || not (is_empty addrs)) ≡ true
    many addrs size e a = elim (Bool-cases (is_many c.required_cluster_size)) [
      | inl m ↦ ground (arith, m, e)
      | inr m ↦ rw (allowed_size-is_many c.required_cluster_size size a m) refl
    ]

    keyed :
        (keys : Option Text × Option Text)
        → (c.snapshot_encryption && str_eq c.ca_key_file []) ≡ false
        → derived_keys env c ≡ ok keys
        → (not c.snapshot_encryption || has_key keys.1) ≡ true
    keyed keys e k = elim (Bool-cases c.snapshot_encryption) [
      | inl on ↦
          let named : str_eq c.ca_key_file [] ≡ false = ground (arith, on, e) in
          rw (on, derived_key env c keys named k) refl
      | inr off ↦ rw off refl
    ]
