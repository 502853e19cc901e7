-- ===== src/Netutil.antt =====
-- pkg/netutil/netutil.go: splitting and printing of network addresses.
--
-- What `net` says of an IP address and which interfaces the host has are parameters.
pub mod RoundTrip
mod Tests
use e2d.Prelude.Decimal.{ℤ, pos, parse_int, format_int}
use e2d.Prelude.{
  ℕ, ◌+◌, ◌/◌, Bool, not, ◌&&◌, ◌||◌, Option, none, some, List, [], ◌∷◌, ◌++◌, ◌==◌, if◌then◌else◌,
  any, Text, codes, str_eq, trim_prefix, other, Result, ok, err, ◌>>=◌,
}

-- The text before and after the last occurrence of a byte.
unfoldable pub split_last : ℕ → Text → Option (Text × Text)
split_last c [] = none
split_last c (x ∷ xs) = elim (split_last c xs) [
  | some (before, after) ↦ some (x ∷ before, after)
  | none ↦ if x == c then some ([], xs) else none
]

-- The text before and after the first occurrence of a byte.
unfoldable pub split_first : ℕ → Text → Option (Text × Text)
split_first c [] = none
split_first c (x ∷ xs) = elim (split_first c xs) [
  | some (before, after) ↦ if x == c then some ([], xs) else some (x ∷ before, after)
  | none ↦ if x == c then some ([], xs) else none
]

abbrev pub has_byte : ℕ → Text → Bool
has_byte c = any (λ x. x == c)

abbrev address_error : Text → Result (Text × Text)
address_error why = err (other why)

-- What follows the host in brackets.
after_bracket : Text → Text → Result (Text × Text)
after_bracket host [] = address_error (codes "missing port in address")
after_bracket host (c ∷ port) =
    if c == b':'
    then (if has_byte b':' port
        then address_error (codes "too many colons in address")
        else if has_byte b'[' host || has_byte b'[' port
        then address_error (codes "unexpected '[' in address")
        else if has_byte b']' port
        then address_error (codes "unexpected ']' in address")
        else ok (host, port))
    else address_error (codes "missing port in address")

-- net.SplitHostPort, for a host in brackets: `rest` stands after the opening one.
bracketed : Text → Result (Text × Text)
unfolding split_first after_bracket
bracketed rest = elim (split_first b']' rest) [
  | none ↦ address_error (codes "missing ']' in address")
  | some (host, tail) ↦ after_bracket host tail
]

-- net.SplitHostPort, for a host with no brackets.
plain : Text → Result (Text × Text)
unfolding split_last
plain addr = elim (split_last b':' addr) [
  | none ↦ address_error (codes "missing port in address")
  | some (host, port) ↦
      if has_byte b':' host
      then address_error (codes "too many colons in address")
      else if has_byte b'[' addr
      then address_error (codes "unexpected '[' in address")
      else if has_byte b']' addr
      then address_error (codes "unexpected ']' in address")
      else ok (host, port)
]

unfoldable pub net_split_host_port : Text → Result (Text × Text)
unfolding plain bracketed
net_split_host_port [] = address_error (codes "missing port in address")
net_split_host_port (c ∷ rest) =
    if c == b'['
    then (if has_byte b':' rest
        then bracketed rest
        else address_error (codes "missing port in address"))
    else plain (c ∷ rest)

abbrev pub loopback : Text
loopback = codes "127.0.0.1"

-- The error of `Atoi` is dropped, so the port is what `Atoi` returns beside it.
unfoldable pub split_host_port : Text → Result (Text × ℤ)
split_host_port addr = do
  hp ← net_split_host_port addr
  ok (if str_eq hp.0 [] then loopback else hp.0, (parse_int hp.1).0)

pub record Address : Type 0 where
  pub host : Text
  pub port : ℤ

unfoldable pub address_string : Address → Text
address_string a = a.host ++ b':' ∷ format_int a.port

unfoldable pub parse_addr : Text → Result Address
unfolding split_host_port
parse_addr addr = do hp ← split_host_port addr; ok (record { host = hp.0; port = hp.1 })

-- One entry of `net.InterfaceAddrs`: whether it is an `IPNet`, a loopback address, an IPv4
-- address, and its text.
pub record InterfaceAddr : Type 0 where
  pub is_net : Bool
  pub is_loopback : Bool
  pub is_ipv4 : Bool
  pub text : Text

first_ipv4 : List InterfaceAddr → Result Text
first_ipv4 [] = err (other (codes "cannot detect host IPv4 address"))
first_ipv4 (a ∷ rest) =
    let next = first_ipv4 rest in
    if a.is_net && not a.is_loopback then (if a.is_ipv4 then ok a.text else next) else next

-- What `net` answers about this host and about the texts of addresses.
pub record Net : Type 0 where
  pub interface_addrs : Result (List InterfaceAddr)
  -- net.ParseIP(s).IsUnspecified(), false for what is no address
  pub is_unspecified : Text → Bool
  -- net.ParseIP(s).IsLoopback(), false for what is no address
  pub is_loopback : Text → Bool
  -- net.ParseIP(s).To4() != nil
  pub is_ipv4 : Text → Bool

unfoldable pub is_routable_ipv4 : Net → Text → Bool
is_routable_ipv4 net s = net.is_ipv4 s && not (net.is_loopback s) && not (net.is_unspecified s)

unfoldable pub detect_host_ipv4 : Net → Result Text
unfolding first_ipv4
detect_host_ipv4 net = do addrs ← net.interface_addrs; first_ipv4 addrs

unfoldable pub address_is_unspecified : Net → Address → Bool
address_is_unspecified net a = net.is_unspecified a.host

unfoldable pub fix_unspecified_host_addr : Net → Text → Result Text
unfolding split_host_port
fix_unspecified_host_addr net addr =
    let bare = trim_prefix (codes "https://") (trim_prefix (codes "http://") addr) in
    do
      hp ← split_host_port bare
      (if net.is_unspecified hp.0
          then (do h ← detect_host_ipv4 net; ok (h ++ b':' ∷ format_int hp.1))
          else ok bare)
