-- ===== src/Netutil/Tests.antt =====
-- Addresses as the program meets them.
use e2d.Prelude.Decimal.{pos, parse_int, format_int, format_uint}
use e2d.Netutil.{
  Net, split_host_port, net_split_host_port, address_string, parse_addr, fix_unspecified_host_addr,
  detect_host_ipv4,
}
use e2d.Netutil.RoundTrip.{IsPlainHost, parse_addr-address_string}
use e2d.Prelude.{
  ◌≡◌, refl, true, false, [], ◌∷◌, arith, Text, codes, str_eq, trim_prefix, other, ok, err,
}

splits : split_host_port (codes "10.0.2.15:2379") ≡ ok (codes "10.0.2.15", pos 2379)
unfolding split_host_port net_split_host_port parse_int str_eq
splits = refl

empty_host : split_host_port (codes ":2380") ≡ ok (codes "127.0.0.1", pos 2380)
unfolding split_host_port net_split_host_port parse_int str_eq
empty_host = refl

-- What is no number is port 0.
bad_port : split_host_port (codes "[::1]:x") ≡ ok (codes "::1", pos 0)
unfolding split_host_port net_split_host_port parse_int str_eq
bad_port = refl

no_port : split_host_port (codes "10.0.2.15") ≡ err (other (codes "missing port in address"))
unfolding split_host_port net_split_host_port parse_int str_eq
no_port = refl

abbrev lan : Net
lan = record {
  interface_addrs = ok (
      record { is_net = true; is_loopback = true; is_ipv4 = true; text = loopback_ip }
      ∷ record { is_net = true; is_loopback = false; is_ipv4 = true; text = codes "10.1.1.1" }
      ∷ []);
  is_unspecified = λ s. str_eq s (codes "0.0.0.0");
  is_loopback = λ s. str_eq s loopback_ip;
  is_ipv4 = λ s. true;
}
  where
    loopback_ip : Text
    loopback_ip = codes "127.0.0.1"

fixes_unspecified :
    fix_unspecified_host_addr lan (codes "https://0.0.0.0:7980") ≡ ok (codes "10.1.1.1:7980")
unfolding fix_unspecified_host_addr detect_host_ipv4 net_split_host_port parse_int str_eq
    trim_prefix format_int format_uint
fixes_unspecified = refl

host_is_plain : IsPlainHost (codes "10.0.2.15")
host_is_plain = record { named = λ e. cc e; no_colon = refl; no_open = refl; no_close = refl }

parse_addr-address_string_example :
    parse_addr (address_string (record { host = codes "10.0.2.15"; port = pos 2379 }))
    ≡ ok (record { host = codes "10.0.2.15"; port = pos 2379 })
parse_addr-address_string_example =
    parse_addr-address_string (codes "10.0.2.15") 2379 host_is_plain (omega arith)
