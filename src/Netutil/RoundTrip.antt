-- ===== src/Netutil/RoundTrip.antt =====
-- What netutil prints as an address it reads back (pkg/netutil/netutil.go).
use e2d.Prelude.Decimal.{
  pos, format_int, format_uint, format_uint_only, max_int64, parse_int-format_uint,
}
use e2d.Netutil.{split_last, has_byte, net_split_host_port, address_string, parse_addr}
use e2d.Prelude.{
  ℕ, ◌≤◌, ◌≡◌, refl, ◌≢◌, false, none, some, [], ◌∷◌, ◌++◌, arith, Text, str_eq_iff, ok,
}

split_last-append :
    (c : ℕ) (h p : Text) → has_byte c p ≡ false → split_last c (h ++ c ∷ p) ≡ some (h, p)
unfolding split_last
split_last-append c [] p e = rw (split_last-none c p e) (ground arith)
  where
    split_last-none : (d : ℕ) (q : Text) → has_byte d q ≡ false → split_last d q ≡ none
    split_last-none d [] f = refl
    split_last-none d (x ∷ q) f = ground (arith, split_last-none d q)
split_last-append c (x ∷ h) p e = rw (split_last-append c h p e) refl

-- A host that can be printed without brackets.
pub record IsPlainHost (host : Text) : Type 0 where
  pub named : host ≢ []
  pub no_colon : has_byte b':' host ≡ false
  pub no_open : has_byte b'[' host ≡ false
  pub no_close : has_byte b']' host ≡ false

has_byte-append :
    (c : ℕ) (xs ys : Text)
    → has_byte c xs ≡ false
    → has_byte c ys ≡ false
    → has_byte c (xs ++ ys) ≡ false
has_byte-append c [] ys h k = k
has_byte-append c (x ∷ xs) ys h k = ground (arith, has_byte-append c xs ys)

net_split_plain :
    (h p : Text)
    → IsPlainHost h
    → has_byte b':' p ≡ false
    → has_byte b'[' p ≡ false
    → has_byte b']' p ≡ false
    → net_split_host_port (h ++ b':' ∷ p) ≡ ok (h, p)
unfolding net_split_host_port
net_split_plain [] p v c o k = absurd (v.named refl)
net_split_plain (x ∷ h) p v c o k = ground (
  arith,
  split_last-append b':' (x ∷ h) p c,
  has_byte-append b'[' (x ∷ h) (b':' ∷ p),
  has_byte-append b']' (x ∷ h) (b':' ∷ p),
  v.no_colon,
  v.no_open,
  v.no_close,
)

-- An address with a host that needs no brackets and a port that an int64 holds is read back as it
-- was printed.
pub parse_addr-address_string :
    (host : Text) (port : ℕ)
    → IsPlainHost host
    → port ≤ max_int64
    → parse_addr (address_string (record { host = host; port = pos port }))
      ≡ ok (record { host = host; port = pos port })
unfolding parse_addr address_string format_int
parse_addr-address_string host port v h = ground (
  arith,
  net_split_plain host (format_uint port) v (format_uint_only b':' port (omega arith))
      (format_uint_only b'[' port (omega arith)) (format_uint_only b']' port (omega arith)),
  parse_int-format_uint port h,
  str_eq_iff host [],
  v.named,
)
