-- ===== src/E2db/Key/Hex.antt =====
-- `Hash` loses nothing: it is the value itself in hexadecimal (pkg/e2db/key/key.go).
use mathlib.Core.List.{append_cancel_right}
use e2d.E2db.Key.{hex_digit, hex, hash}
use e2d.E2db.Key.Paths.{IsSegment, has_slash}
use e2d.Prelude.{
  ℕ, ◌/◌, ◌%◌, ◌≤◌, ◌<◌, ◌≡◌, refl, false, [], ◌∷◌, ◌++◌, arith, length, length-append, All, Text,
  str_eq,
}

-- The bytes of a Go string.
abbrev pub IsBytes : Text → Type 0
IsBytes = All (λ b. b < 256)

hex_digit-injective : (m n : ℕ) → m < 16 → n < 16 → hex_digit m ≡ hex_digit n → m ≡ n
unfolding hex_digit
hex_digit-injective m n h k e = ground arith

byte_of_digits :
    (b c : ℕ)
    → b < 256
    → c < 256
    → hex_digit (b / 16) ≡ hex_digit (c / 16)
    → hex_digit (b % 16) ≡ hex_digit (c % 16)
    → b ≡ c
byte_of_digits b c h k p q = omega (
  arith,
  hex_digit-injective (b / 16) (c / 16) (omega arith) (omega arith) p,
  hex_digit-injective (b % 16) (c % 16) (omega arith) (omega arith) q,
)

pub hex-injective : (s t : Text) → IsBytes s → IsBytes t → hex s ≡ hex t → s ≡ t
unfolding hex
hex-injective [] [] h k e = refl
hex-injective [] (c ∷ t) h k e = cc
hex-injective (b ∷ s) [] h k e = cc
hex-injective (b ∷ s) (c ∷ t) h k e =
    cc (byte_of_digits b c h.0 k.0 (cc) (cc), hex-injective s t h.1 k.1 (cc))

pub IsBytes-append : (s t : Text) → IsBytes s → IsBytes t → IsBytes (s ++ t)
IsBytes-append [] t h k = k
IsBytes-append (b ∷ s) t h k = (h.0, IsBytes-append s t h.1 k)

-- What is relied on of the digest: it is made of bytes, and there are some.
pub record IsDigest (sha512 : Text → Text) : Type 0 where
  pub bytes : (s : Text) → IsBytes (sha512 s)
  pub long : (s : Text) → length (sha512 s) ≡ 64

module _ (sha512 : Text → Text) (digest : IsDigest sha512) where
  -- Values of bytes that have the same hash are the same, if the digest of nothing is made of
  -- bytes.
  pub hash-injective : (s t : Text) → IsBytes s → IsBytes t → hash sha512 s ≡ hash sha512 t → s ≡ t
  unfolding hash
  hash-injective s t h k e = append_cancel_right s t (sha512 []) (
      hex-injective (s ++ sha512 []) (t ++ sha512 [])
        (IsBytes-append s (sha512 []) h (digest.bytes []))
        (IsBytes-append t (sha512 []) k (digest.bytes [])) e)

  hex_digit_bounds : (n : ℕ) → n < 16 → 48 ≤ hex_digit n
  unfolding hex_digit
  hex_digit_bounds n h = ground arith

  has_slash-hex : (s : Text) → IsBytes s → has_slash (hex s) ≡ false
  unfolding hex
  has_slash-hex [] h = refl
  has_slash-hex (b ∷ s) h = ground (
    arith,
    hex_digit_bounds (b / 16) (omega arith),
    hex_digit_bounds (b % 16) (omega arith),
    has_slash-hex s h.1,
  )

  hex-IsSegment : (b : ℕ) (s : Text) → IsBytes (b ∷ s) → IsSegment (hex (b ∷ s))
  unfolding hex str_eq
  hex-IsSegment b s h = record {
    named = refl;
    no_slash = has_slash-hex (b ∷ s) h;
    not_dot = ground (arith, hex_digit_bounds (b / 16) (omega arith));
    not_dots = ground (arith, hex_digit_bounds (b / 16) (omega arith));
  }

  -- A hash is one whole step of a path.
  pub hash-IsSegment : (s : Text) → IsBytes s → IsSegment (hash sha512 s)
  unfolding hash
  hash-IsSegment s h =
      cases (s ++ sha512 []) (IsBytes-append s (sha512 []) h (digest.bytes []))
        (omega (arith, length-append s (sha512 []), digest.long []))
    where
      cases : (t : Text) → IsBytes t → 0 < length t → IsSegment (hex t)
      cases [] k lt = absurd (omega arith)
      cases (b ∷ t) k lt = hex-IsSegment b t k
