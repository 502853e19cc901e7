-- ===== src/Snapshot/Sealed.antt =====
-- What the reader of an encrypted snapshot makes of a stream (pkg/snapshot/util/encrypt.go).
use e2d.Snapshot.Varint.{put_varint, read_varint-put_varint}
use e2d.Snapshot.Streams.{
  Stream, Cipher, check_signature, pipe, read_full, short_error, is_encrypted, peek,
  encrypted_snapshot_header, encrypt, decrypt, new_encrypter_read_closer, new_decrypter_read_closer,
}
use e2d.Prelude.Decimal.{ℤ, pos, max_int64}
use e2d.Prelude.{
  ℕ, zero, suc, ◌≤◌, ◌≡◌, refl, sym, ap, ◌∙◌, ◌≢◌, ◌↔◌, inl, inr, Bool, true, false, false≢true,
  Option, none, some, [], ◌∷◌, ◌++◌, append_assoc, arith, leb, Bool-cases, length, take, drop,
  length-append, take-append, drop-append, take-append-drop, Text, str_eq, str_eq_refl, str_eq_iff,
  Error, eof, ok, err,
}

-- What AES-CTR and HMAC-512_256 are relied on for.
pub record IsCipher (c : Cipher) : Type 0 where
  pub ctr_twice : (key iv t : Text) → c.ctr key iv (c.ctr key iv t) ≡ t
  pub length-ctr : (key iv t : Text) → length (c.ctr key iv t) ≡ length t
  pub length-hmac : (key t : Text) → length (c.hmac key t) ≡ 32

pub read_full-append :
    (n : ℕ) (p s : Text) (fail : Option Error)
    → length p ≡ n
    → read_full n (p ++ s) fail ≡ ok (p, s)
unfolding read_full
read_full-append n p s fail h =
    rw (← h) (ground (arith, length-append p s, take-append p s, drop-append p s))

-- The stream of an encrypted snapshot: the header, the size, the vector, and what follows.
abbrev pub sealed : ℤ → Text → Text → Option Error → Stream
sealed size iv s fail = record {
  text = encrypted_snapshot_header ++ (put_varint size ++ (iv ++ s));
  fail = fail;
  close = none;
}

-- A stream that begins with the header is taken as encrypted, and keeps its bytes.
pub is_encrypted-header :
    (s : Text) (fail close : Option Error)
    → is_encrypted (record { text = encrypted_snapshot_header ++ s; fail = fail; close = close })
      ≡ (record { text = encrypted_snapshot_header ++ s; fail = fail; close = close }, true)
unfolding is_encrypted peek str_eq
is_encrypted-header s fail close =
    rw (read_full-append 10 encrypted_snapshot_header s fail refl) refl

decrypt-body :
    (c : Cipher) (key iv body s : Text) (n : ℕ)
    → length iv ≡ 16
    → length body ≡ n
    → decrypt c key (pos n) (iv ++ (body ++ s)) none
      ≡ check_signature c key (c.ctr key iv body) (read_full 32 s none)
unfolding decrypt
decrypt-body c key iv body s n v b =
    rw (read_full-append 16 iv (body ++ s) none v, ← b, take-append body s, drop-append body s) refl

pub decrypter-sealed :
    (c : Cipher) (key iv body s : Text) (n : ℕ)
    → length iv ≡ 16
    → length body ≡ n
    → n ≤ max_int64
    → new_decrypter_read_closer c (some key) (sealed (pos n) iv (body ++ s) none)
      ≡ pipe (check_signature c key (c.ctr key iv body) (read_full 32 s none))
unfolding new_decrypter_read_closer
decrypter-sealed c key iv body s n v b h =
    rw
      (
        is_encrypted-header (put_varint (pos n) ++ (iv ++ (body ++ s))) none none,
        read_varint-put_varint eof (pos n) (iv ++ (body ++ s)) h,
      )
      (ap pipe (decrypt-body c key iv body s n v b))

take_all : (n : ℕ) (s : Text) → length s ≤ n → (take n s ≡ s) × (drop n s ≡ [])
take_all zero [] h = (refl, refl)
take_all (suc n) [] h = (refl, refl)
take_all zero (x ∷ s) h = absurd (omega arith)
take_all (suc n) (x ∷ s) h =
    let (front, back) = take_all n s (omega arith) in (ap (◌∷◌ x) front, back)

decrypt-cut :
    (c : Cipher) (key iv body : Text) (n : ℕ)
    → length iv ≡ 16
    → length body ≤ n
    → decrypt c key (pos n) (iv ++ body) none ≡ (c.ctr key iv body, some eof)
unfolding decrypt check_signature read_full
decrypt-cut c key iv body n v b =
    let (front, back) = take_all n body b in
    rw (read_full-append 16 iv body none v, front, back) refl

-- An encrypted snapshot with a vector of 16 bytes that ends before its signature, within its data
-- or right after it, is decrypted without an error, whatever the data and the key are: io.EOF from
-- the missing signature ends the stream as the end of the data does.
pub decrypter-cut :
    (c : Cipher) (key iv body : Text) (n : ℕ)
    → length iv ≡ 16
    → length body ≤ n
    → n ≤ max_int64
    → new_decrypter_read_closer c (some key) (sealed (pos n) iv body none)
      ≡ record { text = c.ctr key iv body; fail = none; close = none }
unfolding new_decrypter_read_closer pipe
decrypter-cut c key iv body n v b h =
    rw
      (
        is_encrypted-header (put_varint (pos n) ++ (iv ++ body)) none none,
        read_varint-put_varint eof (pos n) (iv ++ body) h,
      )
      (ap pipe (decrypt-cut c key iv body n v b))

-- Whether a stream ends without an error.
abbrev pub ends : Stream → Bool
ends r = elim r.fail [ none ↦ true | some e ↦ false ]

begins_with : (n : ℕ) (sig s : Text) → length sig ≡ n → take n s ≡ sig → s ≡ sig ++ drop n s
begins_with n sig s h e = sym (take-append-drop n s) ∙ ap (λ t. t ++ drop n s) e

short_fails :
    (c : Cipher) (key plain s : Text)
    → s ≢ []
    → ends (pipe (check_signature c key plain (err (short_error s none)))) ≡ false
unfolding pipe check_signature short_error
short_fails c key plain [] ne = absurd (ne refl)
short_fails c key plain (x ∷ s) ne = refl

accepted :
    (c : Cipher) (key plain s : Text)
    → IsCipher c
    → s ≢ []
    → ends (pipe (check_signature c key plain (read_full 32 s none))) ≡ true
    → (rest : Text) × (s ≡ c.hmac key plain ++ rest)
unfolding read_full check_signature pipe
accepted c key plain s k ne h = elim (Bool-cases (leb 32 (length s))) [
  | inl long ↦ elim (Bool-cases (str_eq (c.hmac key plain) (take 32 s))) [
    | inl same ↦ (
      drop 32 s,
      begins_with 32 (c.hmac key plain) s (k.length-hmac key plain)
          (sym ((str_eq_iff (c.hmac key plain) (take 32 s)).0 same)),
    )
    | inr differs ↦ absurd (false≢true (rw (long, differs) at h))
  ]
  | inr short ↦ absurd (false≢true (sym (short_fails c key plain s ne) ∙ rw short at h))
]

signed :
    (c : Cipher) (key plain rest : Text)
    → IsCipher c
    → check_signature c key plain (read_full 32 (c.hmac key plain ++ rest) none) ≡ (plain, none)
unfolding check_signature
signed c key plain rest k =
    rw
      (
        read_full-append 32 (c.hmac key plain) rest none (k.length-hmac key plain),
        str_eq_refl (c.hmac key plain),
      )
      refl

-- An encrypted snapshot with a vector of 16 bytes, with data of the size that it states and a byte
-- after its data is read without an error exactly if the data is followed by the signature of what
-- it decrypts to, given that a signature has 32 bytes.
pub decrypter-signed :
    (c : Cipher) (key iv body s : Text) (n : ℕ)
    → IsCipher c
    → length iv ≡ 16
    → length body ≡ n
    → n ≤ max_int64
    → s ≢ []
    → (ends (new_decrypter_read_closer c (some key) (sealed (pos n) iv (body ++ s) none)) ≡ true)
      ↔ ((rest : Text) × (s ≡ c.hmac key (c.ctr key iv body) ++ rest))
unfolding pipe
decrypter-signed c key iv body s n k v b h ne = rw (decrypter-sealed c key iv body s n v b h) (
  accepted c key (c.ctr key iv body) s k ne,
  λ p. rw (p.1, signed c key (c.ctr key iv body) p.0 k) refl,
)

-- What was encrypted with its size is decrypted as it was, also when more bytes follow the
-- signature.
pub decrypter-encrypter :
    (c : Cipher) (key iv t junk : Text) (close : Option Error)
    → IsCipher c
    → length iv ≡ 16
    → length t ≤ max_int64
    → new_decrypter_read_closer c (some key) (record {
      text =
          (new_encrypter_read_closer c key iv
            (pos (length t))
            (record { text = t; fail = none; close = close })).text
          ++ junk;
      fail = none;
      close = none;
    })
      ≡ record { text = t; fail = none; close = none }
unfolding new_encrypter_read_closer encrypt pipe
decrypter-encrypter c key iv t junk close k v h =
    ap
      (λ x. new_decrypter_read_closer c (some key) (record { text = x; fail = none; close = none }))
      regroup
    ∙ decrypter-sealed c key iv (c.ctr key iv t) (c.hmac key t ++ junk) (length t) v
        (k.length-ctr key iv t) h
    ∙ rw (k.ctr_twice key iv t, signed c key t junk k) refl
  where
    regroup :
        (encrypted_snapshot_header
            ++ (put_varint (pos (length t)) ++ (iv ++ (c.ctr key iv t ++ c.hmac key t))))
          ++ junk
        ≡ encrypted_snapshot_header
          ++ (put_varint (pos (length t)) ++ (iv ++ (c.ctr key iv t ++ (c.hmac key t ++ junk))))
    regroup = simp append_assoc refl
