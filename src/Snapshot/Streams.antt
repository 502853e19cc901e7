-- ===== src/Snapshot/Streams.antt =====
-- pkg/snapshot/util and pkg/snapshot/crypto: compressed and encrypted streams.
--
-- AES-CTR, HMAC and gzip are parameters.
use e2d.Snapshot.Varint.{put_varint, read_varint}
use e2d.Prelude.Decimal.{ℤ, pos, negsuc}
use e2d.Prelude.{
  ℕ, ◌⊎◌, inl, inr, Bool, true, false, Option, none, some, [], ◌∷◌, ◌++◌, ltb, leb, if◌then◌else◌,
  length, take, drop, Text, codes, str_eq, Error, no_encryption_key, message_auth_failed, eof,
  unexpected_eof, Result, ok, err, panic,
}

-- An io.ReadCloser: what is still to be read, the error after it (`none` for the end of the file),
-- which it repeats, and what `Close` returns.
pub record Stream : Type 0 where
  pub text : Text
  pub fail : Option Error
  pub close : Option Error

-- The error that a read at the end gives.
abbrev pub end_error : Option Error → Error
end_error none = eof
end_error (some e) = e

-- The error of io.ReadFull where the stream is too short.
unfoldable pub short_error : Text → Option Error → Error
short_error s (some e) = e
short_error [] none = eof
short_error (c ∷ s) none = unexpected_eof

-- io.ReadFull to a buffer of `n` bytes, from a text with the error after it
unfoldable pub read_full : ℕ → Text → Option Error → Result (Text × Text)
unfolding short_error
read_full n s fail = if leb n (length s) then ok (take n s, drop n s) else err (short_error s fail)

-- The read end of `pipe`, when its function has written a text and returned an error or none: a
-- reader cannot tell io.EOF from a writer that is done.
unfoldable pub pipe : Text × Option Error → Stream
pipe (t, none) = record { text = t; fail = none; close = none }
pipe (t, some eof) = record { text = t; fail = none; close = none }
pipe (t, some e) = record { text = t; fail = some e; close = none }

peeked : Stream → Result (Text × Text) → Stream × Text
peeked r (ok (buf, rest)) = (r, buf)
peeked r (err e) = (record { text = []; fail = r.fail; close = some e }, [])
peeked r panic = (r, [])

-- `peek`: the stream that is left, and the bytes; a stream that is too short has been read.
unfoldable pub peek : ℕ → Stream → Stream × Text
unfolding peeked
peek n r = peeked r (read_full n r.text r.fail)

abbrev pub encrypted_snapshot_header : Text
encrypted_snapshot_header = codes "ENCRYPTED:"

abbrev pub gzip_magic_header : Text
gzip_magic_header = 0x1f ∷ 0x8b ∷ []

-- `isEncrypted`, with the stream that it leaves
unfoldable pub is_encrypted : Stream → Stream × Bool
is_encrypted r =
    let p = peek (length encrypted_snapshot_header) r in (p.0, str_eq p.1 encrypted_snapshot_header)

-- `isCompressed`, with the stream that it leaves
unfoldable pub is_compressed : Stream → Stream × Bool
is_compressed r = let p = peek (length gzip_magic_header) r in (p.0, str_eq p.1 gzip_magic_header)

-- AES-CTR by the key, the initial vector and the data, and HMAC-512_256 by the key and the data.
pub record Cipher : Type 0 where
  pub ctr : Text → Text → Text → Text
  pub hmac : Text → Text → Text

-- `Encrypt`, from a text with the error after it: what is written, and the error that is returned.
unfoldable pub encrypt : Cipher → Text → Text → Text → Option Error → Text × Option Error
encrypt c key iv t none = (iv ++ (c.ctr key iv t ++ c.hmac key t), none)
encrypt c key iv t (some e) = (iv ++ c.ctr key iv t, some e)

-- What io.LimitReader lets through of so many bytes.
abbrev pub limit : ℤ → ℕ
limit (pos n) = n
limit (negsuc n) = 0

unfoldable pub check_signature : Cipher → Text → Text → Result (Text × Text) → Text × Option Error
check_signature c key plain (ok (sig, rest)) =
    if str_eq (c.hmac key plain) sig then (plain, none) else (plain, some message_auth_failed)
check_signature c key plain (err e) = (plain, some e)
check_signature c key plain panic = (plain, none)

-- The copy of `Decrypt`, of `n` bytes: it fails where the stream fails before the limit.
decrypt_body : Cipher → Text → Text → ℕ → Text → Option Error → Text × Option Error
unfolding check_signature
decrypt_body c key iv n s none =
    check_signature c key (c.ctr key iv (take n s)) (read_full 32 (drop n s) none)
decrypt_body c key iv n s (some e) =
    if ltb (length s) n
    then (c.ctr key iv s, some e)
    else check_signature c key (c.ctr key iv (take n s)) (read_full 32 (drop n s) (some e))

decrypt_from : Cipher → Text → ℕ → Option Error → Result (Text × Text) → Text × Option Error
unfolding decrypt_body
decrypt_from c key n fail (ok (iv, s)) = decrypt_body c key iv n s fail
decrypt_from c key n fail (err e) = ([], some e)
decrypt_from c key n fail panic = ([], none)

-- `Decrypt`, from a text with the error after it.
unfoldable pub decrypt : Cipher → Text → ℤ → Text → Option Error → Text × Option Error
unfolding decrypt_from
decrypt c key size s fail = decrypt_from c key (limit size) fail (read_full 16 s fail)

-- `NewEncrypterReadCloser`, with the random initial vector
unfoldable pub new_encrypter_read_closer : Cipher → Text → Text → ℤ → Stream → Stream
unfolding pipe
new_encrypter_read_closer c key iv size r =
    let e = encrypt c key iv r.text r.fail in
    pipe (encrypted_snapshot_header ++ (put_varint size ++ e.0), e.1)

decrypt_sized : Cipher → Text → Option Error → Result (ℤ × Text) → Text × Option Error
decrypt_sized c key fail (ok (size, s)) = decrypt c key size s fail
decrypt_sized c key fail (err e) = ([], some e)
decrypt_sized c key fail panic = ([], none)

after_header : Cipher → Option Text → Option Error → Text → Text × Option Error
unfolding decrypt_sized
after_header c none fail s = ([], some no_encryption_key)
after_header c (some key) fail s = decrypt_sized c key fail (read_varint (end_error fail) s)

decrypter_of : Cipher → Option Text → Stream × Bool → Stream
unfolding pipe after_header
decrypter_of c key (r, false) = r
decrypter_of c key (r, true) =
    pipe (after_header c key r.fail (drop (length encrypted_snapshot_header) r.text))

-- `NewDecrypterReadCloser`; the header that was peeked at is there to be read.
unfoldable pub new_decrypter_read_closer : Cipher → Option Text → Stream → Stream
unfolding decrypter_of
new_decrypter_read_closer c key r = decrypter_of c key (is_encrypted r)

pub data Level : Type 0 where
  no_compression best_compression : Level

-- compress/gzip: what a writer writes for a text that it is given, closed or not, and what a reader
-- makes of a text, or the error of its header with what it leaves unread.
pub record Gzip : Type 0 where
  pub compress : Level → Text → Text
  pub unclosed : Level → Text → Text
  pub reader : Text → Option Error → (Error × Text) ⊎ (Text × Option Error)

-- `newGzipReadCloser`
unfoldable pub gzip_at : Gzip → Level → Text → Option Error → Text × Option Error
gzip_at g level t none = (g.compress level t, none)
gzip_at g level t (some e) = (g.unclosed level t, some e)

abbrev level_for : Bool → Level
level_for true = no_compression
level_for false = best_compression

-- `NewGzipReadCloser`
unfoldable pub new_gzip_read_closer : Gzip → Stream → Stream
unfolding pipe gzip_at
new_gzip_read_closer g r =
    let e = is_encrypted r in pipe (gzip_at g (level_for e.1) e.0.text e.0.fail)

opened : Stream → (Error × Text) ⊎ (Text × Option Error) → Stream
opened r (inl (e, rest)) = record { text = rest; fail = r.fail; close = some e }
opened r (inr (t, fail)) = record { text = t; fail = fail; close = fail }

gunzip_of : Gzip → Stream × Bool → Stream
unfolding opened
gunzip_of g (r, false) = r
gunzip_of g (r, true) = opened r (g.reader r.text r.fail)

-- `NewGunzipReadCloser`
unfoldable pub new_gunzip_read_closer : Gzip → Stream → Stream
unfolding gunzip_of
new_gunzip_read_closer g r = gunzip_of g (is_compressed r)
