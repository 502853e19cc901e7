-- ===== src/Snapshot/Restored.antt =====
-- A snapshot that was saved is restored (pkg/manager/manager.go, pkg/snapshot).
use e2d.Snapshot.Varint.{put_varint}
use e2d.Snapshot.Streams.{
  Stream, Cipher, Gzip, pipe, peek, encrypt, is_compressed, encrypted_snapshot_header,
  new_encrypter_read_closer, new_decrypter_read_closer, new_gzip_read_closer,
  new_gunzip_read_closer,
}
use e2d.Snapshot.Sealed.{IsCipher, read_full-append, decrypter-encrypter}
use e2d.Snapshot.Backup.{
  outgoing, incoming, contents, file_save, file_load, file, IsGzip, IsBare, decrypter_bare,
  gunzip_bare, gunzip-compress, gzip_long,
}
use e2d.Prelude.Decimal.{pos, max_int64}
use e2d.Prelude.{
  ℕ, zero, suc, ◌≤◌, ◌≡◌, refl, sym, ap, ◌∙◌, ◌⊎◌, inl, inr, Bool, true, false, Option, none, some,
  [], ◌∷◌, ◌++◌, append-nil, arith, length, drop, Text, codes, str_eq, ok,
}

module _ (g : Gzip) (c : Cipher) (key iv t : Text) (is_gzip : IsGzip g) (is_cipher : IsCipher c)
    (iv_length : length iv ≡ 16) (size : length t ≤ max_int64) (bare : IsBare t) where
  -- What is written for an encrypted snapshot.
  encrypted : Text
  encrypted =
      encrypted_snapshot_header
      ++ (put_varint (pos (length t)) ++ (iv ++ (c.ctr key iv t ++ c.hmac key t)))

  abbrev pub sent : Bool → Bool → Stream
  sent encryption compression = outgoing g c encryption compression key iv (pos (length t)) (file t)

  encrypter_file : new_encrypter_read_closer c key iv (pos (length t)) (file t) ≡ file encrypted
  unfolding new_encrypter_read_closer encrypt pipe encrypted
  encrypter_file = refl

  -- The file is read back, whatever was after the signature.
  decrypted :
      (junk : Text) → new_decrypter_read_closer c (some key) (file (encrypted ++ junk)) ≡ file t
  unfolding new_encrypter_read_closer encrypt pipe encrypted
  decrypted junk = decrypter-encrypter c key iv t junk none is_cipher iv_length size

  encrypted_long : 10 ≤ length encrypted
  unfolding encrypted
  encrypted_long = omega arith

  not_gzip :
      (junk : Text) → new_gunzip_read_closer g (file (encrypted ++ junk)) ≡ file (encrypted ++ junk)
  unfolding new_gunzip_read_closer is_compressed peek str_eq encrypted
  not_gzip junk =
      rw
        (read_full-append 2 (codes "EN")
          ((codes "CRYPTED:"
              ++ (put_varint (pos (length t)) ++ (iv ++ (c.ctr key iv t ++ c.hmac key t))))
            ++ junk)
          none refl)
        refl

  overwritten : (junk : Text) → incoming g c (some key) (file (encrypted ++ junk)) ≡ file t
  unfolding incoming
  overwritten junk = rw (not_gzip junk, decrypted junk) refl

  unpacked :
      (s : Text)
      → 10 ≤ length s
      → new_gunzip_read_closer g (new_gzip_read_closer g (file s)) ≡ file s
  unpacked s h = let (l, e) = gzip_long g s h in rw (e, gunzip-compress g l s is_gzip) refl

  -- What was sent comes back.
  pub returned :
      (encryption compression : Bool)
      → incoming g c (some key) (sent encryption compression) ≡ file t
  unfolding incoming outgoing
  returned true true =
      rw (encrypter_file, unpacked encrypted encrypted_long)
        (ap (λ s. new_decrypter_read_closer c (some key) (file s)) (sym (append-nil encrypted))
          ∙ decrypted [])
  returned true false =
      rw encrypter_file
        (ap (λ s. incoming g c (some key) (file s)) (sym (append-nil encrypted)) ∙ overwritten [])
  returned false true = rw (unpacked t bare.long, decrypter_bare c (some key) t bare) refl
  returned false false = rw (gunzip_bare g t bare, decrypter_bare c (some key) t bare) refl

  pub sent-file :
      (encryption compression : Bool) → (s : Text) × (sent encryption compression ≡ file s)
  unfolding outgoing
  sent-file true true =
      let (l, e) = gzip_long g encrypted encrypted_long in
      (g.compress l encrypted, rw encrypter_file e)
  sent-file true false = (encrypted, encrypter_file)
  sent-file false true = let (l, e) = gzip_long g t bare.long in (g.compress l t, e)
  sent-file false false = (t, refl)

  drop_all : (n : ℕ) (s : Text) → length s ≤ n → drop n s ≡ []
  drop_all zero [] h = refl
  drop_all (suc n) [] h = refl
  drop_all zero (x ∷ s) h = absurd (omega arith)
  drop_all (suc n) (x ∷ s) h = drop_all n s (omega arith)

  -- A snapshot that is saved to a file, with or without encryption and compression, is restored
  -- from it as it was, if the file was not longer before or the snapshot is encrypted and not
  -- compressed. The snapshot is a text of ten bytes or more with neither header, and of a length
  -- that an int64 holds, which is the size that is given with it; the vector has 16 bytes, and
  -- AES-CTR, HMAC and gzip do what is relied on.
  pub restored-saved :
      (encryption compression : Bool) (old : Option Text)
      → (length (contents old) ≤ length (sent encryption compression).text)
        ⊎ ((encryption ≡ true) × (compression ≡ false))
      → (r : Stream) × (file_load (file_save none old (sent encryption compression)).0 ≡ ok r)
        × (incoming g c (some key) r ≡ file t)
  unfolding file_load file_save outgoing new_encrypter_read_closer
  restored-saved encryption compression old (inl fits) =
      let (s, e) = sent-file encryption compression in
      let covered =
        ap (λ x. (sent encryption compression).text ++ x)
          (drop_all (length (sent encryption compression).text) (contents old) fits)
        ∙ append-nil (sent encryption compression).text
        ∙ ap (λ r. r.text) e in
      (
        file s,
        ap (λ x. ok (file x)) covered,
        ap (incoming g c (some key)) (sym e) ∙ returned encryption compression,
      )
  restored-saved encryption compression old (inr (e, k)) = (
    file (encrypted ++ drop (length encrypted) (contents old)),
    rw (e, k) (ap (λ r. ok (file (r.text ++ drop (length r.text) (contents old)))) encrypter_file),
    overwritten (drop (length encrypted) (contents old)),
  )
