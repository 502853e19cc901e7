-- ===== src/E2db/Crypto.antt =====
-- pkg/e2db/crypto/aesgcm.go: the encryption of values.
--
-- AES-GCM and the source of randomness are parameters.
mod Tests
use e2d.Prelude.{
  ℕ, ◌+◌, ◌-◌, ◌≡◌, refl, subst, Bool, false, Option, none, some, ◌++◌, arith, ltb, if◌then◌else◌,
  length, take, drop, length-append, take-append, drop-append, Text, codes, has_prefix,
  has_prefix-append, not_encrypted, malformed_ciphertext, message_auth_failed, Result, ok, err,
  panic, ◌>>=◌,
}

pub record Gcm : Type 0 where
  pub nonce_size : ℕ
  -- io.ReadFull(rand.Reader, nonce) at the n-th draw
  pub nonce : ℕ → Result Text
  pub seal : Text → Text → Text → Text
  pub open_sealed : Text → Text → Text → Option Text

-- What is relied on: a nonce has its size, and what was sealed is opened with its key and nonce.
pub record IsGcm (gcm : Gcm) : Type 0 where
  pub nonce_length : (n : ℕ) (t : Text) → gcm.nonce n ≡ ok t → length t ≡ gcm.nonce_size
  pub opens :
      (key nonce plain : Text) → gcm.open_sealed key nonce (gcm.seal key nonce plain) ≡ some plain

abbrev pub encryption_header : Text
encryption_header = codes "ENCRYPTED:"

unfoldable pub is_encrypted : Text → Bool
is_encrypted d = has_prefix encryption_header d

module _ (gcm : Gcm) where
  -- `Encrypt`, at the n-th draw of randomness. The header comes before nonce|ciphertext|tag.
  unfoldable pub encrypt : ℕ → Text → Text → Result Text
  encrypt n plaintext key = do
    nonce ← gcm.nonce n
    ok (encryption_header ++ (nonce ++ gcm.seal key nonce plaintext))

  opened : Option Text → Result Text
  opened none = err message_auth_failed
  opened (some t) = ok t

  -- `Decrypt`; with no key it dereferences nil once the header was found.
  unfoldable pub decrypt : Text → Option Text → Result Text
  unfolding opened
  decrypt ciphertext none = if is_encrypted ciphertext then panic else err not_encrypted
  decrypt ciphertext (some key) =
      if is_encrypted ciphertext
      then (let sealed = drop (length encryption_header) ciphertext in
          if ltb (length sealed) gcm.nonce_size
          then err malformed_ciphertext
          else opened
              (gcm.open_sealed key (take gcm.nonce_size sealed) (drop gcm.nonce_size sealed)))
      else err not_encrypted

  -- What is no encrypted value is refused, with a key and without one.
  pub decrypt-not_encrypted :
      (t : Text) (key : Option Text) → is_encrypted t ≡ false → decrypt t key ≡ err not_encrypted
  unfolding decrypt
  decrypt-not_encrypted t none h = rw h refl
  decrypt-not_encrypted t (some key) h = rw h refl

decrypt_sealed :
    (gcm : Gcm) (key nonce plain : Text)
    → IsGcm gcm
    → length nonce ≡ gcm.nonce_size
    → decrypt gcm (encryption_header ++ (nonce ++ gcm.seal key nonce plain)) (some key) ≡ ok plain
unfolding decrypt is_encrypted
decrypt_sealed gcm key nonce plain laws h =
    let sealed = gcm.seal key nonce plain in
    let enough : ltb (length (nonce ++ sealed)) (length nonce) ≡ false =
      ground (arith, length-append nonce sealed) in
    rw
      (
        has_prefix-append encryption_header (nonce ++ sealed),
        drop-append encryption_header (nonce ++ sealed),
        ← h,
        enough,
        take-append nonce sealed,
        drop-append nonce sealed,
        laws.opens key nonce plain,
      )
      refl

-- What the encryption of a value returns is decrypted to the value with the same key, given that
-- AES-GCM opens what it sealed and that nonces have their size.
pub decrypt-encrypt :
    (gcm : Gcm) (n : ℕ) (plaintext key ciphertext : Text)
    → IsGcm gcm
    → encrypt gcm n plaintext key ≡ ok ciphertext
    → decrypt gcm ciphertext (some key) ≡ ok plaintext
unfolding encrypt
decrypt-encrypt gcm n plaintext key ciphertext laws h = cases (gcm.nonce n) refl h
  where
    cases :
        (r : Result Text)
        → gcm.nonce n ≡ r
        → (r >>= λ nonce. ok (encryption_header ++ (nonce ++ gcm.seal key nonce plaintext)))
          ≡ ok ciphertext
        → decrypt gcm ciphertext (some key) ≡ ok plaintext
    cases (ok nonce) e q =
        subst (λ (r : Result Text). (r >>= λ c. decrypt gcm c (some key)) ≡ ok plaintext) q
          (decrypt_sealed gcm key nonce plaintext laws (laws.nonce_length n nonce e))
    cases (err x) e q = cc
    cases panic e q = cc
