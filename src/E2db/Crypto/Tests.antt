-- ===== src/E2db/Crypto/Tests.antt =====
-- Encryption with a cipher that hides nothing.
use e2d.E2db.Crypto.{Gcm, IsGcm, encrypt, decrypt, decrypt-encrypt, encryption_header}
use e2d.Prelude.{◌≡◌, refl, some, [], ◌∷◌, ◌++◌, codes, ok}

abbrev clear_gcm : Gcm
clear_gcm = record {
  nonce_size = 2;
  nonce = λ n. ok (7 ∷ 9 ∷ []);
  seal = λ key nonce plain. plain;
  open_sealed = λ key nonce sealed. some sealed;
}

clear_gcm-IsGcm : IsGcm clear_gcm
clear_gcm-IsGcm = record { nonce_length = λ n t h. cc; opens = λ key nonce plain. refl }

decrypt-encrypt_example :
    decrypt clear_gcm (encryption_header ++ (7 ∷ 9 ∷ codes "hello")) (some (codes "key"))
    ≡ ok (codes "hello")
unfolding encrypt
decrypt-encrypt_example =
    decrypt-encrypt clear_gcm 0 (codes "hello") (codes "key")
      (encryption_header ++ (7 ∷ 9 ∷ codes "hello")) clear_gcm-IsGcm refl
