-- ===== src/Prelude/Outcome.antt =====
-- What a Go function that returns `(T, error)`, or panics, comes back with.
use e2d.Prelude.Texts.{Text}
use mathlib.Core.Path.{◌≡◌, refl}

-- The errors of the program by their sentinel; `other` is any error of a library or of
-- `errors.New` and `errors.Errorf`.
pub data Error : Type 0 where
  key_not_found no_rows not_indexed invalid_field field_required invalid_primary_key : Error
  table_not_found unique_constraint no_primary_key not_encrypted malformed_ciphertext : Error
  no_encryption_key message_auth_failed eof unexpected_eof invalid_scheme cannot_parse_url : Error
  cannot_find_member server_stopped deadline : Error
  other : Text → Error

pub data Result {ℓ} (A : Type ℓ) : Type ℓ where
  ok : A → Result A
  err : Error → Result A
  panic : Result A

infixl 5 ◌>>=◌
abbrev pub ◌>>=◌ {ℓ κ} : {A : Type ℓ} {B : Type κ} → Result A → (A → Result B) → Result B
ok a >>= f = f a
err e >>= f = err e
panic >>= f = panic

-- What a chain that succeeded did first.
pub bind_ok {ℓ κ} :
    {A : Type ℓ} {B : Type κ} (m : Result A) (f : A → Result B) (b : B)
    → m >>= f ≡ ok b
    → (a : A) × (m ≡ ok a) × (f a ≡ ok b)
bind_ok (ok a) f b h = (a, refl, h)
bind_ok (err e) f b h = absurd (cc h)
bind_ok panic f b h = absurd (cc h)

pub ok_injective {ℓ} : {A : Type ℓ} {a b : A} → ok a ≡ ok b → a ≡ b
ok_injective e = cc e
