-- ===== src/Log/Reads.antt =====
-- What an escaped string is read back as (pkg/log/encoder.go).
use e2d.Log.Utf8.{decode_rune, rune_error}
use e2d.Log.Escape.{
  hex_digit, try_add_rune_self, try_add_rune_error, step_rune, step_self, step, safe_add_from,
}
use e2d.Log.Reader.{raw, cons, reveal, hex_value, read_until, is_utf8}
use e2d.Log.Lines.{AreConts, decode_rune-AreConts}
use e2d.Prelude.{
  ℕ, zero, suc, ◌+◌, ◌-◌, ◌*◌, ◌/◌, ◌%◌, ◌≤◌, ◌<◌, ◌≡◌, refl, ap, ◌∙◌, ◌⊎◌, inl, inr, true, false,
  not, ◌&&◌, Option, none, some, [], ◌∷◌, ◌++◌, append_assoc, arith, ◌==◌, any, All, Text,
}

hex_value-hex_digit : (n : ℕ) → n < 16 → hex_value (hex_digit n) ≡ some n
unfolding hex_value hex_digit
hex_value-hex_digit n h = ground arith

module _ (stop : ℕ) (s : Text) (other : (b'\\' == stop) ≡ false) where
  read_plain :
      (b : ℕ)
      → (b == stop) ≡ false
      → (b == b'\\') ≡ false
      → read_until stop raw (b ∷ s) ≡ cons b (read_until stop raw s)
  unfolding read_until
  read_plain b h k = ground arith

  read_slash :
      (x d : ℕ)
      → (x == b'u') ≡ false
      → reveal x ≡ some d
      → read_until stop raw (b'\\' ∷ x ∷ s) ≡ cons d (read_until stop raw s)
  unfolding read_until
  read_slash x d h k = ground arith

  read_hex :
      (b : ℕ)
      → b < 256
      → read_until stop raw
          (b'\\' ∷ b'u' ∷ b'0' ∷ b'0' ∷ hex_digit (b / 16) ∷ hex_digit (b % 16) ∷ s)
        ≡ cons b (read_until stop raw s)
  unfolding read_until hex_value
  read_hex b h =
      let value : b / 16 * 16 + b % 16 ≡ b = omega arith in
      ground (
        arith,
        hex_value-hex_digit (b / 16) (omega arith),
        hex_value-hex_digit (b % 16) (omega arith),
      )

  read_self :
      (b : ℕ) (t : Text)
      → b < 256
      → try_add_rune_self b ≡ some t
      → (b ≡ stop → stop ≡ b'"')
      → read_until stop raw (t ++ s) ≡ cons b (read_until stop raw s)
  unfolding try_add_rune_self reveal
  read_self b t lt h c = ground (
    arith,
    read_plain b,
    read_slash b b,
    read_slash b'n' 10,
    read_slash b'r' 13,
    read_slash b't' 9,
    read_hex b lt,
  )

self_some : (b : ℕ) (t : Text) → try_add_rune_self b ≡ some t → b < 128
unfolding try_add_rune_self
self_some b t h = ground arith

self_none : (b : ℕ) → try_add_rune_self b ≡ none → 128 ≤ b
unfolding try_add_rune_self
self_none b h = ground arith

pub decode_rune_low : (c : ℕ) (s : Text) → c < 128 → decode_rune (c ∷ s) ≡ (c, 1)
unfolding decode_rune
decode_rune_low c s h = ground arith

-- Not a byte that begins no rune.
no_error : (r : ℕ × ℕ) → not (r.0 == rune_error && r.1 == 1) ≡ true → try_add_rune_error r ≡ none
unfolding try_add_rune_error
no_error r h = ground arith

abbrev Lacks : ℕ → Text → Type 0
Lacks stop s = (stop ≡ b'"') ⊎ (any (λ x. x == stop) s ≡ false)

Lacks-tail : (stop c : ℕ) (s : Text) → Lacks stop (c ∷ s) → Lacks stop s
Lacks-tail stop c s (inl e) = inl e
Lacks-tail stop c s (inr e) = inr (ground arith)

Lacks-head : (stop c : ℕ) (s : Text) → Lacks stop (c ∷ s) → c ≡ stop → stop ≡ b'"'
Lacks-head stop c s (inl e) h = e
Lacks-head stop c s (inr e) h = ground arith

module _ (stop : ℕ) (other : (b'\\' == stop) ≡ false) (ascii : stop < 128) (rest : Text)
    (ends : read_until stop raw rest ≡ some ([], rest)) where
  pub read-safe_add_from :
      (k : ℕ) (s : Text)
      → All (λ b. b < 256) s
      → AreConts k s
      → is_utf8 k s ≡ true
      → Lacks stop s
      → read_until stop raw (safe_add_from k s ++ rest) ≡ some (s, rest)
  unfolding safe_add_from step step_self step_rune is_utf8
  read-safe_add_from k [] b d u l = ends
  read-safe_add_from (suc k) (c ∷ s) b d u l =
      read_plain stop (safe_add_from k s ++ rest) other c (ground arith) (ground arith)
      ∙ ap (cons c) (read-safe_add_from k s b.1 d.1 u (Lacks-tail stop c s l))
  read-safe_add_from zero (c ∷ s) b d u l =
      of_self (try_add_rune_self c) refl
        (λ k conts valid. read-safe_add_from k s b.1 conts valid (Lacks-tail stop c s l))
    where
      Rest : Type 0
      Rest =
          (k : ℕ)
          → AreConts k s
          → is_utf8 k s ≡ true
          → read_until stop raw (safe_add_from k s ++ rest) ≡ some (s, rest)

      after_ascii : decode_rune (c ∷ s) ≡ (c, 1) → is_utf8 0 s ≡ true
      after_ascii e =
          let u' : (not (c == rune_error && 1 == 1) && is_utf8 (1 - 1) s) ≡ true = rw e at u in
          ground arith

      of_rune :
          (o : Option Text)
          → o ≡ none
          → 128 ≤ c
          → Rest
          → read_until stop raw (
              ((step_rune o c (decode_rune (c ∷ s)).1).0
                ++ safe_add_from (step_rune o c (decode_rune (c ∷ s)).1).1 s)
              ++ rest)
            ≡ some (c ∷ s, rest)
      of_rune (some t) e h ih = cc
      of_rune none e h ih =
          read_plain stop (safe_add_from ((decode_rune (c ∷ s)).1 - 1) s ++ rest) other c
            (ground arith) (ground arith)
          ∙ ap (cons c) (ih ((decode_rune (c ∷ s)).1 - 1) (decode_rune-AreConts c s) (ground arith))

      of_self :
          (o : Option Text)
          → try_add_rune_self c ≡ o
          → Rest
          → read_until stop raw
              (((step_self o c s).0 ++ safe_add_from (step_self o c s).1 s) ++ rest)
            ≡ some (c ∷ s, rest)
      of_self (some t) e ih =
          ap (read_until stop raw) (append_assoc t (safe_add_from 0 s) rest)
          ∙ read_self stop (safe_add_from 0 s ++ rest) other c t b.0 e (Lacks-head stop c s l)
          ∙ ap (cons c) (ih 0 tt (after_ascii (decode_rune_low c s (self_some c t e))))
      of_self none e ih =
          of_rune (try_add_rune_error (decode_rune (c ∷ s)))
            (no_error (decode_rune (c ∷ s)) (ground arith)) (self_none c e) ih
