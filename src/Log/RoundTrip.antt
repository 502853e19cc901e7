-- ===== src/Log/RoundTrip.antt =====
-- A string of valid UTF-8 that was logged is read back (pkg/log/encoder.go).
use e2d.Log.Reads.{read-safe_add_from, decode_rune_low}
use e2d.Log.Utf8.{decode_rune, rune_error, any_rune}
use e2d.Log.Escape.{
  try_add_rune_self, try_add_rune_error, step_rune, step_self, step, safe_add_from, safe_add_string,
  append_string, needs_quoted_value_rune,
}
use e2d.Log.Reader.{raw, read_until, read_value, after_quote, is_utf8}
use e2d.Log.Lines.{AreConts, decode_rune-AreConts}
use e2d.Prelude.{
  ℕ, zero, suc, ◌-◌, ◌<◌, ◌≡◌, refl, ap, ◌∙◌, ◌⊎◌, inl, inr, Bool, true, false, ◌&&◌, Option, none,
  some, [], ◌∷◌, ◌++◌, append_assoc, arith, ◌==◌, Bool-cases, any, All, Text, codes,
}

-- A test that holds of an ASCII byte, and of no rune of a string, says that the byte is not there.
any_rune-any :
    (p : ℕ → Bool) (x k : ℕ) (s : Text)
    → x < 128
    → p x ≡ true
    → AreConts k s
    → any_rune p k s ≡ false
    → any (λ c. c == x) s ≡ false
unfolding any_rune
any_rune-any p x k [] lt h d e = refl
any_rune-any p x (suc k) (c ∷ s) lt h d e = ground (arith, any_rune-any p x k s lt h d.1 e, d.0)
any_rune-any p x zero (c ∷ s) lt h d e =
    let rest =
      any_rune-any p x ((decode_rune (c ∷ s)).1 - 1) s lt h (decode_rune-AreConts c s)
        (ground arith) in
    elim (Bool-cases (c == x)) [
      | inl same ↦
          let is_x : c ≡ x = ground arith in
          let low = decode_rune_low c s (ground arith) in
          ground (arith, ap p is_x, ap p (ap (λ r. r.0) low))
      | inr ne ↦ rw (ne, rest) refl
    ]

abbrev begins : Text → Bool
begins [] = false
begins (c ∷ s) = c == b'"'

self-begins :
    (b : ℕ) (t s : Text)
    → try_add_rune_self b ≡ some t
    → (b == b'"') ≡ false
    → begins (t ++ s) ≡ false
unfolding try_add_rune_self
self-begins b t s h e = ground arith

error_two :
    (r : ℕ × ℕ) → (try_add_rune_error r ≡ none) ⊎ (try_add_rune_error r ≡ some (codes "\\ufffd"))
unfolding try_add_rune_error
error_two r = elim (Bool-cases (r.0 == rune_error && r.1 == 1)) [
  | inl h ↦ inr (rw h refl)
  | inr h ↦ inl (rw h refl)
]

step-begins : (c : ℕ) (s u : Text) → (c == b'"') ≡ false → begins ((step c s).0 ++ u) ≡ false
unfolding step step_self step_rune
step-begins c s u h = of_self (try_add_rune_self c) refl
  where
    of_error :
        (o : Option Text)
        → o ≡ none ⊎ o ≡ some (codes "\\ufffd")
        → begins ((step_rune o c (decode_rune (c ∷ s)).1).0 ++ u) ≡ false
    of_error none e = h
    of_error (some t) (inl e) = cc
    of_error (some t) (inr e) = ap (λ o. begins ((step_rune o c (decode_rune (c ∷ s)).1).0 ++ u)) e

    of_self :
        (o : Option Text) → try_add_rune_self c ≡ o → begins ((step_self o c s).0 ++ u) ≡ false
    of_self (some t) e = self-begins c t u e h
    of_self none e =
        of_error (try_add_rune_error (decode_rune (c ∷ s))) (error_two (decode_rune (c ∷ s)))

safe_add_from-begins :
    (s rest : Text)
    → any (λ c. c == b'"') s ≡ false
    → begins rest ≡ false
    → begins (safe_add_from 0 s ++ rest) ≡ false
unfolding safe_add_from
safe_add_from-begins [] rest h e = e
safe_add_from-begins (c ∷ s) rest h e =
    ap begins (append_assoc (step c s).0 (safe_add_from (step c s).1 s) rest)
    ∙ step-begins c s (safe_add_from (step c s).1 s ++ rest) (ground arith)

read_value_bare : (u : Text) → begins u ≡ false → read_value u ≡ read_until b' ' raw u
unfolding read_value read_until
read_value_bare [] h = refl
read_value_bare (c ∷ s) h = ground arith

space : needs_quoted_value_rune b' ' ≡ true
unfolding needs_quoted_value_rune
space = refl

quote : needs_quoted_value_rune b'"' ≡ true
unfolding needs_quoted_value_rune
quote = refl

end_of :
    (rest : Text)
    → (rest ≡ []) ⊎ ((r : Text) × (rest ≡ b' ' ∷ r))
    → (read_until b' ' raw rest ≡ some ([], rest)) × (begins rest ≡ false)
unfolding read_until
end_of rest (inl e) = rw e (refl, refl)
end_of rest (inr (r, e)) = rw e (refl, refl)

-- A string of valid UTF-8 that was logged, with its quotes or without, is read back from the line
-- as it was, up to a space or the end of the line after it.
pub read_value-append_string :
    (s rest : Text)
    → All (λ b. b < 256) s
    → is_utf8 0 s ≡ true
    → (rest ≡ []) ⊎ ((r : Text) × (rest ≡ b' ' ∷ r))
    → read_value (append_string s ++ rest) ≡ some (s, rest)
unfolding append_string safe_add_string read_until read_value after_quote
read_value-append_string s rest b u h = elim (Bool-cases (any_rune needs_quoted_value_rune 0 s)) [
  | inl quoted ↦ rw quoted (
      ap (λ t. after_quote (read_until b'"' raw t))
        (append_assoc (safe_add_from 0 s) (b'"' ∷ []) rest)
      ∙ ap after_quote
          (read-safe_add_from b'"' refl (omega arith) (b'"' ∷ rest) refl 0 s b tt u (inl refl)))
  | inr bare ↦
      let no_space = any_rune-any needs_quoted_value_rune b' ' 0 s (omega arith) space tt bare in
      let no_quote = any_rune-any needs_quoted_value_rune b'"' 0 s (omega arith) quote tt bare in
      let (ends, begins_not) = end_of rest h in
      rw bare (
        read_value_bare (safe_add_from 0 s ++ rest)
          (safe_add_from-begins s rest no_quote begins_not)
        ∙ read-safe_add_from b' ' refl (omega arith) rest ends 0 s b tt u (inr no_space))
]
