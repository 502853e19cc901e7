-- ===== src/Log/Lines.antt =====
-- What bytes an escaped string holds.
use e2d.Log.Utf8.{rune_self, decode_rune, bad, lead, wide, is_between}
use e2d.Log.Escape.{
  hex_digit, try_add_rune_self, try_add_rune_error, step_rune, step_self, step, safe_add_from,
  safe_add_string, append_string,
}
use e2d.Prelude.{
  ℕ, zero, suc, ◌+◌, ◌-◌, ◌*◌, ◌/◌, ◌%◌, ◌≤◌, ◌<◌, ◌≡◌, refl, inl, inr, Bool, true, false, ◌&&◌,
  ◌||◌, Option, none, some, [], ◌∷◌, arith, ltb, leb, ◌==◌, if◌then◌else◌, Bool-cases, all,
  all-append, Text,
}

-- No byte below the space but the escape character of console colours.
abbrev pub is_shown : ℕ → Bool
is_shown b = leb 32 b || b == 27

-- The bytes after the first of a rune: the first `k` of a string are none of ASCII.
abbrev pub AreConts : ℕ → Text → Type 0
AreConts zero s = Unit
AreConts (suc k) [] = Unit
AreConts (suc k) (c ∷ s) = (128 ≤ c) × AreConts k s

-- The bytes after the first of the rune that was decoded.
abbrev Conts : ℕ × ℕ → Text → Type 0
Conts r s = AreConts (r.1 - 1) s

test-Conts :
    (b : Bool) (r : ℕ × ℕ) (s : Text) → (b ≡ true → Conts r s) → Conts (if b then r else bad) s
test-Conts true r s h = h refl
test-Conts false r s h = tt

wide-Conts : (w lo hi c : ℕ) (s : Text) → 128 ≤ lo → Conts (wide w lo hi c s) s
wide-Conts zero lo hi c s h = tt
wide-Conts (suc zero) lo hi c s h = tt
wide-Conts (suc (suc zero)) lo hi c [] h = tt
wide-Conts (suc (suc zero)) lo hi c (d ∷ s) h =
    test-Conts (is_between lo hi d) (c % 32 * 64 + d % 64, 2) (d ∷ s) (λ t. (ground arith, tt))
wide-Conts (suc (suc (suc zero))) lo hi c [] h = tt
wide-Conts (suc (suc (suc zero))) lo hi c (d ∷ []) h = tt
wide-Conts (suc (suc (suc zero))) lo hi c (d ∷ e ∷ s) h =
    test-Conts (is_between lo hi d && is_between 0x80 0xbf e)
      (c % 16 * 4096 + d % 64 * 64 + e % 64, 3) (d ∷ e ∷ s)
      (λ t. (ground arith, (ground arith, tt)))
wide-Conts (suc (suc (suc (suc zero)))) lo hi c [] h = tt
wide-Conts (suc (suc (suc (suc zero)))) lo hi c (d ∷ []) h = tt
wide-Conts (suc (suc (suc (suc zero)))) lo hi c (d ∷ e ∷ []) h = tt
wide-Conts (suc (suc (suc (suc zero)))) lo hi c (d ∷ e ∷ f ∷ s) h =
    test-Conts (is_between lo hi d && is_between 0x80 0xbf e && is_between 0x80 0xbf f)
      (c % 8 * 262144 + d % 64 * 4096 + e % 64 * 64 + f % 64, 4) (d ∷ e ∷ f ∷ s)
      (λ t. (ground arith, (ground arith, (ground arith, tt))))
wide-Conts (suc (suc (suc (suc (suc w))))) lo hi c s h = tt

lead-bounds : (c : ℕ) → 128 ≤ (lead c).1
unfolding lead
lead-bounds c = ground arith

pub decode_rune-AreConts : (c : ℕ) (s : Text) → AreConts ((decode_rune (c ∷ s)).1 - 1) s
unfolding decode_rune
decode_rune-AreConts c s = elim (Bool-cases (ltb c rune_self)) [
  | inl h ↦ rw h tt
  | inr h ↦ rw h (wide-Conts (lead c).0 (lead c).1 (lead c).2 c s (lead-bounds c))
]

pub hex_digit-bounds : (n : ℕ) → n < 16 → 48 ≤ hex_digit n
unfolding hex_digit
hex_digit-bounds n h = ground arith

-- What is appended for one byte shows.
abbrev shown_by : Option Text → Bool
shown_by none = true
shown_by (some t) = all is_shown t

hex_digit-is_shown : (n : ℕ) → is_shown (hex_digit n) ≡ true
unfolding hex_digit
hex_digit-is_shown n = ground arith

self-is_shown : (b : ℕ) → shown_by (try_add_rune_self b) ≡ true
unfolding try_add_rune_self
self-is_shown b = ground (arith, hex_digit-is_shown (b / 16), hex_digit-is_shown (b % 16))

pub self_none : (b : ℕ) → try_add_rune_self b ≡ none → 128 ≤ b
unfolding try_add_rune_self
self_none b h = ground arith

error-is_shown : (r : ℕ × ℕ) → shown_by (try_add_rune_error r) ≡ true
unfolding try_add_rune_error
error-is_shown r = ground arith

abbrev AreShown : Text × ℕ → Text → Type 0
AreShown r s = (all is_shown r.0 ≡ true) × AreConts r.1 s

step_rune-AreShown :
    (o : Option Text) (c width : ℕ) (s : Text)
    → shown_by o ≡ true
    → 128 ≤ c
    → AreConts (width - 1) s
    → AreShown (step_rune o c width) s
unfolding step_rune
step_rune-AreShown (some t) c width s h lt d = (h, tt)
step_rune-AreShown none c width s h lt d = (ground arith, d)

step_self-AreShown :
    (o : Option Text) (c : ℕ) (s : Text)
    → shown_by o ≡ true
    → (o ≡ none → 128 ≤ c)
    → AreShown (step_self o c s) s
unfolding step_self
step_self-AreShown (some t) c s h lt = (h, tt)
step_self-AreShown none c s h lt =
    step_rune-AreShown (try_add_rune_error (decode_rune (c ∷ s))) c (decode_rune (c ∷ s)).1 s
      (error-is_shown (decode_rune (c ∷ s))) (lt refl) (decode_rune-AreConts c s)

-- One round of the loop.
step-AreShown : (c : ℕ) (s : Text) → AreShown (step c s) s
unfolding step
step-AreShown c s = step_self-AreShown (try_add_rune_self c) c s (self-is_shown c) (self_none c)

safe_add_from-is_shown : (k : ℕ) (s : Text) → AreConts k s → all is_shown (safe_add_from k s) ≡ true
unfolding safe_add_from
safe_add_from-is_shown k [] d = refl
safe_add_from-is_shown (suc k) (c ∷ s) d = ground (arith, safe_add_from-is_shown k s d.1, d.0)
safe_add_from-is_shown zero (c ∷ s) d =
    let r = step-AreShown c s in
    all-append is_shown (step c s).0 (safe_add_from (step c s).1 s) r.0
      (safe_add_from-is_shown (step c s).1 s r.1)

pub safe_add_string-is_shown : (s : Text) → all is_shown (safe_add_string s) ≡ true
unfolding safe_add_string
safe_add_string-is_shown s = safe_add_from-is_shown 0 s tt

-- A string is appended, with its quotes or without, with no byte below the space but the escape
-- character of console colours: it cannot end the line that it is logged on.
pub append_string-is_shown : (s : Text) → all is_shown (append_string s) ≡ true
unfolding append_string safe_add_string
append_string-is_shown s =
    let body = safe_add_from-is_shown 0 s tt in
    ground (arith, body, all-append is_shown (safe_add_from 0 s) (b'"' ∷ []) body refl)
