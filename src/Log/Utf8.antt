-- ===== src/Log/Utf8.antt =====
-- utf8.DecodeRune of the Go library, as pkg/log/encoder.go uses it.
use e2d.Prelude.{
  ℕ, zero, suc, ◌+◌, ◌-◌, ◌*◌, ◌%◌, Bool, false, ◌&&◌, ◌||◌, [], ◌∷◌, ltb, leb, ◌==◌, if◌then◌else◌,
  Text,
}

abbrev pub rune_self : ℕ
rune_self = 0x80

abbrev pub rune_error : ℕ
rune_error = 0xfffd

abbrev pub is_between : ℕ → ℕ → ℕ → Bool
is_between lo hi b = leb lo b && leb b hi

-- What stands for a byte that begins no rune: the rune and its width.
abbrev pub bad : ℕ × ℕ
bad = (rune_error, 1)

-- How wide a rune is by its first byte, and the bounds of its second byte; 0 for no first byte.
unfoldable pub lead : ℕ → ℕ × ℕ × ℕ
lead c =
    if is_between 0xc2 0xdf c
    then (2, 0x80, 0xbf)
    else if c == 0xe0
    then (3, 0xa0, 0xbf)
    else if c == 0xed
    then (3, 0x80, 0x9f)
    else if is_between 0xe1 0xef c
    then (3, 0x80, 0xbf)
    else if c == 0xf0
    then (4, 0x90, 0xbf)
    else if is_between 0xf1 0xf3 c
    then (4, 0x80, 0xbf)
    else if c == 0xf4
    then (4, 0x80, 0x8f)
    else (0, 0x80, 0xbf)

-- The rune of a width with its first byte, and bounds for its second.
abbrev pub wide : ℕ → ℕ → ℕ → ℕ → Text → ℕ × ℕ
wide (suc (suc zero)) lo hi c (d ∷ s) =
    if is_between lo hi d then (c % 32 * 64 + d % 64, 2) else bad
wide (suc (suc (suc zero))) lo hi c (d ∷ e ∷ s) =
    if is_between lo hi d && is_between 0x80 0xbf e
    then (c % 16 * 4096 + d % 64 * 64 + e % 64, 3)
    else bad
wide (suc (suc (suc (suc zero)))) lo hi c (d ∷ e ∷ f ∷ s) =
    if is_between lo hi d && is_between 0x80 0xbf e && is_between 0x80 0xbf f
    then (c % 8 * 262144 + d % 64 * 4096 + e % 64 * 64 + f % 64, 4)
    else bad
wide w lo hi c s = bad

-- The rune at the head of a string and its width.
unfoldable pub decode_rune : Text → ℕ × ℕ
unfolding lead
decode_rune [] = (rune_error, 0)
decode_rune (c ∷ s) = if ltb c rune_self then (c, 1) else wide (lead c).0 (lead c).1 (lead c).2 c s

-- strings.IndexFunc(s, p) != -1: whether a rune passes the test; `k` bytes of the rune before are
-- still to be passed over.
unfoldable pub any_rune : (ℕ → Bool) → ℕ → Text → Bool
any_rune p k [] = false
any_rune p (suc k) (c ∷ s) = any_rune p k s
any_rune p zero (c ∷ s) =
    let r = decode_rune (c ∷ s) in let rest = any_rune p (r.1 - 1) s in p r.0 || rest
