-- ===== src/Log/Escape.antt =====
-- The escaping of pkg/log/encoder.go. A method that appends to the buffer is here what it appends.
use e2d.Log.Utf8.{rune_self, rune_error, decode_rune, any_rune}
use e2d.Prelude.{
  ℕ, zero, suc, ◌+◌, ◌-◌, ◌/◌, ◌%◌, Bool, not, ◌&&◌, ◌||◌, Option, none, some, [], ◌∷◌, ◌++◌, ltb,
  leb, ◌==◌, if◌then◌else◌, Text, codes,
}

-- `_hex[n]`
unfoldable pub hex_digit : ℕ → ℕ
hex_digit n = if ltb n 10 then 48 + n else 87 + n

-- `tryAddRuneSelf`: `none` where it appends nothing and returns false.
unfoldable pub try_add_rune_self : ℕ → Option Text
unfolding hex_digit
try_add_rune_self b =
    if leb rune_self b
    then none
    else if b == 0x1b
    then some (b ∷ [])
    else if leb 0x20 b && not (b == b'\\') && not (b == b'"')
    then some (b ∷ [])
    else if b == b'\\' || b == b'"'
    then some (b'\\' ∷ b ∷ [])
    else if b == 10
    then some (b'\\' ∷ b'n' ∷ [])
    else if b == 13
    then some (b'\\' ∷ b'r' ∷ [])
    else if b == 9
    then some (b'\\' ∷ b't' ∷ [])
    else some (b'\\' ∷ b'u' ∷ b'0' ∷ b'0' ∷ hex_digit (b / 16) ∷ hex_digit (b % 16) ∷ [])

-- `tryAddRuneError`
unfoldable pub try_add_rune_error : ℕ × ℕ → Option Text
try_add_rune_error r = if r.0 == rune_error && r.1 == 1 then some (codes "\\ufffd") else none

-- The second half of a round: the rune at the index, and how wide it is.
unfoldable pub step_rune : Option Text → ℕ → ℕ → Text × ℕ
step_rune (some t) c width = (t, 0)
step_rune none c width = (c ∷ [], width - 1)

unfoldable pub step_self : Option Text → ℕ → Text → Text × ℕ
step_self (some t) c s = (t, 0)
step_self none c s = let r = decode_rune (c ∷ s) in step_rune (try_add_rune_error r) c r.1

-- A round of the loop: what is appended for the byte at the index, and how many bytes after it
-- belong to the same rune.
unfoldable pub step : ℕ → Text → Text × ℕ
unfolding step_self step_rune
step c s = step_self (try_add_rune_self c) c s

-- `safeAddString` and `safeAddByteString`: their loop, where `k` bytes of a rune are still to be
-- copied.
unfoldable pub safe_add_from : ℕ → Text → Text
safe_add_from k [] = []
safe_add_from (suc k) (c ∷ s) = c ∷ safe_add_from k s
safe_add_from zero (c ∷ s) = let (t, k) = step c s in t ++ safe_add_from k s

unfoldable pub safe_add_string : Text → Text
safe_add_string s = safe_add_from 0 s

unfoldable pub needs_quoted_value_rune : ℕ → Bool
needs_quoted_value_rune r =
    not (r == 0x1b) && leb r b' ' || r == b'=' || r == b'"' || r == rune_error

-- `AppendString` and `AppendByteString`
unfoldable pub append_string : Text → Text
append_string s =
    if any_rune needs_quoted_value_rune 0 s
    then b'"' ∷ (safe_add_string s ++ b'"' ∷ [])
    else safe_add_string s
