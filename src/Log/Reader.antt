-- ===== src/Log/Reader.antt =====
-- How a value of a log line is read back: the reverse of `AppendString` of pkg/log/encoder.go.
use e2d.Log.Utf8.{decode_rune, rune_error}
use e2d.Prelude.{
  ℕ, zero, suc, ◌+◌, ◌-◌, ◌*◌, Bool, true, false, not, ◌&&◌, ◌||◌, Option, none, some, [], ◌∷◌, leb,
  ◌==◌, if◌then◌else◌, Text,
}

-- What the reader is in the middle of: plain text, after a backslash, or the digits of `\u`, of
-- which one more than `k` are to come.
pub data Mode : Type 0 where
  raw slash : Mode
  hex : ℕ → ℕ → Mode

-- A byte in front of what was read, with the rest that was not.
abbrev pub cons : ℕ → Option (Text × Text) → Option (Text × Text)
cons b none = none
cons b (some (t, rest)) = some (b ∷ t, rest)

unfoldable pub reveal : ℕ → Option ℕ
reveal c =
    if c == b'n'
    then some 10
    else if c == b'r'
    then some 13
    else if c == b't'
    then some 9
    else if c == b'\\' || c == b'"'
    then some c
    else none

unfoldable pub hex_value : ℕ → Option ℕ
hex_value c =
    if leb 48 c && leb c 57
    then some (c - 48)
    else if leb 97 c && leb c 102
    then some (c - 87)
    else none

-- Up to the byte `stop`, which is not taken; a quoted text must have its quote.
unfoldable pub read_until : ℕ → Mode → Text → Option (Text × Text)
read_until stop raw [] = if stop == b'"' then none else some ([], [])
read_until stop raw (c ∷ s) = elim (c == stop) [
  | true ↦ some ([], c ∷ s)
  | false ↦ elim (c == b'\\') [
    | true ↦ read_until stop slash s
    | false ↦ cons c (read_until stop raw s)
  ]
]
read_until stop slash [] = none
read_until stop slash (c ∷ s) = elim (c == b'u') [
  | true ↦ read_until stop (hex 3 0) s
  | false ↦ elim (reveal c) [ none ↦ none | some d ↦ cons d (read_until stop raw s) ]
]
read_until stop (hex k acc) [] = none
read_until stop (hex zero acc) (c ∷ s) = elim (hex_value c) [
  | none ↦ none
  | some d ↦ cons (acc * 16 + d) (read_until stop raw s)
]
read_until stop (hex (suc k) acc) (c ∷ s) = elim (hex_value c) [
  | none ↦ none
  | some d ↦ read_until stop (hex k (acc * 16 + d)) s
]

unfoldable pub after_quote : Option (Text × Text) → Option (Text × Text)
after_quote (some (t, c ∷ rest)) = some (t, rest)
after_quote r = none

-- A value and what follows it.
unfoldable pub read_value : Text → Option (Text × Text)
unfolding after_quote
read_value [] = some ([], [])
read_value (c ∷ s) = elim (c == b'"') [
  | true ↦ after_quote (read_until b'"' raw s)
  | false ↦ read_until b' ' raw (c ∷ s)
]

-- utf8.ValidString(s), where `k` bytes of a rune are still to be passed over.
unfoldable pub is_utf8 : ℕ → Text → Bool
is_utf8 k [] = true
is_utf8 (suc k) (c ∷ s) = is_utf8 k s
is_utf8 zero (c ∷ s) =
    let r = decode_rune (c ∷ s) in
    let rest = is_utf8 (r.1 - 1) s in not (r.0 == rune_error && r.1 == 1) && rest
