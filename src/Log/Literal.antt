-- ===== src/Log/Literal.antt =====
-- `literalEncoder` of pkg/log/encoder.go, which writes the elements of an array. A method is what it
-- makes of the buffer.
use e2d.Prelude.Decimal.{ℤ, format_int, format_uint}
use e2d.Prelude.{
  ℕ, ◌≡◌, refl, sym, ◌∙◌, Bool, true, false, List, [], ◌∷◌, ◌++◌, map, append-nil, append_assoc,
  ◌==◌, if◌then◌else◌, length, Text, codes, Option, some, Error, other,
}

unfoldable pub add_separator : Text → Text
add_separator [] = []
add_separator (c ∷ s) = c ∷ s ++ b',' ∷ []

-- `AppendString` and `AppendByteString`
unfoldable pub lit_string : Text → Text → Text
lit_string s buf = add_separator buf ++ s

-- `AppendBool` adds a separator, and then calls `AppendString`, which adds one too.
unfoldable pub lit_bool : Bool → Text → Text
lit_bool b buf = lit_string (if b then codes "true" else codes "false") (add_separator buf)

unfoldable pub lit_int : ℤ → Text → Text
lit_int n buf = add_separator buf ++ format_int n

unfoldable pub lit_uint : ℕ → Text → Text
lit_uint n buf = add_separator buf ++ format_uint n

-- A float is printed by `format`, without the names of what is no number.
unfoldable pub lit_float : (ℕ → ℕ → Text) → ℕ → ℕ → Text → Text
lit_float format x bits buf = add_separator buf ++ format x bits

unfoldable pub lit_complex : (ℕ → ℕ → Text) → ℕ × ℕ → Text → Text
lit_complex format z buf =
    add_separator buf ++ (format z.0 64 ++ b'+' ∷ (format z.1 64 ++ b'i' ∷ []))

-- `AppendArray`: the elements of an array within one are written to the same buffer.
unfoldable pub lit_array : (Text → Text × Option Error) → Text → Text × Option Error
lit_array marshal buf = marshal buf

-- `AppendObject` and `AppendReflected`
unfoldable pub lit_unsupported : Text → Text × Option Error
lit_unsupported buf = (buf, some (other (codes "unsupported value type")))

-- A duration or a time, with what the configuration's function makes of the buffer; one that
-- appends nothing falls back to nanoseconds.
unfoldable pub lit_time : (Text → Text) → ℤ → Text → Text
lit_time encode n buf = if length (encode buf) == length buf then lit_int n buf else encode buf

-- The elements one after the other, as a marshaler of an array of strings, or of Booleans, calls.
unfoldable pub lit_strings : List Text → Text → Text
lit_strings [] buf = buf
lit_strings (s ∷ ss) buf = lit_strings ss (lit_string s buf)

unfoldable pub lit_bools : List Bool → Text → Text
lit_bools [] buf = buf
lit_bools (b ∷ bs) buf = lit_bools bs (lit_bool b buf)

abbrev pub bool_text : Bool → Text
bool_text b = if b then codes "true" else codes "false"

abbrev pub after_each : Text → List Text → Text
after_each sep [] = []
after_each sep (s ∷ ss) = sep ++ (s ++ after_each sep ss)

bools_after :
    (c : ℕ) (s : Text) (bs : List Bool)
    → lit_bools bs (c ∷ s) ≡ (c ∷ s) ++ after_each (codes ",,") (map bool_text bs)
unfolding lit_bools lit_bool lit_string add_separator
bools_after c s [] = sym (append-nil (c ∷ s))
bools_after c s (b ∷ bs) =
    bools_after c (((s ++ b',' ∷ []) ++ b',' ∷ []) ++ bool_text b) bs ∙ simp append_assoc refl

-- An array of Booleans is written with two commas between its elements.
pub lit_bools_commas :
    (b : Bool) (bs : List Bool)
    → lit_bools (b ∷ bs) [] ≡ bool_text b ++ after_each (codes ",,") (map bool_text bs)
unfolding lit_bools lit_bool lit_string add_separator
lit_bools_commas true bs = bools_after b't' (codes "rue") bs
lit_bools_commas false bs = bools_after b'f' (codes "alse") bs

strings_after :
    (c : ℕ) (s : Text) (ss : List Text)
    → lit_strings ss (c ∷ s) ≡ (c ∷ s) ++ after_each (codes ",") ss
unfolding lit_strings lit_string add_separator
strings_after c s [] = sym (append-nil (c ∷ s))
strings_after c s (t ∷ ts) = strings_after c ((s ++ b',' ∷ []) ++ t) ts ∙ simp append_assoc refl

-- An array of strings that begins with a string that is not empty is written with one comma between
-- its elements.
pub lit_strings_commas :
    (c : ℕ) (s : Text) (ss : List Text)
    → lit_strings ((c ∷ s) ∷ ss) [] ≡ (c ∷ s) ++ after_each (codes ",") ss
unfolding lit_strings lit_string add_separator
lit_strings_commas c s ss = strings_after c s ss
