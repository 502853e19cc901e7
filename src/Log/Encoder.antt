-- ===== src/Log/Encoder.antt =====
-- `logfmtEncoder` of pkg/log/encoder.go.
--
-- The functions of zap's configuration, the printing of floats and base64 are parameters. The pools
-- of encoders and buffers are not part of the state.
use e2d.Prelude.Decimal.{ℤ, format_int, format_uint}
use e2d.Log.Escape.{safe_add_string, append_string}
use e2d.Prelude.{
  ℕ, Bool, true, false, Option, none, some, List, [], ◌∷◌, ◌++◌, if◌then◌else◌, Text, codes, Error,
  other, Result, ok, err, panic,
}

-- A function of the configuration, or a field, appends to an encoder; times and durations are in
-- nanoseconds, and a float is known by a number.
pub record EncoderConfig : Type 0 where
  pub time_key : Text
  pub level_key : Text
  pub name_key : Text
  pub message_key : Text
  pub caller_key : Text
  pub stacktrace_key : Text
  pub line_ending : Text
  -- what EncodeTime, EncodeDuration, EncodeLevel, EncodeName and EncodeCaller append
  pub encode_time : ℤ → Text
  pub encode_duration : ℤ → Text
  pub encode_level : Text → Text
  pub encode_name : Text → Text
  pub encode_caller : Text → Text
  -- strconv's 'f' format of a float of 64 or 32 bits
  pub format_float : ℕ → ℕ → Text
  pub base64 : Text → Text

-- A float: not a number, an infinity, or one that is printed.
pub data Float : Type 0 where
  nan pos_inf neg_inf : Float
  finite : ℕ → Float

pub record LogEncoder : Type 0 where
  pub cfg : EncoderConfig
  pub buf : Text
  pub namespaces : List Text

unfoldable pub new_encoder : EncoderConfig → LogEncoder
new_encoder cfg = record { cfg = cfg; buf = []; namespaces = [] }

-- An append to the buffer.
abbrev pub write : Text → LogEncoder → LogEncoder
write t enc = record enc { buf = enc.buf ++ t }

-- A space between what is in the buffer and what comes.
abbrev pub separator : Text → Text
separator [] = []
separator (c ∷ s) = b' ' ∷ []

unfoldable pub add_key : Text → LogEncoder → LogEncoder
add_key key enc = write (separator enc.buf ++ (safe_add_string key ++ b'=' ∷ [])) enc

-- `AppendString` and `AppendByteString`
unfoldable pub enc_string : Text → LogEncoder → LogEncoder
enc_string s enc = write (append_string s) enc

unfoldable pub add_string : Text → Text → LogEncoder → LogEncoder
add_string key s enc = enc_string s (add_key key enc)

unfoldable pub add_binary : Text → Text → LogEncoder → LogEncoder
add_binary key b enc = add_string key (enc.cfg.base64 b) enc

unfoldable pub enc_bool : Bool → LogEncoder → LogEncoder
enc_bool b enc = enc_string (if b then codes "true" else codes "false") enc

unfoldable pub add_bool : Text → Bool → LogEncoder → LogEncoder
add_bool key b enc = enc_bool b (add_key key enc)

-- `AppendInt64` and what calls it on smaller integers
unfoldable pub enc_int : ℤ → LogEncoder → LogEncoder
enc_int n enc = write (format_int n) enc

unfoldable pub add_int : Text → ℤ → LogEncoder → LogEncoder
add_int key n enc = enc_int n (add_key key enc)

-- `AppendUint64` and what calls it on smaller integers
unfoldable pub enc_uint : ℕ → LogEncoder → LogEncoder
enc_uint n enc = write (format_uint n) enc

unfoldable pub add_uint : Text → ℕ → LogEncoder → LogEncoder
add_uint key n enc = enc_uint n (add_key key enc)

-- `appendFloat`, for 64 or 32 bits
unfoldable pub enc_float : Float → ℕ → LogEncoder → LogEncoder
enc_float nan bits enc = write (codes "NaN") enc
enc_float pos_inf bits enc = write (codes "+Inf") enc
enc_float neg_inf bits enc = write (codes "-Inf") enc
enc_float (finite x) bits enc = write (enc.cfg.format_float x bits) enc

unfoldable pub add_float : Text → Float → ℕ → LogEncoder → LogEncoder
add_float key x bits enc = enc_float x bits (add_key key enc)

-- `AppendComplex128`: both parts are printed as they are, without the names of what is no number, and
-- with a plus sign between them.
unfoldable pub enc_complex : ℕ × ℕ → LogEncoder → LogEncoder
enc_complex z enc =
    write (enc.cfg.format_float z.0 64 ++ b'+' ∷ (enc.cfg.format_float z.1 64 ++ b'i' ∷ [])) enc

unfoldable pub add_complex : Text → ℕ × ℕ → LogEncoder → LogEncoder
add_complex key z enc = enc_complex z (add_key key enc)

-- A value whose encoder appends nothing is printed as its number of nanoseconds.
abbrev pub or_number : Text → ℤ → Text
or_number [] n = format_int n
or_number (c ∷ t) n = c ∷ t

unfoldable pub enc_duration : ℤ → LogEncoder → LogEncoder
enc_duration d enc = write (or_number (enc.cfg.encode_duration d) d) enc

unfoldable pub add_duration : Text → ℤ → LogEncoder → LogEncoder
add_duration key d enc = enc_duration d (add_key key enc)

unfoldable pub enc_time : ℤ → LogEncoder → LogEncoder
enc_time t enc = write (or_number (enc.cfg.encode_time t) t) enc

unfoldable pub add_time : Text → ℤ → LogEncoder → LogEncoder
add_time key t enc = enc_time t (add_key key enc)

unfoldable pub open_namespace : Text → LogEncoder → LogEncoder
open_namespace key enc = record enc { namespaces = enc.namespaces ++ key ∷ [] }

-- An array writes itself to a buffer, or fails.
unfoldable pub enc_array : Text × Option Error → LogEncoder → LogEncoder × Option Error
enc_array (t, none) enc = (enc_string t enc, none)
enc_array (t, some e) enc = (enc_string [] enc, some e)

unfoldable pub add_array : Text → Text × Option Error → LogEncoder → LogEncoder × Option Error
add_array key arr enc = enc_array arr (add_key key enc)

-- A value by its kind, as reflection finds it: a channel, function, map or struct; an array; a
-- slice that is nil or not; a pointer that is nil or what it points to; any other, with the text
-- that fmt.Sprint gives.
pub data Reflected : Type 0 where
  composite array : Reflected
  slice : Bool → Reflected
  nil_pointer : Reflected
  pointer : Reflected → Reflected
  plain : Text → Reflected

abbrev unsupported_value_type : Error
unsupported_value_type = other (codes "unsupported value type")

-- `AddObject`, which adds no key
unfoldable pub add_object : LogEncoder → LogEncoder × Option Error
add_object enc = (enc, some unsupported_value_type)

-- `AddReflected`: an array has no nil to test for, and a slice no element to point to, so
-- reflection panics.
unfoldable pub add_reflected : Text → Reflected → LogEncoder → Result LogEncoder
add_reflected key composite enc = err unsupported_value_type
add_reflected key array enc = panic
add_reflected key (slice true) enc = ok (add_string key [] enc)
add_reflected key (slice false) enc = panic
add_reflected key nil_pointer enc = ok (add_string key [] enc)
add_reflected key (pointer v) enc = add_reflected key v enc
add_reflected key (plain t) enc = ok (add_string key t enc)

-- `AppendReflected`
unfoldable pub enc_reflected : Reflected → LogEncoder → Result LogEncoder
enc_reflected composite enc = err unsupported_value_type
enc_reflected array enc = err unsupported_value_type
enc_reflected (slice b) enc = err unsupported_value_type
enc_reflected nil_pointer enc = ok (enc_string [] enc)
enc_reflected (pointer v) enc = enc_reflected v enc
enc_reflected (plain t) enc = ok (enc_string t enc)
