-- ===== src/Log/EntryEncoder.antt =====
-- `EncodeEntry` of `logfmtEncoder` in pkg/log/encoder.go, with `clone` and `truncate`.
use e2d.Prelude.Decimal.{ℤ}
use e2d.Log.Escape.{append_string}
use e2d.Log.Encoder.{LogEncoder, add_key, add_string, add_time, write}
use e2d.Prelude.{◌||◌, Option, none, some, List, [], ◌∷◌, if◌then◌else◌, Text, str_eq}

-- `clone` and `Clone`
unfoldable pub clone : LogEncoder → LogEncoder
clone enc = record { cfg = enc.cfg; buf = []; namespaces = enc.namespaces }

unfoldable pub clone_with_buffer : LogEncoder → LogEncoder
clone_with_buffer enc = write enc.buf (clone enc)

-- zapcore.Entry; a caller that is not defined is `none`.
pub record Entry : Type 0 where
  pub time : ℤ
  pub level : Text
  pub message : Text
  pub caller : Option Text
  pub stack : Text

abbrev pub or_text : Text → Text → Text
or_text [] t = t
or_text (c ∷ s) t = c ∷ s

unfoldable pub add_header_time : Entry → LogEncoder → LogEncoder
add_header_time ent enc =
    if str_eq enc.cfg.time_key [] then enc else add_time enc.cfg.time_key ent.time enc

unfoldable pub add_level : Entry → LogEncoder → LogEncoder
add_level ent enc =
    if str_eq enc.cfg.level_key []
    then enc
    else write (or_text (enc.cfg.encode_level ent.level) ent.level) (add_key enc.cfg.level_key enc)

unfoldable pub add_names : List Text → LogEncoder → LogEncoder
add_names [] enc = enc
add_names (ns ∷ rest) enc =
    add_names rest (write (enc.cfg.encode_name ns) (add_key enc.cfg.name_key enc))

unfoldable pub add_message : Entry → LogEncoder → LogEncoder
add_message ent enc =
    if str_eq enc.cfg.message_key [] then enc else add_string enc.cfg.message_key ent.message enc

-- What the encoder had in its buffer before.
unfoldable pub add_context : Text → LogEncoder → LogEncoder
add_context [] enc = enc
add_context (c ∷ s) enc = write (b' ' ∷ c ∷ s) enc

unfoldable pub add_caller_of : Option Text → LogEncoder → LogEncoder
add_caller_of none enc = enc
add_caller_of (some caller) enc =
    if str_eq enc.cfg.caller_key []
    then enc
    else write (or_text (enc.cfg.encode_caller caller) (append_string caller))
        (add_key enc.cfg.caller_key enc)

unfoldable pub add_caller : Entry → LogEncoder → LogEncoder
unfolding add_caller_of
add_caller ent enc = add_caller_of ent.caller enc

unfoldable pub add_fields : List (LogEncoder → LogEncoder) → LogEncoder → LogEncoder
add_fields [] enc = enc
add_fields (f ∷ fs) enc = add_fields fs (f enc)

unfoldable pub add_stack : Entry → LogEncoder → LogEncoder
add_stack ent enc =
    if str_eq ent.stack [] || str_eq enc.cfg.stacktrace_key []
    then enc
    else add_string enc.cfg.stacktrace_key ent.stack enc

unfoldable pub add_line_ending : LogEncoder → LogEncoder
add_line_ending enc = write (or_text enc.cfg.line_ending (10 ∷ [])) enc

-- `EncodeEntry`: the line for an entry.
unfoldable pub encode_entry : LogEncoder → Entry → List (LogEncoder → LogEncoder) → Text
encode_entry enc ent fields =
    let named = add_names enc.namespaces (add_level ent (add_header_time ent (clone enc))) in
    let final = add_caller ent (add_context enc.buf (add_message ent named)) in
    (add_line_ending (add_stack ent (add_fields fields final))).buf

-- `truncate`
unfoldable pub truncate : LogEncoder → LogEncoder
truncate enc = record enc { buf = []; namespaces = [] }
