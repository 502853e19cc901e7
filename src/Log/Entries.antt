-- ===== src/Log/Entries.antt =====
-- A log entry is one line (`EncodeEntry` of pkg/log/encoder.go).
use e2d.Prelude.Decimal.{ℤ}
use e2d.Log.Escape.{safe_add_string, append_string}
use e2d.Log.Lines.{is_shown, append_string-is_shown, safe_add_string-is_shown}
use e2d.Log.Encoder.{
  EncoderConfig, LogEncoder, write, separator, add_key, enc_string, add_string, add_time, enc_time,
  or_number,
}
use e2d.Log.EntryEncoder.{
  Entry, or_text, clone, add_header_time, add_level, add_names, add_message, add_context,
  add_caller_of, add_caller, add_fields, add_stack, add_line_ending, encode_entry,
}
use e2d.Prelude.{
  ◌≡◌, refl, sym, ap, subst, Bool, true, false, ◌||◌, Option, none, some, List, [], ◌∷◌, ◌++◌,
  if◌then◌else◌, all, all-append, All, Text, str_eq,
}

-- What the configuration's functions append is shown.
pub record IsPlainConfig (cfg : EncoderConfig) : Type 0 where
  pub time : (t : ℤ) → all is_shown (or_number (cfg.encode_time t) t) ≡ true
  pub level : (l : Text) → all is_shown (or_text (cfg.encode_level l) l) ≡ true
  pub name : (n : Text) → all is_shown (cfg.encode_name n) ≡ true
  pub caller : (c : Text) → all is_shown (cfg.encode_caller c) ≡ true

-- An encoder with a configuration, whose buffer is shown.
pub record IsLine (cfg : EncoderConfig) (enc : LogEncoder) : Type 0 where
  pub config : enc.cfg ≡ cfg
  pub shown : all is_shown enc.buf ≡ true

-- With a field added, a line with the configuration is shown as before.
pub record IsPlainField (cfg : EncoderConfig) (f : LogEncoder → LogEncoder) : Type 0 where
  pub keeps : (enc : LogEncoder) → IsLine cfg enc → IsLine cfg (f enc)

write-IsLine :
    (cfg : EncoderConfig) (t : Text) (enc : LogEncoder)
    → all is_shown t ≡ true
    → IsLine cfg enc
    → IsLine cfg (write t enc)
write-IsLine cfg t enc h l = record {
  config = l.config;
  shown = all-append is_shown enc.buf t l.shown h;
}

separator-is_shown : (t : Text) → all is_shown (separator t) ≡ true
separator-is_shown [] = refl
separator-is_shown (c ∷ s) = refl

pub add_key-IsLine :
    (cfg : EncoderConfig) (key : Text) (enc : LogEncoder)
    → IsLine cfg enc
    → IsLine cfg (add_key key enc)
unfolding add_key
add_key-IsLine cfg key enc l =
    write-IsLine cfg _ enc
      (all-append is_shown (separator enc.buf) _ (separator-is_shown enc.buf)
        (all-append is_shown (safe_add_string key) (b'=' ∷ []) (safe_add_string-is_shown key) refl))
      l

-- A field that is a string, whatever its key and its value are, is shown.
pub add_string-IsLine :
    (cfg : EncoderConfig) (key s : Text) (enc : LogEncoder)
    → IsLine cfg enc
    → IsLine cfg (add_string key s enc)
unfolding add_string enc_string
add_string-IsLine cfg key s enc l =
    write-IsLine cfg (append_string s) (add_key key enc) (append_string-is_shown s)
      (add_key-IsLine cfg key enc l)

if-IsLine :
    (cfg : EncoderConfig) (b : Bool) (p q : LogEncoder)
    → IsLine cfg p
    → IsLine cfg q
    → IsLine cfg (if b then p else q)
if-IsLine cfg true p q h k = h
if-IsLine cfg false p q h k = k

module _ (cfg : EncoderConfig) (plain : IsPlainConfig cfg) where
  -- A part of a line that a function of the configuration writes after a key.
  keyed-IsLine :
      (key : Text) (text : EncoderConfig → Text) (enc : LogEncoder)
      → all is_shown (text cfg) ≡ true
      → IsLine cfg enc
      → IsLine cfg (write (text enc.cfg) (add_key key enc))
  keyed-IsLine key text enc h l =
      write-IsLine cfg (text enc.cfg) (add_key key enc)
        (subst (λ (c : EncoderConfig). all is_shown (text c) ≡ true) (sym l.config) h)
        (add_key-IsLine cfg key enc l)

  time-IsLine :
      (ent : Entry) (enc : LogEncoder) → IsLine cfg enc → IsLine cfg (add_header_time ent enc)
  unfolding add_header_time add_time enc_time add_key
  time-IsLine ent enc l =
      if-IsLine cfg (str_eq enc.cfg.time_key []) enc (add_time enc.cfg.time_key ent.time enc) l (
        keyed-IsLine enc.cfg.time_key (λ c. or_number (c.encode_time ent.time) ent.time) enc
          (plain.time ent.time) l)

  level-IsLine : (ent : Entry) (enc : LogEncoder) → IsLine cfg enc → IsLine cfg (add_level ent enc)
  unfolding add_level
  level-IsLine ent enc l =
      if-IsLine cfg (str_eq enc.cfg.level_key []) enc
        (write (or_text (enc.cfg.encode_level ent.level) ent.level) (add_key enc.cfg.level_key enc))
        l
        (keyed-IsLine enc.cfg.level_key (λ c. or_text (c.encode_level ent.level) ent.level) enc
          (plain.level ent.level) l)

  names-IsLine :
      (ns : List Text) (enc : LogEncoder) → IsLine cfg enc → IsLine cfg (add_names ns enc)
  unfolding add_names
  names-IsLine [] enc l = l
  names-IsLine (n ∷ ns) enc l =
      names-IsLine ns (write (enc.cfg.encode_name n) (add_key enc.cfg.name_key enc))
        (keyed-IsLine enc.cfg.name_key (λ c. c.encode_name n) enc (plain.name n) l)

  message-IsLine :
      (ent : Entry) (enc : LogEncoder) → IsLine cfg enc → IsLine cfg (add_message ent enc)
  unfolding add_message
  message-IsLine ent enc l =
      if-IsLine cfg (str_eq enc.cfg.message_key []) enc
        (add_string enc.cfg.message_key ent.message enc) l
        (add_string-IsLine cfg enc.cfg.message_key ent.message enc l)

  context-IsLine :
      (t : Text) (enc : LogEncoder)
      → all is_shown t ≡ true
      → IsLine cfg enc
      → IsLine cfg (add_context t enc)
  unfolding add_context
  context-IsLine [] enc h l = l
  context-IsLine (c ∷ s) enc h l = write-IsLine cfg (b' ' ∷ c ∷ s) enc h l

  some-IsLine :
      (caller : Text) (enc : LogEncoder)
      → IsLine cfg enc
      → IsLine cfg (
          write
            (or_text (enc.cfg.encode_caller caller) (append_string caller))
            (add_key enc.cfg.caller_key enc))
  some-IsLine caller enc l =
      keyed-IsLine enc.cfg.caller_key (λ c. or_text (c.encode_caller caller) (append_string caller))
        enc
        (or_text-is_shown (cfg.encode_caller caller) (append_string caller) (plain.caller caller)
          (append_string-is_shown caller))
        l
    where
      or_text-is_shown :
          (s t : Text)
          → all is_shown s ≡ true
          → all is_shown t ≡ true
          → all is_shown (or_text s t) ≡ true
      or_text-is_shown [] t h k = k
      or_text-is_shown (c ∷ s) t h k = h

  caller-IsLine :
      (ent : Entry) (enc : LogEncoder) → IsLine cfg enc → IsLine cfg (add_caller ent enc)
  unfolding add_caller
  caller-IsLine ent enc l = of_caller ent.caller
    where
      of_caller : (o : Option Text) → IsLine cfg (add_caller_of o enc)
      of_caller none = l
      of_caller (some caller) =
          if-IsLine cfg (str_eq enc.cfg.caller_key []) enc
            (write (or_text (enc.cfg.encode_caller caller) (append_string caller))
              (add_key enc.cfg.caller_key enc))
            l (some-IsLine caller enc l)

  fields-IsLine :
      (fs : List (LogEncoder → LogEncoder)) (enc : LogEncoder)
      → All (IsPlainField cfg) fs
      → IsLine cfg enc
      → IsLine cfg (add_fields fs enc)
  unfolding add_fields
  fields-IsLine [] enc h l = l
  fields-IsLine (f ∷ fs) enc h l = fields-IsLine fs (f enc) h.1 (h.0.keeps enc l)

  stack-IsLine : (ent : Entry) (enc : LogEncoder) → IsLine cfg enc → IsLine cfg (add_stack ent enc)
  unfolding add_stack
  stack-IsLine ent enc l =
      if-IsLine cfg (str_eq ent.stack [] || str_eq enc.cfg.stacktrace_key []) enc
        (add_string enc.cfg.stacktrace_key ent.stack enc) l
        (add_string-IsLine cfg enc.cfg.stacktrace_key ent.stack enc l)

  -- The line of an entry is a text without bytes below the space, but for the escape character, and
  -- then the line ending: neither its message, its caller, its stack nor its keys can begin another
  -- line, if the configuration's functions, the context and the fields write only what is shown.
  pub encode_entry-is_shown :
      (enc : LogEncoder) (ent : Entry) (fields : List (LogEncoder → LogEncoder))
      → enc.cfg ≡ cfg
      → all is_shown enc.buf ≡ true
      → All (IsPlainField cfg) fields
      → (line : Text) × (all is_shown line ≡ true)
        × (encode_entry enc ent fields ≡ line ++ or_text cfg.line_ending (10 ∷ []))
  unfolding encode_entry add_line_ending clone
  encode_entry-is_shown enc ent fields c h fs =
      let started : IsLine cfg (clone enc) = record { config = c; shown = refl } in
      let named =
        names-IsLine enc.namespaces _ (level-IsLine ent _ (time-IsLine ent (clone enc) started)) in
      let final = caller-IsLine ent _ (context-IsLine enc.buf _ h (message-IsLine ent _ named)) in
      let whole = stack-IsLine ent _ (fields-IsLine fields _ fs final) in
      let line = add_stack ent (
        add_fields fields (
          add_caller ent (
            add_context enc.buf (
              add_message ent
                (add_names enc.namespaces (add_level ent (add_header_time ent (clone enc)))))))) in
      (
        line.buf,
        whole.shown,
        ap (λ (k : EncoderConfig). line.buf ++ or_text k.line_ending (10 ∷ [])) whole.config,
      )
