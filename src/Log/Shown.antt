-- ===== src/Log/Shown.antt =====
-- What the loggers of pkg/log/log.go write.
use e2d.Log.Escape.{
  append_string, safe_add_string, safe_add_from, step, try_add_rune_self, needs_quoted_value_rune,
}
use e2d.Log.Utf8.{any_rune}
use e2d.Log.Lines.{is_shown, append_string-is_shown}
use e2d.Log.Encoder.{LogEncoder, or_number, new_encoder, open_namespace}
use e2d.Log.EntryEncoder.{Entry, or_text, encode_entry}
use e2d.Log.Entries.{IsPlainConfig, IsPlainField, encode_entry-is_shown}
use e2d.Log.Loggers.{
  Library, color_epoch_time_encoder, capital_color_full_name_encoder, new_default_encoder_config,
  Level, severity, level_string, Logger, package_logger, new_logger, new_logger_with_level,
  min_level, logged,
}
use e2d.Prelude.Decimal.{ℤ, pos, negsuc, format_int, format_uint, format_uint_from}
use e2d.Prelude.{
  suc, ◌≡◌, refl, sym, ap, ◌∙◌, inl, inr, Bool, true, false, none, some, List, [], ◌∷◌, ◌++◌, arith,
  leb, all, All, Bool-cases, if◌then◌else◌, Text, ℕ,
}

all_above : (s : Text) → all (leb 48) s ≡ true → all is_shown s ≡ true
all_above [] h = refl
all_above (c ∷ s) h = ground (arith, all_above s)

format_int-is_shown : (i : ℤ) → all is_shown (format_int i) ≡ true
unfolding format_int
format_int-is_shown (pos n) = all_above (format_uint n) (format_uint_from n)
format_int-is_shown (negsuc n) = all_above (format_uint (suc n)) (format_uint_from (suc n))

or_number-is_shown :
    (s : Text) (i : ℤ) → all is_shown s ≡ true → all is_shown (or_number s i) ≡ true
or_number-is_shown [] i h = format_int-is_shown i
or_number-is_shown (c ∷ s) i h = h

-- A text that begins with the escape character is appended as one that is not empty.
append_string_escape : (s : Text) → (c : ℕ) × (t : Text) × (append_string (27 ∷ s) ≡ c ∷ t)
unfolding append_string safe_add_string safe_add_from step try_add_rune_self
append_string_escape s = elim (Bool-cases (any_rune needs_quoted_value_rune 0 (27 ∷ s))) [
  | inl e ↦ (b'"', safe_add_string (27 ∷ s) ++ b'"' ∷ [], rw e refl)
  | inr e ↦ (27, safe_add_from 0 s, rw e refl)
]

or_text-is_shown :
    (s t l : Text) (c : ℕ) → s ≡ c ∷ t → all is_shown s ≡ true → all is_shown (or_text s l) ≡ true
or_text-is_shown [] t l c e h = cc
or_text-is_shown (d ∷ s) t l c e h = h

-- Console colours begin with the escape character.
pub record IsColored (lib : Library) : Type 0 where
  pub escape : (l : Text) → (s : Text) × (lib.colored_level l ≡ 27 ∷ s)

module _ (lib : Library) where
  -- The loggers that the package makes
  pub data IsMade : Logger → Type 0 where
    common : IsMade (package_logger lib)
    named : (ns : Text) → IsMade (new_logger lib ns)
    leveled : (ns : Text) (lvl : Level) → IsMade (new_logger_with_level lib ns lvl)

  -- The functions of the default configuration append only what is shown.
  pub new_default_encoder_config-IsPlainConfig :
      IsColored lib → IsPlainConfig (new_default_encoder_config lib)
  unfolding new_default_encoder_config color_epoch_time_encoder capital_color_full_name_encoder
  new_default_encoder_config-IsPlainConfig colored = record {
    time = λ t. or_number-is_shown (color_epoch_time_encoder lib t) t (append_string-is_shown _);
    level = λ l.
        let (s, e) = colored.escape l in
        let (c, t, k) = append_string_escape s in
        or_text-is_shown (append_string (lib.colored_level l)) t l c (ap append_string e ∙ k)
          (append_string-is_shown (lib.colored_level l));
    name = λ n. append_string-is_shown _;
    caller = λ c. append_string-is_shown _;
  }

  encoder_of :
      (l : Logger)
      → IsMade l
      → (l.encoder.cfg ≡ new_default_encoder_config lib) × (all is_shown l.encoder.buf ≡ true)
  unfolding package_logger new_logger new_logger_with_level new_encoder open_namespace
  encoder_of l common = (refl, refl)
  encoder_of l (named ns) = (refl, refl)
  encoder_of l (leveled ns lvl) = (refl, refl)

  written :
      (b : Bool) (t text : Text)
      → (if b then some t else none) ≡ some text
      → (b ≡ true) × (t ≡ text)
  written true t text h = (refl, cc h)
  written false t text h = cc h

  -- What a logger of the package writes for a message is not below its level, and is one line: a
  -- text with no byte below the space but the escape character, which a message may hold too, and then
  -- a newline, whatever the message, the names and the caller hold, if the fields write no such byte
  -- under the default configuration and console colours begin with the escape character.
  pub logged-is_shown :
      IsColored lib
      → (l : Logger) (package_level lvl : Level) (time : ℤ) (caller msg : Text)
        (fields : List (LogEncoder → LogEncoder)) (text : Text)
      → IsMade l
      → All (IsPlainField (new_default_encoder_config lib)) fields
      → logged package_level l lvl time caller msg fields ≡ some text
      → (leb (severity (min_level package_level l.own_level)) (severity lvl) ≡ true)
        × (line : Text) × (all is_shown line ≡ true)
        × (text ≡ line ++ 10 ∷ [])
  unfolding logged new_default_encoder_config
  logged-is_shown colored l package_level lvl time caller msg fields text made plain h =
      let ent : Entry = record {
        time = time;
        level = level_string lvl;
        message = msg;
        caller = some caller;
        stack = [];
      } in
      let (cfg, buf) = encoder_of l made in
      let (line, shown, whole) =
        encode_entry-is_shown (new_default_encoder_config lib)
          (new_default_encoder_config-IsPlainConfig colored) l.encoder ent fields cfg buf plain in
      let (e, same) =
        written (leb (severity (min_level package_level l.own_level)) (severity lvl))
          (encode_entry l.encoder ent fields) text h in
      (e, line, shown, sym same ∙ whole)
