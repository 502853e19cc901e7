-- ===== src/Log/Tests.antt =====
-- Concrete texts and log lines (pkg/log/encoder.go).
use e2d.Prelude.Decimal.{pos, negsuc}
use e2d.Log.Utf8.{decode_rune, any_rune}
use e2d.Log.Escape.{
  try_add_rune_self, try_add_rune_error, append_string, safe_add_string, safe_add_from, step,
  needs_quoted_value_rune,
}
use e2d.Log.Reader.{read_value, is_utf8}
use e2d.Log.Lines.{is_shown, append_string-is_shown}
use e2d.Log.RoundTrip.{read_value-append_string}
use e2d.Log.Encoder.{LogEncoder, add_string}
use e2d.Log.EntryEncoder.{encode_entry}
use e2d.Log.Entries.{add_string-IsLine}
use e2d.Log.Loggers.{
  new_default_encoder_config, Library, new_logger, debug_level, info_level, severity, level_string,
  logged, unix,
}
use e2d.Log.Shown.{IsColored, IsMade, logged-is_shown}
use e2d.Log.Literal.{lit_strings, lit_strings_commas, after_each}
use e2d.Prelude.{◌≡◌, refl, inr, true, some, List, [], ◌∷◌, ◌++◌, arith, leb, all, Text, codes}

abbrev two_lines : Text
two_lines = codes "a" ++ (10 ∷ codes "b=\"c\"")

append_string_run : append_string two_lines ≡ codes "\"a\\nb=\\\"c\\\"\""
unfolding append_string safe_add_string safe_add_from step any_rune decode_rune try_add_rune_self
    try_add_rune_error needs_quoted_value_rune
append_string_run = refl

append_string-is_shown_example : all is_shown (append_string two_lines) ≡ true
append_string-is_shown_example = append_string-is_shown two_lines

read_value-append_string_example :
    read_value (append_string two_lines ++ codes " d=e") ≡ some (two_lines, codes " d=e")
unfolding is_utf8 decode_rune
read_value-append_string_example =
    read_value-append_string two_lines (codes " d=e")
      (
        omega arith,
        (
          omega arith,
          (omega arith, (omega arith, (omega arith, (omega arith, (omega arith, tt))))),
        ),
      )
      refl (inr (codes "d=e", refl))

abbrev fields : List (LogEncoder → LogEncoder)
fields = add_string (codes "key") two_lines ∷ []

abbrev lib : Library
lib = record {
  hi_white = λ s. s;
  colored_level = λ l. 27 ∷ codes "[34mINFO";
  duration_string = λ d. codes "1s";
  short_caller = λ c. c;
  format_float = λ x bits. codes "1.5";
  base64 = λ t. codes "YQ==";
}

lib-IsColored : IsColored lib
lib-IsColored = record { escape = λ l. (codes "[34mINFO", refl) }

abbrev written : Text
written =
    encode_entry (new_logger lib (codes "ns")).encoder
      (record {
        time = pos 12;
        level = codes "info";
        message = two_lines;
        caller = some (codes "main.go:3");
        stack = [];
      })
      fields

logged_run :
    logged debug_level
      (new_logger lib (codes "ns"))
      info_level
      (pos 12)
      (codes "main.go:3")
      two_lines
      fields
    ≡ some written
unfolding logged severity level_string new_logger
logged_run = refl

unix_run : unix (negsuc 0) ≡ negsuc 0
unfolding unix
unix_run = refl

logged-is_shown_example :
    (leb (severity debug_level) (severity info_level) ≡ true)
    × (line : Text) × (all is_shown line ≡ true)
    × (written ≡ line ++ 10 ∷ [])
unfolding new_logger
logged-is_shown_example =
    logged-is_shown lib lib-IsColored (new_logger lib (codes "ns")) debug_level info_level (pos 12)
      (codes "main.go:3") two_lines fields written (IsMade.named (codes "ns"))
      (
        record {
          keeps =
              λ e l. add_string-IsLine (new_default_encoder_config lib) (codes "key") two_lines e l;
        },
        tt,
      )
      logged_run

lit_strings_commas_example :
    lit_strings (codes "a" ∷ codes "b" ∷ []) []
    ≡ codes "a" ++ after_each (codes ",") (codes "b" ∷ [])
lit_strings_commas_example = lit_strings_commas b'a' [] (codes "b" ∷ [])
