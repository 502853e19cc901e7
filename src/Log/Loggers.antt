-- ===== src/Log/Loggers.antt =====
-- pkg/log/config.go and pkg/log/log.go: the configuration of the encoder, and the loggers.
--
-- The colours and the printing of zap are parameters. The core writes to the standard error, so what
-- is logged is the text of a line.
use e2d.Log.Escape.{append_string}
use e2d.Log.Encoder.{EncoderConfig, LogEncoder, new_encoder, open_namespace}
use e2d.Log.EntryEncoder.{encode_entry}
use e2d.Prelude.Decimal.{ℤ, pos, negsuc, format_int}
use e2d.Prelude.{
  ℕ, ◌/◌, Option, none, some, List, [], ◌∷◌, leb, if◌then◌else◌, Text, codes, to_upper,
}

pub record Library : Type 0 where
  -- color.HiWhiteString of github.com/fatih/color
  pub hi_white : Text → Text
  -- what zapcore appends for a level, a duration and a caller
  pub colored_level : Text → Text
  pub duration_string : ℤ → Text
  pub short_caller : Text → Text
  pub format_float : ℕ → ℕ → Text
  pub base64 : Text → Text

-- t.Unix(), by the nanoseconds of a time; it rounds down.
unfoldable pub unix : ℤ → ℤ
unix (pos n) = pos (n / 1000000000)
unix (negsuc n) = negsuc (n / 1000000000)

-- A function of the configuration, by what it appends to the encoder of entries
unfoldable pub epoch_time_encoder : ℤ → Text
epoch_time_encoder t = format_int (unix t)

unfoldable pub capital_full_name_encoder : Text → Text
capital_full_name_encoder name = append_string (to_upper name)

module _ (lib : Library) where
  unfoldable pub color_epoch_time_encoder : ℤ → Text
  color_epoch_time_encoder t = append_string (lib.hi_white (format_int (unix t)))

  unfoldable pub capital_color_full_name_encoder : Text → Text
  capital_color_full_name_encoder name = append_string (lib.hi_white (to_upper name))

  unfoldable pub new_default_encoder_config : EncoderConfig
  new_default_encoder_config = record {
    time_key = codes "T";
    level_key = codes "L";
    name_key = codes "N";
    message_key = codes "M";
    caller_key = codes "C";
    stacktrace_key = codes "S";
    line_ending = 10 ∷ [];
    encode_time = color_epoch_time_encoder;
    encode_duration = λ d. append_string (lib.duration_string d);
    encode_level = λ l. append_string (lib.colored_level l);
    encode_name = capital_color_full_name_encoder;
    encode_caller = λ c. append_string (lib.short_caller c);
    format_float = lib.format_float;
    base64 = lib.base64;
  }

-- zapcore.Level, without those that panic, which the package never logs at
pub data Level : Type 0 where
  debug_level info_level warn_level error_level fatal_level : Level

unfoldable pub severity : Level → ℕ
severity debug_level = 0
severity info_level = 1
severity warn_level = 2
severity error_level = 3
severity fatal_level = 4

unfoldable pub level_string : Level → Text
level_string debug_level = codes "debug"
level_string info_level = codes "info"
level_string warn_level = codes "warn"
level_string error_level = codes "error"
level_string fatal_level = codes "fatal"

-- A logger: its encoder, and a level of its own where it does not follow the one of the package.
pub record Logger : Type 0 where
  pub encoder : LogEncoder
  pub own_level : Option Level

module _ (lib : Library) where
  -- The logger of the package
  unfoldable pub package_logger : Logger
  package_logger = record {
    encoder = new_encoder (new_default_encoder_config lib);
    own_level = none;
  }

  unfoldable pub new_logger : Text → Logger
  new_logger ns = record {
    encoder = open_namespace ns (new_encoder (new_default_encoder_config lib));
    own_level = none;
  }

  unfoldable pub new_logger_with_level : Text → Level → Logger
  new_logger_with_level ns lvl = record {
    encoder = open_namespace ns (new_encoder (new_default_encoder_config lib));
    own_level = some lvl;
  }

-- The level of the package, which `SetLevel` sets.
abbrev pub min_level : Level → Option Level → Level
min_level package_level none = package_level
min_level package_level (some lvl) = lvl

-- What a logger writes for a message at the level of the package: nothing below its level.
unfoldable pub logged :
    Level → Logger → Level → ℤ → Text → Text → List (LogEncoder → LogEncoder) → Option Text
unfolding severity
logged package_level l lvl time caller msg fields =
    let line =
      encode_entry l.encoder
        (record {
          time = time;
          level = level_string lvl;
          message = msg;
          caller = some caller;
          stack = [];
        })
        fields in
    if leb (severity (min_level package_level l.own_level)) (severity lvl) then some line else none
