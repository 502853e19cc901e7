-- ===== src/App/Env.antt =====
-- pkg/cmdutil/env.go: options that are set from the environment.
use e2d.Prelude.Decimal.{ℤ}
use e2d.Prelude.{
  ℕ, Bool, Option, none, some, List, [], ◌∷◌, Text, codes, to_upper, Error, other, Result, ok, err,
  panic, ◌>>=◌,
}

-- The value of a field by its kind, integers with their bits, durations in nanoseconds
pub data FieldValue : Type 0 where
  string_value : Text → FieldValue
  int_value : ℕ → ℤ → FieldValue
  duration_value : ℤ → FieldValue
  uint_value : ℕ → ℕ → FieldValue
  bool_value : Bool → FieldValue
  unsupported : FieldValue

-- The readers of strconv and time, those of integers in base 0 and with the bits of the type.
pub record Readers : Type 0 where
  pub parse_int : Text → ℕ → Result ℤ
  pub parse_uint : Text → ℕ → Result ℕ
  pub parse_bool : Text → Result Bool
  pub parse_duration : Text → Result ℤ

-- `setValue`
unfoldable pub set_value : Readers → FieldValue → Text → Result FieldValue
set_value r (string_value old) s = ok (string_value s)
set_value r (int_value bits old) s = do i ← r.parse_int s bits; ok (int_value bits i)
set_value r (duration_value old) s = do d ← r.parse_duration s; ok (duration_value d)
set_value r (uint_value bits old) s = do i ← r.parse_uint s bits; ok (uint_value bits i)
set_value r (bool_value old) s = do b ← r.parse_bool s; ok (bool_value b)
set_value r unsupported s = err (other (codes "cannot set value for type"))

-- A field of a struct: the name of its variable, if it is tagged, and its value.
pub record EnvField : Type 0 where
  pub tag : Option Text
  pub value : FieldValue

after_set :
    EnvField
    → Result FieldValue
    → List EnvField
    → List EnvField × Option Error
    → List EnvField × Option Error
after_set f (ok v) fs rest = (record f { value = v } ∷ rest.0, rest.1)
after_set f (err e) fs rest = (f ∷ fs, some e)
after_set f panic fs rest = (f ∷ fs, none)

set_found :
    Readers
    → EnvField
    → Option Text
    → List EnvField
    → List EnvField × Option Error
    → List EnvField × Option Error
unfolding after_set
set_found r f none fs rest = (f ∷ rest.0, rest.1)
set_found r f (some text) fs rest = after_set f (set_value r f.value text) fs rest

looked_up : (Text → Option Text) → Option Text → Option Text
looked_up env none = none
looked_up env (some tag) = env (to_upper tag)

-- The loop of `SetEnvs`, by the environment; the fields after one that fails stay.
unfoldable pub set_envs :
    Readers → (Text → Option Text) → List EnvField → List EnvField × Option Error
unfolding set_found looked_up
set_envs r env [] = ([], none)
set_envs r env (f ∷ fs) = set_found r f (looked_up env f.tag) fs (set_envs r env fs)
