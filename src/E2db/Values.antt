-- ===== src/E2db/Values.antt =====
-- pkg/e2db/cast.go and the values of struct fields that e2db tells apart.
use e2d.Prelude.Decimal.{ℤ, pos, negsuc, format_int}
use e2d.Prelude.{
  bool_eq, ℕ, Bool, true, false, not, ◌&&◌, [], ◌==◌, if◌then◌else◌, Text, codes, str_eq, str_lt,
  Result, ok, panic,
}

-- The kinds of integers that Insert tells apart.
pub data IntKind : Type 0 where
  int_kind int64_kind small_kind : IntKind

-- The value of a field. An integer is what int64(t) makes of it. `stringer` is any other value that
-- `toString` has a text for (one with a String or an Error method, nil or a floating-point number),
-- with that text and whether it is the zero value of its type. `opaque` is a value of any other
-- type, told apart by a number that is 0 for the zero value.
pub data Value : Type 0 where
  str : Text → Value
  bytes : Text → Value
  int : IntKind → ℤ → Value
  bool : Bool → Value
  stringer : Text → Bool → Value
  opaque : ℕ → Value

-- `toString`
unfoldable pub to_string : Value → Result Text
to_string (str s) = ok s
to_string (bytes b) = ok b
to_string (int k n) = ok (format_int n)
to_string (bool true) = ok (codes "true")
to_string (bool false) = ok (codes "false")
to_string (stringer s z) = ok s
to_string (opaque n) = panic

-- `Field.isZero`
unfoldable pub is_zero : Value → Bool
is_zero (str s) = str_eq s []
is_zero (bytes b) = str_eq b []
is_zero (int k (pos n)) = n == 0
is_zero (int k (negsuc n)) = false
is_zero (bool b) = not b
is_zero (stringer s z) = z
is_zero (opaque n) = n == 0

int_eq : ℤ → ℤ → Bool
int_eq (pos m) (pos n) = m == n
int_eq (negsuc m) (negsuc n) = m == n
int_eq _ _ = false

same_kind : IntKind → IntKind → Bool
same_kind int_kind int_kind = true
same_kind int64_kind int64_kind = true
same_kind small_kind small_kind = true
same_kind _ _ = false

-- reflect.DeepEqual on two values, where a slice of bytes that is nil counts as an empty one
unfoldable pub deep_equal : Value → Value → Bool
unfolding int_eq same_kind
deep_equal (str s) (str t) = str_eq s t
deep_equal (bytes s) (bytes t) = str_eq s t
deep_equal (int j m) (int k n) = same_kind j k && int_eq m n
deep_equal (bool p) (bool q) = bool_eq p q
deep_equal (stringer s p) (stringer t q) = str_eq s t && bool_eq p q
deep_equal (opaque m) (opaque n) = m == n
deep_equal _ _ = false

-- a < b of two texts, as `sorter.Less` compares them
unfoldable pub less : Bool → Text → Text → Bool
less reverse a b = if reverse then str_lt b a else str_lt a b
