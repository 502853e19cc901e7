-- ===== src/Prelude/Decimal.antt =====
-- Decimal numbers as `strconv` prints and reads them, and Go's int64.
use Prim.Native.Nat.{ℕ, zero, suc, ◌+◌, ◌-◌, ◌*◌, ◌/◌, ◌%◌, ◌≤◌, ◌<◌}
use mathlib.Core.Path.{◌≡◌, refl, ap, ◌∙◌}
use mathlib.Core.Bool.{Bool, true, false, ◌&&◌}
use mathlib.Core.Logic.{inl, inr}
use mathlib.Core.List.{[], ◌∷◌, ◌++◌}
use mathlib.Core.Option.{Option, none, some}
use native.Mathlib.Omega.{arith}
use e2d.Prelude.Tests.{leb, ltb, ◌==◌, if◌then◌else◌, Bool-cases}
use e2d.Prelude.Texts.{Text, codes}
use e2d.Prelude.Lists.{any, all, all-append}
use e2d.Prelude.Outcome.{Error, other}

-- `negsuc n` is -(n + 1).
pub data ℤ : Type 0 where
  pos : ℕ → ℤ
  negsuc : ℕ → ℤ

-- The digits of a number, the last one at the end of the list. The fuel is the number of digits
-- at most; a number has no more digits than its value plus one.
digits : ℕ → ℕ → Text
digits zero n = []
digits (suc f) n =
    let rest = digits f (n / 10) ++ (48 + n % 10) ∷ [] in if ltb n 10 then (48 + n) ∷ [] else rest

unfoldable pub format_uint : ℕ → Text
unfolding digits
format_uint n = digits (suc n) n

-- strconv.FormatInt(n, 10)
unfoldable pub format_int : ℤ → Text
format_int (pos n) = format_uint n
format_int (negsuc n) = b'-' ∷ format_uint (suc n)

abbrev is_digit : ℕ → Bool
is_digit c = leb 48 c && leb c 57

unfoldable pub read_digits : ℕ → Text → Option ℕ
read_digits acc [] = some acc
read_digits acc (c ∷ cs) = if is_digit c then read_digits (acc * 10 + (c - 48)) cs else none

abbrev pub max_int64 : ℕ
max_int64 = 9223372036854775807

abbrev syntax_error : Error
syntax_error = other (codes "invalid syntax")

abbrev range_error : Error
range_error = other (codes "value out of range")

in_range : Bool → Option ℕ → ℤ × Option Error
in_range negative none = (pos 0, some syntax_error)
in_range false (some n) =
    if ltb max_int64 n then (pos max_int64, some range_error) else (pos n, none)
in_range true (some zero) = (pos 0, none)
in_range true (some (suc n)) =
    if ltb max_int64 n then (negsuc max_int64, some range_error) else (negsuc n, none)

-- A number has a digit at least.
unsigned : Bool → Text → ℤ × Option Error
unfolding in_range read_digits
unsigned negative [] = (pos 0, some syntax_error)
unsigned negative (c ∷ cs) = in_range negative (read_digits 0 (c ∷ cs))

-- strconv.ParseInt(s, 10, 64) and strconv.Atoi: the value that comes back beside an error is 0 for
-- bad syntax, and the nearest int64 for a number out of range.
unfoldable pub parse_int : Text → ℤ × Option Error
unfolding unsigned
parse_int [] = (pos 0, some syntax_error)
parse_int (c ∷ cs) =
    if c == b'-'
    then unsigned true cs
    else if c == b'+'
    then unsigned false cs
    else unsigned false (c ∷ cs)

read_digits-append :
    (acc : ℕ) (xs : Text) (v d : ℕ)
    → read_digits acc xs ≡ some v
    → d < 10
    → read_digits acc (xs ++ (48 + d) ∷ []) ≡ some (v * 10 + d)
unfolding read_digits
read_digits-append acc [] v d h lt = ground arith
read_digits-append acc (c ∷ cs) v d h lt =
    ground (arith, read_digits-append (acc * 10 + (c - 48)) cs v d)

read_digits-digits : (f n : ℕ) → n < f → read_digits 0 (digits f n) ≡ some n
unfolding digits
read_digits-digits zero n h = absurd (omega arith)
read_digits-digits (suc f) n h = elim (Bool-cases (ltb n 10)) [
  | inl small ↦ rw small (unfold read_digits in ground arith)
  | inr big ↦
      let lower : n / 10 < f = ground arith in
      let whole : n / 10 * 10 + n % 10 ≡ n = omega arith in
      rw big (
        read_digits-append 0 (digits f (n / 10)) (n / 10) (n % 10)
          (read_digits-digits f (n / 10) lower) (omega arith)
        ∙ ap some whole)
]

-- Reading what was printed gives the number back.
pub read_digits-format_uint : (n : ℕ) → read_digits 0 (format_uint n) ≡ some n
unfolding format_uint
read_digits-format_uint n = read_digits-digits (suc n) n (omega arith)

-- A printed number begins with a digit.
digits_head :
    (f n : ℕ) → n < f → (c : ℕ) × (cs : Text) × (digits f n ≡ c ∷ cs) × (48 ≤ c) × (c ≤ 57)
unfolding digits
digits_head zero n h = absurd (omega arith)
digits_head (suc f) n h = elim (Bool-cases (ltb n 10)) [
  | inl small ↦ (48 + n, [], rw small refl, omega arith, ground arith)
  | inr big ↦
      let r = digits_head f (n / 10) (ground arith) in
      (r.0, r.1 ++ (48 + n % 10) ∷ [], rw big (ap (λ t. t ++ (48 + n % 10) ∷ []) r.2), r.3, r.4)
]

parse_int_of_head :
    (t : Text) (n c : ℕ) (cs : Text)
    → n ≤ max_int64
    → t ≡ c ∷ cs
    → 48 ≤ c
    → read_digits 0 t ≡ some n
    → parse_int t ≡ (pos n, none)
unfolding parse_int
parse_int_of_head [] n c cs h e lo v = cc
parse_int_of_head (x ∷ xs) n c cs h e lo v = ground arith

-- strconv reads back what it printed, for a number that an int64 holds.
pub parse_int-format_uint : (n : ℕ) → n ≤ max_int64 → parse_int (format_uint n) ≡ (pos n, none)
unfolding format_uint
parse_int-format_uint n h =
    let r = digits_head (suc n) n (omega arith) in
    parse_int_of_head (digits (suc n) n) n r.0 r.1 h r.2 r.3
      (read_digits-digits (suc n) n (omega arith))

-- A number that an int64 holds
abbrev pub IsInt64 : ℤ → Type 0
IsInt64 (pos n) = n ≤ max_int64
IsInt64 (negsuc n) = n ≤ max_int64

unsigned_of_head :
    (t : Text) (n c : ℕ) (cs : Text)
    → n ≤ max_int64
    → t ≡ c ∷ cs
    → read_digits 0 t ≡ some (suc n)
    → unsigned true t ≡ (negsuc n, none)
unfolding unsigned
unsigned_of_head [] n c cs h e v = cc
unsigned_of_head (x ∷ xs) n c cs h e v = rw v (ground arith)

pub parse_int-format_int : (i : ℤ) → IsInt64 i → parse_int (format_int i) ≡ (i, none)
unfolding format_int parse_int format_uint
parse_int-format_int (pos n) h = parse_int-format_uint n h
parse_int-format_int (negsuc n) h =
    let r = digits_head (suc (suc n)) (suc n) (omega arith) in
    unsigned_of_head (format_uint (suc n)) n r.0 r.1 h r.2 (read_digits-format_uint (suc n))

any-append :
    (p : ℕ → Bool) (xs ys : Text) → any p xs ≡ false → any p ys ≡ false → any p (xs ++ ys) ≡ false
any-append p [] ys h k = k
any-append p (x ∷ xs) ys h k = ground (arith, any-append p xs ys)

digits_only : (c f n : ℕ) → 57 < c → any (λ x. x == c) (digits f n) ≡ false
unfolding digits
digits_only c zero n h = refl
digits_only c (suc f) n h = elim (Bool-cases (ltb n 10)) [
  | inl small ↦ rw small (ground arith)
  | inr big ↦ rw big (
      any-append (λ x. x == c) (digits f (n / 10)) ((48 + n % 10) ∷ []) (digits_only c f (n / 10) h)
        (ground arith))
]

-- A printed number holds no byte above the digits.
pub format_uint_only : (c n : ℕ) → 57 < c → any (λ x. x == c) (format_uint n) ≡ false
unfolding format_uint
format_uint_only c n h = digits_only c (suc n) n h

digits_from : (f n : ℕ) → all (leb 48) (digits f n) ≡ true
unfolding digits
digits_from zero n = refl
digits_from (suc f) n = elim (Bool-cases (ltb n 10)) [
  | inl small ↦ rw small (ground arith)
  | inr big ↦ rw big (
      all-append (leb 48) (digits f (n / 10)) ((48 + n % 10) ∷ []) (digits_from f (n / 10))
        (ground arith))
]

-- A printed number holds no byte below the digits.
pub format_uint_from : (n : ℕ) → all (leb 48) (format_uint n) ≡ true
unfolding format_uint
format_uint_from n = digits_from (suc n) n

-- The errors of strconv are none of the program's own.
abbrev pub is_foreign : Option Error → Bool
is_foreign (some (other t)) = true
is_foreign (some e) = false
is_foreign none = true

in_range-is_foreign : (b : Bool) (o : Option ℕ) → is_foreign (in_range b o).1 ≡ true
unfolding in_range
in_range-is_foreign b none = refl
in_range-is_foreign false (some n) = elim (Bool-cases (ltb max_int64 n)) [
  | inl e ↦ rw e refl
  | inr e ↦ rw e refl
]
in_range-is_foreign true (some zero) = refl
in_range-is_foreign true (some (suc n)) = elim (Bool-cases (ltb max_int64 n)) [
  | inl e ↦ rw e refl
  | inr e ↦ rw e refl
]

unsigned-is_foreign : (b : Bool) (t : Text) → is_foreign (unsigned b t).1 ≡ true
unfolding unsigned
unsigned-is_foreign b [] = refl
unsigned-is_foreign b (c ∷ cs) = in_range-is_foreign b (read_digits 0 (c ∷ cs))

pub parse_int-is_foreign : (t : Text) → is_foreign (parse_int t).1 ≡ true
unfolding parse_int
parse_int-is_foreign [] = refl
parse_int-is_foreign (c ∷ cs) = elim (Bool-cases (c == b'-')) [
  | inl e ↦ rw e (unsigned-is_foreign true cs)
  | inr e ↦ elim (Bool-cases (c == b'+')) [
    | inl k ↦ rw (e, k) (unsigned-is_foreign false cs)
    | inr k ↦ rw (e, k) (unsigned-is_foreign false (c ∷ cs))
  ]
]
