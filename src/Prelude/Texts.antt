-- ===== src/Prelude/Texts.antt =====
-- Go strings and byte slices as lists of bytes, with the tests of `strings` that the source uses.
use Prim.Native.Char.{code}
use Prim.Native.Nat.{ℕ, ◌-◌}
use Prim.Native.String.{String}
use mathlib.Core.Path.{◌≡◌, refl, sym, ◌∙◌}
use mathlib.Core.Logic.{◌↔◌}
use mathlib.Core.Bool.{false≢true, Bool, true, false, ◌&&◌, ◌||◌}
use mathlib.Core.List.{List, [], ◌∷◌, ◌++◌, map}
use native.Mathlib.Omega.{arith}
use e2d.Prelude.Tests.{◌==◌, ltb, leb, if◌then◌else◌}
use e2d.Prelude.Lists.{length, drop}

abbrev pub Text : Type 0
Text = List ℕ

-- The bytes of an ASCII literal.
abbrev pub codes : String → Text
codes String.[] = []
codes (String.◌∷◌ c s) = code c ∷ codes s

-- strings.ToUpper on ASCII
abbrev pub to_upper : Text → Text
to_upper s = map (λ c. if leb b'a' c && leb c b'z' then c - 32 else c) s

-- s == t on Go strings
unfoldable pub str_eq : Text → Text → Bool
str_eq [] [] = true
str_eq [] (y ∷ ys) = false
str_eq (x ∷ xs) [] = false
str_eq (x ∷ xs) (y ∷ ys) = x == y && str_eq xs ys

str_eq→eq : (s t : Text) → str_eq s t ≡ true → s ≡ t
unfolding str_eq
str_eq→eq [] [] h = refl
str_eq→eq [] (y ∷ ys) h = ground arith
str_eq→eq (x ∷ xs) [] h = ground arith
str_eq→eq (x ∷ xs) (y ∷ ys) h = ground (arith, str_eq→eq xs ys)

pub str_eq_refl : (s : Text) → str_eq s s ≡ true
unfolding str_eq
str_eq_refl [] = refl
str_eq_refl (x ∷ xs) = ground (arith, str_eq_refl xs)

-- The test on two strings says exactly whether they are equal.
pub str_eq_iff : (s t : Text) → (str_eq s t ≡ true) ↔ (s ≡ t)
str_eq_iff s t = (str_eq→eq s t, λ e. rw (← e) (str_eq_refl s))

-- strings.HasPrefix(s, p), with the prefix first
unfoldable pub has_prefix : Text → Text → Bool
has_prefix [] s = true
has_prefix (p ∷ ps) [] = false
has_prefix (p ∷ ps) (x ∷ xs) = p == x && has_prefix ps xs

-- strings.Contains(s, sub), with `sub` first
unfoldable pub contains : Text → Text → Bool
unfolding has_prefix
contains sub [] = has_prefix sub []
contains sub (x ∷ xs) = has_prefix sub (x ∷ xs) || contains sub xs

-- s < t on Go strings: byte by byte
unfoldable pub str_lt : Text → Text → Bool
str_lt [] [] = false
str_lt [] (y ∷ ys) = true
str_lt (x ∷ xs) [] = false
str_lt (x ∷ xs) (y ∷ ys) = ltb x y || (x == y && str_lt xs ys)

-- strings.TrimPrefix(s, p), with the prefix first
unfoldable pub trim_prefix : Text → Text → Text
unfolding has_prefix
trim_prefix p s = if has_prefix p s then drop (length p) s else s

pub has_prefix-append : (p s : Text) → has_prefix p (p ++ s) ≡ true
unfolding has_prefix
has_prefix-append [] s = refl
has_prefix-append (x ∷ p) s = ground (arith, has_prefix-append p s)

pub append-drop_of_has_prefix : (p s : Text) → has_prefix p s ≡ true → p ++ drop (length p) s ≡ s
unfolding has_prefix
append-drop_of_has_prefix [] s h = refl
append-drop_of_has_prefix (x ∷ p) [] h = ground arith
append-drop_of_has_prefix (x ∷ p) (y ∷ s) h = ground (arith, append-drop_of_has_prefix p s)

pub contains_of_has_prefix : (p s : Text) → has_prefix p s ≡ true → contains p s ≡ true
unfolding contains
contains_of_has_prefix p [] h = h
contains_of_has_prefix p (x ∷ s) h = rw h refl

-- Strings that the test tells apart are different.
pub str_ne : (s t : Text) → str_eq s t ≡ false → ¬ (s ≡ t)
str_ne s t h e = false≢true (sym h ∙ (str_eq_iff s t).1 e)
