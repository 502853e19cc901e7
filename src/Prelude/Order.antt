-- ===== src/Prelude/Order.antt =====
-- The order of Go strings is a strict total order.
use mathlib.Core.Path.{◌≡◌, refl}
use mathlib.Core.Bool.{true, false}
use mathlib.Core.List.{[], ◌∷◌}
use native.Mathlib.Omega.{arith}
use e2d.Prelude.Texts.{Text, str_lt}

pub str_lt_irrefl : (s : Text) → str_lt s s ≡ false
unfolding str_lt
str_lt_irrefl [] = refl
str_lt_irrefl (x ∷ s) = ground (arith, str_lt_irrefl s)

pub str_lt_asymm : (s t : Text) → str_lt s t ≡ true → str_lt t s ≡ false
unfolding str_lt
str_lt_asymm [] [] h = refl
str_lt_asymm [] (y ∷ t) h = refl
str_lt_asymm (x ∷ s) [] h = ground arith
str_lt_asymm (x ∷ s) (y ∷ t) h = ground (arith, str_lt_asymm s t)

pub str_lt_trans : (s t u : Text) → str_lt s t ≡ true → str_lt t u ≡ true → str_lt s u ≡ true
unfolding str_lt
str_lt_trans [] [] u h k = k
str_lt_trans [] (y ∷ t) [] h k = k
str_lt_trans [] (y ∷ t) (z ∷ u) h k = refl
str_lt_trans (x ∷ s) [] u h k = ground arith
str_lt_trans (x ∷ s) (y ∷ t) [] h k = ground arith
str_lt_trans (x ∷ s) (y ∷ t) (z ∷ u) h k = ground (arith, str_lt_trans s t u)

pub str_lt_total : (s t : Text) → str_lt s t ≡ false → str_lt t s ≡ false → s ≡ t
unfolding str_lt
str_lt_total [] [] h k = refl
str_lt_total [] (y ∷ t) h k = ground arith
str_lt_total (x ∷ s) [] h k = ground arith
str_lt_total (x ∷ s) (y ∷ t) h k = ground (arith, str_lt_total s t)
