-- ===== src/Prelude/Sort.antt =====
-- `sort.Strings`, and that its result depends on the entries and not on their order.
use mathlib.Core.Path.{◌≡◌, refl, ◌∙◌}
use mathlib.Core.Logic.{∥∥₁_elim}
use mathlib.Core.List.{List, [], ◌∷◌, map, Perm, Permᴰ}
use native.Mathlib.Omega.{arith}
use e2d.Prelude.Tests.{if◌then◌else◌}
use e2d.Prelude.Texts.{Text, str_lt}
use e2d.Prelude.Order.{str_lt_asymm, str_lt_trans, str_lt_total}

insert_sorted : Text → List Text → List Text
insert_sorted x [] = x ∷ []
insert_sorted x (y ∷ ys) =
    let rest = insert_sorted x ys in if str_lt y x then y ∷ rest else x ∷ y ∷ ys

unfoldable pub sort_strings : List Text → List Text
unfolding insert_sorted
sort_strings [] = []
sort_strings (x ∷ xs) = insert_sorted x (sort_strings xs)

insert_sorted_comm :
    (x y : Text) (l : List Text)
    → insert_sorted x (insert_sorted y l) ≡ insert_sorted y (insert_sorted x l)
unfolding insert_sorted
insert_sorted_comm x y [] = ground (arith, str_lt_asymm x y, str_lt_asymm y x, str_lt_total x y)
insert_sorted_comm x y (z ∷ l) = ground (
  arith,
  insert_sorted_comm x y l,
  str_lt_asymm x y,
  str_lt_total x y,
  str_lt_asymm y x,
  str_lt_trans z x y,
  str_lt_trans z y x,
  str_lt_trans x y z,
  str_lt_trans y x z,
  str_lt_asymm z x,
  str_lt_asymm z y,
  str_lt_asymm x z,
  str_lt_asymm y z,
  str_lt_total x z,
  str_lt_total y z,
)

sort_map-permᴰ {ℓ} :
    {A : Type ℓ} (f : A → Text) {xs ys : List A}
    → Permᴰ xs ys
    → sort_strings (map f xs) ≡ sort_strings (map f ys)
unfolding sort_strings
sort_map-permᴰ f Permᴰ.nil = refl
sort_map-permᴰ f (Permᴰ.cons e d) = λ i. insert_sorted (f (e i)) (sort_map-permᴰ f d i)
sort_map-permᴰ f (Permᴰ.swap {a = a} {b = b} {l = l} p q) =
    insert_sorted_comm (f a) (f b) (sort_strings (map f l))
    ∙ (λ i. insert_sorted (f (q i)) (insert_sorted (f (p i)) (sort_strings (map f l))))
sort_map-permᴰ f (Permᴰ.trans d e) = sort_map-permᴰ f d ∙ sort_map-permᴰ f e

Texts-set : IsSet (List Text)
Texts-set = hlevel

-- The sorted strings of the same entries are the same list, in whichever order the entries come.
pub sort_map-perm {ℓ} :
    {A : Type ℓ} (f : A → Text) {xs ys : List A}
    → Perm xs ys
    → sort_strings (map f xs) ≡ sort_strings (map f ys)
sort_map-perm f {xs} {ys} p =
    ∥∥₁_elim p (Texts-set (sort_strings (map f xs)) (sort_strings (map f ys))) (sort_map-permᴰ f)
