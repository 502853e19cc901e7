-- ===== src/Prelude/Lists.antt =====
-- Lists measured by native numbers, and predicates over their entries.
use Prim.Native.Nat.{ℕ, zero, suc, ◌+◌, ◌≤◌}
use mathlib.Core.Path.{◌≡◌, refl, ap, ◌∙◌}
use mathlib.Core.Logic.{◌⊎◌, inl, inr}
use mathlib.Core.Bool.{Bool, true, false, ◌&&◌, ◌||◌}
use mathlib.Core.List.{List, [], ◌∷◌, ◌++◌}
use native.Mathlib.Omega.{arith}
use e2d.Prelude.Tests.{if◌then◌else◌}

module _ {ℓ} {A : Type ℓ} where
  abbrev pub length : List A → ℕ
  length [] = 0
  length (x ∷ xs) = suc (length xs)

  abbrev pub take : ℕ → List A → List A
  take zero xs = []
  take (suc n) [] = []
  take (suc n) (x ∷ xs) = x ∷ take n xs

  abbrev pub drop : ℕ → List A → List A
  drop zero xs = xs
  drop (suc n) [] = []
  drop (suc n) (x ∷ xs) = drop n xs

  pub length-append : (xs ys : List A) → length (xs ++ ys) ≡ length xs + length ys
  length-append [] ys = omega arith
  length-append (x ∷ xs) ys = omega (arith, length-append xs ys)

  pub length-take : (n : ℕ) (xs : List A) → n ≤ length xs → length (take n xs) ≡ n
  length-take zero xs h = refl
  length-take (suc n) [] h = absurd (omega arith)
  length-take (suc n) (x ∷ xs) h = omega (arith, length-take n xs (omega arith))

  pub take-append : (xs ys : List A) → take (length xs) (xs ++ ys) ≡ xs
  take-append [] ys = refl
  take-append (x ∷ xs) ys = ap (◌∷◌ x) (take-append xs ys)

  pub drop-append : (xs ys : List A) → drop (length xs) (xs ++ ys) ≡ ys
  drop-append [] ys = refl
  drop-append (x ∷ xs) ys = drop-append xs ys

  pub take-append-drop : (n : ℕ) (xs : List A) → take n xs ++ drop n xs ≡ xs
  take-append-drop zero xs = refl
  take-append-drop (suc n) [] = refl
  take-append-drop (suc n) (x ∷ xs) = ap (◌∷◌ x) (take-append-drop n xs)

-- The entries that pass a Boolean test.
module _ {ℓ} {A : Type ℓ} where
  abbrev pub select : (A → Bool) → List A → List A
  select p [] = []
  select p (x ∷ xs) = let rest = select p xs in if p x then x ∷ rest else rest

  abbrev pub all : (A → Bool) → List A → Bool
  all p [] = true
  all p (x ∷ xs) = p x && all p xs

  abbrev pub any : (A → Bool) → List A → Bool
  any p [] = false
  any p (x ∷ xs) = p x || any p xs

-- A predicate of every entry, as nested pairs.
abbrev pub All {ℓ κ} : {A : Type ℓ} → (A → Type κ) → List A → Type κ
All P [] = Unit
All P (x ∷ xs) = P x × All P xs

-- The positions at which an entry stands in a list.
pub data In {ℓ} {A : Type ℓ} (a : A) : List A → Type ℓ where
  here : {x : A} {xs : List A} → a ≡ x → In a (x ∷ xs)
  there : {x : A} {xs : List A} → In a xs → In a (x ∷ xs)

module _ {ℓ} {A : Type ℓ} where
  pub In-append_left : {a : A} {xs : List A} (ys : List A) → In a xs → In a (xs ++ ys)
  In-append_left ys (In.here e) = In.here e
  In-append_left ys (In.there m) = In.there (In-append_left ys m)

  pub In-append_right : {a : A} (xs : List A) {ys : List A} → In a ys → In a (xs ++ ys)
  In-append_right [] m = m
  In-append_right (x ∷ xs) m = In.there (In-append_right xs m)

  pub In-append : {a : A} (xs ys : List A) → In a (xs ++ ys) → (In a xs) ⊎ (In a ys)
  In-append [] ys m = inr m
  In-append (x ∷ xs) ys (In.here e) = inl (In.here e)
  In-append (x ∷ xs) ys (In.there m) = elim (In-append xs ys m) [
    | inl l ↦ inl (In.there l)
    | inr r ↦ inr r
  ]

module _ {ℓ} {A : Type ℓ} (p : A → Bool) where
  In-if :
      (b : Bool) (a x : A) (rest : List A)
      → In a (if b then x ∷ rest else rest)
      → ((a ≡ x) × (b ≡ true)) ⊎ In a rest
  In-if true a x rest (In.here e) = inl (e, refl)
  In-if true a x rest (In.there m) = inr m
  In-if false a x rest m = inr m

  if-there : (b : Bool) (a x : A) (rest : List A) → In a rest → In a (if b then x ∷ rest else rest)
  if-there true a x rest m = In.there m
  if-there false a x rest m = m

  -- What a selection holds is in the list and passes the test.
  pub In-select : (xs : List A) (a : A) → In a (select p xs) → In a xs × (p a ≡ true)
  In-select [] a m = elim m [ ]
  In-select (x ∷ xs) a m = elim (In-if (p x) a x (select p xs) m) [
    | inl e ↦ (In.here e.0, ap p e.0 ∙ e.1)
    | inr r ↦ let q = In-select xs a r in (In.there q.0, q.1)
  ]

  -- What is in the list and passes the test is selected.
  pub select-In : (xs : List A) (a : A) → In a xs → p a ≡ true → In a (select p xs)
  select-In (x ∷ xs) a (In.here e) h = rw (← e, h) (In.here refl)
  select-In (x ∷ xs) a (In.there m) h = if-there (p x) a x (select p xs) (select-In xs a m h)
  select-In [] a m h = elim m [ ]

pub all-append {ℓ} :
    {A : Type ℓ} (p : A → Bool) (xs ys : List A)
    → all p xs ≡ true
    → all p ys ≡ true
    → all p (xs ++ ys) ≡ true
all-append p [] ys h k = k
all-append p (x ∷ xs) ys h k = ground (arith, all-append p xs ys)
