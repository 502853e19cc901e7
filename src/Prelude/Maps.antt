-- ===== src/Prelude/Maps.antt =====
-- Go's `map[string]V` as an association list. The order of the entries stands for the order in
-- which a `range` loop meets them, so a theorem about every list is about every such order.
use mathlib.Core.Path.{◌≡◌, refl, ap}
use mathlib.Core.Bool.{Bool, true, false}
use mathlib.Core.Option.{Option, none, some}
use mathlib.Core.Logic.{inl, inr, ◌⊎◌}
use mathlib.Core.List.{List, [], ◌∷◌}
use native.Mathlib.Omega.{arith}
use e2d.Prelude.Tests.{if◌then◌else◌, Bool-cases}
use e2d.Prelude.Lists.{In}
use e2d.Prelude.Texts.{Text, str_eq, str_eq_iff}

abbrev pub Assoc {ℓ} : Type ℓ → Type ℓ
Assoc V = List (Text × V)

module _ {ℓ} {V : Type ℓ} where
  -- v, ok := m[k]
  unfoldable pub lookup : Text → Assoc V → Option V
  lookup k [] = none
  lookup k ((j, v) ∷ m) = if str_eq j k then some v else lookup k m

  -- delete(m, k)
  unfoldable pub delete : Text → Assoc V → Assoc V
  delete k [] = []
  delete k ((j, v) ∷ m) = let rest = delete k m in if str_eq j k then rest else (j, v) ∷ rest

  -- m[k] = v
  unfoldable pub insert : Text → V → Assoc V → Assoc V
  unfolding delete
  insert k v m = (k, v) ∷ delete k m

  pub lookup-delete :
      (k j : Text) (m : Assoc V) → lookup j (delete k m) ≡ (if str_eq k j then none else lookup j m)
  unfolding lookup delete
  lookup-delete k j [] = ground arith
  lookup-delete k j ((i, v) ∷ m) =
      ground (arith, lookup-delete k j m, str_eq_iff i k, str_eq_iff i j, str_eq_iff k j)

  pub lookup-insert :
      (k j : Text) (v : V) (m : Assoc V)
      → lookup j (insert k v m) ≡ (if str_eq k j then some v else lookup j m)
  unfolding lookup insert
  lookup-insert k j v m = simp lookup-delete (ground arith)

  -- What a lookup finds is an entry of the list.
  pub In-of_lookup : (k : Text) (v : V) (m : Assoc V) → lookup k m ≡ some v → In (k, v) m
  unfolding lookup
  In-of_lookup k v [] h = absurd (cc)
  In-of_lookup k v ((j, w) ∷ m) h = elim (Bool-cases (str_eq j k)) [
    | inl e ↦ In.here (ground (arith, str_eq_iff j k))
    | inr e ↦ In.there (In-of_lookup k v m (ground arith))
  ]

  In-if_cons :
      (b : Bool) (e x : Text × V) (xs : Assoc V)
      → In e (if b then xs else x ∷ xs)
      → ((b ≡ false) × (e ≡ x)) ⊎ In e xs
  In-if_cons true e x xs m = inr m
  In-if_cons false e x xs (In.here p) = inl (refl, p)
  In-if_cons false e x xs (In.there m) = inr m

  -- The entries that are left after a deletion were there before it, under other keys.
  pub In-delete :
      (k j : Text) (v : V) (m : Assoc V)
      → In (j, v) (delete k m)
      → In (j, v) m × (str_eq j k ≡ false)
  unfolding delete
  In-delete k j v [] h = elim h [ ]
  In-delete k j v ((i, w) ∷ m) h = elim (In-if_cons (str_eq i k) (j, v) (i, w) (delete k m) h) [
    | inl p ↦ (In.here p.1, ground arith)
    | inr r ↦ let q = In-delete k j v m r in (In.there q.0, q.1)
  ]

  -- An entry after an assignment is the new one, or an old one under another key.
  pub In-insert :
      (k j : Text) (v w : V) (m : Assoc V)
      → In (j, w) (insert k v m)
      → ((j ≡ k) × (w ≡ v)) ⊎ (In (j, w) m × (str_eq j k ≡ false))
  unfolding insert
  In-insert k j v w m (In.here p) = inl (ap (λ (x : Text × V). x.0) p, ap (λ (x : Text × V). x.1) p)
  In-insert k j v w m (In.there h) = inr (In-delete k j w m h)
