-- ===== src/E2db/Rows/Sorted.antt =====
-- What a sort by `sorter` compares (pkg/e2db/sorter.go).
use e2d.E2db.Model.{Field}
use e2d.E2db.Rows.{Sorter, new_sorter, swap, swapped, row_less, less_at, row_of_field}
use e2d.Prelude.{ℕ, ◌≡◌, refl, Bool, true, false, List, [], ◌∷◌, arith, Text}

-- The exchanges one after the other.
abbrev pub after_swaps : List (ℕ × ℕ) → Sorter → Sorter
after_swaps [] s = s
after_swaps (x ∷ xs) s = after_swaps xs (swap x.0 x.1 s)

-- Each entry is the row of its slot at first; the rows and the kind of the slice stay.
record InStep (by_pointer : Bool) (rows : ℕ → List Field) (s : Sorter) : Type 0 where
  kind : s.by_pointer ≡ by_pointer
  kept : s.rows ≡ rows
  entry : (k : ℕ) → s.entries k ≡ rows (s.slots k)

swap-InStep :
    (p : Bool) (rows : ℕ → List Field) (i j : ℕ) (s : Sorter)
    → InStep p rows s
    → InStep p rows (swap i j s)
unfolding swap swapped
swap-InStep p rows i j s h = record {
  kind = h.kind;
  kept = h.kept;
  entry = λ k. ground (arith, h.entry i, h.entry j, h.entry k);
}

after_swaps-InStep :
    (p : Bool) (rows : ℕ → List Field) (xs : List (ℕ × ℕ)) (s : Sorter)
    → InStep p rows s
    → InStep p rows (after_swaps xs s)
after_swaps-InStep p rows [] s h = h
after_swaps-InStep p rows (x ∷ xs) s h =
    after_swaps-InStep p rows xs (swap x.0 x.1 s) (swap-InStep p rows x.0 x.1 s h)

started :
    (p : Bool) (rows : ℕ → List Field) (xs : List (ℕ × ℕ))
    → InStep p rows (after_swaps xs (new_sorter p rows))
unfolding new_sorter
started p rows xs =
    after_swaps-InStep p rows xs (new_sorter p rows)
      (record { kind = refl; kept = refl; entry = λ k. refl })

-- In a slice of pointers the sort compares, after any exchanges, the two entries as they now stand.
pub less_at-after_swaps :
    (rows : ℕ → List Field) (xs : List (ℕ × ℕ)) (name : Text) (reverse : Bool) (i j : ℕ)
    → let s = after_swaps xs (new_sorter true rows) in
      less_at name reverse s i j ≡ row_less name reverse (s.entries i) (s.entries j)
unfolding less_at row_of_field
less_at-after_swaps rows xs name reverse i j =
    let h = started true rows xs in rw (h.kind, h.kept, h.entry i, h.entry j) refl

-- In a slice of structs the sort sees each exchange twice: it compares the rows that were first in
-- the slots of the slots, where the two entries are those that were first in the slots.
pub less_at-after_swaps_twice :
    (rows : ℕ → List Field) (xs : List (ℕ × ℕ)) (name : Text) (reverse : Bool) (i j : ℕ)
    → let s = after_swaps xs (new_sorter false rows) in
      (less_at name reverse s i j
        ≡ row_less name reverse (rows (s.slots (s.slots i))) (rows (s.slots (s.slots j))))
      × ((k : ℕ) → s.entries k ≡ rows (s.slots k))
unfolding less_at row_of_field
less_at-after_swaps_twice rows xs name reverse i j =
    let s = after_swaps xs (new_sorter false rows) in
    let h = started false rows xs in
    (rw (h.kind, h.entry (s.slots i), h.entry (s.slots j)) refl, h.entry)
