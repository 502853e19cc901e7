-- ===== src/E2db/Rows/Tests.antt =====
-- The reading of rows on concrete ones.
use e2d.Prelude.Decimal.{pos, format_int, format_uint}
use e2d.E2db.Values.{int, int_kind, to_string, less}
use e2d.E2db.Model.{Field, field_by_name}
use e2d.E2db.Rows.{
  Plan, finished, test, exchange, new_sorter, swap, swapped, row_less, less_at, row_of_field,
  run_plan, entry_at, entries_of, sort_rows,
}
use e2d.E2db.Rows.Sorted.{after_swaps, less_at-after_swaps_twice}
use e2d.Prelude.{ℕ, ◌≡◌, refl, true, false, List, [], ◌∷◌, codes, str_eq, str_lt, ok}

abbrev row : ℕ → List Field
row n = record { def = record { name = codes "n"; tags = [] }; value = int int_kind (pos n) } ∷ []

abbrev three_rows : List (List Field)
three_rows = row 3 ∷ row 2 ∷ row 1 ∷ []

abbrev third : Plan
third = test 2 1 (exchange 2 1 (test 1 0 (exchange 1 0 finished) finished)) finished

-- The insertion sort of three entries.
abbrev insertion_plan : ℕ → Plan
insertion_plan n = test 1 0 (exchange 1 0 third) third

sorted_by_pointer :
    sort_rows insertion_plan true (codes "n") false three_rows ≡ ok (row 1 ∷ row 2 ∷ row 3 ∷ [])
unfolding sort_rows run_plan new_sorter swap swapped row_less less_at row_of_field entry_at
    entries_of to_string less field_by_name str_eq str_lt format_int format_uint
sorted_by_pointer = refl

unsorted_in_place :
    sort_rows insertion_plan false (codes "n") false three_rows ≡ ok (row 2 ∷ row 1 ∷ row 3 ∷ [])
unfolding sort_rows run_plan new_sorter swap swapped row_less less_at row_of_field entry_at
    entries_of to_string less field_by_name str_eq str_lt format_int format_uint
unsorted_in_place = refl

less_at-after_swaps_twice_example :
    let s = after_swaps ((1, 0) ∷ []) (new_sorter false (entry_at three_rows)) in
    (less_at (codes "n") false s 2 1
      ≡ row_less
          (codes "n")
          false
          (entry_at three_rows (s.slots (s.slots 2)))
          (entry_at three_rows (s.slots (s.slots 1))))
    × ((k : ℕ) → s.entries k ≡ entry_at three_rows (s.slots k))
less_at-after_swaps_twice_example =
    less_at-after_swaps_twice (entry_at three_rows) ((1, 0) ∷ []) (codes "n") false 2 1
