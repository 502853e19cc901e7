-- ===== src/E2db/Rows.antt =====
-- The parts of pkg/e2db/query.go and sorter.go that work on rows: the tags of an item that was
-- read, the filters and the sort.
pub mod Plain
pub mod Sorted
mod Tests
use e2d.E2db.Values.{Value, str, bytes, to_string, less}
use e2d.E2db.Crypto.{Gcm, decrypt}
use e2d.E2db.Model.{Tag, FieldDef, Field, field_by_name}
use e2d.E2db.Matcher.{Matcher, Matchers, end, more, match_row}
use e2d.Prelude.{
  ℕ, zero, suc, Bool, Option, none, some, List, [], ◌∷◌, ◌==◌, if◌then◌else◌, length, Text, codes,
  str_eq, Result, ok, err, panic, ◌>>=◌,
}

module _ (gcm : Gcm) (key : Option Text) where
  -- A decrypted value is set as bytes, which a field of another type does not take.
  set_decrypted : Value → Text → Result Value
  set_decrypted (bytes b) dec = ok (bytes dec)
  set_decrypted v dec = panic

  unfoldable pub decrypt_value : Value → Result Value
  unfolding set_decrypted
  decrypt_value v = do t ← to_string v; dec ← decrypt gcm t key; set_decrypted v dec

  -- Once for each tag of the field that is called `encrypted`.
  unfoldable pub decrypt_tags : List Tag → Value → Result Value
  unfolding decrypt_value
  decrypt_tags [] v = ok v
  decrypt_tags (t ∷ ts) v =
      if str_eq t.name (codes "encrypted")
      then (do w ← decrypt_value v; decrypt_tags ts w)
      else decrypt_tags ts v

  -- `handleItemTags`
  unfoldable pub handle_item_tags : List Field → Result (List Field)
  unfolding decrypt_tags
  handle_item_tags [] = ok []
  handle_item_tags (f ∷ fs) = do
    v ← decrypt_tags f.tags f.value
    rest ← handle_item_tags fs
    ok (record f { value = v } ∷ rest)

-- The rows to append for one row: itself if there is no matcher, and else itself once for each
-- matcher that it passes.
unfoldable pub passing : Matchers → List Field → Result (List (List Field))
passing end row = ok []
passing (more m ms) row = do
  b ← match_row m row
  rest ← passing ms row
  ok (if b then row ∷ rest else rest)

unfoldable pub filtered : Matchers → List Field → Result (List (List Field))
unfolding passing
filtered end row = ok (row ∷ [])
filtered (more m ms) row = passing (more m ms) row

-- The text that `sorter.Less` compares; a field that is not there makes it panic.
sort_text : Text → List Field → Result Text
sort_text name row = elim (field_by_name name row) [ none ↦ panic | some f ↦ to_string f.value ]

-- What sort.Sort does with a number of entries: tests of `Less` and exchanges up to its end. Which
-- ones is up to the Go library.
pub data Plan : Type 0 where
  finished : Plan
  test : ℕ → ℕ → Plan → Plan → Plan
  exchange : ℕ → ℕ → Plan → Plan

-- `sorter` over a slice of structs, or of pointers to structs: the rows at first, what the places of
-- the slice hold now, and of which row at first, or of which place, each element of `fields` is a
-- part. (Through a pointer it is a field of the struct that is pointed to, which stays where it is;
-- in a slice of structs the field stands in the memory of the slice.)
pub record Sorter : Type 0 where
  pub by_pointer : Bool
  pub rows : ℕ → List Field
  pub entries : ℕ → List Field
  pub slots : ℕ → ℕ

-- `newSorter`
unfoldable pub new_sorter : Bool → (ℕ → List Field) → Sorter
new_sorter by_pointer rows = record {
  by_pointer = by_pointer;
  rows = rows;
  entries = rows;
  slots = λ k. k;
}

unfoldable pub swapped : {A : Type 0} → ℕ → ℕ → (ℕ → A) → ℕ → A
swapped i j f k = if k == i then f j else if k == j then f i else f k

-- `sorter.Swap` exchanges the fields and the entries.
unfoldable pub swap : ℕ → ℕ → Sorter → Sorter
swap i j s = record s { entries = swapped i j s.entries; slots = swapped i j s.slots }

-- The comparison of two rows by a field.
unfoldable pub row_less : Text → Bool → List Field → List Field → Result Bool
unfolding sort_text
row_less name reverse row row' = do
  a ← sort_text name row
  b ← sort_text name row'
  ok (less reverse a b)

-- The row that the k-th field is a part of.
unfoldable pub row_of_field : Sorter → ℕ → List Field
row_of_field s k = if s.by_pointer then s.rows (s.slots k) else s.entries (s.slots k)

-- `sorter.Less`
unfoldable pub less_at : Text → Bool → Sorter → ℕ → ℕ → Result Bool
less_at name reverse s i j = row_less name reverse (row_of_field s i) (row_of_field s j)

unfoldable pub run_plan : Text → Bool → Plan → Sorter → Result Sorter
run_plan name reverse finished s = ok s
run_plan name reverse (exchange i j p) s = run_plan name reverse p (swap i j s)
run_plan name reverse (test i j p q) s =
    let yes = run_plan name reverse p s in
    let no = run_plan name reverse q s in
    elim (less_at name reverse s i j) [
      | ok b ↦ if b then yes else no
      | err e ↦ err e
      | panic ↦ panic
    ]

unfoldable pub entry_at : List (List Field) → ℕ → List Field
entry_at [] k = []
entry_at (row ∷ rows) zero = row
entry_at (row ∷ rows) (suc k) = entry_at rows k

unfoldable pub entries_of : ℕ → (ℕ → List Field) → List (List Field)
entries_of zero f = []
entries_of (suc n) f = f 0 ∷ entries_of n (λ k. f (suc k))

-- The end of a query: nothing without a field to sort by, and else sort.Sort.
unfoldable pub sort_rows :
    (ℕ → Plan) → Bool → Text → Bool → List (List Field) → Result (List (List Field))
sort_rows plan by_pointer name reverse rows = if str_eq name [] then ok rows else (do
  s ← run_plan name reverse (plan (length rows)) (new_sorter by_pointer (entry_at rows))
  ok (entries_of (length rows) s.entries))
