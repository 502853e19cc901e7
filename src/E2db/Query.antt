-- ===== src/E2db/Query.antt =====
-- pkg/e2db/query.go: reading rows back.
pub mod Filters
pub mod Decrypted
mod Tests
use e2d.E2db.Key.{row_id, indexes, hidden, table}
use e2d.E2db.Values.{Value, to_string}
use e2d.E2db.Model.{
  FieldDef, Field, is_primary_key, is_index, primary_key, secondary_index, unique_index, no_index,
  index_type, index_key,
}
use e2d.E2db.Matcher.{Matchers}
use e2d.E2db.Rows.{handle_item_tags, filtered, sort_rows}
use e2d.E2db.Table.{Env, Table, validate_model, table_must_exist}
use e2d.Client
use e2d.Client.{Etcd, M, World, pure, lift, bind, continue, ◌>>=◌}
use e2d.Prelude.{
  ℕ, ◌+◌, Bool, true, false, not, ◌&&◌, List, [], ◌∷◌, ◌++◌, leb, ◌==◌, if◌then◌else◌, Text, codes,
  str_eq, contains, key_not_found, no_rows, not_indexed, invalid_field, other, Result, ok, err,
  panic,
}

-- `query`, but for its table
pub record Query : Type 0 where
  pub matchers : Matchers
  pub limit : ℕ
  pub skip : ℕ
  pub sort : Text
  pub reverse : Bool

abbrev pub Row : Type 0
Row = List Field

unfoldable pub new_query : Matchers → Query
new_query ms = record { matchers = ms; limit = 0; skip = 0; sort = []; reverse = false }

unfoldable pub order_by : Text → Query → Query
order_by field q = record q { sort = field }

unfoldable pub reversed : Query → Query
reversed q = record q { reverse = true }

unfoldable pub filter : Matchers → Query → Query
filter ms q = record q { matchers = ms }

unfoldable pub limit_to : ℕ → Query → Query
limit_to i q = record q { limit = i }

unfoldable pub skip_first : ℕ → Query → Query
skip_first i q = record q { skip = i }

-- A key that is not found means that there are no rows.
unfoldable pub no_rows_if_missing : {A : Type 0} → Result A → Result A
no_rows_if_missing (ok a) = ok a
no_rows_if_missing (err key_not_found) = err no_rows
no_rows_if_missing (err e) = err e
no_rows_if_missing panic = panic

-- Two results in a row: the first that is no result is that of both.
unfoldable pub joined : Result (List Row) → Result (List Row) → Result (List Row)
joined (ok rows) (ok more_rows) = ok (rows ++ more_rows)
joined (ok rows) (err e) = err e
joined (ok rows) panic = panic
joined (err e) rest = err e
joined panic rest = panic

-- strings.Contains(string(kv.Key), key.Hidden(table))
abbrev pub is_hidden : Text → Text → Bool
is_hidden name key = contains (hidden name) key

module _ (env : Env) (t : Table) where
  open env use {etcd}

  -- A request whose missing key is reported as no rows.
  unfoldable pub rows_of : {A : Type 0} → M etcd A → M etcd A
  unfolding no_rows_if_missing
  rows_of m w = let r = m w in (no_rows_if_missing r.0, r.1)

  -- The bytes of a row, read into the type of the table's model and decrypted.
  unfoldable pub read_row : Text → Result Row
  read_row text = elim (env.decode t.fields text) [
    | ok row ↦ handle_item_tags env.gcm t.secret_key row
    | err e ↦ err e
    | panic ↦ panic
  ]

  unfoldable pub find_one_by_primary_key : Text → M etcd Row
  unfolding rows_of
  find_one_by_primary_key key = do value ← rows_of (Client.get etcd key); lift (read_row value)

  unfoldable pub find_one_by_unique_index : Text → M etcd Row
  unfolding rows_of
  find_one_by_unique_index key = do pk ← rows_of (Client.get etcd key); find_one_by_primary_key pk

  first_value : List (Text × Text) → Result Text
  first_value [] = panic
  first_value (kv ∷ kvs) = ok kv.1

  unfoldable pub find_one_by_secondary_index : Text → M etcd Row
  unfolding rows_of first_value
  find_one_by_secondary_index key = do
    kvs ← rows_of (Client.prefix etcd key)
    pk ← lift (first_value kvs)
    find_one_by_primary_key pk

  -- The loop of `findManyByIndex`. Each item was decrypted by `findOneByPrimaryKey`, and is
  -- decrypted once more.
  unfoldable pub collect_by_index : Query → ℕ → List (Text × Text) → M etcd (List Row)
  collect_by_index q i [] = pure []
  collect_by_index q i (kv ∷ kvs) =
      let next = collect_by_index q (i + 1) kvs in
      let item : M etcd (List Row) = (do
        row ← find_one_by_primary_key kv.1
        el ← lift (handle_item_tags env.gcm t.secret_key row)
        rows ← lift (filtered q.matchers el)
        rest ← next
        pure (rows ++ rest)) in
      if not (q.limit == 0) && leb q.limit i then pure [] else item

  unfoldable pub find_many_by_index : Query → Bool → Text → M etcd (List Row)
  unfolding rows_of
  find_many_by_index q by_pointer key = do
    kvs ← rows_of (Client.prefix etcd key)
    rows ← collect_by_index q 0 kvs
    lift (sort_rows env.plan by_pointer q.sort q.reverse rows)

  -- What the loop of `findAll` appends for one row: after the matchers the row is appended once
  -- more.
  unfoldable pub appended : Matchers → Row → Result (List Row)
  appended Matchers.end row = ok (row ∷ [])
  appended ms row = joined (filtered ms row) (ok (row ∷ []))

  rows_for : Query → Result Row → Result (List Row)
  unfolding appended
  rows_for q (ok row) = appended q.matchers row
  rows_for q (err e) = err e
  rows_for q panic = panic

  -- The loop of `findAll`.
  unfoldable pub collect_all : Query → List (Text × Text) → Result (List Row)
  unfolding rows_for joined
  collect_all q [] = ok []
  collect_all q (kv ∷ kvs) =
      let rest = collect_all q kvs in
      if is_hidden t.name kv.0 then rest else joined (rows_for q (read_row kv.1)) rest

  sort_found : Query → Bool → List Row → Result (List Row)
  sort_found q by_pointer [] = err no_rows
  sort_found q by_pointer (row ∷ rows) = sort_rows env.plan by_pointer q.sort q.reverse (row ∷ rows)

  unfoldable pub find_all : Query → Bool → M etcd (List Row)
  unfolding rows_of sort_found
  find_all q by_pointer = do
    kvs ← rows_of (Client.prefix etcd (table t.name))
    rows ← lift (collect_all q kvs)
    lift (sort_found q by_pointer rows)

  -- `All`, for a slice of the model's type or of pointers to it.
  unfoldable pub all_rows : Query → Bool → Text → M etcd (List Row)
  all_rows q by_pointer type_name = do
    defined ← table_must_exist env t
    same ← lift (validate_model t type_name)
    find_all q by_pointer

  field_of : Text → List FieldDef → Result FieldDef
  field_of name [] = err invalid_field
  field_of name (f ∷ fs) = if str_eq f.name name then ok f else field_of name fs

  -- `Count`
  unfoldable pub count_rows : Text → Value → M etcd ℕ
  unfolding field_of
  count_rows field_name v = do
    defined ← table_must_exist env t
    f ← lift (field_of field_name t.fields)
    text ← lift (to_string v)
    k ← lift (index_key env.sha512 f t.name text)
    Client.count etcd k

  one : M etcd Row → M etcd (List Row)
  one m = do row ← m; pure (row ∷ [])

  find_one : FieldDef → Text → M etcd (List Row)
  unfolding one
  find_one f k = elim (index_type f.tags) [
    | primary_key ↦ one (find_one_by_primary_key (row_id t.name k))
    | unique_index ↦ one (find_one_by_unique_index (indexes env.sha512 t.name f.name k))
    | secondary_index ↦ one (find_one_by_secondary_index (indexes env.sha512 t.name f.name k))
    | no_index ↦ lift (err (other (codes "invalid index type")))
  ]

  find_many : Query → Bool → FieldDef → Text → M etcd (List Row)
  find_many q by_pointer f k =
      if is_primary_key f.tags
      then (do row ← find_one_by_primary_key (row_id t.name k); pure (row ∷ []))
      else find_many_by_index q by_pointer (indexes env.sha512 t.name f.name k)

  -- `Find`: `many` says whether the result is a slice, and `by_pointer` whether its
  -- elements are pointers.
  unfoldable pub find : Query → Bool → Bool → Text → Text → Value → M etcd (List Row)
  unfolding field_of find_one find_many
  find q many by_pointer type_name field_name v = do
    defined ← table_must_exist env t
    same ← lift (validate_model t type_name)
    f ← lift (field_of field_name t.fields)
    indexed ← lift (if is_index f.tags then ok tt else err not_indexed)
    k ← lift (to_string v)
    if many then find_many q by_pointer f k else find_one f k
