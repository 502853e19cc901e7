-- ===== src/E2db/Tx/Delete.antt =====
-- `Delete`, `DeleteAll` and `Drop` of pkg/e2db/tx.go.
pub mod Collected
pub mod Gone
mod Tests
use e2d.E2db.Key.{row_id, index, indexes, unique, table, table_def}
use e2d.E2db.Model.{
  FieldDef, primary_key, secondary_index, unique_index, no_index, index_type, field_by_name,
}
use e2d.E2db.Values.{Value, to_string}
use e2d.E2db.Table.{Env, Table, validate_model}
use e2d.E2db.Query.{Row, find_one_by_primary_key}
use e2d.E2db.Tx.{delete_ops}
use e2d.Client
use e2d.Client.{Etcd, Op, M, World, pure, lift, bind, ◌>>=◌}
use e2d.Prelude.{
  ℕ, ◌+◌, Option, none, some, List, [], ◌∷◌, ◌++◌, map, ltb, ◌==◌, if◌then◌else◌, length, any, Text,
  codes, str_eq, contains, key_not_found, no_rows, not_indexed, table_not_found, other, Result, ok,
  err, panic,
}

-- filepath.Split(pk), the part after the last slash
unfoldable pub base_name : Text → Text
base_name [] = []
base_name (c ∷ s) = if any (λ x. x == b'/') (c ∷ s) then base_name s else c ∷ s

-- One more index key, of the text of the field.
with_key : Result Text → (Text → Text) → Result (List Text) → Result (List Text)
with_key (ok text) key (ok keys) = ok (key text ∷ keys)
with_key (ok text) key r = r
with_key (err e) key r = err e
with_key panic key r = panic

with_row : Text → Result (List Text) → Result (List Text)
with_row pk (ok keys) = ok (pk ∷ keys)
with_row pk r = r

module _ (env : Env) (t : Table) where
  open env use {etcd}

  field_text : Text → Row → Result Text
  field_text name row = elim (field_by_name name row) [ none ↦ panic | some f ↦ to_string f.value ]

  -- The index keys of a stored row, a field after the other.
  unfoldable pub index_keys : Text → Row → List FieldDef → Result (List Text)
  unfolding field_text with_key
  index_keys id row [] = ok []
  index_keys id row (f ∷ fs) =
      let rest = index_keys id row fs in
      elim (index_type f.tags) [
        | unique_index ↦
            with_key (field_text f.name row) (λ text. unique env.sha512 t.name f.name text) rest
        | secondary_index ↦
            with_key (field_text f.name row) (λ text. index env.sha512 t.name f.name text id) rest
        | primary_key ↦ rest
        | no_index ↦ rest
      ]

  keys_of_found : Text → Result Row → Result (List Text)
  unfolding with_row
  keys_of_found pk (ok row) = with_row pk (index_keys (base_name pk) row t.fields)
  keys_of_found pk (err no_rows) = ok []
  keys_of_found pk (err e) = err e
  keys_of_found pk panic = panic

  -- `getIndexesByPrimaryKey`
  unfoldable pub get_indexes_by_primary_key : Text → M etcd (List Text)
  unfolding keys_of_found
  get_indexes_by_primary_key pk w =
      let r = find_one_by_primary_key env t pk w in (keys_of_found pk r.0, r.1)

  -- A key that is not found means that there is nothing to delete.
  none_if_missing : Result (List Text) → Result (Option (List Text))
  none_if_missing (ok pks) = ok (some pks)
  none_if_missing (err key_not_found) = ok none
  none_if_missing (err e) = err e
  none_if_missing panic = panic

  missing_is_none : M etcd (List Text) → M etcd (Option (List Text))
  unfolding none_if_missing
  missing_is_none m w = let r = m w in (none_if_missing r.0, r.1)

  values : List (Text × Text) → List Text
  values = map (λ (kv : Text × Text). kv.1)

  -- The primary keys of the rows to delete, or that no index entry was found.
  unfoldable pub matching : FieldDef → Text → M etcd (Option (List Text))
  unfolding missing_is_none values
  matching f k = elim (index_type f.tags) [
    | primary_key ↦ pure (some (row_id t.name k ∷ []))
    | unique_index ↦
        missing_is_none (do b ← Client.get etcd (unique env.sha512 t.name f.name k); pure (b ∷ []))
    | secondary_index ↦
        missing_is_none
          (do kvs ← Client.prefix etcd (indexes env.sha512 t.name f.name k); pure (values kvs))
    | no_index ↦ lift (err not_indexed)
  ]

  -- The keys to delete, and how many of the primary keys have a row.
  unfoldable pub collect_keys : List Text → M etcd (List Text × ℕ)
  collect_keys [] = pure ([], 0)
  collect_keys (pk ∷ pks) = do
    keys ← get_indexes_by_primary_key pk
    rest ← collect_keys pks
    pure (keys ++ rest.0, (if ltb 0 (length keys) then rest.1 + 1 else rest.1))

  field_named : Text → List FieldDef → Result FieldDef
  field_named name [] = err (other (codes "invalid field name"))
  field_named name (f ∷ fs) = if str_eq f.name name then ok f else field_named name fs

  -- The end of `Delete`: the rows and their index entries go in one transaction.
  unfoldable pub delete_matching : Option (List Text) → M etcd ℕ
  delete_matching none = pure 0
  delete_matching (some pks) = do
    found ← collect_keys pks
    n ← Client.commit etcd (delete_ops found.0)
    pure found.1

  -- `Delete`: how many rows were deleted.
  unfoldable pub delete_rows : Text → Value → M etcd ℕ
  unfolding field_named
  delete_rows field_name v = do
    f ← lift (field_named field_name t.fields)
    k ← lift (to_string v)
    pks ← matching f k
    delete_matching pks

  -- The keys of a table but for those that contain the key of its definition.
  unfoldable pub data_keys : List (Text × Text) → List Text
  data_keys [] = []
  data_keys (kv ∷ kvs) =
      let rest = data_keys kvs in if contains (table_def t.name) kv.0 then rest else kv.0 ∷ rest

  -- `DeleteAll`
  unfoldable pub delete_all : M etcd ℕ
  delete_all = do
    kvs ← Client.prefix etcd (table t.name)
    Client.commit etcd (delete_ops (data_keys kvs))

  -- The error of reading the definition, as `Drop` reports it.
  unfoldable pub drop_error : Result Text → Result Text
  drop_error (err key_not_found) = err key_not_found
  drop_error (err e) = err table_not_found
  drop_error r = r

  -- The answer to the deletion is read before its error is looked at.
  deleted_or_panic : Result ℕ → Result ℕ
  deleted_or_panic (ok n) = ok n
  deleted_or_panic (err e) = panic
  deleted_or_panic panic = panic

  -- `Drop`
  unfoldable pub drop_table : M etcd ℕ
  unfolding drop_error deleted_or_panic
  drop_table = do
    v ← (λ w. let r = Client.get etcd (table_def t.name) w in (drop_error r.0, r.1))
    remote ← lift (env.decode_def v)
    same ← lift (validate_model t remote)
    (λ w. let r = Client.delete_range etcd (table t.name) w in (deleted_or_panic r.0, r.1))
