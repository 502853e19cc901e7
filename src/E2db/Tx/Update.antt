-- ===== src/E2db/Tx/Update.antt =====
-- `Update` of pkg/e2db/tx.go.
pub mod Changed
pub mod Stored
mod Tests
use e2d.E2db.Key.{row_id, index, unique}
use e2d.E2db.Model.{Tag, Field, ModelItem, has_tag, get_primary_key, set_field, field_by_name}
use e2d.E2db.Values.{Value, to_string, is_zero, deep_equal}
use e2d.E2db.Table.{Env, Table, validate_model}
use e2d.E2db.Query.{Row, find_one_by_primary_key}
use e2d.E2db.Tx.{encrypt_value}
use e2d.E2db.Tx.Insert
use e2d.Client
use e2d.Client.{Etcd, Op, put, M, World, pure, lift, bind, ◌>>=◌}
use e2d.Prelude.{
  Bool, ◌&&◌, ◌||◌, Option, none, some, List, [], ◌∷◌, ◌++◌, if◌then◌else◌, Text, codes, str_eq,
  no_rows, invalid_primary_key, unique_constraint, Result, ok, err, panic, Assoc,
}

-- The source collects the changes in a map by the old key; here they are in the order in which the
-- loops meet them, a field having each tag once. For each index key that changed the deletion of the old one and the new one.
pub moved : Text → Assoc Text → List Op
moved row_key [] = []
moved row_key ((old, new) ∷ rest) = Op.delete old ∷ put new row_key ∷ moved row_key rest

-- The row, and the index keys that changed.
unfoldable pub update_ops : Text → Text → Assoc Text → List Op
unfolding moved
update_ops row_key text moves = put row_key text ∷ moved row_key moves

module _ (env : Env) (t : Table) where
  open env use {etcd}

  -- The old and the new index key of a field that changed, for one of its tags.
  unfoldable pub tag_moves : Text → Text → Value → Value → Tag → M etcd (Assoc Text)
  tag_moves id field old v tag =
      if str_eq tag.name (codes "index")
      then (do
        was ← lift (to_string old)
        text ← lift (to_string v)
        pure ((index env.sha512 t.name field was id, index env.sha512 t.name field text id) ∷ []))
      else if str_eq tag.name (codes "unique")
      then (do
        was ← lift (to_string old)
        text ← lift (to_string v)
        there ← Client.exists etcd (unique env.sha512 t.name field text)
        (if there
            then lift (err unique_constraint)
            else pure
                ((unique env.sha512 t.name field was, unique env.sha512 t.name field text) ∷ [])))
      else pure []

  pub moves_loop : Text → Text → Value → Value → List Tag → M etcd (Assoc Text)
  moves_loop id field old v [] = pure []
  moves_loop id field old v (tag ∷ tags) = do
    moves ← tag_moves id field old v tag
    rest ← moves_loop id field old v tags
    pure (moves ++ rest)

  -- A field that changed: it is encrypted once, and its index keys move.
  pub changed_field : Text → Field → Value → M etcd (Value × Assoc Text)
  unfolding moves_loop
  changed_field id f old = do
    v ←
        (if has_tag (codes "encrypted" ∷ []) f.tags
          then encrypt_value env t f.value
          else pure f.value)
    moves ← moves_loop id f.name old v f.tags
    pure (v, moves)

  -- Whether the loop passes a field over: the primary key, a field that did not change, and a
  -- required one that is not given.
  unfoldable pub is_kept : Text → Field → Value → Bool
  is_kept pk_name f old =
      str_eq f.name pk_name
      || deep_equal f.value old
      || (has_tag (codes "required" ∷ []) f.tags && is_zero f.value)

  pub one_field : Text → Text → Field → Option Field → Row → M etcd (Row × Assoc Text)
  unfolding changed_field
  one_field id pk_name f none stored = lift panic
  one_field id pk_name f (some old) stored =
      if is_kept pk_name f old.value
      then pure (stored, [])
      else (do r ← changed_field id f old.value; pure (set_field f.name r.0 stored, r.1))

  -- The loop over the fields of the argument; `stored` is the row that was read, decrypted.
  unfoldable pub fields_loop : Text → Text → List Field → Row → M etcd (Row × Assoc Text)
  unfolding one_field
  fields_loop id pk_name [] stored = pure (stored, [])
  fields_loop id pk_name (f ∷ fs) stored = do
    r ← one_field id pk_name f (field_by_name f.name stored) stored
    rest ← fields_loop id pk_name fs r.0
    pure (rest.0, r.1 ++ rest.1)

  unfoldable pub write_changes : Text → Text → List Field → Row → M etcd Row
  write_changes id pk_name fields stored = do
    r ← fields_loop id pk_name fields stored
    text ← lift (env.encode r.0)
    n ← Client.commit etcd (update_ops (row_id t.name id) text r.1)
    pure r.0

  pub stored_or_insert : ModelItem → Text → Text → Result Row → M etcd Row
  stored_or_insert m id pk_name (ok stored) = write_changes id pk_name m.fields stored
  stored_or_insert m id pk_name (err no_rows) = Insert.insert env t m
  stored_or_insert m id pk_name (err e) = lift (err e)
  stored_or_insert m id pk_name panic = lift panic

  pub non_empty : Text → Result Text
  non_empty [] = err invalid_primary_key
  non_empty (c ∷ s) = ok (c ∷ s)

  -- `Update`: a row that is not there is inserted.
  unfoldable pub update : ModelItem → M etcd Row
  unfolding stored_or_insert non_empty
  update m = do
    same ← lift (validate_model t m.name)
    pk ← lift (get_primary_key m.fields)
    key ← lift (to_string pk.value)
    id ← lift (non_empty key)
    (λ w.
        let r = find_one_by_primary_key env t (row_id t.name id) w in
        stored_or_insert m id pk.name r.0 r.1)
