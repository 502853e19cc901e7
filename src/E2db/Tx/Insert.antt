-- ===== src/E2db/Tx/Insert.antt =====
-- `Insert` of pkg/e2db/tx.go.
pub mod Atomic
pub mod Prepared
pub mod Stored
pub mod RoundTrip
mod Tests
use e2d.Prelude.Decimal.{ℤ}
use e2d.E2db.Key.{row_id, index, unique, increment}
use e2d.E2db.Model.{Tag, FieldDef, Field, ModelItem, has_tag, get_primary_key, set_field}
use e2d.E2db.Values.{Value, int, int_kind, int64_kind, to_string, is_zero}
use e2d.E2db.Table.{Env, Table, validate_model}
use e2d.E2db.Tx.{encrypt_value, insert_ops}
use e2d.Client
use e2d.Client.{Etcd, M, World, pure, lift, bind, ◌>>=◌}
use e2d.Prelude.{
  ◌&&◌, List, [], ◌∷◌, ◌++◌, if◌then◌else◌, Text, codes, str_eq, field_required,
  invalid_primary_key, unique_constraint, Result, ok, err,
}

-- The increment that is assigned to a primary key; a key of another kind stays as it is.
assigned : Value → ℤ → Value
assigned (int int_kind n) id = int int_kind id
assigned (int int64_kind n) id = int int64_kind id
assigned v id = v

non_empty : Text → Result Text
non_empty [] = err invalid_primary_key
non_empty (c ∷ s) = ok (c ∷ s)

module _ (env : Env) (t : Table) where
  open env use {etcd}

  -- The value of the primary key, which a counter gives to a new row that has none.
  unfoldable pub new_key : Field → M etcd Value
  unfolding assigned
  new_key pk =
      if is_zero pk.value && has_tag (codes "increment" ∷ []) pk.tags
      then (do id ← Client.incr etcd (increment t.name pk.name); pure (assigned pk.value id))
      else pure pk.value

  -- The part of the loop over the tags that looks at the tag's name: the index keys to write.
  unfoldable pub tag_keys : Text → Text → Value → Tag → M etcd (List Text)
  tag_keys id field v tag =
      if str_eq tag.name (codes "index")
      then (do text ← lift (to_string v); pure (index env.sha512 t.name field text id ∷ []))
      else if str_eq tag.name (codes "required")
      then (if is_zero v then lift (err field_required) else pure [])
      else if str_eq tag.name (codes "unique")
      then (do
        text ← lift (to_string v)
        there ← Client.exists etcd (unique env.sha512 t.name field text)
        (if there
            then lift (err unique_constraint)
            else pure (unique env.sha512 t.name field text ∷ [])))
      else pure []

  -- The loop over the tags of a field: a field that is encrypted is encrypted at each of its tags.
  unfoldable pub tags_loop : Text → FieldDef → List Tag → Value → M etcd (Value × List Text)
  tags_loop id f [] v = pure (v, [])
  tags_loop id f (tag ∷ tags) v = do
    keys ← tag_keys id f.name v tag
    v' ← (if has_tag (codes "encrypted" ∷ []) f.tags then encrypt_value env t v else pure v)
    rest ← tags_loop id f tags v'
    pure (rest.0, keys ++ rest.1)

  -- The loop over the fields.
  unfoldable pub fields_loop : Text → List Field → M etcd (List Field × List Text)
  fields_loop id [] = pure ([], [])
  fields_loop id (f ∷ fs) = do
    r ← tags_loop id f.def f.tags f.value
    rest ← fields_loop id fs
    pure (record f { value = r.0 } ∷ rest.0, r.1 ++ rest.1)

  -- What an insertion is going to write: the primary key, the fields as they are stored and the
  -- index keys. Nothing but a counter is written until then.
  unfoldable pub prepare : ModelItem → M etcd (Text × List Field × List Text)
  unfolding non_empty
  prepare m = do
    same ← lift (validate_model t m.name)
    pk ← lift (get_primary_key m.fields)
    value ← new_key pk
    text ← lift (to_string value)
    id ← lift (non_empty text)
    r ← fields_loop id (set_field pk.name value m.fields)
    pure (id, r.0, r.1)

  -- `Insert`: the fields come back as the source leaves them in the struct.
  unfoldable pub insert : ModelItem → M etcd (List Field)
  insert m = do
    p ← prepare m
    text ← lift (env.encode p.1)
    n ← Client.commit etcd (insert_ops (row_id t.name p.0) text p.2)
    pure p.1
