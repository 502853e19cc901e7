-- ===== src/E2db/Tx.antt =====
-- pkg/e2db/tx.go: inserting, updating and deleting rows.
pub mod Insert
pub mod Update
pub mod Delete
use e2d.E2db.Crypto.{encrypt}
use e2d.E2db.Key.{row_id, table_lock}
use e2d.E2db.Model.{Field}
use e2d.E2db.Values.{Value, str, bytes, to_string}
use e2d.E2db.Table.{Env, Table, table_must_exist}
use e2d.Client
use e2d.Client.{Etcd, Op, put, delete, M, World, pure, lift, bind, continue, ◌>>=◌}
use e2d.Prelude.{
  str_ne, In-select, select-In, In-insert, bool_eq→eq, bool_eq, ℕ, zero, suc, ◌+◌, ◌-◌, ◌*◌, ◌/◌,
  ◌%◌, ◌≤◌, ◌<◌, String, ◌≡◌, refl, sym, ap, ◌∙◌, subst, fun_ext, ◌≢◌, ◌↔◌, ◌⊎◌, inl, inr, Bool,
  true, false, not, ◌&&◌, ◌||◌, false≢true, Option, none, some, List, [], ◌∷◌, ◌++◌, map,
  append-nil, append_assoc, arith, ltb, leb, ◌==◌, if◌then◌else◌, Bool-cases, Option-cases, ==_iff,
  length, take, drop, length-append, length-take, take-append, drop-append, take-append-drop,
  select, all, any, All, In, In-append_left, In-append_right, In-append, Text, codes, str_eq,
  str_eq_refl, str_eq_iff, has_prefix, contains, str_lt, trim_prefix, has_prefix-append,
  append-drop_of_has_prefix, contains_of_has_prefix, Error, key_not_found, no_rows, not_indexed,
  invalid_field, field_required, invalid_primary_key, table_not_found, unique_constraint,
  no_primary_key, not_encrypted, malformed_ciphertext, no_encryption_key, message_auth_failed,
  unexpected_eof, invalid_scheme, cannot_parse_url, cannot_find_member, server_stopped, deadline,
  other, Result, ok, err, panic, Assoc, lookup, insert, lookup-delete, lookup-insert, In-of_lookup,
  In-delete,
}

module _ (env : Env) (t : Table) where
  open env use {etcd}

  -- `Table.Tx`: the table is defined and locked before `fn` runs.
  unfoldable pub with_tx : {A : Type 0} → M etcd A → M etcd A
  with_tx fn = do defined ← table_must_exist env t; locked ← Client.lock etcd; fn

  -- The value of a field as ciphertext. A field of strings does not take the bytes that are set.
  set_encrypted : Value → Text → Result Value
  set_encrypted (bytes b) enc = ok (bytes enc)
  set_encrypted v enc = panic

  sealed_with : Value → Text → Text → M etcd Value
  unfolding set_encrypted
  sealed_with v key text w =
      continue (encrypt env.gcm w.draws text key) (λ enc w'. (set_encrypted v enc, w'))
        (record w { draws = w.draws + 1 })

  encrypt_with : Value → Option Text → M etcd Value
  unfolding sealed_with
  encrypt_with v none = lift (err (other (codes "encryption key is not set")))
  encrypt_with v (some key) = do text ← lift (to_string v); sealed_with v key text

  -- The encryption of a field, in `Insert` and `Update`.
  unfoldable pub encrypt_value : Value → M etcd Value
  unfolding encrypt_with
  encrypt_value v = encrypt_with v t.secret_key

-- `deleteOps`
unfoldable pub delete_ops : List Text → List Op
delete_ops keys = map delete keys

-- The row and its index entries, in the one transaction of an insertion.
unfoldable pub insert_ops : Text → Text → List Text → List Op
insert_ops row_key text indexes = put row_key text ∷ map (λ idx. put idx row_key) indexes
