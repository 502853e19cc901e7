-- ===== src/E2db/Tx/Insert/RoundTrip.antt =====
-- An insertion, and the row that is read back (`Insert` of pkg/e2db/tx.go and findOneByPrimaryKey of
-- pkg/e2db/query.go).
use e2d.E2db.Key.{row_id}
use e2d.E2db.Model.{Field, ModelItem, has_tag, is_primary_key, get_primary_key}
use e2d.E2db.Values.{to_string}
use e2d.E2db.Rows.Plain.{IsPlain, handle_item_tags-IsPlain}
use e2d.E2db.Table.{Env, Table}
use e2d.E2db.Query.{read_row, find_one_by_primary_key, rows_of, no_rows_if_missing}
use e2d.E2db.Tx.Insert.{prepare, insert}
use e2d.E2db.Tx.Insert.Stored.{insert_stores}
use e2d.Client.{IsEtcd, World}
use e2d.Client.Reads.{get_answered}
use e2d.Prelude.{
  codes, false, inl, inr, Bool-cases, ok_injective, ◌∷◌, ◌≡◌, refl, subst, some, List, [], map, In,
  Text, ok,
}

-- What is relied on of the codec: fields that were encoded are decoded by their definitions.
abbrev pub IsCodec : Env → Type 0
IsCodec env =
    (fs : List Field) (text : Text)
    → env.encode fs ≡ ok text
    → env.decode (map (λ (f : Field). f.def) fs) text ≡ ok fs

module _ (env : Env) (laws : IsEtcd env.etcd) (codec : IsCodec env) (t : Table) where
  open env use {etcd}

  read_row_encoded :
      (fs : List Field) (text : Text)
      → map (λ (f : Field). f.def) fs ≡ t.fields
      → IsPlain fs
      → env.encode fs ≡ ok text
      → read_row env t text ≡ ok fs
  unfolding read_row
  read_row_encoded fs text defs plain h =
      let decoded = subst (λ ds. env.decode ds text ≡ ok fs) defs (codec fs text h) in
      rw (read_row, decoded) (handle_item_tags-IsPlain env.gcm t.secret_key fs plain)

  find_stored :
      (key text : Text) (w : World etcd) (fs : List Field)
      → w.fates ≡ []
      → etcd.get w.kv key ≡ some text
      → read_row env t text ≡ ok fs
      → (find_one_by_primary_key env t key w).0 ≡ ok fs
  unfolding find_one_by_primary_key rows_of no_rows_if_missing
  find_stored key text w fs fates h e = rw (get_answered etcd key text w fates h, e) refl

  plain_key :
      (fs : List Field) (pk : Field)
      → IsPlain fs
      → get_primary_key fs ≡ ok pk
      → has_tag (codes "encrypted" ∷ []) pk.tags ≡ false
  unfolding get_primary_key
  plain_key [] pk plain h = cc
  plain_key (f ∷ fs) pk plain h = elim (Bool-cases (is_primary_key f.tags)) [
    | inl e ↦
        subst (λ (p : Field). has_tag (codes "encrypted" ∷ []) p.tags ≡ false)
          (ok_injective (rw e at h)) plain.0
    | inr e ↦ plain_key fs pk plain.1 (rw e at h)
  ]

  -- A row without encrypted fields that was inserted is found by the text of the primary key that was
  -- left in the struct, as it was left there, if the following requests are answered and the key of the
  -- row is not one of its index keys.
  pub find_one_by_primary_key-insert :
      (m : ModelItem) (w : World etcd) (fields : List Field)
      → (insert env t m w).0 ≡ ok fields
      → map (λ (f : Field). f.def) fields ≡ t.fields
      → IsPlain fields
      → (insert env t m w).1.fates ≡ []
      → (id : Text) × (keys : List Text) × (pk : Field) × ((prepare env t m w).0
          ≡ ok (id, fields, keys))
        × (get_primary_key fields ≡ ok pk)
        × (to_string pk.value ≡ ok id)
        × ((¬ In (row_id t.name id) keys)
            → (find_one_by_primary_key env t (row_id t.name id) (insert env t m w).1).0 ≡ ok fields)
  find_one_by_primary_key-insert m w fields h defs plain fates =
      let (id, keys, text, prepared, (indexed, (pk, is_key, its_text)), encoded, entries, row) =
        insert_stores env laws t m w fields h in
      (
        id,
        keys,
        pk,
        prepared,
        is_key,
        its_text (plain_key fields pk plain is_key),
        λ other.
            find_stored (row_id t.name id) text (insert env t m w).1 fields fates (row other)
              (read_row_encoded fields text defs plain encoded),
      )
