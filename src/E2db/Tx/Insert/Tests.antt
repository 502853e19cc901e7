-- ===== src/E2db/Tx/Insert/Tests.antt =====
-- Insertions into a small table.
use e2d.E2db.Model.{FieldDef, ModelItem, Field, get_primary_key, has_tag}
use e2d.E2db.Tx.Insert.Prepared.{IsPrepared}
use e2d.E2db.Values.{to_string, is_zero, Value, str, bytes, int, bool, stringer, opaque}
use e2d.E2db.Samples.{id_def, small_env, users, user, user_item, world_of}
use e2d.E2db.Tx.Insert.{prepare, insert}
use e2d.E2db.Tx.Insert.Atomic.{IsInserted, insert_lem}
use e2d.E2db.Tx.Insert.RoundTrip.{IsCodec, find_one_by_primary_key-insert}
use e2d.E2db.Query.{find_one_by_primary_key}
use e2d.E2db.Tx.Insert.Stored.{insert_stores}
use e2d.E2db.Key.{row_id}
use e2d.E2db.Table.{Env, Table}
use e2d.Client.{Fate, answered, lost, refused}
use e2d.Client.Samples.{assoc_etcd-IsEtcd}
use e2d.Prelude.{
  ◌-◌, ◌/◌, ◌≡◌, refl, sym, ap, subst, ◌&&◌, none, some, List, [], ◌∷◌, arith, In, Text, codes,
  str_eq, has_prefix, deadline, other, Result, ok, err, ◌>>=◌, lookup,
}

inserted :
    (insert small_env users (user_item (codes "7") (codes "ann")) (world_of [] [])).0
    ≡ ok (user (codes "7") (codes "ann"))
unfolding insert prepare e2d.E2db.Table.validate_model str_eq get_primary_key
    e2d.E2db.Model.is_primary_key e2d.E2db.Tx.Insert.new_key e2d.E2db.Values.is_zero
    e2d.E2db.Values.to_string e2d.E2db.Tx.Insert.fields_loop e2d.E2db.Model.set_field
    e2d.E2db.Tx.Insert.tags_loop e2d.E2db.Tx.Insert.tag_keys e2d.E2db.Model.has_tag
    e2d.Client.exists e2d.Client.count e2d.Client.read e2d.Client.commit e2d.E2db.Key.clean
    e2d.E2db.Key.filepath_join e2d.E2db.Key.hash e2d.E2db.Key.hex e2d.E2db.Key.join row_id
    e2d.E2db.Key.split_slash e2d.E2db.Key.unique e2d.E2db.Key.resolve e2d.E2db.Key.join_slash
    e2d.E2db.Tx.insert_ops e2d.E2db.Tx.Insert.non_empty has_prefix lookup e2d.Prelude.insert
    e2d.Prelude.delete
inserted = refl

stored :
    (insert small_env users (user_item (codes "7") (codes "ann")) (world_of [] [])).1.kv
    ≡ (codes "/User/_index/Name/616e6e", codes "/User/7") ∷ (codes "/User/7", codes "7|ann|") ∷ []
unfolding insert prepare e2d.E2db.Table.validate_model str_eq get_primary_key
    e2d.E2db.Model.is_primary_key e2d.E2db.Tx.Insert.new_key e2d.E2db.Values.is_zero
    e2d.E2db.Values.to_string e2d.E2db.Tx.Insert.fields_loop e2d.E2db.Model.set_field
    e2d.E2db.Tx.Insert.tags_loop e2d.E2db.Tx.Insert.tag_keys e2d.E2db.Model.has_tag
    e2d.Client.exists e2d.Client.count e2d.Client.read e2d.Client.commit e2d.E2db.Key.clean
    e2d.E2db.Key.filepath_join e2d.E2db.Key.hash e2d.E2db.Key.hex e2d.E2db.Key.join row_id
    e2d.E2db.Key.split_slash e2d.E2db.Key.unique e2d.E2db.Key.resolve e2d.E2db.Key.join_slash
    e2d.E2db.Tx.insert_ops e2d.E2db.Tx.Insert.non_empty has_prefix lookup e2d.Prelude.insert
    e2d.Prelude.delete
stored = refl

insert_lem_example :
    IsInserted small_env users
      (world_of [] (answered ∷ lost deadline ∷ []))
      (insert small_env users
        (user_item (codes "7") (codes "ann"))
        (world_of [] (answered ∷ lost deadline ∷ []))).1
unfolding get_primary_key e2d.E2db.Model.is_primary_key str_eq is_zero
insert_lem_example =
    insert_lem small_env users (user_item (codes "7") (codes "ann"))
      (world_of [] (answered ∷ lost deadline ∷ []))
      (λ pk h. ground (
        arith,
        ap (λ r. r >>= λ f. ok (is_zero f.value && has_tag (codes "increment" ∷ []) f.tags)) h,
      ))

insert_stores_example :
    let item = user_item (codes "7") (codes "ann") in
    let w = world_of [] [] in
    (id : Text) × (keys : List Text) × (text : Text) × ((prepare small_env users item w).0
      ≡ ok (id, user (codes "7") (codes "ann"), keys))
    × IsPrepared small_env users id keys (user (codes "7") (codes "ann"))
    × (small_env.encode (user (codes "7") (codes "ann")) ≡ ok text)
    × ((k : Text)
        → In k keys
        → lookup k (insert small_env users item w).1.kv ≡ some (row_id (codes "User") id))
    × ((¬ In (row_id (codes "User") id) keys)
        → lookup (row_id (codes "User") id) (insert small_env users item w).1.kv ≡ some text)
insert_stores_example =
    insert_stores small_env assoc_etcd-IsEtcd users (user_item (codes "7") (codes "ann"))
      (world_of [] []) (user (codes "7") (codes "ann")) inserted

-- The codec of a struct with one field, which is a string.
abbrev encode_one : List Field → Result Text
encode_one [] = err (other [])
encode_one (f ∷ []) = elim f.value [
  | str s ↦ ok s
  | bytes b ↦ err (other [])
  | int k n ↦ err (other [])
  | bool b ↦ err (other [])
  | stringer s z ↦ err (other [])
  | opaque n ↦ err (other [])
]
encode_one (f ∷ g ∷ fs) = err (other [])

abbrev decode_one : List FieldDef → Text → Result (List Field)
decode_one [] text = err (other [])
decode_one (d ∷ ds) text = ok (record { def = d; value = str text } ∷ [])

abbrev one_env : Env
one_env = record small_env { encode = encode_one; decode = decode_one }

decode_value :
    (d : FieldDef) (v : Value) (text : Text)
    → encode_one (record { def = d; value = v } ∷ []) ≡ ok text
    → decode_one (d ∷ []) text ≡ ok (record { def = d; value = v } ∷ [])
decode_value d (str s) text h =
    subst (λ (u : Text). decode_one (d ∷ []) text ≡ ok (record { def = d; value = str u } ∷ []))
      (sym (the_text s text h)) refl
  where
    the_text : (s text : Text) → Result.ok s ≡ ok text → s ≡ text
    the_text s text h = cc
decode_value d (bytes b) text h = cc
decode_value d (int k n) text h = cc
decode_value d (bool b) text h = cc
decode_value d (stringer s z) text h = cc
decode_value d (opaque n) text h = cc

one_env-IsCodec : IsCodec one_env
one_env-IsCodec [] text h = cc
one_env-IsCodec (f ∷ []) text h = decode_value f.def f.value text h
one_env-IsCodec (f ∷ g ∷ fs) text h = cc

abbrev accounts : Table
accounts = record { name = codes "Account"; fields = id_def ∷ []; secret_key = none }

abbrev account : List Field
account = record { def = id_def; value = str (codes "7") } ∷ []

abbrev account_item : ModelItem
account_item = record { name = codes "Account"; fields = account }

account_inserted : (insert one_env accounts account_item (world_of [] [])).0 ≡ ok account
unfolding insert prepare e2d.E2db.Table.validate_model str_eq get_primary_key
    e2d.E2db.Model.is_primary_key e2d.E2db.Tx.Insert.new_key e2d.E2db.Values.is_zero
    e2d.E2db.Values.to_string e2d.E2db.Tx.Insert.fields_loop e2d.E2db.Model.set_field
    e2d.E2db.Tx.Insert.tags_loop e2d.E2db.Tx.Insert.tag_keys e2d.E2db.Model.has_tag
    e2d.Client.exists e2d.Client.count e2d.Client.read e2d.Client.commit e2d.E2db.Key.clean
    e2d.E2db.Key.filepath_join e2d.E2db.Key.hash e2d.E2db.Key.hex e2d.E2db.Key.join row_id
    e2d.E2db.Key.split_slash e2d.E2db.Key.unique e2d.E2db.Key.resolve e2d.E2db.Key.join_slash
    e2d.E2db.Tx.insert_ops e2d.E2db.Tx.Insert.non_empty has_prefix lookup e2d.Prelude.insert
    e2d.Prelude.delete
account_inserted = refl

account_fates : (insert one_env accounts account_item (world_of [] [])).1.fates ≡ []
unfolding insert prepare e2d.E2db.Table.validate_model str_eq get_primary_key
    e2d.E2db.Model.is_primary_key e2d.E2db.Tx.Insert.new_key e2d.E2db.Values.is_zero
    e2d.E2db.Values.to_string e2d.E2db.Tx.Insert.fields_loop e2d.E2db.Model.set_field
    e2d.E2db.Tx.Insert.tags_loop e2d.E2db.Tx.Insert.tag_keys e2d.E2db.Model.has_tag
    e2d.Client.exists e2d.Client.count e2d.Client.read e2d.Client.commit e2d.E2db.Key.clean
    e2d.E2db.Key.filepath_join e2d.E2db.Key.hash e2d.E2db.Key.hex e2d.E2db.Key.join row_id
    e2d.E2db.Key.split_slash e2d.E2db.Key.unique e2d.E2db.Key.resolve e2d.E2db.Key.join_slash
    e2d.E2db.Tx.insert_ops e2d.E2db.Tx.Insert.non_empty has_prefix lookup e2d.Prelude.insert
    e2d.Prelude.delete
account_fates = refl

find_one_by_primary_key-insert_example :
    (id : Text) × (keys : List Text) × (pk : Field) × ((prepare one_env accounts account_item
        (world_of [] [])).0
      ≡ ok (id, account, keys))
    × (get_primary_key account ≡ ok pk)
    × (to_string pk.value ≡ ok id)
    × ((¬ In (row_id (codes "Account") id) keys)
        → (find_one_by_primary_key one_env accounts
            (row_id (codes "Account") id)
            (insert one_env accounts account_item (world_of [] [])).1).0
          ≡ ok account)
unfolding has_tag str_eq
find_one_by_primary_key-insert_example =
    find_one_by_primary_key-insert one_env assoc_etcd-IsEtcd one_env-IsCodec accounts account_item
      (world_of [] []) account account_inserted refl (refl, tt) account_fates
