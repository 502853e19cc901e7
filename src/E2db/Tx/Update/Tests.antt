-- ===== src/E2db/Tx/Update/Tests.antt =====
-- Updates of a small table.
use e2d.E2db.Key.{row_id}
use e2d.E2db.Model.{Field, get_primary_key}
use e2d.E2db.Values.{to_string}
use e2d.E2db.Samples.{small_env, users, user, user_item, world_of}
use e2d.E2db.Tx.Update.{update}
use e2d.E2db.Tx.Update.Changed.{Distinct}
use e2d.E2db.Tx.Update.Stored.{update_stores, IsUpdated}
use e2d.Client.Samples.{assoc_etcd-IsEtcd}
use e2d.Prelude.{◌≡◌, refl, ap, false, In, str_eq, List, [], ◌∷◌, Text, codes, ok, Assoc}

abbrev with_ann : Assoc Text
with_ann =
    (codes "/User/_index/Name/616e6e", codes "/User/7") ∷ (codes "/User/7", codes "7|ann|") ∷ []

updated :
    (update small_env users (user_item (codes "7") (codes "bob")) (world_of with_ann [])).0
    ≡ ok (user (codes "7") (codes "bob"))
unfolding update e2d.E2db.Table.validate_model e2d.Prelude.str_eq get_primary_key
    e2d.E2db.Model.is_primary_key to_string e2d.E2db.Query.find_one_by_primary_key e2d.Client.get
    e2d.Client.read e2d.Prelude.lookup row_id e2d.E2db.Key.join e2d.Prelude.has_prefix
    e2d.E2db.Key.filepath_join e2d.E2db.Key.clean e2d.E2db.Key.resolve e2d.E2db.Key.split_slash
    e2d.Client.commit e2d.Client.count e2d.Client.exists e2d.E2db.Key.hash e2d.E2db.Key.hex
    e2d.E2db.Key.join_slash e2d.E2db.Key.unique e2d.E2db.Model.field_by_name e2d.E2db.Model.has_tag
    e2d.E2db.Model.set_field e2d.E2db.Query.no_rows_if_missing e2d.E2db.Query.read_row
    e2d.E2db.Query.rows_of e2d.E2db.Rows.decrypt_tags e2d.E2db.Rows.handle_item_tags
    e2d.E2db.Tx.Update.changed_field e2d.E2db.Tx.Update.fields_loop e2d.E2db.Tx.Update.is_kept
    e2d.E2db.Tx.Update.moved e2d.E2db.Tx.Update.moves_loop e2d.E2db.Tx.Update.non_empty
    e2d.E2db.Tx.Update.one_field e2d.E2db.Tx.Update.stored_or_insert e2d.E2db.Tx.Update.tag_moves
    e2d.E2db.Tx.Update.update_ops e2d.E2db.Tx.Update.write_changes e2d.E2db.Values.deep_equal
    e2d.E2db.Values.is_zero e2d.Prelude.delete e2d.Prelude.insert
updated = refl

moved_entry :
    (update small_env users (user_item (codes "7") (codes "bob")) (world_of with_ann [])).1.kv
    ≡ (codes "/User/_index/Name/626f62", codes "/User/7") ∷ (codes "/User/7", codes "7|bob|") ∷ []
unfolding update e2d.E2db.Table.validate_model e2d.Prelude.str_eq get_primary_key
    e2d.E2db.Model.is_primary_key to_string e2d.E2db.Query.find_one_by_primary_key e2d.Client.get
    e2d.Client.read e2d.Prelude.lookup row_id e2d.E2db.Key.join e2d.Prelude.has_prefix
    e2d.E2db.Key.filepath_join e2d.E2db.Key.clean e2d.E2db.Key.resolve e2d.E2db.Key.split_slash
    e2d.Client.commit e2d.Client.count e2d.Client.exists e2d.E2db.Key.hash e2d.E2db.Key.hex
    e2d.E2db.Key.join_slash e2d.E2db.Key.unique e2d.E2db.Model.field_by_name e2d.E2db.Model.has_tag
    e2d.E2db.Model.set_field e2d.E2db.Query.no_rows_if_missing e2d.E2db.Query.read_row
    e2d.E2db.Query.rows_of e2d.E2db.Rows.decrypt_tags e2d.E2db.Rows.handle_item_tags
    e2d.E2db.Tx.Update.changed_field e2d.E2db.Tx.Update.fields_loop e2d.E2db.Tx.Update.is_kept
    e2d.E2db.Tx.Update.moved e2d.E2db.Tx.Update.moves_loop e2d.E2db.Tx.Update.non_empty
    e2d.E2db.Tx.Update.one_field e2d.E2db.Tx.Update.stored_or_insert e2d.E2db.Tx.Update.tag_moves
    e2d.E2db.Tx.Update.update_ops e2d.E2db.Tx.Update.write_changes e2d.E2db.Values.deep_equal
    e2d.E2db.Values.is_zero e2d.Prelude.delete e2d.Prelude.insert
moved_entry = refl

bob-Distinct : Distinct (user (codes "7") (codes "bob"))
unfolding str_eq
bob-Distinct = (
  λ g i. elim i [
    | In.here e ↦ ap (λ (x : Field). str_eq (codes "ID") x.name) e
    | In.there j ↦ elim j [ ]
  ],
  (λ g i. elim i [ ], tt),
)

update_stores_example :
    (pk : Field) × (id : Text) × (get_primary_key (user (codes "7") (codes "bob")) ≡ ok pk)
    × (to_string pk.value ≡ ok id)
    × IsUpdated small_env assoc_etcd-IsEtcd users
        (user_item (codes "7") (codes "bob"))
        (world_of with_ann [])
        (user (codes "7") (codes "bob"))
        pk.name
        id
        (update small_env users (user_item (codes "7") (codes "bob")) (world_of with_ann []))
update_stores_example =
    update_stores small_env assoc_etcd-IsEtcd users (user_item (codes "7") (codes "bob"))
      (world_of with_ann []) (user (codes "7") (codes "bob")) bob-Distinct updated
