-- ===== src/E2db/Tx/Delete/Tests.antt =====
-- Deletions from a small table.
use e2d.E2db.Model.{index_type}
use e2d.E2db.Samples.{small_env, users, world_of}
use e2d.E2db.Tx.Delete.{collect_keys, delete_matching, base_name}
use e2d.Client.{World}
use e2d.Client.Samples.{assoc_etcd}
use e2d.Prelude.{◌-◌, ◌/◌, ◌≡◌, refl, some, List, [], ◌∷◌, Text, codes, str_eq, has_prefix, lookup}

abbrev one_user : World assoc_etcd
one_user =
    world_of
      ((codes "/User/_index/Name/616e6e", codes "/User/7") ∷ (codes "/User/7", codes "7|ann|") ∷ [])
      []

nothing_left : (delete_matching small_env users (some (codes "/User/7" ∷ [])) one_user).1.kv ≡ []
unfolding delete_matching collect_keys e2d.E2db.Tx.Delete.get_indexes_by_primary_key
    e2d.E2db.Tx.Delete.index_keys e2d.E2db.Tx.Delete.base_name e2d.E2db.Tx.delete_ops
    e2d.E2db.Query.find_one_by_primary_key e2d.E2db.Query.rows_of e2d.E2db.Query.no_rows_if_missing
    e2d.E2db.Query.read_row e2d.E2db.Rows.handle_item_tags e2d.E2db.Rows.decrypt_tags
    e2d.E2db.Values.to_string e2d.E2db.Model.index_type e2d.E2db.Model.has_tag
    e2d.E2db.Model.field_by_name e2d.Client.get e2d.Client.read e2d.Client.commit lookup
    e2d.Prelude.delete str_eq e2d.E2db.Key.unique e2d.E2db.Key.hash e2d.E2db.Key.hex
    e2d.E2db.Key.join e2d.E2db.Key.filepath_join e2d.E2db.Key.clean e2d.E2db.Key.split_slash
    e2d.E2db.Key.resolve e2d.E2db.Key.join_slash has_prefix
nothing_left = refl
