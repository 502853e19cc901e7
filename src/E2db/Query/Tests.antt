-- ===== src/E2db/Query/Tests.antt =====
-- Queries on a small table.
use e2d.E2db.Crypto.{encryption_header, is_encrypted}
use e2d.E2db.Values.{Value, str, bytes}
use e2d.E2db.Model.{FieldDef, Field, has_tag}
use e2d.E2db.Matcher.{Matchers, end, more, field_eq}
use e2d.E2db.Table.{Env, Table}
use e2d.E2db.Query.{
  Query, new_query, collect_all, all_rows, collect_by_index, find_one_by_primary_key,
}
use e2d.E2db.Query.Filters.{all_rows-In}
use e2d.E2db.Query.Decrypted.{collect_by_index-IsClear}
use e2d.E2db.Samples.{small_env, users, user, world_of, tag}
use e2d.Client.{World}
use e2d.Client.Samples.{assoc_etcd, assoc_etcd-IsEtcd}
use e2d.Prelude.{
  ◌≡◌, refl, ◌≢◌, false, some, List, [], ◌∷◌, ◌++◌, In, Text, codes, str_eq, has_prefix, contains,
  ok, lookup,
}

abbrev two_rows : List (Text × Text)
two_rows = (codes "/User/7", codes "7|ann|") ∷ (codes "/User/8", codes "8|bob|") ∷ []

-- A query for the users called zed.
abbrev for_zed : Query
for_zed = record {
  matchers = more (field_eq (codes "Name") (str (codes "zed"))) end;
  limit = 0;
  skip = 0;
  sort = [];
  reverse = false;
}

abbrev with_definition : World assoc_etcd
with_definition = world_of ((codes "/User/_table", codes "User") ∷ two_rows) []

all_found :
    (all_rows small_env users for_zed false (codes "User") with_definition).0
    ≡ ok (user (codes "7") (codes "ann") ∷ user (codes "8") (codes "bob") ∷ [])
unfolding collect_all e2d.E2db.Query.read_row e2d.E2db.Query.appended e2d.E2db.Rows.handle_item_tags
    e2d.E2db.Rows.decrypt_tags e2d.E2db.Rows.decrypt_value e2d.E2db.Rows.filtered
    e2d.E2db.Rows.passing e2d.E2db.Matcher.match_row e2d.E2db.Values.to_string
    e2d.E2db.Values.deep_equal e2d.E2db.Model.field_by_name e2d.E2db.Crypto.decrypt is_encrypted
    find_one_by_primary_key e2d.E2db.Query.rows_of e2d.E2db.Query.no_rows_if_missing e2d.Client.get
    e2d.Client.read has_prefix contains lookup str_eq e2d.E2db.Key.hidden e2d.E2db.Key.join
    e2d.E2db.Key.filepath_join e2d.E2db.Key.clean e2d.E2db.Key.split_slash e2d.E2db.Key.resolve
    e2d.E2db.Key.join_slash has_tag e2d.E2db.Query.joined all_rows e2d.E2db.Query.find_all
    e2d.E2db.Query.sort_found e2d.E2db.Rows.sort_rows e2d.Client.prefix e2d.E2db.Key.table
    e2d.E2db.Key.table_def e2d.E2db.Table.table_must_exist e2d.E2db.Table.validate_model
all_found = refl

all_rows-In_example :
    In
      (user (codes "8") (codes "bob"))
      (user (codes "7") (codes "ann") ∷ user (codes "8") (codes "bob") ∷ [])
unfolding collect_all e2d.E2db.Query.read_row e2d.E2db.Query.appended e2d.E2db.Rows.handle_item_tags
    e2d.E2db.Rows.decrypt_tags e2d.E2db.Rows.decrypt_value e2d.E2db.Rows.filtered
    e2d.E2db.Rows.passing e2d.E2db.Matcher.match_row e2d.E2db.Values.to_string
    e2d.E2db.Values.deep_equal e2d.E2db.Model.field_by_name e2d.E2db.Crypto.decrypt is_encrypted
    find_one_by_primary_key e2d.E2db.Query.rows_of e2d.E2db.Query.no_rows_if_missing e2d.Client.get
    e2d.Client.read has_prefix contains lookup str_eq e2d.E2db.Key.hidden e2d.E2db.Key.join
    e2d.E2db.Key.filepath_join e2d.E2db.Key.clean e2d.E2db.Key.split_slash e2d.E2db.Key.resolve
    e2d.E2db.Key.join_slash has_tag e2d.E2db.Query.joined all_rows e2d.E2db.Query.find_all
    e2d.E2db.Query.sort_found e2d.E2db.Rows.sort_rows e2d.Client.prefix e2d.E2db.Key.table
    e2d.E2db.Key.table_def e2d.E2db.Table.table_must_exist e2d.E2db.Table.validate_model
all_rows-In_example =
    all_rows-In small_env users assoc_etcd-IsEtcd for_zed false (codes "User") with_definition
      (user (codes "7") (codes "ann") ∷ user (codes "8") (codes "bob") ∷ []) refl all_found
      (codes "/User/8") (codes "8|bob|") (user (codes "8") (codes "bob")) refl refl refl refl

abbrev secret_def : FieldDef
secret_def = record { name = codes "Secret"; tags = tag (codes "encrypted") ∷ [] }

abbrev secret : Text → Field
secret text = record { def = secret_def; value = bytes text }

abbrev secret_env : Env
secret_env = record small_env { decode = λ ds text. ok (secret text ∷ []) }

abbrev secrets : Table
secrets = record {
  name = codes "Secret";
  fields = secret_def ∷ [];
  secret_key = some (codes "key");
}

abbrev secret_world : World assoc_etcd
secret_world = world_of ((codes "/Secret/1", encryption_header ++ (7 ∷ 9 ∷ codes "hello")) ∷ []) []

secret_found :
    (find_one_by_primary_key secret_env secrets (codes "/Secret/1") secret_world).0
    ≡ ok (secret (codes "hello") ∷ [])
unfolding collect_all e2d.E2db.Query.read_row e2d.E2db.Query.appended e2d.E2db.Rows.handle_item_tags
    e2d.E2db.Rows.decrypt_tags e2d.E2db.Rows.decrypt_value e2d.E2db.Rows.filtered
    e2d.E2db.Rows.passing e2d.E2db.Matcher.match_row e2d.E2db.Values.to_string
    e2d.E2db.Values.deep_equal e2d.E2db.Model.field_by_name e2d.E2db.Crypto.decrypt is_encrypted
    find_one_by_primary_key e2d.E2db.Query.rows_of e2d.E2db.Query.no_rows_if_missing e2d.Client.get
    e2d.Client.read has_prefix contains lookup str_eq e2d.E2db.Key.hidden e2d.E2db.Key.join
    e2d.E2db.Key.filepath_join e2d.E2db.Key.clean e2d.E2db.Key.split_slash e2d.E2db.Key.resolve
    e2d.E2db.Key.join_slash has_tag e2d.E2db.Query.joined
secret_found = refl

collect_by_index-IsClear_example :
    (collect_by_index secret_env secrets for_zed 0
      ((codes "/Secret/_index", codes "/Secret/1") ∷ [])
      secret_world).0
    ≢ ok []
unfolding collect_all e2d.E2db.Query.read_row e2d.E2db.Query.appended e2d.E2db.Rows.handle_item_tags
    e2d.E2db.Rows.decrypt_tags e2d.E2db.Rows.decrypt_value e2d.E2db.Rows.filtered
    e2d.E2db.Rows.passing e2d.E2db.Matcher.match_row e2d.E2db.Values.to_string
    e2d.E2db.Values.deep_equal e2d.E2db.Model.field_by_name e2d.E2db.Crypto.decrypt is_encrypted
    find_one_by_primary_key e2d.E2db.Query.rows_of e2d.E2db.Query.no_rows_if_missing e2d.Client.get
    e2d.Client.read has_prefix contains lookup str_eq e2d.E2db.Key.hidden e2d.E2db.Key.join
    e2d.E2db.Key.filepath_join e2d.E2db.Key.clean e2d.E2db.Key.split_slash e2d.E2db.Key.resolve
    e2d.E2db.Key.join_slash has_tag e2d.E2db.Query.joined
collect_by_index-IsClear_example =
    collect_by_index-IsClear secret_env secrets for_zed 0
      (codes "/Secret/_index", codes "/Secret/1") [] secret_world (secret (codes "hello") ∷ [])
      (secret (codes "hello")) refl secret_found (In.here refl)
      (record { tagged = refl; text = codes "hello"; shown = refl; clear = refl }) []
