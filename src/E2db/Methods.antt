-- ===== src/E2db/Methods.antt =====
-- pkg/e2db/table.go and db.go: the methods of a table, and opening a database and its tables.
use e2d.Prelude.Decimal.{pos}
use e2d.Netutil.{Net}
use e2d.Client.Security.{ClientConfig}
use e2d.E2db.Db.{Config, validate, with_encryption}
use e2d.E2db.Types.{GoType, Types, Outcome, done, and_then}
use e2d.E2db.Types.Models.{ModelDef, new_model_def}
use e2d.E2db.Values.{Value}
use e2d.E2db.Model.{ModelItem, Field}
use e2d.E2db.Matcher.{Matchers}
use e2d.E2db.Query.{
  Query, Row, new_query, order_by, reversed, limit_to, skip_first, all_rows, count_rows, find,
}
use e2d.E2db.Table.{Env, Table}
use e2d.E2db.Tx.{with_tx}
use e2d.E2db.Tx.Insert
use e2d.E2db.Tx.Update
use e2d.E2db.Tx.Delete.{delete_rows, delete_all, drop_table}
use e2d.Client.{M}
use e2d.Prelude.{
  ℕ, Bool, List, [], ◌∷◌, ◌++◌, if◌then◌else◌, Text, str_eq, codes, Result, ok, ◌>>=◌, Option, some,
  none,
}

-- The queries that a table opens: `OrderBy`, `Reverse`, `Filter`, `Limit` and `Skip`.
unfoldable pub table_order_by : Text → Query
table_order_by field = order_by field (new_query Matchers.end)

unfoldable pub table_reverse : Query
table_reverse = reversed (new_query Matchers.end)

unfoldable pub table_filter : Matchers → Query
table_filter ms = new_query ms

unfoldable pub table_limit : ℕ → Query
table_limit i = limit_to i (new_query Matchers.end)

unfoldable pub table_skip : ℕ → Query
table_skip i = skip_first i (new_query Matchers.end)

module _ (env : Env) (t : Table) where
  open env use {etcd}

  -- `All`, `Count` and `Find`
  unfoldable pub table_all : Bool → Text → M etcd (List Row)
  table_all by_pointer type_name = all_rows env t (new_query Matchers.end) by_pointer type_name

  unfoldable pub table_count : Text → Value → M etcd ℕ
  table_count field_name v = count_rows env t field_name v

  unfoldable pub table_find : Bool → Bool → Text → Text → Value → M etcd (List Row)
  table_find many by_pointer type_name field_name v =
      find env t (new_query Matchers.end) many by_pointer type_name field_name v

  -- `Insert`, `Update`, `Delete`, `DeleteAll` and `Drop`, each in a transaction
  unfoldable pub table_insert : ModelItem → M etcd (List Field)
  table_insert m = with_tx env t (Insert.insert env t m)

  unfoldable pub table_update : ModelItem → M etcd Row
  table_update m = with_tx env t (Update.update env t m)

  unfoldable pub table_delete : Text → Value → M etcd ℕ
  table_delete field_name v = with_tx env t (delete_rows env t field_name v)

  unfoldable pub table_delete_all : M etcd ℕ
  table_delete_all = with_tx env t (delete_all env t)

  unfoldable pub table_drop : M etcd ℕ
  table_drop = with_tx env t (drop_table env t)

-- `DB`
pub record Database (C : Type 0) : Type 0 where
  pub client : C
  pub cfg : Config

-- The client, which other modules construct and ask: `member_list` is its check of the cluster, and
-- `namespaced` puts a prefix before its keys.
pub record Clients (C : Type 0) : Type 0 where
  pub url_string : Text × Text → Text
  pub new : ClientConfig → Result C
  pub member_list : C → Result (Unit {0})
  pub namespaced : Text → C → C

module _ {C : Type 0} (clients : Clients C) where
  in_namespace : Text → C → C
  in_namespace name c = if str_eq name [] then c else clients.namespaced (codes "/" ++ name) c

  -- The configuration of the client: its timeout is left out, so that it has the default one.
  unfoldable pub client_config_of : Config → ClientConfig
  client_config_of cfg = record {
    client_urls = clients.url_string cfg.client_url ∷ [];
    security_config = cfg.security_config;
    timeout = pos 0;
    auto_sync_interval = cfg.auto_sync_interval;
  }

  -- `New`
  unfoldable pub new_database : (Text → Text) → Net → Config → Result (Database C)
  unfolding in_namespace
  new_database sha net given = do
    cfg ← validate sha net given
    c ← clients.new (client_config_of cfg)
    there ← clients.member_list c
    ok (record { client = in_namespace cfg.namespace c; cfg = cfg })

-- `Table`, but for its database: the model, and the key of the codec where it encrypts.
pub record OpenTable : Type 0 where
  pub meta : ModelDef
  pub codec_key : Option Text

-- The option `WithEncryption` sets the key of the codec.
unfoldable pub encryption_option : (Text → Text) → Text → OpenTable → OpenTable
encryption_option sha secret t = record t { codec_key = some (with_encryption sha secret) }

unfoldable pub with_options : List (OpenTable → OpenTable) → OpenTable → OpenTable
with_options [] t = t
with_options (option ∷ options) t = with_options options (option t)

-- `DB.Table`, of the type of a value.
unfoldable pub open_table : Types → ℕ → GoType → List (OpenTable → OpenTable) → Outcome OpenTable
unfolding with_options
open_table types n t options =
    and_then (new_model_def types n t)
      (λ meta. done (with_options options (record { meta = meta; codec_key = none })))
