-- ===== src/E2db/Table.antt =====
-- pkg/e2db/table.go, and what a table works with: the store, the codec and the keys.
use e2d.E2db.Crypto.{Gcm}
use e2d.E2db.Rows.{Plan}
use e2d.E2db.Key.{table_def}
use e2d.E2db.Model.{FieldDef, Field}
use e2d.Client
use e2d.Client.{Etcd, M, World, pure, lift, bind, ◌>>=◌}
use e2d.Prelude.{
  ℕ, Option, List, if◌then◌else◌, Text, codes, str_eq, key_not_found, other, Result, ok, err, panic,
}

-- What the tables rest on: etcd, AES-GCM, SHA-512, sort.Sort, and the codec (`Codec` of codec.go), which
-- writes the fields of a struct as bytes and reads them into a struct of a given type.
pub record Env : Type 1 where
  pub etcd : Etcd
  pub gcm : Gcm
  pub sha512 : Text → Text
  pub encode : List Field → Result Text
  pub decode : List FieldDef → Text → Result (List Field)
  pub encode_def : Text → Result Text
  pub decode_def : Text → Result Text
  pub plan : ℕ → Plan

-- `Table`: the name and the fields of its model, and the secret key of the database's
-- configuration.
pub record Table : Type 0 where
  pub name : Text
  pub fields : List FieldDef
  pub secret_key : Option Text

-- `validateModel`: the types' names are compared, and nothing else of them.
unfoldable pub validate_model : Table → Text → Result (Unit {0})
validate_model t remote =
    if str_eq t.name remote then ok tt else err (other (codes "type name mismatch"))

module _ (env : Env) where
  open env use {etcd}

  define_table : Table → M etcd (Unit {0})
  define_table t = do
    text ← lift (env.encode_def t.name)
    n ← Client.set etcd (table_def t.name) text
    pure tt

  check_table : Table → Text → M etcd (Unit {0})
  check_table t v = do remote ← lift (env.decode_def v); lift (validate_model t remote)

  on_definition : Table → Result Text → M etcd (Unit {0})
  unfolding define_table check_table
  on_definition t (ok v) = check_table t v
  on_definition t (err key_not_found) = define_table t
  on_definition t (err e) = lift (err e)
  on_definition t panic = lift panic

  -- `tableMustExist`: the definition is written if there is none, and else its name is compared.
  unfoldable pub table_must_exist : Table → M etcd (Unit {0})
  unfolding on_definition
  table_must_exist t w = let r = Client.get etcd (table_def t.name) w in on_definition t r.0 r.1
