-- ===== src/E2db/Samples.antt =====
-- A small table of users, in a store that is an association list.
use e2d.E2db.Crypto.{Gcm}
use e2d.E2db.Rows.{finished}
use e2d.E2db.Model.{Tag, FieldDef, Field, ModelItem}
use e2d.E2db.Values.{str, to_string}
use e2d.E2db.Table.{Env, Table}
use e2d.Client.{World, Fate}
use e2d.Client.Samples.{assoc_etcd}
use e2d.Prelude.{
  none, some, List, [], ◌∷◌, ◌++◌, ◌==◌, if◌then◌else◌, Text, codes, Result, ok, ◌>>=◌, Assoc,
}

-- Values with a bar after each.
abbrev pub encode_fields : List Field → Result Text
encode_fields [] = ok []
encode_fields (f ∷ fs) = do
  text ← to_string f.value
  rest ← encode_fields fs
  ok (text ++ b'|' ∷ rest)

abbrev pub up_to_bar : Text → Text × Text
up_to_bar [] = ([], [])
up_to_bar (c ∷ s) = let r = up_to_bar s in if c == b'|' then ([], s) else (c ∷ r.0, r.1)

abbrev pub decode_fields : List FieldDef → Text → Result (List Field)
decode_fields [] text = ok []
decode_fields (d ∷ ds) text = do
  rest ← decode_fields ds (up_to_bar text).1
  ok (record { def = d; value = str (up_to_bar text).0 } ∷ rest)

abbrev pub small_gcm : Gcm
small_gcm = record {
  nonce_size = 2;
  nonce = λ n. ok (7 ∷ 9 ∷ []);
  seal = λ key nonce plain. plain;
  open_sealed = λ key nonce sealed. some sealed;
}

abbrev pub small_env : Env
small_env = record {
  etcd = assoc_etcd;
  gcm = small_gcm;
  sha512 = λ s. [];
  encode = encode_fields;
  decode = decode_fields;
  encode_def = λ name. ok name;
  decode_def = λ text. ok text;
  plan = λ n. finished;
}

abbrev pub tag : Text → Tag
tag name = record { name = name; value = [] }

abbrev pub id_def : FieldDef
id_def = record { name = codes "ID"; tags = tag (codes "id") ∷ [] }

abbrev pub name_def : FieldDef
name_def = record { name = codes "Name"; tags = tag (codes "unique") ∷ [] }

abbrev pub users : Table
users = record { name = codes "User"; fields = id_def ∷ name_def ∷ []; secret_key = none }

abbrev pub user : Text → Text → List Field
user id name =
    record { def = id_def; value = str id } ∷ record { def = name_def; value = str name } ∷ []

abbrev pub user_item : Text → Text → ModelItem
user_item id name = record { name = codes "User"; fields = user id name }

abbrev pub world_of : Assoc Text → List Fate → World assoc_etcd
world_of kv fates = record { kv = kv; fates = fates; draws = 0 }
