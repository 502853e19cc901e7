-- ===== src/E2db/Key/Tests.antt =====
-- Keys of a small table.
use e2d.E2db.Key.{
  clean, filepath_join, join, resolve, split_slash, join_slash, row_id, table, index, hash, hex,
}
use e2d.E2db.Key.Paths.{IsSegment}
use e2d.E2db.Key.Hex.{IsDigest}
use e2d.E2db.Key.Layout.{TableKey, key_of, key_of-injective}
use e2d.E2db.Key.Tables.{table-covers}
use e2d.Prelude.{ℕ, zero, suc, ◌≡◌, refl, false, [], ◌∷◌, arith, Text, codes, str_eq, has_prefix}

abbrev roles : Text
roles = codes "Role"

abbrev users : Text
users = codes "User"

row_seven : row_id roles (codes "7") ≡ codes "/Role/7"
unfolding row_id join filepath_join clean resolve split_slash has_prefix join_slash str_eq
row_seven = refl

abbrev zeros : ℕ → Text
zeros zero = []
zeros (suc n) = 0 ∷ zeros n

-- A digest of 64 zero bytes.
abbrev flat : Text → Text
flat s = zeros 64

flat-IsDigest : IsDigest flat
flat-IsDigest = record { bytes = λ s. omega arith; long = λ s. refl }

abbrev short : Text → Text
short s = 171 ∷ []

index_key :
    index short users (codes "Name") (codes "a") (codes "7") ≡ codes "/User/_index/Name/61ab/7"
unfolding index hash hex join filepath_join clean resolve split_slash has_prefix join_slash str_eq
index_key = refl

cleaned : clean (codes "/a/../../b/./c//d") ≡ codes "/b/c/d"
unfolding clean resolve split_slash join_slash str_eq
cleaned = refl

roles-IsSegment : IsSegment roles
unfolding str_eq
roles-IsSegment = record { named = refl; no_slash = refl; not_dot = refl; not_dots = refl }

users-IsSegment : IsSegment users
unfolding str_eq
users-IsSegment = record { named = refl; no_slash = refl; not_dot = refl; not_dots = refl }

seven-IsSegment : IsSegment (codes "7")
unfolding str_eq
seven-IsSegment = record { named = refl; no_slash = refl; not_dot = refl; not_dots = refl }

seven_is_no_def : str_eq (codes "7") (codes "_table") ≡ false
unfolding str_eq
seven_is_no_def = refl

key_of-injective_example : TableKey.row roles (codes "7") ≡ TableKey.row roles (codes "7")
key_of-injective_example =
    key_of-injective flat flat-IsDigest (TableKey.row roles (codes "7"))
      (TableKey.row roles (codes "7")) (roles-IsSegment, seven-IsSegment, seven_is_no_def)
      (roles-IsSegment, seven-IsSegment, seven_is_no_def) refl

table-covers_example :
    has_prefix (table users) (key_of flat (TableKey.row roles (codes "7"))) ≡ str_eq users roles
table-covers_example =
    table-covers flat flat-IsDigest users (TableKey.row roles (codes "7")) users-IsSegment
      (roles-IsSegment, seven-IsSegment, seven_is_no_def)
