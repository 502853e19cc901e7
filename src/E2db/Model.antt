-- ===== src/E2db/Model.antt =====
-- pkg/e2db/model.go: the fields of a struct, with the tags that say what a field is.
mod Tests
pub mod Kinds
use e2d.E2db.Key.{row_id, indexes}
use e2d.E2db.Values.{Value, is_zero}
use e2d.Prelude.{
  ℕ, ◌*◌, Bool, true, false, ◌||◌, Option, none, some, List, [], ◌∷◌, map, ◌==◌, if◌then◌else◌, any,
  Text, codes, str_eq, not_indexed, no_primary_key, Result, ok, err,
}

pub record Tag : Type 0 where
  pub name : Text
  pub value : Text

pub record FieldDef : Type 0 where
  pub name : Text
  pub tags : List Tag

-- A field of a struct value: its definition and what it holds.
pub record Field : Type 0 where
  pub def : FieldDef
  pub open def use *
  pub value : Value

-- The struct value that `NewModelItem` reads: its type's name, and its fields in the order in
-- which the loops over the map `Fields` meet them.
pub record ModelItem : Type 0 where
  pub name : Text
  pub fields : List Field

-- A byte in front of the pieces of what follows it.
before_first : Bool → ℕ → List Text → List Text
before_first true c pieces = [] ∷ pieces
before_first false c [] = (c ∷ []) ∷ []
before_first false c (p ∷ pieces) = (c ∷ p) ∷ pieces

-- strings.Split(s, ",")
split_comma : Text → List Text
unfolding before_first
split_comma [] = [] ∷ []
split_comma (c ∷ s) = before_first (c == b',') c (split_comma s)

-- strings.SplitN(t, "=", 2): a tag with a value, or the whole of it as the name.
split_value : Text → Option (Text × Text)
split_value [] = none
split_value (c ∷ s) = elim (split_value s) [
  | none ↦ if c == b'=' then some ([], s) else none
  | some (name, value) ↦ if c == b'=' then some ([], s) else some (c ∷ name, value)
]

parse_tag : Text → Tag
unfolding split_value
parse_tag t = elim (split_value t) [
  | none ↦ record { name = t; value = [] }
  | some (name, value) ↦ record { name = name; value = value }
]

-- The tags of one struct tag, in `readStructFields`.
unfoldable pub parse_tags : Text → List Tag
unfolding split_comma parse_tag
parse_tags tag_value = map parse_tag (split_comma tag_value)

unfoldable pub has_tag : List Text → List Tag → Bool
has_tag names [] = false
has_tag names (t ∷ ts) = any (λ n. str_eq t.name n) names || has_tag names ts

unfoldable pub is_primary_key : List Tag → Bool
is_primary_key [] = false
is_primary_key (t ∷ ts) =
    str_eq t.name (codes "increment") || str_eq t.name (codes "id") || is_primary_key ts

unfoldable pub is_index : List Tag → Bool
unfolding is_primary_key has_tag
is_index tags = is_primary_key tags || has_tag (codes "index" ∷ codes "unique" ∷ []) tags

pub data IndexType : Type 0 where
  no_index primary_key secondary_index unique_index : IndexType

-- `FieldDef.Type`
unfoldable pub index_type : List Tag → IndexType
unfolding has_tag
index_type tags =
    if has_tag (codes "increment" ∷ codes "id" ∷ []) tags
    then primary_key
    else if has_tag (codes "index" ∷ []) tags
    then secondary_index
    else if has_tag (codes "unique" ∷ []) tags
    then unique_index
    else no_index

module _ (sha512 : Text → Text) where
  -- `FieldDef.indexKey`
  unfoldable pub index_key : FieldDef → Text → Text → Result Text
  index_key f table_name value = elim (index_type f.tags) [
    | primary_key ↦ ok (row_id table_name value)
    | secondary_index ↦ ok (indexes sha512 table_name f.name value)
    | unique_index ↦ ok (indexes sha512 table_name f.name value)
    | no_index ↦ err not_indexed
  ]

-- `ModelItem.getPrimaryKey`
unfoldable pub get_primary_key : List Field → Result Field
get_primary_key [] = err no_primary_key
get_primary_key (f ∷ fs) = if is_primary_key f.tags then ok f else get_primary_key fs

-- v.FieldByName(name)
unfoldable pub field_by_name : Text → List Field → Option Field
field_by_name name [] = none
field_by_name name (f ∷ fs) = if str_eq f.name name then some f else field_by_name name fs

-- The same field holding another value, in the struct that it is a field of.
unfoldable pub set_field : Text → Value → List Field → List Field
set_field name v [] = []
set_field name v (f ∷ fs) =
    (if str_eq f.name name then record f { value = v } else f) ∷ set_field name v fs
