-- ===== src/E2db/Types/Models.antt =====
-- pkg/e2db/model.go: the model of a struct type, and what it is of a struct value; and validateSchema
-- of pkg/e2db/table.go.
use e2d.E2db.Model.{FieldDef, Field, ModelItem}
use e2d.E2db.Values.{Value}
use e2d.E2db.Table.{Table, validate_model}
use e2d.E2db.Types.{
  GoType, slice, elem_of, Kind, struct_kind, Types, Outcome, done, panicked, and_then, kind_of,
  read_struct_fields,
}
use e2d.Prelude.{ℕ, Option, none, some, List, [], ◌∷◌, Text, Result, Assoc}

-- `ModelDef`
pub record ModelDef : Type 0 where
  pub name : Text
  pub fields : Assoc FieldDef
  pub type : GoType

-- The field of one name in a struct value, before the others.
with_field : FieldDef → Option Value → Outcome (List Field) → Outcome (List Field)
with_field f none rest = panicked
with_field f (some v) rest = and_then rest (λ fs. done (record { def = f; value = v } ∷ fs))

-- The fields of a struct value: `values` is FieldByName, which panics at a nil pointer to an
-- embedded struct.
unfoldable pub item_fields : (Text → Option Value) → Assoc FieldDef → Outcome (List Field)
unfolding with_field
item_fields values [] = done []
item_fields values ((n, f) ∷ fields) = with_field f (values n) (item_fields values fields)

-- The type of the rows in a slice.
row_type : GoType → GoType
row_type (slice t) = t
row_type t = t

module _ (types : Types) where
  def_of : ℕ → GoType → Kind → Outcome ModelDef
  def_of n t (struct_kind name []) = panicked
  def_of n t (struct_kind name (f ∷ fs)) =
      and_then (read_struct_fields types n t)
        (λ fields. done (record { name = name; fields = fields; type = t }))
  def_of n t k = panicked

  -- `NewModelDef`
  unfoldable pub new_model_def : ℕ → GoType → Outcome ModelDef
  unfolding def_of
  new_model_def n t = def_of n (elem_of t) (kind_of types (elem_of t))

  item_of : ℕ → GoType → Kind → (Text → Option Value) → Outcome ModelItem
  item_of n t (struct_kind name []) values = panicked
  item_of n t (struct_kind name (f ∷ fs)) values = and_then (new_model_def n t) (λ m.
      and_then (item_fields values m.fields) (λ fs. done (record { name = m.name; fields = fs })))
  item_of n t k values = panicked

  -- `NewModelItem`, of a struct value or a pointer to one, by its type.
  unfoldable pub new_model_item : ℕ → GoType → (Text → Option Value) → Outcome ModelItem
  unfolding item_of
  new_model_item n t values = item_of n (elem_of t) (kind_of types (elem_of t)) values

  -- `validateSchema`
  unfoldable pub validate_schema : Table → ℕ → GoType → Outcome (Result (Unit {0}))
  unfolding row_type
  validate_schema table n t =
      and_then (new_model_def n (row_type t)) (λ m. done (validate_model table m.name))
