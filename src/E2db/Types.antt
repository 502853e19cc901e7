-- ===== src/E2db/Types.antt =====
-- pkg/e2db/model.go: the fields that are read from a struct type, those of embedded structs included.
pub mod Ends
pub mod Cycles
pub mod Fuel
pub mod Own
pub mod Models
mod Tests
use e2d.E2db.Model.{Tag, FieldDef, Field, ModelItem, parse_tags}
use e2d.E2db.Values.{Value}
use e2d.Prelude.{
  ℕ, zero, suc, Bool, true, false, not, ◌&&◌, Option, none, some, List, [], ◌∷◌, ◌++◌, map,
  if◌then◌else◌, Text, str_eq, Result, ok, err, panic, ◌>>=◌, Assoc, lookup, insert,
}

-- reflect.Type: what has a name (a literal type has its text as its name), pointers and slices.
pub data GoType : Type 0 where
  named : Text → GoType
  pointer : GoType → GoType
  slice : GoType → GoType

unfoldable pub type_eq : GoType → GoType → Bool
type_eq (named a) (named b) = str_eq a b
type_eq (pointer a) (pointer b) = type_eq a b
type_eq (slice a) (slice b) = type_eq a b
type_eq a b = false

-- `typeIsEqual`: one pointer on either side is looked through.
unfoldable pub elem_of : GoType → GoType
elem_of (pointer t) = t
elem_of t = t

unfoldable pub type_is_equal : GoType → GoType → Bool
unfolding elem_of
type_is_equal t1 t2 = type_eq (elem_of t1) (elem_of t2)

-- reflect.StructField: `tag` is the part of the struct tag for e2db, if there is one.
pub record StructField : Type 0 where
  pub name : Text
  pub type : GoType
  pub anonymous : Bool
  pub tag : Option Text

-- The kinds that the code tells apart; a struct has the name of its type without the package.
pub data Kind : Type 0 where
  struct_kind : Text → List StructField → Kind
  interface_kind pointer_kind other_kind : Kind

-- What reflect knows of a program's types: the kind of what has a name, and whether FieldByName
-- finds a field by its name in a struct, at the least depth and there once.
pub record Types : Type 0 where
  pub kind : Text → Kind
  pub has_field : Text → Text → Bool

-- What code gives that may panic and whose recursion may not end, so that it runs on fuel.
pub data Outcome (A : Type 0) : Type 0 where
  done : A → Outcome A
  panicked out_of_fuel : Outcome A

abbrev pub Reading : Type 0
Reading = Outcome (Assoc FieldDef)

unfoldable pub and_then : {A B : Type 0} → Outcome A → (A → Outcome B) → Outcome B
and_then (done a) k = k a
and_then panicked k = panicked
and_then out_of_fuel k = out_of_fuel

unfoldable pub field_def : StructField → FieldDef
field_def f = record {
  name = f.name;
  tags = elim f.tag [ none ↦ [] | some tag_value ↦ parse_tags tag_value ];
}

-- A field that is set where `fields` has none of its name.
unfoldable pub set_missing : Text → FieldDef → Assoc FieldDef → Option FieldDef → Assoc FieldDef
set_missing n f fields none = insert n f fields
set_missing n f fields (some g) = fields

module _ (types : Types) where
  unfoldable pub kind_of : GoType → Kind
  kind_of (named n) = types.kind n
  kind_of (pointer t) = pointer_kind
  kind_of (slice t) = other_kind

  unfoldable pub is_interface : Kind → Bool
  is_interface interface_kind = true
  is_interface k = false

  unfoldable pub is_embedded : StructField → Bool
  unfolding is_interface
  is_embedded f = f.anonymous && not (is_interface (kind_of f.type))

  -- One field of the first loop: a field of the type itself is passed over, an embedded one is kept
  -- for later, and another one is a field of the model.
  unfoldable pub take_field :
      GoType → StructField → Assoc FieldDef × List StructField → Assoc FieldDef × List StructField
  unfolding is_embedded field_def
  take_field t f (fields, embedded) =
      if type_is_equal f.type t
      then (fields, embedded)
      else if is_embedded f
      then (fields, embedded ++ f ∷ [])
      else (insert f.name (field_def f) fields, embedded)

  unfoldable pub fields_loop :
      GoType
      → List StructField
      → Assoc FieldDef × List StructField
      → Assoc FieldDef × List StructField
  fields_loop t [] acc = acc
  fields_loop t (f ∷ fs) acc = fields_loop t fs (take_field t f acc)

  -- A field of an embedded struct, where the embedding one has none of that name: one that reflect
  -- does not find there is ambiguous.
  unfoldable pub promote_found : Text → Text → FieldDef → Assoc FieldDef → Bool → Reading
  promote_found t n f fields true = done (insert n f fields)
  promote_found t n f fields false = panicked

  unfoldable pub promote_one : Text → Text → FieldDef → Assoc FieldDef → Option FieldDef → Reading
  unfolding promote_found
  promote_one t n f fields (some g) = done fields
  promote_one t n f fields none = promote_found t n f fields (types.has_field t n)

  unfoldable pub promote : Text → Assoc FieldDef → Assoc FieldDef → Reading
  unfolding promote_one and_then
  promote t [] fields = done fields
  promote t ((n, f) ∷ inner) fields =
      and_then (promote_one t n f fields (lookup n fields)) (promote t inner)

  -- An embedded field, with the function that reads a struct type.
  unfoldable pub embedded_kind :
      (GoType → Reading) → Text → StructField → Kind → Assoc FieldDef → Reading
  unfolding and_then set_missing
  embedded_kind read t f (struct_kind name inner) fields =
      and_then (read (elem_of f.type)) (λ inner. promote t inner fields)
  embedded_kind read t f k fields =
      done (set_missing f.name (record { name = f.name; tags = [] }) fields (lookup f.name fields))

  unfoldable pub embedded_loop :
      (GoType → Reading) → Text → List StructField → Assoc FieldDef → Reading
  embedded_loop read t [] fields = done fields
  embedded_loop read t (f ∷ fs) fields =
      and_then (embedded_kind read t f (kind_of (elem_of f.type)) fields) (embedded_loop read t fs)

  unfoldable pub read_struct : (GoType → Reading) → Text → List StructField → Reading
  unfolding fields_loop embedded_loop
  read_struct read t [] = panicked
  read_struct read t (f ∷ fs) =
      let r = fields_loop (named t) (f ∷ fs) ([], []) in embedded_loop read t r.1 r.0

  unfoldable pub read_kind : (GoType → Reading) → GoType → Kind → Reading
  unfolding read_struct
  read_kind read (named t) (struct_kind name fs) = read_struct read t fs
  read_kind read t k = panicked

  -- `readStructFields`
  unfoldable pub read_struct_fields : ℕ → GoType → Reading
  unfolding read_kind
  read_struct_fields zero t = out_of_fuel
  read_struct_fields (suc n) t = read_kind (read_struct_fields n) (elem_of t) (kind_of (elem_of t))
