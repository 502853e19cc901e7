-- ===== src/E2db/Types/Tests.antt =====
-- Small struct types: a user that embeds a base, and two types that embed each other.
use e2d.E2db.Model.{FieldDef}
use e2d.E2db.Samples.{tag}
use e2d.E2db.Types.{
  GoType, named, pointer, elem_of, type_is_equal, StructField, Kind, struct_kind, other_kind, Types,
  done, panicked, out_of_fuel, is_embedded, field_def, read_struct_fields, kind_of,
}
use e2d.E2db.Types.Ends.{Embeds, has_returned}
use e2d.E2db.Types.Fuel.{read_struct_fields-total}
use e2d.E2db.Types.Cycles.{read_struct_fields-never}
use e2d.E2db.Types.Own.{read_struct_fields-own}
use e2d.Prelude.{
  ℕ, ◌≤◌, ◌<◌, ◌≡◌, refl, sym, ap, ◌∙◌, subst, ◌⊎◌, inl, inr, true, false, none, some, List, [],
  ◌∷◌, arith, if◌then◌else◌, Bool-cases, In, Text, codes, str_eq, str_eq_iff, Assoc, lookup,
}

abbrev plain : Text → Text → StructField
plain name tag_value = record {
  name = name;
  type = named (codes "string");
  anonymous = false;
  tag = some tag_value;
}

abbrev embedded : Text → StructField
embedded name = record { name = name; type = pointer (named name); anonymous = true; tag = none }

abbrev name_field : StructField
name_field = plain (codes "Name") (codes "unique")

abbrev user_fields : List StructField
user_fields = embedded (codes "Base") ∷ name_field ∷ []

abbrev base_fields : List StructField
base_fields = plain (codes "ID") (codes "id") ∷ plain (codes "Name") (codes "index") ∷ []

abbrev user_types : Types
user_types = record {
  kind = λ t.
      if str_eq t (codes "User")
      then struct_kind (codes "User") user_fields
      else if str_eq t (codes "Base")
      then struct_kind (codes "Base") base_fields
      else other_kind;
  has_field = λ t n. true;
}

user_read :
    read_struct_fields user_types 2 (named (codes "User"))
    ≡ done (
        (codes "ID", record { name = codes "ID"; tags = tag (codes "id") ∷ [] })
        ∷ (codes "Name", record { name = codes "Name"; tags = tag (codes "unique") ∷ [] })
        ∷ [])
unfolding read_struct_fields elem_of kind_of str_eq e2d.E2db.Types.take_field type_is_equal
    e2d.E2db.Types.type_eq e2d.E2db.Types.and_then e2d.E2db.Types.embedded_kind
    e2d.E2db.Types.promote e2d.Prelude.insert lookup e2d.E2db.Model.parse_tags
user_read = refl

ambiguous :
    read_struct_fields (record user_types { has_field = λ t n. false }) 2 (named (codes "User"))
    ≡ panicked
unfolding read_struct_fields elem_of kind_of str_eq e2d.E2db.Types.take_field type_is_equal
    e2d.E2db.Types.type_eq e2d.E2db.Types.and_then e2d.E2db.Types.embedded_kind
    e2d.E2db.Types.promote e2d.Prelude.insert lookup
ambiguous = refl

abbrev user_rank : Text → ℕ
user_rank t = if str_eq t (codes "User") then 1 else 0

the_fields :
    (k : Kind) (a b : Text) (fs gs : List StructField)
    → k ≡ struct_kind a fs
    → k ≡ struct_kind b gs
    → gs ≡ fs
the_fields k a b fs gs h h' = cc

name_injective : (a b : Text) → named a ≡ named b → b ≡ a
name_injective a b h = cc

-- A plain field is not embedded.
not_embedded :
    (f : StructField) (name tag_value : Text)
    → f ≡ plain name tag_value
    → ¬ (is_embedded user_types f ≡ true)
unfolding is_embedded
not_embedded f name tag_value e h = cc (subst (λ x. is_embedded user_types x ≡ true) e h)

embedded_name :
    (f : StructField) (name m : Text) → f ≡ embedded name → elem_of f.type ≡ named m → m ≡ name
unfolding elem_of
embedded_name f name m same h =
    name_injective name m (ap (λ (x : StructField). elem_of x.type) (sym same) ∙ h)

in_user :
    (f : StructField) (m : Text)
    → In f user_fields
    → is_embedded user_types f ≡ true
    → elem_of f.type ≡ named m
    → m ≡ codes "Base"
in_user f m (In.here same) e h = embedded_name f (codes "Base") m same h
in_user f m (In.there (In.here same)) e h =
    absurd (not_embedded f (codes "Name") (codes "unique") same e)
in_user f m (In.there (In.there i)) e h = elim i [ ]

in_base : (f : StructField) → In f base_fields → ¬ (is_embedded user_types f ≡ true)
in_base f (In.here same) e = not_embedded f (codes "ID") (codes "id") same e
in_base f (In.there (In.here same)) e = not_embedded f (codes "Name") (codes "index") same e
in_base f (In.there (In.there i)) e = elim i [ ]

-- Only the base is embedded, and only in the user.
user-Embeds : (t m : Text) → Embeds user_types t m → user_rank m < user_rank t
unfolding str_eq
user-Embeds t m e = elim (Bool-cases (str_eq t (codes "User"))) [
  | inl user ↦
      let fields =
        the_fields (user_types.kind t) (codes "User") e.kind_name user_fields e.fields
          (rw user refl) e.struct in
      let base = in_user e.field m (subst (In e.field) fields e.member) e.embedded e.refers in
      rw (user, base) (omega arith)
  | inr other ↦ elim (Bool-cases (str_eq t (codes "Base"))) [
    | inl base ↦
        let fields =
          the_fields (user_types.kind t) (codes "Base") e.kind_name base_fields e.fields
            (rw (other, base) refl) e.struct in
        absurd (in_base e.field (subst (In e.field) fields e.member) e.embedded)
    | inr neither ↦
        absurd
          (no_struct (user_types.kind t) e.kind_name e.fields (rw (other, neither) refl) e.struct)
  ]
]
  where
    no_struct :
        (k : Kind) (n : Text) (fs : List StructField) → k ≡ other_kind → ¬ (k ≡ struct_kind n fs)
    no_struct k n fs h h' = cc

read_struct_fields-total_example :
    (has_returned (read_struct_fields user_types 2 (named (codes "User"))) ≡ true)
    × ((m : ℕ)
        → 2 ≤ m
        → read_struct_fields user_types m (named (codes "User"))
          ≡ read_struct_fields user_types 2 (named (codes "User")))
unfolding str_eq
read_struct_fields-total_example =
    read_struct_fields-total user_types user_rank user-Embeds (codes "User") 2 (omega arith)

only_name : (g : StructField) → In g user_fields → g.name ≡ codes "Name" → g ≡ name_field
unfolding str_eq
only_name g (In.here same) h = absurd (
    different (ap (λ x. str_eq x (codes "Base")) (sym (ap (λ (x : StructField). x.name) same) ∙ h)))
  where
    different : ¬ (true ≡ false)
    different e = cc e
only_name g (In.there (In.here same)) h = same
only_name g (In.there (In.there i)) h = elim i [ ]

read_struct_fields-own_example :
    lookup (codes "Name") (
      (codes "ID", record { name = codes "ID"; tags = tag (codes "id") ∷ [] })
      ∷ (codes "Name", record { name = codes "Name"; tags = tag (codes "unique") ∷ [] })
      ∷ [])
    ≡ some (field_def name_field)
unfolding str_eq is_embedded type_is_equal elem_of e2d.E2db.Types.type_eq
read_struct_fields-own_example =
    read_struct_fields-own user_types 2 (codes "User") (codes "User") user_fields
      ((codes "ID", record { name = codes "ID"; tags = tag (codes "id") ∷ [] })
        ∷ (codes "Name", record { name = codes "Name"; tags = tag (codes "unique") ∷ [] })
        ∷ [])
      name_field user_read refl (In.there (In.here refl)) only_name refl refl

-- Two types that embed each other through pointers, as Go allows.
abbrev a_fields : List StructField
a_fields = embedded (codes "B") ∷ []

abbrev b_fields : List StructField
b_fields = embedded (codes "A") ∷ plain (codes "ID") (codes "id") ∷ []

abbrev cyclic_types : Types
cyclic_types = record {
  kind = λ t.
      if str_eq t (codes "A")
      then struct_kind (codes "A") a_fields
      else struct_kind (codes "B") b_fields;
  has_field = λ t n. true;
}

abbrev IsCyclic : Text → Type 0
IsCyclic t = (t ≡ codes "A") ⊎ (t ≡ codes "B")

a-Embeds_b : Embeds cyclic_types (codes "A") (codes "B")
unfolding str_eq is_embedded type_is_equal elem_of e2d.E2db.Types.type_eq kind_of
a-Embeds_b = record {
  kind_name = codes "A";
  fields = a_fields;
  field = embedded (codes "B");
  struct = refl;
  member = In.here refl;
  embedded = refl;
  other_type = refl;
  refers = refl;
}

b-Embeds_a : Embeds cyclic_types (codes "B") (codes "A")
unfolding str_eq is_embedded type_is_equal elem_of e2d.E2db.Types.type_eq kind_of
b-Embeds_a = record {
  kind_name = codes "B";
  fields = b_fields;
  field = embedded (codes "A");
  struct = refl;
  member = In.here refl;
  embedded = refl;
  other_type = refl;
  refers = refl;
}

Embeds-next : (t : Text) → IsCyclic t → (m : Text) × IsCyclic m × Embeds cyclic_types t m
Embeds-next t (inl a) =
    (codes "B", inr refl, subst (λ x. Embeds cyclic_types x (codes "B")) (sym a) a-Embeds_b)
Embeds-next t (inr b) =
    (codes "A", inl refl, subst (λ x. Embeds cyclic_types x (codes "A")) (sym b) b-Embeds_a)

read_struct_fields-never_example : ¬ (
    read_struct_fields cyclic_types 1000 (named (codes "A"))
    ≡ done ((codes "ID", record { name = codes "ID"; tags = tag (codes "id") ∷ [] }) ∷ []))
read_struct_fields-never_example =
    read_struct_fields-never cyclic_types IsCyclic Embeds-next 1000 (codes "A")
      ((codes "ID", record { name = codes "ID"; tags = tag (codes "id") ∷ [] }) ∷ []) (inl refl)
