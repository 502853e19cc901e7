-- ===== src/E2db/Types/Own.antt =====
-- The fields of a struct type itself, beside those of the structs that it embeds (`readStructFields`
-- of pkg/e2db/model.go).
use e2d.E2db.Model.{FieldDef}
use e2d.E2db.Types.{
  GoType, named, elem_of, type_is_equal, StructField, Kind, struct_kind, interface_kind,
  pointer_kind, other_kind, Types, Reading, done, kind_of, is_embedded, field_def, set_missing,
  take_field, fields_loop, embedded_kind, embedded_loop, promote_found, promote_one, promote,
  read_struct, read_kind, read_struct_fields,
}
use e2d.E2db.Types.Cycles.{and_then_done}
use e2d.Prelude.{
  ℕ, zero, suc, ◌≡◌, refl, sym, ap, ◌∙◌, subst, inl, inr, Bool, true, false, Option, none, some,
  List, [], ◌∷◌, Bool-cases, In, Text, Assoc, lookup, insert, lookup-insert, str_eq, str_eq_refl,
  str_eq_iff,
}

done_injective : {a b : Assoc FieldDef} → done a ≡ done b → a ≡ b
done_injective h = cc

insert_same :
    (k : Text) (d : FieldDef) (fields : Assoc FieldDef) → lookup k (insert k d fields) ≡ some d
insert_same k d fields = rw (lookup-insert k k d fields, str_eq_refl k) refl

insert_other :
    (n k : Text) (d : FieldDef) (fields : Assoc FieldDef)
    → str_eq n k ≡ false
    → lookup k (insert n d fields) ≡ lookup k fields
insert_other n k d fields h = rw (lookup-insert n k d fields, h) refl

-- Another name than that of a field that is there.
missing_other :
    (n k : Text) (d : FieldDef) (fields : Assoc FieldDef)
    → lookup n fields ≡ none
    → lookup k fields ≡ some d
    → str_eq n k ≡ false
missing_other n k d fields h there = elim (Bool-cases (str_eq n k)) [
  | inr e ↦ e
  | inl e ↦ absurd (cc (sym h, ap (λ x. lookup x fields) ((str_eq_iff n k).0 e), there))
]

module _ (types : Types) (k : Text) (d : FieldDef) where
  abbrev Keeps : Assoc FieldDef → Type 0
  Keeps fields = lookup k fields ≡ some d

  promote_found-Keeps :
      (t n : Text) (f : FieldDef) (before after : Assoc FieldDef) (b : Bool)
      → lookup n before ≡ none
      → promote_found types t n f before b ≡ done after
      → Keeps before
      → Keeps after
  unfolding promote_found
  promote_found-Keeps t n f before after true missing h there =
      subst Keeps (done_injective h)
        (insert_other n k f before (missing_other n k d before missing there) ∙ there)
  promote_found-Keeps t n f before after false missing h there = cc

  promote_one-Keeps :
      (t n : Text) (f : FieldDef) (before after : Assoc FieldDef) (o : Option FieldDef)
      → lookup n before ≡ o
      → promote_one types t n f before o ≡ done after
      → Keeps before
      → Keeps after
  unfolding promote_one
  promote_one-Keeps t n f before after (some g) missing h there =
      subst Keeps (done_injective h) there
  promote_one-Keeps t n f before after none missing h there =
      promote_found-Keeps t n f before after (types.has_field t n) missing h there

  promote-Keeps :
      (t : Text) (inner before after : Assoc FieldDef)
      → promote types t inner before ≡ done after
      → Keeps before
      → Keeps after
  unfolding promote
  promote-Keeps t [] before after h there = subst Keeps (done_injective h) there
  promote-Keeps t ((n, f) ∷ inner) before after h there =
      let r =
        and_then_done (promote_one types t n f before (lookup n before)) (promote types t inner)
          after h in
      promote-Keeps t inner r.0 after r.2
        (promote_one-Keeps t n f before r.0 (lookup n before) refl r.1 there)

  set_missing-Keeps :
      (n : Text) (f : FieldDef) (before : Assoc FieldDef) (o : Option FieldDef)
      → lookup n before ≡ o
      → Keeps before
      → Keeps (set_missing n f before o)
  unfolding set_missing
  set_missing-Keeps n f before none missing there =
      insert_other n k f before (missing_other n k d before missing there) ∙ there
  set_missing-Keeps n f before (some g) missing there = there

  -- An embedded type that is no struct is a field of its own, without tags.
  set_untagged-Keeps :
      (f : StructField) (before after : Assoc FieldDef)
      → done
          (set_missing f.name (record { name = f.name; tags = [] }) before (lookup f.name before))
        ≡ done after
      → Keeps before
      → Keeps after
  set_untagged-Keeps f before after h there = subst Keeps (done_injective h) (
      set_missing-Keeps f.name (record { name = f.name; tags = [] }) before (lookup f.name before)
        refl there)

  embedded_kind-Keeps :
      (read : GoType → Reading) (t : Text) (f : StructField) (kind : Kind)
      (before after : Assoc FieldDef)
      → embedded_kind types read t f kind before ≡ done after
      → Keeps before
      → Keeps after
  unfolding embedded_kind
  embedded_kind-Keeps read t f (struct_kind name inner) before after h there =
      let r =
        and_then_done (read (elem_of f.type)) (λ inner. promote types t inner before) after h in
      promote-Keeps t r.0 before after r.2 there
  embedded_kind-Keeps read t f interface_kind before after h there =
      set_untagged-Keeps f before after h there
  embedded_kind-Keeps read t f pointer_kind before after h there =
      set_untagged-Keeps f before after h there
  embedded_kind-Keeps read t f other_kind before after h there =
      set_untagged-Keeps f before after h there

  embedded_loop-Keeps :
      (read : GoType → Reading) (t : Text) (es : List StructField) (before after : Assoc FieldDef)
      → embedded_loop types read t es before ≡ done after
      → Keeps before
      → Keeps after
  unfolding embedded_loop
  embedded_loop-Keeps read t [] before after h there = subst Keeps (done_injective h) there
  embedded_loop-Keeps read t (f ∷ fs) before after h there =
      let kind = kind_of types (elem_of f.type) in
      let r =
        and_then_done (embedded_kind types read t f kind before) (embedded_loop types read t fs)
          after h in
      embedded_loop-Keeps read t fs r.0 after r.2
        (embedded_kind-Keeps read t f kind before r.0 r.1 there)

  take_field-Keeps :
      (t : Text) (f : StructField) (acc : Assoc FieldDef × List StructField)
      → (f.name ≡ k → field_def f ≡ d)
      → Keeps acc.0
      → Keeps (take_field types (named t) f acc).0
  unfolding take_field
  take_field-Keeps t f acc same there = elim (Bool-cases (type_is_equal f.type (named t))) [
    | inl e ↦ rw e there
    | inr e ↦ elim (Bool-cases (is_embedded types f)) [
      | inl b ↦ rw (e, b) there
      | inr b ↦
          rw (e, b)
            (elim (Bool-cases (str_eq f.name k)) [
              | inl i ↦
                  let name = (str_eq_iff f.name k).0 i in
                  ap (λ x. lookup k (insert x (field_def f) acc.0)) name
                  ∙ insert_same k (field_def f) acc.0
                  ∙ ap some (same name)
              | inr i ↦ insert_other f.name k (field_def f) acc.0 i ∙ there
            ])
    ]
  ]

  fields_loop-Keeps :
      (t : Text) (fs : List StructField) (acc : Assoc FieldDef × List StructField)
      → ((g : StructField) → In g fs → g.name ≡ k → field_def g ≡ d)
      → Keeps acc.0
      → Keeps (fields_loop types (named t) fs acc).0
  unfolding fields_loop
  fields_loop-Keeps t [] acc same there = there
  fields_loop-Keeps t (f ∷ fs) acc same there =
      fields_loop-Keeps t fs (take_field types (named t) f acc) (λ g i. same g (In.there i))
        (take_field-Keeps t f acc (same f (In.here refl)) there)

module _ (types : Types) where
  -- A field that the loop takes is in the result, unless another of its name follows.
  fields_loop-own :
      (t : Text) (fs : List StructField) (acc : Assoc FieldDef × List StructField) (f : StructField)
      → In f fs
      → ((g : StructField) → In g fs → g.name ≡ f.name → g ≡ f)
      → type_is_equal f.type (named t) ≡ false
      → is_embedded types f ≡ false
      → lookup f.name (fields_loop types (named t) fs acc).0 ≡ some (field_def f)
  unfolding fields_loop take_field
  fields_loop-own t [] acc f i unique other own = elim i [ ]
  fields_loop-own t (g ∷ fs) acc f (In.there i) unique other own =
      fields_loop-own t fs (take_field types (named t) g acc) f i (λ g j. unique g (In.there j))
        other own
  fields_loop-own t (g ∷ fs) acc f (In.here e) unique other own =
      fields_loop-Keeps types f.name (field_def f) t fs (take_field types (named t) g acc)
        (λ g j name. ap field_def (unique g (In.there j) name))
        (subst (λ x. lookup f.name (take_field types (named t) x acc).0 ≡ some (field_def f)) e
          (rw (other, own) (insert_same f.name (field_def f) acc.0)))

  read_struct-own :
      (read : GoType → Reading) (t : Text) (fs : List StructField) (fields : Assoc FieldDef)
      (f : StructField)
      → read_struct types read t fs ≡ done fields
      → In f fs
      → ((g : StructField) → In g fs → g.name ≡ f.name → g ≡ f)
      → type_is_equal f.type (named t) ≡ false
      → is_embedded types f ≡ false
      → lookup f.name fields ≡ some (field_def f)
  unfolding read_struct
  read_struct-own read t [] fields f h i unique other own = elim i [ ]
  read_struct-own read t (g ∷ fs) fields f h i unique other own =
      let r = fields_loop types (named t) (g ∷ fs) ([], []) in
      embedded_loop-Keeps types f.name (field_def f) read t r.1 r.0 fields h
        (fields_loop-own t (g ∷ fs) ([], []) f i unique other own)

  -- A field of the struct type itself that is not embedded, not of that type and the only one of its
  -- name is in the fields that are read, with its own tags, whatever the embedded structs have.
  pub read_struct_fields-own :
      (n : ℕ) (t name : Text) (fs : List StructField) (fields : Assoc FieldDef) (f : StructField)
      → read_struct_fields types n (named t) ≡ done fields
      → types.kind t ≡ struct_kind name fs
      → In f fs
      → ((g : StructField) → In g fs → g.name ≡ f.name → g ≡ f)
      → type_is_equal f.type (named t) ≡ false
      → is_embedded types f ≡ false
      → lookup f.name fields ≡ some (field_def f)
  unfolding read_struct_fields elem_of kind_of read_kind
  read_struct_fields-own zero t name fs fields f h kind i unique other own = cc
  read_struct_fields-own (suc n) t name fs fields f h kind i unique other own =
      read_struct-own (read_struct_fields types n) t fs fields f
        (subst (λ k. read_kind types (read_struct_fields types n) (named t) k ≡ done fields) kind h)
        i unique other own
