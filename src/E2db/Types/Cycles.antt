-- ===== src/E2db/Types/Cycles.antt =====
-- Struct types that embed each other (`readStructFields` of pkg/e2db/model.go).
use e2d.E2db.Model.{FieldDef}
use e2d.E2db.Types.{
  GoType, named, elem_of, type_is_equal, StructField, Kind, struct_kind, interface_kind,
  pointer_kind, other_kind, Types, Reading, done, panicked, out_of_fuel, and_then, kind_of,
  is_embedded, take_field, fields_loop, embedded_kind, embedded_loop, promote, read_struct,
  read_kind, read_struct_fields,
}
use e2d.E2db.Types.Ends.{Embeds}
use e2d.Prelude.{
  ℕ, zero, suc, ◌≡◌, refl, sym, ap, ◌∙◌, subst, ◌⊎◌, inl, inr, true, false, List, [], ◌∷◌,
  Bool-cases, In, In-append_left, In-append_right, Text, Assoc,
}

-- A first reading that gives fields, where the whole does.
pub and_then_done :
    (r : Reading) (k : Assoc FieldDef → Reading) (fields : Assoc FieldDef)
    → and_then r k ≡ done fields
    → (first : Assoc FieldDef) × (r ≡ done first) × (k first ≡ done fields)
unfolding and_then
and_then_done (done first) k fields h = (first, refl, h)
and_then_done panicked k fields h = cc
and_then_done out_of_fuel k fields h = cc

module _ (types : Types) where
  take_field-member :
      (t : Text) (f : StructField) (acc : Assoc FieldDef × List StructField) (g : StructField)
      → In g acc.1
        ⊎ ((g ≡ f) × (is_embedded types f ≡ true) × (type_is_equal f.type (named t) ≡ false))
      → In g (take_field types (named t) f acc).1
  unfolding take_field
  take_field-member t f acc g (inl i) = elim (Bool-cases (type_is_equal f.type (named t))) [
    | inl e ↦ rw e i
    | inr e ↦ elim (Bool-cases (is_embedded types f)) [
      | inl k ↦ rw (e, k) (In-append_left (f ∷ []) i)
      | inr k ↦ rw (e, k) i
    ]
  ]
  take_field-member t f acc g (inr (same, k, e)) = rw (e, k) (In-append_right acc.1 (In.here same))

  fields_loop-kept :
      (t : Text) (fs : List StructField) (acc : Assoc FieldDef × List StructField) (g : StructField)
      → In g acc.1
      → In g (fields_loop types (named t) fs acc).1
  unfolding fields_loop
  fields_loop-kept t [] acc g h = h
  fields_loop-kept t (f ∷ fs) acc g h =
      fields_loop-kept t fs (take_field types (named t) f acc) g
        (take_field-member t f acc g (inl h))

  fields_loop-member :
      (t : Text) (fs : List StructField) (acc : Assoc FieldDef × List StructField) (g : StructField)
      → In g fs
      → is_embedded types g ≡ true
      → type_is_equal g.type (named t) ≡ false
      → In g (fields_loop types (named t) fs acc).1
  unfolding fields_loop
  fields_loop-member t [] acc g h k e = elim h [ ]
  fields_loop-member t (f ∷ fs) acc g (In.here same) k e =
      fields_loop-kept t fs (take_field types (named t) f acc) g (
        take_field-member t f acc g (
          inr (
            same,
            subst (λ x. is_embedded types x ≡ true) same k,
            subst (λ (x : StructField). type_is_equal x.type (named t) ≡ false) same e,
          )))
  fields_loop-member t (f ∷ fs) acc g (In.there i) k e =
      fields_loop-member t fs (take_field types (named t) f acc) g i k e

  embedded_kind_done :
      (read : GoType → Reading) (t : Text) (f : StructField) (k : Kind)
      (before fields : Assoc FieldDef) (name : Text) (inner : List StructField)
      → k ≡ struct_kind name inner
      → embedded_kind types read t f k before ≡ done fields
      → (found : Assoc FieldDef) × (read (elem_of f.type) ≡ done found)
  unfolding embedded_kind
  embedded_kind_done read t f (struct_kind n i) before fields name inner e h =
      let r =
        and_then_done (read (elem_of f.type)) (λ inner. promote types t inner before) fields h in
      (r.0, r.1)
  embedded_kind_done read t f interface_kind before fields name inner e h = cc
  embedded_kind_done read t f pointer_kind before fields name inner e h = cc
  embedded_kind_done read t f other_kind before fields name inner e h = cc

  kind_of_named :
      (g : GoType) (m name : Text) (inner : List StructField)
      → g ≡ named m
      → types.kind m ≡ struct_kind name inner
      → kind_of types g ≡ struct_kind name inner
  unfolding kind_of
  kind_of_named g m name inner e h = ap (kind_of types) e ∙ h

  -- The loop over the embedded fields gives fields only if reading each struct among them does.
  embedded_loop_done :
      (read : GoType → Reading) (t : Text) (es : List StructField) (before fields : Assoc FieldDef)
      (g : StructField) (m name : Text) (inner : List StructField)
      → In g es
      → elem_of g.type ≡ named m
      → types.kind m ≡ struct_kind name inner
      → embedded_loop types read t es before ≡ done fields
      → (found : Assoc FieldDef) × (read (named m) ≡ done found)
  unfolding embedded_loop embedded_kind
  embedded_loop_done read t [] before fields g m name inner i refers k h = elim i [ ]
  embedded_loop_done read t (f ∷ fs) before fields g m name inner (In.there i) refers k h =
      let r =
        and_then_done (embedded_kind types read t f (kind_of types (elem_of f.type)) before)
          (embedded_loop types read t fs) fields h in
      embedded_loop_done read t fs r.0 fields g m name inner i refers k r.2
  embedded_loop_done read t (f ∷ fs) before fields g m name inner (In.here same) refers k h =
      let ty = ap (λ (x : StructField). elem_of x.type) (sym same) ∙ refers in
      let r =
        and_then_done (embedded_kind types read t f (kind_of types (elem_of f.type)) before)
          (embedded_loop types read t fs) fields h in
      let s =
        embedded_kind_done read t f (kind_of types (elem_of f.type)) before r.0 name inner
          (kind_of_named (elem_of f.type) m name inner ty k) r.1 in
      (s.0, ap read (sym ty) ∙ s.1)

  read_struct_done :
      (read : GoType → Reading) (t : Text) (fs : List StructField) (fields : Assoc FieldDef)
      (g : StructField) (m name : Text) (inner : List StructField)
      → In g fs
      → is_embedded types g ≡ true
      → type_is_equal g.type (named t) ≡ false
      → elem_of g.type ≡ named m
      → types.kind m ≡ struct_kind name inner
      → read_struct types read t fs ≡ done fields
      → (found : Assoc FieldDef) × (read (named m) ≡ done found)
  unfolding read_struct
  read_struct_done read t [] fields g m name inner i k other refers h e = elim i [ ]
  read_struct_done read t (f ∷ fs) fields g m name inner i k other refers h e =
      let r = fields_loop types (named t) (f ∷ fs) ([], []) in
      embedded_loop_done read t r.1 r.0 fields g m name inner
        (fields_loop-member t (f ∷ fs) ([], []) g i k other) refers h e

  read_kind_done :
      (read : GoType → Reading) (t m name : Text) (inner : List StructField)
      (fields : Assoc FieldDef)
      → Embeds types t m
      → types.kind m ≡ struct_kind name inner
      → read_kind types read (named t) (types.kind t) ≡ done fields
      → (found : Assoc FieldDef) × (read (named m) ≡ done found)
  unfolding read_kind
  read_kind_done read t m name inner fields e inner_kind h =
      read_struct_done read t e.fields fields e.field m name inner e.member e.embedded e.other_type
        e.refers inner_kind (subst (λ x. read_kind types read (named t) x ≡ done fields) e.struct h)

  module _ (Cyclic : Text → Type 0)
      (next : (t : Text) → Cyclic t → (m : Text) × Cyclic m × Embeds types t m) where
    -- Reading a struct type never gives fields, whatever the fuel, if it belongs to struct types of
    -- which each embeds one of them.
    pub read_struct_fields-never :
        (n : ℕ) (t : Text) (fields : Assoc FieldDef)
        → Cyclic t
        → ¬ (read_struct_fields types n (named t) ≡ done fields)
    unfolding read_struct_fields elem_of kind_of
    read_struct_fields-never zero t fields c h = cc
    read_struct_fields-never (suc n) t fields c h =
        let m = next t c in
        let after = next m.0 m.1 in
        let r =
          read_kind_done (read_struct_fields types n) t m.0 after.2.kind_name after.2.fields fields
            m.2 after.2.struct h in
        read_struct_fields-never n m.0 r.0 m.1 r.1
