-- ===== src/E2db/Types/Ends.antt =====
-- When reading a struct type ends (`readStructFields` of pkg/e2db/model.go).
use e2d.E2db.Model.{FieldDef}
use e2d.E2db.Types.{
  GoType, named, pointer, slice, elem_of, type_is_equal, StructField, Kind, struct_kind,
  interface_kind, pointer_kind, other_kind, Types, Reading, done, panicked, out_of_fuel, and_then,
  kind_of, is_embedded, take_field, fields_loop, embedded_kind, embedded_loop, promote_found,
  promote_one, promote, read_struct, read_kind, read_struct_fields,
}
use e2d.Prelude.{
  ℕ, zero, suc, ◌<◌, ◌≡◌, refl, sym, subst, ◌⊎◌, inl, inr, Bool, true, false, Option, none, some,
  List, [], ◌∷◌, arith, Bool-cases, In, In-append, Text, Assoc, lookup,
}

unfoldable pub has_returned : Reading → Bool
has_returned out_of_fuel = false
has_returned r = true

-- A type embeds another struct type, through a pointer or not.
pub record Embeds (types : Types) (t m : Text) : Type 0 where
  pub kind_name : Text
  pub fields : List StructField
  pub field : StructField
  pub struct : types.kind t ≡ struct_kind kind_name fields
  pub member : In field fields
  pub embedded : is_embedded types field ≡ true
  pub other_type : type_is_equal field.type (named t) ≡ false
  pub refers : elem_of field.type ≡ named m

module _ (types : Types) where
  abbrev IsEmbeddedIn : Text → List StructField → StructField → Type 0
  IsEmbeddedIn t fs g =
      In g fs × (is_embedded types g ≡ true) × (type_is_equal g.type (named t) ≡ false)

  take_field-embedded :
      (t : Text) (f : StructField) (fields : Assoc FieldDef) (es : List StructField)
      (g : StructField)
      → In g (take_field types (named t) f (fields, es)).1
      → In g es
        ⊎ ((g ≡ f) × (is_embedded types f ≡ true) × (type_is_equal f.type (named t) ≡ false))
  unfolding take_field
  take_field-embedded t f fields es g h = elim (Bool-cases (type_is_equal f.type (named t))) [
    | inl e ↦ inl (rw e at h)
    | inr e ↦ elim (Bool-cases (is_embedded types f)) [
      | inr k ↦ inl (rw (e, k) at h)
      | inl k ↦ elim (In-append es (f ∷ []) (rw (e, k) at h)) [
        | inl i ↦ inl i
        | inr (In.here i) ↦ inr (i, k, e)
        | inr (In.there i) ↦ absurd (elim i [ ])
      ]
    ]
  ]

  fields_loop-embedded :
      (t : Text) (fs : List StructField) (acc : Assoc FieldDef × List StructField) (g : StructField)
      → In g (fields_loop types (named t) fs acc).1
      → In g acc.1 ⊎ IsEmbeddedIn t fs g
  unfolding fields_loop
  fields_loop-embedded t [] acc g h = inl h
  fields_loop-embedded t (f ∷ fs) acc g h =
      elim (fields_loop-embedded t fs (take_field types (named t) f acc) g h) [
        | inr (i, k, e) ↦ inr (In.there i, k, e)
        | inl i ↦ elim (take_field-embedded t f acc.0 acc.1 g i) [
          | inl j ↦ inl j
          | inr (same, k, e) ↦ inr (
            In.here same,
            subst (λ x. is_embedded types x ≡ true) (sym same) k,
            subst (λ (x : StructField). type_is_equal x.type (named t) ≡ false) (sym same) e,
          )
        ]
      ]

  and_then-has_returned :
      (r : Reading) (k : Assoc FieldDef → Reading)
      → has_returned r ≡ true
      → ((fields : Assoc FieldDef) → has_returned (k fields) ≡ true)
      → has_returned (and_then r k) ≡ true
  unfolding and_then has_returned
  and_then-has_returned (done fields) k h hk = hk fields
  and_then-has_returned panicked k h hk = refl
  and_then-has_returned out_of_fuel k h hk = cc

  promote_found-has_returned :
      (t n : Text) (f : FieldDef) (fields : Assoc FieldDef) (b : Bool)
      → has_returned (promote_found types t n f fields b) ≡ true
  unfolding promote_found has_returned
  promote_found-has_returned t n f fields true = refl
  promote_found-has_returned t n f fields false = refl

  promote_one-has_returned :
      (t n : Text) (f : FieldDef) (fields : Assoc FieldDef) (o : Option FieldDef)
      → has_returned (promote_one types t n f fields o) ≡ true
  unfolding promote_one has_returned
  promote_one-has_returned t n f fields (some g) = refl
  promote_one-has_returned t n f fields none =
      promote_found-has_returned t n f fields (types.has_field t n)

  promote-has_returned :
      (t : Text) (inner fields : Assoc FieldDef)
      → has_returned (promote types t inner fields) ≡ true
  unfolding promote has_returned
  promote-has_returned t [] fields = refl
  promote-has_returned t ((n, f) ∷ inner) fields =
      and_then-has_returned (promote_one types t n f fields (lookup n fields))
        (promote types t inner) (promote_one-has_returned t n f fields (lookup n fields))
        (promote-has_returned t inner)

  -- Reading an embedded field returns if reading its type does, where that is a struct.
  embedded_kind-has_returned :
      (read : GoType → Reading) (t : Text) (f : StructField) (k : Kind) (fields : Assoc FieldDef)
      → ((name : Text) (inner : List StructField)
          → k ≡ struct_kind name inner
          → has_returned (read (elem_of f.type)) ≡ true)
      → has_returned (embedded_kind types read t f k fields) ≡ true
  unfolding embedded_kind has_returned
  embedded_kind-has_returned read t f (struct_kind name inner) fields h =
      and_then-has_returned (read (elem_of f.type)) (λ inner. promote types t inner fields)
        (h name inner refl) (λ inner. promote-has_returned t inner fields)
  embedded_kind-has_returned read t f interface_kind fields h = refl
  embedded_kind-has_returned read t f pointer_kind fields h = refl
  embedded_kind-has_returned read t f other_kind fields h = refl

  embedded_loop-has_returned :
      (read : GoType → Reading) (t : Text) (es : List StructField) (fields : Assoc FieldDef)
      → ((f : StructField) (name : Text) (inner : List StructField)
          → In f es
          → kind_of types (elem_of f.type) ≡ struct_kind name inner
          → has_returned (read (elem_of f.type)) ≡ true)
      → has_returned (embedded_loop types read t es fields) ≡ true
  unfolding embedded_loop has_returned
  embedded_loop-has_returned read t [] fields h = refl
  embedded_loop-has_returned read t (f ∷ fs) fields h =
      and_then-has_returned (embedded_kind types read t f (kind_of types (elem_of f.type)) fields)
        (embedded_loop types read t fs)
        (embedded_kind-has_returned read t f (kind_of types (elem_of f.type)) fields
          (λ name inner k. h f name inner (In.here refl) k))
        (λ fields.
          embedded_loop-has_returned read t fs fields
            (λ g name inner i k. h g name inner (In.there i) k))

  named_of_kind :
      (g : GoType) (name : Text) (inner : List StructField)
      → kind_of types g ≡ struct_kind name inner
      → (m : Text) × (g ≡ named m)
  unfolding kind_of
  named_of_kind (named m) name inner h = (m, refl)
  named_of_kind (pointer g) name inner h = cc
  named_of_kind (slice g) name inner h = cc

  module _ (rank : Text → ℕ) (smaller : (t m : Text) → Embeds types t m → rank m < rank t) where
    -- Reading a struct type ends within as much fuel as its rank and one, if each struct type has a
    -- rank and those that it embeds have smaller ones.
    pub read_struct_fields-has_returned :
        (n : ℕ) (t : Text) → rank t < n → has_returned (read_struct_fields types n (named t)) ≡ true
    unfolding read_struct_fields read_kind read_struct has_returned elem_of kind_of
    read_struct_fields-has_returned zero t h = absurd (omega arith)
    read_struct_fields-has_returned (suc n) t h =
        of_kind (types.kind t) refl (λ m less. read_struct_fields-has_returned n m less)
      where
        within : {m : Text} → rank m < rank t → rank m < n
        within less = omega arith

        of_kind :
            (k : Kind)
            → types.kind t ≡ k
            → ((m : Text) → rank m < n → has_returned (read_struct_fields types n (named m)) ≡ true)
            → has_returned (read_kind types (read_struct_fields types n) (named t) k) ≡ true
        of_kind interface_kind e ih = refl
        of_kind pointer_kind e ih = refl
        of_kind other_kind e ih = refl
        of_kind (struct_kind name []) e ih = refl
        of_kind (struct_kind name (f ∷ fs)) e ih =
            embedded_loop-has_returned (read_struct_fields types n) t
              (fields_loop types (named t) (f ∷ fs) ([], [])).1
              (fields_loop types (named t) (f ∷ fs) ([], [])).0
              (λ g inner_name inner i k. elim (fields_loop-embedded t (f ∷ fs) ([], []) g i) [
                | inl j ↦ elim j [ ]
                | inr (member, embedded, other_type) ↦
                    let m = named_of_kind (elem_of g.type) inner_name inner k in
                    subst (λ x. has_returned (read_struct_fields types n x) ≡ true) (sym m.1)
                      (ih m.0 (
                        within (
                          smaller t m.0 (record {
                            kind_name = name;
                            fields = f ∷ fs;
                            field = g;
                            struct = e;
                            member = member;
                            embedded = embedded;
                            other_type = other_type;
                            refers = m.1;
                          }))))
              ])
