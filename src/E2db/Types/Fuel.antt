-- ===== src/E2db/Types/Fuel.antt =====
-- The fuel of a reading of a struct type (`readStructFields` of pkg/e2db/model.go) does not show.
use e2d.E2db.Model.{FieldDef}
use e2d.E2db.Types.{
  GoType, named, elem_of, StructField, Kind, struct_kind, interface_kind, pointer_kind, other_kind,
  Types, Reading, done, panicked, out_of_fuel, and_then, kind_of, fields_loop, embedded_kind,
  embedded_loop, promote, read_struct, read_kind, read_struct_fields,
}
use e2d.E2db.Types.Ends.{Embeds, has_returned, read_struct_fields-has_returned}
use e2d.Prelude.{
  ℕ, zero, suc, ◌≤◌, ◌<◌, ◌≡◌, refl, ap, ◌∙◌, true, List, [], ◌∷◌, arith, Text, Assoc,
}

-- Where a first part has returned, the second in its place goes on in the same way.
and_then-same :
    (r s : Reading) (k l : Assoc FieldDef → Reading)
    → has_returned (and_then r k) ≡ true
    → (has_returned r ≡ true → s ≡ r)
    → ((fields : Assoc FieldDef) → has_returned (k fields) ≡ true → l fields ≡ k fields)
    → and_then s l ≡ and_then r k
unfolding and_then has_returned
and_then-same (done fields) s k l h hr hk = ap (λ x. and_then x l) (hr refl) ∙ hk fields h
and_then-same panicked s k l h hr hk = ap (λ x. and_then x l) (hr refl)
and_then-same out_of_fuel s k l h hr hk = cc

module _ (types : Types) where
  module _ (read more : GoType → Reading)
      (same : (t : GoType) → has_returned (read t) ≡ true → more t ≡ read t) where
    embedded_kind-same :
        (t : Text) (f : StructField) (k : Kind) (fields : Assoc FieldDef)
        → has_returned (embedded_kind types read t f k fields) ≡ true
        → embedded_kind types more t f k fields ≡ embedded_kind types read t f k fields
    unfolding embedded_kind
    embedded_kind-same t f (struct_kind name inner) fields h =
        and_then-same (read (elem_of f.type)) (more (elem_of f.type))
          (λ inner. promote types t inner fields) (λ inner. promote types t inner fields) h
          (same (elem_of f.type)) (λ inner h. refl)
    embedded_kind-same t f interface_kind fields h = refl
    embedded_kind-same t f pointer_kind fields h = refl
    embedded_kind-same t f other_kind fields h = refl

    embedded_loop-same :
        (t : Text) (es : List StructField) (fields : Assoc FieldDef)
        → has_returned (embedded_loop types read t es fields) ≡ true
        → embedded_loop types more t es fields ≡ embedded_loop types read t es fields
    unfolding embedded_loop
    embedded_loop-same t [] fields h = refl
    embedded_loop-same t (f ∷ fs) fields h =
        let k = kind_of types (elem_of f.type) in
        and_then-same (embedded_kind types read t f k fields)
          (embedded_kind types more t f k fields) (embedded_loop types read t fs)
          (embedded_loop types more t fs) h (embedded_kind-same t f k fields)
          (embedded_loop-same t fs)

    read_kind-same :
        (t : GoType) (k : Kind)
        → has_returned (read_kind types read t k) ≡ true
        → read_kind types more t k ≡ read_kind types read t k
    unfolding read_kind read_struct
    read_kind-same (named t) (struct_kind name []) h = refl
    read_kind-same (named t) (struct_kind name (f ∷ fs)) h =
        let r = fields_loop types (named t) (f ∷ fs) ([], []) in embedded_loop-same t r.1 r.0 h
    read_kind-same (named t) interface_kind h = refl
    read_kind-same (named t) pointer_kind h = refl
    read_kind-same (named t) other_kind h = refl
    read_kind-same (GoType.pointer t) k h = refl
    read_kind-same (GoType.slice t) k h = refl

  more_fuel_same :
      (n m : ℕ) (t : GoType)
      → n ≤ m
      → has_returned (read_struct_fields types n t) ≡ true
      → read_struct_fields types m t ≡ read_struct_fields types n t
  unfolding read_struct_fields has_returned
  more_fuel_same zero m t le h = cc
  more_fuel_same (suc n) zero t le h = absurd (omega arith)
  more_fuel_same (suc n) (suc m) t le h =
      read_kind-same (read_struct_fields types n) (read_struct_fields types m)
        (λ t h. more_fuel_same n m t (omega arith) h) (elem_of t) (kind_of types (elem_of t)) h

  -- If each struct type has a rank and those that it embeds have smaller ones, reading a struct type
  -- returns on any fuel above its rank, and it returns the same on any more.
  pub read_struct_fields-total :
      (rank : Text → ℕ) (smaller : (t m : Text) → Embeds types t m → rank m < rank t) (t : Text)
      (n : ℕ)
      → rank t < n
      → (has_returned (read_struct_fields types n (named t)) ≡ true)
        × ((m : ℕ)
            → n ≤ m
            → read_struct_fields types m (named t) ≡ read_struct_fields types n (named t))
  read_struct_fields-total rank smaller t n h =
      let returned = read_struct_fields-has_returned types rank smaller n t h in
      (returned, λ m le. more_fuel_same n m (named t) le returned)
