-- ===== src/E2db/Tx/Delete/Collected.antt =====
-- The keys that a deletion collects (`getIndexesByPrimaryKey` and `Delete` of pkg/e2db/tx.go).
use e2d.E2db.Key.{index, unique}
use e2d.E2db.Model.{
  FieldDef, Field, IndexType, primary_key, secondary_index, unique_index, no_index, index_type,
  field_by_name,
}
use e2d.E2db.Values.{to_string}
use e2d.E2db.Table.{Env, Table}
use e2d.E2db.Query.{Row, read_row, find_one_by_primary_key, rows_of, no_rows_if_missing}
use e2d.E2db.Tx.Delete.{
  collect_keys, get_indexes_by_primary_key, keys_of_found, index_keys, base_name, with_row,
  with_key, field_text,
}
use e2d.Client.{M, World, pure, lift, bind, continue, get}
use e2d.Client.Reads.{of_bind_ok, get_answered, get_quiet}
use e2d.Prelude.{
  ℕ, ◌≡◌, refl, sym, ap, ◌∙◌, subst, Option, none, some, List, [], ◌∷◌, ◌++◌, ltb, length, ◌+◌,
  if◌then◌else◌, In, In-append_left, In-append_right, Text, Result, ok, err, panic, ok_injective,
}

module _ (env : Env) (t : Table) where
  open env use {etcd}

  continued_quiet :
      {A B : Type 0} (r : Result A) (f : A → Result B) (w : World etcd)
      → (continue {etcd = etcd} r (λ a. lift (f a)) w).1 ≡ w
  continued_quiet (ok a) f w = refl
  continued_quiet (err e) f w = refl
  continued_quiet panic f w = refl

  -- The row under a primary key, read by an answered request.
  keys_quiet :
      (pk : Text) (w : World etcd) → w.fates ≡ [] → (get_indexes_by_primary_key env t pk w).1 ≡ w
  unfolding get_indexes_by_primary_key find_one_by_primary_key rows_of
  keys_quiet pk w h =
      continued_quiet (no_rows_if_missing (get etcd pk w).0) (read_row env t) (get etcd pk w).1
      ∙ get_quiet etcd pk w h

  keys_of_row :
      (pk text : Text) (row : Row) (w : World etcd)
      → w.fates ≡ []
      → etcd.get w.kv pk ≡ some text
      → read_row env t text ≡ ok row
      → (get_indexes_by_primary_key env t pk w).0
        ≡ with_row pk (index_keys env t (base_name pk) row t.fields)
  unfolding get_indexes_by_primary_key find_one_by_primary_key rows_of no_rows_if_missing
      keys_of_found
  keys_of_row pk text row w h stored readable =
      rw (get_answered etcd pk text w h stored, readable) refl

  with_row_ok :
      (pk : Text) (r : Result (List Text)) (keys : List Text)
      → with_row pk r ≡ ok keys
      → (ks : List Text) × (r ≡ ok ks) × (pk ∷ ks ≡ keys)
  unfolding with_row
  with_row_ok pk (ok ks) keys h = (ks, refl, ok_injective h)
  with_row_ok pk (err e) keys h = cc
  with_row_ok pk panic keys h = cc

  -- What is deleted for a row: its key and its index keys.
  abbrev pub Collected : Text → Row → List Text → Type 0
  Collected pk row keys =
      (ks : List Text) × (index_keys env t (base_name pk) row t.fields ≡ ok ks)
      × ((k : Text) → In k (pk ∷ ks) → In k keys)

  pub collect_keys-Collected :
      (pks : List Text) (w : World etcd) (keys : List Text) (n : ℕ) (pk text : Text) (row : Row)
      → w.fates ≡ []
      → (collect_keys env t pks w).0 ≡ ok (keys, n)
      → In pk pks
      → etcd.get w.kv pk ≡ some text
      → read_row env t text ≡ ok row
      → Collected pk row keys
  unfolding collect_keys
  collect_keys-Collected [] w keys n pk text row q h i stored readable = elim i [ ]
  collect_keys-Collected (p ∷ pks) w keys n pk text row q h i stored readable =
      let result : List Text × ℕ = (keys, n) in
      let ends : List Text → List Text × ℕ → M etcd (List Text × ℕ) =
        λ ks rest. pure (ks ++ rest.0, (if ltb 0 (length ks) then rest.1 + 1 else rest.1)) in
      let rest : List Text → M etcd (List Text × ℕ) =
        λ ks. bind (collect_keys env t pks) (ends ks) in
      let a = of_bind_ok (get_indexes_by_primary_key env t p) rest w result h in
      let w1 = (get_indexes_by_primary_key env t p w).1 in
      let b = of_bind_ok (collect_keys env t pks) (ends a.0) w1 result a.3 in
      let same : w1 ≡ w = keys_quiet p w q in
      let all : a.0 ++ b.0.0 ≡ keys = ap (λ (x : List Text × ℕ). x.0) (ok_injective b.3) in
      elim i [
        | In.here e ↦
            let of_row = with_row_ok pk (index_keys env t (base_name pk) row t.fields) a.0 (
              sym (keys_of_row pk text row w q stored readable)
              ∙ ap (λ x. (get_indexes_by_primary_key env t x w).0) e
              ∙ a.1) in
            (
              of_row.0,
              of_row.1,
              λ k j. subst (In k) all (In-append_left b.0.0 (subst (In k) of_row.2 j)),
            )
        | In.there j ↦
            let r =
              collect_keys-Collected pks w b.0.0 b.0.1 pk text row q
                (ap (λ x. (collect_keys env t pks x).0) (sym same) ∙ b.1) j stored readable in
            (r.0, r.1, λ k m. subst (In k) all (In-append_right a.0 (r.2 k m)))
      ]

  with_key_ok :
      (r : Result Text) (key : Text → Text) (rest : Result (List Text)) (keys : List Text)
      → with_key r key rest ≡ ok keys
      → (text : Text) × (ks : List Text) × (r ≡ ok text) × (rest ≡ ok ks) × (key text ∷ ks ≡ keys)
  unfolding with_key
  with_key_ok (ok text) key (ok ks) keys h = (text, ks, refl, refl, ok_injective h)
  with_key_ok (ok text) key (err e) keys h = cc
  with_key_ok (ok text) key panic keys h = cc
  with_key_ok (err e) key rest keys h = cc
  with_key_ok panic key rest keys h = cc

  field_text_ok :
      (name : Text) (row : Row) (text : Text)
      → field_text env t name row ≡ ok text
      → (g : Field) × (field_by_name name row ≡ some g) × (to_string g.value ≡ ok text)
  unfolding field_text
  field_text_ok name row text h = of_field (field_by_name name row) refl h
    where
      of_field :
          (o : Option Field)
          → field_by_name name row ≡ o
          → (elim o [ none ↦ panic | some f ↦ to_string f.value ]) ≡ ok text
          → (g : Field) × (field_by_name name row ≡ some g) × (to_string g.value ≡ ok text)
      of_field none e k = cc
      of_field (some g) e k = (g, e, k)

  -- Where a field has an index, `P` holds of the index key of its value in the row.
  abbrev pub OfIndex : Text → Row → (Text → Type 0) → FieldDef → IndexType → Type 0
  OfIndex id row P f unique_index =
      (g : Field) × (text : Text) × (field_by_name f.name row ≡ some g)
      × (to_string g.value ≡ ok text)
      × P (unique env.sha512 t.name f.name text)
  OfIndex id row P f secondary_index =
      (g : Field) × (text : Text) × (field_by_name f.name row ≡ some g)
      × (to_string g.value ≡ ok text)
      × P (index env.sha512 t.name f.name text id)
  OfIndex id row P f primary_key = Unit
  OfIndex id row P f no_index = Unit

  pub OfIndex-map :
      (id : Text) (row : Row) (P Q : Text → Type 0) (f : FieldDef) (kind : IndexType)
      → ((k : Text) → P k → Q k)
      → OfIndex id row P f kind
      → OfIndex id row Q f kind
  OfIndex-map id row P Q f unique_index h (g, text, e, k, p) = (g, text, e, k, h _ p)
  OfIndex-map id row P Q f secondary_index h (g, text, e, k, p) = (g, text, e, k, h _ p)
  OfIndex-map id row P Q f primary_key h p = tt
  OfIndex-map id row P Q f no_index h p = tt

  -- The first of the fields whose keys are listed, and the others.
  abbrev own_keys : Text → Row → FieldDef → IndexType → Result (List Text) → Result (List Text)
  own_keys id row f kind rest = elim kind [
    | unique_index ↦
        with_key (field_text env t f.name row) (λ text. unique env.sha512 t.name f.name text) rest
    | secondary_index ↦
        with_key (field_text env t f.name row) (λ text. index env.sha512 t.name f.name text id) rest
    | primary_key ↦ rest
    | no_index ↦ rest
  ]

  own_keys_ok :
      (id : Text) (row : Row) (f : FieldDef) (kind : IndexType) (rest : Result (List Text))
      (keys : List Text)
      → own_keys id row f kind rest ≡ ok keys
      → OfIndex id row (λ k. In k keys) f kind
        × (ks : List Text) × (rest ≡ ok ks)
        × ((k : Text) → In k ks → In k keys)
  own_keys_ok id row f unique_index rest keys h =
      let (text, ks, e, r, all) = with_key_ok (field_text env t f.name row) _ rest keys h in
      let (g, there, its) = field_text_ok f.name row text e in
      (
        (g, text, there, its, subst (In _) all (In.here refl)),
        ks,
        r,
        λ k i. subst (In k) all (In.there i),
      )
  own_keys_ok id row f secondary_index rest keys h =
      let (text, ks, e, r, all) = with_key_ok (field_text env t f.name row) _ rest keys h in
      let (g, there, its) = field_text_ok f.name row text e in
      (
        (g, text, there, its, subst (In _) all (In.here refl)),
        ks,
        r,
        λ k i. subst (In k) all (In.there i),
      )
  own_keys_ok id row f primary_key rest keys h = (tt, keys, h, λ k i. i)
  own_keys_ok id row f no_index rest keys h = (tt, keys, h, λ k i. i)

  -- The index keys of a row are those of its fields.
  pub index_keys-OfIndex :
      (id : Text) (row : Row) (fs : List FieldDef) (keys : List Text) (f : FieldDef)
      → index_keys env t id row fs ≡ ok keys
      → In f fs
      → OfIndex id row (λ k. In k keys) f (index_type f.tags)
  unfolding index_keys
  index_keys-OfIndex id row [] keys f h i = elim i [ ]
  index_keys-OfIndex id row (g ∷ fs) keys f h (In.here e) =
      subst (λ (x : FieldDef). OfIndex id row (λ k. In k keys) x (index_type x.tags)) (sym e)
        (own_keys_ok id row g (index_type g.tags) (index_keys env t id row fs) keys h).0
  index_keys-OfIndex id row (g ∷ fs) keys f h (In.there j) =
      let r = own_keys_ok id row g (index_type g.tags) (index_keys env t id row fs) keys h in
      OfIndex-map id row (λ k. In k r.1) (λ k. In k keys) f (index_type f.tags) r.3
        (index_keys-OfIndex id row fs r.1 f r.2 j)
