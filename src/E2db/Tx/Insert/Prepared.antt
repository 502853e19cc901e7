-- ===== src/E2db/Tx/Insert/Prepared.antt =====
-- What an insertion is going to write (`Insert` of pkg/e2db/tx.go): the id of the row is that of the
-- primary key, and each tag of an index has its key.
use e2d.E2db.Key.{index, unique}
use e2d.E2db.Model.{
  Tag, FieldDef, Field, ModelItem, has_tag, is_primary_key, get_primary_key, set_field,
}
use e2d.E2db.Values.{Value, to_string}
use e2d.E2db.Table.{Env, Table, validate_model}
use e2d.E2db.Tx.{encrypt_value}
use e2d.E2db.Tx.Insert.{new_key, tag_keys, tags_loop, fields_loop, non_empty, prepare}
use e2d.Client
use e2d.Client.{Etcd, M, World, pure, lift, bind}
use e2d.Client.Reads.{of_bind_ok}
use e2d.Prelude.{
  ◌≡◌, refl, sym, ap, ◌∙◌, subst, inl, inr, Bool, true, false, Bool-cases, List, [], ◌∷◌, ◌++◌, In,
  In-append_left, In-append_right, Text, codes, str_eq, str_eq_refl, ok, err, unique_constraint,
  ok_injective, if◌then◌else◌,
}

-- Assigning the primary key of a struct.
get_primary_key-set_field :
    (fs : List Field) (pk : Field) (v : Value)
    → get_primary_key fs ≡ ok pk
    → get_primary_key (set_field pk.name v fs) ≡ ok (record pk { value = v })
unfolding get_primary_key set_field
get_primary_key-set_field [] pk v h = cc
get_primary_key-set_field (f ∷ fs) pk v h = elim (Bool-cases (is_primary_key f.tags)) [
  | inl e ↦
      let same : f ≡ pk = ok_injective (rw e at h) in
      subst
        (λ (p : Field). get_primary_key (set_field p.name v (f ∷ fs)) ≡ ok (record p { value = v }))
        same (rw (str_eq_refl f.name, e) refl)
  | inr e ↦ elim (Bool-cases (str_eq f.name pk.name)) [
    | inl n ↦ rw (n, e) (get_primary_key-set_field fs pk v (rw e at h))
    | inr n ↦ rw (n, e) (get_primary_key-set_field fs pk v (rw e at h))
  ]
]

module _ (env : Env) (t : Table) where
  open env use {etcd}

  -- The key of a tag that indexes a value.
  abbrev pub HasKey : Text → Text → Value → List Text → Tag → Type 0
  HasKey id field v keys tag =
      (tag.name ≡ codes "index"
        → (text : Text) × (to_string v ≡ ok text) × In (index env.sha512 t.name field text id) keys)
      × (tag.name ≡ codes "unique"
          → (text : Text) × (to_string v ≡ ok text) × In (unique env.sha512 t.name field text) keys)

  if_there :
      (b : Bool) (key : Text) (w : World etcd) (ks : List Text)
      → ((if b then lift (err unique_constraint) else pure (key ∷ [])) w).0 ≡ ok ks
      → In key ks
  if_there true key w ks h = cc
  if_there false key w ks h = subst (In key) (ok_injective h) (In.here refl)

  tag_keys-HasKey :
      (id field : Text) (v : Value) (tag : Tag) (w : World etcd) (ks : List Text)
      → (tag_keys env t id field v tag w).0 ≡ ok ks
      → HasKey id field v ks tag
  unfolding tag_keys str_eq
  tag_keys-HasKey id field v tag w ks h = (
    λ e.
        let key = λ (text : Text). index env.sha512 t.name field text id in
        let a = of_bind_ok (lift (to_string v)) (λ text. pure (key text ∷ [])) w ks (rw e at h) in
        (a.0, a.1, subst (In (key a.0)) (ok_injective a.3) (In.here refl)),
    λ e.
        let key = λ (text : Text). unique env.sha512 t.name field text in
        let kept = λ (text : Text) (there : Bool).
          if there then lift {etcd = etcd} (err unique_constraint) else pure (key text ∷ []) in
        let looked = λ (text : Text). bind (Client.exists etcd (key text)) (kept text) in
        let a = of_bind_ok (lift (to_string v)) looked w ks (rw e at h) in
        let b = of_bind_ok (Client.exists etcd (key a.0)) (kept a.0) w ks a.3 in
        (a.0, a.1, if_there b.0 (key a.0) (Client.exists etcd (key a.0) w).1 ks b.3),
  )

  HasKey-append_left :
      (id field : Text) (v : Value) (xs ys : List Text) (tag : Tag)
      → HasKey id field v xs tag
      → HasKey id field v (xs ++ ys) tag
  HasKey-append_left id field v xs ys tag h = (
    λ e. let r = h.0 e in (r.0, r.1, In-append_left ys r.2),
    λ e. let r = h.1 e in (r.0, r.1, In-append_left ys r.2),
  )

  HasKey-append_right :
      (id field : Text) (v : Value) (xs ys : List Text) (tag : Tag)
      → HasKey id field v ys tag
      → HasKey id field v (xs ++ ys) tag
  HasKey-append_right id field v xs ys tag h = (
    λ e. let r = h.0 e in (r.0, r.1, In-append_right xs r.2),
    λ e. let r = h.1 e in (r.0, r.1, In-append_right xs r.2),
  )

  abbrev IsClear : List Tag → Type 0
  IsClear tags = has_tag (codes "encrypted" ∷ []) tags ≡ false

  -- A field that is not encrypted stays, and each of its tags has its key.
  tags_loop-HasKey :
      (id : Text) (f : FieldDef) (tags : List Tag) (v v' : Value) (keys : List Text)
      (w : World etcd)
      → (tags_loop env t id f tags v w).0 ≡ ok (v', keys)
      → IsClear f.tags
      → (v ≡ v') × ((tag : Tag) → In tag tags → HasKey id f.name v keys tag)
  unfolding tags_loop
  tags_loop-HasKey id f [] v v' keys w h clear =
      (ap (λ (p : Value × List Text). p.0) (ok_injective h), λ tag i. elim i [ ])
  tags_loop-HasKey id f (tag ∷ tags) v v' keys w h clear =
      let rest = λ (ks : List Text) (u : Value).
        bind (tags_loop env t id f tags u) (λ r. pure (r.0, ks ++ r.1)) in
      let sealed =
        if has_tag (codes "encrypted" ∷ []) f.tags then encrypt_value env t v else pure v in
      let a =
        of_bind_ok (tag_keys env t id f.name v tag) (λ ks. bind sealed (rest ks)) w (v', keys) h in
      let w1 = (tag_keys env t id f.name v tag w).1 in
      let b =
        of_bind_ok (pure v) (rest a.0) w1 (v', keys)
          (subst
            (λ (b : Bool).
              (bind (if b then encrypt_value env t v else pure v) (rest a.0) w1).0 ≡ ok (v', keys))
            clear a.3) in
      let same : v ≡ b.0 = ok_injective b.1 in
      let c =
        of_bind_ok (tags_loop env t id f tags v) (λ r. pure (r.0, a.0 ++ r.1)) w1 (v', keys)
          (subst (λ u. (rest a.0 u w1).0 ≡ ok (v', keys)) (sym same) b.3) in
      let more = tags_loop-HasKey id f tags v c.0.0 c.0.1 w1 c.1 clear in
      let all : a.0 ++ c.0.1 ≡ keys = ap (λ (p : Value × List Text). p.1) (ok_injective c.3) in
      (
        more.0 ∙ ap (λ (p : Value × List Text). p.0) (ok_injective c.3),
        λ g i.
            subst (λ ks. HasKey id f.name v ks g) all
              (elim i [
                | In.here e ↦ HasKey-append_left id f.name v a.0 c.0.1 g (
                    subst (HasKey id f.name v a.0) (sym e)
                      (tag_keys-HasKey id f.name v tag w a.0 a.1))
                | In.there j ↦ HasKey-append_right id f.name v a.0 c.0.1 g (more.1 g j)
              ]),
      )

  -- Each field that is not encrypted has the keys of its tags, with its value as it is stored.
  abbrev pub AreIndexed : Text → List Text → List Field → Type 0
  AreIndexed id keys fields =
      (f : Field) (tag : Tag)
      → In f fields
      → IsClear f.tags
      → In tag f.tags
      → HasKey id f.name f.value keys tag

  -- The primary key, whose text is the id if it is not encrypted.
  abbrev KeptKey : Field → List Field → Type 0
  KeptKey pk out =
      (v : Value) × (get_primary_key out ≡ ok (record pk { value = v }))
      × (IsClear pk.tags → pk.value ≡ v)

  fields_cons :
      (id : Text) (f : Field) (fs : List Field) (v : Value) (ks : List Text) (out : List Field)
      (keys : List Text)
      → (IsClear f.tags
          → (f.value ≡ v) × ((tag : Tag) → In tag f.tags → HasKey id f.name f.value ks tag))
      → AreIndexed id keys out × ((pk : Field) → get_primary_key fs ≡ ok pk → KeptKey pk out)
      → AreIndexed id (ks ++ keys) (record f { value = v } ∷ out)
        × ((pk : Field)
            → get_primary_key (f ∷ fs) ≡ ok pk
            → KeptKey pk (record f { value = v } ∷ out))
  unfolding get_primary_key
  fields_cons id f fs v ks out keys own rest = (
    λ g tag i. elim i [
      | In.here e ↦
          subst
            (λ (x : Field).
              IsClear x.tags → In tag x.tags → HasKey id x.name x.value (ks ++ keys) tag)
            (sym e)
            (λ clear j.
              HasKey-append_left id f.name v ks keys tag
                (subst (λ u. HasKey id f.name u ks tag) (own clear).0 ((own clear).1 tag j)))
      | In.there j ↦
          λ clear k. HasKey-append_right id g.name g.value ks keys tag (rest.0 g tag j clear k)
    ],
    λ pk e. elim (Bool-cases (is_primary_key f.tags)) [
      | inl y ↦
          subst (λ (p : Field). KeptKey p (record f { value = v } ∷ out)) (ok_injective (rw y at e))
            (v, rw y refl, λ clear. (own clear).0)
      | inr n ↦ let r = rest.1 pk (rw n at e) in (r.0, rw n r.1, r.2)
    ],
  )

  fields_loop_lem :
      (id : Text) (fs out : List Field) (keys : List Text) (w : World etcd)
      → (fields_loop env t id fs w).0 ≡ ok (out, keys)
      → AreIndexed id keys out × ((pk : Field) → get_primary_key fs ≡ ok pk → KeptKey pk out)
  unfolding fields_loop get_primary_key
  fields_loop_lem id [] out keys w h =
      let none : [] ≡ out = ap (λ (p : List Field × List Text). p.0) (ok_injective h) in
      (λ f tag i. elim (subst (In f) (sym none) i) [ ], λ pk e. cc)
  fields_loop_lem id (f ∷ fs) out keys w h =
      let ends = λ (r : Value × List Text) (rest : List Field × List Text).
        pure {etcd = etcd} (record f { value = r.0 } ∷ rest.0, r.1 ++ rest.1) in
      let a =
        of_bind_ok (tags_loop env t id f.def f.tags f.value)
          (λ r. bind (fields_loop env t id fs) (ends r)) w (out, keys) h in
      let w1 = (tags_loop env t id f.def f.tags f.value w).1 in
      let b = of_bind_ok (fields_loop env t id fs) (ends a.0) w1 (out, keys) a.3 in
      subst
        (λ (p : List Field × List Text).
          AreIndexed id p.1 p.0
          × ((pk : Field) → get_primary_key (f ∷ fs) ≡ ok pk → KeptKey pk p.0))
        (ok_injective b.3)
        (fields_cons id f fs a.0.0 a.0.1 b.0.0 b.0.1
          (tags_loop-HasKey id f.def f.tags f.value a.0.0 a.0.1 w a.1)
          (fields_loop_lem id fs b.0.0 b.0.1 w1 b.1))

  -- The fields that are stored for a struct are indexed, and its primary key has the id as its text if
  -- it is not encrypted.
  abbrev pub IsPrepared : Text → List Text → List Field → Type 0
  IsPrepared id keys fields =
      AreIndexed id keys fields
      × ((pk : Field) × (get_primary_key fields ≡ ok pk)
          × (IsClear pk.tags → to_string pk.value ≡ ok id))

  non_empty_lem : (text id : Text) → non_empty text ≡ ok id → text ≡ id
  unfolding non_empty
  non_empty_lem [] id h = cc
  non_empty_lem (c ∷ s) id h = ok_injective h

  pub prepare-IsPrepared :
      (m : ModelItem) (w : World etcd) (id : Text) (fields : List Field) (keys : List Text)
      → (prepare env t m w).0 ≡ ok (id, fields, keys)
      → IsPrepared id keys fields
  unfolding prepare
  prepare-IsPrepared m w id fields keys h =
      let looped = λ (pk : Field) (value : Value) (id : Text).
        bind (fields_loop env t id (set_field pk.name value m.fields))
          (λ r. pure {etcd = etcd} (id, r.0, r.1)) in
      let named = λ (pk : Field) (value : Value) (text : Text).
        bind (lift (non_empty text)) (looped pk value) in
      let valued = λ (pk : Field) (value : Value). bind (lift (to_string value)) (named pk value) in
      let keyed = λ (pk : Field). bind (new_key env t pk) (valued pk) in
      let result : Text × List Field × List Text = (id, fields, keys) in
      let a =
        of_bind_ok (lift (validate_model t m.name))
          (λ same. bind (lift (get_primary_key m.fields)) keyed) w result h in
      let b = of_bind_ok (lift (get_primary_key m.fields)) keyed w result a.3 in
      let c = of_bind_ok (new_key env t b.0) (valued b.0) w result b.3 in
      let w1 = (new_key env t b.0 w).1 in
      let d = of_bind_ok (lift (to_string c.0)) (named b.0 c.0) w1 result c.3 in
      let e = of_bind_ok (lift (non_empty d.0)) (looped b.0 c.0) w1 result d.3 in
      let f =
        of_bind_ok (fields_loop env t e.0 (set_field b.0.name c.0 m.fields))
          (λ r. pure {etcd = etcd} (e.0, r.0, r.1)) w1 result e.3 in
      let all = fields_loop_lem e.0 (set_field b.0.name c.0 m.fields) f.0.0 f.0.1 w1 f.1 in
      let kept =
        all.1 (record b.0 { value = c.0 }) (get_primary_key-set_field m.fields b.0 c.0 b.1) in
      subst (λ (p : Text × List Field × List Text). IsPrepared p.0 p.2 p.1) (ok_injective f.3)
        (
          all.0,
          (
            record b.0 { value = kept.0 },
            kept.1,
            λ clear. ap to_string (sym (kept.2 clear)) ∙ d.1 ∙ ap ok (non_empty_lem d.0 e.0 e.1),
          ),
        )
