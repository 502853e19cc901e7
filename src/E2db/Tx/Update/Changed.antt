-- ===== src/E2db/Tx/Update/Changed.antt =====
-- What the loop of `Update` makes of a stored row (pkg/e2db/tx.go).
use e2d.E2db.Key.{index, unique}
use e2d.E2db.Model.{Tag, Field, has_tag, set_field, field_by_name}
use e2d.E2db.Values.{Value, to_string, is_zero, deep_equal}
use e2d.E2db.Table.{Env, Table}
use e2d.E2db.Query.{Row}
use e2d.E2db.Tx.{encrypt_value}
use e2d.E2db.Tx.Update.{tag_moves, moves_loop, changed_field, is_kept, one_field, fields_loop}
use e2d.Client
use e2d.Client.{Etcd, M, World, pure, lift, bind}
use e2d.Client.Reads.{of_bind_ok}
use e2d.Prelude.{
  ◌≡◌, refl, sym, ap, ◌∙◌, subst, inl, inr, Bool, true, false, ◌&&◌, Bool-cases, Option, none, some,
  List, [], ◌∷◌, ◌++◌, In, In-append_left, In-append_right, Text, codes, str_eq, str_eq_iff, ok,
  err, unique_constraint, ok_injective, if◌then◌else◌, Assoc,
}

field_by_name-set_field :
    (n : Text) (v : Value) (fs : List Field) (old : Field)
    → field_by_name n fs ≡ some old
    → field_by_name n (set_field n v fs) ≡ some (record old { value = v })
unfolding field_by_name set_field
field_by_name-set_field n v [] old h = cc
field_by_name-set_field n v (f ∷ fs) old h = elim (Bool-cases (str_eq f.name n)) [
  | inl e ↦
      let same : some f ≡ some old = rw e at h in
      rw (e, e)
        (ap (λ (o : Option Field). elim o [ none ↦ none | some g ↦ some (record g { value = v }) ])
          same)
  | inr e ↦ rw (e, e) (field_by_name-set_field n v fs old (rw e at h))
]

field_by_name-set_other :
    (n m : Text) (v : Value) (fs : List Field)
    → str_eq n m ≡ false
    → field_by_name n (set_field m v fs) ≡ field_by_name n fs
unfolding field_by_name set_field
field_by_name-set_other n m v [] h = refl
field_by_name-set_other n m v (f ∷ fs) h = elim (Bool-cases (str_eq f.name m)) [
  | inl e ↦
      let other : str_eq f.name n ≡ false = elim (Bool-cases (str_eq f.name n)) [
        | inl k ↦ absurd (cc (sym h, subst (λ x. str_eq x m ≡ true) ((str_eq_iff f.name n).0 k) e))
        | inr k ↦ k
      ] in
      rw (e, other) (field_by_name-set_other n m v fs h)
  | inr e ↦ elim (Bool-cases (str_eq f.name n)) [
    | inl k ↦ rw (e, k) refl
    | inr k ↦ rw (e, k) (field_by_name-set_other n m v fs h)
  ]
]

-- Each name is that of one field.
abbrev pub Distinct : List Field → Type 0
Distinct [] = Unit
Distinct (f ∷ fs) = ((g : Field) → In g fs → str_eq f.name g.name ≡ false) × Distinct fs

str_eq-sym : (s t : Text) → str_eq s t ≡ false → str_eq t s ≡ false
str_eq-sym s t h = elim (Bool-cases (str_eq t s)) [
  | inl e ↦ absurd (cc (sym h, (str_eq_iff s t).1 (sym ((str_eq_iff t s).0 e))))
  | inr e ↦ e
]

module _ (env : Env) (t : Table) where
  open env use {etcd}

  -- The index key of the old value moves to that of the new one.
  abbrev pub HasMove : Text → Text → Value → Value → Assoc Text → Tag → Type 0
  HasMove id field old v moves tag =
      (tag.name ≡ codes "index"
        → (was : Text) × (text : Text) × (to_string old ≡ ok was)
          × (to_string v ≡ ok text)
          × In (index env.sha512 t.name field was id, index env.sha512 t.name field text id) moves)
      × (tag.name ≡ codes "unique"
          → (was : Text) × (text : Text) × (to_string old ≡ ok was)
            × (to_string v ≡ ok text)
            × In (unique env.sha512 t.name field was, unique env.sha512 t.name field text) moves)

  if_there :
      (b : Bool) (p : Text × Text) (w : World etcd) (moves : Assoc Text)
      → ((if b then lift (err unique_constraint) else pure (p ∷ [])) w).0 ≡ ok moves
      → In p moves
  if_there true p w moves h = cc
  if_there false p w moves h = subst (In p) (ok_injective h) (In.here refl)

  tag_moves-HasMove :
      (id field : Text) (old v : Value) (tag : Tag) (w : World etcd) (moves : Assoc Text)
      → (tag_moves env t id field old v tag w).0 ≡ ok moves
      → HasMove id field old v moves tag
  unfolding tag_moves str_eq
  tag_moves-HasMove id field old v tag w moves h = (
    λ e.
        let pair : Text → Text → Text × Text = λ was text.
          (index env.sha512 t.name field was id, index env.sha512 t.name field text id) in
        let ends : Text → Text → M etcd (Assoc Text) = λ was text. pure (pair was text ∷ []) in
        let a =
          of_bind_ok (lift (to_string old)) (λ was. bind (lift (to_string v)) (ends was)) w moves
            (rw e at h) in
        let b = of_bind_ok (lift (to_string v)) (ends a.0) w moves a.3 in
        (a.0, b.0, a.1, b.1, subst (In (pair a.0 b.0)) (ok_injective b.3) (In.here refl)),
    λ e.
        let key = λ (text : Text). unique env.sha512 t.name field text in
        let kept : Text → Text → Bool → M etcd (Assoc Text) = λ was text there.
          if there then lift (err unique_constraint) else pure ((key was, key text) ∷ []) in
        let looked : Text → Text → M etcd (Assoc Text) =
          λ was text. bind (Client.exists etcd (key text)) (kept was text) in
        let a =
          of_bind_ok (lift (to_string old)) (λ was. bind (lift (to_string v)) (looked was)) w moves
            (rw e at h) in
        let b = of_bind_ok (lift (to_string v)) (looked a.0) w moves a.3 in
        let c = of_bind_ok (Client.exists etcd (key b.0)) (kept a.0 b.0) w moves b.3 in
        (
          a.0,
          b.0,
          a.1,
          b.1,
          if_there c.0 (key a.0, key b.0) (Client.exists etcd (key b.0) w).1 moves c.3,
        ),
  )

  HasMove-map :
      (id field : Text) (old v : Value) (xs ys : Assoc Text) (tag : Tag)
      → ((p : Text × Text) → In p xs → In p ys)
      → HasMove id field old v xs tag
      → HasMove id field old v ys tag
  HasMove-map id field old v xs ys tag f h = (
    λ e. let r = h.0 e in (r.0, r.1, r.2, r.3, f _ r.4),
    λ e. let r = h.1 e in (r.0, r.1, r.2, r.3, f _ r.4),
  )

  moves_loop-HasMove :
      (id field : Text) (old v : Value) (tags : List Tag) (w : World etcd) (moves : Assoc Text)
      → (moves_loop env t id field old v tags w).0 ≡ ok moves
      → (tag : Tag) → In tag tags
      → HasMove id field old v moves tag
  unfolding moves_loop
  moves_loop-HasMove id field old v [] w moves h tag i = elim i [ ]
  moves_loop-HasMove id field old v (g ∷ tags) w moves h tag i =
      let ends : Assoc Text → Assoc Text → M etcd (Assoc Text) = λ xs ys. pure (xs ++ ys) in
      let a =
        of_bind_ok (tag_moves env t id field old v g)
          (λ xs. bind (moves_loop env t id field old v tags) (ends xs)) w moves h in
      let w1 = (tag_moves env t id field old v g w).1 in
      let b = of_bind_ok (moves_loop env t id field old v tags) (ends a.0) w1 moves a.3 in
      let all : a.0 ++ b.0 ≡ moves = ok_injective b.3 in
      elim i [
        | In.here e ↦
            HasMove-map id field old v a.0 moves tag
              (λ p j. subst (In p) all (In-append_left b.0 j))
              (subst (HasMove id field old v a.0) (sym e)
                (tag_moves-HasMove id field old v g w a.0 a.1))
        | In.there j ↦
            HasMove-map id field old v b.0 moves tag
              (λ p k. subst (In p) all (In-append_right a.0 k))
              (moves_loop-HasMove id field old v tags w1 b.0 b.1 tag j)
      ]

  abbrev pub IsClear : List Tag → Type 0
  IsClear tags = has_tag (codes "encrypted" ∷ []) tags ≡ false

  changed_field-HasMove :
      (id : Text) (f : Field) (old v : Value) (w : World etcd) (moves : Assoc Text)
      → (changed_field env t id f old w).0 ≡ ok (v, moves)
      → IsClear f.tags
      → (f.value ≡ v) × ((tag : Tag) → In tag f.tags → HasMove id f.name old f.value moves tag)
  unfolding changed_field
  changed_field-HasMove id f old v w moves h clear =
      let result : Value × Assoc Text = (v, moves) in
      let ends : Value → Assoc Text → M etcd (Value × Assoc Text) = λ u ms. pure (u, ms) in
      let rest : Value → M etcd (Value × Assoc Text) =
        λ u. bind (moves_loop env t id f.name old u f.tags) (ends u) in
      let a = of_bind_ok (pure f.value) rest w result (
        subst
          (λ (b : Bool).
            (bind (if b then encrypt_value env t f.value else pure f.value) rest w).0 ≡ ok result)
          clear h) in
      let same : f.value ≡ a.0 = ok_injective a.1 in
      let b =
        of_bind_ok (moves_loop env t id f.name old f.value f.tags) (ends f.value) w result
          (subst (λ u. (rest u w).0 ≡ ok result) (sym same) a.3) in
      let all : b.0 ≡ moves = ap (λ (p : Value × Assoc Text). p.1) (ok_injective b.3) in
      (
        ap (λ (p : Value × Assoc Text). p.0) (ok_injective b.3),
        λ tag i. moves_loop-HasMove id f.name old f.value f.tags w moves (b.1 ∙ ap ok all) tag i,
      )

  -- A field of the argument changes the row where it is not the primary key, holds another value and
  -- is given or not required.
  abbrev pub Differs : Text → Field → Value → Type 0
  Differs pk_name f old =
      (str_eq f.name pk_name ≡ false)
      × (deep_equal f.value old ≡ false)
      × ((has_tag (codes "required" ∷ []) f.tags && is_zero f.value) ≡ false)

  one_field_other :
      (n id pk_name : Text) (f : Field) (o : Option Field) (stored s : Row) (w : World etcd)
      (moves : Assoc Text)
      → (one_field env t id pk_name f o stored w).0 ≡ ok (s, moves)
      → str_eq n f.name ≡ false
      → field_by_name n s ≡ field_by_name n stored
  unfolding one_field
  one_field_other n id pk_name f none stored s w moves h other = cc
  one_field_other n id pk_name f (some old) stored s w moves h other =
      elim (Bool-cases (is_kept env t pk_name f old.value)) [
        | inl e ↦
            ap (λ (p : Row × Assoc Text). field_by_name n p.0) (sym (ok_injective (rw e at h)))
        | inr e ↦
            let result : Row × Assoc Text = (s, moves) in
            let ends : Value × Assoc Text → M etcd (Row × Assoc Text) =
              λ r. pure (set_field f.name r.0 stored, r.1) in
            let a = of_bind_ok (changed_field env t id f old.value) ends w result (rw e at h) in
            ap (λ (p : Row × Assoc Text). field_by_name n p.0) (sym (ok_injective a.3))
            ∙ field_by_name-set_other n f.name a.0.0 stored other
      ]

  one_field_changed :
      (id pk_name : Text) (f old : Field) (stored s : Row) (w : World etcd) (moves : Assoc Text)
      → (one_field env t id pk_name f (some old) stored w).0 ≡ ok (s, moves)
      → Differs pk_name f old.value
      → IsClear f.tags
      → (set_field f.name f.value stored ≡ s)
        × ((tag : Tag) → In tag f.tags → HasMove id f.name old.value f.value moves tag)
  unfolding one_field is_kept
  one_field_changed id pk_name f old stored s w moves h differs clear =
      let result : Row × Assoc Text = (s, moves) in
      let ends : Value × Assoc Text → M etcd (Row × Assoc Text) =
        λ r. pure (set_field f.name r.0 stored, r.1) in
      let kept : is_kept env t pk_name f old.value ≡ false =
        rw (differs.0, differs.1, differs.2) refl in
      let a = of_bind_ok (changed_field env t id f old.value) ends w result (
        subst
          (λ (b : Bool).
            ((if b
                then pure {etcd = etcd} (stored, [])
                else bind (changed_field env t id f old.value) ends)
              w).0
            ≡ ok result)
          kept h) in
      let c = changed_field-HasMove id f old.value a.0.0 w a.0.1 a.1 clear in
      let all : a.0.1 ≡ moves = ap (λ (p : Row × Assoc Text). p.1) (ok_injective a.3) in
      (
        ap (λ u. set_field f.name u stored) c.0
            ∙ ap (λ (p : Row × Assoc Text). p.0) (ok_injective a.3),
        λ tag i. subst (λ ms. HasMove id f.name old.value f.value ms tag) all (c.1 tag i),
      )

  -- The first field of the loop, and the others.
  split :
      (id pk_name : Text) (f : Field) (fs : List Field) (stored row : Row) (w : World etcd)
      (moves : Assoc Text)
      → (fields_loop env t id pk_name (f ∷ fs) stored w).0 ≡ ok (row, moves)
      → (r : Row × Assoc Text) × (w' : World etcd) × (rest : Row × Assoc Text) × ((one_field env t
            id pk_name f
            (field_by_name f.name stored)
            stored
            w).0
          ≡ ok r)
        × ((rest.0 ≡ row)
            × (r.1 ++ rest.1 ≡ moves)
            × ((fields_loop env t id pk_name fs r.0 w').0 ≡ ok rest))
  unfolding fields_loop
  split id pk_name f fs stored row w moves h =
      let result : Row × Assoc Text = (row, moves) in
      let ends : Row × Assoc Text → Row × Assoc Text → M etcd (Row × Assoc Text) =
        λ r rest. pure (rest.0, r.1 ++ rest.1) in
      let first = one_field env t id pk_name f (field_by_name f.name stored) stored in
      let a =
        of_bind_ok first (λ r. bind (fields_loop env t id pk_name fs r.0) (ends r)) w result h in
      let b =
        of_bind_ok (fields_loop env t id pk_name fs a.0.0) (ends a.0) (first w).1 result a.3 in
      (
        a.0,
        (first w).1,
        b.0,
        a.1,
        (
          ap (λ (p : Row × Assoc Text). p.0) (ok_injective b.3),
          ap (λ (p : Row × Assoc Text). p.1) (ok_injective b.3),
          b.1,
        ),
      )

  fields_loop_other :
      (n id pk_name : Text) (fs : List Field) (stored row : Row) (w : World etcd)
      (moves : Assoc Text)
      → (fields_loop env t id pk_name fs stored w).0 ≡ ok (row, moves)
      → ((g : Field) → In g fs → str_eq n g.name ≡ false)
      → field_by_name n row ≡ field_by_name n stored
  unfolding fields_loop
  fields_loop_other n id pk_name [] stored row w moves h other =
      ap (λ (p : Row × Assoc Text). field_by_name n p.0) (sym (ok_injective h))
  fields_loop_other n id pk_name (f ∷ fs) stored row w moves h other =
      let r = split id pk_name f fs stored row w moves h in
      ap (λ x. field_by_name n x) (sym r.4.0)
      ∙ fields_loop_other n id pk_name fs r.0.0 r.2.0 r.1 r.2.1 r.4.2 (λ g i. other g (In.there i))
      ∙ one_field_other n id pk_name f (field_by_name f.name stored) stored r.0.0 w r.0.1 r.3
          (other f (In.here refl))

  -- What an update makes of a field that differs: the row holds the new value, and the index keys move.
  abbrev pub IsChanged : Text → Field → Field → Row → Assoc Text → Type 0
  IsChanged id f old row moves =
      (field_by_name f.name row ≡ some (record old { value = f.value }))
      × ((tag : Tag) → In tag f.tags → HasMove id f.name old.value f.value moves tag)

  pub fields_loop-IsChanged :
      (id pk_name : Text) (fs : List Field) (stored row : Row) (w : World etcd) (moves : Assoc Text)
      (f old : Field)
      → (fields_loop env t id pk_name fs stored w).0 ≡ ok (row, moves)
      → Distinct fs
      → In f fs
      → field_by_name f.name stored ≡ some old
      → Differs pk_name f old.value
      → IsClear f.tags
      → IsChanged id f old row moves
  fields_loop-IsChanged id pk_name [] stored row w moves f old h d i was differs clear = elim i [ ]
  fields_loop-IsChanged id pk_name (g ∷ fs) stored row w moves f old h d (In.here e) was differs
        clear =
      let r = split id pk_name g fs stored row w moves h in
      let one =
        one_field_changed id pk_name f old stored r.0.0 w r.0.1
          (subst (λ (o : Option Field). (one_field env t id pk_name f o stored w).0 ≡ ok r.0) was
            (subst
              (λ (x : Field).
                (one_field env t id pk_name x (field_by_name x.name stored) stored w).0 ≡ ok r.0)
              (sym e) r.3))
          differs clear in
      (
        ap (λ x. field_by_name f.name x) (sym r.4.0)
            ∙ fields_loop_other f.name id pk_name fs r.0.0 r.2.0 r.1 r.2.1 r.4.2
                (λ x j. ap (λ (y : Field). str_eq y.name x.name) e ∙ d.0 x j)
            ∙ ap (λ x. field_by_name f.name x) (sym one.0)
            ∙ field_by_name-set_field f.name f.value stored old was,
        λ tag j.
            HasMove-map id f.name old.value f.value r.0.1 moves tag
              (λ p k. subst (In p) r.4.1 (In-append_left r.2.1 k)) (one.1 tag j),
      )
  fields_loop-IsChanged id pk_name (g ∷ fs) stored row w moves f old h d (In.there j) was differs
        clear =
      let r = split id pk_name g fs stored row w moves h in
      let before =
        one_field_other f.name id pk_name g (field_by_name g.name stored) stored r.0.0 w r.0.1 r.3
          (str_eq-sym g.name f.name (d.0 f j)) in
      let c =
        fields_loop-IsChanged id pk_name fs r.0.0 r.2.0 r.1 r.2.1 f old r.4.2 d.1 j (before ∙ was)
          differs clear in
      (
        ap (λ x. field_by_name f.name x) (sym r.4.0) ∙ c.0,
        λ tag k.
            HasMove-map id f.name old.value f.value r.2.1 moves tag
              (λ p m. subst (In p) r.4.1 (In-append_right r.0.1 m)) (c.1 tag k),
      )

  -- Every field of the argument that differs from the stored row and is not encrypted has changed it.
  abbrev pub AreChanged : Text → Text → List Field → Row → Row → Assoc Text → Type 0
  AreChanged id pk_name fields stored row moves =
      (f old : Field)
      → In f fields
      → field_by_name f.name stored ≡ some old
      → Differs pk_name f old.value
      → IsClear f.tags
      → IsChanged id f old row moves
