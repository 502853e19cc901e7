-- ===== src/E2db/Tx/Update/Stored.antt =====
-- What an update that returns no error has stored (`Update` of pkg/e2db/tx.go).
use e2d.E2db.Key.{row_id}
use e2d.E2db.Model.{ModelItem, Field, get_primary_key}
use e2d.E2db.Values.{to_string}
use e2d.E2db.Table.{Env, Table, validate_model}
use e2d.E2db.Query.{Row, find_one_by_primary_key}
use e2d.E2db.Tx.Insert.{insert}
use e2d.E2db.Tx.Insert.Stored.{put_same, put_other, put_again}
use e2d.E2db.Tx.Update.{
  update_ops, moved, fields_loop, write_changes, stored_or_insert, non_empty, update,
}
use e2d.E2db.Tx.Update.Changed.{Distinct, AreChanged, fields_loop-IsChanged}
use e2d.Client
use e2d.Client.{Etcd, IsEtcd, Op, put, after_op, after_ops, M, World, pure, lift, bind}
use e2d.Client.Reads.{commit_done, of_bind_ok}
use e2d.Prelude.{
  ℕ, ◌≡◌, refl, sym, ap, ◌∙◌, subst, ◌⊎◌, inl, inr, Option, some, none, List, [], ◌∷◌, map,
  Bool-cases, In, Text, str_eq, str_eq_refl, str_eq_iff, ok, err, no_rows, Result, panic, Assoc,
  arith, ok_injective,
}

-- The index keys before and after the changes.
abbrev pub old_keys : Assoc Text → List Text
old_keys moves = map (λ (p : Text × Text). p.0) moves

abbrev pub new_keys : Assoc Text → List Text
new_keys moves = map (λ (p : Text × Text). p.1) moves

delete_other : (k i : Text) (old : Option Text) → (¬ (k ≡ i)) → after_op (Op.delete i) k old ≡ old
delete_other k i old h = elim (Bool-cases (str_eq i k)) [
  | inl e ↦ absurd (h (sym ((str_eq_iff i k).0 e)))
  | inr e ↦ rw e refl
]

delete_again : (k i : Text) → after_op (Op.delete i) k none ≡ none
delete_again k i = ground arith

delete_same : (k i : Text) (old : Option Text) → k ≡ i → after_op (Op.delete i) k old ≡ none
delete_same k i old e = rw (e, str_eq_refl i) refl

after_moved-old :
    (row k : Text) (moves : Assoc Text) (v : Option Text)
    → (¬ In k (old_keys moves))
    → (¬ In k (new_keys moves))
    → after_ops (moved row moves) k v ≡ v
unfolding moved
after_moved-old row k [] v h h' = refl
after_moved-old row k ((a, b) ∷ rest) v h h' =
    after_moved-old row k rest (after_op (put b row) k (after_op (Op.delete a) k v))
      (λ j. h (In.there j)) (λ j. h' (In.there j))
    ∙ put_other k b row (after_op (Op.delete a) k v) (λ e. h' (In.here e))
    ∙ delete_other k a v (λ e. h (In.here e))

after_moved-some :
    (row k : Text) (moves : Assoc Text)
    → (¬ In k (old_keys moves))
    → after_ops (moved row moves) k (some row) ≡ some row
unfolding moved
after_moved-some row k [] h = refl
after_moved-some row k ((a, b) ∷ rest) h =
    subst (λ (o : Option Text). after_ops (moved row rest) k o ≡ some row)
      (sym (
        ap (after_op (put b row) k) (delete_other k a (some row) (λ e. h (In.here e)))
        ∙ put_again k b row))
      (after_moved-some row k rest (λ j. h (In.there j)))

after_moved-none :
    (row k : Text) (moves : Assoc Text)
    → (¬ In k (new_keys moves))
    → after_ops (moved row moves) k none ≡ none
unfolding moved
after_moved-none row k [] h = refl
after_moved-none row k ((a, b) ∷ rest) h =
    subst (λ (o : Option Text). after_ops (moved row rest) k o ≡ none)
      (sym
        (put_other k b row (after_op (Op.delete a) k none) (λ e. h (In.here e)) ∙ delete_again k a))
      (after_moved-none row k rest (λ j. h (In.there j)))

after_moved-new :
    (row k : Text) (moves : Assoc Text) (v : Option Text)
    → In k (new_keys moves)
    → (¬ In k (old_keys moves))
    → after_ops (moved row moves) k v ≡ some row
unfolding moved
after_moved-new row k [] v h other = elim h [ ]
after_moved-new row k ((a, b) ∷ rest) v (In.here e) other =
    subst (λ (o : Option Text). after_ops (moved row rest) k o ≡ some row)
      (sym (put_same k b row (after_op (Op.delete a) k v) e))
      (after_moved-some row k rest (λ j. other (In.there j)))
after_moved-new row k ((a, b) ∷ rest) v (In.there h) other =
    after_moved-new row k rest (after_op (put b row) k (after_op (Op.delete a) k v)) h
      (λ j. other (In.there j))

after_moved-gone :
    (row k : Text) (moves : Assoc Text) (v : Option Text)
    → In k (old_keys moves)
    → (¬ In k (new_keys moves))
    → after_ops (moved row moves) k v ≡ none
unfolding moved
after_moved-gone row k [] v h other = elim h [ ]
after_moved-gone row k ((a, b) ∷ rest) v (In.here e) other =
    subst (λ (o : Option Text). after_ops (moved row rest) k o ≡ none)
      (sym (
        put_other k b row (after_op (Op.delete a) k v) (λ e. other (In.here e))
        ∙ delete_same k a v e))
      (after_moved-none row k rest (λ j. other (In.there j)))
after_moved-gone row k ((a, b) ∷ rest) v (In.there h) other =
    after_moved-gone row k rest (after_op (put b row) k (after_op (Op.delete a) k v)) h
      (λ j. other (In.there j))

module _ (env : Env) (laws : IsEtcd env.etcd) (t : Table) where
  open env use {etcd}

  -- What a committed update has stored: the row and its index keys, those from before being gone.
  abbrev HasMoved : Text → Assoc Text → Text → etcd.Kv → Type 0
  HasMoved id moves text kv =
      ((k : Text)
        → In k (new_keys moves)
        → (¬ In k (old_keys moves))
        → etcd.get kv k ≡ some (row_id t.name id))
      × ((k : Text) → In k (old_keys moves) → (¬ In k (new_keys moves)) → etcd.get kv k ≡ none)
      × ((¬ In (row_id t.name id) (old_keys moves))
          → (¬ In (row_id t.name id) (new_keys moves))
          → etcd.get kv (row_id t.name id) ≡ some text)

  committed-HasMoved :
      (id : Text) (moves : Assoc Text) (text : Text) (n : ℕ) (kv kv' : etcd.Kv)
      → etcd.txn kv (update_ops (row_id t.name id) text moves) ≡ some (kv', n)
      → HasMoved id moves text kv'
  unfolding update_ops
  committed-HasMoved id moves text n kv kv' h =
      let row = row_id t.name id in
      let before = λ (k : Text). after_op (put row text) k (etcd.get kv k) in
      let result = λ (k : Text). laws.get-txn kv kv' (update_ops row text moves) n k h in
      (
        λ k i other. result k ∙ after_moved-new row k moves (before k) i other,
        λ k i other. result k ∙ after_moved-gone row k moves (before k) i other,
        λ other other'.
            result row
            ∙ after_moved-old row row moves (before row) other other'
            ∙ put_same row row text (etcd.get kv row) refl,
      )

  -- What an update has stored, from the row that it read.
  abbrev IsStored : Text → Text → List Field → Row → Row → World etcd → World etcd → Type 0
  IsStored id pk_name fields stored row w w' =
      (moves : Assoc Text) × (text : Text) × ((fields_loop env t id pk_name fields stored w).0
        ≡ ok (row, moves))
      × AreChanged env t id pk_name fields stored row moves
      × (env.encode row ≡ ok text)
      × HasMoved id moves text w'.kv

  write_changes_lem :
      (id pk_name : Text) (fields : List Field) (stored : Row) (w : World etcd) (row : Row)
      → Distinct fields
      → (write_changes env t id pk_name fields stored w).0 ≡ ok row
      → IsStored id pk_name fields stored row w (write_changes env t id pk_name fields stored w).1
  unfolding write_changes
  write_changes_lem id pk_name fields stored w row distinct h =
      let loop = fields_loop env t id pk_name fields stored in
      let to_ops = λ (moves : Assoc Text) (text : Text). update_ops (row_id t.name id) text moves in
      let written = λ (r : Row × Assoc Text) (text : Text).
        bind (Client.commit etcd (to_ops r.1 text)) (λ n. pure r.0) in
      let a = of_bind_ok loop (λ r. bind (lift (env.encode r.0)) (written r)) w row h in
      let b = of_bind_ok (lift (env.encode a.0.0)) (written a.0) (loop w).1 row a.3 in
      let c =
        of_bind_ok (Client.commit etcd (to_ops a.0.1 b.0)) (λ n. pure a.0.0) (loop w).1 row b.3 in
      let total = a.2 ∙ b.2 ∙ c.2 in
      let fields_same : a.0.0 ≡ row = ok_injective c.3 in
      (
        a.0.1,
        b.0,
        a.1 ∙ ap (λ x. ok (x, a.0.1)) fields_same,
        λ f old i was differs clear.
            fields_loop-IsChanged env t id pk_name fields stored row w a.0.1 f old
              (a.1 ∙ ap (λ x. ok (x, a.0.1)) fields_same) distinct i was differs clear,
        ap env.encode (sym fields_same) ∙ b.1,
        subst (λ v. HasMoved id a.0.1 b.0 v.1.kv) (sym total)
            (committed-HasMoved id a.0.1 b.0 c.0 (loop w).1.kv
              (Client.commit etcd (to_ops a.0.1 b.0) (loop w).1).1.kv
              (commit_done etcd (to_ops a.0.1 b.0) (loop w).1 c.0 c.1)),
      )

  -- Either the row was there and the changes are stored, or there was none and it is inserted.
  stored_or_insert_lem :
      (m : ModelItem) (id pk_name : Text) (r : Result Row) (w : World etcd) (row : Row)
      → Distinct m.fields
      → (stored_or_insert env t m id pk_name r w).0 ≡ ok row
      → ((stored : Row) × (r ≡ ok stored)
          × IsStored id pk_name m.fields stored row w (stored_or_insert env t m id pk_name r w).1)
        ⊎ ((r ≡ err no_rows) × (stored_or_insert env t m id pk_name r w ≡ insert env t m w))
  unfolding stored_or_insert
  stored_or_insert_lem m id pk_name (ok stored) w row distinct h =
      inl (stored, refl, write_changes_lem id pk_name m.fields stored w row distinct h)
  stored_or_insert_lem m id pk_name (err no_rows) w row distinct h = inr (refl, refl)
  stored_or_insert_lem m id pk_name (err e) w row distinct h = cc
  stored_or_insert_lem m id pk_name panic w row distinct h = cc

  non_empty_lem : (key id : Text) → non_empty env t key ≡ ok id → ok key ≡ ok id
  unfolding non_empty
  non_empty_lem [] id h = cc
  non_empty_lem (c ∷ s) id h = h

  -- The row with a primary key was there and the changes are stored, or there was none and the
  -- struct is inserted.
  abbrev pub IsUpdated :
      ModelItem → World etcd → Row → Text → Text → Result Row × World etcd → Type 0
  IsUpdated m w row pk_name id v =
      let found = find_one_by_primary_key env t (row_id t.name id) w in
      ((stored : Row) × (found.0 ≡ ok stored) × IsStored id pk_name m.fields stored row found.1 v.1)
      ⊎ ((found.0 ≡ err no_rows) × (v ≡ insert env t m found.1))

  -- An update, of a struct whose fields have different names, that returns no error has read the row
  -- with the primary key of the struct. If there was one, the new row is stored, encoded, under its key.
  -- Each field of the struct that is not the primary key, holds another value than the row did, is given
  -- or not required and is not encrypted has its value in the new row, and each of its tags index and
  -- unique moves the key of its old value to that of the new one. The key of the row is stored under each
  -- new index key and the old ones are gone, where no key is both new and old or the key of the row. If
  -- there was no row, the struct is inserted.
  pub update_stores :
      (m : ModelItem) (w : World etcd) (row : Row)
      → Distinct m.fields
      → (update env t m w).0 ≡ ok row
      → (pk : Field) × (id : Text) × (get_primary_key m.fields ≡ ok pk)
        × (to_string pk.value ≡ ok id)
        × IsUpdated m w row pk.name id (update env t m w)
  unfolding update
  update_stores m w row distinct h =
      let looked = λ (pk : Field) (id : Text) (w : World etcd).
        let found = find_one_by_primary_key env t (row_id t.name id) w in
        stored_or_insert env t m id pk.name found.0 found.1 in
      let with_key = λ (pk : Field) (key : Text). bind (lift (non_empty env t key)) (looked pk) in
      let with_pk = λ (pk : Field). bind (lift (to_string pk.value)) (with_key pk) in
      let a =
        of_bind_ok (lift (validate_model t m.name))
          (λ same. bind (lift (get_primary_key m.fields)) with_pk) w row h in
      let b = of_bind_ok (lift (get_primary_key m.fields)) with_pk w row a.3 in
      let c = of_bind_ok (lift (to_string b.0.value)) (with_key b.0) w row b.3 in
      let d = of_bind_ok (lift (non_empty env t c.0)) (looked b.0) w row c.3 in
      let found = find_one_by_primary_key env t (row_id t.name d.0) w in
      (
        b.0,
        d.0,
        b.1,
        c.1 ∙ non_empty_lem c.0 d.0 d.1,
        subst (IsUpdated m w row b.0.name d.0) (sym (a.2 ∙ b.2 ∙ c.2 ∙ d.2))
            (stored_or_insert_lem m d.0 b.0.name found.0 found.1 row distinct d.3),
      )
