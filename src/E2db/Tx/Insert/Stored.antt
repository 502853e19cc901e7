-- ===== src/E2db/Tx/Insert/Stored.antt =====
-- What an insertion that returns no error has stored (`Insert` of pkg/e2db/tx.go).
use e2d.E2db.Key.{row_id}
use e2d.E2db.Model.{Field, ModelItem}
use e2d.E2db.Table.{Env, Table}
use e2d.E2db.Tx.{insert_ops}
use e2d.E2db.Tx.Insert.{prepare, insert}
use e2d.E2db.Tx.Insert.Atomic.{write_row}
use e2d.E2db.Tx.Insert.Prepared.{IsPrepared, prepare-IsPrepared}
use e2d.Client
use e2d.Client.{Etcd, IsEtcd, Op, put, after_op, after_ops, M, World, pure, lift, bind}
use e2d.Client.Reads.{commit_done, of_bind}
use e2d.Prelude.{
  ℕ, ◌≡◌, refl, sym, ap, ◌∙◌, subst, inl, inr, Option, some, List, [], ◌∷◌, map, arith, Bool-cases,
  In, Text, str_eq, str_eq_refl, str_eq_iff, ok,
}

puts : Text → List Text → List Op
puts row keys = map (λ k. put k row) keys

pub put_again : (k i row : Text) → after_op (put i row) k (some row) ≡ some row
put_again k i row = ground arith

pub put_same : (k i row : Text) (old : Option Text) → k ≡ i → after_op (put i row) k old ≡ some row
put_same k i row old e = rw (e, str_eq_refl i) refl

pub put_other :
    (k i row : Text) (old : Option Text) → (¬ (k ≡ i)) → after_op (put i row) k old ≡ old
put_other k i row old h = elim (Bool-cases (str_eq i k)) [
  | inl e ↦ absurd (h (sym ((str_eq_iff i k).0 e)))
  | inr e ↦ rw e refl
]

after_puts-some :
    (row k : Text) (keys : List Text) → after_ops (puts row keys) k (some row) ≡ some row
unfolding puts
after_puts-some row k [] = refl
after_puts-some row k (i ∷ is) =
    subst (λ (o : Option Text). after_ops (puts row is) k o ≡ some row) (sym (put_again k i row))
      (after_puts-some row k is)

after_puts-In :
    (row k : Text) (keys : List Text) (old : Option Text)
    → In k keys
    → after_ops (puts row keys) k old ≡ some row
unfolding puts
after_puts-In row k [] old h = elim h [ ]
after_puts-In row k (i ∷ is) old (In.here e) =
    subst (λ (o : Option Text). after_ops (puts row is) k o ≡ some row)
      (sym (put_same k i row old e)) (after_puts-some row k is)
after_puts-In row k (i ∷ is) old (In.there h) =
    after_puts-In row k is (after_op (put i row) k old) h

after_puts-old :
    (row k : Text) (keys : List Text) (old : Option Text)
    → (¬ In k keys)
    → after_ops (puts row keys) k old ≡ old
unfolding puts
after_puts-old row k [] old h = refl
after_puts-old row k (i ∷ is) old h =
    after_puts-old row k is (after_op (put i row) k old) (λ j. h (In.there j))
    ∙ put_other k i row old (λ e. h (In.here e))

module _ (env : Env) (laws : IsEtcd env.etcd) (t : Table) where
  open env use {etcd}

  -- What a committed insertion has stored: the row and its index keys.
  abbrev HasRow : Text → List Text → Text → etcd.Kv → Type 0
  HasRow id keys text kv =
      ((k : Text) → In k keys → etcd.get kv k ≡ some (row_id t.name id))
      × ((¬ In (row_id t.name id) keys) → etcd.get kv (row_id t.name id) ≡ some text)

  committed-HasRow :
      (id : Text) (keys : List Text) (text : Text) (n : ℕ) (kv kv' : etcd.Kv)
      → etcd.txn kv (insert_ops (row_id t.name id) text keys) ≡ some (kv', n)
      → HasRow id keys text kv'
  unfolding insert_ops puts
  committed-HasRow id keys text n kv kv' h =
      let row = row_id t.name id in
      let result = λ (k : Text). laws.get-txn kv kv' (insert_ops row text keys) n k h in
      (
        λ k i. result k ∙ after_puts-In row k keys (after_op (put row text) k (etcd.get kv k)) i,
        λ other.
            result row
            ∙ after_puts-old row row keys (after_op (put row text) row (etcd.get kv row)) other
            ∙ put_same row row text (etcd.get kv row) refl,
      )

  write_row_lem :
      (id : Text) (fs : List Field) (keys : List Text) (w : World etcd) (fields : List Field)
      → (write_row env t (id, fs, keys) w).0 ≡ ok fields
      → (fs ≡ fields)
        × ((text : Text) × (env.encode fs ≡ ok text)
            × HasRow id keys text (write_row env t (id, fs, keys) w).1.kv)
  write_row_lem id fs keys w fields h =
      let to_ops = λ (text : Text). insert_ops (row_id t.name id) text keys in
      let b =
        of_bind (lift (env.encode fs))
          (λ text. bind (Client.commit etcd (to_ops text)) (λ n. pure fs)) w fields h in
      let c =
        of_bind (Client.commit etcd (to_ops b.0)) (λ n. pure fs) w fields
          (sym (ap (λ r. r.0) b.2) ∙ h) in
      let total = b.2 ∙ c.2 in
      let same : ok fs ≡ ok fields = sym (ap (λ r. r.0) total) ∙ h in
      (
        cc,
        (
          b.0,
          b.1,
          subst (λ v. HasRow id keys b.0 v.1.kv) (sym total)
              (committed-HasRow id keys b.0 c.0 w.kv (Client.commit etcd (to_ops b.0) w).1.kv
                (commit_done etcd (to_ops b.0) w c.0 c.1)),
        ),
      )

  -- An insertion that returns no error has stored the fields that it leaves in the struct, encoded,
  -- under the key of the row, and the key of the row under its index keys, if the key of the row is not
  -- itself one of them. The id of the row is the text of its primary key as it is left in the struct, if
  -- that is not encrypted, and each tag index or unique of a field that is not encrypted has its key,
  -- for the value of the field, among the index keys.
  pub insert_stores :
      (m : ModelItem) (w : World etcd) (fields : List Field)
      → (insert env t m w).0 ≡ ok fields
      → (id : Text) × (keys : List Text) × (text : Text) × ((prepare env t m w).0
          ≡ ok (id, fields, keys))
        × IsPrepared env t id keys fields
        × (env.encode fields ≡ ok text)
        × ((k : Text) → In k keys → etcd.get (insert env t m w).1.kv k ≡ some (row_id t.name id))
        × ((¬ In (row_id t.name id) keys)
            → etcd.get (insert env t m w).1.kv (row_id t.name id) ≡ some text)
  unfolding insert
  insert_stores m w fields h =
      let a = of_bind (prepare env t m) (write_row env t) w fields h in
      let b =
        write_row_lem a.0.0 a.0.1 a.0.2 (prepare env t m w).1 fields
          (sym (ap (λ r. r.0) a.2) ∙ h) in
      let p = a.0 in
      let stored : HasRow p.0 p.2 b.1.0 (insert env t m w).1.kv =
        subst (λ v. HasRow p.0 p.2 b.1.0 v.1.kv) (sym a.2) b.1.2 in
      (
        p.0,
        p.2,
        b.1.0,
        a.1 ∙ ap (λ x. ok (p.0, x, p.2)) b.0,
        prepare-IsPrepared env t m w p.0 fields p.2 (a.1 ∙ ap (λ x. ok (p.0, x, p.2)) b.0),
        ap env.encode (sym b.0) ∙ b.1.1,
        stored.0,
        stored.1,
      )
