-- ===== src/E2db/Tx/Insert/Atomic.antt =====
-- What an insertion makes of the store (`Insert` of pkg/e2db/tx.go).
use e2d.E2db.Key.{row_id}
use e2d.E2db.Model.{Tag, FieldDef, Field, ModelItem, has_tag, get_primary_key, set_field}
use e2d.E2db.Values.{Value, to_string, is_zero}
use e2d.E2db.Table.{Env, Table, validate_model}
use e2d.E2db.Crypto.{encrypt}
use e2d.E2db.Tx.{encrypt_value, encrypt_with, sealed_with, set_encrypted, insert_ops}
use e2d.E2db.Tx.Insert.{new_key, tag_keys, tags_loop, fields_loop, prepare, insert, non_empty}
use e2d.Client
use e2d.Client.{Etcd, M, World, pure, lift, bind, continue, ◌>>=◌}
use e2d.Client.Reads.{
  Reads, pure-Reads, lift-Reads, bind-Reads, if-Reads, continue-Reads, exists-Reads, commit-Outcome,
}
use e2d.Prelude.{
  ℕ, ◌+◌, ◌≡◌, refl, sym, subst, ◌⊎◌, inl, inr, false, ◌&&◌, Option, none, some, List, [], ◌∷◌,
  Text, codes, Result, ok, err, panic,
}

module _ (env : Env) (t : Table) where
  open env use {etcd}

  encrypt_with-Reads : (v : Value) (key : Option Text) → Reads (encrypt_with env t v key)
  unfolding encrypt_with sealed_with
  encrypt_with-Reads v none = lift-Reads _
  encrypt_with-Reads v (some key) = bind-Reads _ _ (lift-Reads (to_string v)) (λ text. record {
    kept = λ w.
        (continue-Reads (encrypt env.gcm w.draws text key)
            (λ enc w'. (set_encrypted env t v enc, w')) (λ enc. record { kept = λ w'. refl })).kept
          (record w { draws = w.draws + 1 });
  })

  encrypt_value-Reads : (v : Value) → Reads (encrypt_value env t v)
  unfolding encrypt_value
  encrypt_value-Reads v = encrypt_with-Reads v t.secret_key

  tag_keys-Reads : (id field : Text) (v : Value) (tag : Tag) → Reads (tag_keys env t id field v tag)
  unfolding tag_keys
  tag_keys-Reads id field v tag =
      search (if-Reads, bind-Reads, lift-Reads, pure-Reads, exists-Reads etcd) depth 12

  tags_loop-Reads :
      (id : Text) (f : FieldDef) (tags : List Tag) (v : Value) → Reads (tags_loop env t id f tags v)
  unfolding tags_loop
  tags_loop-Reads id f [] v = pure-Reads _
  tags_loop-Reads id f (tag ∷ tags) v = bind-Reads _ _ (tag_keys-Reads id f.name v tag) (λ keys.
      bind-Reads _ _ (if-Reads _ _ _ (encrypt_value-Reads v) (pure-Reads _))
        (λ v'. bind-Reads _ _ (tags_loop-Reads id f tags v') (λ rest. pure-Reads _)))

  fields_loop-Reads : (id : Text) (fs : List Field) → Reads (fields_loop env t id fs)
  unfolding fields_loop
  fields_loop-Reads id [] = pure-Reads _
  fields_loop-Reads id (f ∷ fs) =
      bind-Reads _ _ (tags_loop-Reads id f.def f.tags f.value)
        (λ r. bind-Reads _ _ (fields_loop-Reads id fs) (λ rest. pure-Reads _))

  -- The primary key is given, or is not one that a counter gives.
  abbrev pub IsKeyed : ModelItem → Type 0
  IsKeyed m =
      (pk : Field)
      → get_primary_key m.fields ≡ ok pk
      → (is_zero pk.value && has_tag (codes "increment" ∷ []) pk.tags) ≡ false

  new_key-Reads :
      (pk : Field)
      → (is_zero pk.value && has_tag (codes "increment" ∷ []) pk.tags) ≡ false
      → Reads (new_key env t pk)
  unfolding new_key
  new_key-Reads pk h = rw h (pure-Reads _)

  keyed-Reads :
      {A : Type 0} (r : Result Field) (f : Field → M etcd A)
      → ((pk : Field) → r ≡ ok pk → Reads (f pk))
      → Reads (bind (lift r) f)
  keyed-Reads (ok pk) f h = record { kept = (h pk refl).kept }
  keyed-Reads (err e) f h = record { kept = λ w. refl }
  keyed-Reads panic f h = record { kept = λ w. refl }

  prepare-Reads : (m : ModelItem) → IsKeyed m → Reads (prepare env t m)
  unfolding prepare
  prepare-Reads m keyed = bind-Reads _ _ (lift-Reads (validate_model t m.name)) (λ same.
      keyed-Reads (get_primary_key m.fields) _ (λ pk h.
        bind-Reads _ _ (new_key-Reads pk (keyed pk h)) (λ value.
          bind-Reads _ _ (lift-Reads (to_string value)) (λ text.
            bind-Reads _ _ (lift-Reads (non_empty text)) (λ id.
              bind-Reads _ _ (fields_loop-Reads id (set_field pk.name value m.fields))
                (λ r. pure-Reads _))))))

  -- The store is as it was, or one transaction has written a row and index keys that name it.
  abbrev pub IsInserted : World etcd → World etcd → Type 0
  IsInserted w w' =
      (w'.kv ≡ w.kv)
      ⊎ ((id : Text) × (text : Text) × (keys : List Text) × (n : ℕ) × (etcd.txn w.kv
              (insert_ops (row_id t.name id) text keys)
            ≡ some (w'.kv, n)))

  -- The end of an insertion.
  abbrev pub write_row : Text × List Field × List Text → M etcd (List Field)
  write_row p =
      bind (lift (env.encode p.1)) (λ text.
        bind (Client.commit etcd (insert_ops (row_id t.name p.0) text p.2)) (λ n. pure p.1))

  same_world :
      {A : Type 0} (a : A) (r : Result ℕ) (w : World etcd) → (continue r (λ n. pure a) w).1 ≡ w
  same_world a (ok n) w = refl
  same_world a (err e) w = refl
  same_world a panic w = refl

  write_row_outcome :
      (p : Text × List Field × List Text) (w : World etcd) → IsInserted w (write_row p w).1
  write_row_outcome p w = of_text (env.encode p.1)
    where
      ops : Text → List Client.Op
      ops text = insert_ops (row_id t.name p.0) text p.2

      of_text :
          (r : Result Text)
          → IsInserted w
              (bind (lift r) (λ text. bind (Client.commit etcd (ops text)) (λ n. pure p.1)) w).1
      of_text (ok text) =
          subst (λ v. IsInserted w v)
            (sym (
              same_world p.1 (Client.commit etcd (ops text) w).0
                (Client.commit etcd (ops text) w).1))
            (elim (commit-Outcome etcd (ops text) w) [
              | inl h ↦ inl h
              | inr h ↦ inr (p.0, text, p.2, h.0, h.1)
            ])
      of_text (err e) = inl refl
      of_text panic = inl refl

  -- The insertion of a row whose primary key no counter gives is done as a whole or not at all,
  -- whichever requests fail or lose their answers, and whatever it returns: the store is as it was,
  -- or one transaction has written a row and index keys that name it.
  pub insert_lem : (m : ModelItem) (w : World etcd) → IsKeyed m → IsInserted w (insert env t m w).1
  unfolding insert
  insert_lem m w keyed =
      subst (λ kv. IsInserted (record w { kv = kv }) (insert env t m w).1)
        ((prepare-Reads m keyed).kept w) (of_prepared (prepare env t m w).0 (prepare env t m w).1)
    where
      of_prepared :
          (r : Result (Text × List Field × List Text)) (v : World etcd)
          → IsInserted v (continue r write_row v).1
      of_prepared (ok p) v = write_row_outcome p v
      of_prepared (err e) v = inl refl
      of_prepared panic v = inl refl
