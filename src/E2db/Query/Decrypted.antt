-- ===== src/E2db/Query/Decrypted.antt =====
-- Encrypted fields in the results of a query by an index (`findManyByIndex` of pkg/e2db/query.go).
use e2d.E2db.Crypto.{Gcm, is_encrypted, decrypt-not_encrypted}
use e2d.E2db.Values.{Value, to_string}
use e2d.E2db.Model.{Tag, Field, has_tag}
use e2d.E2db.Rows.{handle_item_tags, decrypt_tags, decrypt_value}
use e2d.E2db.Table.{Env, Table}
use e2d.E2db.Query.{Query, Row, collect_by_index, find_one_by_primary_key}
use e2d.Client.{World, lift}
use e2d.Client.Reads.{of_bind}
use e2d.Prelude.{
  ℕ, ◌≡◌, refl, sym, ap, ◌∙◌, subst, ◌≢◌, inl, inr, true, false, false≢true, Option, List, [], ◌∷◌,
  arith, Bool-cases, In, Text, codes, str_eq, Error, Result, ok, err, panic, ◌>>=◌,
}

-- A field is called encrypted, but holds a text that is no ciphertext.
pub record IsClear (f : Field) : Type 0 where
  pub tagged : has_tag (codes "encrypted" ∷ []) f.tags ≡ true
  pub text : Text
  pub shown : to_string f.value ≡ ok text
  pub clear : is_encrypted text ≡ false

not_ok : {A : Type 0} {e : Error} {a : A} → ¬ (Result.err e ≡ ok a)
not_ok h = cc

the_row : (row row' : Row) → Result.ok row ≡ ok row' → row ≡ row'
the_row row row' h = cc

of_then :
    {A B : Type 0} (r : Result A) (f : A → Result B) (b : B)
    → (r >>= f) ≡ ok b
    → (a : A) × (r ≡ ok a) × (f a ≡ ok b)
of_then (ok a) f b h = (a, refl, h)
of_then (err e) f b h = cc
of_then panic f b h = cc

module _ (gcm : Gcm) (key : Option Text) where
  decrypt_tags-IsClear :
      (tags : List Tag) (v w : Value) (text : Text)
      → has_tag (codes "encrypted" ∷ []) tags ≡ true
      → to_string v ≡ ok text
      → is_encrypted text ≡ false
      → decrypt_tags gcm key tags v ≢ ok w
  unfolding decrypt_tags decrypt_value has_tag
  decrypt_tags-IsClear [] v w text h s c e = absurd (false≢true h)
  decrypt_tags-IsClear (t ∷ ts) v w text h s c e =
      elim (Bool-cases (str_eq t.name (codes "encrypted"))) [
        | inl y ↦ absurd (not_ok (rw (y, s, decrypt-not_encrypted gcm text key c) at e))
        | inr y ↦ decrypt_tags-IsClear ts v w text (ground arith) s c (rw y at e)
      ]

  -- A row with such a field cannot be decrypted.
  handle_item_tags-IsClear :
      (fs gs : List Field) (f : Field) → In f fs → IsClear f → handle_item_tags gcm key fs ≢ ok gs
  unfolding handle_item_tags
  handle_item_tags-IsClear [] gs f i c e = elim i [ ]
  handle_item_tags-IsClear (g ∷ fs) gs f (In.here same) c e =
      let (v, decrypted, rest) = of_then (decrypt_tags gcm key g.tags g.value) _ gs e in
      decrypt_tags-IsClear f.tags f.value v c.text c.tagged c.shown c.clear
        (subst (λ (x : Field). decrypt_tags gcm key x.tags x.value ≡ ok v) (sym same) decrypted)
  handle_item_tags-IsClear (g ∷ fs) gs f (In.there j) c e =
      let (v, decrypted, rest) = of_then (decrypt_tags gcm key g.tags g.value) _ gs e in
      let (hs, others, done) = of_then (handle_item_tags gcm key fs) _ gs rest in
      handle_item_tags-IsClear fs hs f j c others

module _ (env : Env) (t : Table) where
  open env use {etcd}

  -- A query by an index without a limit, that reads a row with an encrypted field whose text, now
  -- that it is decrypted, is no ciphertext itself, does not return rows.
  pub collect_by_index-IsClear :
      (q : Query) (i : ℕ) (kv : Text × Text) (kvs : List (Text × Text)) (w : World etcd)
      → (row : Row) (f : Field) → q.limit ≡ 0
      → (find_one_by_primary_key env t kv.1 w).0 ≡ ok row
      → In f row
      → IsClear f
      → (rows : List Row) → (collect_by_index env t q i (kv ∷ kvs) w).0 ≢ ok rows
  unfolding collect_by_index
  collect_by_index-IsClear q i kv kvs w row f no_limit found member c rows h =
      let (row', found', more) =
        of_bind (find_one_by_primary_key env t kv.1) _ w rows (rw no_limit at h) in
      let (el, decrypted, rest) =
        of_bind (lift (handle_item_tags env.gcm t.secret_key row')) _ _ rows
          (sym (ap (λ r. r.0) more) ∙ (rw no_limit at h)) in
      handle_item_tags-IsClear env.gcm t.secret_key row el f member c (
        subst (λ (x : Row). handle_item_tags env.gcm t.secret_key x ≡ ok el)
          (the_row row' row (sym found' ∙ found)) decrypted)
