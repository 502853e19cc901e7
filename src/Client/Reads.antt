-- ===== src/Client/Reads.antt =====
-- Which requests leave the store as it is, and what a writing one makes of it.
use e2d.Client.{
  Etcd, Op, Fate, answered, refused, lost, World, M, pure, lift, continue, bind, next_fate,
  first_fate, write_result, found, listed, prefix, read, commit, get, exists, count,
}
use e2d.Prelude.{
  ℕ, ◌≡◌, refl, sym, ap, ◌∙◌, subst, ◌⊎◌, inl, inr, Bool, true, false, Option, none, some, List, [],
  ◌∷◌, ltb, if◌then◌else◌, Text, Result, ok, err, panic,
}

-- The store is left as it is, whatever happens to the requests.
pub record Reads {etcd : Etcd} {A : Type 0} (m : M etcd A) : Type 0 where
  pub kept : (w : World etcd) → (m w).1.kv ≡ w.kv

module _ {etcd : Etcd} {A : Type 0} where
  pub pure-Reads : (a : A) → Reads (pure {etcd = etcd} a)
  pure-Reads a = record { kept = λ w. refl }

  pub lift-Reads : (r : Result A) → Reads (lift {etcd = etcd} r)
  lift-Reads r = record { kept = λ w. refl }

  pub if-Reads : (b : Bool) (m n : M etcd A) → Reads m → Reads n → Reads (if b then m else n)
  if-Reads true m n h k = h
  if-Reads false m n h k = k

module _ {etcd : Etcd} {A B : Type 0} where
  pub continue-Reads :
      (r : Result A) (f : A → M etcd B) → ((a : A) → Reads (f a)) → Reads (continue r f)
  continue-Reads (ok a) f h = h a
  continue-Reads (err e) f h = record { kept = λ w. refl }
  continue-Reads panic f h = record { kept = λ w. refl }

  pub bind-Reads :
      (m : M etcd A) (f : A → M etcd B) → Reads m → ((a : A) → Reads (f a)) → Reads (bind m f)
  bind-Reads m f h k = record { kept = λ w. (continue-Reads (m w).0 f k).kept (m w).1 ∙ h.kept w }

  -- A chain that succeeds succeeds at its first part.
  pub of_bind :
      (m : M etcd A) (f : A → M etcd B) (w : World etcd) (b : B)
      → (bind m f w).0 ≡ ok b
      → (a : A) × ((m w).0 ≡ ok a) × (bind m f w ≡ f a (m w).1)
  of_bind m f w b h = cases (m w).0 (m w).1 h
    where
      cases :
          (r : Result A) (w' : World etcd)
          → (continue r f w').0 ≡ ok b
          → (a : A) × (r ≡ ok a) × (continue r f w' ≡ f a w')
      cases (ok a) w' e = (a, refl, refl)
      cases (err x) w' e = cc
      cases panic w' e = cc

  -- The same, with the result of its second part.
  pub of_bind_ok :
      (m : M etcd A) (f : A → M etcd B) (w : World etcd) (b : B)
      → (bind m f w).0 ≡ ok b
      → (a : A) × ((m w).0 ≡ ok a) × (bind m f w ≡ f a (m w).1) × ((f a (m w).1).0 ≡ ok b)
  of_bind_ok m f w b h = let r = of_bind m f w b h in (r.0, r.1, r.2, sym (ap (λ x. x.0) r.2) ∙ h)

module _ (etcd : Etcd) where
  next_fate-kv : (w : World etcd) → (next_fate etcd w).1.kv ≡ w.kv
  unfolding next_fate first_fate
  next_fate-kv w = cases w.fates
    where
      cases : (fs : List Fate) → (first_fate etcd fs w).1.kv ≡ w.kv
      cases [] = refl
      cases (f ∷ fs) = refl

  pub read-Reads : {A : Type 0} (answer : etcd.Kv → Result A) → Reads (read etcd answer)
  unfolding read
  read-Reads {A} answer = record {
    kept = λ w. cases (next_fate etcd w).0 (next_fate etcd w).1 ∙ next_fate-kv w;
  }
    where
      outcome : Fate → World etcd → Result A × World etcd
      outcome f w' = elim f [
        | answered ↦ (answer w'.kv, w')
        | refused e ↦ (err e, w')
        | lost e ↦ (err e, w')
      ]

      cases : (f : Fate) (w' : World etcd) → (outcome f w').1.kv ≡ w'.kv
      cases answered w' = refl
      cases (refused e) w' = refl
      cases (lost e) w' = refl

  -- A read that returns something has the answer of the store.
  pub read_ok :
      {A : Type 0} (answer : etcd.Kv → Result A) (w : World etcd) (a : A)
      → (read etcd answer w).0 ≡ ok a
      → answer w.kv ≡ ok a
  unfolding read
  read_ok {A} answer w a h =
      subst (λ kv. answer kv ≡ ok a) (next_fate-kv w)
        (cases (next_fate etcd w).0 (next_fate etcd w).1 h)
    where
      outcome : Fate → World etcd → Result A × World etcd
      outcome f w' = elim f [
        | answered ↦ (answer w'.kv, w')
        | refused e ↦ (err e, w')
        | lost e ↦ (err e, w')
      ]

      cases : (f : Fate) (w' : World etcd) → (outcome f w').0 ≡ ok a → answer w'.kv ≡ ok a
      cases answered w' e = e
      cases (refused x) w' e = cc
      cases (lost x) w' e = cc

  listed_lem : (l kvs : List (Text × Text)) → listed etcd l ≡ ok kvs → l ≡ kvs
  unfolding listed
  listed_lem [] kvs h = cc
  listed_lem (kv ∷ l) kvs h = cc h

  -- The keys with a prefix that were read are those that are stored.
  pub prefix_ok :
      (key : Text) (w : World etcd) (kvs : List (Text × Text))
      → (prefix etcd key w).0 ≡ ok kvs
      → etcd.range w.kv key ≡ kvs
  unfolding prefix
  prefix_ok key w kvs h =
      listed_lem (etcd.range w.kv key) kvs (read_ok (λ kv. listed etcd (etcd.range kv key)) w kvs h)

  -- A read that is answered.
  pub read_answered :
      {A : Type 0} (answer : etcd.Kv → Result A) (w : World etcd)
      → w.fates ≡ []
      → (read etcd answer w).0 ≡ answer w.kv
  unfolding read next_fate first_fate
  read_answered answer w h = rw h refl

  pub get_answered :
      (key v : Text) (w : World etcd)
      → w.fates ≡ []
      → etcd.get w.kv key ≡ some v
      → (get etcd key w).0 ≡ ok v
  unfolding get found
  get_answered key v w h e = read_answered _ w h ∙ ap (found etcd) e

  pub get-Reads : (key : Text) → Reads (get etcd key)
  unfolding get
  get-Reads key = read-Reads _

  pub exists-Reads : (key : Text) → Reads (exists etcd key)
  unfolding exists count
  exists-Reads key =
      bind-Reads (count etcd key) (λ n. pure (ltb 0 n)) (read-Reads _) (λ n. pure-Reads _)

  abbrev pub Outcome : List Op → World etcd → World etcd → Type 0
  Outcome ops w w' = (w'.kv ≡ w.kv) ⊎ ((n : ℕ) × (etcd.txn w.kv ops ≡ some (w'.kv, n)))

  write-Outcome :
      (ops : List Op) (w : World etcd) → Outcome ops w (write_result etcd (etcd.txn w.kv ops) w).1
  unfolding write_result
  write-Outcome ops w = cases (etcd.txn w.kv ops) refl
    where
      cases :
          (r : Option (etcd.Kv × ℕ))
          → etcd.txn w.kv ops ≡ r
          → Outcome ops w (write_result etcd r w).1
      cases none e = inl refl
      cases (some (kv, n)) e = inr (n, e)

  write_done :
      (ops : List Op) (w : World etcd) (n : ℕ) (r : Option (etcd.Kv × ℕ))
      → (write_result etcd r w).0 ≡ ok n
      → r ≡ some ((write_result etcd r w).1.kv, n)
  unfolding write_result
  write_done ops w n none h = cc
  write_done ops w n (some (kv, k)) h = cc

  -- A request that writes leaves the store as it is, or makes of it what the transaction makes.
  pub commit-Outcome : (ops : List Op) (w : World etcd) → Outcome ops w (commit etcd ops w).1
  unfolding commit
  commit-Outcome ops w =
      subst
        (λ kv.
          (((commit etcd ops w).1.kv ≡ kv)
            ⊎ ((n : ℕ) × (etcd.txn kv ops ≡ some ((commit etcd ops w).1.kv, n)))))
        (next_fate-kv w) (cases (next_fate etcd w).0 (next_fate etcd w).1)
    where
      answer : Fate → World etcd → Result ℕ × World etcd
      answer f w' = elim f [
        | answered ↦ write_result etcd (etcd.txn w'.kv ops) w'
        | refused e ↦ (err e, w')
        | lost e ↦ (err e, (write_result etcd (etcd.txn w'.kv ops) w').1)
      ]

      cases : (f : Fate) (w' : World etcd) → Outcome ops w' (answer f w').1
      cases answered w' = write-Outcome ops w'
      cases (refused e) w' = inl refl
      cases (lost e) w' = write-Outcome ops w'

  -- One that is answered has made of the store what the transaction makes.
  pub commit_done :
      (ops : List Op) (w : World etcd) (n : ℕ)
      → (commit etcd ops w).0 ≡ ok n
      → etcd.txn w.kv ops ≡ some ((commit etcd ops w).1.kv, n)
  unfolding commit
  commit_done ops w n h =
      subst (λ kv. etcd.txn kv ops ≡ some ((commit etcd ops w).1.kv, n)) (next_fate-kv w)
        (cases (next_fate etcd w).0 (next_fate etcd w).1 h)
    where
      answer : Fate → World etcd → Result ℕ × World etcd
      answer f w' = elim f [
        | answered ↦ write_result etcd (etcd.txn w'.kv ops) w'
        | refused e ↦ (err e, w')
        | lost e ↦ (err e, (write_result etcd (etcd.txn w'.kv ops) w').1)
      ]

      cases :
          (f : Fate) (w' : World etcd)
          → (answer f w').0 ≡ ok n
          → etcd.txn w'.kv ops ≡ some ((answer f w').1.kv, n)
      cases answered w' e = write_done ops w' n (etcd.txn w'.kv ops) e
      cases (refused x) w' e = cc
      cases (lost x) w' e = cc

  -- A request that is answered and only reads leaves the world as it is.
  pub get_quiet : (key : Text) (w : World etcd) → w.fates ≡ [] → (get etcd key w).1 ≡ w
  unfolding get read next_fate first_fate
  get_quiet key w h = rw h refl
