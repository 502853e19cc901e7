-- ===== src/Client/Counters.antt =====
-- Counters: `Incr` of pkg/client/client.go.
use e2d.Prelude.Decimal.{
  ℤ, pos, negsuc, parse_int, format_int, max_int64, IsInt64, parse_int-format_int, is_foreign,
  parse_int-is_foreign,
}
use e2d.Client.{
  Etcd, IsEtcd, put, after_op, World, M, pure, lift, bind, continue, found, read, commit, get,
  get_n, set, lock, incr, next_int64, number, or_zero,
}
use e2d.Client.Wire.{IsWire, read_lem, lock_lem}
use e2d.Client.Reads.{Reads, bind-Reads, lift-Reads, get-Reads, of_bind_ok, commit_done}
use e2d.Prelude.{
  zero, suc, arith, ◌+◌, ◌≡◌, refl, sym, ap, ◌∙◌, subst, ◌⊎◌, inl, inr, Option, none, some, [], ◌∷◌,
  Text, str_eq, str_eq_refl, str_eq_iff, Bool-cases, true, Error, key_not_found, other, Result, ok,
  err, panic, ok_injective, ◌>>=◌, if◌then◌else◌, ltb,
}

some_injective : {a b : Text} → some a ≡ some b → a ≡ b
some_injective h = cc h

module _ (etcd : Etcd) where
  -- What a counter stands at.
  abbrev pub Holds : etcd.Kv → Text → ℤ → Type 0
  Holds kv key i =
      ((etcd.get kv key ≡ none) × (i ≡ pos 0))
      ⊎ ((v : Text) × (etcd.get kv key ≡ some v) × (parse_int v ≡ (i, none)))

  -- A number that was read, or 0 where the key is missing.
  number_lem :
      (r : ℤ × Option Error) (i : ℤ)
      → is_foreign r.1 ≡ true
      → or_zero etcd (number etcd r) ≡ ok i
      → r ≡ (i, none)
  unfolding number or_zero
  number_lem (n, none) i f h = ap (λ x. (x, none)) (ok_injective h)
  number_lem (n, some (other t)) i f h = cc
  number_lem (n, some e) i f h = absurd (cc f)

  counter_lem :
      (kv : etcd.Kv) (key : Text) (o : Option Text) (i : ℤ)
      → etcd.get kv key ≡ o
      → or_zero etcd (found etcd o >>= (λ v. number etcd (parse_int v))) ≡ ok i
      → Holds kv key i
  unfolding found or_zero
  counter_lem kv key none i h e = inl (h, sym (ok_injective e))
  counter_lem kv key (some v) i h e =
      inr (v, h, number_lem (parse_int v) i (parse_int-is_foreign v) e)

  -- A failure that is not that of a missing key stays one.
  or_zero_err : (e : Error) (i : ℤ) → (¬ (e ≡ key_not_found)) → ¬ (or_zero etcd (err e) ≡ ok i)
  unfolding or_zero
  or_zero_err key_not_found i h k = h refl
  or_zero_err e i h k = cc k

  continue-number :
      (r : Result Text) (w : World etcd)
      → (continue {etcd = etcd} r (λ v. lift (number etcd (parse_int v))) w).0
        ≡ (r >>= (λ v. number etcd (parse_int v)))
  continue-number (ok v) w = refl
  continue-number (err e) w = refl
  continue-number panic w = refl

  get_n_lem :
      (key : Text) (w : World etcd) (i : ℤ)
      → IsWire etcd w.fates
      → or_zero etcd (get_n etcd key w).0 ≡ ok i
      → Holds w.kv key i
  unfolding get_n get
  get_n_lem key w i h e =
      let answer = λ (kv : etcd.Kv). found etcd (etcd.get kv key) in
      let r = read etcd answer w in
      let e' : or_zero etcd (r.0 >>= (λ v. number etcd (parse_int v))) ≡ ok i =
        ap (or_zero etcd) (sym (continue-number r.0 r.1)) ∙ e in
      cases r.0 (read_lem etcd answer w h).2 e'
    where
      cases :
          (r : Result Text)
          → (r ≡ found etcd (etcd.get w.kv key))
            ⊎ ((e : Error) × (r ≡ err e) × ¬ (e ≡ key_not_found))
          → or_zero etcd (r >>= (λ v. number etcd (parse_int v))) ≡ ok i
          → Holds w.kv key i
      cases r (inl h) e = counter_lem w.kv key (etcd.get w.kv key) i refl (
          subst (λ (x : Result Text). or_zero etcd (x >>= (λ v. number etcd (parse_int v))) ≡ ok i)
            h e)
      cases r (inr (x, h, differs)) e = absurd (
          or_zero_err x i differs (
            subst
              (λ (x : Result Text). or_zero etcd (x >>= (λ v. number etcd (parse_int v))) ≡ ok i) h
              e))

  -- The part of `Incr` that runs under the lock.
  abbrev count_on : Text → ℤ → M etcd ℤ
  count_on key i =
      bind (set etcd key (format_int (next_int64 etcd i))) (λ n. pure (next_int64 etcd i))

  abbrev next_id : Text → M etcd ℤ
  next_id key w = let r = get_n etcd key w in (or_zero etcd r.0, r.1)

  get_n-Reads : (key : Text) → Reads (get_n etcd key)
  unfolding get_n
  get_n-Reads key = bind-Reads (get etcd key) _ (get-Reads etcd key) (λ v. lift-Reads _)

  put_at : (key v : Text) (old : Option Text) → after_op (put key v) key old ≡ some v
  put_at key v old = rw (str_eq_refl key) refl

  put_elsewhere :
      (key v k : Text) (old : Option Text) → (¬ (k ≡ key)) → after_op (put key v) k old ≡ old
  put_elsewhere key v k old h = elim (Bool-cases (str_eq key k)) [
    | inl e ↦ absurd (h (sym ((str_eq_iff key k).0 e)))
    | inr e ↦ rw e refl
  ]

  -- The number after the one that a counter stood at is what it stands at.
  abbrev pub Counted : Text → World etcd → ℤ → etcd.Kv → Type 0
  Counted key w n kv =
      (i : ℤ) × Holds w.kv key i
      × (n ≡ next_int64 etcd i)
      × (etcd.get kv key ≡ some (format_int n))
      × ((k : Text) → (¬ (k ≡ key)) → etcd.get kv k ≡ etcd.get w.kv k)

  -- A counter that returns a number stood at the one before, stands at that number and has changed
  -- nothing else, if no request fails with the error of a missing key.
  pub incr_lem :
      (laws : IsEtcd etcd) (key : Text) (w : World etcd) (n : ℤ)
      → IsWire etcd w.fates
      → (incr etcd key w).0 ≡ ok n
      → Counted key w n (incr etcd key w).1.kv
  unfolding incr set
  incr_lem laws key w n h e =
      let a = of_bind_ok (lock etcd) (λ u. bind (next_id key) (count_on key)) w n e in
      let w1 = (lock etcd w).1 in
      let locked = lock_lem etcd w h in
      let b = of_bind_ok (next_id key) (count_on key) w1 n a.3 in
      let w2 = (next_id key w1).1 in
      let i = b.0 in
      let op = put key (format_int (next_int64 etcd i)) in
      let c = of_bind_ok (commit etcd (op ∷ [])) (λ m. pure (next_int64 etcd i)) w2 n b.3 in
      let total = a.2 ∙ b.2 ∙ c.2 in
      let same : next_int64 etcd i ≡ n = ok_injective c.3 in
      let kept : w2.kv ≡ w.kv = (get_n-Reads key).kept w1 ∙ locked.1 in
      let done = (commit etcd (op ∷ []) w2).1 in
      let stored = λ (k : Text).
        laws.get-txn w2.kv done.kv (op ∷ []) c.0 k (commit_done etcd (op ∷ []) w2 c.0 c.1) in
      subst (λ (r : Result ℤ × World etcd). Counted key w n r.1.kv) (sym total)
        (
          i,
          subst (λ kv. Holds kv key i) locked.1 (get_n_lem key w1 i locked.0 b.1),
          sym same,
          stored key
              ∙ put_at key (format_int (next_int64 etcd i)) (etcd.get w2.kv key)
              ∙ ap (λ x. some (format_int x)) same,
          λ k other.
              stored k
              ∙ put_elsewhere key (format_int (next_int64 etcd i)) k (etcd.get w2.kv k) other
              ∙ ap (λ kv. etcd.get kv k) kept,
        )

  -- What a counter stands at after it returned a number.
  Holds-unique :
      (kv : etcd.Kv) (key : Text) (a i : ℤ)
      → IsInt64 a
      → etcd.get kv key ≡ some (format_int a)
      → Holds kv key i
      → i ≡ a
  Holds-unique kv key a i h e (inl (missing, z)) = absurd (cc (sym missing, e))
  Holds-unique kv key a i h e (inr (v, there, parsed)) =
      let same : format_int a ≡ v = some_injective (sym e ∙ there) in
      sym (ap (λ r. r.0) (sym (parse_int-format_int a h) ∙ ap parse_int same ∙ parsed))

  -- The number after a number, the least int64 after the greatest
  abbrev pub successor : ℤ → ℤ
  successor (pos a) = if ltb a max_int64 then pos (a + 1) else negsuc max_int64
  successor (negsuc zero) = pos 0
  successor (negsuc (suc a)) = negsuc a

  successor_lem : (i : ℤ) → next_int64 etcd i ≡ successor i
  successor_lem (pos a) = ground arith
  successor_lem (negsuc zero) = refl
  successor_lem (negsuc (suc a)) = refl

  -- Two calls of a counter that return numbers, the first one a number that an int64 holds, and the
  -- second one finding what the first one has left: the second number is the first one plus one, or the
  -- least int64 after the greatest, and it is what the counter stands at then. No request of the two
  -- calls fails with the error of a missing key.
  pub incr_twice :
      (laws : IsEtcd etcd) (key : Text) (w w' : World etcd) (a n : ℤ)
      → IsInt64 a
      → IsWire etcd w.fates
      → IsWire etcd w'.fates
      → (incr etcd key w).0 ≡ ok a
      → etcd.get w'.kv key ≡ etcd.get (incr etcd key w).1.kv key
      → (incr etcd key w').0 ≡ ok n
      → (n ≡ successor a) × (etcd.get (incr etcd key w').1.kv key ≡ some (format_int n))
  incr_twice laws key w w' a n fits wire wire' first between second =
      let one = incr_lem laws key w a wire first in
      let two = incr_lem laws key w' n wire' second in
      let stood = Holds-unique w'.kv key a two.0 fits (between ∙ one.3) two.1 in
      (two.2 ∙ ap (next_int64 etcd) stood ∙ successor_lem a, two.3)
