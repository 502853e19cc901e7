-- ===== src/Client.antt =====
-- pkg/client/client.go: the client of the key-value store of etcd.
--
-- The store is a parameter: its contents, what it answers to a read, and what a transaction leaves.
-- Any request may fail. A request that fails may still have been performed, since the answer may be
-- what was lost, so the failures are a list of what happens to the requests one after the other.
pub mod Reads
pub mod Wire
pub mod Counters
mod Tests
pub mod Samples
pub mod Security
pub mod Dial
use e2d.Prelude.Decimal.{ℤ, pos, negsuc, parse_int, format_int, max_int64}
use e2d.Prelude.{
  ℕ, zero, suc, ◌+◌, ◌≡◌, ◌↔◌, Bool, true, false, Option, none, some, List, [], ◌∷◌, map, ltb,
  if◌then◌else◌, length, In, Text, codes, str_eq, has_prefix, Error, key_not_found, other, Result,
  ok, err, panic,
}

-- clientv3.OpPut and clientv3.OpDelete
pub data Op : Type 0 where
  put : Text → Text → Op
  delete : Text → Op

-- etcd: `range` lists the keys with a prefix in their order, `txn` performs all operations or none
-- and counts the keys that were deleted; it refuses what etcd's limits and checks refuse.
pub record Etcd : Type 1 where
  pub Kv : Type 0
  pub get : Kv → Text → Option Text
  pub range : Kv → Text → List (Text × Text)
  pub txn : Kv → List Op → Option (Kv × ℕ)

-- What one operation makes of the value under a key.
abbrev pub after_op : Op → Text → Option Text → Option Text
after_op (put k v) j old = if str_eq k j then some v else old
after_op (delete k) j old = if str_eq k j then none else old

abbrev pub after_ops : List Op → Text → Option Text → Option Text
after_ops [] j old = old
after_ops (op ∷ ops) j old = after_ops ops j (after_op op j old)

-- What is relied on of etcd.
pub record IsEtcd (etcd : Etcd) : Type 0 where
  pub get-txn :
      (s s' : etcd.Kv) (ops : List Op) (n : ℕ) (k : Text)
      → etcd.txn s ops ≡ some (s', n)
      → etcd.get s' k ≡ after_ops ops k (etcd.get s k)
  pub range_iff :
      (s : etcd.Kv) (p k v : Text)
      → In (k, v) (etcd.range s p) ↔ ((has_prefix p k ≡ true) × (etcd.get s k ≡ some v))

-- What happens to a request: it is answered, it never arrives, or its answer is lost.
pub data Fate : Type 0 where
  answered : Fate
  refused : Error → Fate
  lost : Error → Fate

-- The store, what will happen to the requests to come (all are answered after the end of the
-- list), and how many random values were drawn.
pub record World (etcd : Etcd) : Type 0 where
  pub kv : etcd.Kv
  pub fates : List Fate
  pub draws : ℕ

module _ (etcd : Etcd) where
  abbrev pub M : Type 0 → Type 0
  M A = World etcd → Result A × World etcd

module _ {etcd : Etcd} {A : Type 0} where
  abbrev pub pure : A → M etcd A
  pure a w = (ok a, w)

  abbrev pub lift : Result A → M etcd A
  lift r w = (r, w)

module _ {etcd : Etcd} {A B : Type 0} where
  abbrev pub continue : Result A → (A → M etcd B) → M etcd B
  continue (ok a) f w = f a w
  continue (err e) f w = (err e, w)
  continue panic f w = (panic, w)

  abbrev pub bind : M etcd A → (A → M etcd B) → M etcd B
  bind m f w = let r = m w in continue r.0 f r.1

infixl 5 ◌>>=◌
abbrev pub ◌>>=◌ : {etcd : Etcd} {A B : Type 0} → M etcd A → (A → M etcd B) → M etcd B
◌>>=◌ m f = bind m f

module _ (etcd : Etcd) where
  first_fate : List Fate → World etcd → Fate × World etcd
  first_fate [] w = (answered, w)
  first_fate (f ∷ fs) w = (f, record w { fates = fs })

  next_fate : World etcd → Fate × World etcd
  unfolding first_fate
  next_fate w = first_fate w.fates w

  -- A request that reads: `answer` is what the store answers.
  unfoldable pub read : {A : Type 0} → (etcd.Kv → Result A) → M etcd A
  unfolding next_fate
  read answer w =
      let (fate, w') = next_fate w in
      elim fate [ answered ↦ (answer w'.kv, w') | refused e ↦ (err e, w') | lost e ↦ (err e, w') ]

  write_result : Option (etcd.Kv × ℕ) → World etcd → Result ℕ × World etcd
  write_result none w = (err (other (codes "etcdserver: request refused")), w)
  write_result (some (kv, n)) w = (ok n, record w { kv = kv })

  -- A request that writes, in one transaction.
  unfoldable pub commit : List Op → M etcd ℕ
  unfolding next_fate write_result
  commit ops w =
      let (fate, w') = next_fate w in
      elim fate [
        | answered ↦ write_result (etcd.txn w'.kv ops) w'
        | refused e ↦ (err e, w')
        | lost e ↦ (err e, (write_result (etcd.txn w'.kv ops) w').1)
      ]

  found : Option Text → Result Text
  found none = err key_not_found
  found (some v) = ok v

  -- `Get`
  unfoldable pub get : Text → M etcd Text
  unfolding found
  get key = read (λ kv. found (etcd.get kv key))

  number : ℤ × Option Error → Result ℤ
  number (n, none) = ok n
  number (n, some e) = err e

  -- `GetN`
  unfoldable pub get_n : Text → M etcd ℤ
  unfolding number
  get_n key = bind (get key) (λ v. lift (number (parse_int v)))

  -- `Set`
  unfoldable pub set : Text → Text → M etcd ℕ
  set key value = commit (put key value ∷ [])

  -- `Count` counts the keys with the prefix `key`; that there are none is no error.
  unfoldable pub count : Text → M etcd ℕ
  count key = read (λ kv. ok (length (etcd.range kv key)))

  -- `Exists`: whether there is a key with the prefix `key`.
  unfoldable pub exists : Text → M etcd Bool
  exists key = bind (count key) (λ n. pure (ltb 0 n))

  listed : List (Text × Text) → Result (List (Text × Text))
  listed [] = err key_not_found
  listed (kv ∷ kvs) = ok (kv ∷ kvs)

  -- `Prefix`: the keys with the prefix `key`, with their values; that there are none is an error.
  unfoldable pub prefix : Text → M etcd (List (Text × Text))
  unfolding listed
  prefix key = read (λ kv. listed (etcd.range kv key))

  -- The deletion of the keys with the prefix `key`, in one request.
  unfoldable pub delete_range : Text → M etcd ℕ
  delete_range key w = commit (map (λ (kv : Text × Text). delete kv.0) (etcd.range w.kv key)) w

  -- `SetOnce`: the key is written if it is not there, and the result says whether it was written.
  unfoldable pub set_once : Text → Text → M etcd Bool
  unfolding next_fate write_result
  set_once key value w =
      let (fate, w') = next_fate w in
      let absent : Bool = elim (etcd.get w'.kv key) [ none ↦ true | some v ↦ false ] in
      let written =
        if absent then write_result (etcd.txn w'.kv (put key value ∷ [])) w' else (ok 0, w') in
      elim fate [
        | answered ↦ continue written.0 (λ n. pure absent) written.1
        | refused e ↦ (err e, w')
        | lost e ↦ (err e, written.1)
      ]

  -- `Lock`: a session, then the mutex. Its keys carry a lease and are not part of the contents.
  unfoldable pub lock : M etcd (Unit {0})
  lock = bind (read (λ kv. ok tt)) (λ u. read (λ kv. ok tt))

  -- An int64 and one more.
  abbrev pub next_int64 : ℤ → ℤ
  next_int64 (pos n) = if ltb n max_int64 then pos (n + 1) else negsuc max_int64
  next_int64 (negsuc zero) = pos 0
  next_int64 (negsuc (suc n)) = negsuc n

  or_zero : Result ℤ → Result ℤ
  or_zero (err key_not_found) = ok (pos 0)
  or_zero r = r

  -- `Incr`
  unfoldable pub incr : Text → M etcd ℤ
  unfolding or_zero
  incr key = bind lock (λ u.
      bind (λ w. let r = get_n key w in (or_zero r.0, r.1))
        (λ id. let next = next_int64 id in bind (set key (format_int next)) (λ n. pure next)))
