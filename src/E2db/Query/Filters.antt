-- ===== src/E2db/Query/Filters.antt =====
-- What the filters of a query do to all rows of a table (`findAll` of pkg/e2db/query.go).
use e2d.E2db.Matcher.{Matchers, end, more}
use e2d.E2db.Rows.{filtered, sort_rows}
use e2d.E2db.Key.{table}
use e2d.Client
use e2d.Client.{IsEtcd, M, World, lift, bind}
use e2d.Client.Reads.{of_bind_ok, prefix_ok}
use e2d.E2db.Table.{Env, Table, validate_model, table_must_exist}
use e2d.E2db.Query.{
  Query, Row, joined, appended, rows_for, collect_all, is_hidden, read_row, find_all, all_rows,
  rows_of, no_rows_if_missing, sort_found,
}
use e2d.Prelude.{
  ◌≡◌, refl, sym, ap, ◌∙◌, subst, inl, inr, true, false, Bool, some, str_eq, has_prefix,
  ok_injective, key_not_found, List, [], ◌∷◌, ◌++◌, arith, Bool-cases, all, In, In-append_left,
  In-append_right, Text, Result, ok, err, panic,
}

joined_ok :
    (a b : Result (List Row)) (rows : List Row)
    → joined a b ≡ ok rows
    → (xs : List Row) × (ys : List Row) × (a ≡ ok xs) × (b ≡ ok ys) × (rows ≡ xs ++ ys)
unfolding joined
joined_ok (ok xs) (ok ys) rows h = (xs, ys, refl, refl, cc)
joined_ok (ok xs) (err e) rows h = cc
joined_ok (ok xs) panic rows h = cc
joined_ok (err e) b rows h = cc
joined_ok panic b rows h = cc

the_row : (row : Row) (ys : List Row) → Result.ok (row ∷ []) ≡ ok ys → (row ∷ []) ≡ ys
the_row row ys h = cc

module _ (env : Env) (t : Table) where
  appended-In :
      (ms : Matchers) (row : Row) (rows : List Row) → appended env t ms row ≡ ok rows → In row rows
  unfolding appended
  appended-In end row rows h =
      subst (λ (xs : List Row). In row xs) (ground arith) (In.here {xs = []} refl)
  appended-In (more m ms) row rows h =
      let (xs, ys, a, b, e) = joined_ok (filtered (more m ms) row) (ok (row ∷ [])) rows h in
      subst (λ (zs : List Row). In row zs) (sym e)
        (In-append_right xs
          (subst (λ (zs : List Row). In row zs) (the_row row ys b) (In.here {xs = []} refl)))

  rows_for-In :
      (q : Query) (r : Result Row) (row : Row) (rows : List Row)
      → r ≡ ok row
      → rows_for env t q r ≡ ok rows
      → In row rows
  unfolding rows_for
  rows_for-In q r row rows e h = appended-In q.matchers row rows (ap (rows_for env t q) (sym e) ∙ h)

  -- The loop of such a query.
  collect_all-In :
      (q : Query) (kvs : List (Text × Text)) (rows : List Row)
      → collect_all env t q kvs ≡ ok rows
      → (key text : Text) (row : Row) → In (key, text) kvs
      → is_hidden t.name key ≡ false
      → read_row env t text ≡ ok row
      → In row rows
  unfolding collect_all
  collect_all-In q [] rows h key text row i v r = elim i [ ]
  collect_all-In q (kv ∷ kvs) rows h key text row (In.here e) v r =
      let visible : is_hidden t.name kv.0 ≡ false = subst (λ x. is_hidden t.name x.0 ≡ false) e v in
      let (xs, ys, a, b, all) =
        joined_ok (rows_for env t q (read_row env t kv.1)) (collect_all env t q kvs) rows
          (rw visible at h) in
      subst (λ zs. In row zs) (sym all)
        (In-append_left ys (
          rows_for-In q (read_row env t kv.1) row xs (subst (λ x. read_row env t x.1 ≡ ok row) e r)
            a))
  collect_all-In q (kv ∷ kvs) rows h key text row (In.there j) v r =
      elim (Bool-cases (is_hidden t.name kv.0)) [
        | inl e ↦ collect_all-In q kvs rows (rw e at h) key text row j v r
        | inr e ↦
            let (xs, ys, a, b, all) =
              joined_ok (rows_for env t q (read_row env t kv.1)) (collect_all env t q kvs) rows
                (rw e at h) in
            subst (λ zs. In row zs) (sym all)
              (In-append_right xs (collect_all-In q kvs ys b key text row j v r))
      ]

  rows_of_ok :
      {A : Type 0} (m : M env.etcd A) (w : World env.etcd) (a : A)
      → (rows_of env t m w).0 ≡ ok a
      → (m w).0 ≡ ok a
  unfolding rows_of no_rows_if_missing
  rows_of_ok m w a h = missing_lem (m w).0 a h
    where
      missing_lem : {A : Type 0} (r : Result A) (a : A) → no_rows_if_missing r ≡ ok a → r ≡ ok a
      missing_lem (ok x) a h = h
      missing_lem (err key_not_found) a h = cc
      missing_lem (err e) a h = cc
      missing_lem panic a h = cc

  sort_found_ok :
      (q : Query) (by_pointer : Bool) (found rows : List Row)
      → q.sort ≡ []
      → sort_found env t q by_pointer found ≡ ok rows
      → found ≡ rows
  unfolding sort_found sort_rows str_eq
  sort_found_ok q by_pointer [] rows s h = cc
  sort_found_ok q by_pointer (row ∷ found) rows s h = ok_injective (rw s at h)

  -- What `findAll` reads is every row that is stored.
  find_all-In :
      (laws : IsEtcd env.etcd) (q : Query) (by_pointer : Bool) (w : World env.etcd)
      (rows : List Row)
      → q.sort ≡ []
      → (find_all env t q by_pointer w).0 ≡ ok rows
      → (key text : Text) (row : Row) → env.etcd.get w.kv key ≡ some text
      → has_prefix (table t.name) key ≡ true
      → is_hidden t.name key ≡ false
      → read_row env t text ≡ ok row
      → In row rows
  unfolding find_all
  find_all-In laws q by_pointer w rows s h key text row stored inside v r =
      let read = rows_of env t (Client.prefix env.etcd (table t.name)) in
      let sorted = λ (found : List Row). lift (sort_found env t q by_pointer found) in
      let a = of_bind_ok read (λ kvs. bind (lift (collect_all env t q kvs)) sorted) w rows h in
      let b = of_bind_ok (lift (collect_all env t q a.0)) sorted (read w).1 rows a.3 in
      let all =
        prefix_ok env.etcd (table t.name) w a.0
          (rows_of_ok (Client.prefix env.etcd (table t.name)) w a.0 a.1) in
      let listed = (laws.range_iff w.kv (table t.name) key text).1 (inside, stored) in
      subst (λ (xs : List Row). In row xs) (sort_found_ok q by_pointer b.0 rows s b.3)
        (collect_all-In q a.0 b.0 b.1 key text row
          (subst (λ (xs : List (Text × Text)). In (key, text) xs) all listed) v r)

  -- Whatever its matchers are, a query for all rows that sorts by no field and returns rows has among
  -- them every row that is stored under a visible key with the prefix of the table, when the definition
  -- of the table has been looked up, and can be read.
  pub all_rows-In :
      (laws : IsEtcd env.etcd) (q : Query) (by_pointer : Bool) (type_name : Text)
      (w : World env.etcd) (rows : List Row)
      → q.sort ≡ []
      → (all_rows env t q by_pointer type_name w).0 ≡ ok rows
      → (key text : Text) (row : Row) → env.etcd.get (table_must_exist env t w).1.kv key ≡ some text
      → has_prefix (table t.name) key ≡ true
      → is_hidden t.name key ≡ false
      → read_row env t text ≡ ok row
      → In row rows
  unfolding all_rows
  all_rows-In laws q by_pointer type_name w rows s h =
      let checked = λ (same : Unit). find_all env t q by_pointer in
      let a =
        of_bind_ok (table_must_exist env t) (λ d. bind (lift (validate_model t type_name)) checked)
          w rows h in
      let b =
        of_bind_ok (lift (validate_model t type_name)) checked (table_must_exist env t w).1 rows
          a.3 in
      find_all-In laws q by_pointer (table_must_exist env t w).1 rows s b.3
