-- ===== src/E2db/Key/Layout.antt =====
-- The layout of the keys of all tables: no two of them clash (pkg/e2db/key/key.go).
use e2d.E2db.Key.{
  join, index_prefix, table_prefix, row_id, table_def, table_lock, increment, hash, index, unique,
}
use e2d.E2db.Key.Paths.{IsSegment, join_injective}
use e2d.E2db.Key.Hex.{IsBytes, IsDigest, hash-injective, hash-IsSegment}
use e2d.Prelude.{
  ◌≡◌, refl, sym, ap, ◌∙◌, false, false≢true, List, [], ◌∷◌, arith, All, Text, codes, str_eq,
  str_eq_refl, str_eq_iff,
}

abbrev second : List Text → Text
second (s ∷ t ∷ rest) = t
second _ = []

prefixes_differ : ¬ (index_prefix ≡ table_prefix)
unfolding str_eq
prefixes_differ e = false≢true ((str_eq_iff index_prefix table_prefix).1 e)

-- Everything that a table stores, or locks, under a key of its own.
pub data TableKey : Type 0 where
  row : Text → Text → TableKey
  entry : Text → Text → Text → Text → TableKey
  unique_entry : Text → Text → Text → TableKey
  definition : Text → TableKey
  lock : Text → TableKey
  counter : Text → Text → TableKey

-- The names are whole steps of a path, the values are bytes, and a row is not called as the
-- definition of its table is.
abbrev pub IsPlain : TableKey → Type 0
IsPlain (row m id) = IsSegment m × IsSegment id × (str_eq id table_prefix ≡ false)
IsPlain (entry m f v id) = IsSegment m × IsSegment f × IsBytes v × IsSegment id
IsPlain (unique_entry m f v) = IsSegment m × IsSegment f × IsBytes v
IsPlain (definition m) = IsSegment m
IsPlain (lock m) = IsSegment m
IsPlain (counter m f) = IsSegment m × IsSegment f

table_prefix-IsSegment : IsSegment table_prefix
unfolding str_eq
table_prefix-IsSegment = record { named = refl; no_slash = refl; not_dot = refl; not_dots = refl }

index_prefix-IsSegment : IsSegment index_prefix
unfolding str_eq
index_prefix-IsSegment = record { named = refl; no_slash = refl; not_dot = refl; not_dots = refl }

lock-IsSegment : IsSegment (codes "lock")
unfolding str_eq
lock-IsSegment = record { named = refl; no_slash = refl; not_dot = refl; not_dots = refl }

last-IsSegment : IsSegment (codes "last")
unfolding str_eq
last-IsSegment = record { named = refl; no_slash = refl; not_dot = refl; not_dots = refl }

module _ (sha512 : Text → Text) where
  -- The key under which it is stored.
  pub key_of : TableKey → Text
  key_of (row m id) = row_id m id
  key_of (entry m f v id) = index sha512 m f v id
  key_of (unique_entry m f v) = unique sha512 m f v
  key_of (definition m) = table_def m
  key_of (lock m) = table_lock m
  key_of (counter m f) = increment m f

  abbrev pub model_of : TableKey → Text
  model_of (row m id) = m
  model_of (entry m f v id) = m
  model_of (unique_entry m f v) = m
  model_of (definition m) = m
  model_of (lock m) = m
  model_of (counter m f) = m

  abbrev pub steps : TableKey → List Text
  steps (row m id) = id ∷ []
  steps (entry m f v id) = index_prefix ∷ f ∷ hash sha512 v ∷ id ∷ []
  steps (unique_entry m f v) = index_prefix ∷ f ∷ hash sha512 v ∷ []
  steps (definition m) = table_prefix ∷ []
  steps (lock m) = table_prefix ∷ codes "lock" ∷ []
  steps (counter m f) = table_prefix ∷ f ∷ codes "last" ∷ []

  pub key_of_lem : (k : TableKey) → key_of k ≡ join (model_of k ∷ steps k)
  unfolding key_of row_id index unique table_def table_lock increment
  key_of_lem (row m id) = refl
  key_of_lem (entry m f v id) = refl
  key_of_lem (unique_entry m f v) = refl
  key_of_lem (definition m) = refl
  key_of_lem (lock m) = refl
  key_of_lem (counter m f) = refl

module _ (sha512 : Text → Text) (digest : IsDigest sha512) where
  pub steps-IsSegment :
      (k : TableKey) → IsPlain k → All IsSegment (model_of sha512 k ∷ steps sha512 k)
  steps-IsSegment (row m id) p = (p.0, (p.1, tt))
  steps-IsSegment (entry m f v id) p =
      (p.0, (index_prefix-IsSegment, (p.1, (hash-IsSegment sha512 digest v p.2, (p.3, tt)))))
  steps-IsSegment (unique_entry m f v) p =
      (p.0, (index_prefix-IsSegment, (p.1, (hash-IsSegment sha512 digest v p.2, tt))))
  steps-IsSegment (definition m) p = (p, (table_prefix-IsSegment, tt))
  steps-IsSegment (lock m) p = (p, (table_prefix-IsSegment, (lock-IsSegment, tt)))
  steps-IsSegment (counter m f) p = (p.0, (table_prefix-IsSegment, (p.1, (last-IsSegment, tt))))

  same_steps :
      (j k : TableKey)
      → IsPlain j
      → IsPlain k
      → ◌≡◌ {A = List Text}
          (model_of sha512 j ∷ steps sha512 j)
          (model_of sha512 k ∷ steps sha512 k)
      → j ≡ k
  same_steps (row m id) (row m' id') p q e = cc
  same_steps (row m id) (definition m') p q e = ground (arith, str_eq_refl table_prefix)
  same_steps (definition m) (row m' id') p q e = ground (arith, str_eq_refl table_prefix)
  same_steps (entry m f v id) (entry m' f' v' id') p q e =
      cc (hash-injective sha512 digest v v' p.2 q.2 (cc))
  same_steps (unique_entry m f v) (unique_entry m' f' v') p q e =
      cc (hash-injective sha512 digest v v' p.2 q.2 (cc))
  same_steps (definition m) (definition m') p q e = cc
  same_steps (lock m) (lock m') p q e = cc
  same_steps (counter m f) (counter m' f') p q e = cc
  same_steps (unique_entry m f v) (counter m' f') p q e = absurd (prefixes_differ (ap second e))
  same_steps (counter m' f') (unique_entry m f v) p q e =
      absurd (prefixes_differ (sym (ap second e)))
  same_steps _ _ p q e = cc

  -- Rows, index entries, unique entries, definitions, locks and counters of any tables whose names
  -- are whole path steps, with values of bytes and no row called _table, have the same key only if
  -- they are the same thing.
  pub key_of-injective :
      (j k : TableKey) → IsPlain j → IsPlain k → key_of sha512 j ≡ key_of sha512 k → j ≡ k
  key_of-injective j k p q e = same_steps j k p q (
      join_injective (model_of sha512 j) (steps sha512 j) (model_of sha512 k) (steps sha512 k)
        (steps-IsSegment j p) (steps-IsSegment k q)
        (sym (key_of_lem sha512 j) ∙ e ∙ key_of_lem sha512 k))
