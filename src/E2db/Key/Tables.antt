-- ===== src/E2db/Key/Tables.antt =====
-- Which keys belong to a table, and a row whose name leads out of it (pkg/e2db/key/key.go).
use e2d.E2db.Key.{split_slash, join_slash, resolve, clean, filepath_join, join, row_id, table}
use e2d.E2db.Key.Paths.{
  IsSegment, has_slash, split_slash_one, split_slash-append, join_segments, filepath_join_segments,
}
use e2d.E2db.Key.Hex.{IsDigest}
use e2d.E2db.Key.Layout.{TableKey, IsPlain, key_of, model_of, steps, key_of_lem, steps-IsSegment}
use e2d.Prelude.{
  ◌≡◌, refl, sym, ap, ◌∙◌, subst, true, false, false≢true, List, [], ◌∷◌, ◌++◌, arith, ◌==◌,
  if◌then◌else◌, All, Text, codes, str_eq, has_prefix,
}

prefix_slash :
    (s t rest : Text)
    → has_slash s ≡ false
    → has_slash t ≡ false
    → has_prefix (s ++ b'/' ∷ []) (t ++ b'/' ∷ rest) ≡ str_eq s t
unfolding has_prefix str_eq
prefix_slash [] [] rest h k = refl
prefix_slash [] (y ∷ t) rest h k = ground arith
prefix_slash (x ∷ s) [] rest h k = ground arith
prefix_slash (x ∷ s) (y ∷ t) rest h k = ground (arith, prefix_slash s t rest)

prefix_of_table :
    (m t s : Text) (ss : List Text)
    → IsSegment m
    → All IsSegment (t ∷ s ∷ ss)
    → has_prefix (table m) (join (t ∷ s ∷ ss)) ≡ str_eq m t
unfolding table has_prefix join_slash
prefix_of_table m t s ss h p =
    rw (join_segments m [] (h, tt), join_segments t (s ∷ ss) p)
      (prefix_slash m t (join_slash (s ∷ ss)) h.no_slash p.0.no_slash)

module _ (sha512 : Text → Text) (digest : IsDigest sha512) where
  -- The key of something that a table stores, its names being whole path steps, begins with the
  -- prefix of a table exactly if it belongs to the table of that name.
  pub table-covers :
      (m : Text) (k : TableKey)
      → IsSegment m
      → IsPlain k
      → has_prefix (table m) (key_of sha512 k) ≡ str_eq m (model_of sha512 k)
  table-covers m k h p =
      subst (λ key. has_prefix (table m) key ≡ str_eq m (model_of sha512 k))
        (sym (key_of_lem sha512 k)) (by_kind k (steps-IsSegment sha512 digest k p))
    where
      by_kind :
          (j : TableKey)
          → All IsSegment (model_of sha512 j ∷ steps sha512 j)
          → has_prefix (table m) (join (model_of sha512 j ∷ steps sha512 j))
            ≡ str_eq m (model_of sha512 j)
      by_kind (TableKey.row t id) q = prefix_of_table m t _ _ h q
      by_kind (TableKey.entry t f v id) q = prefix_of_table m t _ _ h q
      by_kind (TableKey.unique_entry t f v) q = prefix_of_table m t _ _ h q
      by_kind (TableKey.definition t) q = prefix_of_table m t _ _ h q
      by_kind (TableKey.lock t) q = prefix_of_table m t _ _ h q
      by_kind (TableKey.counter t f) q = prefix_of_table m t _ _ h q

dots : Text
dots = codes ".."

-- A primary key that climbs out of its table: `..`, another table and a row of that.
abbrev pub climbing : Text → Text → Text
climbing other_model id = codes "../" ++ other_model ++ b'/' ∷ id

dots_tests :
    (str_eq dots [] ≡ false) × (str_eq dots (codes ".") ≡ false) × (str_eq dots (codes "..") ≡ true)
unfolding str_eq dots
dots_tests = (refl, refl, refl)

resolve_climbing :
    (s t id : Text)
    → IsSegment s
    → IsSegment t
    → IsSegment id
    → resolve false [] (s ∷ dots ∷ t ∷ id ∷ []) ≡ t ∷ id ∷ []
unfolding resolve
resolve_climbing s t id h k l = simp (
  h.named, h.not_dot, h.not_dots, k.named, k.not_dot, k.not_dots, l.named, l.not_dot, l.not_dots,
  dots_tests.0, dots_tests.1, dots_tests.2,
)

split_climbing :
    (s t id : Text)
    → IsSegment s
    → IsSegment t
    → IsSegment id
    → split_slash (s ++ b'/' ∷ climbing t id) ≡ s ∷ dots ∷ t ∷ id ∷ []
unfolding dots
split_climbing s t id h k l =
    split_slash-append s (climbing t id) h.no_slash
    ∙ ap (◌∷◌ s) (
        split_slash-append dots (t ++ b'/' ∷ id) refl
        ∙ ap (◌∷◌ dots)
            (split_slash-append t id k.no_slash ∙ ap (◌∷◌ t) (split_slash_one id l.no_slash)))

clean-climbing :
    (s t id : Text)
    → IsSegment s
    → IsSegment t
    → IsSegment id
    → clean (s ++ b'/' ∷ climbing t id) ≡ join_slash (t ∷ id ∷ [])
unfolding clean str_eq
clean-climbing [] t id h k l = absurd (false≢true (sym h.named))
clean-climbing (c ∷ m) t id h k l =
    let plain : (c == b'/') ≡ false = ground (arith, h.no_slash) in
    rw (plain, split_climbing (c ∷ m) t id h k l, resolve_climbing (c ∷ m) t id h k l) refl

-- A row whose primary key climbs out of its table by a .. step to another table, all names being
-- whole path steps, is stored under the key of a row of that other table.
pub row_id-climbing :
    (m t id : Text)
    → IsSegment m
    → IsSegment t
    → IsSegment id
    → row_id m (climbing t id) ≡ row_id t id
unfolding row_id join filepath_join join_slash str_eq
row_id-climbing [] t id h k l = absurd (false≢true (sym h.named))
row_id-climbing (c ∷ m) [] id h k l = absurd (false≢true (sym k.named))
row_id-climbing (c ∷ m) (d ∷ t) id h k l =
    ap (λ path. if has_prefix (codes "/") path then path else b'/' ∷ path)
      (clean-climbing (c ∷ m) (d ∷ t) id h k l
        ∙ sym (filepath_join_segments (d ∷ t) (id ∷ []) (k, (l, tt))))
