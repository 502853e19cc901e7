-- ===== src/Manager/Server/Volatile.antt =====
-- The store after a restore (clearVolatilePrefix and placeSnapshotMarker of pkg/manager/server.go).
use e2d.Manager.Server.{
  Server, Kv, IsKv, is_running, volatile_prefix, snapshot_marker_key, clear_keys,
  clear_volatile_prefix, place_snapshot_marker, after_start,
}
use e2d.Prelude.{
  ℕ, ◌+◌, ◌≡◌, refl, sym, ap, ◌∙◌, inl, inr, Bool, true, false, false≢true, Option, none, some,
  List, [], ◌∷◌, arith, if◌then◌else◌, Bool-cases, In, Text, str_eq, str_eq_refl, str_eq_iff,
  has_prefix, str_lt, ok,
}

-- A text with a prefix is not below it.
prefix_below : (p x : Text) → has_prefix p x ≡ true → str_lt x p ≡ false
unfolding has_prefix str_lt
prefix_below [] [] h = refl
prefix_below [] (c ∷ x) h = refl
prefix_below (c ∷ p) [] h = absurd (false≢true h)
prefix_below (c ∷ p) (d ∷ x) h = ground (arith, prefix_below p x)

module _ (kv : Kv) (k : IsKv kv) where
  gone_stays :
      (keys : List Text) (s : kv.Store) (n : ℕ) (x : Text)
      → kv.get s x ≡ none
      → kv.get (clear_keys kv keys s n).0 x ≡ none
  unfolding clear_keys
  gone_stays [] s n x h = h
  gone_stays (key ∷ keys) s n x h = elim (Bool-cases (has_prefix volatile_prefix key)) [
    | inl e ↦ rw e (
        gone_stays keys (kv.delete_key s key).0 (n + (kv.delete_key s key).1) x
          (k.get-delete s key x ∙ still (str_eq key x)))
    | inr e ↦ rw e (gone_stays keys s n x h)
  ]
    where
      still : (b : Bool) → (if b then none else kv.get s x) ≡ none
      still true = refl
      still false = h

  cleared :
      (keys : List Text) (s : kv.Store) (n : ℕ) (x : Text)
      → In x keys
      → has_prefix volatile_prefix x ≡ true
      → kv.get (clear_keys kv keys s n).0 x ≡ none
  unfolding clear_keys
  cleared [] s n x i h = elim i [ ]
  cleared (key ∷ keys) s n x (In.here e) h =
      let volatile : has_prefix volatile_prefix key ≡ true =
        ap (has_prefix volatile_prefix) (sym e) ∙ h in
      rw volatile (
        gone_stays keys (kv.delete_key s key).0 (n + (kv.delete_key s key).1) x
          (k.get-delete s key x ∙ rw (e, str_eq_refl key) refl))
  cleared (key ∷ keys) s n x (In.there i) h = elim (Bool-cases (has_prefix volatile_prefix key)) [
    | inl e ↦ rw e (cleared keys (kv.delete_key s key).0 (n + (kv.delete_key s key).1) x i h)
    | inr e ↦ rw e (cleared keys s n x i h)
  ]

  kept :
      (keys : List Text) (s : kv.Store) (n : ℕ) (x : Text)
      → has_prefix volatile_prefix x ≡ false
      → kv.get (clear_keys kv keys s n).0 x ≡ kv.get s x
  unfolding clear_keys
  kept [] s n x h = refl
  kept (key ∷ keys) s n x h = elim (Bool-cases (has_prefix volatile_prefix key)) [
    | inl e ↦
        let other_key = different key e in
        rw e (
          kept keys (kv.delete_key s key).0 (n + (kv.delete_key s key).1) x h
          ∙ rw (k.get-delete s key x, other_key) refl)
    | inr e ↦ rw e (kept keys s n x h)
  ]
    where
      different : (key : Text) → has_prefix volatile_prefix key ≡ true → str_eq key x ≡ false
      different key e = elim (Bool-cases (str_eq key x)) [
        | inl same ↦ absurd (
            false≢true
              (sym h ∙ ap (has_prefix volatile_prefix) (sym ((str_eq_iff key x).0 same)) ∙ e))
        | inr ne ↦ ne
      ]

  cleared_all :
      (keys : List Text) (s : kv.Store) (rev : ℕ) (x : Text)
      → kv.range_from s volatile_prefix ≡ ok (keys, rev)
      → has_prefix volatile_prefix x ≡ true
      → kv.get (clear_keys kv keys s 0).0 x ≡ none
  cleared_all keys s rev x e h = of_value (kv.get s x) refl
    where
      of_value : (o : Option Text) → kv.get s x ≡ o → kv.get (clear_keys kv keys s 0).0 x ≡ none
      of_value none g = gone_stays keys s 0 x g
      of_value (some v) g =
          cleared keys s 0 x
            (k.listed s volatile_prefix x v (keys, rev) e g (prefix_below volatile_prefix x h)) h

  -- When a cluster was restored, its server is running and the keys of its store could be listed,
  -- the store holds nothing with the volatile prefix but the marker with its time, and every other
  -- key as before.
  pub after_start-get :
      (sv : Server) (time : Text) (s : kv.Store) (keys : List Text) (rev : ℕ) (x : Text)
      → is_running sv ≡ true
      → kv.range_from s volatile_prefix ≡ ok (keys, rev)
      → kv.get (after_start kv sv time true s).0 x ≡ (
          if str_eq snapshot_marker_key x
          then some time
          else if has_prefix volatile_prefix x
          then none
          else kv.get s x)
  unfolding after_start clear_volatile_prefix place_snapshot_marker
  after_start-get sv time s keys rev x r e =
      rw (r, e, r)
        (k.get-put (clear_keys kv keys s 0).0 snapshot_marker_key time x
          ∙ ap (λ o. if str_eq snapshot_marker_key x then some time else o) rest)
    where
      rest :
          kv.get (clear_keys kv keys s 0).0 x
          ≡ (if has_prefix volatile_prefix x then none else kv.get s x)
      rest = elim (Bool-cases (has_prefix volatile_prefix x)) [
        | inl h ↦ rw h (cleared_all keys s rev x e h)
        | inr h ↦ rw h (kept keys s 0 x h)
      ]
