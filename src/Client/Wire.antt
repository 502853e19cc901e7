-- ===== src/Client/Wire.antt =====
-- What requests answer that only read (pkg/client/client.go), and with what they fail.
use e2d.Client.{
  Etcd, Fate, answered, refused, lost, World, next_fate, first_fate, continue, read, lock,
}
use e2d.Prelude.{
  ◌≡◌, refl, ◌∙◌, ◌⊎◌, inl, inr, List, [], ◌∷◌, In, Error, key_not_found, Result, ok, err, panic,
}

module _ (etcd : Etcd) where
  -- What the requests to come fail with is not the error of a key that is not there.
  abbrev pub IsWire : List Fate → Type 0
  IsWire fates = (e : Error) → In (refused e) fates ⊎ In (lost e) fates → ¬ (e ≡ key_not_found)

  IsWire-tail : (f : Fate) (fs : List Fate) → IsWire (f ∷ fs) → IsWire fs
  IsWire-tail f fs h e (inl i) = h e (inl (In.there i))
  IsWire-tail f fs h e (inr i) = h e (inr (In.there i))

  -- A read has answered, or has failed with another error; the store is as it was.
  abbrev pub IsRead :
      {A : Type 0} → (etcd.Kv → Result A) → World etcd → Result A × World etcd → Type 0
  IsRead answer w r =
      IsWire r.1.fates
      × (r.1.kv ≡ w.kv)
      × ((r.0 ≡ answer w.kv) ⊎ ((e : Error) × (r.0 ≡ err e) × ¬ (e ≡ key_not_found)))

  abbrev read_step : {A : Type 0} → (etcd.Kv → Result A) → Fate → World etcd → Result A × World etcd
  read_step answer f w' = elim f [
    | answered ↦ (answer w'.kv, w')
    | refused e ↦ (err e, w')
    | lost e ↦ (err e, w')
  ]

  pub read_lem :
      {A : Type 0} (answer : etcd.Kv → Result A) (w : World etcd)
      → IsWire w.fates
      → IsRead answer w (read etcd answer w)
  unfolding read next_fate first_fate
  read_lem answer w h = cases w.fates h
    where
      cases :
          (fs : List Fate)
          → IsWire fs
          → IsRead answer w (read_step answer (first_fate etcd fs w).0 (first_fate etcd fs w).1)
      cases [] h' = (h, refl, inl refl)
      cases (answered ∷ fs) h' = (IsWire-tail answered fs h', refl, inl refl)
      cases (refused e ∷ fs) h' =
          (IsWire-tail (refused e) fs h', refl, inr (e, refl, h' e (inl (In.here refl))))
      cases (lost e ∷ fs) h' =
          (IsWire-tail (lost e) fs h', refl, inr (e, refl, h' e (inr (In.here refl))))

  pub lock_lem :
      (w : World etcd) → IsWire w.fates → IsWire (lock etcd w).1.fates × ((lock etcd w).1.kv ≡ w.kv)
  unfolding lock
  lock_lem w h =
      cases (read etcd (λ kv. ok tt) w).0 (read etcd (λ kv. ok tt) w).1 (read_lem (λ kv. ok tt) w h)
    where
      cases :
          (r : Result (Unit {0})) (w' : World etcd)
          → IsRead (λ kv. ok tt) w (r, w')
          → IsWire (continue r (λ u. read etcd (λ kv. ok tt)) w').1.fates
            × ((continue r (λ u. read etcd (λ kv. ok tt)) w').1.kv ≡ w.kv)
      cases (ok u) w' h = let r = read_lem (λ kv. ok tt) w' h.0 in (r.0, r.1 ∙ h.1)
      cases (err e) w' h = (h.0, h.1)
      cases panic w' h = (h.0, h.1)
