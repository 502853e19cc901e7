-- ===== src/Providers/Addrs.antt =====
-- The loop over the nodes that a service lists (GetAutoScalingGroupAddresses and GetAddressesByTag of
-- pkg/provider/aws/client.go, GetAddrsByTag of pkg/provider/digitalocean/client.go).
use e2d.Prelude.{
  ◌≡◌, refl, sym, ap, ◌∙◌, subst, ◌⊎◌, inl, inr, ◌↔◌, Bool, true, false, List, [], ◌∷◌, In, Text,
  Result, ok, err, panic, ok_injective,
}

module _ {I : Type 0} (is_routable : Text → Bool) (is_self : I → Bool)
    (addr_of : I → Result Text) where
  -- The address of a node before those of the others.
  pub with_routable : Text → Bool → List Text → List Text
  with_routable addr true addrs = addr ∷ addrs
  with_routable addr false addrs = addrs

  pub with_addr : Result Text → Result (List Text) → Result (List Text)
  unfolding with_routable
  with_addr (ok addr) (ok addrs) = ok (with_routable addr (is_routable addr) addrs)
  with_addr (ok addr) (err e) = err e
  with_addr (ok addr) panic = panic
  with_addr (err e) rest = err e
  with_addr panic rest = panic

  pub unless_self : Bool → Result Text → Result (List Text) → Result (List Text)
  unfolding with_addr
  unless_self true addr rest = rest
  unless_self false addr rest = with_addr addr rest

  -- The node itself is passed over, and so is an address that is not routable.
  unfoldable pub other_addrs : List I → Result (List Text)
  unfolding unless_self
  other_addrs [] = ok []
  other_addrs (i ∷ is) = unless_self (is_self i) (addr_of i) (other_addrs is)

  -- A node that is listed, is not this one and has a routable address.
  abbrev pub IsOther : List I → Text → Type 0
  IsOther is a =
      (i : I) × In i is × (is_self i ≡ false) × (addr_of i ≡ ok a) × (is_routable a ≡ true)

  later : (i : I) (is : List I) (a : Text) → IsOther is a → IsOther (i ∷ is) a
  later i is a o = (o.0, In.there o.1, o.2, o.3, o.4)

  with_addr_ok :
      (addr : Result Text) (rest : Result (List Text)) (addrs : List Text)
      → with_addr addr rest ≡ ok addrs
      → (a : Text) × (found : List Text) × (addr ≡ ok a)
        × (rest ≡ ok found)
        × (with_routable a (is_routable a) found ≡ addrs)
  unfolding with_addr
  with_addr_ok (ok a) (ok found) addrs h = (a, found, refl, refl, ok_injective h)
  with_addr_ok (ok a) (err e) addrs h = cc
  with_addr_ok (ok a) panic addrs h = cc
  with_addr_ok (err e) rest addrs h = cc
  with_addr_ok panic rest addrs h = cc

  In-with_routable :
      (a x : Text) (b : Bool) (found : List Text)
      → In a (with_routable x b found)
      → ((a ≡ x) × (b ≡ true)) ⊎ In a found
  unfolding with_routable
  In-with_routable a x true found (In.here e) = inl (e, refl)
  In-with_routable a x true found (In.there m) = inr m
  In-with_routable a x false found m = inr m

  with_routable-In :
      (a x : Text) (b : Bool) (found : List Text)
      → ((a ≡ x) × (b ≡ true)) ⊎ In a found
      → In a (with_routable x b found)
  unfolding with_routable
  with_routable-In a x true found (inl (e, k)) = In.here e
  with_routable-In a x true found (inr m) = In.there m
  with_routable-In a x false found (inl (e, k)) = absurd (cc k)
  with_routable-In a x false found (inr m) = m

  -- Of a list with one more node, where `rest` stands for what is known of the others.
  IsOther-head :
      (i : I) (is : List I) (a : Text)
      → IsOther (i ∷ is) a
      → ((is_self i ≡ false) × (addr_of i ≡ ok a) × (is_routable a ≡ true)) ⊎ IsOther is a
  IsOther-head i is a (j, In.here e, self, addr, routable) =
      inl (ap is_self (sym e) ∙ self, ap addr_of (sym e) ∙ addr, routable)
  IsOther-head i is a (j, In.there m, self, addr, routable) = inr (j, m, self, addr, routable)

  unless_self_iff :
      (i : I) (is : List I) (addrs : List Text) (a : Text) (b : Bool)
      → is_self i ≡ b
      → unless_self b (addr_of i) (other_addrs is) ≡ ok addrs
      → ((found : List Text) → other_addrs is ≡ ok found → In a found ↔ IsOther is a)
      → In a addrs ↔ IsOther (i ∷ is) a
  unfolding unless_self
  unless_self_iff i is addrs a true self h rest = (
    λ m. later i is a ((rest addrs h).0 m),
    λ o. elim (IsOther-head i is a o) [
      | inl (other, addr, routable) ↦ absurd (cc (sym self, other))
      | inr o ↦ (rest addrs h).1 o
    ],
  )
  unless_self_iff i is addrs a false self h rest =
      let (x, found, addr, others, all) = with_addr_ok (addr_of i) (other_addrs is) addrs h in
      (
        λ m. elim (In-with_routable a x (is_routable x) found (subst (In a) (sym all) m)) [
          | inl (same, routable) ↦
              (i, In.here refl, self, addr ∙ ap ok (sym same), ap is_routable same ∙ routable)
          | inr m ↦ later i is a ((rest found others).0 m)
        ],
        λ o. subst (In a) all (
            with_routable-In a x (is_routable x) found (elim (IsOther-head i is a o) [
              | inl (other, addr', routable) ↦
                  let same : a ≡ x = ok_injective (sym addr' ∙ addr) in
                  inl (same, ap is_routable (sym same) ∙ routable)
              | inr o ↦ inr ((rest found others).1 o)
            ])),
      )

  none_found : (a : Text) → ¬ In a []
  none_found a m = elim m [ ]

  -- The addresses that are found are exactly the routable ones of the other nodes that are listed.
  pub other_addrs_iff :
      (is : List I) (addrs : List Text) (a : Text)
      → other_addrs is ≡ ok addrs
      → In a addrs ↔ IsOther is a
  unfolding other_addrs
  other_addrs_iff [] addrs a h =
      (λ m. absurd (none_found a (subst (In a) (sym (ok_injective h)) m)), λ o. elim o.1 [ ])
  other_addrs_iff (i ∷ is) addrs a h =
      unless_self_iff i is addrs a (is_self i) refl h (λ found e. other_addrs_iff is found a e)
