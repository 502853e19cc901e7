-- ===== src/Manager/Membership/Sweep.antt =====
-- What one removal, one report on the quorum and one sweep do (pkg/manager/membership.go).
use e2d.Manager.Membership.{Membership, Removal, remove_member, ensure_quorum, sweep, tick}
use e2d.Prelude.{
  bool_eq→eq, bool_eq, ℕ, ◌+◌, ◌≤◌, ◌≡◌, refl, sym, ap, ◌∙◌, inl, inr, Bool, true, false, Option,
  none, some, [], ◌∷◌, arith, ltb, if◌then◌else◌, Bool-cases, In, In-append_left, In-append_right,
  In-append, Text, str_eq_refl, Error, Assoc, lookup, lookup-delete, In-delete,
}

module _ (fn : Text → Option Error) (name : Text) (c : Membership) where
  pub remove_member_keeps :
      ((remove_member fn name c).state.has_quorum ≡ c.has_quorum)
      × ((remove_member fn name c).state.timeout ≡ c.timeout)
  unfolding remove_member
  remove_member_keeps = ground arith

  pub In-remove_member :
      (n : Text) (t : ℕ) → In (n, t) (remove_member fn name c).state.suspects → In (n, t) c.suspects
  unfolding remove_member
  In-remove_member n t h = cases c.has_quorum (fn name) h
    where
      cases :
          (b : Bool) (o : Option Error)
          → In
              (n, t)
              (if b
                then e2d.Manager.Membership.after_fn name c o
                else record { state = c; evicted = []; error = none }).state.suspects
          → In (n, t) c.suspects
      cases true none h = (In-delete name n t c.suspects h).0
      cases true (some e) h = h
      cases false o h = h

  pub evicted_of_remove_member :
      (n : Text) → In n (remove_member fn name c).evicted → (n ≡ name) × (c.has_quorum ≡ true)
  unfolding remove_member
  evicted_of_remove_member n h = cases c.has_quorum (fn name) refl h
    where
      cases :
          (b : Bool) (o : Option Error)
          → c.has_quorum ≡ b
          → In n
              (if b
                then e2d.Manager.Membership.after_fn name c o
                else record { state = c; evicted = []; error = none }).evicted
          → (n ≡ name) × (c.has_quorum ≡ true)
      cases true none q (In.here p) = (p, q)
      cases true none q (In.there m) = elim m [ ]
      cases true (some e) q (In.here p) = (p, q)
      cases true (some e) q (In.there m) = elim m [ ]
      cases false o q m = elim m [ ]

  -- A name that is no suspect does not become one by a removal.
  pub lookup-remove_member-none :
      (n : Text)
      → lookup n c.suspects ≡ none
      → lookup n (remove_member fn name c).state.suspects ≡ none
  unfolding remove_member
  lookup-remove_member-none n h = ground (arith, lookup-delete name n c.suspects)

-- Without a change the suspects stay; with one they are forgotten.
pub In-ensure_quorum :
    (q : Bool) (c : Membership) (e : Text × ℕ)
    → In e (ensure_quorum q c).0.suspects
    → (q ≡ c.has_quorum) × In e c.suspects
unfolding ensure_quorum
In-ensure_quorum q c e h = cases (bool_eq q c.has_quorum) refl h
  where
    cases :
        (b : Bool)
        → bool_eq q c.has_quorum ≡ b
        → In e
            (if b
              then (let r : Membership × Bool = (c, c.has_quorum) in r)
              else (record c { has_quorum = q; suspects = [] }, q)).0.suspects
        → (q ≡ c.has_quorum) × In e c.suspects
    cases true p h = (bool_eq→eq q c.has_quorum p, h)
    cases false p h = elim h [ ]

pub ensure_quorum_lem :
    (q : Bool) (c : Membership)
    → ((ensure_quorum q c).0.has_quorum ≡ q) × ((ensure_quorum q c).0.timeout ≡ c.timeout)
unfolding ensure_quorum
ensure_quorum_lem q c = ground arith

module _ (fn : Text → Option Error) (now : ℕ) where
  pub sweep_keeps :
      (l : Assoc ℕ) (c : Membership)
      → ((sweep fn now l c).0.has_quorum ≡ c.has_quorum)
        × ((sweep fn now l c).0.timeout ≡ c.timeout)
  unfolding sweep
  sweep_keeps [] c = (refl, refl)
  sweep_keeps ((name, t) ∷ rest) c = ground (
    arith,
    sweep_keeps rest c,
    sweep_keeps rest (remove_member fn name c).state,
    remove_member_keeps fn name c,
  )

  pub In-sweep :
      (l : Assoc ℕ) (c : Membership) (n : Text) (t : ℕ)
      → In (n, t) (sweep fn now l c).0.suspects
      → In (n, t) c.suspects
  unfolding sweep
  In-sweep [] c n t h = h
  In-sweep ((name, u) ∷ rest) c n t h = elim (Bool-cases (ltb now (u + c.timeout))) [
    | inl e ↦ In-sweep rest c n t (rw e at h)
    | inr e ↦
        In-remove_member fn name c n t
          (In-sweep rest (remove_member fn name c).state n t (rw e at h))
  ]

  -- What a sweep evicts is an entry that it was given whose time is up, and there is a quorum.
  pub evicted_of_sweep :
      (l : Assoc ℕ) (c : Membership) (n : Text)
      → In n (sweep fn now l c).1
      → (t : ℕ) × In (n, t) l × (t + c.timeout ≤ now) × (c.has_quorum ≡ true)
  unfolding sweep
  evicted_of_sweep [] c n h = elim h [ ]
  evicted_of_sweep ((name, u) ∷ rest) c n h = elim (Bool-cases (ltb now (u + c.timeout))) [
    | inl e ↦ let r = evicted_of_sweep rest c n (rw e at h) in (r.0, In.there r.1, r.2, r.3)
    | inr e ↦ elim (In-append (remove_member fn name c).evicted _ (rw e at h)) [
      | inl now_evicted ↦
          let p = evicted_of_remove_member fn name c n now_evicted in
          (u, In.here (λ i. (p.0 i, u)), ground arith, p.1)
      | inr later ↦
          let r = evicted_of_sweep rest (remove_member fn name c).state n later in
          let k = remove_member_keeps fn name c in (r.0, In.there r.1, rw k.1 at r.2, sym k.0 ∙ r.3)
    ]
  ]

  pub lookup-sweep-none :
      (l : Assoc ℕ) (c : Membership) (n : Text)
      → lookup n c.suspects ≡ none
      → lookup n (sweep fn now l c).0.suspects ≡ none
  unfolding sweep
  lookup-sweep-none [] c n h = h
  lookup-sweep-none ((name, u) ∷ rest) c n h = elim (Bool-cases (ltb now (u + c.timeout))) [
    | inl e ↦ rw e (lookup-sweep-none rest c n h)
    | inr e ↦ rw e (
        lookup-sweep-none rest (remove_member fn name c).state n
          (lookup-remove_member-none fn name c n h))
  ]

-- A removal under a quorum that `fn` performs.
pub remove_member_done :
    (fn : Text → Option Error) (n : Text) (c : Membership)
    → c.has_quorum ≡ true
    → fn n ≡ none
    → ((remove_member fn n c).evicted ≡ n ∷ [])
      × (lookup n (remove_member fn n c).state.suspects ≡ none)
unfolding remove_member
remove_member_done fn n c q f = ground (arith, lookup-delete n n c.suspects, str_eq_refl n)

-- A sweep under a quorum evicts each entry whose time is up, if `fn` performs it.
pub sweep_evicts :
    (fn : Text → Option Error) (now : ℕ) (l : Assoc ℕ) (c : Membership) (n : Text) (t : ℕ)
    → c.has_quorum ≡ true
    → fn n ≡ none
    → In (n, t) l
    → t + c.timeout ≤ now
    → In n (sweep fn now l c).1 × (lookup n (sweep fn now l c).0.suspects ≡ none)
unfolding sweep
sweep_evicts fn now [] c n t q f m le = elim m [ ]
sweep_evicts fn now ((name, u) ∷ rest) c n t q f (In.here p) le =
    let d = remove_member_done fn n c q f in
    let not_yet : ltb now (t + c.timeout) ≡ false = ground arith in
    rw (← ap (λ (x : Text × ℕ). x.0) p, ← ap (λ (x : Text × ℕ). x.1) p, not_yet)
      (
        In-append_left {xs = (remove_member fn n c).evicted} _ (rw d.0 (In.here refl)),
        lookup-sweep-none fn now rest (remove_member fn n c).state n d.1,
      )
sweep_evicts fn now ((name, u) ∷ rest) c n t q f (In.there m) le =
    elim (Bool-cases (ltb now (u + c.timeout))) [
      | inl e ↦ rw e (sweep_evicts fn now rest c n t q f m le)
      | inr e ↦
          let k = remove_member_keeps fn name c in
          let r =
            sweep_evicts fn now rest (remove_member fn name c).state n t (k.0 ∙ q) f m
              (rw k.1 le) in
          rw e (In-append_right _ r.0, r.1)
    ]

-- Without a quorum nothing is evicted.
pub no_quorum_evicts :
    (fn : Text → Option Error) (name : Text) (c : Membership)
    → c.has_quorum ≡ false
    → remove_member fn name c ≡ record { state = c; evicted = []; error = none }
unfolding remove_member
no_quorum_evicts fn name c h = rw h refl

pub no_quorum_sweep :
    (fn : Text → Option Error) (now : ℕ) (l : Assoc ℕ) (c : Membership)
    → c.has_quorum ≡ false
    → sweep fn now l c ≡ (c, [])
unfolding sweep
no_quorum_sweep fn now [] c h = refl
no_quorum_sweep fn now ((name, u) ∷ rest) c h = ground (
  arith,
  no_quorum_evicts fn name c,
  no_quorum_sweep fn now rest c,
  no_quorum_sweep fn now rest (remove_member fn name c).state,
)
