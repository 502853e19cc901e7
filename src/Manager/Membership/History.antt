-- ===== src/Manager/Membership/History.antt =====
-- Which members a history of events can evict (pkg/manager/membership.go).
use e2d.Manager.Membership.Sweep.{
  remove_member_keeps, In-remove_member, In-ensure_quorum, ensure_quorum_lem, sweep_keeps, In-sweep,
  remove_member_done, sweep_evicts,
}
use e2d.Manager.Membership.{
  Membership, new_cluster_membership, add_suspect, remove_suspect, remove_member, ensure_quorum,
  tick,
}
use e2d.Prelude.{
  In-insert, ℕ, ◌≡◌, refl, ◌∙◌, inl, inr, Bool, false, Option, List, [], ◌∷◌, In, Text, str_eq,
  str_eq_refl, Error, In-delete, Assoc, lookup, none, true, ◌≢◌, ◌+◌, ◌<◌, ◌≤◌, ltb, Bool-cases,
  arith, ap, sym, subst, ◌∷◌,
}

-- The calls that the manager and the ticker make.
pub data Event : Type 0 where
  suspect : Text → ℕ → Event
  clear : Text → Event
  quorum : Bool → Event
  remove : (Text → Option Error) → Text → Event
  ticked : (Text → Option Error) → ℕ → Event

unfoldable pub step : Event → Membership → Membership × List Text
step (suspect name now) c = (add_suspect name now c, [])
step (clear name) c = (remove_suspect name c, [])
step (quorum q) c = ((ensure_quorum q c).0, [])
step (remove fn name) c = let r = remove_member fn name c in (r.state, r.evicted)
step (ticked fn now) c = tick fn now c

-- The state after a history, the latest event first.
unfoldable pub after : ℕ → List Event → Membership
after d [] = new_cluster_membership d
after d (e ∷ es) = (step e (after d es)).0

-- The events that leave alone the suspicion of `name` that arose at `t`, in a state with the timeout
-- `d` and the quorum `q`. A removal of `name` under a quorum that `fn` performs clears it, and so does
-- a tick when the timeout has passed.
abbrev pub Spares : ℕ → Text → ℕ → Bool → Event → Type 0
Spares d name t q (suspect n now) = str_eq name n ≡ false
Spares d name t q (clear n) = str_eq name n ≡ false
Spares d name t q (quorum q') = q' ≡ q
Spares d name t q (remove fn n) = name ≡ n → q ≡ true → fn n ≢ none
Spares d name t q (ticked fn now) = q ≡ true → fn name ≡ none → now < t + d

-- `name` was suspected at time `t`, and nothing since has cleared or renewed that, neither a removal
-- nor a tick has evicted `name`, and nothing has changed whether there is a quorum.
pub data Suspected (d : ℕ) (name : Text) (t : ℕ) : List Event → Type 0 where
  begun : {es : List Event} → Suspected d name t (suspect name t ∷ es)
  kept :
      {es : List Event} (e : Event)
      → Suspected d name t es
      → Spares d name t (after d es).has_quorum e
      → Suspected d name t (e ∷ es)

-- The latest report on the quorum; before any, there is none.
unfoldable pub last_quorum : List Event → Bool
last_quorum [] = false
last_quorum (quorum q ∷ es) = q
last_quorum (suspect _ _ ∷ es) = last_quorum es
last_quorum (clear _ ∷ es) = last_quorum es
last_quorum (remove _ _ ∷ es) = last_quorum es
last_quorum (ticked _ _ ∷ es) = last_quorum es

pub timeout-after : (d : ℕ) (es : List Event) → (after d es).timeout ≡ d
unfolding after step new_cluster_membership add_suspect remove_suspect tick
timeout-after d [] = refl
timeout-after d (suspect n now ∷ es) = timeout-after d es
timeout-after d (clear n ∷ es) = timeout-after d es
timeout-after d (quorum q ∷ es) = (ensure_quorum_lem q (after d es)).1 ∙ timeout-after d es
timeout-after d (remove fn n ∷ es) = (remove_member_keeps fn n (after d es)).1 ∙ timeout-after d es
timeout-after d (ticked fn now ∷ es) =
    (sweep_keeps fn now (after d es).suspects (after d es)).1 ∙ timeout-after d es

-- The quorum that the state remembers is the one that was last reported.
pub has_quorum-after : (d : ℕ) (es : List Event) → (after d es).has_quorum ≡ last_quorum es
unfolding after step new_cluster_membership add_suspect remove_suspect tick last_quorum
has_quorum-after d [] = refl
has_quorum-after d (suspect n now ∷ es) = has_quorum-after d es
has_quorum-after d (clear n ∷ es) = has_quorum-after d es
has_quorum-after d (quorum q ∷ es) = (ensure_quorum_lem q (after d es)).0
has_quorum-after d (remove fn n ∷ es) =
    (remove_member_keeps fn n (after d es)).0 ∙ has_quorum-after d es
has_quorum-after d (ticked fn now ∷ es) =
    (sweep_keeps fn now (after d es).suspects (after d es)).0 ∙ has_quorum-after d es

lookup-none-In : (n : Text) (t : ℕ) (l : Assoc ℕ) → lookup n l ≡ none → ¬ In (n, t) l
unfolding lookup
lookup-none-In n t [] h i = elim i [ ]
lookup-none-In n t ((m, u) ∷ l) h (In.here e) =
    let same : n ≡ m = ap (λ (p : Text × ℕ). p.0) e in absurd (cc (rw (same, str_eq_refl m) at h))
lookup-none-In n t ((m, u) ∷ l) h (In.there i) = elim (Bool-cases (str_eq m n)) [
  | inl e ↦ absurd (cc (rw e at h))
  | inr e ↦ lookup-none-In n t l (rw e at h) i
]

-- Every entry of `suspects` has a suspicion behind it that nothing has cleared.
pub Suspected-of_In :
    (d : ℕ) (es : List Event) (n : Text) (t : ℕ)
    → In (n, t) (after d es).suspects
    → Suspected d n t es
unfolding after step new_cluster_membership add_suspect remove_suspect tick
Suspected-of_In d [] n t h = elim (h) [ ]
Suspected-of_In d (suspect m now ∷ es) n t h = elim (In-insert m n now t (after d es).suspects h) [
  | inl p ↦ rw (p.0, p.1) Suspected.begun
  | inr p ↦ Suspected.kept (suspect m now) (Suspected-of_In d es n t p.0) p.1
]
Suspected-of_In d (clear m ∷ es) n t h =
    let p = In-delete m n t (after d es).suspects h in
    Suspected.kept (clear m) (Suspected-of_In d es n t p.0) p.1
Suspected-of_In d (quorum q ∷ es) n t h =
    let p = In-ensure_quorum q (after d es) (n, t) h in
    Suspected.kept (quorum q) (Suspected-of_In d es n t p.1) p.0
Suspected-of_In d (remove fn m ∷ es) n t h =
    Suspected.kept (remove fn m)
      (Suspected-of_In d es n t (In-remove_member fn m (after d es) n t h))
      (λ e q f.
        lookup-none-In n t (remove_member fn m (after d es)).state.suspects
          (ap (λ x. lookup x (remove_member fn m (after d es)).state.suspects) e
            ∙ (remove_member_done fn m (after d es) q f).1)
          h)
Suspected-of_In d (ticked fn now ∷ es) n t h =
    Suspected.kept (ticked fn now)
      (Suspected-of_In d es n t (In-sweep fn now (after d es).suspects (after d es) n t h))
      (λ q f. elim (Bool-cases (ltb now (t + d))) [
        | inl e ↦ ground arith
        | inr e ↦
            let c = after d es in
            let before = In-sweep fn now c.suspects c n t h in
            let late : t + c.timeout ≤ now =
              subst (λ w. t + w ≤ now) (sym (timeout-after d es)) (ground arith) in
            absurd (
              lookup-none-In n t (tick fn now c).0.suspects
                (sweep_evicts fn now c.suspects c n t q f before late).1 h)
      ])
