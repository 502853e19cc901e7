-- ===== src/Manager/Membership/Eviction.antt =====
-- Who is evicted, and when (pkg/manager/membership.go).
use e2d.Manager.Membership.{Membership, tick}
use e2d.Manager.Membership.Sweep.{evicted_of_remove_member, evicted_of_sweep, sweep_evicts}
use e2d.Manager.Membership.History.{
  Event, suspect, clear, quorum, remove, ticked, step, after, Suspected, last_quorum, timeout-after,
  has_quorum-after, Suspected-of_In,
}
use e2d.Prelude.{
  ℕ, ◌+◌, ◌≤◌, ◌≡◌, sym, ◌∙◌, subst, true, Option, none, List, In, Text, Error, lookup,
}

-- After any history, a tick that evicts `name` at the time `now` finds a suspicion of `name`, at
-- least the timeout old, that since it arose no event has renewed or cleared, no removal or tick has
-- evicted successfully and no change of the quorum has dropped; and the latest report on the quorum
-- said that there is one.
pub ticked-Suspected :
    (d : ℕ) (es : List Event) (fn : Text → Option Error) (now : ℕ) (name : Text)
    → In name (step (ticked fn now) (after d es)).1
    → (t : ℕ) × Suspected d name t es × (t + d ≤ now) × (last_quorum es ≡ true)
unfolding step tick
ticked-Suspected d es fn now name h =
    let r = evicted_of_sweep fn now (after d es).suspects (after d es) name h in
    (
      r.0,
      Suspected-of_In d es name r.0 r.1,
      subst (λ w. r.0 + w ≤ now) (timeout-after d es) r.2,
      sym (has_quorum-after d es) ∙ r.3,
    )

-- After any history, no event evicts a member, directly or by a tick, unless the latest report on
-- the quorum said that there is one.
pub evicted-last_quorum :
    (d : ℕ) (es : List Event) (e : Event) (name : Text)
    → In name (step e (after d es)).1
    → last_quorum es ≡ true
unfolding step tick
evicted-last_quorum d es (suspect n now) name h = elim h [ ]
evicted-last_quorum d es (clear n) name h = elim h [ ]
evicted-last_quorum d es (quorum q) name h = elim h [ ]
evicted-last_quorum d es (remove fn n) name h =
    sym (has_quorum-after d es) ∙ (evicted_of_remove_member fn n (after d es) name h).1
evicted-last_quorum d es (ticked fn now) name h =
    sym (has_quorum-after d es)
    ∙ (evicted_of_sweep fn now (after d es).suspects (after d es) name h).3

-- Under a quorum a tick evicts every suspect whose timeout has passed and whose removal `fn`
-- performs, and it is no suspect afterwards.
pub tick_evicts :
    (fn : Text → Option Error) (now : ℕ) (c : Membership) (name : Text) (t : ℕ)
    → c.has_quorum ≡ true
    → fn name ≡ none
    → In (name, t) c.suspects
    → t + c.timeout ≤ now
    → In name (tick fn now c).1 × (lookup name (tick fn now c).0.suspects ≡ none)
unfolding tick
tick_evicts fn now c name t = sweep_evicts fn now c.suspects c name t
