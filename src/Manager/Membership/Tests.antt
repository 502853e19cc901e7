-- ===== src/Manager/Membership/Tests.antt =====
-- Evictions on small histories.
use e2d.Manager.Membership.{
  Membership, sweep, tick, remove_member, new_cluster_membership, add_suspect, ensure_quorum,
}
use e2d.Manager.Membership.History.{
  Event, suspect, quorum, ticked, step, after, Suspected, last_quorum,
}
use e2d.Manager.Membership.Eviction.{ticked-Suspected, evicted-last_quorum, tick_evicts}
use e2d.Prelude.{
  ℕ, ◌+◌, ◌≤◌, ◌≡◌, refl, true, false, Option, none, List, [], ◌∷◌, arith, In, Text, codes, Error,
  lookup, delete, insert,
}

abbrev node_a : Text
node_a = codes "a"

abbrev always : Text → Option Error
always _ = none

abbrev left : List Event
left = suspect node_a 10 ∷ quorum true ∷ []

evicts_at_timeout : (step (ticked always 15) (after 5 left)).1 ≡ node_a ∷ []
unfolding step after tick sweep remove_member new_cluster_membership add_suspect ensure_quorum
    insert delete
evicts_at_timeout = refl

waits_until_timeout : (step (ticked always 14) (after 5 left)).1 ≡ []
unfolding step after tick sweep remove_member new_cluster_membership add_suspect ensure_quorum
    insert delete
waits_until_timeout = refl

forgets_on_quorum_change :
    (step (ticked always 99) (after 5 (quorum true ∷ quorum false ∷ left))).1 ≡ []
unfolding step after tick sweep remove_member new_cluster_membership add_suspect ensure_quorum
    insert delete
forgets_on_quorum_change = refl

ticked-Suspected_example :
    (t : ℕ) × Suspected 5 node_a t left × (t + 5 ≤ 15) × (last_quorum left ≡ true)
ticked-Suspected_example =
    ticked-Suspected 5 left always 15 node_a (rw evicts_at_timeout (In.here refl))

evicted-last_quorum_example : last_quorum left ≡ true
evicted-last_quorum_example =
    evicted-last_quorum 5 left (ticked always 15) node_a (rw evicts_at_timeout (In.here refl))

abbrev waiting : Membership
waiting = record { timeout = 5; suspects = (node_a, 10) ∷ []; has_quorum = true }

tick_evicts_example :
    In node_a (tick always 15 waiting).1
    × (lookup node_a (tick always 15 waiting).0.suspects ≡ none)
tick_evicts_example = tick_evicts always 15 waiting node_a 10 refl refl (In.here refl) (omega arith)
