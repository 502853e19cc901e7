-- ===== src/Manager/Cleanup/Quorum.antt =====
-- What the cleanup of a side of a partition may do (pkg/manager/manager.go).
use e2d.Manager.Membership.{Membership, add_suspect, remove_suspect, ensure_quorum, tick}
use e2d.Manager.Membership.Sweep.{
  ensure_quorum_lem, no_quorum_evicts, no_quorum_sweep, remove_member_done,
}
use e2d.Manager.Gossip.{Member, Gob, Gossip, running_members}
use e2d.Manager.Cleanup.{
  EtcdMember, EventKind, node_join, node_leave, node_update, CleanupConfig,
  lookup_member_name_by_peer_addr, on_event, about_member, is_majority, handle_event,
}
use e2d.Prelude.{
  ℕ, ◌+◌, ◌/◌, ◌≤◌, ◌≡◌, refl, ap, ◌∙◌, ◌≢◌, Bool, true, false, Option, none, some, List, [], ◌∷◌,
  arith, ◌⊎◌, inl, inr, leb, Bool-cases, if◌then◌else◌, length, Text, str_eq, str_eq_iff, Error,
  Result, ok, err, panic,
}

on_event-no_quorum :
    (kind : EventKind) (ms : List EtcdMember) (fn : Text → Option Error) (now : ℕ) (m : Member)
    (c : Membership)
    → c.has_quorum ≡ false
    → ((on_event kind ms fn now m c).1 ≡ []) × ((on_event kind ms fn now m c).0.has_quorum ≡ false)
unfolding on_event remove_suspect add_suspect
on_event-no_quorum node_join ms fn now m c h =
    cases (lookup_member_name_by_peer_addr m.peer_url ms) refl
  where
    cases :
        (r : Result Text)
        → lookup_member_name_by_peer_addr m.peer_url ms ≡ r
        → ((on_event node_join ms fn now m c).1 ≡ [])
          × ((on_event node_join ms fn now m c).0.has_quorum ≡ false)
    cases (ok old) e = ground (arith, no_quorum_evicts fn old c)
    cases (err x) e = ground arith
    cases panic e = ground arith
on_event-no_quorum node_leave ms fn now m c h = (refl, h)
on_event-no_quorum node_update ms fn now m c h = (refl, h)

about_member-no_quorum :
    (gob : Gob) (cfg : CleanupConfig) (o : Option Member) (kind : EventKind) (ms : List EtcdMember)
    (fn : Text → Option Error) (now : ℕ) (c : Membership)
    → c.has_quorum ≡ false
    → ((about_member gob cfg o kind ms fn now c).1 ≡ [])
      × ((about_member gob cfg o kind ms fn now c).0.has_quorum ≡ false)
unfolding about_member
about_member-no_quorum gob cfg none kind ms fn now c h = (refl, h)
about_member-no_quorum gob cfg (some m) kind ms fn now c h = cases (str_eq m.peer_url cfg.peer_url)
  where
    cases :
        (b : Bool)
        → (let r : Membership × List Text = if b then (c, []) else on_event kind ms fn now m c in
            (r.1 ≡ []) × (r.0.has_quorum ≡ false))
    cases true = (refl, h)
    cases false = on_event-no_quorum kind ms fn now m c h

-- A member that sees no majority running evicts nobody: not on the event that it handles, and not
-- by a tick after it.
pub minority_evicts_nothing :
    (gob : Gob) (cfg : CleanupConfig) (metas : List (Option Text)) (g : Gossip)
    (ms : List EtcdMember) (fn : Text → Option Error) (now : ℕ) (kind : EventKind) (meta : Text)
    (c : Membership) (fn' : Text → Option Error) (later : ℕ)
    → length (running_members gob metas g) ≤ cfg.required_cluster_size / 2
    → let r = handle_event gob cfg metas g ms fn now (record { kind = kind; node = some meta }) c in
      (r.1 ≡ []) × ((tick fn' later r.0).1 ≡ [])
unfolding handle_event tick
minority_evicts_nothing gob cfg metas g ms fn now kind meta c fn' later h =
    let c1 = (ensure_quorum (is_majority gob cfg metas g) c).0 in
    let minority : c1.has_quorum ≡ false =
      (ensure_quorum_lem (is_majority gob cfg metas g) c).0
      ∙ (unfold is_majority in ground arith) in
    let r = about_member-no_quorum gob cfg (gob.unmarshal meta) kind ms fn now c1 minority in
    (r.0, ap (λ (p : Membership × List Text). p.1) (no_quorum_sweep fn' later _ _ r.1))

-- A round of the cleanup of a member, and a tick that follows it.
pub record Round : Type 0 where
  pub gob : Gob
  pub cfg : CleanupConfig
  pub metas : List (Option Text)
  pub gossip : Gossip
  pub listed : List EtcdMember
  pub fn : Text → Option Error
  pub now : ℕ
  pub kind : EventKind
  pub meta : Text
  pub cluster : Membership
  pub tick_fn : Text → Option Error
  pub later : ℕ

abbrev pub running_in : Round → List Member
running_in r = running_members r.gob r.metas r.gossip

-- Neither the event nor the tick evicts anybody.
abbrev pub EvictsNobody : Round → Type 0
EvictsNobody r =
    let h =
      handle_event r.gob r.cfg r.metas r.gossip r.listed r.fn r.now
        (record { kind = r.kind; node = some r.meta }) r.cluster in
    (h.1 ≡ []) × ((tick r.tick_fn r.later h.0).1 ≡ [])

minority-EvictsNobody :
    (r : Round) → length (running_in r) ≤ r.cfg.required_cluster_size / 2 → EvictsNobody r
minority-EvictsNobody r h =
    minority_evicts_nothing r.gob r.cfg r.metas r.gossip r.listed r.fn r.now r.kind r.meta r.cluster
      r.tick_fn r.later h

-- Of two members of a cluster whose lists of running members together are no longer than its
-- required size, as on two sides of a partition, one at least evicts nobody: not on the event that
-- it handles, and not by a tick after it.
pub one_majority :
    (r r' : Round)
    → r'.cfg.required_cluster_size ≡ r.cfg.required_cluster_size
    → length (running_in r) + length (running_in r') ≤ r.cfg.required_cluster_size
    → EvictsNobody r ⊎ EvictsNobody r'
one_majority r r' same h =
    elim (Bool-cases (leb (length (running_in r)) (r.cfg.required_cluster_size / 2))) [
      | inl e ↦ inl (minority-EvictsNobody r (ground arith))
      | inr e ↦ inr (minority-EvictsNobody r' (rw same (ground arith)))
    ]

-- A node that joins at the peer URL of an etcd member of another name has that member evicted at
-- once, if a majority is running and the removal is performed.
pub join_evicts_old :
    (gob : Gob) (cfg : CleanupConfig) (metas : List (Option Text)) (g : Gossip)
    (ms : List EtcdMember) (fn : Text → Option Error) (now : ℕ) (meta : Text) (m : Member)
    (old_name : Text) (c : Membership)
    → is_majority gob cfg metas g ≡ true
    → gob.unmarshal meta ≡ some m
    → m.peer_url ≢ cfg.peer_url
    → lookup_member_name_by_peer_addr m.peer_url ms ≡ ok old_name
    → old_name ≢ m.name
    → fn old_name ≡ none
    → (handle_event gob cfg metas g ms fn now (record { kind = node_join; node = some meta }) c).1
      ≡ old_name ∷ []
unfolding handle_event
join_evicts_old gob cfg metas g ms fn now meta m old_name c q u own l ne f =
    let c1 = (ensure_quorum (is_majority gob cfg metas g) c).0 in
    let quorum : c1.has_quorum ≡ true = (ensure_quorum_lem (is_majority gob cfg metas g) c).0 ∙ q in
    ground (
      arith,
      u,
      l,
      str_eq_iff m.peer_url cfg.peer_url,
      str_eq_iff old_name m.name,
      remove_member_done fn old_name c1 quorum f,
      own,
      ne,
    )
