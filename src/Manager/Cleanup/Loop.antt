-- ===== src/Manager/Cleanup/Loop.antt =====
-- The cleanup loop over any events and ticks (pkg/manager/manager.go).
use e2d.Manager.Membership.{
  Membership, new_cluster_membership, add_suspect, remove_suspect, remove_member, ensure_quorum,
  tick,
}
use e2d.Manager.Membership.Sweep.{
  In-remove_member, evicted_of_remove_member, In-ensure_quorum, In-sweep, evicted_of_sweep,
}
use e2d.Manager.Gossip.{Member, Gob, Gossip}
use e2d.Manager.Cleanup.{
  EtcdMember, EventKind, node_join, node_leave, node_update, NodeEvent, CleanupConfig,
  lookup_member_name_by_peer_addr, on_join, on_event, about_member, is_majority, handle_event,
}
use e2d.Prelude.{
  In-insert, ℕ, ◌≡◌, refl, sym, ap, ◌∙◌, ◌≢◌, inl, inr, Bool, true, false, false≢true, Option, none,
  some, List, [], ◌∷◌, ◌++◌, if◌then◌else◌, ◌==◌, All, In, In-append, Text, str_eq, str_eq_iff,
  Error, Result, ok, err, panic, In-delete,
}

-- What the two goroutines over one `clusterMembership` do.
pub data LoopEvent : Type 0 where
  gossiped :
      List (Option Text)
      → Gossip
      → List EtcdMember
      → (Text → Option Error)
      → ℕ
      → NodeEvent
      → LoopEvent
  ticked : (Text → Option Error) → ℕ → LoopEvent

-- No entry of the suspects has the name.
abbrev pub IsAbsent : Text → Membership → Type 0
IsAbsent own c = (t : ℕ) → ¬ In (own, t) c.suspects

module _ (gob : Gob) (cfg : CleanupConfig) where
  unfoldable pub step : LoopEvent → Membership → Membership × List Text
  step (gossiped metas g ms fn now ev) c = handle_event gob cfg metas g ms fn now ev c
  step (ticked fn now) c = tick fn now c

  -- The events in their order; the second result is everybody who was evicted.
  unfoldable pub loop : List LoopEvent → Membership → Membership × List Text
  unfolding step
  loop [] c = (c, [])
  loop (e ∷ es) c = let r = step e c in let rest = loop es r.0 in (rest.0, r.1 ++ rest.1)

  ticks_of : List LoopEvent → List LoopEvent
  ticks_of [] = []
  ticks_of (gossiped metas g ms fn now ev ∷ es) = ticks_of es
  ticks_of (ticked fn now ∷ es) = ticked fn now ∷ ticks_of es

  -- `runMembershipCleanup` beside the ticker: in a cluster of one member it handles no event.
  unfoldable pub run_membership_cleanup : List LoopEvent → Membership → Membership × List Text
  unfolding ticks_of
  run_membership_cleanup es c =
      let all = loop es c in if cfg.required_cluster_size == 1 then loop (ticks_of es) c else all

  -- The member called `own` is the only one of its name: whoever gossips under that name does so
  -- from its peer URL, and etcd knows it at no other peer URL.
  abbrev pub IsOwn : Text → LoopEvent → Type 0
  IsOwn own (gossiped metas g ms fn now ev) =
      ((meta : Text) (m : Member)
        → ev.node ≡ some meta
        → gob.unmarshal meta ≡ some m
        → m.name ≡ own
        → m.peer_url ≡ cfg.peer_url)
      × ((addr : Text) → addr ≢ cfg.peer_url → lookup_member_name_by_peer_addr addr ms ≢ ok own)
  IsOwn own (ticked fn now) = Unit

  -- What one round must keep.
  abbrev Spared : Text → Membership × List Text → Type 0
  Spared own r = IsAbsent own r.0 × (¬ In own r.1)

  on_join-Spared :
      (own : Text) (ms : List EtcdMember) (fn : Text → Option Error) (m : Member) (c : Membership)
      → IsAbsent own c
      → lookup_member_name_by_peer_addr m.peer_url ms ≢ ok own
      → Spared own (on_join ms fn m c)
  unfolding on_join remove_suspect
  on_join-Spared own ms fn m c h other_name =
      cases (lookup_member_name_by_peer_addr m.peer_url ms) other_name
    where
      after_removal :
          (old : Text) (b : Bool)
          → (¬ (old ≡ own))
          → Spared own (
              if b
              then (remove_suspect m.name c, [])
              else (let r = remove_member fn old c in (remove_suspect m.name r.state, r.evicted)))
      after_removal old true ne =
          (λ t i. h t (In-delete m.name own t c.suspects i).0, λ i. elim i [ ])
      after_removal old false ne = (
        λ t i. h t (
            In-remove_member fn old c own t
              (In-delete m.name own t (remove_member fn old c).state.suspects i).0),
        λ i. ne (sym (evicted_of_remove_member fn old c own i).0),
      )

      cases :
          (r : Result Text)
          → r ≢ ok own
          → Spared own (elim r [
            | ok old_name ↦
                if str_eq old_name m.name
                then (remove_suspect m.name c, [])
                else (let q = remove_member fn old_name c in
                    (remove_suspect m.name q.state, q.evicted))
            | err e ↦ (remove_suspect m.name c, [])
            | panic ↦ (c, [])
          ])
      cases (ok old) ne = after_removal old (str_eq old m.name) (λ e. ne (ap ok e))
      cases (err e) ne = (λ t i. h t (In-delete m.name own t c.suspects i).0, λ i. elim i [ ])
      cases panic ne = (h, λ i. elim i [ ])

  on_event-Spared :
      (own : Text) (kind : EventKind) (ms : List EtcdMember) (fn : Text → Option Error) (now : ℕ)
      (m : Member) (c : Membership)
      → IsAbsent own c
      → m.name ≢ own
      → lookup_member_name_by_peer_addr m.peer_url ms ≢ ok own
      → Spared own (on_event kind ms fn now m c)
  unfolding on_event add_suspect
  on_event-Spared own node_join ms fn now m c h ne l = on_join-Spared own ms fn m c h l
  on_event-Spared own node_leave ms fn now m c h ne l = (
    λ t i. elim (In-insert m.name own now t c.suspects i) [
      | inl p ↦ ne (sym p.0)
      | inr p ↦ h t p.0
    ],
    λ i. elim i [ ],
  )
  on_event-Spared own node_update ms fn now m c h ne l = (h, λ i. elim i [ ])

  about_member-Spared :
      (own : Text) (o : Option Member) (kind : EventKind) (ms : List EtcdMember)
      (fn : Text → Option Error) (now : ℕ) (c : Membership)
      → IsAbsent own c
      → ((m : Member) → o ≡ some m → m.name ≡ own → m.peer_url ≡ cfg.peer_url)
      → ((addr : Text) → addr ≢ cfg.peer_url → lookup_member_name_by_peer_addr addr ms ≢ ok own)
      → Spared own (about_member gob cfg o kind ms fn now c)
  unfolding about_member
  about_member-Spared own none kind ms fn now c h same other_url = (h, λ i. elim i [ ])
  about_member-Spared own (some m) kind ms fn now c h same other_url =
      cases (str_eq m.peer_url cfg.peer_url) refl
    where
      cases :
          (b : Bool)
          → str_eq m.peer_url cfg.peer_url ≡ b
          → Spared own (if b then (c, []) else on_event kind ms fn now m c)
      cases true e = (h, λ i. elim i [ ])
      cases false e =
          let elsewhere : m.peer_url ≢ cfg.peer_url =
            λ p. false≢true (sym e ∙ (str_eq_iff m.peer_url cfg.peer_url).1 p) in
          on_event-Spared own kind ms fn now m c h (λ p. elsewhere (same m refl p))
            (other_url m.peer_url elsewhere)

  step-Spared :
      (own : Text) (e : LoopEvent) (c : Membership)
      → IsOwn own e
      → IsAbsent own c
      → Spared own (step e c)
  unfolding step handle_event tick
  step-Spared own (gossiped metas g ms fn now ev) c o h = cases ev.node (λ meta m p. o.0 meta m p)
    where
      c1 : Membership
      c1 = (ensure_quorum (is_majority gob cfg metas g) c).0

      cases :
          (node : Option Text)
          → ((meta : Text) (m : Member)
              → node ≡ some meta
              → gob.unmarshal meta ≡ some m
              → m.name ≡ own
              → m.peer_url ≡ cfg.peer_url)
          → Spared own (elim node [
            | none ↦ (c, [])
            | some meta ↦ about_member gob cfg (gob.unmarshal meta) ev.kind ms fn now c1
          ])
      cases none same = (h, λ i. elim i [ ])
      cases (some meta) same =
          about_member-Spared own (gob.unmarshal meta) ev.kind ms fn now c1
            (λ t i. h t (In-ensure_quorum (is_majority gob cfg metas g) c (own, t) i).1)
            (λ m p. same meta m refl p) o.1
  step-Spared own (ticked fn now) c o h = (
    λ t i. h t (In-sweep fn now c.suspects c own t i),
    λ i. let r = evicted_of_sweep fn now c.suspects c own i in h r.0 r.1,
  )

  loop-Spared :
      (own : Text) (es : List LoopEvent) (c : Membership)
      → All (IsOwn own) es
      → IsAbsent own c
      → ¬ In own (loop es c).1
  unfolding loop
  loop-Spared own [] c o h i = elim i [ ]
  loop-Spared own (e ∷ es) c o h i =
      let s = step-Spared own e c o.0 h in
      elim (In-append (step e c).1 _ i) [
        | inl now_evicted ↦ s.1 now_evicted
        | inr later ↦ loop-Spared own es (step e c).0 o.1 s.0 later
      ]

  -- A member whose name and peer URL are its own in all metadata and in etcd never evicts itself,
  -- by whatever events and ticks.
  pub never_evicts_itself :
      (own : Text) (d : ℕ) (es : List LoopEvent)
      → All (IsOwn own) es
      → ¬ In own (loop es (new_cluster_membership d)).1
  unfolding new_cluster_membership
  never_evicts_itself own d es o =
      loop-Spared own es (new_cluster_membership d) o (λ t i. elim i [ ])
