-- ===== src/Manager/Gossip/Views.antt =====
-- How a status spreads, and which members count as running (pkg/manager/gossip.go).
use mathlib.Core.List.{append_cancel_left}
use e2d.Manager.Gossip.{
  NodeStatus, running, status_eq, Member, StatusMsg, Gob, Gossip, update, overlay, member_of,
  members, running_members, notify_msg,
}
use e2d.Prelude.{
  lookup-insert, str_eq_iff, In-select, select-In, ◌≡◌, refl, sym, ap, ◌∙◌, ◌≢◌, ◌↔◌, ◌⊎◌, inl, inr,
  true, Option, none, some, List, [], ◌∷◌, ◌++◌, arith, Option-cases, In, Text, str_eq_iff, Assoc,
  lookup, insert, lookup-insert,
}

-- What is relied on of `gob`: a message that was written is read back as it was, and is not empty.
pub record IsFaithful (gob : Gob) : Type 0 where
  pub back : (n : StatusMsg) (t : Text) → gob.encode_msg n ≡ some t → gob.decode_msg t ≡ some n
  pub filled : (n : StatusMsg) → gob.encode_msg n ≢ some []

-- A member of the list is one that a node sent, with the status that was told of it since, if any.
pub data IsListed (gob : Gob) (g : Gossip) (metas : List (Option Text)) (m : Member) : Type 0 where
  told :
      (t : Text) (sent : Member) (s : NodeStatus)
      → In (some t) metas
      → gob.unmarshal t ≡ some sent
      → lookup sent.name g.nodes ≡ some s
      → m ≡ record sent { status = s }
      → IsListed gob g metas m
  untold :
      (t : Text) (sent : Member)
      → In (some t) metas
      → gob.unmarshal t ≡ some sent
      → lookup sent.name g.nodes ≡ none
      → m ≡ sent
      → IsListed gob g metas m

In-option_cons :
    (o : Option Member) (m : Member) (rest : List Member)
    → In m (elim o [ none ↦ rest | some x ↦ x ∷ rest ])
    → (o ≡ some m) ⊎ In m rest
In-option_cons none m rest h = inr h
In-option_cons (some x) m rest (In.here p) = inl (ap some (sym p))
In-option_cons (some x) m rest (In.there h) = inr h

option_cons-here :
    (o : Option Member) (m : Member) (rest : List Member)
    → o ≡ some m
    → In m (elim o [ none ↦ rest | some x ↦ x ∷ rest ])
option_cons-here none m rest h = cc
option_cons-here (some x) m rest h = In.here (cc)

option_cons-there :
    (o : Option Member) (m : Member) (rest : List Member)
    → In m rest
    → In m (elim o [ none ↦ rest | some x ↦ x ∷ rest ])
option_cons-there none m rest h = h
option_cons-there (some x) m rest h = In.there h

running_status : (s : NodeStatus) → status_eq s running ≡ true → s ≡ running
running_status s h = ground arith

module _ (gob : Gob) (g : Gossip) where
  IsListed-there :
      (meta : Option Text) (metas : List (Option Text)) (m : Member)
      → IsListed gob g metas m
      → IsListed gob g (meta ∷ metas) m
  IsListed-there meta metas m (IsListed.told t sent s i u l e) =
      IsListed.told t sent s (In.there i) u l e
  IsListed-there meta metas m (IsListed.untold t sent i u l e) =
      IsListed.untold t sent (In.there i) u l e

  IsListed-member_of :
      (meta : Option Text) (metas : List (Option Text)) (m : Member)
      → member_of gob g.nodes meta ≡ some m
      → IsListed gob g (meta ∷ metas) m
  unfolding member_of overlay
  IsListed-member_of none metas m h = cc
  IsListed-member_of (some t) metas m h = sent_cases (gob.unmarshal t) refl h
    where
      told_cases :
          (sent : Member) (o : Option NodeStatus)
          → gob.unmarshal t ≡ some sent
          → lookup sent.name g.nodes ≡ o
          → ◌≡◌ {A = Option Member}
              (some (elim o [ none ↦ sent | some status ↦ record sent { status = status } ]))
              (some m)
          → IsListed gob g (some t ∷ metas) m
      told_cases sent none u l e = IsListed.untold t sent (In.here refl) u l (cc)
      told_cases sent (some s) u l e = IsListed.told t sent s (In.here refl) u l (cc)

      sent_cases :
          (o : Option Member)
          → gob.unmarshal t ≡ o
          → ◌≡◌ {A = Option Member}
              (elim o [ none ↦ none | some sent ↦ some (overlay gob g.nodes sent) ])
              (some m)
          → IsListed gob g (some t ∷ metas) m
      sent_cases none u e = absurd (cc)
      sent_cases (some sent) u e = told_cases sent (lookup sent.name g.nodes) u refl e

  members-IsListed :
      (metas : List (Option Text)) (m : Member)
      → In m (members gob metas g)
      → IsListed gob g metas m
  unfolding members
  members-IsListed [] m h = elim h [ ]
  members-IsListed (meta ∷ metas) m h =
      elim (In-option_cons (member_of gob g.nodes meta) m (members gob metas g) h) [
        | inl e ↦ IsListed-member_of meta metas m e
        | inr r ↦ IsListed-there meta metas m (members-IsListed metas m r)
      ]

  member_of_told :
      (t : Text) (sent m : Member) (s : NodeStatus)
      → gob.unmarshal t ≡ some sent
      → lookup sent.name g.nodes ≡ some s
      → m ≡ record sent { status = s }
      → member_of gob g.nodes (some t) ≡ some m
  unfolding member_of overlay
  member_of_told t sent m s u l e = ground arith

  member_of_untold :
      (t : Text) (sent m : Member)
      → gob.unmarshal t ≡ some sent
      → lookup sent.name g.nodes ≡ none
      → m ≡ sent
      → member_of gob g.nodes (some t) ≡ some m
  unfolding member_of overlay
  member_of_untold t sent m u l e = ground arith

  In-members :
      (metas : List (Option Text)) (meta : Option Text) (m : Member)
      → In meta metas
      → member_of gob g.nodes meta ≡ some m
      → In m (members gob metas g)
  unfolding members
  In-members (x ∷ metas) meta m (In.here p) e =
      option_cons-here (member_of gob g.nodes x) m (members gob metas g) (rw (← p) e)
  In-members (x ∷ metas) meta m (In.there i) e =
      option_cons-there (member_of gob g.nodes x) m (members gob metas g)
        (In-members metas meta m i e)
  In-members [] meta m i e = elim i [ ]

  pub IsListed-members :
      (metas : List (Option Text)) (m : Member)
      → IsListed gob g metas m
      → In m (members gob metas g)
  IsListed-members metas m (IsListed.told t sent s i u l e) =
      In-members metas (some t) m i (member_of_told t sent m s u l e)
  IsListed-members metas m (IsListed.untold t sent i u l e) =
      In-members metas (some t) m i (member_of_untold t sent m u l e)

  -- The running members are exactly the members that some node's metadata describe and whose
  -- status, the told one if any was told and else the one in the metadata, is running.
  pub running_members_iff :
      (metas : List (Option Text)) (m : Member)
      → In m (running_members gob metas g) ↔ (IsListed gob g metas m × (m.status ≡ running))
  unfolding running_members
  running_members_iff metas m = (
    λ h.
        let p = In-select (λ x. status_eq x.status running) (members gob metas g) m h in
        (members-IsListed metas m p.0, running_status m.status p.1),
    λ h.
        select-In (λ x. status_eq x.status running) (members gob metas g) m
          (IsListed-members metas m h.0) (rw h.1 refl),
  )

module _ (gob : Gob) (faithful : IsFaithful gob) where
  sent_msg :
      (status : NodeStatus) (a a' : Gossip)
      → update gob status a ≡ (a', none)
      → (x : Text) × (gob.encode_msg (record { name = a.self.name; status = status }) ≡ some x)
        × (a'.broadcasts ≡ a.broadcasts ++ x ∷ [])
  unfolding update
  sent_msg status a a' h =
      elim (Option-cases (gob.encode_msg (record { name = a.self.name; status = status }))) [
        | inl e ↦ absurd (ground (arith, e))
        | inr p ↦ (p.0, p.1, ground (arith, p.1))
      ]

  nodes-notify_msg :
      (t : Text) (b : Gossip) (n : StatusMsg)
      → gob.encode_msg n ≡ some t
      → (notify_msg gob t b).nodes ≡ insert n.name n.status b.nodes
  unfolding notify_msg
  nodes-notify_msg [] b n e = absurd (faithful.filled n e)
  nodes-notify_msg (c ∷ t) b n e = rw (faithful.back n (c ∷ t) e, notify_msg) refl

  told_status :
      (g : Gossip) (name : Text) (status : NodeStatus) (old : Assoc NodeStatus)
      (metas : List (Option Text)) (m : Member)
      → g.nodes ≡ insert name status old
      → IsListed gob g metas m
      → m.name ≡ name
      → m.status ≡ status
  told_status g name status old metas m e (IsListed.told t sent s i u l p) n = ground (
    arith,
    lookup-insert name sent.name status old,
    str_eq_iff name sent.name,
    ap (λ x. lookup sent.name x) e,
  )
  told_status g name status old metas m e (IsListed.untold t sent i u l p) n = absurd (
      ground (
        arith,
        lookup-insert name sent.name status old,
        str_eq_iff name sent.name,
        ap (λ x. lookup sent.name x) e,
      ))

  -- Once the message of a member's update has reached another member, every member of that name in
  -- the other's list has the status of the update, whatever its metadata still say.
  pub members-notify_msg-update :
      (status : NodeStatus) (a b a' : Gossip) (t : Text) (metas : List (Option Text)) (m : Member)
      → update gob status a ≡ (a', none)
      → a'.broadcasts ≡ a.broadcasts ++ t ∷ []
      → In m (members gob metas (notify_msg gob t b))
      → m.name ≡ a.self.name
      → m.status ≡ status
  members-notify_msg-update status a b a' t metas m h e i n =
      let q = sent_msg status a a' h in
      let same : q.0 ∷ [] ≡ t ∷ [] =
        append_cancel_left a.broadcasts (q.0 ∷ []) (t ∷ []) (sym q.2 ∙ e) in
      told_status (notify_msg gob t b) a.self.name status b.nodes metas m
        (nodes-notify_msg t b (record { name = a.self.name; status = status }) (q.1 ∙ cc same))
        (members-IsListed gob (notify_msg gob t b) metas m i) n
