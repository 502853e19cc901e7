-- ===== src/Manager/Cleanup.antt =====
-- pkg/manager/manager.go, runMembershipCleanup, with the lookups and the removal of
-- pkg/manager/server.go and the remover that New hands to the cluster membership.
--
-- The members of the etcd cluster and the answer of its RemoveMember are parameters.
pub mod Loop
pub mod Quorum
mod Tests
use e2d.Manager.Membership.{
  Membership, Removal, add_suspect, remove_suspect, remove_member, ensure_quorum, tick,
}
use e2d.Manager.Gossip.{Member, Gob, Gossip, running_members}
use e2d.Prelude.{
  In-select, select-In, In-insert, bool_eq→eq, bool_eq, ℕ, zero, suc, ◌+◌, ◌-◌, ◌*◌, ◌/◌, ◌%◌, ◌≤◌,
  ◌<◌, String, ◌≡◌, refl, sym, ap, ◌∙◌, subst, fun_ext, ◌≢◌, ◌↔◌, ◌⊎◌, inl, inr, Bool, true, false,
  not, ◌&&◌, ◌||◌, false≢true, Option, none, some, List, [], ◌∷◌, ◌++◌, map, append-nil,
  append_assoc, arith, ltb, leb, ◌==◌, if◌then◌else◌, Bool-cases, Option-cases, ==_iff, length,
  take, drop, length-append, length-take, take-append, drop-append, take-append-drop, select, all,
  any, All, In, In-append_left, In-append_right, In-append, Text, codes, str_eq, str_eq_refl,
  str_eq_iff, has_prefix, contains, str_lt, trim_prefix, has_prefix-append,
  append-drop_of_has_prefix, contains_of_has_prefix, Error, key_not_found, no_rows, not_indexed,
  invalid_field, field_required, invalid_primary_key, table_not_found, unique_constraint,
  no_primary_key, not_encrypted, malformed_ciphertext, no_encryption_key, message_auth_failed,
  unexpected_eof, invalid_scheme, cannot_parse_url, cannot_find_member, server_stopped, deadline,
  other, Result, ok, err, panic, ◌>>=◌, Assoc, lookup, delete, insert, lookup-delete, lookup-insert,
  In-of_lookup, In-delete,
}

-- A member of the etcd cluster.
pub record EtcdMember : Type 0 where
  pub id : ℕ
  pub name : Text
  pub peer_urls : List Text

unfoldable pub lookup_member : Text → List EtcdMember → Result ℕ
lookup_member name [] = err cannot_find_member
lookup_member name (m ∷ ms) = if str_eq m.name name then ok m.id else lookup_member name ms

unfoldable pub lookup_member_name_by_peer_addr : Text → List EtcdMember → Result Text
lookup_member_name_by_peer_addr addr [] = err cannot_find_member
lookup_member_name_by_peer_addr addr (m ∷ ms) =
    if any (λ url. str_eq url addr) m.peer_urls
    then ok m.name
    else lookup_member_name_by_peer_addr addr ms

-- What etcd answers to RemoveMember.
pub data Removed : Type 0 where
  done already_removed : Removed
  failed : Text → Removed

-- `server.removeMember`: that the id was removed before is no error.
unfoldable pub server_remove_member : (ℕ → Removed) → List EtcdMember → Text → Option Error
server_remove_member rpc ms name = elim (lookup_member name ms) [
  | ok id ↦ elim (rpc id) [ done ↦ none | already_removed ↦ none | failed why ↦ some (other why) ]
  | err e ↦ some e
  | panic ↦ none
]

tolerate : Option Error → Option Error
tolerate (some cannot_find_member) = none
tolerate answer = answer

-- The function that `New` hands to the cluster membership: a member that etcd does not know counts
-- as removed. `removeCh` serves tests only.
unfoldable pub remover : (ℕ → Removed) → List EtcdMember → Text → Option Error
unfolding tolerate
remover rpc ms name = tolerate (server_remove_member rpc ms name)

pub data EventKind : Type 0 where
  node_join node_leave node_update : EventKind

-- A memberlist event: its node may be nil, else it has metadata.
pub record NodeEvent : Type 0 where
  pub kind : EventKind
  pub node : Option Text

pub record CleanupConfig : Type 0 where
  pub peer_url : Text
  pub required_cluster_size : ℕ

on_join : List EtcdMember → (Text → Option Error) → Member → Membership → Membership × List Text
on_join ms fn member c = elim (lookup_member_name_by_peer_addr member.peer_url ms) [
  | ok old_name ↦
      if str_eq old_name member.name
      then (remove_suspect member.name c, [])
      else (let r = remove_member fn old_name c in (remove_suspect member.name r.state, r.evicted))
  | err e ↦ (remove_suspect member.name c, [])
  | panic ↦ (c, [])
]

on_event :
    EventKind
    → List EtcdMember
    → (Text → Option Error)
    → ℕ
    → Member
    → Membership
    → Membership × List Text
unfolding on_join
on_event node_join ms fn now member c = on_join ms fn member c
on_event node_leave ms fn now member c = (add_suspect member.name now c, [])
on_event node_update ms fn now member c = (c, [])

-- Whether the members that are running are a majority of the cluster.
unfoldable pub is_majority : Gob → CleanupConfig → List (Option Text) → Gossip → Bool
is_majority gob cfg metas g =
    ltb (cfg.required_cluster_size / 2) (length (running_members gob metas g))

module _ (gob : Gob) (cfg : CleanupConfig) where
  about_member :
      Option Member
      → EventKind
      → List EtcdMember
      → (Text → Option Error)
      → ℕ
      → Membership
      → Membership × List Text
  unfolding on_event
  about_member none kind ms fn now c = (c, [])
  about_member (some member) kind ms fn now c =
      if str_eq member.peer_url cfg.peer_url then (c, []) else on_event kind ms fn now member c

  -- One round of the loop, for an event: the new state and the names that were evicted. `metas` is
  -- what the member list holds, `ms` what etcd holds, and `fn` the remover at that moment.
  unfoldable pub handle_event :
      List (Option Text)
      → Gossip
      → List EtcdMember
      → (Text → Option Error)
      → ℕ
      → NodeEvent
      → Membership
      → Membership × List Text
  unfolding about_member
  handle_event metas g ms fn now ev c = elim ev.node [
    | none ↦ (c, [])
    | some meta ↦
        about_member (gob.unmarshal meta) ev.kind ms fn now
          (ensure_quorum (is_majority gob cfg metas g) c).0
  ]
