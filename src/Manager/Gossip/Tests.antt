-- ===== src/Manager/Gossip/Tests.antt =====
-- Two members that tell each other their status.
use e2d.Manager.Gossip.{
  running, Member, Gossip, update, overlay, member_of, members, notify_msg, bootstrap_peers,
}
use e2d.Manager.Gossip.Samples.{member_named, small_gob, small_gob-IsFaithful, gossip_of}
use e2d.Manager.Gossip.Views.{members-notify_msg-update}
use e2d.Netutil.{split_host_port, net_split_host_port}
use e2d.Prelude.Decimal.{parse_int, format_int, format_uint}
use e2d.Prelude.{
  ◌≡◌, refl, none, some, [], ◌∷◌, In, Text, codes, str_eq, ok, lookup, delete, insert,
}

default_port : bootstrap_peers (codes ":0" ∷ []) ≡ ok (codes "127.0.0.1:7980" ∷ [])
unfolding bootstrap_peers split_host_port net_split_host_port parse_int format_int format_uint
    str_eq
default_port = refl

abbrev node_a : Text
node_a = codes "a"

abbrev after_update : Gossip
after_update = record (gossip_of node_a) {
  nodes = (node_a, running) ∷ [];
  self = record (member_named node_a) { status = running };
  local_meta = some node_a;
  broadcasts = (2 ∷ node_a) ∷ [];
}

updates : update small_gob running (gossip_of node_a) ≡ (after_update, none)
unfolding update insert delete
updates = refl

abbrev node_b : Gossip
node_b = gossip_of (codes "b")

abbrev seen : Member
seen = record (member_named node_a) { status = running }

sees_running :
    members small_gob (some node_a ∷ none ∷ []) (notify_msg small_gob (2 ∷ node_a) node_b)
    ≡ seen ∷ []
unfolding members member_of overlay notify_msg insert delete lookup str_eq
sees_running = refl

members-notify_msg-update_example : seen.status ≡ running
members-notify_msg-update_example =
    members-notify_msg-update small_gob small_gob-IsFaithful running (gossip_of node_a) node_b
      after_update (2 ∷ node_a) (some node_a ∷ none ∷ []) seen updates refl
      (rw sees_running (In.here refl)) refl
