-- ===== src/Manager/Cleanup/Tests.antt =====
-- A cluster of three, of which one member leaves.
use e2d.Manager.Membership.{
  new_cluster_membership, tick, sweep, remove_member, ensure_quorum, add_suspect,
}
use e2d.Manager.Gossip.{running, Gossip, members, member_of, overlay, running_members}
use e2d.Manager.Gossip.Samples.{member_named, small_gob, gossip_of}
use e2d.Manager.Cleanup.{
  EtcdMember, done, node_join, node_leave, CleanupConfig, lookup_member,
  lookup_member_name_by_peer_addr, server_remove_member, remover, is_majority, handle_event,
}
use e2d.Manager.Cleanup.Quorum.{
  Round, EvictsNobody, minority_evicts_nothing, one_majority, join_evicts_old,
}
use e2d.Manager.Cleanup.Loop.{LoopEvent, gossiped, ticked, step, loop, never_evicts_itself}
use e2d.Prelude.{
  str_ne, ◌⊎◌, ◌≡◌, refl, ◌≢◌, true, Option, none, some, List, [], ◌∷◌, arith, length, In, Text,
  codes, str_eq, str_eq_iff, Error, ok, lookup, delete, insert,
}

abbrev node_a : Text
node_a = codes "a"

abbrev node_b : Text
node_b = codes "b"

abbrev node_c : Text
node_c = codes "c"

abbrev cfg : CleanupConfig
cfg = record { peer_url = codes "/a"; required_cluster_size = 3 }

-- What `a` knows: that itself and `b` are running.
abbrev two_running : Gossip
two_running = record (gossip_of node_a) { nodes = (node_a, running) ∷ (node_b, running) ∷ [] }

abbrev metas : List (Option Text)
metas = some node_a ∷ some node_b ∷ some node_c ∷ []

abbrev etcd_members : List EtcdMember
etcd_members =
    record { id = 1; name = node_a; peer_urls = codes "/a" ∷ [] }
    ∷ record { id = 2; name = node_b; peer_urls = codes "/b" ∷ [] }
    ∷ record { id = 3; name = codes "old"; peer_urls = codes "/c" ∷ [] }
    ∷ []

abbrev remove_any : Text → Option Error
remove_any = remover (λ id. done) etcd_members

majority : is_majority small_gob cfg metas two_running ≡ true
unfolding is_majority running_members members member_of overlay lookup str_eq
majority = refl

old_removed : remove_any (codes "old") ≡ none
unfolding remover server_remove_member lookup_member str_eq
old_removed = refl

c_is_old : lookup_member_name_by_peer_addr (codes "/c") etcd_members ≡ ok (codes "old")
unfolding lookup_member_name_by_peer_addr str_eq
c_is_old = refl

not_own : codes "/c" ≢ codes "/a"
unfolding str_eq
not_own = str_ne (codes "/c") (codes "/a") refl

not_same : codes "old" ≢ node_c
unfolding str_eq
not_same = str_ne (codes "old") node_c refl

join_evicts_old_example :
    (handle_event small_gob cfg metas two_running etcd_members remove_any 7
      (record { kind = node_join; node = some node_c })
      (new_cluster_membership 5)).1
    ≡ codes "old" ∷ []
join_evicts_old_example =
    join_evicts_old small_gob cfg metas two_running etcd_members remove_any 7 node_c
      (member_named node_c) (codes "old") (new_cluster_membership 5) majority refl not_own c_is_old
      not_same old_removed

abbrev alone : Gossip
alone = record (gossip_of node_a) { nodes = (node_a, running) ∷ [] }

one_running : length (running_members small_gob metas alone) ≡ 1
unfolding running_members members member_of overlay lookup str_eq
one_running = refl

two_are_running : length (running_members small_gob metas two_running) ≡ 2
unfolding running_members members member_of overlay lookup str_eq
two_are_running = refl

minority_evicts_nothing_example :
    let r =
      handle_event small_gob cfg metas alone etcd_members remove_any 7
        (record { kind = node_join; node = some node_c })
        (new_cluster_membership 5) in
    (r.1 ≡ []) × ((tick remove_any 99 r.0).1 ≡ [])
minority_evicts_nothing_example =
    minority_evicts_nothing small_gob cfg metas alone etcd_members remove_any 7 node_join node_c
      (new_cluster_membership 5) remove_any 99 (rw one_running (omega arith))

abbrev round_of : Gossip → Round
round_of g = record {
  gob = small_gob;
  cfg = cfg;
  metas = metas;
  gossip = g;
  listed = etcd_members;
  fn = remove_any;
  now = 7;
  kind = node_leave;
  meta = node_b;
  cluster = new_cluster_membership 5;
  tick_fn = remove_any;
  later = 99;
}

one_majority_example : EvictsNobody (round_of two_running) ⊎ EvictsNobody (round_of alone)
one_majority_example =
    one_majority (round_of two_running) (round_of alone) refl
      (rw (two_are_running, one_running) (omega arith))

abbrev events : List LoopEvent
events =
    gossiped metas two_running etcd_members remove_any 7
      (record { kind = node_leave; node = some node_b })
    ∷ ticked remove_any 20
    ∷ []

b_is_evicted : (loop small_gob cfg events (new_cluster_membership 5)).1 ≡ node_b ∷ []
unfolding loop step handle_event is_majority running_members members member_of overlay lookup str_eq
    tick sweep remove_member remover server_remove_member lookup_member ensure_quorum add_suspect
    insert delete new_cluster_membership
b_is_evicted = refl

a_only_at_its_url :
    (addr : Text)
    → addr ≢ codes "/a"
    → lookup_member_name_by_peer_addr addr etcd_members ≢ ok node_a
unfolding lookup_member_name_by_peer_addr
a_only_at_its_url addr ne e = ground (arith, str_eq_iff (codes "/a") addr, ne)

never_evicts_itself_example : ¬ In node_a (loop small_gob cfg events (new_cluster_membership 5)).1
never_evicts_itself_example =
    never_evicts_itself small_gob cfg node_a 5 events
      ((λ meta m p u n. ground (arith, p, u, n), a_only_at_its_url), (tt, tt))
