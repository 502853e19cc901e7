-- ===== src/Manager/Join.antt =====
-- How a node joins a cluster: joinEtcdCluster of pkg/manager/manager.go, and pkg/manager/client.go.
--
-- What the cluster and etcd answer is a parameter.
pub mod Outcomes
mod Tests
use e2d.Snapshot.Streams.{Cipher, Gzip}
use e2d.Manager.Peers.{Peer}
use e2d.Manager.Gossip.{
  NodeStatus, running, pending, status_eq, Member, Gob, Gossip, update, members, pending_members,
}
use e2d.Manager.Server.{Server, Start, Kv, start_etcd, after_start}
use e2d.Manager.Snapshotter.{Backup, Restore, restore_from_snapshot}
use e2d.Prelude.{
  ℕ, ◌+◌, ◌⊎◌, inl, inr, Option, none, some, List, [], ◌∷◌, ◌++◌, map, Text, Error, Assoc, lookup,
  insert,
}

-- A member as etcd's client lists it.
pub record ListedMember : Type 0 where
  pub id : ℕ
  pub name : Text
  pub client_urls : List Text
  pub peer_urls : List Text

-- What the manager keeps of it: the first URLs, if there are any
pub record MemberInfo : Type 0 where
  pub id : ℕ
  pub name : Text
  pub client_url : Text
  pub peer_url : Text

first_or_empty : List Text → Text
first_or_empty [] = []
first_or_empty (u ∷ us) = u

unfoldable pub member_info : ListedMember → MemberInfo
unfolding first_or_empty
member_info m = record {
  id = m.id;
  name = m.name;
  client_url = first_or_empty m.client_urls;
  peer_url = first_or_empty m.peer_urls;
}

-- `Client.members`: the map by name, where a later member takes the place of one with its name
unfoldable pub client_members : List ListedMember → Assoc MemberInfo → Assoc MemberInfo
client_members [] found = found
client_members (m ∷ ms) found = client_members ms (insert m.name (member_info m) found)

-- The answer of MemberRemove
pub data Removal : Type 0 where
  done not_found : Removal
  failed : Error → Removal

-- `Client.removeMember`
unfoldable pub client_remove_member : Removal → Option Error
client_remove_member done = none
client_remove_member not_found = none
client_remove_member (failed e) = some e

-- `Client.removeMemberLocked`, by the error of the lock
unfoldable pub remove_member_locked : Option Error → Removal → Option Error
remove_member_locked (some e) r = some e
remove_member_locked none r = client_remove_member r

-- What becomes of MemberAdd: the member is added and answered, or an error comes back, where nothing was
-- added, or where the member was added and the answer was lost.
pub data Addition : Type 0 where
  answered : ListedMember → Addition
  not_added : Error → Addition
  unanswered : Error → ListedMember → Addition

-- What `joinEtcdCluster` meets, in order
pub record Answers : Type 0 where
  pub connect : Option Error
  pub listed : Error ⊎ List ListedMember
  pub start_known : Start
  pub lock_old : Option Error
  pub remove_old : Removal
  pub lock : Option Error
  pub add : Addition
  pub start_added : Start

-- What was done: the removal of a member by its id, the addition of one with an id for a URL, and
-- the removal of the data directory.
pub data Change : Type 0 where
  dir_removed : Change
  removed : ℕ → Change
  added : ℕ → Text → Change

pub record Joined : Type 0 where
  pub server : Server
  pub error : Option Error
  pub changes : List Change

pub record NodeConfig : Type 0 where
  pub name : Text
  pub peer_url : Text
  pub required_cluster_size : ℕ

abbrev peers_of : Assoc MemberInfo → List Peer
peers_of found = map (λ p. record { name = p.1.name; url = p.1.peer_url }) found

module _ (cfg : NodeConfig) (a : Answers) where
  -- The start after the member was added; a member that did not start is removed.
  pub started_added : MemberInfo → List Change → Server × Option Error → Joined
  started_added m before (s, none) = record {
    server = s;
    error = none;
    changes = before ++ added m.id cfg.peer_url ∷ [];
  }
  started_added m before (s, some e) = record {
    server = s;
    error = some e;
    changes = before ++ added m.id cfg.peer_url ∷ removed m.id ∷ [];
  }

  -- An error of the addition ends the join, whether the member was added or not.
  pub after_add : Assoc MemberInfo → List Change → Server → Addition → Joined
  unfolding started_added
  after_add found before s (answered m) = started_added (member_info m) before (
      start_etcd cfg.required_cluster_size
        (record { name = cfg.name; url = cfg.peer_url } ∷ peers_of found) a.start_added s)
  after_add found before s (not_added e) = record { server = s; error = some e; changes = before }
  after_add found before s (unanswered e m) = record {
    server = s;
    error = some e;
    changes = before ++ added m.id cfg.peer_url ∷ [];
  }

  -- The data directory is removed, and the member is added under a lock.
  pub add_and_start : Assoc MemberInfo → List Change → Server → Joined
  unfolding after_add
  add_and_start found before s = elim a.lock [
    | some e ↦ record { server = s; error = some e; changes = before ++ dir_removed ∷ [] }
    | none ↦ after_add found (before ++ dir_removed ∷ []) s a.add
  ]

  pub after_removal : Assoc MemberInfo → MemberInfo → Server → Option Error → Joined
  unfolding add_and_start
  after_removal found old s (some e) = record { server = s; error = some e; changes = [] }
  after_removal found old s none = add_and_start found (removed old.id ∷ []) s

  pub remove_and_add : Assoc MemberInfo → MemberInfo → Server → Joined
  unfolding after_removal
  remove_and_add found old s =
      after_removal found old s (remove_member_locked a.lock_old a.remove_old)

  pub known_started : Assoc MemberInfo → MemberInfo → Server × Option Error → Joined
  unfolding remove_and_add
  known_started found old (s, none) = record { server = s; error = none; changes = [] }
  known_started found old (s, some e) = remove_and_add found old s

  pub by_membership : Assoc MemberInfo → Option MemberInfo → Server → Joined
  unfolding known_started add_and_start
  by_membership found (some old) s =
      known_started found old
        (start_etcd cfg.required_cluster_size (peers_of found) a.start_known s)
  by_membership found none s = add_and_start found [] s

  pub with_listed : Error ⊎ List ListedMember → Server → Joined
  unfolding by_membership
  with_listed (inr ms) s =
      let found = client_members ms [] in by_membership found (lookup cfg.name found) s
  with_listed (inl e) s = record { server = s; error = some e; changes = [] }

  -- `joinEtcdCluster`
  unfoldable pub join_etcd_cluster : Server → Joined
  unfolding with_listed
  join_etcd_cluster s = elim a.connect [
    | some e ↦ record { server = s; error = some e; changes = [] }
    | none ↦ with_listed a.listed s
  ]
