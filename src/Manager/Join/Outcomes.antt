-- ===== src/Manager/Join/Outcomes.antt =====
-- What joinEtcdCluster leaves (pkg/manager/manager.go).
use e2d.Manager.Peers.{Peer, validate_peers}
use e2d.Manager.Server.{
  Server, Start, start_etcd, start_checked, start_ready, cannot_start, fails_later, ready,
  not_in_time,
}
use e2d.Manager.Join.{
  MemberInfo, ListedMember, Addition, answered, not_added, unanswered, Answers, Change,
  started_added, after_add, add_and_start, after_removal, remove_and_add, known_started,
  by_membership, with_listed, dir_removed, removed, added, Joined, NodeConfig, client_members,
  member_info, join_etcd_cluster,
}
use e2d.Prelude.{
  ℕ, ◌≡◌, refl, ◌∙◌, ◌⊎◌, inl, inr, Bool, true, false, not, ◌&&◌, ◌||◌, Option, none, some, List,
  [], ◌∷◌, ◌++◌, arith, ◌==◌, select, Text, Error, Assoc,
}

abbrev pub remove_id : ℕ → List ℕ → List ℕ
remove_id id ids = select (λ i. not (i == id)) ids

-- The members that were added, and not removed after it.
unfoldable pub lasting : List Change → List ℕ → List ℕ
lasting [] ids = ids
lasting (dir_removed ∷ cs) ids = lasting cs ids
lasting (added id url ∷ cs) ids = lasting cs (id ∷ ids)
lasting (removed id ∷ cs) ids = lasting cs (remove_id id ids)

abbrev pub is_empty : List ℕ → Bool
is_empty [] = true
is_empty (i ∷ ids) = false

-- The member of an addition whose answer was lost
abbrev pub unanswered_id : Addition → List ℕ
unanswered_id (answered m) = []
unanswered_id (not_added e) = []
unanswered_id (unanswered e m) = m.id ∷ []

abbrev pub is_same : List ℕ → List ℕ → Bool
is_same [] [] = true
is_same [] (j ∷ js) = false
is_same (i ∷ is) [] = false
is_same (i ∷ is) (j ∷ js) = i == j && is_same is js

-- A join has either started the server, or left no member of its own behind but one whose addition was
-- not answered.
abbrev pub is_settled : Addition → Joined → Bool
is_settled add j = elim j.error [
  | none ↦ j.server.started
  | some e ↦ is_empty (lasting j.changes []) || is_same (lasting j.changes []) (unanswered_id add)
]

start_ready-started :
    (how : Start) (s : Server) → (start_ready how s).1 ≡ none → (start_ready how s).0.started ≡ true
unfolding start_ready
start_ready-started (cannot_start e) s h = absurd (cc h)
start_ready-started (fails_later e) s h = absurd (cc h)
start_ready-started (ready none) s h = refl
start_ready-started (ready (some e)) s h = absurd (cc h)
start_ready-started not_in_time s h = absurd (cc h)

start_checked-started :
    (o : Option Error) (how : Start) (s : Server)
    → (start_checked o how s).1 ≡ none
    → (start_checked o how s).0.started ≡ true
unfolding start_checked
start_checked-started none how s h = start_ready-started how s h
start_checked-started (some e) how s h = absurd (cc h)

pub start_etcd-started :
    (n : ℕ) (peers : List Peer) (how : Start) (s : Server)
    → (start_etcd n peers how s).1 ≡ none
    → (start_etcd n peers how s).0.started ≡ true
unfolding start_etcd
start_etcd-started n peers how s h = start_checked-started (validate_peers peers n) how s h

lasting-append :
    (xs ys : List Change) (ids : List ℕ) → lasting (xs ++ ys) ids ≡ lasting ys (lasting xs ids)
unfolding lasting
lasting-append [] ys ids = refl
lasting-append (dir_removed ∷ xs) ys ids = lasting-append xs ys ids
lasting-append (added id url ∷ xs) ys ids = lasting-append xs ys (id ∷ ids)
lasting-append (removed id ∷ xs) ys ids = lasting-append xs ys (remove_id id ids)

-- A member that is added and removed does not last.
undone :
    (before : List Change) (id : ℕ) (url : Text)
    → lasting before [] ≡ []
    → lasting (before ++ added id url ∷ removed id ∷ []) [] ≡ []
unfolding lasting
undone before id url h =
    let same : (id == id) ≡ true = ground arith in
    lasting-append before (added id url ∷ removed id ∷ []) [] ∙ rw (h, same) refl

module _ (cfg : NodeConfig) (a : Answers) where
  started_added-settled :
      (m : MemberInfo) (before : List Change) (r : Server × Option Error)
      → lasting before [] ≡ []
      → (r.1 ≡ none → r.0.started ≡ true)
      → is_settled a.add (started_added cfg a m before r) ≡ true
  unfolding started_added
  started_added-settled m before (s, none) h k = k refl
  started_added-settled m before (s, some e) h k = rw (undone before m.id cfg.peer_url h) refl

  after_add-settled :
      (found : Assoc MemberInfo) (before : List Change) (s : Server) (r : Addition)
      → a.add ≡ r
      → lasting before [] ≡ []
      → is_settled a.add (after_add cfg a found before s r) ≡ true
  unfolding after_add lasting
  after_add-settled found before s (not_added e) add h = rw h refl
  after_add-settled found before s (unanswered e m) add h =
      let same : (m.id == m.id) ≡ true = ground arith in
      rw (add, lasting-append before (added m.id cfg.peer_url ∷ []) [], h, same) refl
  after_add-settled found before s (answered m) add h =
      started_added-settled (member_info m) before _ h
        (start_etcd-started cfg.required_cluster_size _ a.start_added s)

  add_and_start-settled :
      (found : Assoc MemberInfo) (before : List Change) (s : Server)
      → lasting before [] ≡ []
      → is_settled a.add (add_and_start cfg a found before s) ≡ true
  unfolding add_and_start lasting
  add_and_start-settled found before s h = of_lock a.lock refl
    where
      clean : lasting (before ++ dir_removed ∷ []) [] ≡ []
      clean = lasting-append before (dir_removed ∷ []) [] ∙ h

      of_lock :
          (o : Option Error)
          → a.lock ≡ o
          → is_settled a.add (add_and_start cfg a found before s) ≡ true
      of_lock none e =
          rw e (after_add-settled found (before ++ dir_removed ∷ []) s a.add refl clean)
      of_lock (some x) e = rw (e, clean) refl

  after_removal-settled :
      (found : Assoc MemberInfo) (old : MemberInfo) (s : Server) (o : Option Error)
      → is_settled a.add (after_removal cfg a found old s o) ≡ true
  unfolding after_removal lasting
  after_removal-settled found old s none = add_and_start-settled found (removed old.id ∷ []) s refl
  after_removal-settled found old s (some e) = refl

  remove_and_add-settled :
      (found : Assoc MemberInfo) (old : MemberInfo) (s : Server)
      → is_settled a.add (remove_and_add cfg a found old s) ≡ true
  unfolding remove_and_add
  remove_and_add-settled found old s = after_removal-settled found old s _

  known_started-settled :
      (found : Assoc MemberInfo) (old : MemberInfo) (r : Server × Option Error)
      → (r.1 ≡ none → r.0.started ≡ true)
      → is_settled a.add (known_started cfg a found old r) ≡ true
  unfolding known_started
  known_started-settled found old (s, none) k = k refl
  known_started-settled found old (s, some e) k = remove_and_add-settled found old s

  by_membership-settled :
      (found : Assoc MemberInfo) (o : Option MemberInfo) (s : Server)
      → is_settled a.add (by_membership cfg a found o s) ≡ true
  unfolding by_membership lasting
  by_membership-settled found none s = add_and_start-settled found [] s refl
  by_membership-settled found (some old) s =
      known_started-settled found old _
        (start_etcd-started cfg.required_cluster_size _ a.start_known s)

  with_listed-settled :
      (l : Error ⊎ List ListedMember) (s : Server) → is_settled a.add (with_listed cfg a l s) ≡ true
  unfolding with_listed lasting
  with_listed-settled (inl e) s = refl
  with_listed-settled (inr ms) s = by_membership-settled (client_members ms []) _ s

  -- Whatever the cluster and etcd answer, a node that tries to join is running afterwards, or it has
  -- failed and has asked for the removal of each member that it added, but for one whose addition
  -- returned an error though it was performed.
  pub join_etcd_cluster-settled : (s : Server) → is_settled a.add (join_etcd_cluster cfg a s) ≡ true
  unfolding join_etcd_cluster lasting
  join_etcd_cluster-settled s = of_connect a.connect refl
    where
      of_connect :
          (o : Option Error) → a.connect ≡ o → is_settled a.add (join_etcd_cluster cfg a s) ≡ true
      of_connect none e = rw e (with_listed-settled a.listed s)
      of_connect (some x) e = rw e refl
