-- ===== src/Manager/Bootstrap/Started.antt =====
-- When a node starts a new cluster (startOrJoinEtcdCluster of pkg/manager/manager.go).
use e2d.Manager.Peers.{Peer}
use e2d.Manager.Gossip.{
  running, pending, status_eq, Member, Gob, Gossip, update, members, pending_members,
}
use e2d.Manager.Join.{NodeConfig}
use e2d.Manager.Bootstrap.{
  View, Outcome, new_cluster, try_peers, peer_of, start_if_pending, after_peers,
  start_or_join_round, continued, start_or_join_etcd_cluster,
}
use e2d.Prelude.{
  suc, ◌≤◌, ◌≡◌, refl, sym, ap, ◌∙◌, subst, inl, inr, Bool, true, false, not, ◌&&◌, Option, none,
  some, List, [], ◌∷◌, map, arith, ltb, Bool-cases, length, select, any, In, Text, str_eq, Error,
}

abbrev is_none : Option Error → Bool
is_none none = true
is_none (some e) = false

-- A member other than this node that is running and can be joined
abbrev pub could_join : Text → (Text → Option Error) → Member → Bool
could_join name join_error m =
    not (str_eq m.name name) && status_eq m.status running && is_none (join_error m.client_url)

try_peers-none :
    (name : Text) (join_error : Text → Option Error) (ms : List Member)
    → try_peers name join_error ms ≡ none
    → any (could_join name join_error) ms ≡ false
unfolding try_peers
try_peers-none name join_error [] h = refl
try_peers-none name join_error (m ∷ ms) h = ground (arith, try_peers-none name join_error ms)

length-select : {A : Type 0} (p : A → Bool) (xs : List A) → length (select p xs) ≤ length xs
length-select p [] = omega arith
length-select p (x ∷ xs) = ground (arith, length-select p xs)

length-map : {A B : Type 0} (f : A → B) (xs : List A) → length (map f xs) ≡ length xs
length-map f [] = refl
length-map f (x ∷ xs) = ap suc (length-map f xs)

-- The gossip network and the view at which a new cluster is started with the peers.
pub record IsStart (gob : Gob) (cfg : NodeConfig) (v : View) (g : Gossip) (peers : List Peer)
    : Type 0 where
  -- no member that is running could be joined
  pub nothing_to_join : any (could_join cfg.name v.join_error) (members gob v.metas g) ≡ false
  -- this node has told that it is pending, and so many members are
  pub pending_enough :
      cfg.required_cluster_size
      ≤ length (pending_members gob v.metas_after (update gob pending g).0)
  pub peers_all : peers ≡ map peer_of (members gob v.metas_after (update gob pending g).0)
  pub peers_enough : cfg.required_cluster_size ≤ length peers

start_if_pending-IsStart :
    (gob : Gob) (cfg : NodeConfig) (v : View) (g : Gossip) (peers : List Peer)
    → (start_if_pending gob cfg v g).1 ≡ some (new_cluster peers)
    → any (could_join cfg.name v.join_error) (members gob v.metas g) ≡ false
    → IsStart gob cfg v g peers
unfolding start_if_pending pending_members
start_if_pending-IsStart gob cfg v g peers h k =
    let told = (update gob pending g).0 in
    let all_peers = map peer_of (members gob v.metas_after told) in
    let count = length-map peer_of (members gob v.metas_after told) in
    let fewer = length-select (λ m. status_eq m.status pending) (members gob v.metas_after told) in
    elim (Bool-cases (ltb (length (members gob v.metas g)) cfg.required_cluster_size)) [
      | inl few ↦ absurd (cc (rw few at h))
      | inr many ↦
          elim (Bool-cases
            (ltb (length (pending_members gob v.metas_after told)) cfg.required_cluster_size)) [
              | inl few ↦ absurd (cc (rw (many, few) at h))
              | inr enough ↦
                  let same : all_peers ≡ peers = cc (rw (many, enough) at h) in
                  let pending_many : cfg.required_cluster_size
                      ≤ length (pending_members gob v.metas_after told) =
                    ground (arith, enough) in
                  let total : cfg.required_cluster_size ≤ length all_peers =
                    omega (arith, fewer, count, pending_many) in
                  record {
                    nothing_to_join = k;
                    pending_enough = pending_many;
                    peers_all = sym same;
                    peers_enough = subst (λ ps. cfg.required_cluster_size ≤ length ps) same total;
                  }
            ]
    ]

module _ (gob : Gob) (cfg : NodeConfig) where
  round-IsStart :
      (v : View) (g : Gossip) (peers : List Peer)
      → (start_or_join_round gob cfg v g).1 ≡ some (new_cluster peers)
      → IsStart gob cfg v g peers
  unfolding start_or_join_round after_peers
  round-IsStart v g peers h =
      of_try (try_peers cfg.name v.join_error (members gob v.metas g)) refl h
    where
      of_try :
          (o : Option Text)
          → try_peers cfg.name v.join_error (members gob v.metas g) ≡ o
          → (after_peers gob cfg v g o).1 ≡ some (new_cluster peers)
          → IsStart gob cfg v g peers
      of_try (some url) e k = absurd (cc k)
      of_try none e k =
          start_if_pending-IsStart gob cfg v g peers k
            (try_peers-none cfg.name v.join_error (members gob v.metas g) e)

  -- A node starts a new cluster only in a round in which no running peer could be joined, the node
  -- had told that it is pending, and as many members as the cluster needs were pending; and it starts
  -- it with all members of the gossip network, which are enough for the cluster.
  pub start_or_join_etcd_cluster-new_cluster :
      (vs : List View) (g : Gossip) (peers : List Peer)
      → (start_or_join_etcd_cluster gob cfg vs g).1 ≡ new_cluster peers
      → (v : View) × (h : Gossip) × In v vs × IsStart gob cfg v h peers
  unfolding start_or_join_etcd_cluster continued
  start_or_join_etcd_cluster-new_cluster [] g peers e = absurd (cc e)
  start_or_join_etcd_cluster-new_cluster (v ∷ vs) g peers e =
      of_round (start_or_join_round gob cfg v g) refl
        (λ h k.
          let (w, started, i, s) = start_or_join_etcd_cluster-new_cluster vs h peers k in
          (w, started, In.there i, s))
        e
    where
      of_round :
          (r : Gossip × Option Outcome)
          → start_or_join_round gob cfg v g ≡ r
          → ((h : Gossip)
              → (start_or_join_etcd_cluster gob cfg vs h).1 ≡ new_cluster peers
              → (w : View) × (started : Gossip) × In w (v ∷ vs) × IsStart gob cfg w started peers)
          → (continued gob cfg r (λ h. start_or_join_etcd_cluster gob cfg vs h)).1
            ≡ new_cluster peers
          → (w : View) × (h : Gossip) × In w (v ∷ vs) × IsStart gob cfg w h peers
      of_round (h, some o) d later k =
          (v, g, In.here refl, round-IsStart v g peers (ap (λ r. r.1) d ∙ ap some k))
      of_round (h, none) d later k = later h k
