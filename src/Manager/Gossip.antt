-- ===== src/Manager/Gossip.antt =====
-- pkg/manager/gossip.go: what a member knows of the others over the gossip network.
--
-- `memberlist` and `gob` are parameters: the nodes that the network lists, each with its metadata,
-- and how members and status messages are written as bytes.
pub mod Views
pub mod Network
pub mod Samples
mod Tests
use e2d.Prelude.Decimal.{ℤ, pos, format_int}
use e2d.Netutil.{split_host_port}
use e2d.Prelude.{
  ℕ, zero, ◌+◌, Bool, true, false, Option, none, some, List, [], ◌∷◌, ◌++◌, if◌then◌else◌, select,
  Text, codes, str_eq, Error, other, Result, ok, ◌>>=◌, Assoc, lookup, insert,
}

pub data NodeStatus : Type 0 where
  unknown pending running : NodeStatus

unfoldable pub status_string : NodeStatus → Text
status_string unknown = codes "Unknown"
status_string pending = codes "Pending"
status_string running = codes "Running"

abbrev pub status_eq : NodeStatus → NodeStatus → Bool
status_eq unknown unknown = true
status_eq pending pending = true
status_eq running running = true
status_eq _ _ = false

pub record Member : Type 0 where
  pub id : ℕ
  pub name : Text
  pub client_addr : Text
  pub client_url : Text
  pub peer_addr : Text
  pub peer_url : Text
  pub gossip_addr : Text
  pub bootstrap_addrs : List Text
  pub status : NodeStatus

pub record StatusMsg : Type 0 where
  pub name : Text
  pub status : NodeStatus

-- How `gob` writes the two values that are sent, `none` for an error.
pub record Gob : Type 0 where
  pub marshal : Member → Option Text
  pub unmarshal : Text → Option Member
  pub encode_msg : StatusMsg → Option Text
  pub decode_msg : Text → Option StatusMsg

-- The fields of `gossip` that change: the statuses that were told, the member itself, the metadata
-- of its node, the messages that wait to be sent, and whether `events` is open.
pub record Gossip : Type 0 where
  pub nodes : Assoc NodeStatus
  pub self : Member
  pub local_meta : Option Text
  pub broadcasts : List Text
  pub events_open : Bool

pub record GossipConfig : Type 0 where
  pub name : Text
  pub client_url : Text
  pub peer_url : Text
  pub gossip_host : Text
  pub gossip_port : ℤ
  pub secret_key : Option Text

unfoldable pub new_gossip : GossipConfig → Gossip
new_gossip cfg = record {
  nodes = [];
  self = record {
    id = 0;
    name = cfg.name;
    client_addr = [];
    client_url = cfg.client_url;
    peer_addr = [];
    peer_url = cfg.peer_url;
    gossip_addr = cfg.gossip_host ++ b':' ∷ format_int cfg.gossip_port;
    bootstrap_addrs = [];
    status = unknown;
  };
  local_meta = none;
  broadcasts = [];
  events_open = true;
}

-- `Shutdown`, with the error of the member list's own.
unfoldable pub shutdown : Option Error → Gossip → Gossip × Option Error
shutdown (some e) g = (g, some e)
shutdown none g = (record g { events_open = false }, none)

abbrev pub default_gossip_port : ℕ
default_gossip_port = 7980

-- A port that is not given is 0.
port_or_default : ℤ → ℤ
port_or_default (ℤ.pos zero) = pos default_gossip_port
port_or_default p = p

-- The loop of `Start` over the bootstrap addresses.
unfoldable pub bootstrap_peers : List Text → Result (List Text)
unfolding port_or_default
bootstrap_peers [] = ok []
bootstrap_peers (addr ∷ rest) = do
  hp ← split_host_port addr
  peers ← bootstrap_peers rest
  ok (
      ((if str_eq hp.0 [] then codes "127.0.0.1" else hp.0)
        ++ b':' ∷ format_int (port_or_default hp.1))
      ∷ peers)

module _ (gob : Gob) where
  unfoldable pub update : NodeStatus → Gossip → Gossip × Option Error
  update status g =
      let told = record g {
        nodes = insert g.self.name status g.nodes;
        self = record g.self { status = status };
      } in
      elim (gob.marshal told.self) [
        | none ↦ (told, some (other (codes "cannot encode member")))
        | some meta ↦ elim (gob.encode_msg (record { name = g.self.name; status = status })) [
          | none ↦
              (record told { local_meta = some meta }, some (other (codes "cannot encode status")))
          | some msg ↦
              (record told { local_meta = some meta; broadcasts = g.broadcasts ++ msg ∷ [] }, none)
        ]
      ]

  -- The status that was told of a member is taken in place of the one in its metadata.
  unfoldable pub overlay : Assoc NodeStatus → Member → Member
  overlay nodes m = elim (lookup m.name nodes) [
    | none ↦ m
    | some status ↦ record m { status = status }
  ]

  unfoldable pub member_of : Assoc NodeStatus → Option Text → Option Member
  unfolding overlay
  member_of nodes none = none
  member_of nodes (some meta) = elim (gob.unmarshal meta) [
    | none ↦ none
    | some m ↦ some (overlay nodes m)
  ]

  unfoldable pub members : List (Option Text) → Gossip → List Member
  members [] g = []
  members (meta ∷ metas) g =
      let rest = members metas g in
      elim (member_of g.nodes meta) [ none ↦ rest | some m ↦ m ∷ rest ]

  unfoldable pub pending_members : List (Option Text) → Gossip → List Member
  pending_members metas g = select (λ m. status_eq m.status pending) (members metas g)

  unfoldable pub running_members : List (Option Text) → Gossip → List Member
  running_members metas g = select (λ m. status_eq m.status running) (members metas g)

  -- `NotifyMsg`: an empty message and one that cannot be read are dropped.
  unfoldable pub notify_msg : Text → Gossip → Gossip
  notify_msg [] g = g
  notify_msg (b ∷ bs) g = elim (gob.decode_msg (b ∷ bs)) [
    | none ↦ g
    | some n ↦ record g { nodes = insert n.name n.status g.nodes }
  ]
