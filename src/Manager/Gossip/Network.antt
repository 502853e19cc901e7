-- ===== src/Manager/Gossip/Network.antt =====
-- pkg/manager/gossip.go: joining the gossip network, what is handed to the member list, and its log.
--
-- The member list is a parameter, by what it answers.
use e2d.Prelude.Decimal.{ℤ}
use e2d.Manager.Gossip.{unknown, Member, Gob, Gossip, GossipConfig, update, bootstrap_peers}
use e2d.Prelude.{
  ℕ, Bool, Option, none, some, List, [], ◌∷◌, ◌==◌, if◌then◌else◌, length, Text, codes, str_eq,
  trim_prefix, Error, other, Result, ok, err, panic,
}

-- What of memberlist.Config `newGossip` sets from its configuration.
pub record NetworkConfig : Type 0 where
  pub name : Text
  pub bind_addr : Text
  pub bind_port : ℤ
  pub secret_key : Option Text

unfoldable pub network_config : GossipConfig → NetworkConfig
network_config cfg = record {
  name = cfg.name;
  bind_addr = cfg.gossip_host;
  bind_port = cfg.gossip_port;
  secret_key = cfg.secret_key;
}

-- What the loop of `Start` meets: a tick, with the error of joining the peers, or the end of the
-- context.
pub data Attempt : Type 0 where
  ticked_with : Option Error → Attempt
  context_done : Error → Attempt

-- How the loop ends: it has joined, the context has ended, or it still waits for a tick.
pub data JoinEnd : Type 0 where
  joined waiting : JoinEnd
  gave_up : Error → JoinEnd

unfoldable pub join_loop : List Attempt → JoinEnd
join_loop [] = waiting
join_loop (ticked_with none ∷ rest) = joined
join_loop (ticked_with (some e) ∷ rest) = join_loop rest
join_loop (context_done e ∷ rest) = gave_up e

module _ (gob : Gob) where
  -- After the list of the peers was read.
  join_peers : Gossip → List Attempt → Result (List Text) → Gossip × Result JoinEnd
  join_peers g attempts (ok peers) = (g, ok (join_loop attempts))
  join_peers g attempts (err e) = (g, err e)
  join_peers g attempts panic = (g, panic)

  after_update : List Text → List Attempt → Gossip × Option Error → Gossip × Result JoinEnd
  unfolding join_peers
  after_update addrs attempts (g, some e) = (g, err e)
  after_update addrs attempts (g, none) = join_peers g attempts (bootstrap_peers addrs)

  -- `Start`, by the error of creating the member list and what the loop meets: the status is told
  -- before the addresses are read.
  unfoldable pub start : Option Error → List Text → List Attempt → Gossip → Gossip × Result JoinEnd
  unfolding after_update
  start (some e) addrs attempts g = (g, err e)
  start none addrs attempts g = after_update addrs attempts (update gob unknown g)

-- `Member.Marshal` and `Member.Unmarshal`, of which the latter sets the fields that gob finds.
unfoldable pub marshal_member : Gob → Member → Result Text
marshal_member gob m = elim (gob.marshal m) [
  | none ↦ err (other (codes "cannot encode member"))
  | some text ↦ ok text
]

unfoldable pub unmarshal_member : Gob → Text → Result Member
unmarshal_member gob text = elim (gob.unmarshal text) [
  | none ↦ err (other (codes "cannot decode member"))
  | some m ↦ ok m
]

-- The member list before `Start` has created one.
pub record Memberlist : Type 0 where
  pub join : List Text → Result ℕ
  pub local_node : Option Text
  pub members : List (Option Text)
  pub num_members : ℕ
  pub shutdown : Option Error

unfoldable pub noop_memberlist : Memberlist
noop_memberlist = record {
  join = λ peers. ok 0;
  local_node = none;
  members = [];
  num_members = 0;
  shutdown = none;
}

-- A line of the member list's log, by its level.
pub data LogLine : Type 0 where
  debug warn info : Text → LogLine
  dropped : LogLine

-- strings.SplitN(msg, " ", 2), where there is a space.
split_space : Text → Option (Text × Text)
split_space [] = none
split_space (c ∷ s) = elim (split_space s) [
  | none ↦ if c == b' ' then some ([], s) else none
  | some (word, rest) ↦ if c == b' ' then some ([], s) else some (c ∷ word, rest)
]

level_line : Text → Text → LogLine
level_line lvl msg =
    if str_eq lvl (codes "[DEBUG]")
    then debug msg
    else if str_eq lvl (codes "[WARN]")
    then warn msg
    else if str_eq lvl (codes "[INFO]")
    then info msg
    else dropped

log_parts : Text → Option (Text × Text) → LogLine
unfolding level_line
log_parts p none = level_line (codes "[DEBUG]") p
log_parts p (some (lvl, rest)) = level_line lvl (trim_prefix (codes "memberlist: ") rest)

-- `logger.Write`: a line with another level, as of an error, is dropped; all bytes count as written.
unfoldable pub log_write : Text → LogLine × ℕ
unfolding log_parts split_space
log_write p = (log_parts p (split_space p), length p)

-- The delegate's methods for states that are pushed and pulled do nothing.
unfoldable pub local_state : Bool → Option Text
local_state join = none

unfoldable pub merge_remote_state : Text → Bool → Gossip → Gossip
merge_remote_state buf join g = g

unfoldable pub node_meta : ℕ → Gossip → Option Text
node_meta limit g = g.local_meta
