-- ===== src/Manager/Gossip/Samples.antt =====
-- A small encoding of members and status messages, with which tests run.
use e2d.Manager.Gossip.{NodeStatus, unknown, pending, running, Member, Gob, Gossip}
use e2d.Manager.Gossip.Views.{IsFaithful}
use e2d.Prelude.{ℕ, true, none, some, [], ◌∷◌, arith, ◌==◌, if◌then◌else◌, Text}

abbrev pub member_named : Text → Member
member_named n = record {
  id = 0;
  name = n;
  client_addr = [];
  client_url = [];
  peer_addr = [];
  peer_url = b'/' ∷ n;
  gossip_addr = [];
  bootstrap_addrs = [];
  status = unknown;
}

abbrev status_code : NodeStatus → ℕ
status_code unknown = 0
status_code pending = 1
status_code running = 2

abbrev status_of : ℕ → NodeStatus
status_of c = if c == 0 then unknown else if c == 1 then pending else running

-- A member is written as its name, which its peer URL repeats.
abbrev pub small_gob : Gob
small_gob = record {
  marshal = λ m. some m.name;
  unmarshal = λ t. some (member_named t);
  encode_msg = λ n. some (status_code n.status ∷ n.name);
  decode_msg =
      λ t. elim t [ [] ↦ none | c ∷ name ↦ some (record { name = name; status = status_of c }) ];
}

pub small_gob-IsFaithful : IsFaithful small_gob
small_gob-IsFaithful = record { back = λ n t e. ground arith; filled = λ n e. cc e }

abbrev pub gossip_of : Text → Gossip
gossip_of n = record {
  nodes = [];
  self = member_named n;
  local_meta = none;
  broadcasts = [];
  events_open = true;
}
