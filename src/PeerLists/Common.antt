-- ===== src/PeerLists/Common.antt =====
-- The members that the three classes share.
use peerpaste.Base.{Bool, Option, none, some, List}
use peerpaste.Peer.{Peer}
use peerpaste.Task.{MessageState, Task, set_state, request_destruction, set_promise}

-- The three classes have the same members. The promise holds an optional list of peers.
pub record PeerListRequest : Type 0 where
  pub task : Task (Option (List Peer))
  pub target : Option Peer
  pub has_table : Bool  -- whether the pointer to the routing table is there

abbrev pub set_task : PeerListRequest → Task (Option (List Peer)) → PeerListRequest
set_task c t = record c { task = t }

-- `state_ = s; set_promise(v); RequestDestruction();`
unfoldable pub settle : MessageState → Option (List Peer) → PeerListRequest → Option PeerListRequest
settle s v c = elim (set_promise v (set_state s c.task)) [
  | none ↦ none
  | some t ↦ some (set_task c (request_destruction t))
]
