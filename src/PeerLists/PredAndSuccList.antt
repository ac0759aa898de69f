-- ===== src/PeerLists/PredAndSuccList.antt =====
-- src/get_pred_and_succ_list.cpp: the predecessor and the successor list of another node.
use peerpaste.Base.{if◌then◌else◌, text, Option, none, some, List, [], ◌∷◌}
use peerpaste.Peer.{Peer}
use peerpaste.Message
use peerpaste.Message.{Message, generate_response}
use peerpaste.Request
use peerpaste.Request.{RequestObject, MessageType}
use peerpaste.Table.{RoutingTable, get_peers, try_get_predecessor}
use peerpaste.Task.{set_state, set_table, count_up, ask, reply, failed, done}
use peerpaste.PeerLists.Common.{PeerListRequest, set_task, settle}

unfoldable pub create_request : PeerListRequest → Option PeerListRequest
create_request c = elim (c.target) [
  | none ↦ settle failed none c
  | some target ↦ some (
      set_task c (
        ask MessageType.unknown
          (Message.create_request c.task.source (text "get_predecessor_and_succ_list") []) target
          (count_up c.task)))
]

-- A node without a predecessor answers with no peer at all.
unfoldable pub known_peers : RoutingTable → List Peer × RoutingTable
known_peers table = elim ((try_get_predecessor table).0) [
  | none ↦ ([], (try_get_predecessor table).1)
  | some p ↦ (p ∷ get_peers table, (try_get_predecessor table).1)
]

-- The routing table is reached through a null pointer, if the object was made for asking.
unfoldable pub handle_request : PeerListRequest → Option PeerListRequest
handle_request c = elim (c.task.request) [
  | none ↦ settle failed none c
  | some r ↦
      if c.has_table
      then (let (peers, table) = known_peers c.task.table in
          settle done none (
            set_task c (
              reply r (record (generate_response r.message) { peers = peers })
                (set_table table c.task))))
      else none
]

-- An answer that is itself a request is refused.
unfoldable pub handle_response : PeerListRequest → RequestObject → Option PeerListRequest
handle_response c r =
    if Request.is_request r then settle failed none c else settle done (some r.message.peers) c

-- The promise is left as it is, unlike in the other two classes.
unfoldable pub handle_failed : PeerListRequest → PeerListRequest
handle_failed c = set_task c (set_state failed c.task)
