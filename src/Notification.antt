-- ===== src/Notification.antt =====
-- src/notify.cpp: a node tells its successor that it comes before it.
pub mod Laws
pub mod Closest
use peerpaste.Base.{if◌then◌else◌, text, bytes_eq, Option, none, some, List, [], ◌∷◌}
use peerpaste.Peer.{Peer, default_peer}
use peerpaste.Message.{generate_response}
use peerpaste.Message
use peerpaste.Request.{RequestObject, MessageType}
use peerpaste.Ring.{between}
use peerpaste.Table.{
  RoutingTable, try_get_self, try_get_predecessor, try_get_successor, has_predecessor,
  set_predecessor,
}
use peerpaste.Task.{
  MessageState, Task, set_state, set_table, notify, end_with, count_up, ask, reply, failed, done,
}

abbrev pub Notification : Type 0
Notification = Task MessageState

-- `create_request` behind its guards.
send_notify : Peer → Peer → Notification → Notification
send_notify self target t =
    ask MessageType.notification (Message.create_request t.source (text "notify") (self ∷ []))
      target (count_up t)

-- The guard on the successor. A failure here does not end the object.
create_request_to : Peer → RoutingTable → Notification → Notification
unfolding send_notify
create_request_to self table t = elim ((try_get_successor table).0) [
  | none ↦ set_state failed (set_table (try_get_successor table).1 t)
  | some target ↦ send_notify self target (set_table (try_get_successor table).1 t)
]

unfoldable pub create_request : Notification → Notification
unfolding create_request_to
create_request t = elim ((try_get_self t.table).0) [
  | none ↦ set_state failed (set_table (try_get_self t.table).1 t)
  | some self ↦
      if bytes_eq self.id []
      then set_state failed (set_table (try_get_self t.table).1 t)
      else create_request_to self (try_get_self t.table).1 t
]

abbrev or_default : Option Peer → Peer
or_default none = default_peer
or_default (some p) = p

-- The node has a predecessor: the notifying peer takes its place if it lies between it and the node.
rectify : Peer → RoutingTable → RoutingTable
rectify peer table =
    let (predecessor, with_predecessor) = try_get_predecessor table in
    let (self, with_self) = try_get_self with_predecessor in
    if between (or_default predecessor).id peer.id (or_default self).id
    then set_predecessor with_self peer
    else with_self

-- `handle_request` for a message with the peers `ps`. Without a predecessor there is no answer.
handle_peers : RequestObject → List Peer → Notification → Notification
unfolding rectify
handle_peers r (peer ∷ []) t =
    if has_predecessor t.table
    then end_with done (reply r (generate_response r.message) (set_table (rectify peer t.table) t))
    else set_state failed (set_table (set_predecessor t.table peer) t)
handle_peers r ps t = set_state failed t

unfoldable pub handle_request : Notification → Notification
unfolding handle_peers
handle_request t = elim (t.request) [
  | none ↦ set_state failed t
  | some r ↦ handle_peers r r.message.peers t
]

unfoldable pub handle_response : Notification → RequestObject → Notification
handle_response t r = end_with done t

unfoldable pub handle_failed : Notification → Notification
handle_failed t = set_state failed t
