-- ===== src/Query.antt =====
-- src/query.cpp: a node asks another one under which address it is seen, and takes the answer for
-- itself.
pub mod Laws
use peerpaste.Base.{Bytes, text, Option, none, some, List, [], ◌∷◌, ◌++◌}
use peerpaste.Peer.{Peer, default_peer}
use peerpaste.Message
use peerpaste.Message.{Message, generate_response, Source}
use peerpaste.Request.{RequestObject, MessageType, get_client_ip}
use peerpaste.Table.{RoutingTable, try_get_self, set_self}
use peerpaste.Task.{
  MessageState, Task, set_state, set_table, request_destruction, end_with, set_promise, count_up,
  ask, reply, failed, done,
}

pub record Query : Type 0 where
  pub task : Task (Option Peer)
  pub target : Peer

abbrev pub set_task : Query → Task (Option Peer) → Query
set_task q t = record q { task = t }

-- A failed `try_get_self` leaves the default peer as it is.
abbrev or_default : Option Peer → Peer
or_default none = default_peer
or_default (some p) = p

-- Without a self the request is made all the same.
unfoldable pub create_request : Query → Query
create_request q =
    let (self, table) = try_get_self q.task.table in
    let m : Message = Message.create_request q.task.source (text "query") (or_default self ∷ []) in
    set_task q (ask MessageType.query m q.target (count_up (set_table table q.task)))

-- The peer as it is seen from here. `generate_sha256(ip, port)` hashes the two in a row.
unfoldable pub seen_as : Source → Bytes → Peer → Peer
seen_as s client_ip peer = record {
  id = s.digest (client_ip ++ peer.port);
  ip = client_ip;
  port = peer.port;
}

-- Behind the read of the request; `front()` of an empty vector is undefined.
answer : RequestObject → List Peer → Option Bytes → Query → Option Query
answer r (peer ∷ peers) (some client_ip) q = some (
    set_task q (
      end_with done (
        reply r
          (record (generate_response r.message) {
            peers = seen_as q.task.source client_ip peer ∷ [];
          })
          q.task)))
answer r _ _ q = none

unfoldable pub handle_request : Query → Option Query
unfolding answer
handle_request q = elim (q.task.request) [
  | none ↦ none
  | some r ↦ answer r r.message.peers (get_client_ip r) q
]

-- `set_promise(v); RequestDestruction();`
unfoldable pub settle : Option Peer → Task (Option Peer) → Query → Option Query
settle v t q = elim (set_promise v t) [
  | none ↦ none
  | some u ↦ some (set_task q (request_destruction u))
]

-- By the peers of the response.
take_peers : List Peer → Query → Option Query
take_peers (peer ∷ []) q =
    settle (some peer) (set_state done (set_table (set_self q.task.table peer) q.task)) q
take_peers _ q = settle none (set_state failed q.task) q

unfoldable pub handle_response : Query → RequestObject → Option Query
unfolding take_peers
handle_response q r = take_peers r.message.peers q

unfoldable pub handle_failed : Query → Option Query
handle_failed q = elim (set_promise none q.task) [ none ↦ none | some t ↦ some (set_task q t) ]
