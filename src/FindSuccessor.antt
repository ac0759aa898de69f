-- ===== src/FindSuccessor.antt =====
-- src/find_successor.cpp: who comes after an identifier on the ring.
pub mod Closest
pub mod Laws
pub mod Route
pub mod Exchange
use mathlib.Core.List.{reverse}
use mathlib.Core.Option
use peerpaste.Base.{
  ◌==◌, if◌then◌else◌, Bytes, text, bytes_eq, false, ◌||◌, Option, none, some, List, [], ◌∷◌, map,
}
use peerpaste.Peer.{Peer}
use peerpaste.Message
use peerpaste.Message.{Message, generate_response, generate_transaction_id, advance}
use peerpaste.Request.{
  MessageType, Connection, RequestObject, set_message, Entry, to_peer, handle_response,
  handle_forwarded_response, send,
}
use peerpaste.Ring.{between}
use peerpaste.Table.{RoutingTable, try_get_self, try_get_successor, size, get_peers}
use peerpaste.Task
use peerpaste.Task.{
  Task, set_state, set_table, notify, request_destruction, end_with, set_promise, count_up, await,
  failed, done,
}

-- The loop from the last entry of the successor list to the first.
unfoldable pub first_between : Bytes → Bytes → List Peer → Option Peer
first_between self_id id [] = none
first_between self_id id (p ∷ ps) =
    if between self_id p.id id then some p else first_between self_id id ps

unfoldable pub closest_in : Peer → List Peer → Bytes → Peer
closest_in self peers id = elim (first_between self.id id (reverse peers)) [
  | none ↦ self
  | some p ↦ p
]

-- The null pointer is `none`.
unfoldable pub closest_preceding_node : RoutingTable → Bytes → Option Peer × RoutingTable
closest_preceding_node table id = elim ((try_get_self table).0) [
  | none ↦ (none, (try_get_self table).1)
  | some self ↦ (some (closest_in self (get_peers table) id), (try_get_self table).1)
]

-- `predecessor->get_id() == self.get_id()`: reading through a null pointer is undefined.
unfoldable pub self_if_closest : RoutingTable → Peer → Bytes → Option (Option Peer × RoutingTable)
self_if_closest table self id = elim ((closest_preceding_node table id).0) [
  | none ↦ none
  | some p ↦
      some (if bytes_eq p.id self.id then some self else none, (closest_preceding_node table id).1)
]

-- The body of `find_successor` behind its first guard.
unfoldable pub find_successor_of : RoutingTable → Peer → Bytes → Option (Option Peer × RoutingTable)
find_successor_of table self id =
    if size table == 0 then self_if_closest table self id else elim ((try_get_successor table).0) [
      | none ↦ some (none, (try_get_successor table).1)
      | some successor ↦
          if between self.id id successor.id || bytes_eq id successor.id
          then some (some successor, (try_get_successor table).1)
          else self_if_closest (try_get_successor table).1 self id
    ]

unfoldable pub find_successor : RoutingTable → Bytes → Option (Option Peer × RoutingTable)
find_successor table id = elim ((try_get_self table).0) [
  | none ↦ some (none, (try_get_self table).1)
  | some self ↦ find_successor_of (try_get_self table).1 self id
]

pub record FindSuccessor : Type 0 where
  pub task : Task (Option Peer)
  pub id : Bytes
  pub target : Option Peer

abbrev pub set_task : FindSuccessor → Task (Option Peer) → FindSuccessor
set_task f t = record f { task = t }

-- Sends `m`, which has its identifier, and waits for the response at `entry`.
ask : Message → Entry → Connection → Task (Option Peer) → Task (Option Peer)
ask m entry connection = await m.header.transaction_id entry false (record {
  type = MessageType.find_successor;
  message = m;
  connection = connection;
  on_write_handler = false;
})

-- `Message::create_request` makes an identifier, and the method makes a second one.
unfoldable pub ask_twice_named :
    List Peer → Entry → Connection → Task (Option Peer) → Task (Option Peer)
unfolding ask
ask_twice_named peers entry connection t =
    let first : Message = Message.create_request t.source (text "find_successor") peers in
    ask (generate_transaction_id (advance t.source) first) entry connection (count_up (count_up t))

-- The identifier that is looked for, as the only peer of a request.
abbrev pub wanted : Bytes → List Peer
wanted id = record { id = id; ip = []; port = [] } ∷ []

-- `create_request` behind its lookup: no target, and the node cannot answer itself.
ask_closest : FindSuccessor → Task (Option Peer) → FindSuccessor
ask_closest f t =
    let (closest, table) = closest_preceding_node t.table f.id in
    set_task f (ask_twice_named (wanted f.id) handle_response (to_peer closest) (set_table table t))

unfoldable pub create_request : FindSuccessor → Option FindSuccessor
unfolding ask_twice_named ask_closest
create_request f = elim (f.target) [
  | some p ↦
      some (set_task f (ask_twice_named (wanted f.id) handle_response (to_peer (some p)) f.task))
  | none ↦ elim (find_successor f.task.table f.id) [
    | none ↦ none
    | some (none, table) ↦ some (ask_closest f (set_table table f.task))
    | some (some successor, table) ↦
        Option.map (λ t. set_task f (end_with done t))
          (set_promise (some successor) (set_table table f.task))
  ]
]

-- Answers `r` with one peer.
unfoldable pub answer : RequestObject → Peer → Task (Option Peer) → Task (Option Peer)
answer r p t =
    let reply : Message = record (generate_response r.message) { peers = p ∷ [] } in
    end_with done
      (notify (send (set_message r (generate_transaction_id t.source reply))) (count_up t))

-- Asks the closest known peer on behalf of `r`. Here `front()` of the peers is read again.
forward_request : RequestObject → Peer → FindSuccessor → FindSuccessor
unfolding ask_twice_named
forward_request r front f =
    let (closest, table) = closest_preceding_node f.task.table front.id in
    set_task f (
      ask_twice_named (front ∷ []) handle_forwarded_response (to_peer closest)
        (set_table table f.task))

-- `front()` of an empty vector is undefined.
unfoldable pub handle_request : FindSuccessor → Option FindSuccessor
unfolding answer forward_request
handle_request f = elim (f.task.request) [
  | none ↦ some (set_task f (end_with failed f.task))
  | some r ↦ elim (r.message.peers) [
    | [] ↦ none
    | front ∷ peers ↦ elim (find_successor f.task.table front.id) [
      | none ↦ none
      | some (none, table) ↦ some (forward_request r front (set_task f (set_table table f.task)))
      | some (some successor, table) ↦
          some (set_task f (answer r successor (set_table table f.task)))
    ]
  ]
]

unfoldable pub handle_forwarded_response_of : FindSuccessor → RequestObject → Option FindSuccessor
unfolding answer
handle_forwarded_response_of f response = elim (f.task.request) [
  | none ↦ some (set_task f (end_with failed f.task))
  | some r ↦ elim (response.message.peers) [
    | [] ↦ none
    | successor ∷ peers ↦ some (set_task f (answer r successor f.task))
  ]
]

-- A response with no peer is logged, and then read all the same.
unfoldable pub handle_response_of : FindSuccessor → RequestObject → Option FindSuccessor
handle_response_of f response = elim (response.message.peers) [
  | [] ↦ none
  | successor ∷ peers ↦
      Option.map (λ t. set_task f (request_destruction t))
        (set_promise (some successor) (set_state done f.task))
]

unfoldable pub handle_failed : FindSuccessor → Option FindSuccessor
handle_failed f = Option.map (set_task f) (set_promise none f.task)
