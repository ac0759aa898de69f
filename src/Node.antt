-- ===== src/Node.antt =====
-- include/peerpaste/message_handler.hpp: the whole node, with the objects at work.
pub mod Laws
use peerpaste.Base.{Bytes, ℕ, suc, Bool, Option, none, some, List, [], ◌∷◌, ◌++◌}
use peerpaste.Peer.{Peer, default_peer}
use peerpaste.Message.{Source}
use peerpaste.Request.{RequestObject, MessageType}
use peerpaste.Task
use peerpaste.Task.{Task}
use peerpaste.Table.{
  RoutingTable, try_get_self, try_get_predecessor, try_get_successor, set_self, set_successor,
}
use peerpaste.Storage.{Platform, Storage}
use peerpaste.Broadcast
use peerpaste.Handlers.{MessageHandler, handle_all}
use peerpaste.Factory.{
  MessageObject, notification, broadcast_filelist, Place, create_from_request, report, call,
}

-- `next_object` is the address of the object that is made next.
pub record Node (p : Platform) : Type 0 where
  pub handler : MessageHandler
  pub table : RoutingTable
  pub storage : Storage p
  pub source : Source
  pub active_messages : List MessageObject
  pub next_object : ℕ

-- `generate_sha256(ip, port)` hashes the two in a row.
unfoldable pub self_of : Source → Bytes → Bytes → Peer
self_of source ip port = record { id = source.digest (ip ++ port); ip = ip; port = port }

abbrev or_default : Option Peer → Peer
or_default none = default_peer
or_default (some p) = p

-- The first address behind the object's and its children's.
unfoldable pub behind : ℕ → MessageObject → ℕ
behind n (broadcast_filelist b) = b.next_object
behind n o = suc n

module _ {p : Platform} where
  -- What the constructor does with the table; the port is printed as a number.
  unfoldable pub with_self : Node p → Bytes → Bytes → Node p
  unfolding self_of
  with_self n ip port = record n { table = set_self n.table (self_of n.source ip port) }

  unfoldable pub init : Node p → Node p
  init n = elim ((try_get_self n.table).0) [
    | none ↦ record n { table = (try_get_self n.table).1 }
    | some self ↦ record n { table = set_successor (try_get_self n.table).1 self }
  ]

  abbrev pub place : Node p → Place
  place n = record { object = n.next_object; source = n.source; table = n.table }

  -- An object that has run: its notifications, one after the other, and then its place in the list.
  -- `alive` tells which objects still exist.
  unfoldable pub adopt : (ℕ → Bool) → Node p → MessageObject × Storage p → Node p
  unfolding report behind
  adopt alive n (o, storage) = record n {
    handler = handle_all alive n.handler (report o).events;
    table = (report o).table;
    storage = storage;
    source = (report o).source;
    active_messages = n.active_messages ++ o ∷ [];
    next_object = behind n.next_object o;
  }

  -- A new object, which is called at once.
  unfoldable pub create_request : (ℕ → Bool) → Node p → MessageObject → Option (Node p)
  unfolding adopt
  create_request alive n o = elim (call o n.storage) [
    | none ↦ none
    | some ran ↦ some (adopt alive n ran)
  ]

  -- The task of an object that is made to ask something.
  abbrev fresh_task : {A : Type 0} → Node p → MessageType → Task A
  fresh_task n type = Task.new n.next_object type none n.source n.table

  -- What `notify` makes, and `run_paste_internal` between two of its pauses.
  unfoldable pub notify : (ℕ → Bool) → Node p → Option (Node p)
  unfolding create_request
  notify alive n = create_request alive n (notification (fresh_task n MessageType.notification))

  unfoldable pub run_paste_internal : (ℕ → Bool) → Node p → Option (Node p)
  unfolding create_request
  run_paste_internal alive n = create_request alive n (
      broadcast_filelist
        (Broadcast.new (fresh_task n MessageType.broadcast_filelist) (suc n.next_object)))

  unfoldable pub handle_request : (ℕ → Bool) → Node p → RequestObject → Option (Node p)
  unfolding create_request
  handle_request alive n r = elim (create_from_request (place n) r) [
    | none ↦ some n
    | some o ↦ create_request alive n o
  ]

  -- The lookups write the flags of the table.
  unfoldable pub get_routing_information : Node p → (Peer × Peer × Peer) × Node p
  get_routing_information n =
      let (predecessor, t1) = try_get_predecessor n.table in
      let (self, t2) = try_get_self t1 in
      let (successor, t3) = try_get_successor t2 in
      ((or_default predecessor, or_default self, or_default successor), record n { table = t3 })
