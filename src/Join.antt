-- ===== src/Join.antt =====
-- src/join.cpp: a node that knows one address learns its identifier, looks its successor up, and takes
-- over the successor's list. The objects that it starts run by their own classes; here a child is what
-- `Join` reads of it.
pub mod Laws
use peerpaste.Base.{if◌then◌else◌, Bytes, ◌+◌, Bool, false, Option, none, some, List, [], ◌∷◌}
use peerpaste.Peer.{Peer}
use peerpaste.Request.{MessageType, query, find_successor, get_successor_list}
use peerpaste.Table.{set_successor, replace_after_successor}
use peerpaste.Task.{
  MessageState, duration, Task, set_state, set_table, end_with, set_promise, failed, valid, done,
}

-- `id` is what a child looks for, if it does; `peer` is the promise of a query or a lookup, `peers`
-- that of a request for a list.
pub record Child : Type 0 where
  pub type : MessageType
  pub target : Peer
  pub id : Bytes
  pub is_done : Bool
  pub state : MessageState
  pub peer : Option (Option Peer)
  pub peers : Option (Option (List Peer))

-- A child that has not been run.
abbrev pub child_of : MessageType → Peer → Bytes → Child
child_of type target id = record {
  type = type;
  target = target;
  id = id;
  is_done = false;
  state = valid;
  peer = none;
  peers = none;
}

-- A dependency may be the null pointer.
pub record Join : Type 0 where
  pub task : Task MessageState
  pub target : Peer
  pub dependencies : List (Option Child)

abbrev pub set_task : Join → Task MessageState → Join
set_task j t = record j { task = t }

-- `Join(routing_table, address, port)`, on the new task.
unfoldable pub new : Task MessageState → Bytes → Bytes → Join
new t address port =
    let target : Peer = record { id = []; ip = address; port = port } in
    record { task = t; target = target; dependencies = some (child_of query target []) ∷ [] }

-- The children are cleared, the time limit is new, and one child is made and run.
abbrev pub go_on : MessageType → Peer → Bytes → Join → Join
go_on type target id j = record j {
  task = record (j.task) { time_point = j.task.source.clock + duration };
  dependencies = some (child_of type target id) ∷ [];
}

-- `get_future().get().value()`: an empty optional throws, and a promise that is not set blocks for
-- ever.
abbrev value : {A : Type 0} → Option (Option A) → (A → Option Join) → Option Join
value (some (some a)) k = k a
value _ k = none

unfoldable pub handle_query_notify : Child → Join → Option Join
handle_query_notify c j = value c.peer (λ self. some (go_on find_successor j.target self.id j))

unfoldable pub handle_find_successor_notify : Child → Join → Option Join
handle_find_successor_notify c j = value c.peer (λ successor. some (
    go_on get_successor_list successor []
      (set_task j (set_table (set_successor j.task.table successor) j.task))))

unfoldable pub handle_get_successor_list_notify : Child → Join → Option Join
handle_get_successor_list_notify c j = value c.peers (λ l.
    elim (replace_after_successor j.task.table l) [
      | none ↦ none
      | some table ↦ some (set_task j (end_with done (set_table table j.task)))
    ])

take_child : MessageType → Child → Join → Option Join
take_child query c j = handle_query_notify c j
take_child find_successor c j = handle_find_successor_notify c j
take_child get_successor_list c j = handle_get_successor_list_notify c j
take_child _ c j = some j

abbrev pub is_done_well : Child → Bool
is_done_well c = elim (c.state) [ done ↦ c.is_done | _ ↦ false ]

-- `HandleNotification()`: `front()` of an empty vector is undefined.
unfoldable pub handle_notification : Join → Option Join
unfolding take_child
handle_notification j = elim (j.dependencies) [
  | [] ↦ none
  | none ∷ cs ↦ some (set_task j (end_with failed j.task))
  | some c ∷ cs ↦
      if is_done_well c then take_child c.type c j else some (set_task j (end_with failed j.task))
]

unfoldable pub handle_failed : Join → Join
handle_failed j = set_task j (set_state failed j.task)

-- The destructor's promise.
unfoldable pub destroy : Join → Option Join
destroy j = elim (set_promise j.task.state j.task) [ none ↦ none | some t ↦ some (set_task j t) ]
