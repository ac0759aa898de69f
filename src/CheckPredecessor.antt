-- ===== src/CheckPredecessor.antt =====
-- src/check_predecessor.cpp: a node asks its predecessor for a sign of life.
pub mod Laws
pub mod Watch
pub mod Checks
pub mod Passes
pub mod Watching
pub mod Released
use mathlib.Core.Option
use peerpaste.Base.{if◌then◌else◌, text, Bool, true, false, Option, none, some, [], map}
use peerpaste.Peer.{Peer}
use peerpaste.Message
use peerpaste.Message.{generate_response}
use peerpaste.Request.{RequestObject, MessageType}
use peerpaste.Request
use peerpaste.Table.{try_get_predecessor, reset_predecessor}
use peerpaste.Task.{
  MessageState, Task, set_state, set_table, end_with, count_up, ask, reply, failed, done,
}

-- The flag belongs to the message handler; an object made for a request has a null pointer.
pub record CheckPredecessor : Type 0 where
  pub task : Task MessageState
  pub check_predecessor_flag : Option Bool

-- A write through a null pointer is undefined.
abbrev set_flag : Bool → CheckPredecessor → Option CheckPredecessor
set_flag b c = elim (c.check_predecessor_flag) [
  | none ↦ none
  | some old ↦ some (record c { check_predecessor_flag = some b })
]

abbrev pub set_task : CheckPredecessor → Task MessageState → CheckPredecessor
set_task c t = record c { task = t }

-- The check of `target`, sent and waiting.
unfoldable pub waiting : CheckPredecessor → Peer → CheckPredecessor
waiting c target = set_task c (
    ask MessageType.check_predecessor
      (Message.create_request c.task.source (text "check_predecessor") []) target (count_up c.task))

unfoldable pub create_request : CheckPredecessor → Option CheckPredecessor
create_request c =
    let looked = set_task c (set_table (try_get_predecessor c.task.table).1 c.task) in
    elim ((try_get_predecessor c.task.table).0) [
      | none ↦ some (set_task c (end_with failed looked.task))
      | some target ↦ set_flag true (waiting looked target)
    ]

unfoldable pub handle_request : CheckPredecessor → CheckPredecessor
handle_request c = elim (c.task.request) [
  | none ↦ set_task c (end_with failed c.task)
  | some r ↦ set_task c (end_with done (reply r (generate_response r.message) c.task))
]

-- Behind the write of the flag.
unfoldable pub take_response : RequestObject → CheckPredecessor → CheckPredecessor
take_response r c =
    if Request.is_request r
    then set_task c (set_state failed (set_table (reset_predecessor c.task.table) c.task))
    else set_task c (end_with done c.task)

unfoldable pub handle_response : CheckPredecessor → RequestObject → Option CheckPredecessor
handle_response c r = Option.map (take_response r) (set_flag false c)

unfoldable pub handle_failed : CheckPredecessor → Option CheckPredecessor
handle_failed c =
    set_flag false
      (set_task c (set_state failed (set_table (reset_predecessor c.task.table) c.task)))
