-- ===== src/CheckPredecessor/Laws.antt =====
-- The flag that keeps the node from asking twice at a time.
use peerpaste.Base.{◌≡◌, refl, Bool, true, false, none, some, arith}
use peerpaste.Peer.{Peer}
use peerpaste.Request.{RequestObject, is_request}
use peerpaste.Table.{try_get_predecessor, reset_predecessor, has_predecessor}
use peerpaste.Task.{set_state, set_table, request_destruction, end_with, ask, failed, done}
use peerpaste.CheckPredecessor.{
  CheckPredecessor, set_task, waiting, create_request, take_response, handle_response,
  handle_failed,
}

-- With no predecessor a check ends at once, as failed, and the flag stays as it was.
pub create_request-alone :
    (c : CheckPredecessor)
    → c.task.table.predecessor ≡ none
    → (d : CheckPredecessor) × (create_request c ≡ some d)
      × (d.task.is_done ≡ true)
      × (d.task.state ≡ failed)
      × (d.check_predecessor_flag ≡ c.check_predecessor_flag)
unfolding create_request try_get_predecessor request_destruction
create_request-alone c e = (
  set_task c
      (end_with failed (set_table (record (c.task.table) { predecessor_is_set = false }) c.task)),
  ground arith,
  ground arith,
  ground arith,
  ground arith,
)

flagged : CheckPredecessor → Bool → CheckPredecessor
flagged c b = record c { check_predecessor_flag = some b }

-- With a predecessor the flag is up while the check waits, and both ways out lower it: a response
-- leaves the table as it was and ends the check as done; a check whose time is over forgets the
-- predecessor and counts as failed.
pub check_lifecycle :
    (c : CheckPredecessor) (p : Peer) (flag : Bool) (r : RequestObject)
    → c.task.table.predecessor ≡ some p
    → c.check_predecessor_flag ≡ some flag
    → is_request r ≡ false
    → (d : CheckPredecessor) × (answered : CheckPredecessor) × (lost : CheckPredecessor)
      × (create_request c ≡ some d)
      × (d.check_predecessor_flag ≡ some true)
      × (handle_response d r ≡ some answered)
      × (answered.check_predecessor_flag ≡ some false)
      × (answered.task.table ≡ c.task.table)
      × (answered.task.state ≡ done)
      × (answered.task.is_done ≡ true)
      × (handle_failed d ≡ some lost)
      × (lost.check_predecessor_flag ≡ some false)
      × (has_predecessor lost.task.table ≡ false)
      × (lost.task.state ≡ failed)
unfolding create_request waiting handle_response take_response handle_failed try_get_predecessor
    has_predecessor reset_predecessor request_destruction ask flagged
check_lifecycle c p flag r e f a = (
  flagged (waiting c p) true,
  take_response r (flagged (waiting c p) false),
  set_task (flagged (waiting c p) false)
      (set_state failed (set_table (reset_predecessor c.task.table) (waiting c p).task)),
  ground arith,
  refl,
  ground arith,
  ground arith,
  ground arith,
  ground arith,
  ground arith,
  ground arith,
  refl,
  ground arith,
  refl,
)
