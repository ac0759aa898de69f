-- ===== src/Stabilize.antt =====
-- src/stabilize.cpp: a node asks its successor for its neighbours, and takes over what it says.
-- The objects that it starts run by their own classes; here a child is what `Stabilize` reads of it.
pub mod Laws
pub mod Round
pub mod Answers
pub mod Asking
pub mod Settled
use mathlib.Core.Option
use peerpaste.Base.{
  ◌==◌, if◌then◌else◌, length, ◌+◌, Bool, false, Option, none, some, List, [], ◌∷◌, map,
}
use peerpaste.Peer.{Peer}
use peerpaste.Request.{MessageType, get_pred_and_succ_list, get_self_and_succ_list, notification}
use peerpaste.Ring.{between}
use peerpaste.Table.{try_get_self, try_get_successor, replace_successor_list, pop_front}
use peerpaste.Task.{
  MessageState, duration, Task, set_state, set_table, end_with, failed, valid, done,
}

pub record Child : Type 0 where
  pub type : MessageType
  pub target : Option Peer  -- whom it was made to ask
  pub is_done : Bool
  pub state : MessageState
  pub promise : Option (Option (List Peer))

-- The flag belongs to the message handler. The newest child stands first.
pub record Stabilize : Type 0 where
  pub task : Task MessageState
  pub stabilize_flag : Option Bool
  pub dependencies : List Child

abbrev pub set_task : Stabilize → Task MessageState → Stabilize
set_task s t = record s { task = t }

-- A write through a null pointer is undefined.
abbrev pub set_flag : Bool → Stabilize → Option Stabilize
set_flag b s = elim (s.stabilize_flag) [
  | none ↦ none
  | some old ↦ some (record s { stabilize_flag = some b })
]

-- A child is made, put in front and run.
abbrev pub start : MessageType → Option Peer → Stabilize → Stabilize
start type target s =
    let child : Child = record {
      type = type;
      target = target;
      is_done = false;
      state = valid;
      promise = none;
    } in
    record s { dependencies = child ∷ s.dependencies }

unfoldable pub create_notification : Stabilize → Stabilize
create_notification s = start notification none s

-- `state_ = FAILED; *stabilize_flag_ = false; RequestDestruction();`
unfoldable pub fail : Stabilize → Option Stabilize
fail s = set_flag false (set_task s (end_with failed s.task))

unfoldable pub create_request : Stabilize → Option Stabilize
create_request s =
    let looked = set_task s (set_table (try_get_successor s.task.table).1 s.task) in
    elim ((try_get_successor s.task.table).0) [
      | none ↦ fail looked
      | some target ↦ some (start get_pred_and_succ_list (some target) looked)
    ]

-- The first peer is erased only if others follow.
abbrev pub successors_of : Peer → List Peer → List Peer
successors_of p [] = p ∷ []
successors_of p (q ∷ qs) = q ∷ qs

-- `p` is the predecessor of the successor `succ`.
adopt : Peer → Peer → Peer → Stabilize → Option Stabilize
adopt self succ p s =
    if between self.id p.id succ.id
    then some (start get_self_and_succ_list (some p) s)
    else set_flag false (create_notification s)

-- Behind the read of the own successor.
adopt_from : Peer → Peer → List Peer → Stabilize → Option Stabilize
unfolding adopt
adopt_from self p rest s =
    let looked = set_task s (set_table (try_get_successor s.task.table).1 s.task) in
    elim ((try_get_successor s.task.table).0) [
      | none ↦ fail looked
      | some succ ↦ adopt self succ p (
          set_task looked (
            set_table (replace_successor_list looked.task.table (succ ∷ successors_of p rest))
              looked.task))
    ]

-- `handle_get_pred_and_succ_list_notify`, behind the new time limit. No peers at all count as a
-- successor that is gone.
unfoldable pub take_pred_and_succ_list : List Peer → Stabilize → Option Stabilize
unfolding adopt_from
take_pred_and_succ_list [] s =
    Option.map create_notification
      (set_flag false (set_task s (set_table (pop_front s.task.table).1 s.task)))
take_pred_and_succ_list (p ∷ rest) s =
    let looked = set_task s (set_table (try_get_self s.task.table).1 s.task) in
    elim ((try_get_self s.task.table).0) [
      | none ↦ fail looked
      | some self ↦ adopt_from self p rest looked
    ]

-- `handle_get_self_and_succ_list_notify`, behind the new time limit.
unfoldable pub take_self_and_succ_list : List Peer → Stabilize → Option Stabilize
take_self_and_succ_list l s =
    Option.map create_notification
      (set_flag false (set_task s (set_table (replace_successor_list s.task.table l) s.task)))

-- `time_point_ = now() + DURATION`.
abbrev pub extend : Stabilize → Stabilize
extend s = set_task s (record (s.task) { time_point = s.task.source.clock + duration })

-- `get_future().get().value()`: an empty optional throws, and a promise that is not set blocks for
-- ever.
abbrev with_peers :
    Option (Option (List Peer))
    → (List Peer → Stabilize → Option Stabilize)
    → Stabilize
    → Option Stabilize
with_peers (some (some l)) k s = k l (extend s)
with_peers _ k s = none

take_child : MessageType → Child → Stabilize → Option Stabilize
take_child get_pred_and_succ_list c s = with_peers c.promise take_pred_and_succ_list s
take_child get_self_and_succ_list c s = with_peers c.promise take_self_and_succ_list s
take_child notification c s = some (set_task s (end_with done s.task))
take_child _ c s = some s

abbrev pub is_done_well : Child → Bool
is_done_well c = elim (c.state) [ done ↦ c.is_done | _ ↦ false ]

-- `HandleNotification()`: a child tells that it has come to its end. Only the front one is looked
-- at, whichever it was; `front()` of an empty vector is undefined.
unfoldable pub handle_notification : Stabilize → Option Stabilize
unfolding take_child
handle_notification s = elim (s.dependencies) [
  | [] ↦ none
  | c ∷ cs ↦ if is_done_well c then take_child c.type c s else fail s
]

-- A lone child is the question to the successor, which then counts as gone.
unfoldable pub handle_failed : Stabilize → Option Stabilize
handle_failed s =
    let table = if length s.dependencies == 1 then (pop_front s.task.table).1 else s.task.table in
    set_flag false (set_task s (set_state failed (set_table table s.task)))
