-- ===== src/CheckPredecessor/Watch.antt =====
-- The thread of include/peerpaste/message_handler.hpp that watches the predecessor, with the checks that
-- it has made. They share the flag, the routing table and the source of identifiers. One turn of the
-- thread, one response and one cleaning are steps, and time passes in between.
use peerpaste.Base.{
  ltb, if◌then◌else◌, length, Bytes, bytes_eq, ℕ, zero, suc, ◌+◌, Bool, true, false, not, ◌&&◌,
  Option, none, some, List, [], ◌∷◌, ◌++◌,
}
use peerpaste.Message.{Source}
use peerpaste.Request.{RequestObject, MessageType, is_request}
use peerpaste.Table.{RoutingTable}
use peerpaste.Task
use peerpaste.Task.{timed_out}
use peerpaste.Queue.{refill}
use peerpaste.CheckPredecessor.{CheckPredecessor, create_request, handle_response, handle_failed}

-- `active_messages` as far as they are checks of the predecessor.
pub record Watch : Type 0 where
  pub check_predecessor_flag : Bool
  pub table : RoutingTable
  pub source : Source
  pub next_object : ℕ
  pub active_messages : List CheckPredecessor

-- A check with what it shares as it is now, and what it shares as the check leaves it.
abbrev pub attach : Watch → CheckPredecessor → CheckPredecessor
attach w c = record c {
  check_predecessor_flag = some w.check_predecessor_flag;
  task = record (c.task) { table = w.table; source = w.source };
}

abbrev pub or_else : Bool → Option Bool → Bool
or_else b none = b
or_else b (some c) = c

abbrev pub detach : Watch → CheckPredecessor → Watch
detach w c = record w {
  check_predecessor_flag = or_else w.check_predecessor_flag c.check_predecessor_flag;
  table = c.task.table;
  source = c.task.source;
}

-- `CheckPredecessor(routing_table, checkpre)`.
unfoldable pub new : Watch → CheckPredecessor
new w = record {
  task = Task.new w.next_object MessageType.check_predecessor none w.source w.table;
  check_predecessor_flag = some w.check_predecessor_flag;
}

unfoldable pub check_predecessor : Watch → Option Watch
unfolding new
check_predecessor w = elim (create_request (new w)) [
  | none ↦ none
  | some c ↦ some (record (detach w c) {
    next_object = suc w.next_object;
    active_messages = w.active_messages ++ c ∷ [];
  })
]

-- What `run_chord_internal` does for the predecessor.
unfoldable pub turn : Watch → Option Watch
unfolding check_predecessor
turn w = if w.check_predecessor_flag then some w else check_predecessor w

-- A check that is over does not exist any more.
abbrev pub waits_for : Bytes → CheckPredecessor → Bool
waits_for id c = elim (c.task.handler_object) [
  | none ↦ false
  | some h ↦ not c.task.is_done && bytes_eq h.correlation_id id
]

-- The handler that is found for a response is called.
unfoldable pub answer_in :
    RequestObject → Watch → List CheckPredecessor → Option (Watch × List CheckPredecessor)
answer_in r w [] = some (w, [])
answer_in r w (c ∷ cs) =
    let rest = answer_in r w cs in
    if waits_for r.message.header.correlational_id c
    then elim (handle_response (attach w c) r) [ none ↦ none | some d ↦ some (detach w d, d ∷ cs) ]
    else elim rest [ none ↦ none | some (v, ds) ↦ some (v, c ∷ ds) ]

unfoldable pub answer : RequestObject → Watch → Option Watch
answer r w = if is_request r then some w else elim (answer_in r w w.active_messages) [
  | none ↦ none
  | some (v, cs) ↦ some (record v { active_messages = cs })
]

-- `state_ = TIMEDOUT; is_done_ = true;`
abbrev pub time_out : CheckPredecessor → CheckPredecessor
time_out c = record c { task = record (c.task) { state = timed_out; is_done = true } }

-- A check depends on no other object.
unfoldable pub check_state : Watch → CheckPredecessor → Option (Watch × CheckPredecessor)
check_state w c =
    if c.task.is_done
    then some (w, c)
    else if ltb c.task.time_point w.source.clock
    then elim (handle_failed (time_out (attach w c))) [
      | none ↦ none
      | some d ↦ some (detach w d, d)
    ]
    else some (w, c)

-- The loop from `it` on, where the last entry takes the place of one that is over.
unfoldable pub clean_loop :
    ℕ → Watch → List CheckPredecessor → Option (Watch × List CheckPredecessor)
clean_loop zero w q = some (w, q)
clean_loop (suc n) w [] = some (w, [])
clean_loop (suc n) w (c ∷ behind) = elim (check_state w c) [
  | none ↦ none
  | some (v, d) ↦
      let rest = clean_loop n v (if d.task.is_done then refill behind else behind) in
      elim rest [ none ↦ none | some (u, ds) ↦ some (u, if d.task.is_done then ds else d ∷ ds) ]
]

unfoldable pub clean : Watch → Option Watch
unfolding clean_loop
clean w = elim (clean_loop (length w.active_messages) w w.active_messages) [
  | none ↦ none
  | some (v, cs) ↦ some (record v { active_messages = cs })
]

abbrev pub pass : ℕ → Watch → Watch
pass n w = record w { source = record (w.source) { clock = w.source.clock + n } }

pub data Step : Type 0 where
  turns : Step
  answers : RequestObject → Step
  cleans : Step
  passes : ℕ → Step

unfoldable pub step : Step → Watch → Option Watch
unfolding turn answer clean
step turns w = turn w
step (answers r) w = answer r w
step cleans w = clean w
step (passes n) w = some (pass n w)

unfoldable pub run : List Step → Watch → Option Watch
unfolding step
run [] w = some w
run (s ∷ ss) w = elim (step s w) [ none ↦ none | some v ↦ run ss v ]
