-- ===== src/Task/Deadline.antt =====
-- `check_state` and `is_timed_out` of src/messaging_base.cpp, on an object and the objects that it depends on. The
-- clock shows one time throughout a check.
use peerpaste.Base.{ltb, if◌then◌else◌, ℕ, Bool, true, false, ◌&&◌, ◌||◌}
use peerpaste.Task.{MessageState, failed, timed_out, valid}

-- What `check_state` reads and writes of an object.
pub record Status : Type 0 where
  pub is_done : Bool
  pub state : MessageState
  pub time_point : ℕ

mutual
  pub data Object : Type 0 where
    object : Status → Dependencies → Object

  -- Each dependency says whether it is essential.
  pub data Dependencies : Type 0 where
    alone : Dependencies
    depends : Object → Bool → Dependencies → Dependencies

abbrev pub is_lost : MessageState → Bool
is_lost s = elim s [ failed ↦ true | timed_out ↦ true | _ ↦ false ]

-- `state_ = TIMEDOUT; is_done_ = true;`
abbrev pub time_out : Status → Status
time_out s = record s { is_done = true; state = timed_out }

-- `handle_failed` is what the object's class overrides. `any_of` stops at the first essential
-- dependency that is lost, and those behind it stay unchecked. An object that is lost for one of them
-- keeps the state that `handle_failed` leaves.
unfoldable mutual
  pub check_state : (Status → Status) → ℕ → Object → MessageState × Object
  check_state handle_failed now (object s ds) =
      let (any_lost, checked) = check_dependencies handle_failed now ds in
      if s.is_done
      then (s.state, object s ds)
      else if ltb s.time_point now
      then ((handle_failed (time_out s)).state, object (handle_failed (time_out s)) ds)
      else if any_lost
      then (timed_out, object (record (handle_failed s) { is_done = true }) checked)
      else (valid, object s checked)

  pub check_dependencies : (Status → Status) → ℕ → Dependencies → Bool × Dependencies
  check_dependencies handle_failed now alone = (false, alone)
  check_dependencies handle_failed now (depends o essential ds) =
      let (state, checked) = check_state handle_failed now o in
      let (any_lost, rest) = check_dependencies handle_failed now ds in
      if is_lost state && essential
      then (true, depends checked essential ds)
      else (any_lost, depends checked essential rest)

-- `for_each` asks all dependencies; none is changed, and whether one is done does not count.
unfoldable mutual
  pub is_timed_out : ℕ → Object → Bool
  is_timed_out now (object s ds) =
      let essential_is_over = removed_essential_dependency now ds in
      if ltb s.time_point now then true else essential_is_over

  pub removed_essential_dependency : ℕ → Dependencies → Bool
  removed_essential_dependency now alone = false
  removed_essential_dependency now (depends o essential ds) =
      is_timed_out now o && essential || removed_essential_dependency now ds
