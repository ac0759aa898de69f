-- ===== src/CheckPredecessor/Watching.antt =====
-- The flag of include/peerpaste/message_handler.hpp that keeps a second check from starting.
use peerpaste.Base.{
  length, ℕ, suc, ◌+◌, ◌≡◌, refl, sym, ap, ◌∙◌, subst, Bool, true, false, Option, some, List, [],
  ◌∷◌, ◌++◌, arith,
}
use peerpaste.Request.{RequestObject, is_request}
use peerpaste.Task.{duration}
use peerpaste.CheckPredecessor.{CheckPredecessor}
use peerpaste.CheckPredecessor.Watch.{
  Watch, detach, check_predecessor, turn, answer, clean, pass, Step, turns, answers, cleans, passes,
  step, run,
}
use peerpaste.CheckPredecessor.Checks.{
  one_if, count, AllUntil, count-append, AllUntil-append, AllUntil-mono, Starts, starting,
  create_request-starting, detach-flag,
}
use peerpaste.CheckPredecessor.Passes.{answer_in-Passes, clean_loop-Passes}

-- The flag is up exactly while one check waits, and never more than one does.
pub record IsWatching (w : Watch) : Type 0 where
  pub one : count w.active_messages ≡ one_if w.check_predecessor_flag
  pub due : AllUntil (w.source.clock + duration) w.active_messages

-- There is a result, which is watched at the same time.
unfoldable pub Watches : Watch → Option Watch → Type 0
Watches w r = (v : Watch) × (r ≡ some v) × IsWatching v × (v.source.clock ≡ w.source.clock)

check_predecessor-Watches :
    (w : Watch) → IsWatching w → w.check_predecessor_flag ≡ false → Watches w (check_predecessor w)
unfolding Watches Starts check_predecessor
check_predecessor-Watches w i e =
    let (same, l, begins) = create_request-starting w (w.table.predecessor) e refl in
    let d : CheckPredecessor = starting w (w.table.predecessor) in
    (
      record (detach w d) {
        next_object = suc w.next_object;
        active_messages = w.active_messages ++ d ∷ [];
      },
      ground (arith, same),
      record {
        one = omega (
          arith,
          count-append w.active_messages d,
          i.one,
          ap one_if e,
          begins,
          ap one_if (detach-flag w d l.flag l.leaves),
        );
        due =
            subst (λ t. AllUntil (t + duration) (w.active_messages ++ d ∷ [])) (sym l.time)
              (AllUntil-append (w.source.clock + duration) w.active_messages d i.due l.until);
      },
      l.time,
    )

-- A step leaves a watch; only a step of time moves the clock.
answer-Watches : (r : RequestObject) (w : Watch) → IsWatching w → Watches w (answer r w)
unfolding Watches answer
answer-Watches r w i = by_kind (is_request r) refl
  where
    by_kind : (b : Bool) → is_request r ≡ b → Watches w (answer r w)
    by_kind true e = (w, ground (arith, e), i, refl)
    by_kind false e =
        let (v, ds, same, left) =
          answer_in-Passes r 0 (w.source.clock + duration) w w.active_messages e
            (omega (arith, i.one)) i.due in
        (
          record v { active_messages = ds },
          ground (arith, e, same),
          record {
            one = omega (arith, left.adds_up);
            due = subst (λ t. AllUntil (t + duration) ds) (sym left.time) left.until;
          },
          left.time,
        )

clean-Watches : (w : Watch) → IsWatching w → Watches w (clean w)
unfolding Watches clean
clean-Watches w i =
    let (v, ds, same, left, empties) =
      clean_loop-Passes (length w.active_messages) 0 (w.source.clock + duration) w w.active_messages
        (omega (arith, i.one)) i.due in
    (
      record v { active_messages = ds },
      ground (arith, same),
      record {
        one = omega (arith, left.adds_up);
        due = subst (λ t. AllUntil (t + duration) ds) (sym left.time) left.until;
      },
      left.time,
    )

turn-Watches : (w : Watch) → IsWatching w → Watches w (turn w)
unfolding Watches turn
turn-Watches w i = by_flag (w.check_predecessor_flag) refl
  where
    by_flag : (b : Bool) → w.check_predecessor_flag ≡ b → Watches w (turn w)
    by_flag true e = (w, ground (arith, e), i, refl)
    by_flag false e = ground (arith, e, check_predecessor-Watches w i e)

pub pass-IsWatching : (n : ℕ) (w : Watch) → IsWatching w → IsWatching (pass n w)
pass-IsWatching n w i = record {
  one = i.one;
  due =
      AllUntil-mono (w.source.clock + duration) (w.source.clock + n + duration) w.active_messages
        (omega arith) i.due;
}

-- There is a result, which is watched.
abbrev Goes : Option Watch → Type 0
Goes r = (v : Watch) × (r ≡ some v) × IsWatching v

step-IsWatching : (s : Step) (w : Watch) → IsWatching w → Goes (step s w)
unfolding step Watches
step-IsWatching turns w i = let (v, same, j, time) = turn-Watches w i in (v, same, j)
step-IsWatching (answers r) w i = let (v, same, j, time) = answer-Watches r w i in (v, same, j)
step-IsWatching cleans w i = let (v, same, j, time) = clean-Watches w i in (v, same, j)
step-IsWatching (passes n) w i = (pass n w, refl, pass-IsWatching n w i)

pub run-cons :
    (s : Step) (ss : List Step) (w v : Watch) → step s w ≡ some v → run (s ∷ ss) w ≡ run ss v
unfolding run
run-cons s ss w v e = ground (arith, e)

IsWatching-run : (ss : List Step) (w : Watch) → IsWatching w → Goes (run ss w)
unfolding run
IsWatching-run [] w i = (w, refl, i)
IsWatching-run (s ∷ ss) w i =
    let (v, same, j) = step-IsWatching s w i in
    let (u, goes, k) = IsWatching-run ss v j in (u, run-cons s ss w v same ∙ goes, k)

no_checks-IsWatching :
    (w : Watch) → w.check_predecessor_flag ≡ false → w.active_messages ≡ [] → IsWatching w
unfolding count AllUntil
no_checks-IsWatching w e f = record {
  one = ap count f ∙ sym (ap one_if e);
  due = subst (AllUntil (w.source.clock + duration)) (sym f) tt;
}

-- A node that has made no check of its predecessor, with the flag down. After any sequence of turns of
-- its thread, responses, cleanings and times that pass, it has not read through a null pointer, and the
-- flag is up exactly if one check waits: never do two wait at a time. The time limit of each check in
-- the list is at most ten seconds ahead.
pub run-IsWatching :
    (ss : List Step) (w : Watch)
    → w.check_predecessor_flag ≡ false
    → w.active_messages ≡ []
    → (v : Watch) × (run ss w ≡ some v) × IsWatching v
run-IsWatching ss w e f = IsWatching-run ss w (no_checks-IsWatching w e f)
