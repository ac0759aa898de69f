-- ===== src/CheckPredecessor/Released.antt =====
-- After ten seconds without a response the predecessor can be checked again.
use mathlib.Core.Option.{some-injective}
use peerpaste.Base.{
  length, ℕ, suc, ◌+◌, ◌<◌, ◌≡◌, refl, sym, ap, ◌∙◌, Bool, true, false, Option, none, some, List,
  [], ◌∷◌, ◌++◌, arith,
}
use peerpaste.Peer.{Peer}
use peerpaste.Table.{has_predecessor}
use peerpaste.Task
use peerpaste.Task.{
  duration, end_with, failed, done, set_state, set_table, request_destruction, ask, await,
  timed_out,
}
use peerpaste.CheckPredecessor.{CheckPredecessor, waiting}
use peerpaste.CheckPredecessor.Watch.{
  Watch, detach, new, check_predecessor, turn, clean, pass, Step, cleans, passes, step, run,
}
use peerpaste.CheckPredecessor.Checks.{
  one_if, active, count, AllUntil, count-append, Starts, starting, create_request-starting,
  detach-flag,
}
use peerpaste.CheckPredecessor.Passes.{clean_loop-Passes}
use peerpaste.CheckPredecessor.Watching.{IsWatching, run-cons, run-IsWatching, pass-IsWatching}

run-append_cons :
    (s : Step) (ss ts : List Step) (w v : Watch)
    → ((u : Watch) → run ss u ≡ some v → run (ss ++ ts) u ≡ run ts v)
    → run (s ∷ ss) w ≡ some v
    → run (s ∷ ss ++ ts) w ≡ run ts v
unfolding run
run-append_cons s ss ts w v ih e = by_step (step s w) refl
  where
    by_step : (r : Option Watch) → step s w ≡ r → run (s ∷ ss ++ ts) w ≡ run ts v
    by_step none f = ground (arith, e, f)
    by_step (some u) f = run-cons s (ss ++ ts) w u f ∙ ih u (sym (run-cons s ss w u f) ∙ e)

run-append : (ss ts : List Step) (w v : Watch) → run ss w ≡ some v → run (ss ++ ts) w ≡ run ts v
unfolding run
run-append [] ts w v e = ap (λ x. run ts x) (some-injective _ _ e)
run-append (s ∷ ss) ts w v e = run-append_cons s ss ts w v (λ u f. run-append ss ts u v f) e

one_if-zero : (b : Bool) → one_if b ≡ 0 → b ≡ false
one_if-zero true e = absurd (omega (arith, e))
one_if-zero false e = refl

-- The flag is down and nothing waits.
abbrev pub IsIdle : Watch → Type 0
IsIdle v = (v.check_predecessor_flag ≡ false) × (v.active_messages ≡ [])

clean-IsIdle :
    (w : Watch) (limit : ℕ)
    → IsWatching w
    → AllUntil limit w.active_messages
    → limit < w.source.clock
    → (v : Watch) × (clean w ≡ some v) × IsIdle v
unfolding clean count
clean-IsIdle w limit i u h =
    let (v, ds, same, left, empties) =
      clean_loop-Passes (length w.active_messages) 0 limit w w.active_messages
        (omega (arith, i.one)) u in
    let nothing : ds ≡ [] = empties (omega arith) h in
    (
      record v { active_messages = ds },
      ground (arith, same),
      (
        one_if-zero v.check_predecessor_flag (omega (arith, left.adds_up, ap count nothing)),
        nothing,
      ),
    )

-- A new check waits, with the flag up, if there is a predecessor.
starting-waits :
    (w : Watch) (p : Option Peer)
    → w.check_predecessor_flag ≡ false
    → w.table.predecessor ≡ p
    → ((starting w p).check_predecessor_flag ≡ some (has_predecessor w.table))
      × (active (starting w p) ≡ one_if (has_predecessor w.table))
unfolding starting waiting new ask await Task.new has_predecessor request_destruction
starting-waits w none e f = (ground (arith, e, f), ground (arith, f))
starting-waits w (some p) e f = (ground (arith, f), ground (arith, f))

turn_asks :
    (w : Watch)
    → IsIdle w
    → (u : Watch) × (turn w ≡ some u)
      × (u.check_predecessor_flag ≡ has_predecessor w.table)
      × (count u.active_messages ≡ one_if (has_predecessor w.table))
unfolding turn check_predecessor Starts count
turn_asks w (e, f) =
    let (same, l, begins) = create_request-starting w (w.table.predecessor) e refl in
    let (flag, waits) = starting-waits w (w.table.predecessor) e refl in
    let d : CheckPredecessor = starting w (w.table.predecessor) in
    (
      record (detach w d) {
        next_object = suc w.next_object;
        active_messages = w.active_messages ++ d ∷ [];
      },
      ground (arith, e, same),
      detach-flag w d (has_predecessor w.table) flag,
      omega (arith, count-append w.active_messages d, ap count f, waits),
    )

run-one : (s : Step) (w v : Watch) → step s w ≡ some v → run (s ∷ []) w ≡ some v
unfolding run
run-one s w v e = ground (arith, e)

-- A node that has made no check of its predecessor, with the flag down. After any sequence of steps,
-- once more than ten seconds pass without a response and the checks are cleaned, none is left, and the
-- flag is down. With the next turn one check waits and the flag is up exactly if the node has a
-- predecessor then: no peer that stays silent keeps the node from asking again.
pub run_releases :
    (ss : List Step) (w : Watch) (n : ℕ)
    → w.check_predecessor_flag ≡ false
    → w.active_messages ≡ []
    → duration < n
    → (v : Watch) × (u : Watch) × (run (ss ++ passes n ∷ cleans ∷ []) w ≡ some v)
      × (v.check_predecessor_flag ≡ false)
      × (v.active_messages ≡ [])
      × (turn v ≡ some u)
      × (u.check_predecessor_flag ≡ has_predecessor v.table)
      × (count u.active_messages ≡ one_if (has_predecessor v.table))
unfolding step
run_releases ss w n e f h =
    let (x, goes, i) = run-IsWatching ss w e f in
    let (v, same, idle) =
      clean-IsIdle (pass n x) (x.source.clock + duration) (pass-IsWatching n x i) i.due
        (omega (arith, h)) in
    let (u, turned, flag, waits) = turn_asks v idle in
    (
      v,
      u,
      run-append ss (passes n ∷ cleans ∷ []) w x goes
          ∙ run-cons (passes n) (cleans ∷ []) x (pass n x) refl
          ∙ run-one cleans (pass n x) v same,
      idle.0,
      idle.1,
      turned,
      flag,
      waits,
    )
