-- ===== src/CheckPredecessor/Checks.antt =====
-- What one call leaves of a check of src/check_predecessor.cpp, and of the flag.
use peerpaste.Base.{
  ltb, length, ℕ, ◌+◌, ◌≤◌, ◌<◌, ◌≡◌, refl, ap, Bool, true, false, not, Option, none, some, List,
  [], ◌∷◌, ◌++◌, arith,
}
use peerpaste.Peer.{Peer}
use peerpaste.Request.{RequestObject, is_request}
use peerpaste.Table.{try_get_predecessor, reset_predecessor}
use peerpaste.Task
use peerpaste.Task.{
  duration, end_with, failed, done, set_state, set_table, request_destruction, ask, await,
  timed_out,
}
use peerpaste.Queue.{refill, back, pop_back}
use peerpaste.CheckPredecessor.{
  CheckPredecessor, set_task, create_request, handle_response, take_response, handle_failed,
  waiting,
}
use peerpaste.CheckPredecessor.Watch.{Watch, attach, detach, or_else, new, time_out, check_state}

-- How many of the checks are not over.
abbrev pub one_if : Bool → ℕ
one_if true = 1
one_if false = 0

abbrev pub active : CheckPredecessor → ℕ
active c = one_if (not c.task.is_done)

unfoldable pub count : List CheckPredecessor → ℕ
count [] = 0
count (c ∷ cs) = active c + count cs

-- The time limit of no check is later than that.
unfoldable pub AllUntil : ℕ → List CheckPredecessor → Type 0
AllUntil limit [] = Unit
AllUntil limit (c ∷ cs) = (c.task.time_point ≤ limit) × AllUntil limit cs

pub count-append :
    (cs : List CheckPredecessor) (c : CheckPredecessor) → count (cs ++ c ∷ []) ≡ count cs + active c
unfolding count
count-append [] c = omega arith
count-append (d ∷ cs) c = omega (arith, count-append cs c)

pub AllUntil-append :
    (limit : ℕ) (cs : List CheckPredecessor) (c : CheckPredecessor)
    → AllUntil limit cs
    → c.task.time_point ≤ limit
    → AllUntil limit (cs ++ c ∷ [])
unfolding AllUntil
AllUntil-append limit [] c h k = (k, tt)
AllUntil-append limit (d ∷ cs) c (g, h) k = (g, AllUntil-append limit cs c h k)

pub AllUntil-mono : (m n : ℕ) (cs : List CheckPredecessor) → m ≤ n → AllUntil m cs → AllUntil n cs
unfolding AllUntil
AllUntil-mono m n [] h k = tt
AllUntil-mono m n (c ∷ cs) h (g, k) = (omega (arith, g, h), AllUntil-mono m n cs h k)

pub count-back :
    (a : CheckPredecessor) (cs : List CheckPredecessor)
    → active (back a cs) + count (pop_back a cs) ≡ active a + count cs
unfolding count
count-back a [] = refl
count-back a (b ∷ bs) = omega (arith, count-back b bs)

pub count-refill : (q : List CheckPredecessor) → count (refill q) ≡ count q
unfolding count refill
count-refill [] = refl
count-refill (a ∷ behind) = count-back a behind

pub length-nil : (q : List CheckPredecessor) → length q ≤ 0 → q ≡ []
length-nil [] h = refl
length-nil (c ∷ cs) h = absurd (omega (arith, h))

pub AllUntil-back :
    (limit : ℕ) (a : CheckPredecessor) (cs : List CheckPredecessor)
    → a.task.time_point ≤ limit
    → AllUntil limit cs
    → ((back a cs).task.time_point ≤ limit) × AllUntil limit (pop_back a cs)
unfolding AllUntil
AllUntil-back limit a [] h k = (h, tt)
AllUntil-back limit a (b ∷ bs) h (g, k) =
    let (last, front) = AllUntil-back limit b bs g k in (last, (h, front))

pub AllUntil-refill :
    (limit : ℕ) (q : List CheckPredecessor) → AllUntil limit q → AllUntil limit (refill q)
unfolding AllUntil refill
AllUntil-refill limit [] h = tt
AllUntil-refill limit (a ∷ behind) (g, h) = AllUntil-back limit a behind g h

-- What a call leaves of a check and of the flag.
pub record Leaves (w : Watch) (limit : ℕ) (d : CheckPredecessor) : Type 0 where
  pub flag : Bool
  pub leaves : d.check_predecessor_flag ≡ some flag
  pub until : d.task.time_point ≤ limit
  pub time : d.task.source.clock ≡ w.source.clock

-- A new check: it waits, with the flag up, or it is over at once.
unfoldable pub Starts : Watch → CheckPredecessor → Type 0
Starts w d =
    (create_request (new w) ≡ some d)
    × (l : Leaves w (w.source.clock + duration) d) × (active d ≡ one_if l.flag)

unfoldable pub starting : Watch → Option Peer → CheckPredecessor
starting w none =
    set_task (new w)
      (end_with failed (set_table (record (w.table) { predecessor_is_set = false }) (new w).task))
starting w (some p) = record (waiting (new w) p) { check_predecessor_flag = some true }

pub create_request-starting :
    (w : Watch) (p : Option Peer)
    → w.check_predecessor_flag ≡ false
    → w.table.predecessor ≡ p
    → Starts w (starting w p)
unfolding Starts starting create_request new try_get_predecessor request_destruction waiting ask
    await Task.new
create_request-starting w none e f = (
  ground arith,
  record { flag = false; leaves = ap some e; until = omega arith; time = refl },
  refl,
)
create_request-starting w (some p) e f =
    (ground arith, record { flag = true; leaves = refl; until = omega arith; time = refl }, refl)

pub detach-flag :
    (w : Watch) (d : CheckPredecessor) (b : Bool)
    → d.check_predecessor_flag ≡ some b
    → (detach w d).check_predecessor_flag ≡ b
detach-flag w d b e = ap (or_else w.check_predecessor_flag) e

-- A check `c` that is `d` after a call, which leaves `v`.
pub record Keeps (w v : Watch) (c d : CheckPredecessor) : Type 0 where
  pub adds_up :
      (n : ℕ)
      → active c + n ≡ one_if w.check_predecessor_flag
      → active d + n ≡ one_if v.check_predecessor_flag
  pub until : d.task.time_point ≡ c.task.time_point
  pub time : v.source.clock ≡ w.source.clock

pub one_if-le : (b : Bool) → one_if b ≤ 1
one_if-le true = omega arith
one_if-le false = omega arith

-- A check that is over now, with the flag lowered.
pub Keeps-over :
    (w v : Watch) (c d : CheckPredecessor)
    → c.task.is_done ≡ false
    → d.task.is_done ≡ true
    → v.check_predecessor_flag ≡ false
    → d.task.time_point ≡ c.task.time_point
    → v.source.clock ≡ w.source.clock
    → Keeps w v c d
Keeps-over w v c d e f g h k = record {
  adds_up = λ n sum. omega (
    arith,
    sum,
    ap (λ b. one_if (not b)) e,
    ap (λ b. one_if (not b)) f,
    ap one_if g,
    one_if-le w.check_predecessor_flag,
  );
  until = h;
  time = k;
}

unfoldable pub answered : Watch → CheckPredecessor → CheckPredecessor
answered w c = record (set_task c (end_with done (attach w c).task)) {
  check_predecessor_flag = some false;
}

pub handle_response-Keeps :
    (w : Watch) (c : CheckPredecessor) (r : RequestObject)
    → is_request r ≡ false
    → c.task.is_done ≡ false
    → (handle_response (attach w c) r ≡ some (answered w c))
      × Keeps w (detach w (answered w c)) c (answered w c)
unfolding handle_response take_response request_destruction answered
handle_response-Keeps w c r e f =
    (ground (arith, e), Keeps-over w _ c (answered w c) f refl refl refl refl)

unfoldable pub lost : Watch → CheckPredecessor → CheckPredecessor
lost w c =
    record (set_task c
      (set_state failed (set_table (reset_predecessor w.table) (time_out (attach w c)).task))) {
        check_predecessor_flag = some false;
      }

-- How a check is found: it is over if its time is.
unfoldable pub Checked : Watch → CheckPredecessor → Watch → CheckPredecessor → Type 0
Checked w c v d =
    (check_state w c ≡ some (v, d))
    × Keeps w v c d
    × (c.task.time_point < w.source.clock → d.task.is_done ≡ true)

pub check_state-Checked :
    (w : Watch) (c : CheckPredecessor) (over late : Bool)
    → c.task.is_done ≡ over
    → ltb c.task.time_point w.source.clock ≡ late
    → (v : Watch) × (d : CheckPredecessor) × Checked w c v d
unfolding check_state handle_failed Checked lost
check_state-Checked w c true late e f =
    (w, c, (ground (arith, e), record { adds_up = λ n h. h; until = refl; time = refl }, λ h. e))
check_state-Checked w c false true e f = (
  detach w (lost w c),
  lost w c,
  (ground (arith, e, f), Keeps-over w _ c (lost w c) e refl refl refl refl, λ h. refl),
)
check_state-Checked w c false false e f = (
  w,
  c,
  (
    ground (arith, e, f),
    record { adds_up = λ n h. h; until = refl; time = refl },
    λ h. ground (arith, h, f),
  ),
)
