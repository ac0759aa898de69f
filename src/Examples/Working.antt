-- ===== src/Examples/Working.antt =====
-- The objects that are at work.
use mathlib.Core.List.{Perm}
use peerpaste.Base.{ltb, ℕ, ◌+◌, ◌≡◌, refl, inl, inr, true, false, [], ◌∷◌, arith}
use peerpaste.Task.{failed, valid}
use peerpaste.Task.Deadline.{
  Status, Object, object, alone, depends, is_lost, check_state, is_timed_out,
}
use peerpaste.Task.Agreement.{IsOpen, check_state-is_timed_out}
use peerpaste.Task.Overdue.{Overdue, is_over, check_state-Overdue}
use peerpaste.Queue.{refill, clean_loop, clean}
use peerpaste.Queue.Clean.{at_work, clean-Perm}

-- Objects as numbers, that count up when they are checked and are done above four.
clean_test : clean (λ n. n + 1) (λ n. ltb 4 n) (1 ∷ 9 ∷ 2 ∷ 3 ∷ 7 ∷ []) ≡ 2 ∷ 4 ∷ 3 ∷ []
unfolding clean clean_loop refill
clean_test = refl

clean-Perm_example :
    Perm
      (clean (λ n. n + 1) (λ n. ltb 4 n) (1 ∷ 9 ∷ 2 ∷ 3 ∷ 7 ∷ []))
      (at_work (λ n. n + 1) (λ n. ltb 4 n) (1 ∷ 9 ∷ 2 ∷ 3 ∷ 7 ∷ []))
clean-Perm_example = clean-Perm (λ n. n + 1) (λ n. ltb 4 n) (1 ∷ 9 ∷ 2 ∷ 3 ∷ 7 ∷ [])

abbrev status : ℕ → Status
status n = record { is_done = false; state = valid; time_point = n }

-- A join with time left, waiting for a lookup whose time is over.
abbrev waiting : Object
waiting = object (status 900) (depends (object (status 300) alone) true alone)

abbrev lose : Status → Status
lose s = record s { state = failed }

check_state-Overdue_example :
    (is_over (check_state lose 500 waiting).1 ≡ true)
    × (is_lost (check_state lose 500 waiting).0 ≡ true)
unfolding Overdue
check_state-Overdue_example =
    check_state-Overdue lose (λ s. refl) (λ s h. refl) 500 waiting
      (refl, inr (inl (refl, (refl, inl (omega arith)))))

check_state-is_timed_out_example :
    is_lost (check_state lose 500 waiting).0 ≡ is_timed_out 500 waiting
unfolding IsOpen
check_state-is_timed_out_example =
    check_state-is_timed_out lose (λ s h. refl) 500 waiting (refl, ((refl, tt), tt))
