-- ===== src/Task/Overdue.antt =====
-- An object does not outlive its own deadline, nor that of one it depends on.
use peerpaste.Base.{ℕ, ◌<◌, ◌≡◌, refl, ◌⊎◌, inl, inr, Bool, true, false, arith}
use peerpaste.Task.Deadline.{
  Status, Object, Dependencies, object, alone, depends, is_lost, time_out, check_state,
  check_dependencies,
}

-- The object is not done, and its time is over, or that of an essential dependency at any depth.
unfoldable mutual
  pub Overdue : ℕ → Object → Type 0
  Overdue now (object s ds) = (s.is_done ≡ false) × ((s.time_point < now) ⊎ AnyOverdue now ds)

  pub AnyOverdue : ℕ → Dependencies → Type 0
  AnyOverdue now alone = ⊥
  AnyOverdue now (depends o essential ds) = ((essential ≡ true) × Overdue now o) ⊎ AnyOverdue now ds

abbrev pub is_over : Object → Bool
is_over (object s ds) = s.is_done

module _ (handle_failed : Status → Status)
    (stays_done : (s : Status) → (handle_failed s).is_done ≡ s.is_done)
    (stays_lost : (s : Status)
      → is_lost s.state ≡ true
      → is_lost (handle_failed s).state ≡ true) where
  mutual
    unfolding check_state check_dependencies Overdue AnyOverdue

    ends :
        (now : ℕ) (o : Object)
        → Overdue now o
        → (is_over (check_state handle_failed now o).1 ≡ true)
          × (is_lost (check_state handle_failed now o).0 ≡ true)
    ends now (object s ds) (d, inl late) =
        (ground (arith, stays_done (time_out s)), ground (arith, stays_lost (time_out s) refl))
    ends now (object s ds) (d, inr below) = (
      ground (arith, any_lost now ds below, stays_done (time_out s)),
      ground (arith, any_lost now ds below, stays_lost (time_out s) refl),
    )

    any_lost :
        (now : ℕ) (ds : Dependencies)
        → AnyOverdue now ds
        → (check_dependencies handle_failed now ds).0 ≡ true
    any_lost now alone h = absurd h
    any_lost now (depends o essential ds) (inl (e, h)) =
        let (over, lost) = ends now o h in ground (arith, lost)
    any_lost now (depends o essential ds) (inr h) = ground (arith, any_lost now ds h)

  -- Checking an object that is not done, and whose time is over, or the time of an essential
  -- dependency at any depth, ends it: it is done, and the answer is that it failed or timed out. The
  -- class's `handle_failed` must not touch the flag, and must leave a lost state lost.
  pub check_state-Overdue :
      (now : ℕ) (o : Object)
      → Overdue now o
      → (is_over (check_state handle_failed now o).1 ≡ true)
        × (is_lost (check_state handle_failed now o).0 ≡ true)
  check_state-Overdue now o h = ends now o h
