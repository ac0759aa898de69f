-- ===== src/Task/Agreement.antt =====
-- The two questions whether an object is lost.
use peerpaste.Base.{ℕ, ◌≡◌, refl, true, false, arith}
use peerpaste.Task.Deadline.{
  Status, Object, Dependencies, object, alone, depends, is_lost, time_out, check_state,
  check_dependencies, is_timed_out, removed_essential_dependency,
}

-- Neither the object nor one below it is done.
unfoldable mutual
  pub IsOpen : Object → Type 0
  IsOpen (object s ds) = (s.is_done ≡ false) × AllOpen ds

  pub AllOpen : Dependencies → Type 0
  AllOpen alone = Unit {0}
  AllOpen (depends o essential ds) = IsOpen o × AllOpen ds

module _ (handle_failed : Status → Status)
    (stays_lost : (s : Status)
      → is_lost s.state ≡ true
      → is_lost (handle_failed s).state ≡ true) where
  mutual
    unfolding check_state check_dependencies is_timed_out removed_essential_dependency IsOpen
        AllOpen

    agrees :
        (now : ℕ) (o : Object)
        → IsOpen o
        → is_lost (check_state handle_failed now o).0 ≡ is_timed_out now o
    agrees now (object s ds) (d, below) =
        ground (arith, any_agrees now ds below, stays_lost (time_out s) refl)

    any_agrees :
        (now : ℕ) (ds : Dependencies)
        → AllOpen ds
        → (check_dependencies handle_failed now ds).0 ≡ removed_essential_dependency now ds
    any_agrees now alone h = refl
    any_agrees now (depends o essential ds) (h, rest) =
        ground (arith, agrees now o h, any_agrees now ds rest)

  -- On an object of which nothing is done, itself and all below it, `check_state` answers that it is
  -- lost exactly if `is_timed_out` says that its time is over, although the first stops at the first
  -- essential dependency that is lost and the second asks all. The class's `handle_failed` must leave
  -- a lost state lost.
  pub check_state-is_timed_out :
      (now : ℕ) (o : Object)
      → IsOpen o
      → is_lost (check_state handle_failed now o).0 ≡ is_timed_out now o
  check_state-is_timed_out now o h = agrees now o h
