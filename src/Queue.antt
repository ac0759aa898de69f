-- ===== src/Queue.antt =====
-- include/peerpaste/concurrent_queue.hpp: the queue between the sessions and the consumer, and the
-- list of the message objects that are at work. Each operation holds the mutex for its whole body.
pub mod Clean
use peerpaste.Base.{
  if◌then◌else◌, length, ℕ, zero, suc, Bool, true, false, Option, none, some, List, [], ◌∷◌, ◌++◌,
}

module _ {ℓ} {A : Type ℓ} where
  -- `try_pop`, `wait_and_pop` and `wait_for_and_pop`: with nothing there the first fails, the second
  -- goes on waiting, and the third gives the null pointer.
  unfoldable pub try_pop : List A → Option A × List A
  try_pop [] = (none, [])
  try_pop (a ∷ rest) = (some a, rest)

  -- `push`, `push_new` and `push_back`.
  unfoldable pub push : List A → A → List A
  push q a = q ++ a ∷ []

  unfoldable pub empty : List A → Bool
  empty [] = true
  empty (a ∷ rest) = false

  -- `deque_.back()`, and the rest without it.
  abbrev pub back : A → List A → A
  back a [] = a
  back a (b ∷ bs) = back b bs

  abbrev pub pop_back : A → List A → List A
  pop_back a [] = []
  pop_back a (b ∷ bs) = a ∷ pop_back b bs

  -- `*it = std::move(deque_.back()); deque_.pop_back();` for the entries behind `it`: the last one
  -- comes to stand at `it`, unless `it` is itself the last.
  unfoldable pub refill : List A → List A
  refill [] = []
  refill (a ∷ behind) = back a behind ∷ pop_back a behind

  -- The loop from `it` on. `check_state` changes the entry, and then tells whether it is done.
  unfoldable pub clean_loop : (A → A) → (A → Bool) → ℕ → List A → List A
  clean_loop check_state is_done zero q = q
  clean_loop check_state is_done (suc n) [] = []
  clean_loop check_state is_done (suc n) (a ∷ behind) =
      let rest =
        clean_loop check_state is_done n
          (if is_done (check_state a) then refill behind else behind) in
      if is_done (check_state a) then rest else check_state a ∷ rest

  unfoldable pub clean : (A → A) → (A → Bool) → List A → List A
  clean check_state is_done q = clean_loop check_state is_done (length q) q
