-- ===== src/Message/Transaction.antt =====
-- The identifiers of requests.
use mathlib.Core.List.{append_cancel_left}
use peerpaste.Base.{to_string, to_string-injective, ℕ, ◌≤◌, ◌≡◌, sym, ap, ◌∙◌, ◌≢◌, ◌++◌, arith}
use peerpaste.Message.{Message, stringify, uint_max, next_counter, Source, now, salted}

-- The counter that is printed never is 0 nor passes the largest `unsigned`, and two values of the
-- counter that a call can leave behind lead to different next ones.
pub next_counter_cycle :
    (c d : ℕ)
    → c ≤ uint_max
    → d ≤ uint_max
    → (1 ≤ next_counter c)
      × (next_counter c ≤ uint_max)
      × (1 ≤ c → 1 ≤ d → next_counter c ≡ next_counter d → c ≡ d)
unfolding next_counter
next_counter_cycle c d h k = (ground arith, ground arith, λ x y e. ground arith)

-- One message, given an identifier twice within one second at different values of the counter, each
-- from one to the largest, is hashed from different texts.
pub salted_differs :
    (s t : Source) (m : Message)
    → now s ≡ now t
    → 1 ≤ s.counter
    → s.counter ≤ uint_max
    → 1 ≤ t.counter
    → t.counter ≤ uint_max
    → s.counter ≢ t.counter
    → salted s m ≢ salted t m
unfolding salted
salted_differs s t m same a b c d ne e = ne (
    (next_counter_cycle s.counter t.counter b d).2 a c
      (to_string-injective _ _ (append_cancel_left (to_string (now s)) _ _ times)))
  where
    times :
        to_string (now s) ++ to_string (next_counter s.counter)
        ≡ to_string (now s) ++ to_string (next_counter t.counter)
    times =
        append_cancel_left (stringify m) _ _ e
        ∙ ap (λ n. to_string n ++ to_string (next_counter t.counter)) (sym same)
