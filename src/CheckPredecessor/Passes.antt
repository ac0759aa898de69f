-- ===== src/CheckPredecessor/Passes.antt =====
-- What a response and a cleaning leave of the checks in `active_messages_` of
-- include/peerpaste/message_handler.hpp.
use peerpaste.Base.{
  length, Bytes, ℕ, zero, suc, ◌+◌, ◌≤◌, ◌<◌, ◌≡◌, refl, ap, ◌∙◌, Bool, true, false, not, some,
  List, [], ◌∷◌, arith,
}
use peerpaste.Request.{RequestObject, is_request}
use peerpaste.Queue.Clean.{length-refill}
use peerpaste.Queue.{refill}
use peerpaste.CheckPredecessor.{CheckPredecessor}
use peerpaste.CheckPredecessor.Watch.{Watch, detach, waits_for, answer_in, clean_loop}
use peerpaste.CheckPredecessor.Checks.{
  one_if, active, count, AllUntil, count-refill, length-nil, AllUntil-refill, answered,
  handle_response-Keeps, Checked, check_state-Checked,
}

-- What a pass over the checks leaves, where `k` others wait.
pub record Passes (k limit : ℕ) (w : Watch) (v : Watch) (ds : List CheckPredecessor) : Type 0 where
  pub adds_up : k + count ds ≡ one_if v.check_predecessor_flag
  pub until : AllUntil limit ds
  pub time : v.source.clock ≡ w.source.clock

pub waits_for-done :
    (id : Bytes) (c : CheckPredecessor) → waits_for id c ≡ true → c.task.is_done ≡ false
waits_for-done id c e = ground arith

abbrev pub Answers : RequestObject → ℕ → ℕ → Watch → List CheckPredecessor → Type 0
Answers r k limit w cs =
    (v : Watch) × (ds : List CheckPredecessor) × (answer_in r w cs ≡ some (v, ds))
    × Passes k limit w v ds

pub answer_in-cons :
    (r : RequestObject) (k limit : ℕ) (w : Watch) (c : CheckPredecessor)
    (cs : List CheckPredecessor) (b : Bool)
    → waits_for r.message.header.correlational_id c ≡ b
    → is_request r ≡ false
    → k + count (c ∷ cs) ≡ one_if w.check_predecessor_flag
    → AllUntil limit (c ∷ cs)
    → Answers r (k + active c) limit w cs
    → Answers r k limit w (c ∷ cs)
unfolding answer_in count AllUntil
answer_in-cons r k limit w c cs true f e h (u, us) (v, ds, same_rest, left) =
    let (same, keeps) = handle_response-Keeps w c r e (waits_for-done _ c f) in
    (
      detach w (answered w c),
      answered w c ∷ cs,
      ground (arith, f, same),
      record {
        adds_up = omega (arith, keeps.adds_up (k + count cs) (omega (arith, h)));
        until = (omega (arith, u, keeps.until), us);
        time = keeps.time;
      },
    )
answer_in-cons r k limit w c cs false f e h (u, us) (v, ds, same, left) = (
  v,
  c ∷ ds,
  ground (arith, f, same),
  record { adds_up = omega (arith, left.adds_up); until = (u, left.until); time = left.time },
)

pub answer_in-Passes :
    (r : RequestObject) (k limit : ℕ) (w : Watch) (cs : List CheckPredecessor)
    → is_request r ≡ false
    → k + count cs ≡ one_if w.check_predecessor_flag
    → AllUntil limit cs
    → Answers r k limit w cs
unfolding answer_in count AllUntil
answer_in-Passes r k limit w [] e h u =
    (w, [], refl, record { adds_up = h; until = u; time = refl })
answer_in-Passes r k limit w (c ∷ cs) e h u =
    answer_in-cons r k limit w c cs _ refl e h u
      (answer_in-Passes r (k + active c) limit w cs e (omega (arith, h)) u.1)

-- With enough fuel and all times over, nothing is left.
abbrev pub Cleans : ℕ → ℕ → ℕ → Watch → List CheckPredecessor → Type 0
Cleans n k limit w q =
    (v : Watch) × (ds : List CheckPredecessor) × (clean_loop n w q ≡ some (v, ds))
    × Passes k limit w v ds
    × (length q ≤ n → limit < w.source.clock → ds ≡ [])

pub clean_loop-over :
    (n k limit : ℕ) (w v : Watch) (c d : CheckPredecessor) (behind : List CheckPredecessor)
    → Checked w c v d
    → d.task.is_done ≡ true
    → Cleans n k limit v (refill behind)
    → Cleans (suc n) k limit w (c ∷ behind)
unfolding clean_loop Checked
clean_loop-over n k limit w v c d behind (same, keeps, over) f (x, ds, goes, left, empties) = (
  x,
  ds,
  ground (arith, same, goes, f),
  record { adds_up = left.adds_up; until = left.until; time = left.time ∙ keeps.time },
  λ long late.
      empties (omega (arith, long, length-refill behind)) (omega (arith, late, keeps.time)),
)

pub clean_loop-waits :
    (n k limit : ℕ) (w v : Watch) (c d : CheckPredecessor) (behind : List CheckPredecessor)
    → Checked w c v d
    → d.task.is_done ≡ false
    → c.task.time_point ≤ limit
    → Cleans n (k + 1) limit v behind
    → Cleans (suc n) k limit w (c ∷ behind)
unfolding clean_loop Checked count AllUntil
clean_loop-waits n k limit w v c d behind (same, keeps, over) f u (x, ds, goes, left, empties) = (
  x,
  d ∷ ds,
  ground (arith, same, goes, f),
  record {
    adds_up = omega (arith, left.adds_up, ap (λ b. one_if (not b)) f);
    until = (omega (arith, u, keeps.until), left.until);
    time = left.time ∙ keeps.time;
  },
  λ long late. ground (arith, f, over (omega (arith, u, late))),
)

pub clean_loop-cons :
    (n k limit : ℕ) (w v : Watch) (c d : CheckPredecessor) (behind : List CheckPredecessor)
    (b : Bool)
    → Checked w c v d
    → d.task.is_done ≡ b
    → k + count (c ∷ behind) ≡ one_if w.check_predecessor_flag
    → AllUntil limit (c ∷ behind)
    → ((m : ℕ) (l : List CheckPredecessor)
        → m + count l ≡ one_if v.check_predecessor_flag
        → AllUntil limit l
        → Cleans n m limit v l)
    → Cleans (suc n) k limit w (c ∷ behind)
unfolding count AllUntil Checked
clean_loop-cons n k limit w v c d behind true checked f h (u, us) ih =
    clean_loop-over n k limit w v c d behind checked f (
      ih k (refill behind)
        (omega (
          arith,
          count-refill behind,
          checked.1.adds_up (k + count behind) (omega (arith, h)),
          ap (λ b. one_if (not b)) f,
        ))
        (AllUntil-refill limit behind us))
clean_loop-cons n k limit w v c d behind false checked f h (u, us) ih =
    clean_loop-waits n k limit w v c d behind checked f u (
      ih (k + 1) behind
        (omega (
          arith,
          checked.1.adds_up (k + count behind) (omega (arith, h)),
          ap (λ b. one_if (not b)) f,
        ))
        us)

pub clean_loop-Passes :
    (n k limit : ℕ) (w : Watch) (q : List CheckPredecessor)
    → k + count q ≡ one_if w.check_predecessor_flag
    → AllUntil limit q
    → Cleans n k limit w q
unfolding clean_loop
clean_loop-Passes zero k limit w q h u =
    (w, q, refl, record { adds_up = h; until = u; time = refl }, λ long late. length-nil q long)
clean_loop-Passes (suc n) k limit w [] h u =
    (w, [], refl, record { adds_up = h; until = u; time = refl }, λ a b. refl)
clean_loop-Passes (suc n) k limit w (c ∷ behind) h u =
    let (v, d, checked) = check_state-Checked w c _ _ refl refl in
    clean_loop-cons n k limit w v c d behind _ checked refl h u
      (λ m l sum until. clean_loop-Passes n m limit v l sum until)
