-- ===== src/Queue/Clean.antt =====
-- `clean` fills the place of an object that is done with the last one, so the order is lost.
use mathlib.Core.List.{Perm}
use mathlib.Core.List.Perm
use peerpaste.Base.{
  if◌then◌else◌, length, ℕ, zero, suc, ◌≡◌, ◌≤◌, ap, Bool, true, false, List, [], ◌∷◌, refl, arith,
}
use peerpaste.Queue.{back, pop_back, refill, clean_loop, clean}

module _ {ℓ} {A : Type ℓ} where
  -- An object that is done is left out.
  abbrev keep : Bool → A → List A → List A
  keep b a l = if b then l else a ∷ l

  keep-Perm : (b : Bool) (a : A) {l m : List A} → Perm l m → Perm (keep b a l) (keep b a m)
  keep-Perm true a p = p
  keep-Perm false a p = Perm.cons a p

  keep_swap :
      (b c : Bool) (x y : A) (l : List A) → Perm (keep b x (keep c y l)) (keep c y (keep b x l))
  keep_swap true c x y l = Perm.refl _
  keep_swap false true x y l = Perm.refl _
  keep_swap false false x y l = Perm.swap y x l

  length-pop_back : (a : A) (behind : List A) → length (pop_back a behind) ≡ length behind
  length-pop_back a [] = refl
  length-pop_back a (b ∷ behind) = ap suc (length-pop_back b behind)

  pub length-refill : (q : List A) → length (refill q) ≡ length q
  unfolding refill
  length-refill [] = refl
  length-refill (a ∷ behind) = ap suc (length-pop_back a behind)

module _ {ℓ} {A : Type ℓ} (check_state : A → A) (is_done : A → Bool) where
  -- What should be left: each object that is not done once it is checked, as it is then.
  abbrev pub at_work : List A → List A
  at_work [] = []
  at_work (a ∷ behind) = keep (is_done (check_state a)) (check_state a) (at_work behind)

  at_work-back :
      (a : A) (behind : List A)
      → Perm (at_work (back a behind ∷ pop_back a behind)) (at_work (a ∷ behind))
  at_work-back a [] = Perm.refl _
  at_work-back a (b ∷ behind) =
      Perm.trans
        (keep_swap (is_done (check_state (back b behind))) (is_done (check_state a))
          (check_state (back b behind)) (check_state a) (at_work (pop_back b behind)))
        (keep-Perm (is_done (check_state a)) (check_state a) (at_work-back b behind))

  at_work-refill : (q : List A) → Perm (at_work (refill q)) (at_work q)
  unfolding refill
  at_work-refill [] = Perm.refl _
  at_work-refill (a ∷ behind) = at_work-back a behind

  clean_loop-Perm :
      (n : ℕ) (q : List A) → length q ≤ n → Perm (clean_loop check_state is_done n q) (at_work q)
  unfolding clean_loop
  clean_loop-Perm zero [] h = Perm.refl _
  clean_loop-Perm zero (a ∷ behind) h = absurd (omega arith)
  clean_loop-Perm (suc n) [] h = Perm.refl _
  clean_loop-Perm (suc n) (a ∷ behind) h = keep-Perm (is_done (check_state a)) (check_state a) (
      either (is_done (check_state a))
        (Perm.trans (clean_loop-Perm n (refill behind) (omega (arith, length-refill behind)))
          (at_work-refill behind))
        (clean_loop-Perm n behind (omega arith)))
    where
      either :
          (b : Bool)
          → Perm (clean_loop check_state is_done n (refill behind)) (at_work behind)
          → Perm (clean_loop check_state is_done n behind) (at_work behind)
          → Perm
              (clean_loop check_state is_done n (if b then refill behind else behind))
              (at_work behind)
      either true p q = p
      either false p q = q

  -- Cleaning leaves exactly the objects that are not done once they are checked, as they are then, in
  -- some order.
  pub clean-Perm : (q : List A) → Perm (clean check_state is_done q) (at_work q)
  unfolding clean
  clean-Perm q = clean_loop-Perm (length q) q (omega arith)
