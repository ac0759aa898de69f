-- ===== src/Handlers/Refinement.antt =====
-- The ordered set of handlers as what the message handler takes it for: a map from identifiers.
use peerpaste.Base.{
  if◌then◌else◌, Bytes, bytes_eq, bytes_eq_iff, ◌≡◌, refl, ap, ap₂, ◌∙◌, subst, Bool, true, false,
  Option, none, some, List, [], ◌∷◌, arith,
}
use peerpaste.Request.{HandlerObject}
use peerpaste.Handlers.{HandlerSet, find, erase, insert, erase_if, get_and_erase, get_and_erase_if}
use peerpaste.Handlers.Search.{
  IsSorted, equivalent-bytes_eq, find-Above, or_else, find-insert, find-erase, insert-IsSorted,
  erase-IsSorted, erase_if-IsSorted,
}

-- The operations that change a set.
pub data Operation : Type 0 where
  insertion : HandlerObject → Operation
  taking : Bytes → Operation
  taking_if : Bytes → (HandlerObject → Bool) → Operation
  clearing : (HandlerObject → Bool) → Operation

-- What the operation gives, and the set behind it.
unfoldable pub step : Operation → HandlerSet → Option HandlerObject × HandlerSet
step (insertion h) s = (none, insert h s)
step (taking key) s = get_and_erase s key
step (taking_if key pred) s = get_and_erase_if s key pred
step (clearing pred) s = (none, erase_if pred s)

abbrev pub Dict : Type 0
Dict = Bytes → Option HandlerObject

abbrev pub added : HandlerObject → Dict → Dict
added h d key = if bytes_eq h.correlation_id key then some (or_else (d key) h) else d key

abbrev pub removed : Bytes → Dict → Dict
removed key d other = if bytes_eq key other then none else d other

abbrev pub kept : (HandlerObject → Bool) → Option HandlerObject → Option HandlerObject
kept pred none = none
kept pred (some h) = if pred h then none else some h

abbrev pub taken_if : (HandlerObject → Bool) → Bytes → Dict → Option HandlerObject → Dict
taken_if pred key d none = d
taken_if pred key d (some h) = if pred h then removed key d else d

-- The same on maps.
unfoldable pub dict_step : Operation → Dict → Option HandlerObject × Dict
dict_step (insertion h) d = (none, added h d)
dict_step (taking key) d = (d key, removed key d)
dict_step (taking_if key pred) d = (d key, taken_if pred key d (d key))
dict_step (clearing pred) d = (none, λ key. kept pred (d key))

-- What a run of operations gives, one after the other.
unfoldable pub run : List Operation → HandlerSet → List (Option HandlerObject) × HandlerSet
run [] s = ([], s)
run (o ∷ os) s = let (given, s1) = step o s in let (rest, s2) = run os s1 in (given ∷ rest, s2)

unfoldable pub dict_run : List Operation → Dict → List (Option HandlerObject) × Dict
dict_run [] d = ([], d)
dict_run (o ∷ os) d =
    let (given, d1) = dict_step o d in let (rest, d2) = dict_run os d1 in (given ∷ rest, d2)

find-erase_if :
    (pred : HandlerObject → Bool) (hs : HandlerSet) (key : Bytes)
    → IsSorted hs
    → find (erase_if pred hs) key ≡ kept pred (find hs key)
unfolding find erase_if
find-erase_if pred [] key h = refl
find-erase_if pred (x ∷ hs) key h = ground (
  arith,
  equivalent-bytes_eq x.correlation_id key,
  bytes_eq_iff x.correlation_id key,
  find-Above x.correlation_id hs,
  find-erase_if pred hs key h.1,
)

-- A sorted set stands for the map.
pub record Refines (s : HandlerSet) (d : Dict) : Type 0 where
  pub sorted : IsSorted s
  pub finds : (key : Bytes) → find s key ≡ d key

abbrev Agrees : Option HandlerObject × HandlerSet → Option HandlerObject × Dict → Type 0
Agrees (a, s) (b, d) = (a ≡ b) × Refines s d

-- An identifier that is not there can be removed from the map.
Refines-removed :
    (s : HandlerSet) (d : Dict) (key : Bytes)
    → find s key ≡ none
    → Refines s d
    → Refines s (removed key d)
Refines-removed s d key e h = record {
  sorted = h.sorted;
  finds = λ other. ground (arith, bytes_eq_iff key other, h.finds other);
}

erase-Refines :
    (s : HandlerSet) (d : Dict) (key : Bytes) → Refines s d → Refines (erase s key) (removed key d)
erase-Refines s d key h = record {
  sorted = erase-IsSorted key s h.sorted;
  finds = λ other. ground (arith, find-erase s key other h.sorted, h.finds other);
}

get_and_erase-Agrees :
    (s : HandlerSet) (d : Dict) (key : Bytes)
    → Refines s d
    → Agrees (get_and_erase s key) (d key, removed key d)
unfolding get_and_erase
get_and_erase-Agrees s d key h =
    subst (λ o. Agrees (get_and_erase s key) (o, removed key d)) (h.finds key)
      (by_found (find s key) refl)
  where
    given : Option HandlerObject → Option HandlerObject × HandlerSet
    given o = elim o as (λ _. Option HandlerObject × HandlerSet) [
      | none ↦ (none, s)
      | some x ↦ (some x, erase s key)
    ]

    by_found : (o : Option HandlerObject) → find s key ≡ o → Agrees (given o) (o, removed key d)
    by_found none e = (refl, Refines-removed s d key e h)
    by_found (some x) e = (refl, erase-Refines s d key h)

get_and_erase_if-Agrees :
    (s : HandlerSet) (d : Dict) (key : Bytes) (pred : HandlerObject → Bool)
    → Refines s d
    → Agrees (get_and_erase_if s key pred) (d key, taken_if pred key d (d key))
unfolding get_and_erase_if
get_and_erase_if-Agrees s d key pred h =
    subst (λ o. Agrees (get_and_erase_if s key pred) (o, taken_if pred key d o)) (h.finds key)
      (by_found (find s key))
  where
    given : Option HandlerObject → Option HandlerObject × HandlerSet
    given o = elim o as (λ _. Option HandlerObject × HandlerSet) [
      | none ↦ (none, s)
      | some x ↦ if pred x then (some x, erase s key) else (some x, s)
    ]

    by_test :
        (x : HandlerObject) (t : Bool)
        → Agrees
            (if t then (some x, erase s key) else (some x, s))
            (some x, if t then removed key d else d)
    by_test x true = (refl, erase-Refines s d key h)
    by_test x false = (refl, h)

    by_found : (o : Option HandlerObject) → Agrees (given o) (o, taken_if pred key d o)
    by_found none = (refl, h)
    by_found (some x) = by_test x (pred x)

step-Agrees :
    (o : Operation) (s : HandlerSet) (d : Dict) → Refines s d → Agrees (step o s) (dict_step o d)
unfolding step dict_step
step-Agrees (insertion n) s d h = (
  refl,
  record {
    sorted = insert-IsSorted n s h.sorted;
    finds = λ key. ground (arith, find-insert n s key h.sorted, h.finds key);
  },
)
step-Agrees (taking key) s d h = get_and_erase-Agrees s d key h
step-Agrees (taking_if key pred) s d h = get_and_erase_if-Agrees s d key pred h
step-Agrees (clearing pred) s d h = (
  refl,
  record {
    sorted = erase_if-IsSorted pred s h.sorted;
    finds = λ key. find-erase_if pred s key h.sorted ∙ ap (kept pred) (h.finds key);
  },
)

-- Let a sorted set find under each identifier what a map has there. Then any run of insertions,
-- removals, removals under a condition and clearings gives on the set what it gives on the map, one
-- answer for each operation, and leaves a sorted set that again finds what the map has.
pub run-dict_run :
    (os : List Operation) (s : HandlerSet) (d : Dict)
    → Refines s d
    → ((run os s).0 ≡ (dict_run os d).0) × Refines (run os s).1 (dict_run os d).1
unfolding run dict_run
run-dict_run [] s d h = (refl, h)
run-dict_run (o ∷ os) s d h =
    let (given, behind) = step-Agrees o s d h in
    let (rest, last) = run-dict_run os (step o s).1 (dict_step o d).1 behind in
    (ap₂ (λ a as_. a ∷ as_) given rest, last)
