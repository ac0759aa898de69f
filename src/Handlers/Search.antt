-- ===== src/Handlers/Search.antt =====
-- The set as a finite map from correlation identifiers.
use peerpaste.Base.{
  if◌then◌else◌, Bytes, bytes_eq, bytes_eq_iff, bytes_lt, bytes_lt_self, bytes_lt-asymm,
  bytes_lt_trans, bytes_lt-total, ◌≡◌, refl, Bool, true, false, Option, none, some, [], ◌∷◌, arith,
}
use peerpaste.Request.{HandlerObject}
use peerpaste.Handlers.{HandlerSet, equivalent, find, erase, insert, erase_if}

abbrev pub Above : Bytes → HandlerSet → Type 0
Above id [] = Unit {0}
Above id (h ∷ hs) = (bytes_lt id h.correlation_id ≡ true) × Above id hs

-- The order that the set keeps: each identifier is there once.
abbrev pub IsSorted : HandlerSet → Type 0
IsSorted [] = Unit {0}
IsSorted (h ∷ hs) = Above h.correlation_id hs × IsSorted hs

pub equivalent-bytes_eq : (a b : Bytes) → equivalent a b ≡ bytes_eq a b
equivalent-bytes_eq a b =
    ground (arith, bytes_eq_iff a b, bytes_lt-total a b, λ (e : a ≡ b). same a b e)
  where
    same : (a b : Bytes) → a ≡ b → (bytes_lt a b ≡ false) × (bytes_lt b a ≡ false)
    same a b e = (rw e (bytes_lt_self b), rw e (bytes_lt_self b))

Above-trans : (a b : Bytes) (hs : HandlerSet) → bytes_lt a b ≡ true → Above b hs → Above a hs
Above-trans a b [] h k = tt
Above-trans a b (x ∷ hs) h k = (bytes_lt_trans a b x.correlation_id h k.0, Above-trans a b hs h k.1)

pub find-Above : (id : Bytes) (hs : HandlerSet) → Above id hs → find hs id ≡ none
unfolding find
find-Above id [] h = refl
find-Above id (x ∷ hs) h = ground (arith, bytes_lt-asymm id x.correlation_id, find-Above id hs h.1)

insert-Above :
    (id : Bytes) (n : HandlerObject) (hs : HandlerSet)
    → bytes_lt id n.correlation_id ≡ true
    → Above id hs
    → Above id (insert n hs)
unfolding insert
insert-Above id n [] h k = (h, tt)
insert-Above id n (x ∷ hs) h k = ground (arith, insert-Above id n hs h k.1)

pub insert-IsSorted : (n : HandlerObject) (hs : HandlerSet) → IsSorted hs → IsSorted (insert n hs)
unfolding insert
insert-IsSorted n [] h = (tt, tt)
insert-IsSorted n (x ∷ hs) h = ground (
  arith,
  insert-IsSorted n hs h.1,
  insert-Above x.correlation_id n hs,
  Above-trans n.correlation_id x.correlation_id hs,
)

erase-Above : (id key : Bytes) (hs : HandlerSet) → Above id hs → Above id (erase hs key)
unfolding erase
erase-Above id key [] h = tt
erase-Above id key (x ∷ hs) h = ground (arith, erase-Above id key hs h.1)

pub erase-IsSorted : (key : Bytes) (hs : HandlerSet) → IsSorted hs → IsSorted (erase hs key)
unfolding erase
erase-IsSorted key [] h = tt
erase-IsSorted key (x ∷ hs) h =
    ground (arith, erase-IsSorted key hs h.1, erase-Above x.correlation_id key hs h.0)

erase_if-Above :
    (id : Bytes) (pred : HandlerObject → Bool) (hs : HandlerSet)
    → Above id hs
    → Above id (erase_if pred hs)
unfolding erase_if
erase_if-Above id pred [] h = tt
erase_if-Above id pred (x ∷ hs) h = ground (arith, erase_if-Above id pred hs h.1)

pub erase_if-IsSorted :
    (pred : HandlerObject → Bool) (hs : HandlerSet) → IsSorted hs → IsSorted (erase_if pred hs)
unfolding erase_if
erase_if-IsSorted pred [] h = tt
erase_if-IsSorted pred (x ∷ hs) h =
    ground (arith, erase_if-IsSorted pred hs h.1, erase_if-Above x.correlation_id pred hs h.0)

abbrev pub or_else : Option HandlerObject → HandlerObject → HandlerObject
or_else none n = n
or_else (some h) n = h

-- Inserting under a new identifier makes the object findable, and leaves every other search as it
-- was; under an identifier that is there already the object is dropped.
pub find-insert :
    (n : HandlerObject) (hs : HandlerSet) (key : Bytes)
    → IsSorted hs
    → find (insert n hs) key
      ≡ (if bytes_eq n.correlation_id key then some (or_else (find hs key) n) else find hs key)
unfolding find insert
find-insert n [] key h = ground (arith, equivalent-bytes_eq n.correlation_id key)
find-insert n (x ∷ hs) key h = ground (
  arith,
  equivalent-bytes_eq n.correlation_id key,
  equivalent-bytes_eq x.correlation_id key,
  bytes_eq_iff n.correlation_id key,
  bytes_eq_iff x.correlation_id key,
  bytes_lt-total n.correlation_id x.correlation_id,
  bytes_lt-asymm n.correlation_id x.correlation_id,
  bytes_lt_self x.correlation_id,
  find-Above n.correlation_id hs,
  Above-trans n.correlation_id x.correlation_id hs,
  find-insert n hs key h.1,
)

-- After an erasure the identifier is not found any more, and every other search gives what it gave.
pub find-erase :
    (hs : HandlerSet) (key other : Bytes)
    → IsSorted hs
    → find (erase hs key) other ≡ (if bytes_eq key other then none else find hs other)
unfolding find erase
find-erase [] key other h = ground arith
find-erase (x ∷ hs) key other h = ground (
  arith,
  equivalent-bytes_eq x.correlation_id key,
  equivalent-bytes_eq x.correlation_id other,
  bytes_eq_iff x.correlation_id key,
  bytes_eq_iff x.correlation_id other,
  bytes_eq_iff key other,
  find-Above x.correlation_id hs,
  find-erase hs key other h.1,
)
