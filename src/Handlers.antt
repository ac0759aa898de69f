-- ===== src/Handlers.antt =====
-- `ConcurrentSet` of include/peerpaste/concurrent_request_handler.hpp at `HandlerObject`, ordered by
-- the correlation identifier, and the part of include/peerpaste/message_handler.hpp that files the
-- handlers and calls them. Each method of the set holds its mutex throughout.
pub mod Search
pub mod Refinement
pub mod Dispatch
use peerpaste.Base.{
  if◌then◌else◌, Bytes, bytes_lt, ℕ, Bool, true, false, not, ◌&&◌, Option, none, some, List, [],
  ◌∷◌, ◌++◌,
}
use peerpaste.Request.{RequestObject, HandlerObject, Event, send, send_with, finished}

-- The objects of the `std::set`, from the smallest.
abbrev pub HandlerSet : Type 0
HandlerSet = List HandlerObject

-- Neither is less: the keys are equivalent.
abbrev pub equivalent : Bytes → Bytes → Bool
equivalent a b = not (bytes_lt a b) && not (bytes_lt b a)

-- `set_.find(key)`.
unfoldable pub find : HandlerSet → Bytes → Option HandlerObject
find [] key = none
find (h ∷ hs) key = if equivalent h.correlation_id key then some h else find hs key

-- `set_.erase(search)`, at the object that `find` gave.
unfoldable pub erase : HandlerSet → Bytes → HandlerSet
erase [] key = []
erase (h ∷ hs) key = if equivalent h.correlation_id key then hs else h ∷ erase hs key

unfoldable pub contains : HandlerSet → Bytes → Bool
contains s key = elim (find s key) [ none ↦ false | some h ↦ true ]

unfoldable pub get_and_erase : HandlerSet → Bytes → Option HandlerObject × HandlerSet
get_and_erase s key = elim (find s key) [ none ↦ (none, s) | some h ↦ (some h, erase s key) ]

-- An object that fails the test is returned and stays.
unfoldable pub get_and_erase_if :
    HandlerSet → Bytes → (HandlerObject → Bool) → Option HandlerObject × HandlerSet
get_and_erase_if s key pred = elim (find s key) [
  | none ↦ (none, s)
  | some h ↦ if pred h then (some h, erase s key) else (some h, s)
]

-- `insert` and `emplace`: an object with an equivalent key stays, and the new one is dropped.
unfoldable pub insert : HandlerObject → HandlerSet → HandlerSet
insert n [] = n ∷ []
insert n (h ∷ hs) =
    let rest = insert n hs in
    if bytes_lt n.correlation_id h.correlation_id
    then n ∷ h ∷ hs
    else if bytes_lt h.correlation_id n.correlation_id
    then h ∷ rest
    else h ∷ hs

unfoldable pub erase_if : (HandlerObject → Bool) → HandlerSet → HandlerSet
erase_if pred [] = []
erase_if pred (h ∷ hs) = if pred h then erase_if pred hs else h ∷ erase_if pred hs

-- The message handler, with what the consumer has not sent yet.
pub record MessageHandler : Type 0 where
  pub active_handlers : HandlerSet
  pub send_queue : List RequestObject

-- The three `HandleNotification`s. `alive` tells which message objects still exist.
unfoldable pub handle_notification : (ℕ → Bool) → MessageHandler → Event → MessageHandler
handle_notification alive m (send r) = record m { send_queue = m.send_queue ++ r ∷ [] }
handle_notification alive m (send_with r h) = record m {
  active_handlers = insert h m.active_handlers;
  send_queue = m.send_queue ++ r ∷ [];
}
handle_notification alive m finished = record m {
  active_handlers = erase_if (λ h. not (alive h.parent)) m.active_handlers;
}

unfoldable pub handle_all : (ℕ → Bool) → MessageHandler → List Event → MessageHandler
handle_all alive m [] = m
handle_all alive m (e ∷ es) = handle_all alive (handle_notification alive m e) es

-- Whether `lock()` gives the parent of the object that was found.
abbrev pub locked : (ℕ → Bool) → Option HandlerObject → Option HandlerObject
locked alive none = none
locked alive (some h) = if alive h.parent then some h else none

-- `handle_response`: the object whose handler is called, and the handler after it.
unfoldable pub handle_response :
    (ℕ → Bool) → MessageHandler → RequestObject → Option HandlerObject × MessageHandler
handle_response alive m r =
    let (h, rest) =
      get_and_erase_if m.active_handlers r.message.header.correlational_id
        (λ h. not h.is_persistent) in
    (locked alive h, record m { active_handlers = rest })
