-- ===== src/Handlers/Dispatch.antt =====
-- A response reaches the handler that was filed for it.
use peerpaste.Base.{
  if◌then◌else◌, Bytes, bytes_eq_self, bytes_eq_iff, ℕ, ◌≡◌, sym, ◌∙◌, subst, Bool, true, not, none,
  some, List, [], ◌∷◌, arith,
}
use peerpaste.Request.{RequestObject, HandlerObject, Event, send, send_with, finished}
use peerpaste.Handlers.{
  find, get_and_erase_if, insert, MessageHandler, handle_notification, handle_all, handle_response,
}
use peerpaste.Handlers.Search.{
  IsSorted, insert-IsSorted, erase_if-IsSorted, find-insert, find-erase,
}

handle_notification-IsSorted :
    (alive : ℕ → Bool) (m : MessageHandler) (e : Event)
    → IsSorted m.active_handlers
    → IsSorted (handle_notification alive m e).active_handlers
unfolding handle_notification
handle_notification-IsSorted alive m (send r) h = h
handle_notification-IsSorted alive m (send_with r n) h = insert-IsSorted n m.active_handlers h
handle_notification-IsSorted alive m finished h =
    erase_if-IsSorted (λ n. not (alive n.parent)) m.active_handlers h

-- Whatever the message objects tell the handler, no two handlers in the set go by one identifier,
-- and the set stays in order.
pub handle_all-IsSorted :
    (alive : ℕ → Bool) (m : MessageHandler) (es : List Event)
    → IsSorted m.active_handlers
    → IsSorted (handle_all alive m es).active_handlers
unfolding handle_all
handle_all-IsSorted alive m [] h = h
handle_all-IsSorted alive m (e ∷ es) h =
    handle_all-IsSorted alive (handle_notification alive m e) es
      (handle_notification-IsSorted alive m e h)

-- The answer `a` goes by the identifier of the request in `r`.
abbrev pub Answers : RequestObject → RequestObject → Type 0
Answers a r = a.message.header.correlational_id ≡ r.message.header.transaction_id

-- A request is sent with a handler under its own identifier, which no other waits under. Then the
-- next answer to it, its parent being alive, calls that handler. A handler that is not persistent
-- is gone afterwards, so that a second answer calls nothing; a persistent one stays.
pub handle_response-send_with :
    (alive : ℕ → Bool) (m : MessageHandler) (r a : RequestObject) (h : HandlerObject)
    → IsSorted m.active_handlers
    → find m.active_handlers h.correlation_id ≡ none
    → h.correlation_id ≡ r.message.header.transaction_id
    → Answers a r
    → alive h.parent ≡ true
    → let first = handle_response alive (handle_notification alive m (send_with r h)) a in
      (first.0 ≡ some h)
      × ((handle_response alive first.1 a).0 ≡ (if h.is_persistent then some h else none))
unfolding handle_response handle_notification get_and_erase_if
handle_response-send_with alive m r a h sorted new own answers lives = ground (
  arith,
  found,
  find-erase (insert h m.active_handlers) key key (insert-IsSorted h m.active_handlers sorted),
  bytes_eq_self key,
)
  where
    key : Bytes
    key = a.message.header.correlational_id

    same : key ≡ h.correlation_id
    same = answers ∙ sym own

    found : find (insert h m.active_handlers) key ≡ some h
    found = ground (
      arith,
      find-insert h m.active_handlers key sorted,
      bytes_eq_iff h.correlation_id key,
      same,
      subst (λ k. find m.active_handlers k ≡ none) (sym same) new,
    )

-- An answer that nothing waits for calls nothing and changes nothing.
pub handle_response-none :
    (alive : ℕ → Bool) (m : MessageHandler) (a : RequestObject)
    → find m.active_handlers a.message.header.correlational_id ≡ none
    → handle_response alive m a ≡ (none, m)
unfolding handle_response get_and_erase_if
handle_response-none alive m a e = ground arith
