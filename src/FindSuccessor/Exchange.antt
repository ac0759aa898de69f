-- ===== src/FindSuccessor/Exchange.antt =====
-- The messages of a lookup: what is asked, of whom, and what becomes of the answer.
use peerpaste.Base.{
  text, ◌≡◌, refl, ◌⊎◌, inl, inr, true, false, Option, none, some, List, [], ◌∷◌, ◌++◌, arith,
}
use peerpaste.Peer.{Peer}
use peerpaste.Header.{generate_response_header}
use peerpaste.Message
use peerpaste.Message.{Message, advance, generate_transaction_id, create_request, generate_response}
use peerpaste.Request.{
  RequestObject, HandlerObject, MessageType, Connection, Entry, to_peer, send, send_with, finished,
  set_message, is_request,
}
use peerpaste.Task.{Task, set_state, request_destruction, set_promise, await, done}
use peerpaste.FindSuccessor.{
  closest_preceding_node, find_successor, FindSuccessor, set_task, ask_twice_named, answer,
  handle_request, handle_forwarded_response_of, handle_response_of,
}

-- What `ask_twice_named` sends.
question : Task (Option Peer) → List Peer → Connection → RequestObject
question t peers c = record {
  type = MessageType.find_successor;
  message =
      generate_transaction_id (advance t.source)
        (Message.create_request t.source (text "find_successor") peers);
  connection = c;
  on_write_handler = false;
}

handler_for : Task (Option Peer) → Entry → RequestObject → HandlerObject
handler_for t entry r = record {
  correlation_id = r.message.header.transaction_id;
  handler = entry;
  parent = t.object;
  is_persistent = false;
}

-- What `answer` sends.
answer_to : Task (Option Peer) → RequestObject → Peer → RequestObject
answer_to t r x =
    set_message r
      (generate_transaction_id t.source (record (generate_response r.message) { peers = x ∷ [] }))

-- A node that is asked, and that finds the successor itself, sends one answer: that peer alone, to
-- where the request came from and under its identifier. The object ends as done.
pub handle_request-answers :
    (f : FindSuccessor) (r : RequestObject) (front x : Peer) (others : List Peer)
    → f.task.request ≡ some r
    → r.message.peers ≡ front ∷ others
    → find_successor f.task.table front.id ≡ some (some x, f.task.table)
    → (u : FindSuccessor) × (a : RequestObject) × (handle_request f ≡ some u)
      × (u.task.events ≡ (f.task.events ++ send a ∷ []) ++ finished ∷ [])
      × (a.connection ≡ r.connection)
      × (a.message.peers ≡ x ∷ [])
      × (a.message.header.correlational_id ≡ r.message.header.transaction_id)
      × (is_request a ≡ false)
      × (u.task.state ≡ done)
      × (u.task.is_done ≡ true)
unfolding handle_request answer_to request_destruction generate_response generate_response_header
    generate_transaction_id
handle_request-answers f r front x others q p s = (
  set_task f (answer r x f.task),
  answer_to f.task r x,
  ground arith,
  refl,
  refl,
  refl,
  refl,
  refl,
  refl,
  refl,
)

-- A node that is asked, and that has to ask on, sends the question on to the closest peer that it
-- knows: a request of type find_successor for the first peer of the request, under whose identifier it
-- waits for the response. The first peer of the response to that is
-- sent back to where the first request came from, under the identifier of the first request, and
-- only then the object ends, as done.
pub handle_forwarded_response-handle_request :
    (f : FindSuccessor) (r response : RequestObject) (front x q : Peer) (others more : List Peer)
    → f.task.request ≡ some r
    → r.message.peers ≡ front ∷ others
    → find_successor f.task.table front.id ≡ some (none, f.task.table)
    → closest_preceding_node f.task.table front.id ≡ (some q, f.task.table)
    → response.message.peers ≡ x ∷ more
    → (u : FindSuccessor) × (asked : RequestObject) × (h : HandlerObject) × (v : FindSuccessor)
      × (a : RequestObject) × (handle_request f ≡ some u)
      × (u.task.events ≡ f.task.events ++ send_with asked h ∷ [])
      × (u.task.is_done ≡ f.task.is_done)
      × (asked.connection ≡ to_peer (some q))
      × (asked.message.peers ≡ front ∷ [])
      × (asked.message.header.request_type ≡ text "find_successor")
      × (is_request asked ≡ true)
      × (h.correlation_id ≡ asked.message.header.transaction_id)
      × (h.handler ≡ Entry.handle_forwarded_response)
      × (handle_forwarded_response_of u response ≡ some v)
      × (v.task.events ≡ (u.task.events ++ send a ∷ []) ++ finished ∷ [])
      × (a.connection ≡ r.connection)
      × (a.message.peers ≡ x ∷ [])
      × (a.message.header.correlational_id ≡ r.message.header.transaction_id)
      × (v.task.state ≡ done)
      × (v.task.is_done ≡ true)
unfolding handle_request handle_forwarded_response_of question handler_for answer_to await
    request_destruction generate_response generate_response_header generate_transaction_id
    create_request
handle_forwarded_response-handle_request f r response front x q others more e p s c d =
    let asked = question f.task (front ∷ []) (to_peer (some q)) in
    let u =
      set_task f
        (ask_twice_named (front ∷ []) Entry.handle_forwarded_response (to_peer (some q)) f.task) in
    (
      u,
      asked,
      handler_for f.task Entry.handle_forwarded_response asked,
      set_task u (answer r x u.task),
      answer_to u.task r x,
      ground arith,
      refl,
      refl,
      refl,
      refl,
      refl,
      refl,
      refl,
      refl,
      ground arith,
      refl,
      refl,
      refl,
      refl,
      refl,
      refl,
    )

-- The response to a lookup of its own gives an object the answer: its promise holds the first
-- peer, and it ends as done. With no peer in the response the read is undefined.
pub handle_response-promise :
    (f : FindSuccessor) (response : RequestObject)
    → f.task.promise ≡ none
    → ((x : Peer) × (more : List Peer) × (u : FindSuccessor) × (response.message.peers ≡ x ∷ more)
        × (handle_response_of f response ≡ some u)
        × (u.task.promise ≡ some (some x))
        × (u.task.state ≡ done)
        × (u.task.is_done ≡ true))
      ⊎ ((response.message.peers ≡ []) × (handle_response_of f response ≡ none))
unfolding handle_response_of set_promise request_destruction
handle_response-promise f response e = by_peers response.message.peers refl
  where
    by_peers :
        (l : List Peer)
        → response.message.peers ≡ l
        → ((x : Peer) × (more : List Peer) × (u : FindSuccessor) × (response.message.peers
              ≡ x ∷ more)
            × (handle_response_of f response ≡ some u)
            × (u.task.promise ≡ some (some x))
            × (u.task.state ≡ done)
            × (u.task.is_done ≡ true))
          ⊎ ((response.message.peers ≡ []) × (handle_response_of f response ≡ none))
    by_peers [] q = inr (q, ground arith)
    by_peers (x ∷ more) q = inl (
      x,
      more,
      set_task f (request_destruction (record (set_state done f.task) { promise = some (some x) })),
      q,
      ground arith,
      refl,
      refl,
      refl,
    )
