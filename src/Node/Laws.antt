-- ===== src/Node/Laws.antt =====
-- What a node does with a request.
use mathlib.Core.List.{append-nil, append_assoc}
use mathlib.Core.Option.{some-injective}
use peerpaste.Base.{
  if◌then◌else◌, text, bytes_eq, ℕ, ◌≡◌, refl, sym, ap, ◌∙◌, subst, Bool, true, false, Option, none,
  some, List, [], ◌∷◌, ◌++◌, arith,
}
use peerpaste.Message.{generate_response, generate_transaction_id, is_request}
use peerpaste.Request.{RequestObject, MessageType, Event, send, send_with, finished, set_message}
use peerpaste.Task
use peerpaste.Task.{reply, request_destruction}
use peerpaste.CheckPredecessor
use peerpaste.CheckPredecessor.{CheckPredecessor}
use peerpaste.Header.{generate_response_header}
use peerpaste.Storage.{Platform, Storage}
use peerpaste.Handlers.{MessageHandler, handle_all, handle_notification}
use peerpaste.Handlers.Search.{IsSorted}
use peerpaste.Handlers.Dispatch.{handle_all-IsSorted}
use peerpaste.Factory
use peerpaste.Factory.{
  MessageObject, check_predecessor, Place, create_from_request, create_by_type, report, call,
  new_task,
}
use peerpaste.Node.{Node, place, adopt, create_request, handle_request}

-- The requests and responses that are told, oldest first.
abbrev pub requests_of : List Event → List RequestObject
requests_of [] = []
requests_of (send r ∷ es) = r ∷ requests_of es
requests_of (send_with r h ∷ es) = r ∷ requests_of es
requests_of (finished ∷ es) = requests_of es

handle_all-send_queue :
    (alive : ℕ → Bool) (m : MessageHandler) (es : List Event)
    → (handle_all alive m es).send_queue ≡ m.send_queue ++ requests_of es
unfolding handle_all handle_notification
handle_all-send_queue alive m [] = sym (append-nil m.send_queue)
handle_all-send_queue alive m (send r ∷ es) =
    handle_all-send_queue alive (handle_notification alive m (send r)) es
    ∙ append_assoc m.send_queue (r ∷ []) (requests_of es)
handle_all-send_queue alive m (send_with r h ∷ es) =
    handle_all-send_queue alive (handle_notification alive m (send_with r h)) es
    ∙ append_assoc m.send_queue (r ∷ []) (requests_of es)
handle_all-send_queue alive m (finished ∷ es) =
    handle_all-send_queue alive (handle_notification alive m finished) es

-- The object that answers a check.
abbrev asked : Place → RequestObject → CheckPredecessor
asked p r = record {
  task = new_task p MessageType.check_predecessor r;
  check_predecessor_flag = none;
}

create_by_type-check_predecessor :
    (p : Place) (r : RequestObject)
    → create_by_type (text "check_predecessor") p r ≡ some (check_predecessor (asked p r))
unfolding create_by_type bytes_eq
create_by_type-check_predecessor p r = refl

create_from_request-check_predecessor :
    (p : Place) (r : RequestObject)
    → is_request r.message ≡ true
    → r.message.header.request_type ≡ text "check_predecessor"
    → create_from_request p r ≡ some (check_predecessor (asked p r))
unfolding create_from_request
create_from_request-check_predecessor p r k t =
    ap (λ b. if b then create_by_type r.message.header.request_type p r else none) k
    ∙ (ap (λ type. create_by_type type p r) t ∙ create_by_type-check_predecessor p r)

module _ {p : Platform} where
  -- What a node is after a request: as it was, or with one object more that has run, and what that
  -- object sent.
  pub data Outcome (n : Node p) (u : Node p) : Type 0 where
    refused : u ≡ n → Outcome n u
    adopted :
        (o : MessageObject)
        → u.active_messages ≡ n.active_messages ++ o ∷ []
        → u.handler.send_queue ≡ n.handler.send_queue ++ requests_of (report o).events
        → IsSorted u.handler.active_handlers
        → Outcome n u

  -- A node whose handlers are sorted takes a request. If it comes to an end, the node is as before, or
  -- it has one object more behind the others, the send queue has grown by exactly what that object
  -- sent, in that order, and the handlers are still sorted.
  pub handle_request-Outcome :
      (alive : ℕ → Bool) (n u : Node p) (r : RequestObject)
      → IsSorted n.handler.active_handlers
      → handle_request alive n r ≡ some u
      → Outcome n u
  unfolding handle_request create_request adopt
  handle_request-Outcome alive n u r h e = by_object (create_from_request (place n) r) e
    where
      by_run :
          (ran : Option (MessageObject × Storage p))
          → elim ran as (λ _. Option (Node p)) [ none ↦ none | some x ↦ some (adopt alive n x) ]
            ≡ some u
          → Outcome n u
      by_run none f = absurd (ground arith)
      by_run (some (o, s)) f = subst (Outcome n) (some-injective _ _ f) (
          adopted o refl (handle_all-send_queue alive n.handler (report o).events)
            (handle_all-IsSorted alive n.handler (report o).events h))

      by_object :
          (made : Option MessageObject)
          → elim made as (λ _. Option (Node p)) [
            | none ↦ some n
            | some o ↦ create_request alive n o
          ]
            ≡ some u
          → Outcome n u
      by_object none f = refused (sym (some-injective _ _ f))
      by_object (some o) f = by_run (call o n.storage) f

  handle_request-adopt :
      (alive : ℕ → Bool) (n : Node p) (r : RequestObject) (o : MessageObject)
      (ran : MessageObject × Storage p)
      → create_from_request (place n) r ≡ some o
      → call o n.storage ≡ some ran
      → handle_request alive n r ≡ some (adopt alive n ran)
  unfolding handle_request create_request
  handle_request-adopt alive n r o ran e f = ground arith

  -- A predecessor that is asked for a sign of life gives it: whatever it knows and holds, it takes the
  -- request, and sends one thing more, a response under the request's identifier, back to where the
  -- request came from. Its table and its storage stay as they are.
  pub handle_request-check_predecessor :
      (alive : ℕ → Bool) (n : Node p) (r : RequestObject)
      → is_request r.message ≡ true
      → r.message.header.request_type ≡ text "check_predecessor"
      → (u : Node p) × (a : RequestObject) × (handle_request alive n r ≡ some u)
        × (u.handler.send_queue ≡ n.handler.send_queue ++ a ∷ [])
        × (a.connection ≡ r.connection)
        × (is_request a.message ≡ false)
        × (a.message.header.correlational_id ≡ r.message.header.transaction_id)
        × (u.table ≡ n.table)
        × (u.storage ≡ n.storage)
  unfolding call report adopt CheckPredecessor.handle_request Factory.handle_request Task.new reply
      request_destruction generate_response generate_transaction_id generate_response_header
  handle_request-check_predecessor alive n r k t = (
    adopt alive n
        (check_predecessor (CheckPredecessor.handle_request (asked (place n) r)), n.storage),
    set_message r (generate_transaction_id n.source (generate_response r.message)),
    handle_request-adopt alive n r (check_predecessor (asked (place n) r)) _
        (create_from_request-check_predecessor (place n) r k t) refl,
    handle_all-send_queue alive n.handler _,
    refl,
    refl,
    refl,
    refl,
    refl,
  )
