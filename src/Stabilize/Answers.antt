-- ===== src/Stabilize/Answers.antt =====
-- What the successor answers to the two requests of a round.
use peerpaste.Base.{
  if◌then◌else◌, Bytes, text, bytes_eq, suc, ◌≡◌, refl, ap, ◌∙◌, true, false, none, some, List, [],
  ◌∷◌, arith,
}
use peerpaste.Peer.{Peer}
use peerpaste.Message.{generate_response, generate_transaction_id}
use peerpaste.Header.{generate_response_header}
use peerpaste.Ring.{between}
use peerpaste.Request.{RequestObject, Session, MessageType, send, finished, is_request}
use peerpaste.Table.{try_get_predecessor}
use peerpaste.Task
use peerpaste.Task.{
  Task, MessageState, ask, await, reply, set_promise, request_destruction, done, set_table,
  end_with, count_up,
}
use peerpaste.Notification
use peerpaste.Notification.{Notification}
use peerpaste.Notification.Laws.{handle_request-rectifies}
use peerpaste.PeerLists.Common.{PeerListRequest, settle}
use peerpaste.PeerLists.PredAndSuccList
use peerpaste.Storage.{Platform, Storage}
use peerpaste.Factory
use peerpaste.Factory.{
  MessageObject, Place, create_from_request, create_by_type, report, call, new_task,
}
use peerpaste.GetFile.Transfer.{arrived}
use peerpaste.Stabilize.Round.{serve}

-- A request of the type `type`, by which the other node chooses the class.
abbrev pub Asks : Bytes → RequestObject → Type 0
Asks type r = (is_request r ≡ true) × (r.message.header.request_type ≡ type)

create_from_request-by_type :
    (b : Place) (r : RequestObject) (type : Bytes)
    → Asks type r
    → create_from_request b r ≡ create_by_type type b r
unfolding create_from_request
create_from_request-by_type b r type (k, t) =
    ap (λ x. if x then create_by_type r.message.header.request_type b r else none) k
    ∙ ap (λ x. create_by_type x b r) t

abbrev list_object : Place → RequestObject → PeerListRequest
list_object b r = record {
  task = new_task b MessageType.get_pred_and_succ_list r;
  target = none;
  has_table = true;
}

create_by_type-get_pred_and_succ_list :
    (b : Place) (r : RequestObject)
    → create_by_type (text "get_predecessor_and_succ_list") b r
      ≡ some (Factory.get_pred_and_succ_list (list_object b r))
unfolding create_by_type bytes_eq
create_by_type-get_pred_and_succ_list b r = refl

create_by_type-notify :
    (b : Place) (r : RequestObject)
    → create_by_type (text "notify") b r
      ≡ some (Factory.notification (new_task b MessageType.notification r))
unfolding create_by_type bytes_eq
create_by_type-notify b r = refl

list_answer : Place → RequestObject → List Peer → RequestObject
list_answer b r ps = record r {
  message = generate_transaction_id b.source (record (generate_response r.message) { peers = ps });
}

-- The object behind its answer with the peers `ps`.
list_object_answered : Place → RequestObject → List Peer → PeerListRequest
list_object_answered b r ps = record (list_object b r) {
  task =
      request_destruction
        (record (reply r (record (generate_response r.message) { peers = ps })
          (new_task b MessageType.get_pred_and_succ_list r)) { state = done; promise = some none });
}

handle_request-list_object :
    (b : Place) (r : RequestObject) (q : Peer)
    → b.table.predecessor ≡ some q
    → PredAndSuccList.handle_request (list_object b r)
      ≡ some (list_object_answered b r (q ∷ b.table.successor_list))
unfolding PredAndSuccList.handle_request PredAndSuccList.known_peers try_get_predecessor settle
    set_promise list_object_answered Task.new reply
handle_request-list_object b r q e = ground arith

module _ {p : Platform} where
  serve-some :
      (b : Place) (storage : Storage p) (session : Session) (r : RequestObject) (o : MessageObject)
      (ran : MessageObject × Storage p)
      → create_from_request b (arrived session r) ≡ some o
      → call o storage ≡ some ran
      → serve b storage session r
        ≡ some (
          (report ran.0).events,
          record {
            object = suc b.object;
            source = (report ran.0).source;
            table = (report ran.0).table;
          },
        )
  unfolding serve
  serve-some b storage session r o ran e f = ground arith

  -- The node tells its predecessor `q` and its successors, and stays as it is.
  pub serve-get_pred_and_succ_list :
      (b : Place) (storage : Storage p) (session : Session) (r : RequestObject) (q : Peer)
      → Asks (text "get_predecessor_and_succ_list") r
      → b.table.predecessor ≡ some q
      → (a : RequestObject) × (after : Place) × (serve b storage session r
          ≡ some (send a ∷ finished ∷ [], after))
        × (is_request a ≡ false)
        × (a.message.peers ≡ q ∷ b.table.successor_list)
        × (after.table ≡ b.table)
  unfolding call report Factory.handle_request list_object_answered reply request_destruction
      Task.new list_answer generate_response generate_transaction_id generate_response_header
  serve-get_pred_and_succ_list b storage session r q k e = (
    list_answer b (arrived session r) (q ∷ b.table.successor_list),
    _,
    serve-some b storage session r
        (Factory.get_pred_and_succ_list (list_object b (arrived session r)))
        (
          Factory.get_pred_and_succ_list
              (list_object_answered b (arrived session r) (q ∷ b.table.successor_list)),
          storage,
        )
        (create_from_request-by_type b (arrived session r) (text "get_predecessor_and_succ_list") k
          ∙ create_by_type-get_pred_and_succ_list b (arrived session r))
        (ap (Factory.beside Factory.get_pred_and_succ_list storage)
          (handle_request-list_object b (arrived session r) q e)),
    refl,
    refl,
    refl,
  )

  -- The node takes `self` for its predecessor if it lies behind `q`, and says so much as that it has
  -- heard.
  pub serve-notify :
      (b : Place) (storage : Storage p) (session : Session) (r : RequestObject) (self q node : Peer)
      → Asks (text "notify") r
      → r.message.peers ≡ self ∷ []
      → b.table.self ≡ some node
      → b.table.predecessor ≡ some q
      → (a : RequestObject) × (after : Place) × (serve b storage session r
          ≡ some (send a ∷ finished ∷ [], after))
        × (after.table.predecessor ≡ some (if between q.id self.id node.id then self else q))
        × (after.table.self ≡ some node)
        × (after.table.successor_list ≡ b.table.successor_list)
  unfolding call report Factory.handle_request Task.new
  serve-notify b storage session r self q node k m n e =
      let o : Notification = new_task b MessageType.notification (arrived session r) in
      let (pred, itself, successors, self_flag, successor_flag, events, state, over) =
        handle_request-rectifies o (arrived session r) node q self refl m n e in
      let after : Place = record {
        object = suc b.object;
        source = (Notification.handle_request o).source;
        table = (Notification.handle_request o).table;
      } in
      (
        _,
        after,
        serve-some b storage session r (Factory.notification o)
              (Factory.notification (Notification.handle_request o), storage)
              (create_from_request-by_type b (arrived session r) (text "notify") k
                ∙ create_by_type-notify b (arrived session r))
              refl
            ∙ ap (λ es. some (es, after)) events,
        pred,
        itself,
        successors,
      )
