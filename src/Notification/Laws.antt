-- ===== src/Notification/Laws.antt =====
-- What notifications do to the predecessor.
use peerpaste.Base.{if◌then◌else◌, ◌≡◌, true, some, [], ◌∷◌, ◌++◌, arith}
use peerpaste.Peer.{Peer}
use peerpaste.Message.{generate_response, generate_transaction_id}
use peerpaste.Request.{RequestObject, send, finished, set_message}
use peerpaste.Ring.{between}
use peerpaste.Table.{try_get_self, try_get_predecessor, has_predecessor, set_predecessor}
use peerpaste.Task.{request_destruction, reply, done}
use peerpaste.Notification.{Notification, handle_request}

-- A node with a predecessor `p`, told of `peer`: the predecessor becomes `peer` exactly if `peer`
-- lies strictly between `p` and the node, and is `p` otherwise; the node, the successor list and the flags of
-- the two stay, one answer is sent to the request, and the object ends as done.
pub handle_request-rectifies :
    (t : Notification) (r : RequestObject) (self p peer : Peer)
    → t.request ≡ some r
    → r.message.peers ≡ peer ∷ []
    → t.table.self ≡ some self
    → t.table.predecessor ≡ some p
    → ((handle_request t).table.predecessor
        ≡ some (if between p.id peer.id self.id then peer else p))
      × ((handle_request t).table.self ≡ some self)
      × ((handle_request t).table.successor_list ≡ t.table.successor_list)
      × ((handle_request t).table.self_is_set ≡ t.table.self_is_set)
      × ((handle_request t).table.successor_is_set ≡ t.table.successor_is_set)
      × ((handle_request t).events
          ≡ (t.events
              ++ send
                  (set_message r (generate_transaction_id t.source (generate_response r.message)))
                ∷ [])
            ++ finished ∷ [])
      × ((handle_request t).state ≡ done)
      × ((handle_request t).is_done ≡ true)
unfolding handle_request try_get_self try_get_predecessor has_predecessor set_predecessor reply
    request_destruction
handle_request-rectifies t r self p peer q m s e = (
  ground arith,
  ground arith,
  ground arith,
  ground arith,
  ground arith,
  ground arith,
  ground arith,
  ground arith,
)
