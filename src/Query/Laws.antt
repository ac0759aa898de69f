-- ===== src/Query/Laws.antt =====
-- A node learns its own address and identifier.
use peerpaste.Base.{◌==◌, length, ◌≡◌, refl, true, false, none, some, [], ◌∷◌, ◌++◌, arith}
use peerpaste.Peer.{Peer}
use peerpaste.Message.{generate_response, generate_transaction_id}
use peerpaste.Header.{generate_response_header}
use peerpaste.Request.{
  RequestObject, Session, to_session, get_client_ip, set_message, send, finished,
}
use peerpaste.Table.{set_self}
use peerpaste.Task.{
  request_destruction, set_promise, reply, failed, done, set_state, set_table, end_with,
}
use peerpaste.Query.{Query, seen_as, handle_request, handle_response, settle, set_task}

-- What the node behind `s` knows of one that asks over `session` and says it is `peer`.
abbrev pub seen : Query → Session → Peer → Peer
seen s session peer = record {
  id = s.task.source.digest (session.client_ip ++ peer.port);
  ip = session.client_ip;
  port = peer.port;
}

-- The query over a session. The asked node answers the request once, under its identifier, with one
-- peer: the port that the asking node told, the address that its session shows, and the hash of the
-- two as the identifier. The asking node sets itself to exactly that peer, promises it, and ends as
-- done.
pub handle_response-seen_as :
    (s c : Query) (r : RequestObject) (peer : Peer) (session : Session)
    → s.task.request ≡ some r
    → r.message.peers ≡ peer ∷ []
    → r.connection ≡ to_session session
    → c.task.promise ≡ none
    → (u : Query) × (a : RequestObject) × (d : Query) × (handle_request s ≡ some u)
      × (u.task.events ≡ (s.task.events ++ send a ∷ []) ++ finished ∷ [])
      × (u.task.state ≡ done)
      × (a.connection ≡ r.connection)
      × (a.message.header.correlational_id ≡ r.message.header.transaction_id)
      × (a.message.peers ≡ seen s session peer ∷ [])
      × (handle_response c a ≡ some d)
      × (d.task.table ≡ set_self c.task.table (seen s session peer))
      × (d.task.promise ≡ some (some (seen s session peer)))
      × (d.task.state ≡ done)
      × (d.task.is_done ≡ true)
unfolding handle_request seen_as handle_response settle get_client_ip reply request_destruction
    set_promise generate_response generate_transaction_id generate_response_header
handle_response-seen_as s c r peer session q m k e = (
  served,
  a,
  asked,
  ground arith,
  refl,
  refl,
  refl,
  refl,
  refl,
  ground arith,
  refl,
  refl,
  refl,
  refl,
)
  where
    a : RequestObject
    a = set_message r (
        generate_transaction_id s.task.source
          (record (generate_response r.message) { peers = seen s session peer ∷ [] }))

    served : Query
    served = set_task s (
        end_with done (
          reply r (record (generate_response r.message) { peers = seen s session peer ∷ [] })
            s.task))

    asked : Query
    asked = set_task c (
        request_destruction
          (record (set_state done
            (set_table (set_self c.task.table (seen s session peer)) c.task)) {
              promise = some (some (seen s session peer));
            }))

-- A response that does not hold exactly one peer leaves the node's table as it is; the promise then
-- holds nothing, and the object ends as failed.
pub handle_response-failed :
    (c : Query) (r : RequestObject)
    → c.task.promise ≡ none
    → (length r.message.peers == 1) ≡ false
    → (d : Query) × (handle_response c r ≡ some d)
      × (d.task.table ≡ c.task.table)
      × (d.task.promise ≡ some none)
      × (d.task.state ≡ failed)
      × (d.task.is_done ≡ true)
unfolding handle_response settle set_promise request_destruction
handle_response-failed c r e h = (lost, ground arith, refl, refl, refl, refl)
  where
    lost : Query
    lost =
        set_task c (request_destruction (record (set_state failed c.task) { promise = some none }))
