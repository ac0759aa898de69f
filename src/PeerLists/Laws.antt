-- ===== src/PeerLists/Laws.antt =====
-- What the asking node gets is what the other node knows.
use peerpaste.Base.{◌≡◌, refl, true, false, Option, none, some, List, [], ◌∷◌, ◌++◌, arith}
use peerpaste.Peer.{Peer}
use peerpaste.Request
use peerpaste.Request.{RequestObject, send, finished, set_message}
use peerpaste.Table.{RoutingTable, try_get_predecessor, get_peers}
use peerpaste.Header.{generate_response_header}
use peerpaste.Message.{generate_response, generate_transaction_id}
use peerpaste.Task.{set_table, request_destruction, set_promise, reply, done}
use peerpaste.PeerLists.Common.{PeerListRequest, set_task, settle}
use peerpaste.PeerLists.PredAndSuccList.{known_peers, handle_request, handle_response}

abbrev pub behind_predecessor : Option Peer → List Peer → List Peer
behind_predecessor none ps = []
behind_predecessor (some p) ps = p ∷ ps

-- The answer of `s` to `r`.
answer : PeerListRequest → RequestObject → RequestObject
answer s r = set_message r (
    generate_transaction_id s.task.source
      (record (generate_response r.message) { peers = (known_peers s.task.table).0 }))

-- `s` behind its answer.
served : PeerListRequest → RequestObject → PeerListRequest
served s r = set_task s (
    request_destruction
      (record (reply r
        (record (generate_response r.message) { peers = (known_peers s.task.table).0 })
        (set_table (known_peers s.task.table).1 s.task)) { state = done; promise = some none }))

-- `c` behind an answer with the peers `ps`.
unfoldable pub asked : PeerListRequest → List Peer → PeerListRequest
asked c ps =
    set_task c (request_destruction (record (c.task) { state = done; promise = some (some ps) }))

handle_request-served :
    (s : PeerListRequest) (r : RequestObject)
    → s.task.request ≡ some r
    → s.has_table ≡ true
    → s.task.promise ≡ none
    → handle_request s ≡ some (served s r)
unfolding handle_request served settle reply set_promise request_destruction
handle_request-served s r q h p = ground arith

pub handle_response-asked :
    (c : PeerListRequest) (a : RequestObject)
    → Request.is_request a ≡ false
    → c.task.promise ≡ none
    → handle_response c a ≡ some (asked c a.message.peers)
unfolding handle_response asked settle set_promise request_destruction
handle_response-asked c a h p = ground arith

known_peers-behind :
    (table : RoutingTable)
    → (known_peers table).0 ≡ behind_predecessor table.predecessor (get_peers table)
unfolding known_peers try_get_predecessor
known_peers-behind table = ground arith

-- The answer to a request for the predecessor and the successors, and what the asking node makes of
-- it. The serving object `s` sends one answer, under the identifier of the request, and ends as
-- done. The asking object `c` then ends as done, with the peers that the server knows: none at
-- all if it has no predecessor, and otherwise the predecessor and the successor list.
pub handle_response-handle_request :
    (s c : PeerListRequest) (r : RequestObject)
    → s.task.request ≡ some r
    → s.has_table ≡ true
    → s.task.promise ≡ none
    → c.task.promise ≡ none
    → (u : PeerListRequest) × (a : RequestObject) × (d : PeerListRequest) × (handle_request s
        ≡ some u)
      × (u.task.events ≡ (s.task.events ++ send a ∷ []) ++ finished ∷ [])
      × (u.task.state ≡ done)
      × (a.message.header.correlational_id ≡ r.message.header.transaction_id)
      × (a.message.peers ≡ behind_predecessor s.task.table.predecessor (get_peers s.task.table))
      × (handle_response c a ≡ some d)
      × (d.task.promise ≡ some (some a.message.peers))
      × (d.task.state ≡ done)
      × (d.task.is_done ≡ true)
unfolding served asked answer reply request_destruction generate_response generate_transaction_id
    generate_response_header
handle_response-handle_request s c r q h p k = (
  served s r,
  answer s r,
  asked c (answer s r).message.peers,
  handle_request-served s r q h p,
  refl,
  refl,
  refl,
  known_peers-behind s.task.table,
  handle_response-asked c (answer s r) refl k,
  refl,
  refl,
  refl,
)
