-- ===== src/Examples/Upkeep.antt =====
-- What keeps the routing table up to date.
use peerpaste.Base.{◌≡◌, refl, inl, inr, true, false, none, some, List, [], ◌∷◌, ◌++◌}
use peerpaste.Message
use peerpaste.Message.{generate_response, generate_transaction_id}
use peerpaste.Peer.{Peer}
use peerpaste.Request.{RequestObject, send, finished}
use peerpaste.Table.{RoutingTable, succ_list_size, init, has_self, has_successor, resize, is_valid}
use peerpaste.Table.Laws.{Write, write, write_all, is_valid_sound}
use peerpaste.Task.{done}
use peerpaste.Notification
use peerpaste.Notification.Closest.{Closest, Tells, notify_all, notify_all-Closest}
use peerpaste.CheckPredecessor.{CheckPredecessor}
use peerpaste.PeerLists.Common.{PeerListRequest}
use peerpaste.PeerLists.PredAndSuccList
use peerpaste.PeerLists.Laws.{handle_response-handle_request}
use peerpaste.Stabilize
use peerpaste.Stabilize.{Stabilize, Child}
use peerpaste.Stabilize.Laws
use peerpaste.Stabilize.Laws.{IsReleased, Ensures, handle_notification-IsReleased}
use peerpaste.Examples.Data.{
  peer_a, peer_c, peer_e, table_of, table_a, request_with, answer_with, task_of,
}

-- Node `e`, behind `a`, hears of `c` and then of `a` again.
abbrev told : Notification.Notification
told = task_of none (table_of peer_e (some peer_a) (peer_a ∷ []))

abbrev requests : List RequestObject
requests = request_with (peer_c ∷ []) ∷ request_with (peer_a ∷ []) ∷ []

notify_all-Closest_example :
    (q : Peer) × Closest told.table
      (notify_all told requests).table
      peer_e
      peer_a
      q
      (peer_c ∷ peer_a ∷ [])
unfolding Tells Message.create_request generate_transaction_id
notify_all-Closest_example =
    notify_all-Closest told requests (peer_c ∷ peer_a ∷ []) peer_e peer_a (refl, (refl, tt)) refl
      refl

abbrev check : CheckPredecessor
check = record { task = task_of none table_a; check_predecessor_flag = some false }

abbrev sign_of_life : RequestObject
sign_of_life = answer_with (request_with []) []

abbrev serving : PeerListRequest
serving = record {
  task = task_of (some (request_with [])) table_a;
  target = none;
  has_table = true;
}

abbrev asking : PeerListRequest
asking = record { task = task_of none table_a; target = some peer_a; has_table = false }

handle_response-handle_request_example :
    (u : PeerListRequest) × (a : RequestObject) × (d : PeerListRequest)
    × (PredAndSuccList.handle_request serving ≡ some u)
    × (u.task.events ≡ ([] ++ send a ∷ []) ++ finished ∷ [])
    × (u.task.state ≡ done)
    × (a.message.header.correlational_id ≡ (request_with []).message.header.transaction_id)
    × (a.message.peers ≡ peer_e ∷ peer_c ∷ peer_e ∷ [])
    × (PredAndSuccList.handle_response asking a ≡ some d)
    × (d.task.promise ≡ some (some a.message.peers))
    × (d.task.state ≡ done)
    × (d.task.is_done ≡ true)
handle_response-handle_request_example =
    handle_response-handle_request serving asking (request_with []) refl refl refl refl

-- A stabilisation of node `a`, whose successor is `e`.
abbrev stabilizing : List Peer → List Child → Stabilize
stabilizing successors children = record {
  task = task_of none (table_of peer_a none successors);
  stabilize_flag = some true;
  dependencies = children;
}

-- The neighbour `c` has answered.
abbrev answered_child : Child
answered_child = record (Laws.asking peer_c) {
  is_done = true;
  state = done;
  promise = some (some (peer_c ∷ peer_e ∷ []));
}

handle_notification-IsReleased_example :
    Ensures
      (IsReleased (answered_child ∷ []))
      (Stabilize.handle_notification (stabilizing (peer_e ∷ []) (answered_child ∷ [])))
handle_notification-IsReleased_example =
    handle_notification-IsReleased (stabilizing (peer_e ∷ []) (answered_child ∷ [])) answered_child
      [] (peer_c ∷ peer_e ∷ []) true refl refl (inr (inr (inl (refl, refl))))

abbrev history : List Write
history =
    Write.self peer_a
    ∷ Write.successor peer_c
    ∷ Write.read_predecessor
    ∷ Write.predecessor peer_e
    ∷ Write.after_front (peer_e ∷ [])
    ∷ []

abbrev joined : RoutingTable
joined = record {
  self = some peer_a;
  predecessor = some peer_e;
  successor_list = resize succ_list_size (peer_c ∷ peer_e ∷ []);
  self_is_set = true;
  predecessor_is_set = true;
  successor_is_set = true;
}

is_valid_sound_example : (has_self joined ≡ true) × (has_successor joined ≡ true)
unfolding write_all write init is_valid
is_valid_sound_example = is_valid_sound false history {u = joined} refl refl
