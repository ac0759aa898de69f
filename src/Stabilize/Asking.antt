-- ===== src/Stabilize/Asking.antt =====
-- What a node that stabilizes asks and takes over, where nothing stands between it and its successor.
use peerpaste.Base.{text, bytes_eq, ℕ, ◌≡◌, refl, Bool, true, false, some, List, [], ◌∷◌, arith}
use peerpaste.Peer.{Peer}
use peerpaste.Message
use peerpaste.Message.{Source, generate_response, generate_transaction_id}
use peerpaste.Ring.{between}
use peerpaste.Request.{RequestObject, MessageType}
use peerpaste.Table.{replace_successor_list, try_get_self, try_get_successor}
use peerpaste.Task
use peerpaste.Task.{
  Task, MessageState, ask, await, reply, set_promise, request_destruction, done, set_table,
  end_with, count_up,
}
use peerpaste.Notification
use peerpaste.Notification.{Notification}
use peerpaste.PeerLists.Common.{PeerListRequest}
use peerpaste.PeerLists.PredAndSuccList
use peerpaste.GetFile.Fetch.{last_asked}
use peerpaste.Stabilize
use peerpaste.Stabilize.{Stabilize, Child}
use peerpaste.Stabilize.Round.{child_task}
use peerpaste.Stabilize.Answers.{Asks}

-- The node `self` before the round, with `succ` for its successor.
abbrev pub Settling : Stabilize → Peer → Peer → List Peer → Type 0
Settling s self succ ps =
    (s.task.table.self ≡ some self) × (s.task.table.successor_list ≡ succ ∷ ps)

-- The first child, and the stabilisation that has started it.
abbrev pub asking : Stabilize → Peer → Stabilize
asking s succ = Stabilize.start MessageType.get_pred_and_succ_list (some succ) s

pub create_request-asking :
    (s : Stabilize) (succ : Peer) (ps : List Peer)
    → s.task.table.successor_list ≡ succ ∷ ps
    → Stabilize.create_request s ≡ some (asking s succ)
unfolding Stabilize.create_request try_get_successor
create_request-asking s succ ps e = ground arith

unfoldable pub question : ℕ → Stabilize → Peer → PeerListRequest
question n s succ = record {
  task =
      ask MessageType.unknown
        (Message.create_request s.task.source (text "get_predecessor_and_succ_list") []) succ
        (count_up (child_task n MessageType.get_pred_and_succ_list s));
  target = some succ;
  has_table = false;
}

-- The question names its class by its type, and waits.
pub create_request-question :
    (n : ℕ) (s : Stabilize) (succ : Peer)
    → (r : RequestObject) × (PredAndSuccList.create_request (record {
      task = child_task n MessageType.get_pred_and_succ_list s;
      target = some succ;
      has_table = false;
    })
        ≡ some (question n s succ))
      × (last_asked (question n s succ).task.events ≡ some r)
      × Asks (text "get_predecessor_and_succ_list") r
unfolding PredAndSuccList.create_request question ask await Task.new Message.create_request
    generate_transaction_id
create_request-question n s succ = (_, refl, refl, (refl, refl))

unfoldable pub notification_of : ℕ → Stabilize → Peer → Peer → Notification
notification_of n s self succ =
    ask MessageType.notification (Message.create_request s.task.source (text "notify") (self ∷ []))
      succ (count_up (child_task n MessageType.notification s))

pub create_request-notification_of :
    (n : ℕ) (s : Stabilize) (self succ : Peer) (ps : List Peer)
    → Settling s self succ ps
    → bytes_eq self.id [] ≡ false
    → (r : RequestObject) × (Notification.create_request (child_task n MessageType.notification s)
        ≡ notification_of n s self succ)
      × (last_asked (notification_of n s self succ).events ≡ some r)
      × Asks (text "notify") r
      × (r.message.peers ≡ self ∷ [])
unfolding Notification.create_request notification_of ask await Task.new Message.create_request
    generate_transaction_id try_get_self try_get_successor
create_request-notification_of n s self succ ps (k, l) named =
    (_, ground arith, refl, (refl, refl), refl)

-- The list is taken over, the successor is notified, and the flag is down.
unfoldable pub adopted : Stabilize → List Peer → Stabilize
adopted s l =
    record (Stabilize.create_notification (
      Stabilize.set_task (Stabilize.extend s)
        (set_table (replace_successor_list s.task.table l) (Stabilize.extend s).task))) {
          stabilize_flag = some false;
        }

-- The child that was asked first, behind the answer `ps`.
abbrev pub IsAnswered : Child → List Peer → Type 0
IsAnswered c ps =
    (c.type ≡ MessageType.get_pred_and_succ_list)
    × (c.is_done ≡ true)
    × (c.state ≡ done)
    × (c.promise ≡ some (some ps))

pub handle_notification-adopted :
    (s : Stabilize) (c : Child) (cs : List Child) (self succ q first : Peer) (rest ps : List Peer)
    (flag : Bool)
    → s.dependencies ≡ c ∷ cs
    → s.stabilize_flag ≡ some flag
    → IsAnswered c (q ∷ first ∷ rest)
    → Settling s self succ ps
    → between self.id q.id succ.id ≡ false
    → Stabilize.handle_notification s ≡ some (adopted s (succ ∷ first ∷ rest))
unfolding Stabilize.handle_notification Stabilize.take_pred_and_succ_list
    Stabilize.create_notification adopted try_get_self try_get_successor
handle_notification-adopted s c cs self succ q first rest ps flag d f (t, o, st, pr) (k, l) b =
    ground arith

pub handle_notification-ended :
    (s : Stabilize) (c : Child) (cs : List Child)
    → s.dependencies ≡ c ∷ cs
    → c.type ≡ MessageType.notification
    → c.is_done ≡ true
    → c.state ≡ done
    → Stabilize.handle_notification s ≡ some (Stabilize.set_task s (end_with done s.task))
unfolding Stabilize.handle_notification
handle_notification-ended s c cs d t o st = ground arith
