-- ===== src/Factory.antt =====
-- src/message_factory.cpp, and `operator()` of src/messaging_base.cpp: the message objects of all
-- classes that answer requests, by the type that the request names.
use mathlib.Core.Option
use peerpaste.Base.{
  if◌then◌else◌, Bytes, text, bytes_eq, ℕ, suc, Bool, true, Option, none, some, List, [],
}
use peerpaste.Peer.{default_peer}
use peerpaste.Message.{Source}
use peerpaste.Request.{RequestObject, MessageType, Event, is_request}
use peerpaste.Table.{RoutingTable}
use peerpaste.Task
use peerpaste.Task.{Task}
use peerpaste.Notification
use peerpaste.Notification.{Notification}
use peerpaste.CheckPredecessor
use peerpaste.CheckPredecessor.{CheckPredecessor}
use peerpaste.Query
use peerpaste.Query.{Query}
use peerpaste.FindSuccessor
use peerpaste.FindSuccessor.{FindSuccessor}
use peerpaste.PeerLists.Common.{PeerListRequest}
use peerpaste.PeerLists.SuccessorList
use peerpaste.PeerLists.SelfAndSuccList
use peerpaste.PeerLists.PredAndSuccList
use peerpaste.Storage.{Platform, Storage}
use peerpaste.GetFile
use peerpaste.GetFile.{GetFile}
use peerpaste.Broadcast
use peerpaste.Broadcast.{BroadcastFilelist}

pub data MessageObject : Type 0 where
  notification : Notification → MessageObject
  check_predecessor : CheckPredecessor → MessageObject
  query : Query → MessageObject
  find_successor : FindSuccessor → MessageObject
  get_successor_list : PeerListRequest → MessageObject
  get_pred_and_succ_list : PeerListRequest → MessageObject
  get_self_and_succ_list : PeerListRequest → MessageObject
  broadcast_filelist : BroadcastFilelist → MessageObject
  get_file : GetFile → MessageObject

-- Where the new object stands, and what it is made with.
pub record Place : Type 0 where
  pub object : ℕ
  pub source : Source
  pub table : RoutingTable

abbrev pub new_task : {A : Type 0} → Place → MessageType → RequestObject → Task A
new_task p type r = Task.new p.object type (some r) p.source p.table

abbrev list_request : Place → MessageType → RequestObject → PeerListRequest
list_request p type r = record { task = new_task p type r; target = none; has_table = true }

-- The chain of tests. A child of a `BroadcastFilelist` stands behind it.
unfoldable pub create_by_type : Bytes → Place → RequestObject → Option MessageObject
create_by_type type p r =
    if bytes_eq type (text "notify")
    then some (notification (new_task p MessageType.notification r))
    else if bytes_eq type (text "check_predecessor")
    then some (
        check_predecessor (record {
          task = new_task p MessageType.check_predecessor r;
          check_predecessor_flag = none;
        }))
    else if bytes_eq type (text "query")
    then some (query (record { task = new_task p MessageType.query r; target = default_peer }))
    else if bytes_eq type (text "find_successor")
    then some (
        find_successor
          (record { task = new_task p MessageType.find_successor r; id = []; target = none }))
    else if bytes_eq type (text "get_successor_list")
    then some (get_successor_list (list_request p MessageType.get_successor_list r))
    else if bytes_eq type (text "get_predecessor_and_succ_list")
    then some (get_pred_and_succ_list (list_request p MessageType.get_pred_and_succ_list r))
    else if bytes_eq type (text "get_self_and_successor_list")
    then some (get_self_and_succ_list (list_request p MessageType.get_self_and_succ_list r))
    else if bytes_eq type (text "broadcast_filelist")
    then some (
        broadcast_filelist
          (Broadcast.new (new_task p MessageType.broadcast_filelist r) (suc p.object)))
    else if bytes_eq type (text "get_file")
    then some (get_file (GetFile.from_request (new_task p MessageType.get_file r)))
    else none

unfoldable pub create_from_request : Place → RequestObject → Option MessageObject
create_from_request p r =
    if is_request r then create_by_type r.message.header.request_type p r else none

-- What of an object's task does not depend on the type of its promise.
pub record Report : Type 0 where
  pub is_request_handler : Bool
  pub is_done : Bool
  pub events : List Event
  pub source : Source
  pub table : RoutingTable

abbrev report_of : {A : Type 0} → Task A → Report
report_of t = record {
  is_request_handler = t.is_request_handler;
  is_done = t.is_done;
  events = t.events;
  source = t.source;
  table = t.table;
}

unfoldable pub report : MessageObject → Report
report (notification o) = report_of o
report (check_predecessor o) = report_of o.task
report (query o) = report_of o.task
report (find_successor o) = report_of o.task
report (get_successor_list o) = report_of o.task
report (get_pred_and_succ_list o) = report_of o.task
report (get_self_and_succ_list o) = report_of o.task
report (broadcast_filelist o) = report_of o.task
report (get_file o) = report_of o.task

module _ {p : Platform} where
  -- With a storage that the class does not use.
  abbrev pub beside :
      {A : Type 0} → (A → MessageObject) → Storage p → Option A → Option (MessageObject × Storage p)
  beside f s o = Option.map (λ a. (f a, s)) o

  unfoldable pub handle_request : MessageObject → Storage p → Option (MessageObject × Storage p)
  handle_request (notification o) s = some (notification (Notification.handle_request o), s)
  handle_request (check_predecessor o) s =
      some (check_predecessor (CheckPredecessor.handle_request o), s)
  handle_request (query o) s = beside query s (Query.handle_request o)
  handle_request (find_successor o) s = beside find_successor s (FindSuccessor.handle_request o)
  handle_request (get_successor_list o) s =
      beside get_successor_list s (SuccessorList.handle_request o)
  handle_request (get_pred_and_succ_list o) s =
      beside get_pred_and_succ_list s (PredAndSuccList.handle_request o)
  handle_request (get_self_and_succ_list o) s =
      beside get_self_and_succ_list s (SelfAndSuccList.handle_request o)
  handle_request (broadcast_filelist o) s =
      let (b, s1) = Broadcast.handle_request o s in some (broadcast_filelist b, s1)
  handle_request (get_file o) s = beside get_file s (GetFile.handle_request o s)

  unfoldable pub create_request : MessageObject → Storage p → Option (MessageObject × Storage p)
  create_request (notification o) s = some (notification (Notification.create_request o), s)
  create_request (check_predecessor o) s =
      beside check_predecessor s (CheckPredecessor.create_request o)
  create_request (query o) s = some (query (Query.create_request o), s)
  create_request (find_successor o) s = beside find_successor s (FindSuccessor.create_request o)
  create_request (get_successor_list o) s =
      beside get_successor_list s (SuccessorList.create_request o)
  create_request (get_pred_and_succ_list o) s =
      beside get_pred_and_succ_list s (PredAndSuccList.create_request o)
  create_request (get_self_and_succ_list o) s =
      beside get_self_and_succ_list s (SelfAndSuccList.create_request o)
  create_request (broadcast_filelist o) s =
      some (broadcast_filelist (Broadcast.create_request o s), s)
  create_request (get_file o) s = let (g, s1) = GetFile.create_request o s in some (get_file g, s1)

  -- `operator()`.
  unfoldable pub call : MessageObject → Storage p → Option (MessageObject × Storage p)
  unfolding report handle_request create_request
  call o s = if (report o).is_request_handler then handle_request o s else create_request o s
