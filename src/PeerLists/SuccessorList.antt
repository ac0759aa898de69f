-- ===== src/PeerLists/SuccessorList.antt =====
-- src/get_successor_list.cpp: the successor list of another node.
use peerpaste.Base.{if◌then◌else◌, text, Option, none, some, []}
use peerpaste.Message
use peerpaste.Message.{Message, generate_response}
use peerpaste.Request.{RequestObject, MessageType}
use peerpaste.Table.{get_peers}
use peerpaste.Task.{set_state, end_with, set_promise, count_up, ask, reply, failed, done}
use peerpaste.PeerLists.Common.{PeerListRequest, set_task, settle}

unfoldable pub create_request : PeerListRequest → Option PeerListRequest
create_request c = elim (c.target) [
  | none ↦ settle failed none c
  | some target ↦ some (
      set_task c (
        ask MessageType.get_successor_list
          (Message.create_request c.task.source (text "get_successor_list") []) target
          (count_up c.task)))
]

-- The answer, if the routing table is there: the optional request is read without a test.
unfoldable pub handle_request : PeerListRequest → Option PeerListRequest
handle_request c =
    if c.has_table
    then elim (c.task.request) [
      | none ↦ none
      | some r ↦ some (
          set_task c (
            end_with done (
              reply r (record (generate_response r.message) { peers = get_peers c.task.table })
                c.task)))
    ]
    else settle failed none c

-- Whatever comes is taken for the answer.
unfoldable pub handle_response : PeerListRequest → RequestObject → Option PeerListRequest
handle_response c r = settle done (some r.message.peers) c

unfoldable pub handle_failed : PeerListRequest → Option PeerListRequest
handle_failed c = elim (set_promise none c.task) [
  | none ↦ none
  | some t ↦ some (set_task c (set_state failed t))
]
