-- ===== src/Broadcast.antt =====
-- src/broadcast_file_list.cpp: a node tells the ring which files it shares, and each node that hears
-- of it fetches what it lacks and passes the list on. The storage is shared, and is passed along by
-- state; a file that is fetched is an object of its own, which runs up to its request.
pub mod Quiet
pub mod Spread
use peerpaste.Base.{
  if◌then◌else◌, text, bytes_eq, ℕ, ◌+◌, Bool, true, false, ◌&&◌, ◌||◌, none, some, List, [], ◌∷◌,
  ◌++◌,
}
use peerpaste.Peer.{Peer}
use peerpaste.Message
use peerpaste.Message.{Message, FileInfo}
use peerpaste.Request.{
  RequestObject, HandlerObject, MessageType, Event, send, send_with, finished, to_peer,
}
use peerpaste.Table.{try_get_self, try_get_successor}
use peerpaste.Task
use peerpaste.Task.{
  MessageState, Task, duration, set_state, set_table, notify, request_destruction, end_with,
  count_up, failed, done,
}
use peerpaste.Storage.{Platform, Storage, exists_internal, get_files}
use peerpaste.GetFile
use peerpaste.GetFile.{GetFile}

-- No dependency is essential. `next_object` is the address of the next object that is made.
pub record BroadcastFilelist : Type 0 where
  pub task : Task MessageState
  pub flag : Bool
  pub dependencies : List GetFile
  pub next_object : ℕ

abbrev pub set_task : BroadcastFilelist → Task MessageState → BroadcastFilelist
set_task b t = record b { task = t }

abbrev pub stop : BroadcastFilelist → MessageState → BroadcastFilelist
stop b s = set_task b (end_with s b.task)

-- Both constructors, on the new task.
unfoldable pub new : Task MessageState → ℕ → BroadcastFilelist
new t next_object = record { task = t; flag = true; dependencies = []; next_object = next_object }

abbrev extended : BroadcastFilelist → Task MessageState
extended b = record (b.task) { time_point = b.task.source.clock + duration }

abbrev pub all_done : List GetFile → Bool
all_done [] = true
all_done (g ∷ gs) = g.task.is_done && all_done gs

-- `HandleNotification(request_object, handler)`.
unfoldable pub handle_request_notification :
    BroadcastFilelist → RequestObject → HandlerObject → BroadcastFilelist
handle_request_notification b r h = set_task b (notify (send_with r h) (extended b))

-- `HandleNotification()`: with all children done, unless they are still being made.
unfoldable pub handle_notification : BroadcastFilelist → BroadcastFilelist
handle_notification b =
    let later : BroadcastFilelist = set_task b (extended b) in
    if b.flag && all_done b.dependencies then stop later done else later

-- What a child tells, one after the other. A request without a handler is not passed on.
unfoldable pub relay : List Event → BroadcastFilelist → BroadcastFilelist
relay [] b = b
relay (send r ∷ es) b = relay es b
relay (send_with r h ∷ es) b = relay es (handle_request_notification b r h)
relay (finished ∷ es) b = relay es (handle_notification b)

abbrev pub known : Peer → List Peer → Bool
known self [] = false
known self (p ∷ ps) = bytes_eq p.ip self.ip && bytes_eq p.port self.port || known self ps

-- `front()` of the list with `self` behind it.
abbrev pub origin : List Peer → Peer → Peer
origin [] self = self
origin (p ∷ ps) self = p

-- The list of files, sent to the successor. The message has its identifier before it has the files.
unfoldable pub pass_on : Peer → List Peer → List FileInfo → BroadcastFilelist → BroadcastFilelist
pass_on target peers files b = set_task b (
    notify
      (send (record {
        type = MessageType.broadcast_filelist;
        message = record (Message.create_request b.task.source (text "broadcast_filelist") peers) {
          files = files;
        };
        connection = to_peer (some target);
        on_write_handler = false;
      }))
      (count_up b.task))

abbrev looked_self : BroadcastFilelist → BroadcastFilelist
looked_self b = set_task b (set_table (try_get_self b.task.table).1 b.task)

abbrev looked_successor : BroadcastFilelist → BroadcastFilelist
looked_successor b = set_task b (set_table (try_get_successor b.task.table).1 b.task)

-- It ends here, unless files are being fetched.
abbrev settle : MessageState → BroadcastFilelist → BroadcastFilelist
settle s b = elim (b.dependencies) [
  | [] ↦ set_task b (request_destruction (set_state s b.task))
  | g ∷ gs ↦ set_task b (set_state s b.task)
]

-- Behind the fetching, with the peers that have heard of it.
unfoldable pub forward : List Peer → List FileInfo → BroadcastFilelist → BroadcastFilelist
unfolding pass_on
forward peers files b = elim ((try_get_successor b.task.table).0) [
  | none ↦ settle failed (looked_successor b)
  | some target ↦ settle done (pass_on target peers files (looked_successor b))
]

module _ {p : Platform} where
  unfoldable pub create_request : BroadcastFilelist → Storage p → BroadcastFilelist
  unfolding pass_on
  create_request b s = elim ((try_get_self b.task.table).0) [
    | none ↦ stop (looked_self b) failed
    | some self ↦ elim ((try_get_successor (looked_self b).task.table).0) [
      | none ↦ stop (looked_successor (looked_self b)) failed
      | some target ↦
          stop (pass_on target (self ∷ []) (get_files s) (looked_successor (looked_self b))) done
    ]
  ]

  -- The child draws on the same source of identifiers.
  unfoldable pub fetch_file :
      Peer → FileInfo → BroadcastFilelist → Storage p → BroadcastFilelist × Storage p
  fetch_file target file b s =
      let (child, s1) =
        GetFile.create_request
          (GetFile.new (Task.new b.next_object MessageType.get_file none b.task.source b.task.table)
            target file)
          s in
      (
        relay child.task.events (record b {
          task = record (b.task) { source = child.task.source };
          dependencies = b.dependencies ++ child ∷ [];
          next_object = b.next_object + 1;
        }),
        s1,
      )

  unfoldable pub fetch_missing :
      Peer → List FileInfo → BroadcastFilelist → Storage p → BroadcastFilelist × Storage p
  fetch_missing target [] b s = (b, s)
  fetch_missing target (file ∷ files) b s =
      let (b1, s1) =
        (if exists_internal s file.file_name then (b, s) else fetch_file target file b s) in
      fetch_missing target files b1 s1

  -- Behind the guards: this node has not heard of it yet.
  unfoldable pub take_list :
      Peer
      → List Peer
      → List FileInfo
      → BroadcastFilelist
      → Storage p
      → BroadcastFilelist × Storage p
  take_list self peers files b s =
      let (fetched, s1) = fetch_missing (origin peers self) files (record b { flag = false }) s in
      (forward (peers ++ self ∷ []) files (record fetched { flag = true }), s1)

  unfoldable pub handle_request : BroadcastFilelist → Storage p → BroadcastFilelist × Storage p
  handle_request b s = elim (b.task.request) [
    | none ↦ (set_task b (set_state failed b.task), s)
    | some r ↦ elim ((try_get_self b.task.table).0) [
      | none ↦ (stop (looked_self b) failed, s)
      | some self ↦
          if known self r.message.peers
          then (stop (looked_self b) done, s)
          else take_list self r.message.peers r.message.files (looked_self b) s
    ]
  ]

unfoldable pub handle_failed : BroadcastFilelist → BroadcastFilelist
handle_failed b = set_task b (set_state failed b.task)
