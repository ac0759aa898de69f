-- ===== src/GetFile.antt =====
-- src/get_file.cpp: a file is asked for by name and sent chunk by chunk. The methods of one object run
-- under its mutex, and the storage, which is shared, is passed along by state.
pub mod Sending
pub mod Receiving
pub mod Transfer
pub mod Fetch
pub mod Opening
pub mod Bounds
use peerpaste.Base.{
  ltb, if◌then◌else◌, length, Bytes, text, ℕ, ◌+◌, Bool, true, false, not, ◌&&◌, Option, none, some,
  List, [], ◌∷◌, ◌++◌,
}
use peerpaste.Peer.{Peer}
use peerpaste.Header.{request_header}
use peerpaste.Message.{
  Message, FileInfo, FileChunk, default_message, default_buf_size, file_chunk, generate_response,
  generate_transaction_id,
}
use peerpaste.Request.{
  RequestObject, Session, Connection, MessageType, Entry, to_peer, to_session, is_request, send,
  finished, set_message,
}
use peerpaste.Task.{
  MessageState, Task, duration, set_state, notify, end_with, await, count_up, failed, done,
}
use peerpaste.Storage.Stream.{InFile, OutFile, is_good, seekg, read}
use peerpaste.Storage.{
  Platform, Storage, create_file, exists_internal, read_file, write, finalize_file,
}

-- `reads` are the sessions that were told to read on, oldest first.
pub record GetFile : Type 0 where
  pub task : Task MessageState
  pub target : Option Peer
  pub file_info : Option FileInfo
  pub source_file : InFile
  pub output_file : Option OutFile
  pub file_size : ℕ
  pub reads : List Session

-- `GetFile(storage, target, file_info)`, on the new task. The input stream has no file, so that it
-- cannot be read.
unfoldable pub new : Task MessageState → Peer → FileInfo → GetFile
new t target info = record {
  task = t;
  target = some target;
  file_info = some info;
  source_file = record { contents = []; position = 0; eof = false; fail = false; sound = false };
  output_file = none;
  file_size = 0;
  reads = [];
}

-- `GetFile(storage, request)`, on the new task, which holds the request.
unfoldable pub from_request : Task MessageState → GetFile
from_request t = record {
  task = t;
  target = none;
  file_info = none;
  source_file = record { contents = []; position = 0; eof = false; fail = false; sound = false };
  output_file = none;
  file_size = 0;
  reads = [];
}

abbrev pub set_task : GetFile → Task MessageState → GetFile
set_task g t = record g { task = t }

abbrev pub stop : GetFile → MessageState → GetFile
stop g s = set_task g (end_with s g.task)

-- `time_point_ = now() + DURATION`.
abbrev pub extend : GetFile → GetFile
extend g = set_task g (record (g.task) { time_point = g.task.source.clock + duration })

-- The message gets its identifier before it gets the file.
abbrev pub named : GetFile → Message
named g =
    generate_transaction_id g.task.source
      (record default_message { header = request_header (text "get_file") })

-- Asks `target` for the file, with a handler that stays.
unfoldable pub ask_for : Peer → FileInfo → GetFile → GetFile
ask_for target info g = set_task g (
    await (named g).header.transaction_id Entry.handle_response true
      (record {
        type = MessageType.unknown;
        message = record (named g) { files = info ∷ [] };
        connection = to_peer (some target);
        on_write_handler = false;
      })
      (count_up g.task))

-- The chunk in the buffer, sent with a handler that is called once it is out.
unfoldable pub write_buffer : GetFile → RequestObject → Bytes → ℕ → GetFile
write_buffer g r buffer offset =
    let response : Message = record (generate_response r.message) {
      chunk = some (file_chunk buffer (length buffer) offset);
    } in
    set_task g (
      count_up (
        notify
          (send (record (set_message r (generate_transaction_id g.task.source response)) {
            on_write_handler = true;
          }))
          (extend g).task))

-- Behind the read at `offset`. An empty request throws.
unfoldable pub after_read : GetFile → ℕ → Bytes × InFile → Option GetFile
unfolding write_buffer
after_read g offset (buffer, source) =
    let g1 : GetFile = record g { source_file = source } in
    if source.fail && not source.eof
    then some (stop g1 failed)
    else elim (g.task.request) [ none ↦ none | some r ↦ some (write_buffer g1 r buffer offset) ]

-- Behind the first test: the next chunk, if the stream is good.
unfoldable pub write_next : GetFile → Option GetFile
write_next g =
    if is_good g.source_file
    then after_read g g.source_file.position (read default_buf_size g.source_file)
    else some g

-- After a failure it goes on all the same.
unfoldable pub write_file : GetFile → Bool → Option GetFile
write_file g fails = write_next (if fails then stop g failed else g)

-- The stream opened at its end, and moved to the offset that is asked for.
abbrev pub serving : GetFile → InFile → ℕ → GetFile
serving g f offset = record g { source_file = seekg offset f }

module _ {p : Platform} where
  unfoldable pub create_request_for :
      GetFile → Peer → Option OutFile × FileInfo × Storage p → GetFile × Storage p
  create_request_for g target (none, info, s) = (
    stop
        (set_task (record g { file_info = some info; file_size = info.file_size })
          (count_up g.task))
        failed,
    s,
  )
  create_request_for g target (some out, info, s) = (
    ask_for target info
        (record g { file_info = some info; file_size = info.file_size; output_file = some out }),
    s,
  )

  unfoldable pub create_request : GetFile → Storage p → GetFile × Storage p
  unfolding create_request_for
  create_request g s = elim (g.target) [
    | none ↦ (stop g failed, s)
    | some target ↦ elim (g.file_info) [
      | none ↦ (stop g failed, s)
      | some info ↦ create_request_for g target (create_file s info)
    ]
  ]

  -- Behind the read of the request; `front()` of an empty vector is undefined.
  serve : GetFile → Storage p → List FileInfo → Option GetFile
  serve g s [] = none
  serve g s (info ∷ infos) =
      if exists_internal s info.file_name
      then elim (read_file s info) [
        | none ↦ some (stop g failed)
        | some f ↦ write_file (serving g f info.offset) false
      ]
      else some (stop g failed)

  unfoldable pub handle_request : GetFile → Storage p → Option GetFile
  unfolding serve
  handle_request g s = elim (g.task.request) [
    | none ↦ some (stop g failed)
    | some r ↦ serve g s r.message.files
  ]

  -- After the last chunk: the file is finished, and the object ends.
  conclude : GetFile → FileInfo → Storage p → Option (GetFile × Storage p)
  conclude g info s = elim (finalize_file s info) [
    | none ↦ none
    | some (ok, s1) ↦ some (stop g (if ok then done else failed), s1)
  ]

  -- A peer in place of the session throws.
  read_on : GetFile → Connection → Storage p → Option (GetFile × Storage p)
  read_on g (to_peer peer) s = none
  read_on g (to_session session) s =
      some (
        record (set_task g (notify finished (extend g).task)) { reads = g.reads ++ session ∷ [] },
        s,
      )

  -- Behind the write: more is to come, or the file is complete. An empty file info throws.
  unfoldable pub after_write :
      GetFile → RequestObject → OutFile × Storage p → Option (GetFile × Storage p)
  unfolding conclude read_on
  after_write g response (out, s) =
      let g1 : GetFile = record g { output_file = some out } in
      if ltb out.position g.file_size
      then read_on g1 response.connection s
      else elim (g.file_info) [ none ↦ none | some info ↦ conclude g1 info s ]

  -- By the output file and the chunk; a message without a chunk throws.
  receive :
      GetFile
      → RequestObject
      → OutFile
      → Option FileChunk
      → Storage p
      → Option (GetFile × Storage p)
  receive g response out chunk s =
      if out.good
      then elim chunk [
        | none ↦ none
        | some c ↦ elim (write s out c) [
          | none ↦ none
          | some written ↦ after_write g response written
        ]
      ]
      else some (stop g failed, s)

  unfoldable pub handle_response :
      GetFile → RequestObject → Storage p → Option (GetFile × Storage p)
  unfolding receive
  handle_response g response s =
      if is_request response then some (stop g failed, s) else elim (g.output_file) [
        | none ↦ some (stop g failed, s)
        | some out ↦ receive g response out response.message.chunk s
      ]

unfoldable pub handle_failed : GetFile → GetFile
handle_failed g = set_task g (set_state failed g.task)
