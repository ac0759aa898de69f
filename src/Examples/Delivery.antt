-- ===== src/Examples/Delivery.antt =====
-- Messages on the wire, frames on the stream, and responses at their handlers.
use peerpaste.Base.{
  length, Bytes, text, ℕ, ◌<◌, ◌≡◌, refl, ap, ◌≢◌, Bool, true, false, Option, none, some, List, [],
  ◌∷◌, ◌++◌, arith,
}
use peerpaste.Header.{generate_response_header}
use peerpaste.Message
use peerpaste.Message.{Message, FileInfo, FileChunk, Source, salted}
use peerpaste.Request.{RequestObject, HandlerObject, Entry, Event, send_with, finished}
use peerpaste.Handlers.{find, MessageHandler, handle_notification, handle_response}
use peerpaste.Handlers.Dispatch.{handle_response-send_with}
use peerpaste.Wire.{
  ProtoChunk, Request, message_of, chunk_of, common_header, Codec, serialized_from_message,
  message_from_serialized,
}
use peerpaste.Wire.Cast.{nonnegative, to_size}
use peerpaste.Wire.Roundtrip.{IsSendable, message_from_serialized-serialized}
use peerpaste.Session.{
  encode_frame, Reader, poll, Writer, queue_message, packet_send_done, reading_header, other_error,
}
use peerpaste.Session.Writing.{Reach, queue_all, queue_all_stuck, start, queued}
use peerpaste.Wire.{request_of}
use peerpaste.Session.{u32_mod}
use peerpaste.Request.{Session, to_peer}
use peerpaste.GetFile.Transfer.{arrived}
use peerpaste.Dispatcher.{MessageDispatcher, dispatch, run_send_internal, run_internal}
use peerpaste.Dispatcher.Delivery.{frames_of, inbox, run_internal-run_send_internal}
use peerpaste.Examples.Data.{peer_a, peer_c, message_with, request_with, answer_with}

abbrev file_info : FileInfo
file_info = record { file_name = text "notes"; sha256sum = text "ab"; file_size = 3; offset = 0 }

abbrev chunk : FileChunk
chunk = record { size = 3; offset = 0; data_ = text "xyz" }

abbrev full_message : Message
full_message = record (message_with (peer_a ∷ peer_c ∷ [])) {
  files = file_info ∷ [];
  chunk = some chunk;
}

full_message-IsSendable : IsSendable full_message
full_message-IsSendable = record { files = (omega arith, tt); chunk = omega arith }

-- A codec that leaves a request as it is.
abbrev transparent : Codec
transparent = record {
  Buffer = Request;
  parse_from_array = λ r. r;
  serialize_to_array = λ r. r;
  parse-serialize = λ r. refl;
}

message_from_serialized-serialized_example :
    (b : Request) × (serialized_from_message transparent full_message ≡ some b)
    × (message_from_serialized transparent b ≡ some full_message)
message_from_serialized-serialized_example =
    message_from_serialized-serialized transparent full_message full_message-IsSendable

abbrev claimed : ProtoChunk
claimed = record { offset = nonnegative 0; chunk_size = nonnegative 4; data_ = text "xyz" }

abbrev overclaiming : Request
overclaiming = record {
  commonheader = common_header (full_message.header);
  peerinfo = [];
  files = [];
  file_chunk = some claimed;
  data_ = none;
}

overclaiming_faults : message_of overclaiming ≡ none
unfolding to_size common_header message_of chunk_of
overclaiming_faults = refl

abbrev reader : Reader
reader = record {
  readbuf = [];
  phase = reading_header;
  incoming = encode_frame (text "hello") ++ text "next";
  msg_queue = [];
  closed = false;
}

abbrev writer : Writer
writer = record { send_packet_queue = []; in_flight = false; written = []; closed = false }

abbrev one_message : Writer
unfolding queue_message
one_message = queue_message writer (text "one")

one_message-Reach : Reach (text "one" ∷ []) true one_message
unfolding queue_message one_message
one_message-Reach = queued (text "one") (start refl refl refl)

abbrev broken : Writer
broken = record {
  send_packet_queue = text "one" ∷ [];
  in_flight = false;
  written = [];
  closed = true;
}

queue_all_stuck_example :
    ((queue_all broken (text "two" ∷ [])).send_packet_queue ≡ text "one" ∷ text "two" ∷ [])
    × ((queue_all broken (text "two" ∷ [])).in_flight ≡ false)
    × ((queue_all broken (text "two" ∷ [])).written ≡ [])
unfolding queue_message packet_send_done
queue_all_stuck_example =
    queue_all_stuck one_message broken other_error (text "two" ∷ []) refl refl refl

abbrev request : RequestObject
request = request_with (peer_a ∷ [])

abbrev handler_of : RequestObject → Bool → HandlerObject
handler_of r persistent = record {
  correlation_id = r.message.header.transaction_id;
  handler = Entry.handle_response;
  parent = 40;
  is_persistent = persistent;
}

abbrev handler : HandlerObject
handler = handler_of request false

abbrev no_handlers : MessageHandler
no_handlers = record { active_handlers = []; send_queue = [] }

abbrev lives : ℕ → Bool
lives n = true

handle_response-send_with_example :
    let first =
      handle_response lives
        (handle_notification lives no_handlers (send_with request handler))
        (answer_with request (peer_c ∷ [])) in
    (first.0 ≡ some handler)
    × ((handle_response lives first.1 (answer_with request (peer_c ∷ []))).0 ≡ none)
unfolding find Message.generate_response Message.create_request generate_response_header
handle_response-send_with_example =
    handle_response-send_with lives no_handlers request (answer_with request (peer_c ∷ [])) handler
      tt refl refl refl refl

abbrev events : List Event
events = send_with request handler ∷ finished ∷ send_with request handler ∷ []

abbrev session : Session
session = record { number = 1; client_ip = text "10.0.0.9" }

-- What stands in for protobuf: it knows the request of `full_message` only.
abbrev request_or : Option Request → Request
request_or none = overclaiming
request_or (some q) = q

abbrev parsed : Bytes → Request
parsed b = request_or (request_of full_message)

abbrev dispatcher : MessageDispatcher
dispatcher = record {
  input_queue = [];
  output_queue = record (request_with []) { message = full_message } ∷ [];
  actions = [];
  next_session = 2;
}

run_internal-run_send_internal_example :
    (frame : Bytes) × (u : MessageDispatcher) × (run_send_internal parsed
        (λ q. text "full")
        dispatcher
      ≡ some u)
    × (u.output_queue ≡ [])
    × (frames_of u.actions ≡ [] ++ frame ∷ [])
    × (run_internal parsed
          (λ q. text "full")
          (record dispatcher {
            input_queue =
                inbox session
                  (poll (poll (record reader { incoming = frame ++ text "next" }))).msg_queue;
          })
        ≡ some (
          some (dispatch (arrived session (record (request_with []) { message = full_message }))),
          record dispatcher { input_queue = [] },
        ))
run_internal-run_send_internal_example =
    run_internal-run_send_internal parsed (λ q. text "full") dispatcher dispatcher
      (record (request_with []) { message = full_message }) [] session reader (text "next") refl
      not_null full_message-IsSendable knows refl refl
  where
    not_null : (request_with []).connection ≢ to_peer none
    not_null e = absurd (ground arith)

    knows :
        (q : Request)
        → request_of full_message ≡ some q
        → (parsed (text "full") ≡ q) × (length (text "full") < u32_mod)
    knows q e = (ap request_or e, omega arith)
