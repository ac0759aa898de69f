-- ===== src/Dispatcher.antt =====
-- include/peerpaste/consumer.hpp: what goes between the sessions and the message handler. One turn of
-- each of its two loops is a step; the queues are their own objects, which the loops share with the
-- sessions and the message handler.
pub mod Delivery
use mathlib.Core.Option
use peerpaste.Base.{
  if◌then◌else◌, Bytes, ℕ, ◌+◌, false, Option, none, some, List, [], ◌∷◌, ◌++◌, map,
}
use peerpaste.Peer.{Peer}
use peerpaste.Message.{Message}
use peerpaste.Request.{RequestObject, Session, Connection, to_peer, to_session, unknown, is_request}
use peerpaste.Wire.{Request, request_of, message_of}
use peerpaste.Session.{encode_frame}
use peerpaste.Queue.{try_pop}

-- What a session is told: to write a frame, to connect to an address first, or to read.
pub data Action : Type 0 where
  write : Session → Bytes → Action
  write_direct : Session → Bytes → Action
  write_to : Session → Bytes → Bytes → Bytes → Action
  read : Session → Action

-- `actions`, oldest first; `next_session` is the address of the session that is made next.
pub record MessageDispatcher : Type 0 where
  pub input_queue : List (Bytes × Session)
  pub output_queue : List RequestObject
  pub actions : List Action
  pub next_session : ℕ

-- The function of the message handler that is called.
pub data Dispatch : Type 0 where
  handle_request : RequestObject → Dispatch
  handle_response : RequestObject → Dispatch

unfoldable pub dispatch : RequestObject → Dispatch
dispatch r = if is_request r then handle_request r else handle_response r

-- A session that is there: a handler is called by a direct write, and a plain write of a request is
-- followed by a read.
unfoldable pub session_actions : Session → RequestObject → Bytes → List Action
session_actions s r frame =
    if r.on_write_handler
    then write_direct s frame ∷ []
    else write s frame ∷ (if is_request r then read s ∷ [] else [])

unfoldable pub peer_actions : Session → Peer → RequestObject → Bytes → List Action
peer_actions s peer r frame =
    write_to s frame peer.ip peer.port ∷ (if is_request r then read s ∷ [] else [])

-- The session that is made for a peer.
abbrev pub session_to : ℕ → Peer → Session
session_to n peer = record { number = n; client_ip = peer.ip }

-- With the frame that is ready. A null peer is undefined.
unfoldable pub send_frame : MessageDispatcher → RequestObject → Bytes → Option MessageDispatcher
unfolding session_actions peer_actions
send_frame d r frame = elim (r.connection) [
  | to_session s ↦ some (record d { actions = d.actions ++ session_actions s r frame })
  | to_peer none ↦ none
  | to_peer (some peer) ↦ some (record d {
    actions = d.actions ++ peer_actions (session_to d.next_session peer) peer r frame;
    next_session = d.next_session + 1;
  })
]

-- What protobuf does is a parameter.
module _ (parse_from_array : Bytes → Request) (serialize_to_array : Request → Bytes) where
  -- The message, serialised, behind its length.
  unfoldable pub frame_of : Message → Option Bytes
  frame_of m = Option.map (λ q. encode_frame (serialize_to_array q)) (request_of m)

  -- One turn of `run_send_internal`.
  unfoldable pub run_send_internal : MessageDispatcher → Option MessageDispatcher
  unfolding send_frame frame_of
  run_send_internal d = elim (d.output_queue) [
    | [] ↦ some d
    | r ∷ rest ↦ elim (frame_of r.message) [
      | none ↦ none
      | some frame ↦ send_frame (record d { output_queue = rest }) r frame
    ]
  ]

  -- One turn of `run_internal`, with what it dispatches, if anything.
  unfoldable pub run_internal : MessageDispatcher → Option (Option Dispatch × MessageDispatcher)
  unfolding dispatch
  run_internal d = elim (d.input_queue) [
    | [] ↦ some (none, d)
    | (buffer, session) ∷ rest ↦ elim (message_of (parse_from_array buffer)) [
      | none ↦ none
      | some m ↦ some (
        some (
            dispatch (record {
              type = unknown;
              message = m;
              connection = to_session session;
              on_write_handler = false;
            })),
        record d { input_queue = rest },
      )
    ]
  ]
