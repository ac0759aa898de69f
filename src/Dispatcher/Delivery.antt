-- ===== src/Dispatcher/Delivery.antt =====
-- A message goes from the send queue of one node to the message handler of another.
use peerpaste.Base.{
  if◌then◌else◌, length, Bytes, ◌+◌, ◌<◌, ◌≡◌, refl, ap, ◌∙◌, ◌≢◌, Bool, true, false, none, some,
  List, [], ◌∷◌, ◌++◌, arith,
}
use peerpaste.Peer.{Peer}
use peerpaste.Request.{RequestObject, Session, Connection, to_peer, to_session, is_request}
use peerpaste.Wire.{Request, request_of, message_of}
use peerpaste.Wire.Roundtrip.{IsSendable, message_of-request_of}
use peerpaste.Session.{Reader, reading_header, poll, encode_frame, u32_mod}
use peerpaste.Session.Reading.{poll-encode_frame}
use peerpaste.GetFile.Transfer.{arrived}
use peerpaste.Dispatcher.{
  Action, write, write_direct, write_to, read, MessageDispatcher, dispatch, session_actions,
  peer_actions, session_to, send_frame, frame_of, run_send_internal, run_internal,
}

-- The frames that are written, oldest first.
abbrev pub frames_of : List Action → List Bytes
frames_of [] = []
frames_of (write s frame ∷ actions) = frame ∷ frames_of actions
frames_of (write_direct s frame ∷ actions) = frame ∷ frames_of actions
frames_of (write_to s frame ip port ∷ actions) = frame ∷ frames_of actions
frames_of (read s ∷ actions) = frames_of actions

frames_of-append :
    (actions bs : List Action) → frames_of (actions ++ bs) ≡ frames_of actions ++ frames_of bs
frames_of-append [] bs = refl
frames_of-append (write s frame ∷ actions) bs = ap (◌∷◌ frame) (frames_of-append actions bs)
frames_of-append (write_direct s frame ∷ actions) bs = ap (◌∷◌ frame) (frames_of-append actions bs)
frames_of-append (write_to s frame ip port ∷ actions) bs =
    ap (◌∷◌ frame) (frames_of-append actions bs)
frames_of-append (read s ∷ actions) bs = frames_of-append actions bs

frames_of-session_actions :
    (s : Session) (r : RequestObject) (frame : Bytes)
    → frames_of (session_actions s r frame) ≡ frame ∷ []
unfolding session_actions
frames_of-session_actions s r frame = by_tests r.on_write_handler (is_request r)
  where
    by_tests :
        (direct asks : Bool)
        → frames_of (
            if direct
            then write_direct s frame ∷ []
            else write s frame ∷ (if asks then read s ∷ [] else []))
          ≡ frame ∷ []
    by_tests true asks = refl
    by_tests false true = refl
    by_tests false false = refl

frames_of-peer_actions :
    (s : Session) (peer : Peer) (r : RequestObject) (frame : Bytes)
    → frames_of (peer_actions s peer r frame) ≡ frame ∷ []
unfolding peer_actions
frames_of-peer_actions s peer r frame = by_test (is_request r)
  where
    by_test :
        (asks : Bool)
        → frames_of (write_to s frame peer.ip peer.port ∷ (if asks then read s ∷ [] else []))
          ≡ frame ∷ []
    by_test true = refl
    by_test false = refl

abbrev Sends : MessageDispatcher → RequestObject → Bytes → Type 0
Sends d r frame =
    (u : MessageDispatcher) × (send_frame d r frame ≡ some u)
    × (u.input_queue ≡ d.input_queue)
    × (u.output_queue ≡ d.output_queue)
    × (frames_of u.actions ≡ frames_of d.actions ++ frame ∷ [])

send_frame-Sends :
    (d : MessageDispatcher) (r : RequestObject) (frame : Bytes)
    → r.connection ≢ to_peer none
    → Sends d r frame
unfolding send_frame
send_frame-Sends d r frame h = by_connection r.connection refl
  where
    by_connection : (c : Connection) → r.connection ≡ c → Sends d r frame
    by_connection (to_peer none) e = absurd (h e)
    by_connection (to_peer (some peer)) e = (
      record d {
        actions = d.actions ++ peer_actions (session_to d.next_session peer) peer r frame;
        next_session = d.next_session + 1;
      },
      simp (send_frame, e),
      refl,
      refl,
      frames_of-append d.actions _
          ∙ ap (◌++◌ (frames_of d.actions)) (frames_of-peer_actions _ peer r frame),
    )
    by_connection (to_session s) e = (
      record d { actions = d.actions ++ session_actions s r frame },
      simp (send_frame, e),
      refl,
      refl,
      frames_of-append d.actions _
          ∙ ap (◌++◌ (frames_of d.actions)) (frames_of-session_actions s r frame),
    )

-- What a session puts into the queue of its dispatcher.
abbrev pub inbox : Session → List Bytes → List (Bytes × Session)
inbox s [] = []
inbox s (b ∷ bs) = (b, s) ∷ inbox s bs

module _ (parse_from_array : Bytes → Request) (serialize_to_array : Request → Bytes) where
  run_send_internal-frame :
      (d u : MessageDispatcher) (r : RequestObject) (rest : List RequestObject) (q : Request)
      → d.output_queue ≡ r ∷ rest
      → request_of r.message ≡ some q
      → send_frame (record d { output_queue = rest }) r (encode_frame (serialize_to_array q))
        ≡ some u
      → run_send_internal parse_from_array serialize_to_array d ≡ some u
  unfolding run_send_internal frame_of
  run_send_internal-frame d u r rest q o e f = ground arith

  run_internal-one :
      (e : MessageDispatcher) (s : Session) (buffer : Bytes) (r : RequestObject)
      → message_of (parse_from_array buffer) ≡ some r.message
      → run_internal parse_from_array serialize_to_array
          (record e { input_queue = (buffer, s) ∷ [] })
        ≡ some (some (dispatch (arrived s r)), record e { input_queue = [] })
  unfolding run_internal
  run_internal-one e s buffer r h = ground arith

  -- The request object at the front of the send queue has a message whose numbers fit, and a
  -- connection that is not a null pointer; protobuf reads what it writes of the message, in less than
  -- 2^32 bytes. Then one turn of the sending loop takes it off the queue and writes one frame. Another
  -- node's session that reads this frame, with anything behind it on its stream, hands it over in two
  -- steps, and one turn of the receiving loop there dispatches the same message, as a request or
  -- response like the one that was sent, with the session that it came over.
  pub run_internal-run_send_internal :
      (d e : MessageDispatcher) (r : RequestObject) (rest : List RequestObject) (s : Session)
      (reader : Reader) (behind : Bytes)
      → d.output_queue ≡ r ∷ rest
      → r.connection ≢ to_peer none
      → IsSendable r.message
      → ((q : Request)
          → request_of r.message ≡ some q
          → (parse_from_array (serialize_to_array q) ≡ q)
            × (length (serialize_to_array q) < u32_mod))
      → reader.phase ≡ reading_header
      → reader.msg_queue ≡ []
      → (frame : Bytes) × (u : MessageDispatcher) × (run_send_internal parse_from_array
            serialize_to_array d
          ≡ some u)
        × (u.output_queue ≡ rest)
        × (frames_of u.actions ≡ frames_of d.actions ++ frame ∷ [])
        × (run_internal parse_from_array serialize_to_array (record e {
          input_queue =
              inbox s (poll (poll (record reader { incoming = frame ++ behind }))).msg_queue;
        })
            ≡ some (some (dispatch (arrived s r)), record e { input_queue = [] }))
  run_internal-run_send_internal d e r rest s reader behind o c m k p n =
      let (q, serialized, back) = message_of-request_of r.message m in
      let (parsed, short) = k q serialized in
      let buffer : Bytes = serialize_to_array q in
      let frame : Bytes = encode_frame buffer in
      let (u, sent, input, output, frames) =
        send_frame-Sends (record d { output_queue = rest }) r frame c in
      let handed : (poll (poll (record reader { incoming = frame ++ behind }))).msg_queue
          ≡ buffer ∷ [] =
        ap (λ x. x.msg_queue)
          (poll-encode_frame (record reader { incoming = frame ++ behind }) buffer behind p refl
            short)
        ∙ ap (λ bs. bs ++ buffer ∷ []) n in
      (
        frame,
        u,
        run_send_internal-frame d u r rest q o serialized sent,
        output,
        frames,
        ap
              (λ bs.
                run_internal parse_from_array serialize_to_array
                  (record e { input_queue = inbox s bs }))
              handed
            ∙ run_internal-one e s buffer r (ap message_of parsed ∙ back),
      )
