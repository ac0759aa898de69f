-- ===== src/Session.antt =====
-- src/boost_session.cpp, and `encode_header` of include/peerpaste/consumer.hpp: frames on a stream.
-- A frame is four bytes of length, the highest first, and the message.
pub mod Framing
pub mod Connection
pub mod Posting
pub mod Sending
pub mod Reading
pub mod Writing
use peerpaste.Base.{
  ltb, if◌then◌else◌, length, take, drop, Bytes, ℕ, zero, suc, ◌+◌, ◌*◌, ◌/◌, ◌%◌, Bool, true,
  false, not, Option, none, some, List, [], ◌∷◌, ◌++◌,
}

abbrev pub header_size : ℕ
header_size = 4

abbrev pub u32_mod : ℕ
u32_mod = 4294967296

-- The four bytes that `encode_header` writes; `unsigned size` has 32 bits.
unfoldable pub encode_header : ℕ → Bytes
encode_header size =
    (size / 16777216 % 256) ∷ (size / 65536 % 256) ∷ (size / 256 % 256) ∷ (size % 256) ∷ []

-- The loop over the first `n` bytes.
unfoldable pub decode_loop : ℕ → ℕ → Bytes → ℕ
decode_loop zero msg_size buf = msg_size
decode_loop (suc n) msg_size [] = msg_size
decode_loop (suc n) msg_size (b ∷ buf) = decode_loop n ((msg_size * 256 + b % 256) % u32_mod) buf

unfoldable pub decode_header : Bytes → ℕ
decode_header buf = if ltb (length buf) header_size then 0 else decode_loop header_size 0 buf

-- What `run_send_internal` hands to a session for the serialised message `buf`. The length is
-- cut to an `unsigned`.
unfoldable pub encode_frame : Bytes → Bytes
encode_frame buf = encode_header (length buf % u32_mod) ++ buf

pub data ErrorCode : Type 0 where
  success operation_aborted other_error : ErrorCode

-- Which completion handler a pending `async_read` calls.
pub data Phase : Type 0 where
  idle : Phase
  reading_header : Phase
  reading_message : ℕ → Phase

-- The reading half of a session; `incoming` is what the socket still holds, `msg_queue` what the
-- consumer has not popped.
pub record Reader : Type 0 where
  pub readbuf : Bytes
  pub phase : Phase
  pub incoming : Bytes
  pub msg_queue : List Bytes
  pub closed : Bool

-- `read` and `do_read_header`.
unfoldable pub do_read_header : Reader → Reader
do_read_header r = record r { phase = reading_header }

-- `do_read_message`: the buffer keeps its first four bytes.
unfoldable pub do_read_message : Reader → ℕ → Reader
do_read_message r msg_len = record r { phase = reading_message msg_len }

-- The buffer holds the header by now.
unfoldable pub handle_read_header : Reader → ErrorCode → Reader
handle_read_header r success = do_read_message r (decode_header r.readbuf)
handle_read_header r operation_aborted = record r { phase = idle }
handle_read_header r other_error = record r { phase = idle; closed = true }

-- The buffer holds the header and the message by now.
unfoldable pub handle_read_message : Reader → ErrorCode → Reader
handle_read_message r success = record r {
  phase = idle;
  msg_queue = r.msg_queue ++ drop header_size r.readbuf ∷ [];
}
handle_read_message r operation_aborted = do_read_header r
handle_read_message r other_error = do_read_header r

-- `async_read` of `n` bytes into the buffer behind its first `keep`: it completes once the socket
-- holds them.
abbrev fill : ℕ → ℕ → Reader → Reader
fill keep n r = record r {
  readbuf = take keep r.readbuf ++ take n r.incoming;
  incoming = drop n r.incoming;
}

-- One turn of the event loop: a pending read completes if its bytes are there.
unfoldable pub poll : Reader → Reader
poll r = elim (r.phase) [
  | idle ↦ r
  | reading_header ↦
      if ltb (length r.incoming) header_size
      then r
      else handle_read_header (fill 0 header_size r) success
  | reading_message n ↦
      if ltb (length r.incoming) n then r else handle_read_message (fill header_size n r) success
]

-- The writing half. `written` is what went out whole, `in_flight` whether an `async_write` of the
-- front packet is pending.
pub record Writer : Type 0 where
  pub send_packet_queue : List Bytes
  pub in_flight : Bool
  pub written : List Bytes
  pub closed : Bool

abbrev pub start_packet_send : Writer → Writer
start_packet_send w = record w { in_flight = true }

abbrev pub is_empty : List Bytes → Bool
is_empty [] = true
is_empty (p ∷ ps) = false

unfoldable pub queue_message : Writer → Bytes → Writer
queue_message w message =
    let queued : Writer = record w { send_packet_queue = w.send_packet_queue ++ message ∷ [] } in
    if is_empty w.send_packet_queue then start_packet_send queued else queued

-- `pop_front` of an empty deque is undefined.
unfoldable pub packet_send_done : Writer → ErrorCode → Option Writer
packet_send_done w success = elim (w.send_packet_queue) [
  | [] ↦ none
  | p ∷ ps ↦ some (record w {
    send_packet_queue = ps;
    in_flight = not (is_empty ps);
    written = w.written ++ p ∷ [];
  })
]
packet_send_done w operation_aborted = some (record w { in_flight = false })
packet_send_done w other_error = some (record w { in_flight = false; closed = true })
