-- ===== src/Request.antt =====
-- include/peerpaste/request_object.hpp: a message on its way, and the handler of its answer.
use peerpaste.Base.{Bytes, ℕ, Bool, Option, none, some}
use peerpaste.Peer.{Peer}
use peerpaste.Message
use peerpaste.Message.{Message}

pub data MessageType : Type 0 where
  unknown notification check_predecessor query find_successor join : MessageType
  get_successor_list get_self_and_succ_list get_pred_and_succ_list : MessageType
  stabilize broadcast_filelist get_file : MessageType

-- A session, by its address in memory, and the address of the client at its other end.
pub record Session : Type 0 where
  pub number : ℕ
  pub client_ip : Bytes

-- `std::variant<PeerPtr, SessionPtr>`; a `PeerPtr` may be null.
pub data Connection : Type 0 where
  to_peer : Option Peer → Connection
  to_session : Session → Connection

pub record RequestObject : Type 0 where
  pub type : MessageType
  pub message : Message
  pub connection : Connection
  pub on_write_handler : Bool  -- whether one is set

abbrev pub is_request : RequestObject → Bool
is_request r = Message.is_request r.message

abbrev pub set_message : RequestObject → Message → RequestObject
set_message r m = record r { message = m }

-- A null peer has no address to ask for.
unfoldable pub get_client_ip : RequestObject → Option Bytes
get_client_ip r = elim (r.connection) [
  | to_session s ↦ some (s.client_ip)
  | to_peer none ↦ none
  | to_peer (some p) ↦ some (p.ip)
]

-- The member function that `std::bind` names.
pub data Entry : Type 0 where
  handle_response handle_forwarded_response : Entry

-- `HandlerObject<HandlerFunction>`; the parent is the address of the message object.
pub record HandlerObject : Type 0 where
  pub correlation_id : Bytes
  pub handler : Entry
  pub parent : ℕ
  pub is_persistent : Bool

-- What a message object tells its observers.
pub data Event : Type 0 where
  send : RequestObject → Event
  send_with : RequestObject → HandlerObject → Event
  finished : Event
