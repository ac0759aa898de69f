-- ===== src/Message.antt =====
-- include/peerpaste/message.hpp: files, chunks and messages.
pub mod Transaction
use peerpaste.Base.{
  ◌==◌, if◌then◌else◌, take, Bytes, to_string, ℕ, ◌+◌, ◌/◌, Bool, Option, none, List, [], ◌∷◌, ◌++◌,
}
use peerpaste.Peer
use peerpaste.Peer.{Peer}
use peerpaste.Header
use peerpaste.Header.{Header, default_header, request_header, generate_response_header}

pub record FileInfo : Type 0 where
  pub file_name : Bytes
  pub sha256sum : Bytes
  pub file_size : ℕ  -- size_t
  pub offset : ℕ  -- size_t

-- `FileChunk::DEFAULT_BUF_SIZE`.
abbrev pub default_buf_size : ℕ
default_buf_size = 1024

pub record FileChunk : Type 0 where
  pub size : ℕ
  pub offset : ℕ
  pub data_ : Bytes

-- `FileChunk(data_ptr, data_size, data_offset)`, the buffer being the bytes from `data_ptr` on.
unfoldable pub file_chunk : Bytes → ℕ → ℕ → FileChunk
file_chunk buffer data_size data_offset = record {
  size = data_size;
  offset = data_offset;
  data_ = take data_size buffer;
}

pub record Message : Type 0 where
  pub header : Header
  pub peers : List Peer
  pub files : List FileInfo
  pub data_ : Bytes
  pub chunk : Option FileChunk

-- `Message()`.
abbrev pub default_message : Message
default_message = record {
  header = default_header;
  peers = [];
  files = [];
  data_ = [];
  chunk = none;
}

stringify_peers : List Peer → Bytes
stringify_peers [] = []
stringify_peers (p ∷ ps) = Peer.stringify p ++ stringify_peers ps

unfoldable pub stringify : Message → Bytes
unfolding stringify_peers
stringify m = Header.stringify m.header ++ stringify_peers m.peers

abbrev pub uint_max : ℕ
uint_max = 4294967295

-- The static `Counter` of `generate_transaction_id`: reset at the maximum, then `++Counter`.
unfoldable pub next_counter : ℕ → ℕ
next_counter counter = (if counter == uint_max then 0 else counter) + 1

-- What a process makes identifiers from: its hash (Crypto++, written in hexadecimal), the time that
-- `system_clock` shows, and the static counter.
pub record Source : Type 0 where
  pub digest : Bytes → Bytes
  pub clock : ℕ  -- milliseconds
  pub counter : ℕ

-- `to_time_t`: whole seconds.
abbrev pub now : Source → ℕ
now s = s.clock / 1000

-- The process after one more identifier.
abbrev pub advance : Source → Source
advance s = record s { counter = next_counter s.counter }

-- `stringify() + salt`: the text that is hashed.
unfoldable pub salted : Source → Message → Bytes
salted s m = stringify m ++ (to_string (now s) ++ to_string (next_counter s.counter))

unfoldable pub transaction_id_of : Source → Message → Bytes
transaction_id_of s m = s.digest (salted s m)

abbrev pub set_transaction_id : Message → Bytes → Message
set_transaction_id m id = record m { header = record (m.header) { transaction_id = id } }

-- The caller goes on with `advance`.
unfoldable pub generate_transaction_id : Source → Message → Message
generate_transaction_id s m = set_transaction_id m (transaction_id_of s m)

-- `Message::create_request(request_type, peers)`, and with no peers `create_request(request_type)`.
unfoldable pub create_request : Source → Bytes → List Peer → Message
create_request s request_type peers =
    generate_transaction_id s
      (record default_message { header = request_header request_type; peers = peers })

unfoldable pub generate_response : Message → Message
generate_response m = record default_message { header = generate_response_header m.header }

abbrev pub is_request : Message → Bool
is_request m = m.header.t_flag

-- `get_header()` returns a copy: the assignment is made on the copy, and the message stays.
unfoldable pub set_correlational_id : Message → Bytes → Message
set_correlational_id m id = let copy = Header.set_correlational_id m.header id in m
