-- ===== src/Wire.antt =====
-- include/peerpaste/message_converter.hpp and the messages of include/peerpaste/proto/messages.proto.
-- The code that protobuf generates is no part of the repository: its bytes are a parameter.
pub mod Cast
pub mod Roundtrip
use mathlib.Core.Option
use peerpaste.Base.{
  leb, if◌then◌else◌, length, take, Bytes, ℕ, ◌≡◌, Bool, Option, none, some, List, [], ◌∷◌, map,
}
use peerpaste.Peer.{Peer}
use peerpaste.Header.{Header}
use peerpaste.Message.{Message, FileInfo, FileChunk}
use Cast.{Int64, to_int64, to_size}

-- `message CommonHeader`; a field that is `required` always has a value here.
pub record CommonHeader : Type 0 where
  pub t_flag : Bool
  pub ttl : ℕ
  pub message_length : ℕ
  pub request_type : Bytes
  pub transaction_id : Bytes
  pub correlational_id : Bytes
  pub version : Bytes
  pub response_code : Option Bytes

-- `message PeerInfo`, without the two fields that no code reads or writes.
pub record PeerInfo : Type 0 where
  pub peer_id : Bytes
  pub peer_ip : Bytes
  pub peer_port : Bytes

-- `message FileInfo`.
pub record ProtoFile : Type 0 where
  pub file_name : Bytes
  pub sha256sum : Option Bytes
  pub file_size : Option Int64
  pub offset : Option Int64

-- `message FileChunk`.
pub record ProtoChunk : Type 0 where
  pub offset : Int64
  pub chunk_size : Int64
  pub data_ : Bytes

-- `message Request`.
pub record Request : Type 0 where
  pub commonheader : CommonHeader
  pub peerinfo : List PeerInfo
  pub files : List ProtoFile
  pub file_chunk : Option ProtoChunk
  pub data_ : Option Bytes

-- An accessor of a field that is not set gives the default value.
abbrev pub or_empty : Option Bytes → Bytes
or_empty none = []
or_empty (some b) = b

abbrev pub or_zero : Option Int64 → ℕ
or_zero none = 0
or_zero (some n) = to_size n

unfoldable pub header_of : CommonHeader → Header
header_of h = record {
  t_flag = h.t_flag;
  ttl = h.ttl;
  message_length = h.message_length;
  request_type = h.request_type;
  transaction_id = h.transaction_id;
  correlational_id = h.correlational_id;
  version = h.version;
  response_code = or_empty h.response_code;
}

abbrev pub peer_of : PeerInfo → Peer
peer_of p = record { id = p.peer_id; ip = p.peer_ip; port = p.peer_port }

unfoldable pub file_of : ProtoFile → FileInfo
file_of f = record {
  file_name = f.file_name;
  sha256sum = or_empty f.sha256sum;
  file_size = or_zero f.file_size;
  offset = or_zero f.offset;
}

-- The vector is copied from `chunk_size` bytes, as many as the sender claims: with fewer bytes in
-- the field, the copy reads behind its end, which is undefined.
unfoldable pub chunk_of : ProtoChunk → Option FileChunk
chunk_of c =
    if leb (to_size c.chunk_size) (length c.data_)
    then some (record {
      size = to_size c.chunk_size;
      offset = to_size c.offset;
      data_ = take (to_size c.chunk_size) c.data_;
    })
    else none

abbrev with_chunk : Message → Option ProtoChunk → Option Message
with_chunk m none = some m
with_chunk m (some c) = Option.map (λ k. record m { chunk = some k }) (chunk_of c)

-- `MessageFromSerialized` behind `ParseFromArray`.
unfoldable pub message_of : Request → Option Message
message_of r =
    with_chunk
      (record {
        header = header_of r.commonheader;
        peers = map peer_of r.peerinfo;
        files = map file_of r.files;
        data_ = or_empty r.data_;
        chunk = none;
      })
      r.file_chunk

unfoldable pub common_header : Header → CommonHeader
common_header h = record {
  t_flag = h.t_flag;
  ttl = h.ttl;
  message_length = h.message_length;
  request_type = h.request_type;
  transaction_id = h.transaction_id;
  correlational_id = h.correlational_id;
  version = h.version;
  response_code = some h.response_code;
}

abbrev pub peer_info : Peer → PeerInfo
peer_info p = record { peer_id = p.id; peer_ip = p.ip; peer_port = p.port }

unfoldable pub proto_file : FileInfo → ProtoFile
proto_file f = record {
  file_name = f.file_name;
  sha256sum = some f.sha256sum;
  file_size = some (to_int64 f.file_size);
  offset = some (to_int64 f.offset);
}

-- `set_data(data, size)` reads `size` bytes of the vector.
unfoldable pub proto_chunk : FileChunk → Option ProtoChunk
proto_chunk c =
    if leb c.size (length c.data_)
    then some (record {
      offset = to_int64 c.offset;
      chunk_size = to_int64 c.size;
      data_ = take c.size c.data_;
    })
    else none

-- Empty data is not sent.
abbrev pub sent_data : Bytes → Option Bytes
sent_data [] = none
sent_data (b ∷ bs) = some (b ∷ bs)

abbrev pub with_proto_chunk : Request → Option FileChunk → Option Request
with_proto_chunk r none = some r
with_proto_chunk r (some c) = Option.map (λ k. record r { file_chunk = some k }) (proto_chunk c)

-- `SerializedFromMessage` in front of `SerializeToArray`.
unfoldable pub request_of : Message → Option Request
request_of m =
    with_proto_chunk
      (record {
        commonheader = common_header m.header;
        peerinfo = map peer_info m.peers;
        files = map proto_file m.files;
        file_chunk = none;
        data_ = sent_data m.data_;
      })
      m.chunk

-- What protobuf's generated code does: a message whose required fields are set is parsed from what
-- it was serialised to.
pub record Codec : Type 1 where
  pub Buffer : Type 0
  pub parse_from_array : Buffer → Request
  pub serialize_to_array : Request → Buffer
  pub parse-serialize : (r : Request) → parse_from_array (serialize_to_array r) ≡ r

unfoldable pub serialized_from_message : (c : Codec) → Message → Option c.Buffer
serialized_from_message c m = Option.map c.serialize_to_array (request_of m)

unfoldable pub message_from_serialized : (c : Codec) → c.Buffer → Option Message
message_from_serialized c b = message_of (c.parse_from_array b)
