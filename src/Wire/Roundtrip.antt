-- ===== src/Wire/Roundtrip.antt =====
-- A message that is serialised and parsed comes back.
use peerpaste.Base.{
  length, take, All, Bytes, ◌<◌, ◌≡◌, refl, sym, ap, ap₂, subst, Option, none, some, List, [], ◌∷◌,
  map, arith,
}
use peerpaste.Peer.{Peer}
use peerpaste.Message.{Message, FileInfo, FileChunk}
use peerpaste.Wire.Cast.{size_mod, to_int64, to_size-to_int64}
use peerpaste.Wire.{
  ProtoChunk, Request, or_empty, header_of, peer_of, file_of, chunk_of, message_of, common_header,
  peer_info, proto_file, proto_chunk, sent_data, with_proto_chunk, request_of, Codec,
  serialized_from_message, message_from_serialized,
}

abbrev pub Fits : FileInfo → Type 0
Fits f = (f.file_size < size_mod) × (f.offset < size_mod)

-- What the constructors of a chunk see to.
abbrev pub ChunkFits : Option FileChunk → Type 0
ChunkFits none = Unit {0}
ChunkFits (some c) = (c.size ≡ length c.data_) × (c.size < size_mod) × (c.offset < size_mod)

pub record IsSendable (m : Message) : Type 0 where
  pub files : All Fits m.files
  pub chunk : ChunkFits m.chunk

file_of-proto_file : (f : FileInfo) → Fits f → file_of (proto_file f) ≡ f
unfolding file_of proto_file
file_of-proto_file f h = ground (arith, to_size-to_int64 f.file_size, to_size-to_int64 f.offset)

files_back : (fs : List FileInfo) → All Fits fs → map file_of (map proto_file fs) ≡ fs
files_back [] h = refl
files_back (f ∷ fs) h = ap₂ ◌∷◌ (file_of-proto_file f h.0) (files_back fs h.1)

peers_back : (ps : List Peer) → map peer_of (map peer_info ps) ≡ ps
peers_back [] = refl
peers_back (p ∷ ps) = ap (◌∷◌ p) (peers_back ps)

header_back : (m : Message) → header_of (common_header m.header) ≡ m.header
unfolding header_of common_header
header_back m = refl

data_back : (bs : Bytes) → or_empty (sent_data bs) ≡ bs
data_back [] = refl
data_back (b ∷ bs) = refl

take-length {ℓ} : {A : Type ℓ} (xs : List A) → take (length xs) xs ≡ xs
take-length [] = refl
take-length (x ∷ xs) = ap (◌∷◌ x) (take-length xs)

chunk_back :
    (c : FileChunk)
    → ChunkFits (some c)
    → (k : ProtoChunk) × (proto_chunk c ≡ some k) × (chunk_of k ≡ some c)
unfolding proto_chunk chunk_of
chunk_back c h =
    let whole : take c.size c.data_ ≡ c.data_ =
      subst (λ n. take n c.data_ ≡ c.data_) (sym h.0) (take-length c.data_) in
    (
      record { offset = to_int64 c.offset; chunk_size = to_int64 c.size; data_ = c.data_ },
      ground (arith, whole),
      ground (arith, whole, to_size-to_int64 c.size, to_size-to_int64 c.offset),
    )

-- The message without its chunk.
abbrev bare : Message → Message
bare m = record m { chunk = none }

bare_back :
    (m : Message)
    → All Fits m.files
    → message_of (record {
      commonheader = common_header m.header;
      peerinfo = map peer_info m.peers;
      files = map proto_file m.files;
      file_chunk = none;
      data_ = sent_data m.data_;
    })
      ≡ some (bare m)
unfolding message_of
bare_back m h = rw (header_back m, peers_back m.peers, files_back m.files h, data_back m.data_)

message_of-with_chunk :
    (r : Request) (k : ProtoChunk) (c : FileChunk) (m : Message)
    → message_of r ≡ some m
    → r.file_chunk ≡ none
    → chunk_of k ≡ some c
    → message_of (record r { file_chunk = some k }) ≡ some (record m { chunk = some c })
unfolding message_of
message_of-with_chunk r k c m e n h = ground arith

-- What is sent of a message besides its chunk.
abbrev chunkless : Message → Request
chunkless m = record {
  commonheader = common_header m.header;
  peerinfo = map peer_info m.peers;
  files = map proto_file m.files;
  file_chunk = none;
  data_ = sent_data m.data_;
}

with_chunk_back :
    (m : Message) (o : Option FileChunk)
    → All Fits m.files
    → ChunkFits o
    → (r : Request) × (with_proto_chunk (chunkless m) o ≡ some r)
      × (message_of r ≡ some (record m { chunk = o }))
with_chunk_back m none h f = (chunkless m, refl, bare_back m h)
with_chunk_back m (some c) h f =
    let (k, e, b) = chunk_back c f in
    (
      record (chunkless m) { file_chunk = some k },
      rw e,
      message_of-with_chunk (chunkless m) k c (bare m) (bare_back m h) refl b,
    )

-- Each message whose numbers fit their 64 bits, and whose chunk holds as many bytes as it says, is
-- serialised with no undefined read, and what is parsed from that is the same message.
pub message_of-request_of :
    (m : Message) → IsSendable m → (r : Request) × (request_of m ≡ some r) × (message_of r ≡ some m)
unfolding request_of
message_of-request_of m h = with_chunk_back m m.chunk h.files h.chunk

-- A message whose numbers fit their 64 bits, and whose chunk holds as many bytes as it says, is
-- serialised with no undefined read, and what is parsed from the bytes is the same message, for
-- each codec that reads its own bytes.
pub message_from_serialized-serialized :
    (c : Codec) (m : Message)
    → IsSendable m
    → (b : c.Buffer) × (serialized_from_message c m ≡ some b)
      × (message_from_serialized c b ≡ some m)
unfolding serialized_from_message message_from_serialized
message_from_serialized-serialized c m h =
    let (r, e, back) = message_of-request_of m h in
    (c.serialize_to_array r, rw e, rw (c.parse-serialize r) back)
