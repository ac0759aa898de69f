-- ===== src/Examples/Files.antt =====
-- Files between two nodes: a fetch from the start, one that was broken off, and a chunk.
use peerpaste.Base.{
  if◌then◌else◌, length, Bytes, text, bytes_eq, bytes_eq_self, ℕ, ◌≤◌, ◌≡◌, refl, Bool, true, false,
  Option, none, some, List, [], ◌∷◌, ◌++◌, arith,
}
use peerpaste.Message.{FileInfo}
use peerpaste.Request.{RequestObject, Session}
use peerpaste.Storage.Stream.{Disk, update, read}
use peerpaste.Storage.{
  Platform, Storage, exists_internal, is_blocked_internal, add_file, create_file,
}
use peerpaste.Storage.Laws.{AllTrue, here, add, create, Reach-AllTrue}
use peerpaste.GetFile
use peerpaste.GetFile.{GetFile, write_next, after_read, write_buffer}
use peerpaste.GetFile.Bounds.{Outcome, write_next-Sends}
use peerpaste.GetFile.Transfer.{HasFile}
use peerpaste.GetFile.Fetch.{fetch}
use peerpaste.GetFile.Opening.{fetch_anew, fetch_resumed}
use peerpaste.Peer.{Peer}
use peerpaste.Message.{create_request, generate_transaction_id}
use peerpaste.Broadcast.{known}
use peerpaste.Broadcast.Spread.{Node, Network, missing, spread, IsChain, spread_ends}
use peerpaste.Examples.Data.{peer_a, peer_c, table_a, table_of, request_with, message_with, task_of}

-- A file is its own hash, and the table is a function.
abbrev pub platform : Platform
platform = record {
  sha256_from_file = λ contents. contents;
  Rows = Bytes → Option ℕ;
  bytes_written = λ rows name. rows name;
  insert_or_ignore = λ rows name sum size n. λ other.
      if bytes_eq name other
      then elim (rows name) [ none ↦ some n | some m ↦ some m ]
      else rows other;
  update_row = λ rows name n. λ other. if bytes_eq name other then some n else rows other;
  delete_row = λ rows name. λ other. if bytes_eq name other then none else rows other;
}

abbrev empty_disk : Disk
empty_disk name = none

abbrev with_disk : Disk → List FileInfo → (Bytes → Option ℕ) → Storage platform
with_disk disk files rows = record {
  storage_path = text "/s/";
  disk = disk;
  writable = λ name. true;
  files = files;
  blocked_files = [];
  tokens = 0;
  database = rows;
}

abbrev contents : Bytes
contents = text "abcd"

abbrev info : FileInfo
info = record { file_name = text "f"; sha256sum = text "abcd"; file_size = 4; offset = 0 }

-- The node that shares the file.
abbrev sharing : Storage platform
sharing = with_disk (update empty_disk (text "f") contents) (info ∷ []) (λ name. none)

abbrev pub lacking : Storage platform
lacking = with_disk empty_disk [] (λ name. none)

-- Two bytes of the file are there.
abbrev broken_off : Storage platform
broken_off = with_disk (update empty_disk (text "f") (text "ab")) [] (λ name. some 2)

abbrev client : GetFile
client = GetFile.new (task_of none table_a) peer_c info

abbrev session : Session
session = record { number = 1; client_ip = text "10.0.0.9" }

fetch_anew_example :
    (d : GetFile) × (s : Storage platform) × (fetch 5 session
        (task_of none table_a)
        client
        lacking
        sharing
      ≡ some (d, s))
    × HasFile (text "f") contents d s
unfolding GetFile.new exists_internal is_blocked_internal bytes_eq
fetch_anew_example =
    fetch_anew 5 session (task_of none table_a) client lacking sharing peer_c info contents refl
      refl refl refl refl refl refl refl refl refl refl refl (omega arith)

fetch_resumed_example :
    (d : GetFile) × (s : Storage platform) × (fetch 3 session
        (task_of none table_a)
        client
        broken_off
        sharing
      ≡ some (d, s))
    × HasFile (text "f") (text "ab" ++ text "cd") d s
unfolding GetFile.new exists_internal is_blocked_internal bytes_eq
fetch_resumed_example =
    fetch_resumed 3 session (task_of none table_a) client broken_off sharing peer_c info (text "ab")
      [] (text "cd") refl refl refl refl refl refl refl (omega arith) refl refl refl refl refl
      (omega arith)

-- The stream of `contents` from the second byte on.
abbrev streaming : GetFile
streaming = record (GetFile.from_request (task_of (some (request_with [])) table_a)) {
  source_file = record {
    contents = contents;
    position = 1;
    eof = false;
    fail = false;
    sound = true;
  };
}

-- After the next chunk.
abbrev sent : GetFile
unfolding write_next after_read write_buffer read
sent = elim (write_next streaming) [ none ↦ streaming | some u ↦ u ]

write_next-Sends_example : Outcome streaming sent
unfolding GetFile.from_request write_next after_read write_buffer read
write_next-Sends_example = write_next-Sends streaming sent refl

-- A shared file, and another that is opened for writing.
Reach-AllTrue_example :
    AllTrue platform
      (create_file (add_file sharing (text "f")).1 (record info { file_name = text "g" })).2
unfolding bytes_eq
Reach-AllTrue_example =
    Reach-AllTrue ((contents, refl, refl, refl), tt)
      (create (record info { file_name = text "g" }) (add (text "f") here))

abbrev node_of : Peer → Peer → Storage platform → Node platform
node_of self successor storage = record {
  task = task_of none (table_of self none (successor ∷ []));
  next_object = 50;
  storage = storage;
}

-- Two nodes, each the other's successor.
abbrev ring : Network platform
ring at =
    if bytes_eq at.ip peer_a.ip
    then node_of peer_a peer_c lacking
    else node_of peer_c peer_a sharing

ring-known :
    (at self : Peer)
    → (ring at).task.table.self ≡ some self
    → known self (peer_a ∷ peer_c ∷ []) ≡ true
ring-known at self e = by_address (bytes_eq at.ip peer_a.ip) e
  where
    by_address :
        (t : Bool)
        → (if t
            then node_of peer_a peer_c lacking
            else node_of peer_c peer_a sharing).task.table.self
          ≡ some self
        → known self (peer_a ∷ peer_c ∷ []) ≡ true
    by_address true f = ground (arith, bytes_eq_self peer_a.ip, bytes_eq_self peer_a.port)
    by_address false f = ground (arith, bytes_eq_self peer_c.ip, bytes_eq_self peer_c.port)

-- The list of the node c.
abbrev listed : RequestObject
listed = record (request_with (peer_c ∷ [])) {
  message = record (message_with (peer_c ∷ [])) { files = info ∷ [] };
}

spread_ends_example :
    (qs : List RequestObject) × (spread 3 session ring peer_a listed ≡ some qs)
    × IsChain listed qs
    × (length qs ≤ missing (peer_a ∷ peer_c ∷ []) listed.message.peers)
unfolding bytes_eq create_request generate_transaction_id
spread_ends_example =
    spread_ends 3 session ring peer_a listed (peer_a ∷ peer_c ∷ []) ring-known (omega arith)
