-- ===== src/GetFile/Opening.antt =====
-- A file that is fetched from the start, and one whose transfer was broken off.
use peerpaste.Base.{
  length, Bytes, bytes_eq_self, ℕ, ◌+◌, ◌≤◌, ◌<◌, ◌≡◌, refl, true, false, none, some, List, [], ◌∷◌,
  ◌++◌, arith,
}
use peerpaste.Peer.{Peer}
use peerpaste.Message.{FileInfo}
use peerpaste.Request.{Session}
use peerpaste.Task.{MessageState, Task}
use peerpaste.Storage.Stream.{OutFile, update}
use peerpaste.Storage.{
  Platform, Storage, Blocked, any_blocked, create_file, exists_internal, is_blocked_internal,
}
use peerpaste.GetFile.{GetFile}
use peerpaste.Storage.Written.{update-same}
use peerpaste.GetFile.Transfer.{HasFile}
use peerpaste.GetFile.Fetch.{fetch, fetch-HasFile}

any_blocked-last :
    (bs : List Blocked) (name : Bytes) (token : ℕ)
    → any_blocked (bs ++ record { name = name; token = token; held = true } ∷ []) name ≡ true
any_blocked-last [] name token = ground (arith, bytes_eq_self name)
any_blocked-last (b ∷ bs) name token = ground (arith, any_blocked-last bs name token)

module _ {p : Platform} where
  abbrev opened : Storage p → FileInfo → OutFile
  opened s info = record {
    file_info = info;
    good = true;
    position = info.offset;
    token = some s.tokens;
  }

  -- The storage after `info` was opened.
  abbrev holding : Storage p → FileInfo → Storage p
  holding s info = record s {
    database =
        p.insert_or_ignore s.database info.file_name info.sha256sum info.file_size info.offset;
    blocked_files =
        s.blocked_files ++ record { name = info.file_name; token = s.tokens; held = true } ∷ [];
    tokens = s.tokens + 1;
  }

  abbrev emptied : Storage p → FileInfo → Storage p
  emptied s info = record s { disk = update s.disk info.file_name [] }

  create_file-new :
      (s : Storage p) (info : FileInfo)
      → exists_internal s info.file_name ≡ false
      → is_blocked_internal s info.file_name ≡ false
      → p.bytes_written s.database info.file_name ≡ none
      → s.writable info.file_name ≡ true
      → create_file s info ≡ (some (opened s info), info, holding (emptied s info) info)
  unfolding create_file exists_internal is_blocked_internal
  create_file-new s info x b r w = ground arith

  create_file-resumed :
      (s : Storage p) (info : FileInfo) (n : ℕ) (contents : Bytes)
      → exists_internal s info.file_name ≡ false
      → is_blocked_internal s info.file_name ≡ false
      → p.bytes_written s.database info.file_name ≡ some n
      → s.disk info.file_name ≡ some contents
      → s.writable info.file_name ≡ true
      → create_file s info ≡ (
        some (opened s (record info { offset = n })),
        record info { offset = n },
        holding s (record info { offset = n }),
      )
  unfolding create_file exists_internal is_blocked_internal
  create_file-resumed s info n contents x b r d w = ground arith

  -- A node that has neither the file nor a row for it asks another for the file, from the start, by
  -- its true size and hash. Given more fuel than bytes, the fetch ends, as done: the node then has the
  -- same bytes under that name and shares them.
  pub fetch_anew :
      (n : ℕ) (session : Session) (serving : Task MessageState) (client : GetFile) (s t : Storage p)
      (target : Peer) (info : FileInfo) (contents : Bytes)
      → client.target ≡ some target
      → client.file_info ≡ some info
      → client.task.is_done ≡ false
      → exists_internal s info.file_name ≡ false
      → is_blocked_internal s info.file_name ≡ false
      → p.bytes_written s.database info.file_name ≡ none
      → s.writable info.file_name ≡ true
      → exists_internal t info.file_name ≡ true
      → t.disk info.file_name ≡ some contents
      → info.offset ≡ 0
      → info.file_size ≡ length contents
      → p.sha256_from_file contents ≡ info.sha256sum
      → length contents < n
      → (d : GetFile) × (s2 : Storage p) × (fetch n session serving client s t ≡ some (d, s2))
        × HasFile info.file_name contents d s2
  unfolding exists_internal is_blocked_internal
  fetch_anew n session serving client s t target info contents e f i x b r w y d o z h k =
      fetch-HasFile n session serving client s (holding (emptied s info) info) t target info info
        (opened s info) [] contents e f i (create_file-new s info x b r w)
        (record {
          out = opened s info;
          partial = [];
          output = refl;
          good = refl;
          target = refl;
          named = refl;
          size = z;
          sum = h;
          disk = update-same s.disk info.file_name info.file_name [] refl;
          short = omega arith;
          unfinished = x;
          blocked = any_blocked-last s.blocked_files info.file_name s.tokens;
        })
        o y d k

  -- A node that does not share the file, but has a part of it from a transfer that was broken off,
  -- asks another for it: its table has an offset up to which the bytes in the partial file are right,
  -- and the partial file is not longer than the whole. Given more fuel than bytes are missing behind
  -- that offset, the fetch ends, as done: the node has the same bytes under that name and shares them.
  pub fetch_resumed :
      (n : ℕ) (session : Session) (serving : Task MessageState) (client : GetFile) (s t : Storage p)
      (target : Peer) (info : FileInfo) (before partial after : Bytes)
      → client.target ≡ some target
      → client.file_info ≡ some info
      → client.task.is_done ≡ false
      → exists_internal s info.file_name ≡ false
      → is_blocked_internal s info.file_name ≡ false
      → p.bytes_written s.database info.file_name ≡ some (length before)
      → s.disk info.file_name ≡ some (before ++ partial)
      → length partial ≤ length after
      → s.writable info.file_name ≡ true
      → exists_internal t info.file_name ≡ true
      → t.disk info.file_name ≡ some (before ++ after)
      → info.file_size ≡ length (before ++ after)
      → p.sha256_from_file (before ++ after) ≡ info.sha256sum
      → length after < n
      → (d : GetFile) × (s2 : Storage p) × (fetch n session serving client s t ≡ some (d, s2))
        × HasFile info.file_name (before ++ after) d s2
  unfolding exists_internal is_blocked_internal
  fetch_resumed n session serving client s t target info before partial after e f i x b r v l w y d
        z h k =
      let resumed : FileInfo = record info { offset = length before } in
      fetch-HasFile n session serving client s (holding s resumed) t target info resumed
        (opened s resumed) before after e f i
        (create_file-resumed s info (length before) (before ++ partial) x b r v w)
        (record {
          out = opened s resumed;
          partial = partial;
          output = refl;
          good = refl;
          target = refl;
          named = refl;
          size = z;
          sum = h;
          disk = v;
          short = l;
          unfinished = x;
          blocked = any_blocked-last s.blocked_files info.file_name s.tokens;
        })
        refl y d k
