-- ===== src/Storage.antt =====
-- src/storage.cpp and include/peerpaste/storage.hpp: the files that a node shares, and those that it
-- is receiving. Names are relative to the storage's directory. Each method holds the mutex.
pub mod Stream
pub mod Laws
pub mod Written
use peerpaste.Base.{
  leb, ◌==◌, if◌then◌else◌, length, take, Bytes, text, bytes_eq, ℕ, ◌+◌, Bool, true, false, ◌&&◌,
  ◌||◌, Option, none, some, List, [], ◌∷◌, ◌++◌,
}
use peerpaste.Message.{FileInfo, FileChunk}
use peerpaste.Storage.Stream.{Disk, update, write_at, OutFile, InFile, open_at_end}

-- What is not part of the repository: Crypto++'s hash of a file's bytes, and SQLite's table
-- `file_transfer`, whose name column is unique.
pub record Platform : Type 1 where
  pub sha256_from_file : Bytes → Bytes
  pub Rows : Type 0
  pub bytes_written : Rows → Bytes → Option ℕ
  pub insert_or_ignore : Rows → Bytes → Bytes → ℕ → ℕ → Rows
  pub update_row : Rows → Bytes → ℕ → Rows
  pub delete_row : Rows → Bytes → Rows

-- A name that someone writes, with the token that the writer lowers when it goes: the token's address,
-- and whether it is up.
pub record Blocked : Type 0 where
  pub name : Bytes
  pub token : ℕ
  pub held : Bool

pub record Storage (p : Platform) : Type 0 where
  pub storage_path : Bytes
  pub disk : Disk
  pub writable : Bytes → Bool  -- whether a file of that name can be opened for writing
  pub files : List FileInfo
  pub blocked_files : List Blocked
  pub tokens : ℕ  -- the address of the next token
  pub database : p.Rows

abbrev pub any_file : List FileInfo → Bytes → Bool
any_file [] id = false
any_file (f ∷ fs) id = bytes_eq f.file_name id || any_file fs id

abbrev pub any_blocked : List Blocked → Bytes → Bool
any_blocked [] id = false
any_blocked (b ∷ bs) id = bytes_eq b.name id && b.held || any_blocked bs id

-- `erase(remove_if(…))`.
abbrev pub unblock : Bytes → List Blocked → List Blocked
unblock name [] = []
unblock name (b ∷ bs) =
    let rest = unblock name bs in if bytes_eq name b.name then rest else b ∷ rest

abbrev lowered : ℕ → Blocked → Blocked
lowered token b = if b.token == token then record b { held = false } else b

abbrev pub release : ℕ → List Blocked → List Blocked
release token [] = []
release token (b ∷ bs) = lowered token b ∷ release token bs

abbrev pub is_database : Bytes → Bool
is_database name = bytes_eq name (text "db.sqlite") || bytes_eq name (text "db.sqlite-journal")

module _ {p : Platform} where
  unfoldable pub exists_internal : Storage p → Bytes → Bool
  exists_internal s id = any_file s.files id

  unfoldable pub is_blocked_internal : Storage p → Bytes → Bool
  is_blocked_internal s id = any_blocked s.blocked_files id

  -- Whether the file could be read.
  unfoldable pub add_file : Storage p → Bytes → Bool × Storage p
  add_file s filename = elim (s.disk filename) [
    | none ↦ (false, s)
    | some contents ↦ (
      true,
      record s {
        files =
            s.files
            ++ record {
              file_name = filename;
              sha256sum = p.sha256_from_file contents;
              file_size = length contents;
              offset = 0;
            }
              ∷ [];
      },
    )
  ]

  sync_file : Storage p → Bytes → Storage p
  sync_file s name = elim (p.bytes_written s.database name) [
    | none ↦ (add_file s name).1
    | some n ↦ s
  ]

  -- The entries of the directory, in the order in which they come.
  unfoldable pub sync_files : Storage p → List Bytes → Storage p
  unfolding sync_file
  sync_files s [] = s
  sync_files s (name ∷ names) = sync_files (if is_database name then s else sync_file s name) names

  -- What follows a successful opening.
  start : Storage p → FileInfo → Option OutFile × FileInfo × Storage p
  start s info = (
    some (record { file_info = info; good = true; position = info.offset; token = some s.tokens }),
    info,
    record s {
      database =
          p.insert_or_ignore s.database info.file_name info.sha256sum info.file_size info.offset;
      blocked_files =
          s.blocked_files ++ record { name = info.file_name; token = s.tokens; held = true } ∷ [];
      tokens = s.tokens + 1;
    },
  )

  -- A file that the table knows is opened as it is, at the offset in the table; another is created
  -- anew.
  open_output : Storage p → FileInfo → Option ℕ → Option OutFile × FileInfo × Storage p
  unfolding start
  open_output s info none =
      if s.writable info.file_name
      then start (record s { disk = update s.disk info.file_name [] }) info
      else (none, info, s)
  open_output s info (some n) =
      let resumed : FileInfo = record info { offset = n } in
      elim (s.disk info.file_name) [
        | none ↦ (none, resumed, s)
        | some contents ↦ if s.writable info.file_name then start s resumed else (none, resumed, s)
      ]

  -- The stream, the file info with its offset, which the method changes, and the storage.
  unfoldable pub create_file : Storage p → FileInfo → Option OutFile × FileInfo × Storage p
  unfolding open_output exists_internal is_blocked_internal
  create_file s info =
      if exists_internal s info.file_name || is_blocked_internal s info.file_name
      then (none, info, s)
      else open_output s info (p.bytes_written s.database info.file_name)

  -- `OfstreamWrapper::write`: `size` bytes of the vector are read, more than it has being undefined. A
  -- write on a good stream succeeds, and one on another does nothing to the file.
  unfoldable pub write : Storage p → OutFile → FileChunk → Option (OutFile × Storage p)
  write s out chunk =
      if leb chunk.size (length chunk.data_)
      then elim (s.disk out.file_info.file_name) [
        | none ↦ none
        | some contents ↦ some (
          record out { position = chunk.offset + chunk.size },
          record s {
            disk =
                update s.disk out.file_info.file_name
                  (write_at contents chunk.offset (take chunk.size chunk.data_));
            database = p.update_row s.database out.file_info.file_name chunk.offset;
          },
        )
      ]
      else none

  -- `~OfstreamWrapper`.
  unfoldable pub close : Storage p → OutFile → Storage p
  close s out = elim (out.token) [
    | none ↦ s
    | some token ↦ record s { blocked_files = release token s.blocked_files }
  ]

  complete : Storage p → FileInfo → Bytes → Bool × Storage p
  complete s info contents =
      if bytes_eq (p.sha256_from_file contents) info.sha256sum
      then (
        true,
        record s {
          blocked_files = unblock info.file_name s.blocked_files;
          files =
              s.files
              ++ record {
                file_name = info.file_name;
                sha256sum = p.sha256_from_file contents;
                file_size = length contents;
                offset = 0;
              }
                ∷ [];
          database = p.delete_row s.database info.file_name;
        },
      )
      else (false, s)

  -- The size of a file that is not there throws.
  unfoldable pub finalize_file : Storage p → FileInfo → Option (Bool × Storage p)
  unfolding complete exists_internal is_blocked_internal
  finalize_file s info =
      if exists_internal s info.file_name
      then some (false, s)
      else if is_blocked_internal s info.file_name
      then elim (s.disk info.file_name) [
        | none ↦ none
        | some contents ↦ some (complete s info contents)
      ]
      else some (false, s)

  unfoldable pub read_file : Storage p → FileInfo → Option InFile
  unfolding exists_internal
  read_file s info =
      if exists_internal s info.file_name
      then elim (s.disk info.file_name) [
        | none ↦ none
        | some contents ↦ some (open_at_end contents)
      ]
      else none

  -- A file that cannot be opened is left as it is.
  unfoldable pub put : Storage p → Bytes → Bytes → Storage p
  put s contents id = if s.writable id then record s { disk = update s.disk id contents } else s

  -- The test is made on the whole path, the list holds bare names.
  unfoldable pub remove : Storage p → Bytes → Storage p
  unfolding exists_internal
  remove s id =
      if exists_internal s (s.storage_path ++ id)
      then record s { disk = λ name. if bytes_eq id name then none else s.disk name }
      else s

  -- The assertion fails if the file is not there.
  unfoldable pub get : Storage p → Bytes → Option Bytes
  get s id = s.disk id

  abbrev pub get_files : Storage p → List FileInfo
  get_files s = s.files
