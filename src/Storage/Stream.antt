-- ===== src/Storage/Stream.antt =====
-- The file streams of the standard library, over a directory: what src/storage.cpp and
-- src/get_file.cpp use of them.
use peerpaste.Base.{
  leb, if◌then◌else◌, length, take, drop, replicate, Bytes, bytes_eq, ℕ, ◌+◌, ◌-◌, Bool, true,
  false, Option, some, ◌++◌,
}
use peerpaste.Message.{FileInfo}

-- The contents of the files of a directory, by name.
abbrev pub Disk : Type 0
Disk = Bytes → Option Bytes

abbrev pub update : Disk → Bytes → Bytes → Disk
update disk name contents other = if bytes_eq name other then some contents else disk other

-- What stands in a file after `new` was written from `offset` on: a gap is filled with zeros.
unfoldable pub write_at : Bytes → ℕ → Bytes → Bytes
write_at old offset new =
    take offset (old ++ replicate (offset - length old) 0)
    ++ (new ++ drop (offset + length new) old)

-- `OfstreamWrapper`: the stream writes the file of that name. `tellp()` is the position. The token is
-- none until `set_token`.
pub record OutFile : Type 0 where
  pub file_info : FileInfo
  pub good : Bool
  pub position : ℕ
  pub token : Option ℕ

-- A `std::ifstream`, on the bytes that the file has. `sound` tells whether the device still reads.
pub record InFile : Type 0 where
  pub contents : Bytes
  pub position : ℕ
  pub eof : Bool
  pub fail : Bool
  pub sound : Bool

-- `if(stream)`.
abbrev pub is_good : InFile → Bool
is_good f = if f.fail then false else true

-- `open` with `ate`.
abbrev pub open_at_end : Bytes → InFile
open_at_end contents = record {
  contents = contents;
  position = length contents;
  eof = false;
  fail = false;
  sound = true;
}

-- `seekg(n, beg)` lowers the end-of-file bit.
abbrev pub seekg : ℕ → InFile → InFile
seekg n f = if f.fail then f else record f { position = n; eof = false }

-- `read(buffer, n)`: the bytes that were put into the buffer, of which `gcount()` is the number. Fewer
-- bytes than wanted raise the bits for end of file and failure; a broken device only the second.
unfoldable pub read : ℕ → InFile → Bytes × InFile
read n f =
    let bytes = take n (drop f.position f.contents) in
    if f.sound
    then (
      bytes,
      record f {
        position = f.position + length bytes;
        eof = if leb n (length bytes) then false else true;
        fail = if leb n (length bytes) then false else true;
      },
    )
    else (take 0 bytes, record f { fail = true })
