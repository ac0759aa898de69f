-- ===== src/Storage/Written.antt =====
-- What the files hold behind a write, and who is listed or blocked behind a change.
use mathlib.Core.List.{append_assoc}
use peerpaste.Base.{
  length, take, drop, take-append, drop-append_add, take_all, Bytes, bytes_eq_iff, ℕ, ◌+◌, ◌≡◌,
  refl, ap, ap₂, ◌∙◌, true, false, some, List, [], ◌∷◌, ◌++◌, arith,
}
use peerpaste.Message.{FileInfo, FileChunk}
use peerpaste.Storage.Stream.{Disk, OutFile, update, write_at}
use peerpaste.Storage.{Platform, Storage, any_file, any_blocked, unblock, Blocked, write}

-- Where the file holds `before` and something behind it, a write behind `before` puts `new` over the
-- latter.
pub write_at-append :
    (before partial new : Bytes)
    → write_at (before ++ partial) (length before) new
      ≡ before ++ (new ++ drop (length new) partial)
unfolding write_at
write_at-append before partial new =
    ap₂ (◌++◌) (ap (take (length before)) (append_assoc before partial _) ∙ take-append before _)
      (ap (◌++◌ new) (drop-append_add before partial (length new)))

abbrev pub chunk_of : Bytes → ℕ → FileChunk
chunk_of bytes offset = record { size = length bytes; offset = offset; data_ = bytes }

pub update-same :
    (disk : Disk) (name other contents : Bytes)
    → name ≡ other
    → update disk name contents other ≡ some contents
update-same disk name other contents e = ground (arith, bytes_eq_iff name other)

pub any_file-last :
    (fs : List FileInfo) (name : Bytes) (f : FileInfo)
    → f.file_name ≡ name
    → any_file (fs ++ f ∷ []) name ≡ true
any_file-last [] name f e = ground (arith, bytes_eq_iff f.file_name name)
any_file-last (x ∷ fs) name f e = ground (arith, any_file-last fs name f e)

pub any_blocked-unblock :
    (name : Bytes) (bs : List Blocked) → any_blocked (unblock name bs) name ≡ false
any_blocked-unblock name [] = refl
any_blocked-unblock name (b ∷ bs) =
    ground (arith, any_blocked-unblock name bs, bytes_eq_iff name b.name, bytes_eq_iff b.name name)

module _ {p : Platform} where
  -- The storage after a chunk was written over `contents`.
  abbrev pub written : Storage p → Bytes → Bytes → ℕ → Bytes → Storage p
  written s name contents offset bytes = record s {
    disk = update s.disk name (write_at contents offset bytes);
    database = p.update_row s.database name offset;
  }

  pub write-written :
      (s : Storage p) (out : OutFile) (contents bytes : Bytes) (offset : ℕ)
      → s.disk out.file_info.file_name ≡ some contents
      → write s out (chunk_of bytes offset)
        ≡ some (
          record out { position = offset + length bytes },
          written s out.file_info.file_name contents offset bytes,
        )
  unfolding write
  write-written s out contents bytes offset e = ground (arith, take_all (length bytes) bytes)
