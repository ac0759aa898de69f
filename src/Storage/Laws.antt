-- ===== src/Storage/Laws.antt =====
-- What the list of shared files promises of the files.
use peerpaste.Base.{
  if◌then◌else◌, length, take, All, Bytes, bytes_eq, bytes_eq_iff, ℕ, ◌≡◌, refl, sym, subst, Bool,
  true, false, ◌||◌, Option, none, some, List, [], ◌∷◌, ◌++◌, arith,
}
use peerpaste.Message.{FileInfo, FileChunk}
use peerpaste.Storage.Stream.{Disk, update, write_at, OutFile}
use peerpaste.Storage.{
  Platform, Storage, any_file, any_blocked, open_output, is_database, sync_file, exists_internal,
  is_blocked_internal, add_file, sync_files, create_file, write, close, finalize_file,
}

-- The entry tells the size and the hash of the file that is there.
abbrev pub IsTrue : Platform → Disk → FileInfo → Type 0
IsTrue p disk f =
    (contents : Bytes) × (disk f.file_name ≡ some contents)
    × (f.file_size ≡ length contents)
    × (f.sha256sum ≡ p.sha256_from_file contents)

abbrev pub AllTrue : (p : Platform) → Storage p → Type 0
AllTrue p s = All (IsTrue p s.disk) s.files

abbrev entry : Platform → Bytes → Bytes → FileInfo
entry p name contents = record {
  file_name = name;
  sha256sum = p.sha256_from_file contents;
  file_size = length contents;
  offset = 0;
}

module _ (p : Platform) where
  AllTrue-last :
      (disk : Disk) (fs : List FileInfo) (f : FileInfo)
      → All (IsTrue p disk) fs
      → IsTrue p disk f
      → All (IsTrue p disk) (fs ++ f ∷ [])
  AllTrue-last disk [] f h k = (k, tt)
  AllTrue-last disk (x ∷ fs) f h k = (h.0, AllTrue-last disk fs f h.1 k)

  -- A write to a file that is not shared leaves the entries true.
  AllTrue-update :
      (disk : Disk) (name contents : Bytes) (fs : List FileInfo)
      → any_file fs name ≡ false
      → All (IsTrue p disk) fs
      → All (IsTrue p (update disk name contents)) fs
  AllTrue-update disk name contents [] e h = tt
  AllTrue-update disk name contents (f ∷ fs) e ((c, d, size, sum), h) = (
    (c, ground (arith, bytes_eq_iff f.file_name name, bytes_eq_iff name f.file_name), size, sum),
    AllTrue-update disk name contents fs (ground arith) h,
  )

module _ {p : Platform} where
  -- What a method may do to the files and to the list of those that are shared.
  pub data Effect (s t : Storage p) : Type 0 where
    keeps : t.disk ≡ s.disk → t.files ≡ s.files → Effect s t
    shares :
        (f : FileInfo)
        → t.disk ≡ s.disk
        → t.files ≡ s.files ++ f ∷ []
        → IsTrue p s.disk f
        → Effect s t
    overwrites :
        (name contents : Bytes)
        → t.disk ≡ update s.disk name contents
        → t.files ≡ s.files
        → any_file s.files name ≡ false
        → Effect s t

  Effect-AllTrue : (s t : Storage p) → Effect s t → AllTrue p s → AllTrue p t
  Effect-AllTrue s t (keeps d f) h = rw (d, f) h
  Effect-AllTrue s t (shares f d g k) h = rw (d, g) (AllTrue-last p s.disk s.files f h k)
  Effect-AllTrue s t (overwrites name contents d f x) h =
      rw (d, f) (AllTrue-update p s.disk name contents s.files x h)

  pub add_file-Effect : (s : Storage p) (name : Bytes) → Effect s (add_file s name).1
  unfolding add_file
  add_file-Effect s name = by_contents (s.disk name) refl
    where
      by_contents : (o : Option Bytes) → s.disk name ≡ o → Effect s (add_file s name).1
      by_contents none e = keeps (ground arith) (ground arith)
      by_contents (some c) e =
          shares (entry p name c) (ground arith) (ground arith) (c, e, refl, refl)

  pub close-Effect : (s : Storage p) (out : OutFile) → Effect s (close s out)
  unfolding close
  close-Effect s out = keeps (ground arith) (ground arith)

  pub write-Effect :
      (s t : Storage p) (out moved : OutFile) (chunk : FileChunk)
      → exists_internal s out.file_info.file_name ≡ false
      → write s out chunk ≡ some (moved, t)
      → Effect s t
  unfolding write exists_internal
  write-Effect s t out moved chunk x e = by_contents (s.disk out.file_info.file_name) refl
    where
      by_contents : (o : Option Bytes) → s.disk out.file_info.file_name ≡ o → Effect s t
      by_contents none d = absurd (ground arith)
      by_contents (some c) d =
          overwrites out.file_info.file_name (write_at c chunk.offset (take chunk.size chunk.data_))
            (ground arith) (ground arith) x

  pub finalize_file-Effect :
      (s t : Storage p) (info : FileInfo) (ok : Bool)
      → finalize_file s info ≡ some (ok, t)
      → Effect s t
  unfolding finalize_file exists_internal is_blocked_internal
  finalize_file-Effect s t info ok e =
      by_tests (exists_internal s info.file_name) (is_blocked_internal s info.file_name)
        (s.disk info.file_name) refl refl refl
    where
      by_hash :
          (c : Bytes) (same : Bool)
          → exists_internal s info.file_name ≡ false
          → is_blocked_internal s info.file_name ≡ true
          → s.disk info.file_name ≡ some c
          → bytes_eq (p.sha256_from_file c) info.sha256sum ≡ same
          → Effect s t
      by_hash c true x b d k =
          shares (entry p info.file_name c) (ground arith) (ground arith) (c, d, refl, refl)
      by_hash c false x b d k = keeps (ground arith) (ground arith)

      by_tests :
          (there held : Bool) (o : Option Bytes)
          → exists_internal s info.file_name ≡ there
          → is_blocked_internal s info.file_name ≡ held
          → s.disk info.file_name ≡ o
          → Effect s t
      by_tests true held o x b d = keeps (ground arith) (ground arith)
      by_tests false false o x b d = keeps (ground arith) (ground arith)
      by_tests false true none x b d = absurd (ground arith)
      by_tests false true (some c) x b d = by_hash c _ x b d refl

  open_output-Effect :
      (s : Storage p) (info : FileInfo) (row : Option ℕ)
      → any_file s.files info.file_name ≡ false
      → Effect s (open_output s info row).2
  unfolding open_output
  open_output-Effect s info none x = by_test (s.writable info.file_name) refl
    where
      by_test : (w : Bool) → s.writable info.file_name ≡ w → Effect s (open_output s info none).2
      by_test true w = overwrites info.file_name [] (ground arith) (ground arith) x
      by_test false w = keeps (ground arith) (ground arith)
  open_output-Effect s info (some n) x = keeps (ground arith) (ground arith)

  create_file-open_output :
      (s : Storage p) (info : FileInfo)
      → any_file s.files info.file_name ≡ false
      → any_blocked s.blocked_files info.file_name ≡ false
      → create_file s info ≡ open_output s info (p.bytes_written s.database info.file_name)
  unfolding create_file
  create_file-open_output s info x b = ground arith

  create_file-refused :
      (s : Storage p) (info : FileInfo)
      → any_file s.files info.file_name || any_blocked s.blocked_files info.file_name ≡ true
      → (create_file s info).2 ≡ s
  unfolding create_file
  create_file-refused s info x = ground arith

  pub create_file-Effect : (s : Storage p) (info : FileInfo) → Effect s (create_file s info).2
  create_file-Effect s info = by_tests _ _ refl refl
    where
      by_tests :
          (there held : Bool)
          → any_file s.files info.file_name ≡ there
          → any_blocked s.blocked_files info.file_name ≡ held
          → Effect s (create_file s info).2
      by_tests false false x b =
          subst (λ (r : Option OutFile × FileInfo × Storage p). Effect s r.2)
            (sym (create_file-open_output s info x b)) (open_output-Effect s info _ x)
      by_tests true held x b =
          subst (Effect s) (sym (create_file-refused s info (rw x))) (keeps refl refl)
      by_tests false true x b =
          subst (Effect s) (sym (create_file-refused s info (rw (x, b)))) (keeps refl refl)

  -- The methods, by what may come of them. A stream writes only as long as its file is not shared.
  pub data Reach (s : Storage p) : Storage p → Type 0 where
    here : Reach s s
    add : {t : Storage p} (name : Bytes) → Reach s t → Reach s (add_file t name).1
    sync : {t : Storage p} (names : List Bytes) → Reach s t → Reach s (sync_files t names)
    create : {t : Storage p} (info : FileInfo) → Reach s t → Reach s (create_file t info).2
    stream :
        {t u : Storage p} (out moved : OutFile) (chunk : FileChunk)
        → Reach s t
        → exists_internal t out.file_info.file_name ≡ false
        → write t out chunk ≡ some (moved, u)
        → Reach s u
    drop : {t : Storage p} (out : OutFile) → Reach s t → Reach s (close t out)
    finalize :
        {t u : Storage p} (info : FileInfo) (ok : Bool)
        → Reach s t
        → finalize_file t info ≡ some (ok, u)
        → Reach s u

  sync_file-AllTrue : (s : Storage p) (name : Bytes) → AllTrue p s → AllTrue p (sync_file s name)
  unfolding sync_file
  sync_file-AllTrue s name h = by_row (p.bytes_written s.database name)
    where
      by_row :
          (row : Option ℕ)
          → AllTrue p (elim row as (λ _. Storage p) [ none ↦ (add_file s name).1 | some n ↦ s ])
      by_row none = Effect-AllTrue s (add_file s name).1 (add_file-Effect s name) h
      by_row (some n) = h

  sync_files-AllTrue :
      (names : List Bytes) (s : Storage p) → AllTrue p s → AllTrue p (sync_files s names)
  unfolding sync_files
  sync_files-AllTrue [] s h = h
  sync_files-AllTrue (name ∷ names) s h =
      sync_files-AllTrue names (if is_database name then s else sync_file s name)
        (by_test (is_database name))
    where
      by_test : (b : Bool) → AllTrue p (if b then s else sync_file s name)
      by_test true = h
      by_test false = sync_file-AllTrue s name h

  -- Let each entry in the list of shared files tell the size and the hash of the bytes that are in the
  -- file of that name. Then this is still so after any sequence of additions, openings, writes, closings
  -- and completions, in which a stream writes only as long as its file is not shared.
  pub Reach-AllTrue : {s t : Storage p} → AllTrue p s → Reach s t → AllTrue p t
  Reach-AllTrue h here = h
  Reach-AllTrue h (add {t} name r) =
      Effect-AllTrue t (add_file t name).1 (add_file-Effect t name) (Reach-AllTrue h r)
  Reach-AllTrue h (sync {t} names r) = sync_files-AllTrue names t (Reach-AllTrue h r)
  Reach-AllTrue h (create {t} info r) =
      Effect-AllTrue t (create_file t info).2 (create_file-Effect t info) (Reach-AllTrue h r)
  Reach-AllTrue h (stream {t} {u} out moved chunk r x e) =
      Effect-AllTrue t u (write-Effect t u out moved chunk x e) (Reach-AllTrue h r)
  Reach-AllTrue h (drop {t} out r) =
      Effect-AllTrue t (close t out) (close-Effect t out) (Reach-AllTrue h r)
  Reach-AllTrue h (finalize {t} {u} info ok r e) =
      Effect-AllTrue t u (finalize_file-Effect t u info ok e) (Reach-AllTrue h r)
