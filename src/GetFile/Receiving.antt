-- ===== src/GetFile/Receiving.antt =====
-- The asking side: each chunk is written where it belongs.
use mathlib.Core.List.{append-nil, append_assoc}
use peerpaste.Base.{
  length, length-append, drop, length-drop, drop_all, Bytes, bytes_eq_iff, ◌+◌, ◌≤◌, ◌<◌, ◌≡◌, refl,
  sym, ap, ◌∙◌, true, false, some, [], ◌∷◌, ◌++◌, arith,
}
use peerpaste.Message.{FileInfo}
use peerpaste.Request.{RequestObject, Session, to_session, is_request, finished}
use peerpaste.Task.{done, notify, request_destruction}
use peerpaste.Storage.Stream.{OutFile, write_at}
use peerpaste.Storage.{
  Platform, Storage, unblock, exists_internal, is_blocked_internal, finalize_file,
}
use peerpaste.Storage.Written.{
  write_at-append, chunk_of, update-same, any_file-last, any_blocked-unblock, written,
  write-written,
}
use peerpaste.GetFile.{GetFile, stop, set_task, extend, after_write, handle_response}

module _ {p : Platform} where
  -- Where the asking object stands: `before` is in the file, `after` is still to come, and together
  -- they are the file that was promised. Behind `before` the file may hold a `partial` rest.
  pub record IsReceiving (info : FileInfo) (before after : Bytes) (g : GetFile) (s : Storage p)
      : Type 0 where
    pub out : OutFile
    pub partial : Bytes
    pub output : g.output_file ≡ some out
    pub good : out.good ≡ true
    pub target : g.file_info ≡ some info
    pub named : out.file_info.file_name ≡ info.file_name
    pub size : g.file_size ≡ length (before ++ after)
    pub sum : p.sha256_from_file (before ++ after) ≡ info.sha256sum
    pub disk : s.disk info.file_name ≡ some (before ++ partial)
    pub short : length partial ≤ length after
    pub unfinished : exists_internal s info.file_name ≡ false
    pub blocked : is_blocked_internal s info.file_name ≡ true

  -- What stays of the file info's names when the chunk is written.
  after_chunk : Storage p → OutFile → Bytes → Bytes → Bytes → OutFile × Storage p
  after_chunk s out before partial new = (
    record out { position = length before + length new },
    written s out.file_info.file_name (before ++ partial) (length before) new,
  )

  handle_response-chunk :
      (g : GetFile) (s : Storage p) (q : RequestObject) (out : OutFile) (before partial new : Bytes)
      → g.output_file ≡ some out
      → out.good ≡ true
      → s.disk out.file_info.file_name ≡ some (before ++ partial)
      → is_request q ≡ false
      → q.message.chunk ≡ some (chunk_of new (length before))
      → handle_response g q s ≡ after_write g q (after_chunk s out before partial new)
  unfolding handle_response after_chunk
  handle_response-chunk g s q out before partial new o k d a c =
      ground (arith, write-written s out (before ++ partial) new (length before) d)

  after_write-more :
      (g : GetFile) (q : RequestObject) (out : OutFile) (s : Storage p) (session : Session)
      → q.connection ≡ to_session session
      → out.position < g.file_size
      → after_write g q (out, s)
        ≡ some (
          record (set_task
              (record g { output_file = some out })
              (notify finished (extend (record g { output_file = some out })).task)) {
                reads = g.reads ++ session ∷ [];
              },
          s,
        )
  unfolding after_write
  after_write-more g q out s session c h = ground arith

  after_write-last :
      (g : GetFile) (q : RequestObject) (out : OutFile) (info : FileInfo) (s s1 : Storage p)
      → g.file_info ≡ some info
      → g.file_size ≤ out.position
      → finalize_file s info ≡ some (true, s1)
      → after_write g q (out, s) ≡ some (stop (record g { output_file = some out }) done, s1)
  unfolding after_write
  after_write-last g q out info s s1 c h f = ground arith

  finished_storage : Storage p → FileInfo → Bytes → Storage p
  finished_storage s info contents = record s {
    blocked_files = unblock info.file_name s.blocked_files;
    files =
        s.files
        ++ record {
          file_name = info.file_name;
          sha256sum = p.sha256_from_file contents;
          file_size = length contents;
          offset = 0;
        }
          ∷ [];
    database = p.delete_row s.database info.file_name;
  }

  finalize_file-finished :
      (s : Storage p) (info : FileInfo) (contents : Bytes)
      → exists_internal s info.file_name ≡ false
      → is_blocked_internal s info.file_name ≡ true
      → s.disk info.file_name ≡ some contents
      → p.sha256_from_file contents ≡ info.sha256sum
      → finalize_file s info ≡ some (true, finished_storage s info contents)
  unfolding finalize_file finished_storage exists_internal is_blocked_internal
  finalize_file-finished s info contents x b d h =
      ground (arith, bytes_eq_iff (p.sha256_from_file contents) info.sha256sum)

  -- A chunk that is not the last: the object reads on.
  pub handle_response-more :
      (info : FileInfo) (before new rest : Bytes) (g : GetFile) (s : Storage p) (q : RequestObject)
      (session : Session)
      → IsReceiving info before (new ++ rest) g s
      → 0 < length rest
      → is_request q ≡ false
      → q.message.chunk ≡ some (chunk_of new (length before))
      → q.connection ≡ to_session session
      → (d : GetFile) × (s1 : Storage p) × (handle_response g q s ≡ some (d, s1))
        × IsReceiving info (before ++ new) rest d s1
        × (d.task.is_done ≡ g.task.is_done)
        × (d.reads ≡ g.reads ++ session ∷ [])
  unfolding after_chunk exists_internal is_blocked_internal
  handle_response-more info before new rest g s q session h more a c k = (
    d,
    s1,
    handle_response-chunk g s q h.out before h.partial new h.output h.good here a c
        ∙ after_write-more g q moved s1 session k in_time,
    record {
      out = moved;
      partial = drop (length new) h.partial;
      output = refl;
      good = h.good;
      target = h.target;
      named = h.named;
      size = h.size ∙ ap length (sym (append_assoc before new rest));
      sum = ap p.sha256_from_file (append_assoc before new rest) ∙ h.sum;
      disk = update-same s.disk h.out.file_info.file_name info.file_name _ h.named ∙ ap some joined;
      short = omega (arith, length-drop (length new) h.partial, length-append new rest, h.short);
      unfinished = h.unfinished;
      blocked = h.blocked;
    },
    refl,
    refl,
  )
    where
      moved : OutFile
      moved = (after_chunk s h.out before h.partial new).0

      s1 : Storage p
      s1 = (after_chunk s h.out before h.partial new).1

      d : GetFile
      d =
          record (set_task (record g { output_file = some moved })
            (notify finished (extend (record g { output_file = some moved })).task)) {
              reads = g.reads ++ session ∷ [];
            }

      here : s.disk h.out.file_info.file_name ≡ some (before ++ h.partial)
      here = ap s.disk h.named ∙ h.disk

      in_time : moved.position < g.file_size
      in_time = omega (arith, h.size, length-append before (new ++ rest), length-append new rest)

      joined :
          write_at (before ++ h.partial) (length before) new
          ≡ (before ++ new) ++ drop (length new) h.partial
      joined =
          write_at-append before h.partial new
          ∙ sym (append_assoc before new (drop (length new) h.partial))

  -- The last chunk: the file is complete and shared, and the object ends as done.
  pub handle_response-last :
      (info : FileInfo) (before new : Bytes) (g : GetFile) (s : Storage p) (q : RequestObject)
      → IsReceiving info before new g s
      → is_request q ≡ false
      → q.message.chunk ≡ some (chunk_of new (length before))
      → (d : GetFile) × (s1 : Storage p) × (handle_response g q s ≡ some (d, s1))
        × (s1.disk info.file_name ≡ some (before ++ new))
        × (exists_internal s1 info.file_name ≡ true)
        × (is_blocked_internal s1 info.file_name ≡ false)
        × (d.task.state ≡ done)
        × (d.task.is_done ≡ true)
  unfolding after_chunk finished_storage exists_internal is_blocked_internal request_destruction
  handle_response-last info before new g s q h a c = (
    stop (record g { output_file = some moved }) done,
    finished_storage s1 info (before ++ new),
    handle_response-chunk g s q h.out before h.partial new h.output h.good here a c
        ∙ after_write-last g q moved info s1 _ h.target in_time
            (finalize_file-finished s1 info (before ++ new) h.unfinished h.blocked whole h.sum),
    whole,
    any_file-last s.files info.file_name _ refl,
    any_blocked-unblock info.file_name s.blocked_files,
    refl,
    refl,
  )
    where
      moved : OutFile
      moved = (after_chunk s h.out before h.partial new).0

      s1 : Storage p
      s1 = (after_chunk s h.out before h.partial new).1

      here : s.disk h.out.file_info.file_name ≡ some (before ++ h.partial)
      here = ap s.disk h.named ∙ h.disk

      in_time : g.file_size ≤ moved.position
      in_time = omega (arith, h.size, length-append before new)

      nothing : drop (length new) h.partial ≡ []
      nothing = drop_all (length new) h.partial h.short

      joined : write_at (before ++ h.partial) (length before) new ≡ before ++ new
      joined =
          write_at-append before h.partial new
          ∙ ap (λ r. before ++ (new ++ r)) nothing
          ∙ ap (◌++◌ before) (append-nil new)

      whole : s1.disk info.file_name ≡ some (before ++ new)
      whole = update-same s.disk h.out.file_info.file_name info.file_name _ h.named ∙ ap some joined
