-- ===== src/GetFile/Sending.antt =====
-- The serving side: one chunk after the other.
use mathlib.Core.List.{append_assoc}
use peerpaste.Base.{
  leb, if◌then◌else◌, length, length-append, take, drop, take-append-drop, length-take, drop-append,
  take_all, Bytes, ℕ, ◌+◌, ◌<◌, ◌≡◌, refl, sym, ap, ap₂, ◌∙◌, true, false, Option, none, some, List,
  [], ◌∷◌, ◌++◌, arith,
}
use peerpaste.Header.{generate_response_header}
use peerpaste.Message.{
  FileChunk, FileInfo, default_buf_size, file_chunk, generate_response, generate_transaction_id,
}
use peerpaste.Request.{RequestObject, Event, send, send_with, finished, is_request, set_message}
use peerpaste.Storage.Stream.{InFile, read, open_at_end}
use peerpaste.Storage.{Platform, Storage, exists_internal, read_file}
use peerpaste.GetFile.{
  GetFile, write_buffer, after_read, write_next, write_file, serving, handle_request,
}

-- What went out last, if it was sent without a handler.
abbrev pub last_sent : List Event → Option RequestObject
last_sent [] = none
last_sent (send r ∷ []) = some r
last_sent (send_with r h ∷ []) = none
last_sent (finished ∷ []) = none
last_sent (e ∷ f ∷ es) = last_sent (f ∷ es)

pub last_sent-append :
    (es : List Event) (r : RequestObject) → last_sent (es ++ send r ∷ []) ≡ some r
last_sent-append [] r = refl
last_sent-append (send q ∷ []) r = refl
last_sent-append (send_with q h ∷ []) r = refl
last_sent-append (finished ∷ []) r = refl
last_sent-append (send q ∷ f ∷ es) r = last_sent-append (f ∷ es) r
last_sent-append (send_with q h ∷ f ∷ es) r = last_sent-append (f ∷ es) r
last_sent-append (finished ∷ f ∷ es) r = last_sent-append (f ∷ es) r

-- Where the serving object stands: the bytes `before` are out, the chunk after them is the last that it
-- sent, and the rest of `after` is still to be read.
pub record IsSending (before after : Bytes) (g : GetFile) (q : RequestObject) : Type 0 where
  pub r : RequestObject
  pub asked : g.task.request ≡ some r
  pub contents : g.source_file.contents ≡ before ++ after
  pub position : g.source_file.position ≡ length before + length (take default_buf_size after)
  pub sound : g.source_file.sound ≡ true
  pub fail :
      g.source_file.fail
      ≡ (if leb default_buf_size (length (take default_buf_size after)) then false else true)
  pub sent : last_sent g.task.events ≡ some q
  pub answers : is_request q ≡ false
  pub correlated : q.message.header.correlational_id ≡ r.message.header.transaction_id
  pub chunk :
      q.message.chunk
      ≡ some (record {
        size = length (take default_buf_size after);
        offset = length before;
        data_ = take default_buf_size after;
      })

-- The stream after a read behind `before`.
abbrev moved : Bytes → Bytes → InFile → InFile
moved before after f = record f {
  position = length before + length (take default_buf_size after);
  eof = if leb default_buf_size (length (take default_buf_size after)) then false else true;
  fail = if leb default_buf_size (length (take default_buf_size after)) then false else true;
}

read-moved :
    (before after : Bytes) (f : InFile)
    → f.contents ≡ before ++ after
    → f.position ≡ length before
    → f.sound ≡ true
    → read default_buf_size f ≡ (take default_buf_size after, moved before after f)
unfolding read
read-moved before after f c p s = rw (s, c, p, read) (rw (drop-append before after) refl)

-- The response with the chunk, and the object after it.
abbrev response : Bytes → Bytes → GetFile → RequestObject → RequestObject
response before after g r =
    record (set_message r (
      generate_transaction_id g.task.source (record (generate_response r.message) {
        chunk = some (
            file_chunk (take default_buf_size after) (length (take default_buf_size after))
              (length before));
      }))) { on_write_handler = true }

abbrev chunk_with : ℕ → ℕ → Bytes → Option FileChunk
chunk_with size offset bytes = some (record { size = size; offset = offset; data_ = bytes })

after_read-request :
    (g : GetFile) (r : RequestObject) (before after : Bytes)
    → g.task.request ≡ some r
    → after_read g (length before) (take default_buf_size after, moved before after g.source_file)
      ≡ some (
          write_buffer
            (record g { source_file = moved before after g.source_file })
            r
            (take default_buf_size after)
            (length before))
unfolding after_read
after_read-request g r before after a = ground arith

write_next-good :
    (g : GetFile)
    → g.source_file.fail ≡ false
    → write_next g ≡ after_read g g.source_file.position (read default_buf_size g.source_file)
unfolding write_next
write_next-good g h = ground arith

-- With a good stream behind `before`, the next chunk goes out.
pub write_next-IsSending :
    (before after : Bytes) (g : GetFile) (r : RequestObject)
    → g.task.request ≡ some r
    → g.source_file.contents ≡ before ++ after
    → g.source_file.position ≡ length before
    → g.source_file.sound ≡ true
    → g.source_file.fail ≡ false
    → (u : GetFile) × (q : RequestObject) × (write_next g ≡ some u) × IsSending before after u q
unfolding write_buffer generate_response generate_response_header generate_transaction_id file_chunk
write_next-IsSending before after g r a c p s h = (
  u,
  response before after g r,
  goes,
  record {
    r = r;
    asked = a;
    contents = c;
    position = refl;
    sound = s;
    fail = refl;
    sent = last_sent-append g.task.events (response before after g r);
    answers = refl;
    correlated = refl;
    chunk =
        ap (chunk_with (length (take default_buf_size after)) (length before))
          (take_all _ (take default_buf_size after) (omega arith));
  },
)
  where
    u : GetFile
    u =
        write_buffer (record g { source_file = moved before after g.source_file }) r
          (take default_buf_size after) (length before)

    goes : write_next g ≡ some u
    goes =
        write_next-good g h
        ∙ ap₂ (after_read g) p (read-moved before after g.source_file c p s)
        ∙ after_read-request g r before after a

handle_request-serving :
    {p : Platform} (g : GetFile) (t : Storage p) (r : RequestObject) (info : FileInfo)
    (infos : List FileInfo) (contents : Bytes)
    → g.task.request ≡ some r
    → r.message.files ≡ info ∷ infos
    → exists_internal t info.file_name ≡ true
    → t.disk info.file_name ≡ some contents
    → handle_request g t ≡ write_next (serving g (open_at_end contents) info.offset)
unfolding handle_request read_file write_file exists_internal
handle_request-serving g t r info infos contents a f x d = ground arith

-- A request for a file that is shared and readable, from an offset within the file on: the first chunk
-- goes out.
pub handle_request-IsSending :
    {p : Platform} (before after : Bytes) (g : GetFile) (t : Storage p) (r : RequestObject)
    (info : FileInfo) (infos : List FileInfo)
    → g.task.request ≡ some r
    → r.message.files ≡ info ∷ infos
    → info.offset ≡ length before
    → exists_internal t info.file_name ≡ true
    → t.disk info.file_name ≡ some (before ++ after)
    → (u : GetFile) × (q : RequestObject) × (handle_request g t ≡ some u)
      × IsSending before after u q
handle_request-IsSending before after g t r info infos a f o x d =
    let f1 : GetFile = serving g (open_at_end (before ++ after)) info.offset in
    let (u, q, goes, sending) = write_next-IsSending before after f1 r a refl o refl refl in
    (u, q, handle_request-serving g t r info infos (before ++ after) a f x d ∙ goes, sending)

pub split_after :
    (before after : Bytes)
    → (before ++ take default_buf_size after) ++ drop default_buf_size after ≡ before ++ after
split_after before after =
    append_assoc before (take default_buf_size after) (drop default_buf_size after)
    ∙ ap (◌++◌ before) (take-append-drop default_buf_size after)

-- After a chunk that is not the last, the server's next chunk is ready.
pub next-IsSending :
    (before after : Bytes) (server : GetFile) (q : RequestObject)
    → IsSending before after server q
    → default_buf_size < length after
    → (u : GetFile) × (q1 : RequestObject) × (write_file server false ≡ some u)
      × IsSending (before ++ take default_buf_size after) (drop default_buf_size after) u q1
unfolding write_file
next-IsSending before after server q h long =
    write_next-IsSending (before ++ take default_buf_size after) (drop default_buf_size after)
      server h.r h.asked (h.contents ∙ sym (split_after before after))
      (h.position ∙ sym (length-append before (take default_buf_size after))) h.sound
      (h.fail ∙ full)
  where
    full :
        (if leb default_buf_size (length (take default_buf_size after)) then false else true)
        ≡ false
    full = ground (arith, length-take default_buf_size after)
