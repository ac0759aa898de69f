-- ===== src/GetFile/Bounds.antt =====
-- What a serving object may send.
use peerpaste.Base.{
  if◌then◌else◌, length, take, drop, length-take, take_all, Bytes, ℕ, zero, suc, ◌≤◌, ◌≡◌, refl,
  sym, ap, ◌∙◌, subst, ◌⊎◌, inl, inr, Bool, true, false, not, ◌&&◌, Option, none, some, [], ◌∷◌,
  ◌++◌, arith,
}
use peerpaste.Message.{
  FileChunk, default_buf_size, file_chunk, generate_response, generate_transaction_id,
}
use peerpaste.Request.{RequestObject, send, finished, set_message}
use peerpaste.Task.{request_destruction, failed}
use peerpaste.Storage.Stream.{InFile, read}
use peerpaste.GetFile.{GetFile, after_read, write_buffer, write_next}

-- The piece of the file that the chunk says it is.
pub record IsPiece (f : InFile) (c : FileChunk) : Type 0 where
  pub small : c.size ≤ default_buf_size
  pub whole : c.size ≡ length c.data_
  pub place : c.offset ≡ f.position
  pub bytes : c.data_ ≡ take c.size (drop c.offset f.contents)

abbrev pub Sends : GetFile → GetFile → Type 0
Sends g u =
    (q : RequestObject) × (c : FileChunk) × (u.task.events ≡ g.task.events ++ send q ∷ [])
    × (q.message.chunk ≡ some c)
    × IsPiece g.source_file c

take_own_length : (n : ℕ) (xs : Bytes) → take n xs ≡ take (length (take n xs)) xs
take_own_length zero xs = refl
take_own_length (suc n) [] = refl
take_own_length (suc n) (x ∷ xs) = ap (◌∷◌ x) (take_own_length n xs)

-- What a read puts into the buffer is no longer than the buffer, and stands at the position.
abbrev IsRead : ℕ → InFile → Bytes → Type 0
IsRead n f bytes = (length bytes ≤ n) × (bytes ≡ take (length bytes) (drop f.position f.contents))

read-buffer :
    (n : ℕ) (f : InFile)
    → (read n f).0 ≡ (if f.sound then take n (drop f.position f.contents) else [])
unfolding read
read-buffer n f = ground arith

read-IsRead : (n : ℕ) (f : InFile) → IsRead n f (read n f).0
read-IsRead n f = subst (IsRead n f) (sym (read-buffer n f)) (by_test f.sound)
  where
    by_test : (b : Bool) → IsRead n f (if b then take n (drop f.position f.contents) else [])
    by_test true = (omega (arith, length-take n (drop f.position f.contents)), take_own_length n _)
    by_test false = (omega arith, refl)

piece : GetFile → Bytes → FileChunk
piece g buffer = file_chunk buffer (length buffer) g.source_file.position

piece-IsPiece :
    (g : GetFile) (buffer : Bytes)
    → IsRead default_buf_size g.source_file buffer
    → IsPiece g.source_file (piece g buffer)
unfolding piece file_chunk
piece-IsPiece g buffer (small, place) = record {
  small = small;
  whole = ap length (sym (take_all (length buffer) buffer (omega arith)));
  place = refl;
  bytes = take_all (length buffer) buffer (omega arith) ∙ place;
}

-- What is sent in response to `r`.
answer : GetFile → RequestObject → Bytes → RequestObject
answer g r buffer =
    record (set_message r (
      generate_transaction_id g.task.source
        (record (generate_response r.message) { chunk = some (piece g buffer) }))) {
          on_write_handler = true;
        }

-- By how the read has left the stream.
abbrev pub Reads : GetFile → InFile → GetFile → Type 0
Reads g source u =
    ((source.fail && not source.eof ≡ true)
      × (u.task.events ≡ g.task.events ++ finished ∷ [])
      × (u.task.state ≡ failed)
      × (u.task.is_done ≡ true))
    ⊎ ((source.fail && not source.eof ≡ false) × Sends g u)

-- By how the stream stands before the read.
abbrev pub Outcome : GetFile → GetFile → Type 0
Outcome g u =
    ((g.source_file.fail ≡ true) × (u ≡ g))
    ⊎ ((g.source_file.fail ≡ false) × Reads g (read default_buf_size g.source_file).1 u)

after_read-Sends :
    (g u : GetFile) (buffer : Bytes) (source : InFile)
    → IsRead default_buf_size g.source_file buffer
    → after_read g g.source_file.position (buffer, source) ≡ some u
    → Reads g source u
unfolding after_read write_buffer piece answer generate_transaction_id request_destruction
after_read-Sends g u buffer source h e = by_test (source.fail && not source.eof) refl
  where
    by_request :
        (o : Option RequestObject)
        → source.fail && not source.eof ≡ false
        → g.task.request ≡ o
        → Reads g source u
    by_request none t o = absurd (ground arith)
    by_request (some r) t o =
        inr (t, (answer g r buffer, piece g buffer, ground arith, refl, piece-IsPiece g buffer h))

    by_test : (b : Bool) → source.fail && not source.eof ≡ b → Reads g source u
    by_test true t = inl (t, ground arith, ground arith, ground arith)
    by_test false t = by_request g.task.request t refl

-- Each call of `write_file` behind its first test does one of three things, by its stream. With one that
-- has failed before, it changes nothing. With one that is good, but fails in this read and not for the
-- end of the file, it ends the object as failed, and sends nothing. Else it sends one chunk and nothing
-- more: a piece of the file from the stream's position on, of at most 1024 bytes, which tells its place
-- and its length truly.
pub write_next-Sends : (g u : GetFile) → write_next g ≡ some u → Outcome g u
unfolding write_next
write_next-Sends g u e = by_test g.source_file.fail refl
  where
    by_test : (b : Bool) → g.source_file.fail ≡ b → Outcome g u
    by_test true f = inl (f, ground arith)
    by_test false f = inr (
      f,
      after_read-Sends g u (read default_buf_size g.source_file).0
          (read default_buf_size g.source_file).1 (read-IsRead default_buf_size g.source_file)
          (ground arith),
    )
