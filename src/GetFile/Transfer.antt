-- ===== src/GetFile/Transfer.antt =====
-- A whole transfer: the serving object's chunks, one after the other, at the asking object.
use peerpaste.Base.{
  ltb, ltb→lt, Bool-cases, length, take, drop, take-append-drop, length-drop, take_all, Bytes, ℕ,
  zero, suc, ◌+◌, ◌≤◌, ◌<◌, ◌≡◌, refl, sym, ap, ◌∙◌, subst, inl, inr, true, false, Option, none,
  some, ◌++◌, arith,
}
use peerpaste.Message.{FileInfo, default_buf_size}
use peerpaste.Request.{RequestObject, Session, unknown, to_session}
use peerpaste.Task.{done}
use peerpaste.Storage.{Platform, Storage, exists_internal}
use peerpaste.GetFile.{GetFile, write_file, handle_response}
use peerpaste.GetFile.Sending.{last_sent, IsSending, split_after, next-IsSending}
use peerpaste.GetFile.Receiving.{IsReceiving, handle_response-more, handle_response-last}
use peerpaste.Storage.Written.{chunk_of}

-- What the other node makes of a message object that comes over `session`.
abbrev pub arrived : Session → RequestObject → RequestObject
arrived session r = record {
  type = unknown;
  message = r.message;
  connection = to_session session;
  on_write_handler = false;
}

not_longer : (a b : ℕ) → ltb a b ≡ false → b ≤ a
not_longer a b h = ground arith

module _ {p : Platform} where
  -- The chunk that `server` sent last reaches `client`, with its storage. If the client has not ended
  -- by that, the server's write handler makes the next chunk.
  unfoldable pub transfer :
      ℕ → Session → GetFile → GetFile → Storage p → Option (GetFile × Storage p)
  transfer zero session server client s = none
  transfer (suc n) session server client s = elim (last_sent server.task.events) [
    | none ↦ none
    | some a ↦ elim (handle_response client (arrived session a) s) [
      | none ↦ none
      | some (client1, s1) ↦ elim (client1.task.is_done) [
        | true ↦ some (client1, s1)
        | false ↦ elim (write_file server false) [
          | none ↦ none
          | some server1 ↦ transfer n session server1 client1 s1
        ]
      ]
    ]
  ]

  transfer-end :
      (n : ℕ) (session : Session) (server client d : GetFile) (s s1 : Storage p) (q : RequestObject)
      → last_sent server.task.events ≡ some q
      → handle_response client (arrived session q) s ≡ some (d, s1)
      → d.task.is_done ≡ true
      → transfer (suc n) session server client s ≡ some (d, s1)
  unfolding transfer
  transfer-end n session server client d s s1 q e h k = ground arith

  transfer-next :
      (n : ℕ) (session : Session) (server server1 client d : GetFile) (s s1 : Storage p)
      (q : RequestObject)
      → last_sent server.task.events ≡ some q
      → handle_response client (arrived session q) s ≡ some (d, s1)
      → d.task.is_done ≡ false
      → write_file server false ≡ some server1
      → transfer (suc n) session server client s ≡ transfer n session server1 d s1
  unfolding transfer
  transfer-next n session server server1 client d s s1 q e h k w = ground arith

  -- The client has ended as done, and its storage shares the whole file.
  pub record HasFile (name contents : Bytes) (g : GetFile) (s : Storage p) : Type 0 where
    pub disk : s.disk name ≡ some contents
    pub shared : exists_internal s name ≡ true
    pub state : g.task.state ≡ done
    pub is_done : g.task.is_done ≡ true

  -- From any stand of a transfer, with more fuel than bytes are missing, the client comes to the file.
  pub transfer-HasFile :
      (n : ℕ) (session : Session) (info : FileInfo) (before after : Bytes) (server client : GetFile)
      (s : Storage p) (q : RequestObject)
      → IsSending before after server q
      → IsReceiving info before after client s
      → client.task.is_done ≡ false
      → length after < n
      → (d : GetFile) × (s1 : Storage p) × (transfer n session server client s ≡ some (d, s1))
        × HasFile info.file_name (before ++ after) d s1
  transfer-HasFile zero session info before after server client s q h k o b = absurd (omega arith)
  transfer-HasFile (suc n) session info before after server client s q h k o b =
      elim (Bool-cases (ltb default_buf_size (length after))) [
        | inl long ↦
            let new : Bytes = take default_buf_size after in
            let rest : Bytes = drop default_buf_size after in
            let more : default_buf_size < length after =
              ltb→lt default_buf_size (length after) long in
            let left : length rest + default_buf_size ≡ length after =
              omega (arith, length-drop default_buf_size after, more) in
            let whole : new ++ rest ≡ after = take-append-drop default_buf_size after in
            let (d, s1, taken, k1, still, reads) =
              handle_response-more info before new rest client s (arrived session q) session
                (subst (λ bs. IsReceiving info before bs client s) (sym whole) k)
                (omega (arith, left, more)) h.answers h.chunk refl in
            let (u, q1, written, h1) = next-IsSending before after server q h more in
            let (e, s2, run, has) =
              transfer-HasFile n session info (before ++ new) rest u d s1 q1 h1 k1 (still ∙ o)
                (omega (arith, left, b)) in
            (
              e,
              s2,
              transfer-next n session server u client d s s1 q h.sent taken (still ∙ o) written
                  ∙ run,
              subst (λ bs. HasFile info.file_name bs e s2) (split_after before after) has,
            )
        | inr short ↦
            let all : take default_buf_size after ≡ after =
              take_all default_buf_size after (not_longer default_buf_size (length after) short) in
            let (d, s1, taken, disk, shared, free, state, ended) =
              handle_response-last info before after client s (arrived session q) k h.answers
                (h.chunk ∙ ap (λ bs. some (chunk_of bs (length before))) all) in
            (
              d,
              s1,
              transfer-end n session server client d s s1 q h.sent taken ended,
              record { disk = disk; shared = shared; state = state; is_done = ended },
            )
      ]
