-- ===== src/GetFile/Fetch.antt =====
-- From the request for a file to the file.
use peerpaste.Base.{
  length, Bytes, ℕ, ◌<◌, ◌≡◌, refl, ◌∙◌, true, false, Option, none, some, List, [], ◌∷◌, ◌++◌,
  arith,
}
use peerpaste.Peer.{Peer}
use peerpaste.Message.{FileInfo}
use peerpaste.Request.{RequestObject, Session, Event, HandlerObject, send, send_with, finished}
use peerpaste.Task.{MessageState, Task, await}
use peerpaste.Storage.Stream.{OutFile}
use peerpaste.Storage.{Platform, Storage, create_file, exists_internal}
use peerpaste.GetFile.{GetFile, from_request, ask_for, create_request, handle_request}
use peerpaste.GetFile.Sending.{handle_request-IsSending}
use peerpaste.GetFile.Receiving.{IsReceiving}
use peerpaste.GetFile.Transfer.{arrived, transfer, HasFile, transfer-HasFile}

-- What went out last, if it was sent with a handler.
abbrev pub last_asked : List Event → Option RequestObject
last_asked [] = none
last_asked (send r ∷ []) = none
last_asked (send_with r h ∷ []) = some r
last_asked (finished ∷ []) = none
last_asked (e ∷ f ∷ es) = last_asked (f ∷ es)

last_asked-append :
    (es : List Event) (r : RequestObject) (h : HandlerObject)
    → last_asked (es ++ send_with r h ∷ []) ≡ some r
last_asked-append [] r h = refl
last_asked-append (send q ∷ []) r h = refl
last_asked-append (send_with q k ∷ []) r h = refl
last_asked-append (finished ∷ []) r h = refl
last_asked-append (send q ∷ f ∷ es) r h = last_asked-append (f ∷ es) r h
last_asked-append (send_with q k ∷ f ∷ es) r h = last_asked-append (f ∷ es) r h
last_asked-append (finished ∷ f ∷ es) r h = last_asked-append (f ∷ es) r h

-- The asking object with its file open, before and after it asks.
abbrev pub prepared : GetFile → FileInfo → OutFile → GetFile
prepared g info out = record g {
  file_info = some info;
  file_size = info.file_size;
  output_file = some out;
}

ask_for-last_asked :
    (g : GetFile) (target : Peer) (info : FileInfo)
    → (r : RequestObject) × (last_asked (ask_for target info g).task.events ≡ some r)
      × (r.message.files ≡ info ∷ [])
unfolding ask_for await
ask_for-last_asked g target info = (_, last_asked-append g.task.events _ _, refl)

module _ {p : Platform} where
  -- `client`, with the storage `s`, makes its request. A new object of the node that has the storage
  -- `t` answers it, and the chunks go over to the client.
  unfoldable pub fetch :
      ℕ
      → Session
      → Task MessageState
      → GetFile
      → Storage p
      → Storage p
      → Option (GetFile × Storage p)
  fetch n session serving client s t =
      let (client1, s1) = create_request client s in
      elim (last_asked client1.task.events) [
        | none ↦ none
        | some r ↦
            elim (handle_request
              (from_request (record serving { request = some (arrived session r) })) t) [
                | none ↦ none
                | some server ↦ transfer n session server client1 s1
              ]
      ]

  create_request-ask_for :
      (g : GetFile) (s s1 : Storage p) (target : Peer) (wanted info : FileInfo) (out : OutFile)
      → g.target ≡ some target
      → g.file_info ≡ some wanted
      → create_file s wanted ≡ (some out, info, s1)
      → create_request g s ≡ (ask_for target info (prepared g info out), s1)
  unfolding create_request
  create_request-ask_for g s s1 target wanted info out e f c = ground arith

  fetch-transfer :
      (n : ℕ) (session : Session) (serving : Task MessageState) (client client1 server : GetFile)
      (s s1 t : Storage p) (r : RequestObject)
      → create_request client s ≡ (client1, s1)
      → last_asked client1.task.events ≡ some r
      → handle_request (from_request (record serving { request = some (arrived session r) })) t
        ≡ some server
      → fetch n session serving client s t ≡ transfer n session server client1 s1
  unfolding fetch
  fetch-transfer n session serving client client1 server s s1 t r c a h = ground arith

  -- The client could open its file, which holds `before` and perhaps something behind it.
  pub fetch-HasFile :
      (n : ℕ) (session : Session) (serving : Task MessageState) (client : GetFile)
      (s s1 t : Storage p) (target : Peer) (wanted info : FileInfo) (out : OutFile)
      (before after : Bytes)
      → client.target ≡ some target
      → client.file_info ≡ some wanted
      → client.task.is_done ≡ false
      → create_file s wanted ≡ (some out, info, s1)
      → IsReceiving info before after (prepared client info out) s1
      → info.offset ≡ length before
      → exists_internal t info.file_name ≡ true
      → t.disk info.file_name ≡ some (before ++ after)
      → length after < n
      → (d : GetFile) × (s2 : Storage p) × (fetch n session serving client s t ≡ some (d, s2))
        × HasFile info.file_name (before ++ after) d s2
  unfolding ask_for await from_request
  fetch-HasFile n session serving client s s1 t target wanted info out before after e f i c k o x d
        b =
      let client1 : GetFile = ask_for target info (prepared client info out) in
      let (r, asks, files) = ask_for-last_asked (prepared client info out) target info in
      let asked : GetFile = from_request (record serving { request = some (arrived session r) }) in
      let (server, q, serves, sending) =
        handle_request-IsSending before after asked t (arrived session r) info [] refl files o x
          d in
      let receiving : IsReceiving info before after client1 s1 = record {
        out = k.out;
        partial = k.partial;
        output = k.output;
        good = k.good;
        target = k.target;
        named = k.named;
        size = k.size;
        sum = k.sum;
        disk = k.disk;
        short = k.short;
        unfinished = k.unfinished;
        blocked = k.blocked;
      } in
      let (done_client, s2, runs, has) =
        transfer-HasFile n session info before after server client1 s1 q sending receiving i b in
      (
        done_client,
        s2,
        fetch-transfer n session serving client client1 server s s1 t r
              (create_request-ask_for client s s1 target wanted info out e f c) asks serves
            ∙ runs,
        has,
      )
