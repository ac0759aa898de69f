-- ===== src/Broadcast/Quiet.antt =====
-- What a node that hears of a list of files sends: to the other nodes of the ring, one message at most.
use peerpaste.Base.{
  if◌then◌else◌, ◌≡◌, refl, ◌∙◌, subst, ◌⊎◌, inl, inr, Bool, true, false, Option, none, some, List,
  [], ◌∷◌, ◌++◌, arith,
}
use peerpaste.Peer.{Peer}
use peerpaste.Message.{FileInfo}
use peerpaste.Request.{RequestObject, Event, HandlerObject, send, send_with, finished}
use peerpaste.Message.{create_request, generate_transaction_id}
use peerpaste.Table.{try_get_self, try_get_successor}
use peerpaste.Task.{MessageState, request_destruction, failed, done}
use peerpaste.GetFile.{GetFile}
use peerpaste.Storage.{Platform, Storage, exists_internal}
use peerpaste.Broadcast.{
  BroadcastFilelist, relay, handle_request_notification, handle_notification, known, origin,
  pass_on, forward, settle, fetch_file, fetch_missing, take_list, handle_request, looked_self,
  looked_successor,
}

-- The first request that is sent without a handler: what the object itself sends. The requests of its
-- children have handlers.
abbrev pub first_sent : List Event → Option RequestObject
first_sent [] = none
first_sent (send r ∷ es) = some r
first_sent (send_with r h ∷ es) = first_sent es
first_sent (finished ∷ es) = first_sent es

first_sent-send_with :
    (es : List Event) (r : RequestObject) (h : HandlerObject)
    → first_sent (es ++ send_with r h ∷ []) ≡ first_sent es
first_sent-send_with [] r h = refl
first_sent-send_with (send q ∷ es) r h = refl
first_sent-send_with (send_with q k ∷ es) r h = first_sent-send_with es r h
first_sent-send_with (finished ∷ es) r h = first_sent-send_with es r h

first_sent-finished : (es : List Event) → first_sent (es ++ finished ∷ []) ≡ first_sent es
first_sent-finished [] = refl
first_sent-finished (send q ∷ es) = refl
first_sent-finished (send_with q k ∷ es) = first_sent-finished es
first_sent-finished (finished ∷ es) = first_sent-finished es

first_sent-send :
    (es : List Event) (r : RequestObject)
    → first_sent es ≡ none
    → first_sent (es ++ send r ∷ []) ≡ some r
first_sent-send [] r e = refl
first_sent-send (send q ∷ es) r e = absurd (ground arith)
first_sent-send (send_with q k ∷ es) r e = first_sent-send es r e
first_sent-send (finished ∷ es) r e = first_sent-send es r e

abbrev sent_by : BroadcastFilelist → Option RequestObject
sent_by b = first_sent b.task.events

handle_notification-first_sent :
    (b : BroadcastFilelist) → sent_by (handle_notification b) ≡ sent_by b
unfolding handle_notification request_destruction
handle_notification-first_sent b = ground (arith, first_sent-finished b.task.events)

-- Whatever a child tells, nothing is sent to the ring.
relay-first_sent : (es : List Event) (b : BroadcastFilelist) → sent_by (relay es b) ≡ sent_by b
unfolding relay handle_request_notification
relay-first_sent [] b = refl
relay-first_sent (send r ∷ es) b = relay-first_sent es b
relay-first_sent (send_with r h ∷ es) b =
    relay-first_sent es (handle_request_notification b r h) ∙ first_sent-send_with b.task.events r h
relay-first_sent (finished ∷ es) b =
    relay-first_sent es (handle_notification b) ∙ handle_notification-first_sent b

-- The node passes `r` on as `q`: it knows itself, it had not heard of the list, and adds itself to
-- those who have.
pub record PassesOn (self : Peer) (r q : RequestObject) : Type 0 where
  pub unheard : known self r.message.peers ≡ false
  pub peers : q.message.peers ≡ r.message.peers ++ self ∷ []
  pub files : q.message.files ≡ r.message.files

module _ {p : Platform} where
  fetch_file-first_sent :
      (target : Peer) (file : FileInfo) (b : BroadcastFilelist) (s : Storage p)
      → sent_by (fetch_file target file b s).0 ≡ sent_by b
  unfolding fetch_file
  fetch_file-first_sent target file b s = relay-first_sent _ _

  fetch_missing-first_sent :
      (target : Peer) (files : List FileInfo) (b : BroadcastFilelist) (s : Storage p)
      → sent_by (fetch_missing target files b s).0 ≡ sent_by b
  unfolding fetch_missing
  fetch_missing-first_sent target [] b s = refl
  fetch_missing-first_sent target (file ∷ files) b s =
      by_test (exists_internal s file.file_name) (fetch_missing-first_sent target files)
    where
      by_test :
          (t : Bool)
          → ((c : BroadcastFilelist) (u : Storage p)
              → sent_by (fetch_missing target files c u).0 ≡ sent_by c)
          → sent_by
              (fetch_missing target files
                (if t then (b, s) else fetch_file target file b s).0
                (if t then (b, s) else fetch_file target file b s).1).0
            ≡ sent_by b
      by_test true rest = rest b s
      by_test false rest =
          rest (fetch_file target file b s).0 (fetch_file target file b s).1
          ∙ fetch_file-first_sent target file b s

settle-first_sent :
    (state : MessageState) (b : BroadcastFilelist) → sent_by (settle state b) ≡ sent_by b
unfolding request_destruction
settle-first_sent state b = by_children b.dependencies
  where
    by_children :
        (gs : List GetFile) → sent_by (settle state (record b { dependencies = gs })) ≡ sent_by b
    by_children [] = first_sent-finished b.task.events
    by_children (g ∷ gs) = refl

-- What became of a node that had sent nothing: still nothing is sent, or the request is passed on.
pub data Outcome (self : Option Peer) (r : RequestObject) (b : BroadcastFilelist) : Type 0 where
  silent : sent_by b ≡ none → Outcome self r b
  passes_on :
      (node : Peer) (q : RequestObject)
      → self ≡ some node
      → sent_by b ≡ some q
      → PassesOn node r q
      → Outcome self r b

pass_on-first_sent :
    (target : Peer) (peers : List Peer) (files : List FileInfo) (b : BroadcastFilelist)
    → sent_by b ≡ none
    → (q : RequestObject) × (sent_by (pass_on target peers files b) ≡ some q)
      × (q.message.peers ≡ peers)
      × (q.message.files ≡ files)
unfolding pass_on create_request generate_transaction_id
pass_on-first_sent target peers files b e = (_, first_sent-send b.task.events _ e, refl, refl)

forward-first_sent :
    (peers : List Peer) (files : List FileInfo) (b : BroadcastFilelist)
    → sent_by b ≡ none
    → (sent_by (forward peers files b) ≡ none)
      ⊎ (q : RequestObject) × (sent_by (forward peers files b) ≡ some q)
        × (q.message.peers ≡ peers)
        × (q.message.files ≡ files)
unfolding forward
forward-first_sent peers files b e = by_successor (try_get_successor b.task.table).0
  where
    next : Option Peer → BroadcastFilelist
    next o = elim o as (λ _. BroadcastFilelist) [
      | none ↦ settle failed (looked_successor b)
      | some target ↦ settle done (pass_on target peers files (looked_successor b))
    ]

    by_successor :
        (o : Option Peer)
        → (sent_by (next o) ≡ none)
          ⊎ (q : RequestObject) × (sent_by (next o) ≡ some q)
            × (q.message.peers ≡ peers)
            × (q.message.files ≡ files)
    by_successor none = inl (settle-first_sent failed (looked_successor b) ∙ e)
    by_successor (some target) =
        let (q, f, ps, fs) = pass_on-first_sent target peers files (looked_successor b) e in
        inr
          (q, settle-first_sent done (pass_on target peers files (looked_successor b)) ∙ f, ps, fs)

module _ {p : Platform} where
  take_list-Outcome :
      (self : Peer) (r : RequestObject) (b : BroadcastFilelist) (s : Storage p)
      → sent_by b ≡ none
      → known self r.message.peers ≡ false
      → Outcome (some self) r (take_list self r.message.peers r.message.files b s).0
  unfolding take_list
  take_list-Outcome self r b s e k =
      elim (forward-first_sent (r.message.peers ++ self ∷ []) r.message.files _ (
        fetch_missing-first_sent (origin r.message.peers self) r.message.files
          (record b { flag = false }) s
        ∙ e)) [
          | inl n ↦ silent n
          | inr (q, f, ps, fs) ↦
              passes_on self q refl f (record { unheard = k; peers = ps; files = fs })
        ]

  pub handle_request-Outcome :
      (b : BroadcastFilelist) (s : Storage p) (r : RequestObject)
      → b.task.request ≡ some r
      → sent_by b ≡ none
      → Outcome b.task.table.self r (handle_request b s).0
  unfolding handle_request try_get_self request_destruction
  handle_request-Outcome b s r e n = by_self b.task.table.self refl
    where
      by_known :
          (self : Peer) (t : Bool)
          → b.task.table.self ≡ some self
          → known self r.message.peers ≡ t
          → Outcome (some self) r (handle_request b s).0
      by_known self true i k = silent (ground (arith, first_sent-finished b.task.events))
      by_known self false i k =
          subst (λ c. Outcome (some self) r c) (rw (e, i, k) refl)
            (take_list-Outcome self r (looked_self b) s n k)

      by_self : (o : Option Peer) → b.task.table.self ≡ o → Outcome o r (handle_request b s).0
      by_self none i = silent (ground (arith, first_sent-finished b.task.events))
      by_self (some self) i = by_known self (known self r.message.peers) i refl
