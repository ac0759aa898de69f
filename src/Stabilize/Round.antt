-- ===== src/Stabilize/Round.antt =====
-- A whole round of stabilisation between a node and its successor: the objects that src/stabilize.cpp
-- starts, the objects that answer them at the other node, and the notifications on the way back.
use peerpaste.Base.{if◌then◌else◌, ℕ, suc, Bool, true, false, Option, none, some, List, [], ◌∷◌}
use peerpaste.Peer.{Peer}
use peerpaste.Request.{RequestObject, Session, MessageType, Event}
use peerpaste.Task
use peerpaste.Task.{Task, MessageState, done}
use peerpaste.Notification
use peerpaste.Notification.{Notification}
use peerpaste.PeerLists.PredAndSuccList
use peerpaste.Storage.{Platform, Storage}
use peerpaste.Factory.{Place, create_from_request, report, call}
use peerpaste.GetFile.Transfer.{arrived}
use peerpaste.GetFile.Fetch.{last_asked}
use peerpaste.Broadcast.Quiet.{first_sent}
use peerpaste.Stabilize
use peerpaste.Stabilize.{Stabilize, Child}

infixl 5 ◌>>=◌
abbrev pub ◌>>=◌ : {A B : Type 0} → Option A → (A → Option B) → Option B
none >>= k = none
some a >>= k = k a

abbrev pub front : {A : Type 0} → List A → Option A
front [] = none
front (x ∷ xs) = some x

-- The task of a child, which draws on the node's source of identifiers.
abbrev pub child_task : {A : Type 0} → ℕ → MessageType → Stabilize → Task A
child_task n type s = Task.new n type none s.task.source s.task.table

-- What `Stabilize` reads of its newest child, which is `t` by now.
abbrev pub reported : {A : Type 0} → Task A → Option (Option (List Peer)) → Stabilize → Stabilize
reported t promise s = elim (s.dependencies) [
  | [] ↦ s
  | c ∷ cs ↦ record s {
    task = record (s.task) { source = t.source };
    dependencies = record c { is_done = t.is_done; state = t.state; promise = promise } ∷ cs;
  }
]

abbrev pub is_notification : Child → Bool
is_notification c = elim (c.type) [ MessageType.notification ↦ true | _ ↦ false ]

module _ {p : Platform} where
  -- What a node makes of a request that comes over `session`: what it tells, and the node after it.
  unfoldable pub serve : Place → Storage p → Session → RequestObject → Option (List Event × Place)
  serve b storage session r = create_from_request b (arrived session r) >>= λ o.
      call o storage >>= λ ran. some (
        (report ran.0).events,
        record {
          object = suc b.object;
          source = (report ran.0).source;
          table = (report ran.0).table;
        },
      )

  -- From the notification on, which the node at `b` may leave without an answer.
  unfoldable pub notify_round :
      ℕ → Session → Session → Stabilize → Place → Storage p → Option (Stabilize × Place)
  unfolding serve
  notify_round n at_b at_a s b storage =
      let m : Notification =
        Notification.create_request (child_task n MessageType.notification s) in
      last_asked m.events >>= λ r. serve b storage at_b r >>= λ served. elim (first_sent served.0) [
        | none ↦ some (s, served.1)
        | some a ↦
            Stabilize.handle_notification
              (reported (Notification.handle_response m (arrived at_a a)) none s)
            >>= λ ended. some (ended, served.1)
      ]

  -- The round of `s` with the node at `b`, which is asked over `at_b` and answers over `at_a`. If the
  -- answer leads to another node, the round ends with the question to it.
  unfoldable pub round :
      ℕ → Session → Session → Stabilize → Place → Storage p → Option (Stabilize × Place)
  unfolding serve notify_round
  round n at_b at_a s b storage = Stabilize.create_request s >>= λ s1.
      front s1.dependencies >>= λ d.
      PredAndSuccList.create_request
        (record { task = child_task n d.type s1; target = d.target; has_table = false })
      >>= λ c. last_asked c.task.events >>= λ r. serve b storage at_b r >>= λ served.
          first_sent served.0 >>= λ a. PredAndSuccList.handle_response c (arrived at_a a) >>= λ c1.
          Stabilize.handle_notification (reported c1.task c1.task.promise s1) >>= λ s2.
          front s2.dependencies >>= λ e.
          (if is_notification e
            then notify_round (suc n) at_b at_a s2 served.1 storage
            else some (s2, served.1))
