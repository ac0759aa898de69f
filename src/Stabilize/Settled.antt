-- ===== src/Stabilize/Settled.antt =====
-- What a round of stabilisation comes to, where nothing stands between a node and its successor.
use peerpaste.Base.{
  if◌then◌else◌, bytes_eq, ℕ, suc, ◌≡◌, refl, ap, ◌∙◌, Bool, true, false, Option, none, some, List,
  [], ◌∷◌,
}
use peerpaste.Peer.{Peer}
use peerpaste.Ring.{between}
use peerpaste.Request.{RequestObject, Session, MessageType, send, finished}
use peerpaste.Table.{succ_list_size, resize, replace_successor_list}
use peerpaste.Task
use peerpaste.Task.{
  Task, MessageState, ask, await, reply, set_promise, request_destruction, done, set_table,
  end_with, count_up,
}
use peerpaste.Notification
use peerpaste.Notification.{Notification}
use peerpaste.PeerLists.Common.{PeerListRequest}
use peerpaste.PeerLists.PredAndSuccList
use peerpaste.PeerLists.Laws.{asked, handle_response-asked}
use peerpaste.Storage.{Platform, Storage}
use peerpaste.Factory.{Place}
use peerpaste.GetFile.Transfer.{arrived}
use peerpaste.GetFile.Fetch.{last_asked}
use peerpaste.Stabilize
use peerpaste.Stabilize.{Stabilize, Child}
use peerpaste.Stabilize.Round.{
  ◌>>=◌, child_task, reported, front, is_notification, serve, notify_round, round,
}
use peerpaste.Stabilize.Answers.{serve-get_pred_and_succ_list, serve-notify}
use peerpaste.Stabilize.Asking.{
  Settling, asking, create_request-asking, question, create_request-question, notification_of,
  create_request-notification_of, adopted, handle_notification-adopted, handle_notification-ended,
}

bind : {A B : Type 0} {m : Option A} {a : A} (k : A → Option B) → m ≡ some a → (m >>= k) ≡ k a
bind k e = ap (λ x. x >>= k) e

-- What the round leaves: the successor's list behind the successor, the flag down, and the object done.
pub record IsSettled (u : Stabilize) (l : List Peer) : Type 0 where
  pub successors : u.task.table.successor_list ≡ resize succ_list_size l
  pub flag : u.stabilize_flag ≡ some false
  pub state : u.task.state ≡ done
  pub is_done : u.task.is_done ≡ true

module _ {p : Platform} where
  -- The steps of a notification, one after the other.
  notify_round-some :
      (n : ℕ) (at_b at_a : Session) (s ended : Stabilize) (b after : Place) (storage : Storage p)
      (m : Notification) (r a : RequestObject)
      → Notification.create_request (child_task n MessageType.notification s) ≡ m
      → last_asked m.events ≡ some r
      → serve b storage at_b r ≡ some (send a ∷ finished ∷ [], after)
      → Stabilize.handle_notification
          (reported (Notification.handle_response m (arrived at_a a)) none s)
        ≡ some ended
      → notify_round n at_b at_a s b storage ≡ some (ended, after)
  unfolding notify_round
  notify_round-some n at_b at_a s ended b after storage m r a made asks serves ends =
      bind _ (ap (λ x. last_asked x.events) made ∙ asks)
      ∙ (bind _ serves
          ∙ (bind _ (
              ap
                (λ x.
                  Stabilize.handle_notification
                    (reported (Notification.handle_response x (arrived at_a a)) none s))
                made
              ∙ ends)))

  notify_round-IsSettled :
      (n : ℕ) (at_b at_a : Session) (s : Stabilize) (b : Place) (storage : Storage p)
      (self succ node q : Peer) (rest ps : List Peer)
      → Settling s self succ ps
      → bytes_eq self.id [] ≡ false
      → b.table.self ≡ some node
      → b.table.predecessor ≡ some q
      → (u : Stabilize) × (after : Place) × (notify_round n at_b at_a
            (adopted s (succ ∷ rest))
            b
            storage
          ≡ some (u, after))
        × IsSettled u (succ ∷ rest)
        × (after.table.predecessor ≡ some (if between q.id self.id node.id then self else q))
        × (after.table.successor_list ≡ b.table.successor_list)
  unfolding notify_round adopted Stabilize.create_notification request_destruction
      Notification.handle_response replace_successor_list
  notify_round-IsSettled n at_b at_a s b storage self succ node q rest ps (k, l) named m e =
      let s2 : Stabilize = adopted s (succ ∷ rest) in
      let (r, made, asks, type, peers) =
        create_request-notification_of n s2 self succ _ (k, refl) named in
      let (a, after, serves, pred, itself, successors) =
        serve-notify b storage at_b r self q node type peers m e in
      let m1 : Notification =
        Notification.handle_response (notification_of n s2 self succ) (arrived at_a a) in
      let s3 : Stabilize = reported m1 none s2 in
      (
        Stabilize.set_task s3 (end_with done s3.task),
        after,
        notify_round-some n at_b at_a s2 (Stabilize.set_task s3 (end_with done s3.task)) b after
            storage (notification_of n s2 self succ) r a made asks serves
            (handle_notification-ended s3 _ s.dependencies refl refl refl refl),
        record { successors = refl; flag = refl; state = refl; is_done = refl },
        pred,
        successors,
      )

  -- The steps up to what the answer leads to.
  round-some :
      (n : ℕ) (at_b at_a : Session) (s s1 s2 : Stabilize) (b served : Place) (storage : Storage p)
      (d e : Child) (ds es : List Child) (c c1 : PeerListRequest) (r a : RequestObject)
      → Stabilize.create_request s ≡ some s1
      → s1.dependencies ≡ d ∷ ds
      → PredAndSuccList.create_request
          (record { task = child_task n d.type s1; target = d.target; has_table = false })
        ≡ some c
      → last_asked c.task.events ≡ some r
      → serve b storage at_b r ≡ some (send a ∷ finished ∷ [], served)
      → PredAndSuccList.handle_response c (arrived at_a a) ≡ some c1
      → Stabilize.handle_notification (reported c1.task c1.task.promise s1) ≡ some s2
      → s2.dependencies ≡ e ∷ es
      → is_notification e ≡ true
      → round n at_b at_a s b storage ≡ notify_round (suc n) at_b at_a s2 served storage
  unfolding round
  round-some n at_b at_a s s1 s2 b served storage d e ds es c c1 r a starts child makes asks serves
        hears goes next last =
      bind _ starts
      ∙ (bind _ (ap front child)
          ∙ (bind _ makes
              ∙ (bind _ asks
                  ∙ (bind _ serves
                      ∙ (bind _ hears
                          ∙ (bind _ goes
                              ∙ (bind _ (ap front next)
                                  ∙ ap
                                      (λ t.
                                        if t
                                        then notify_round (suc n) at_b at_a s2 served storage
                                        else some (s2, served))
                                      last)))))))

  -- The node `self` stabilizes with its successor, which is `node` to itself, and knows a predecessor
  -- that does not lie between the two and at least one successor. Then the round comes to its end: the
  -- node has its successor and behind it the successor's list, cut or filled up to ten, its flag is
  -- down and its object done; and the successor has the node for its predecessor, if the node lies
  -- behind the one that it had, and else still the latter, with its own list as it was.
  pub round-IsSettled :
      (n : ℕ) (at_b at_a : Session) (s : Stabilize) (b : Place) (storage : Storage p)
      (self succ node q first : Peer) (rest ps : List Peer) (flag : Bool)
      → s.task.table.self ≡ some self
      → s.task.table.successor_list ≡ succ ∷ ps
      → s.stabilize_flag ≡ some flag
      → bytes_eq self.id [] ≡ false
      → b.table.self ≡ some node
      → b.table.predecessor ≡ some q
      → b.table.successor_list ≡ first ∷ rest
      → between self.id q.id succ.id ≡ false
      → (u : Stabilize) × (after : Place) × (round n at_b at_a s b storage ≡ some (u, after))
        × IsSettled u (succ ∷ first ∷ rest)
        × (after.table.predecessor ≡ some (if between q.id self.id node.id then self else q))
        × (after.table.successor_list ≡ first ∷ rest)
  unfolding adopted Stabilize.create_notification asked request_destruction question ask await
      Task.new
  round-IsSettled n at_b at_a s b storage self succ node q first rest ps flag k l f named m e g
        not_between =
      let s1 : Stabilize = asking s succ in
      let (r, makes, asks, type) = create_request-question n s1 succ in
      let (a, served, serves, response, peers, same) =
        serve-get_pred_and_succ_list b storage at_b r q type e in
      let c1 : PeerListRequest = asked (question n s1 succ) a.message.peers in
      let heard : Stabilize = reported c1.task c1.task.promise s1 in
      let told : some (some a.message.peers) ≡ some (some (q ∷ first ∷ rest)) =
        ap (λ x. some (some x)) (peers ∙ ap (λ x. q ∷ x) g) in
      let goes : Stabilize.handle_notification heard ≡ some (adopted heard (succ ∷ first ∷ rest)) =
        handle_notification-adopted heard _ s.dependencies self succ q first rest ps flag refl f
          (refl, refl, refl, told) (k, l) not_between in
      let (u, after, ends, settled, pred, successors) =
        notify_round-IsSettled (suc n) at_b at_a heard served storage self succ node q
          (first ∷ rest) ps (k, l) named (ap (λ t. t.self) same ∙ m)
          (ap (λ t. t.predecessor) same ∙ e) in
      (
        u,
        after,
        round-some n at_b at_a s s1 (adopted heard (succ ∷ first ∷ rest)) b served storage _ _ _ _
              (question n s1 succ) c1 r a (create_request-asking s succ ps l) refl makes asks serves
              (handle_response-asked (question n s1 succ) (arrived at_a a) response refl) goes refl
              refl
            ∙ ends,
        settled,
        pred,
        successors ∙ ap (λ t. t.successor_list) same ∙ g,
      )
