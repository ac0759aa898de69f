-- ===== src/Session/Sending.antt =====
-- What a session of src/boost_session.cpp has taken on, and what becomes of it.
use mathlib.Core.List.{append_assoc}
use peerpaste.Base.{Bytes, ℕ, ◌+◌, ◌≡◌, refl, ap, ◌∙◌, some, List, [], ◌∷◌, ◌++◌, arith}
use peerpaste.Session.Connection.{
  Posted, queued, direct, Connection, write, write_direct, write_to, Happening, writes,
  writes_direct, writes_to, connected, runs_posted, directly_done, sent, step, run,
}
use peerpaste.Session.Posting.{
  weight, weight-append, taken_on, gained, still, accepted, outgoing, IsSound, Goes, nothing,
  handle_connect-Becomes, run_posted-Becomes, direct_done-Becomes, send_done-Becomes,
}

step-Becomes : (c : Connection) (h : Happening) → IsSound c.writer → Goes c h
unfolding step write write_direct write_to
step-Becomes c (writes m) i = (
  write c m,
  record {
    steps = refl;
    takes = λ f. omega (arith, weight-append f c.posted (queued m ∷ []));
    waits = refl;
    joins = nothing c;
    sound = i;
  },
)
step-Becomes c (writes_direct m) i = (
  write_direct c m,
  record {
    steps = refl;
    takes = λ f. omega (arith, weight-append f c.posted (direct m ∷ []));
    waits = refl;
    joins = nothing c;
    sound = i;
  },
)
step-Becomes c (writes_to m) i = (
  write_to c m,
  record { steps = refl; takes = λ f. omega arith; waits = refl; joins = nothing c; sound = i },
)
step-Becomes c (connected n ec) i = handle_connect-Becomes c n ec _ _ refl refl i
step-Becomes c (runs_posted n) i = run_posted-Becomes c n _ refl i
step-Becomes c (directly_done n ec) i = direct_done-Becomes c n ec _ refl i
step-Becomes c (sent ec) i = send_done-Becomes c ec _ refl i

run-cons :
    (c d : Connection) (h : Happening) (hs : List Happening)
    → step c h ≡ some d
    → run c (h ∷ hs) ≡ run d hs
unfolding run
run-cons c d h hs e = ground (arith, e)

-- A session whose packet at work, if any, is the front of its queue. Then in any sequence of calls, of
-- posted handlers that run in any order, and of ends of connection attempts and of writes, failed ones
-- too, it never takes a packet from an empty queue. No message is lost or doubled: weighed by any `f`, the
-- messages that are posted, queued, written, or written at once and told to their handlers, are those
-- from before and those given to `write`, to `write_direct`, and to `write_to` when its connection is
-- there; only a message whose attempt failed is dropped. And none overtakes another in the queue: what
-- was written and queued before stays as it was, and others only join behind.
pub run-accepted :
    (c : Connection) (hs : List Happening)
    → IsSound c.writer
    → (d : Connection) × (run c hs ≡ some d)
      × ((f : Posted → ℕ) → taken_on f d ≡ taken_on f c + weight f (accepted c.connects hs))
      × ((ms : List Bytes) × (outgoing d ≡ outgoing c ++ ms))
      × IsSound d.writer
unfolding run accepted
run-accepted c [] i = (c, refl, λ f. omega arith, nothing c, i)
run-accepted c (h ∷ hs) i =
    let (d, b) = step-Becomes c h i in
    let (e, goes, takes, joins, sound) = run-accepted d hs b.sound in
    (
      e,
      run-cons c d h hs b.steps ∙ goes,
      λ f. omega (
        arith,
        takes f,
        b.takes f,
        ap (λ ms. weight f (accepted ms hs)) b.waits,
        weight-append f (gained c.connects h) (accepted (still c.connects h) hs),
      ),
      (
        b.joins.0 ++ joins.0,
        joins.1 ∙ ap (λ l. l ++ joins.0) b.joins.1 ∙ append_assoc (outgoing c) b.joins.0 joins.0,
      ),
      sound,
    )
