-- ===== src/Session/Connection.antt =====
-- src/boost_session.cpp: what a session writes, from the calls that post it to the socket. The handlers
-- run one at a time on the strand. Which of them is next, and how a connection attempt or a write ends,
-- is up to asio.
use peerpaste.Base.{
  if◌then◌else◌, Bytes, ℕ, zero, suc, Bool, true, false, Option, none, some, List, [], ◌∷◌, ◌++◌,
}
use peerpaste.Session.{
  ErrorCode, success, operation_aborted, other_error, Writer, queue_message, packet_send_done,
}

-- What is posted: to queue a message, or to write it at once.
pub data Posted : Type 0 where
  queued : Bytes → Posted
  direct : Bytes → Posted

-- `connects` are the messages that wait for a connection, `directs` the direct writes that are at work,
-- and `results` those that have ended, with what their handlers were told. `posted` and `directs` stand
-- in no order: any of them may be the next to run or to end.
pub record Connection : Type 0 where
  pub writer : Writer
  pub posted : List Posted
  pub connects : List Bytes
  pub directs : List Bytes
  pub results : List (Bytes × Bool)

abbrev pub behind {ℓ} : {A : Type ℓ} → A → Option (A × List A) → Option (A × List A)
behind b none = none
behind b (some (a, others)) = some (a, b ∷ others)

-- One of a list, and the others.
abbrev pub pick {ℓ} : {A : Type ℓ} → ℕ → List A → Option (A × List A)
pick n [] = none
pick zero (a ∷ rest) = some (a, rest)
pick (suc n) (b ∷ rest) = behind b (pick n rest)

unfoldable pub write : Connection → Bytes → Connection
write c m = record c { posted = c.posted ++ queued m ∷ [] }

unfoldable pub write_direct : Connection → Bytes → Connection
write_direct c m = record c { posted = c.posted ++ direct m ∷ [] }

unfoldable pub write_to : Connection → Bytes → Connection
write_to c m = record c { connects = c.connects ++ m ∷ [] }

abbrev pub is_error : ErrorCode → Bool
is_error success = false
is_error operation_aborted = true
is_error other_error = true

-- The handler of an attempt: with an error the message is dropped.
unfoldable pub handle_connect : Connection → ℕ → ErrorCode → Connection
unfolding write
handle_connect c n ec = elim (pick n c.connects) [
  | none ↦ c
  | some (m, ms) ↦
      if is_error ec then record c { connects = ms } else write (record c { connects = ms }) m
]

-- The strand runs one handler at a time. The handlers are posted to the service from outside the strand,
-- and several threads run it, so that any one that is posted may be the next.
unfoldable pub run_posted : Connection → ℕ → Connection
run_posted c n = elim (pick n c.posted) [
  | none ↦ c
  | some (queued m, ps) ↦ record c { posted = ps; writer = queue_message c.writer m }
  | some (direct m, ps) ↦ record c { posted = ps; directs = c.directs ++ m ∷ [] }
]

-- A direct write ends, and its handler is told whether it failed.
unfoldable pub direct_done : Connection → ℕ → ErrorCode → Connection
direct_done c n ec = elim (pick n c.directs) [
  | none ↦ c
  | some (m, ms) ↦ record c { directs = ms; results = c.results ++ (m, is_error ec) ∷ [] }
]

-- The write of the front packet ends, if one is at work.
unfoldable pub send_done : Connection → ErrorCode → Option Connection
send_done c ec =
    if c.writer.in_flight
    then elim (packet_send_done c.writer ec) [
      | none ↦ none
      | some w ↦ some (record c { writer = w })
    ]
    else some c

pub data Happening : Type 0 where
  writes : Bytes → Happening
  writes_direct : Bytes → Happening
  writes_to : Bytes → Happening
  connected : ℕ → ErrorCode → Happening
  runs_posted : ℕ → Happening
  directly_done : ℕ → ErrorCode → Happening
  sent : ErrorCode → Happening

unfoldable pub step : Connection → Happening → Option Connection
unfolding write write_direct write_to handle_connect run_posted direct_done send_done
step c (writes m) = some (write c m)
step c (writes_direct m) = some (write_direct c m)
step c (writes_to m) = some (write_to c m)
step c (connected n ec) = some (handle_connect c n ec)
step c (runs_posted n) = some (run_posted c n)
step c (directly_done n ec) = some (direct_done c n ec)
step c (sent ec) = send_done c ec

unfoldable pub run : Connection → List Happening → Option Connection
unfolding step
run c [] = some c
run c (h ∷ hs) = elim (step c h) [ none ↦ none | some d ↦ run d hs ]
