-- ===== src/Server.antt =====
-- include/peerpaste/server.hpp: the port that is listened on, and the sessions of those who connect.
-- What asio does is an argument: which ports can be bound, and how an accept ends.
pub mod Accepting
use peerpaste.Base.{if◌then◌else◌, ℕ, ◌+◌, ◌%◌, Bool, Option, none, some, List, [], ◌∷◌, ◌++◌}
use peerpaste.Session.{ErrorCode, success, operation_aborted, other_error}

abbrev pub u16_mod : ℕ
u16_mod = 65536

-- `acceptor_` by its port, while it is open; `pending` is the session that the accept at work fills,
-- and `next_session` the address of the one that is made next. `reads` were told to read.
pub record Server : Type 0 where
  pub port : ℕ
  pub acceptor : Option ℕ
  pub pending : Option ℕ
  pub next_session : ℕ
  pub reads : List ℕ

unfoldable pub new : ℕ → ℕ → Server
new port next_session = record {
  port = port;
  acceptor = none;
  pending = none;
  next_session = next_session;
  reads = [];
}

-- The port becomes a `uint16_t`. A port that cannot be bound throws.
unfoldable pub start_listening : (ℕ → Bool) → Server → Option Server
start_listening can_bind s =
    let port : ℕ = s.port % u16_mod in
    if can_bind port then some (record s { acceptor = some port }) else none

-- A new session waits to be connected.
unfoldable pub accept_connections : Server → Server
accept_connections s = record s { pending = some s.next_session; next_session = s.next_session + 1 }

unfoldable pub run : (ℕ → Bool) → Server → Option Server
unfolding start_listening accept_connections
run can_bind s = elim (start_listening can_bind s) [
  | none ↦ none
  | some listening ↦ some (accept_connections listening)
]

-- Behind the two tests: the session reads, and the next one waits.
unfoldable pub take_connection : Server → ℕ → Server
unfolding accept_connections
take_connection s session = accept_connections (record s { reads = s.reads ++ session ∷ [] })

-- The handler of the accept of `session`.
unfoldable pub handle_new_connection : Server → ℕ → ErrorCode → Server
unfolding take_connection
handle_new_connection s session success = elim (s.acceptor) [
  | none ↦ s
  | some port ↦ take_connection s session
]
handle_new_connection s session operation_aborted = s
handle_new_connection s session other_error = s

-- One turn of the event loop, in which the accept at work ends, if there is one.
unfoldable pub poll : Server → ErrorCode → Server
unfolding handle_new_connection
poll s ec = elim (s.pending) [
  | none ↦ s
  | some session ↦ handle_new_connection (record s { pending = none }) session ec
]

unfoldable pub poll_all : Server → List ErrorCode → Server
poll_all s [] = s
poll_all s (ec ∷ ecs) = poll_all (poll s ec) ecs

-- The accept at work is then aborted.
unfoldable pub stop : Server → Server
stop s = record s { acceptor = none }
