-- ===== src/Program/Starting.antt =====
-- src/main.cpp: from the options to the parts that run, or to an exception.
use mathlib.Core.Option.{some-injective}
use peerpaste.Base.{
  if◌then◌else◌, Bytes, ℕ, ◌%◌, ◌≡◌, refl, ap, Bool, true, false, not, ◌&&◌, ◌||◌, Option, none,
  some, List, [], ◌∷◌,
}
use native.Mathlib.Omega.{arith}
use peerpaste.Storage.{Platform}
use peerpaste.Node.{Node}
use peerpaste.Server
use peerpaste.Server.{Server, u16_mod}
use peerpaste.Program.{
  PeerPaste, Options, Result, ok, exception, at, deref, init, join, create_ring, debug, run_handler,
  run_server, run, enter, start, ◌>>=◌,
}
use peerpaste.Program.Handler
use peerpaste.Program.Handler.{Handling, run_chord_internal, run_paste_internal}
use peerpaste.Program.Pools
use peerpaste.Program.Pools.{
  Dispatching, run_internal, run_send_internal, send_routing_information_internal, run_io_context,
}

-- The address behind "join", if there is such an option.
unfoldable pub joins_of : Option (List Bytes) → Option (List (Bytes × Bytes))
joins_of none = some []
joins_of (some []) = none
joins_of (some (ip ∷ [])) = none
joins_of (some (ip ∷ port ∷ rest)) = some ((ip, port) ∷ [])

abbrev pub is_some : {A : Type 0} → Option A → Bool
is_some none = false
is_some (some a) = true

abbrev pub options : Bytes → ℕ → Option (List Bytes) → Bool → Bool → Options
options address port j c d = record {
  help = false;
  address = some address;
  port = some port;
  join = j;
  create = c;
  debug = d;
}

module _ {p : Platform} (can_bind : ℕ → Bool) (n : Node p) (address : Bytes) (port : ℕ) where
  abbrev pub listening : Server
  listening = record {
    port = port;
    acceptor = some (port % u16_mod);
    pending = some 0;
    next_session = 1;
    reads = [];
  }

  abbrev pub ready : Bool → Bool → Handling p → Dispatching → PeerPaste p
  ready joined create h d = record {
    joined = joined;
    create_ring = create;
    server = some (Server.new port 0);
    dispatcher = some d;
    handler = some h;
  }

  abbrev pub running : Bool → Bool → Handling p → Dispatching → PeerPaste p
  running joined create h d = record {
    joined = joined;
    create_ring = create;
    server = some listening;
    dispatcher = some (Pools.run d);
    handler = some (if joined || create then Handler.run h else h);
  }

  run_server-listening :
      can_bind (port % u16_mod) ≡ true
      → (joined create : Bool) (h : Handling p) (d : Dispatching)
      → run_server can_bind (ready joined create h d)
        ≡ ok (record (running joined create h d) { dispatcher = some d; handler = some h })
  unfolding run_server deref Server.run Server.start_listening Server.accept_connections Server.new
  run_server-listening b joined create h d = ground (arith, b)

  -- The rest of `run`, behind the handler.
  abbrev dispatch : Result (PeerPaste p) → Result (PeerPaste p)
  dispatch r =
      r >>= λ y. deref (y.dispatcher) >>= λ d. ok (record y { dispatcher = some (Pools.run d) })

  pub run-running :
      can_bind (port % u16_mod) ≡ true
      → (joined create : Bool) (h : Handling p) (d : Dispatching)
      → run can_bind (ready joined create h d) ≡ ok (running joined create h d)
  unfolding run run_handler deref
  run-running b true create h d = ap dispatch (run_server-listening b true create (Handler.run h) d)
  run-running b false true h d = ap dispatch (run_server-listening b false true (Handler.run h) d)
  run-running b false false h d = ap dispatch (run_server-listening b false false h d)

  -- The message handler when it has been made.
  abbrev pub made : Handling p
  made = Handler.init (Handler.new n address port)

  abbrev pub pool : Bool → Dispatching
  pool d = if d then Pools.send_routing_information Pools.new else Pools.new

  -- What is run once the node has joined or made its ring.
  abbrev pub entered : Option (List Bytes) → Bool → Bool → List (Bytes × Bytes) → PeerPaste p
  entered j c d joins =
      ready (is_some j) (not (is_some j) && c) (record made { joins = joins }) (pool d)

  entered_as :
      (j : Option (List Bytes)) (c d : Bool) {given joins : List (Bytes × Bytes)}
      → some given ≡ some joins
      → run can_bind (entered j c d given) ≡ run can_bind (entered j c d joins)
  entered_as j c d e = ap (λ js. run can_bind (entered j c d js)) (some-injective _ _ e)

  pub start-run :
      (j : Option (List Bytes)) (c d : Bool) (joins : List (Bytes × Bytes))
      → joins_of j ≡ some joins
      → start can_bind n (options address port j c d) address port
        ≡ run can_bind (entered j c d joins)
  unfolding start enter debug deref at join create_ring init joins_of Handler.join Handler.init
      Handler.new
  start-run none false false joins e = entered_as none false false e
  start-run none false true joins e = entered_as none false true e
  start-run none true false joins e = entered_as none true false e
  start-run none true true joins e = entered_as none true true e
  start-run (some []) c d joins e = ground (arith, e)
  start-run (some (ip ∷ [])) c d joins e = ground (arith, e)
  start-run (some (ip ∷ q ∷ rest)) c false joins e = entered_as (some (ip ∷ q ∷ rest)) c false e
  start-run (some (ip ∷ q ∷ rest)) c true joins e = entered_as (some (ip ∷ q ∷ rest)) c true e

  run_server-exception :
      can_bind (port % u16_mod) ≡ false
      → (joined create : Bool) (h : Handling p) (d : Dispatching)
      → run_server can_bind (ready joined create h d) ≡ exception
  unfolding run_server deref Server.run Server.start_listening Server.accept_connections Server.new
  run_server-exception b joined create h d = ground (arith, b)

  pub run-exception :
      can_bind (port % u16_mod) ≡ false
      → (joined create : Bool) (h : Handling p) (d : Dispatching)
      → run can_bind (ready joined create h d) ≡ exception
  unfolding run run_handler deref
  run-exception b true create h d =
      ap dispatch (run_server-exception b true create (Handler.run h) d)
  run-exception b false true h d = ap dispatch (run_server-exception b false true (Handler.run h) d)
  run-exception b false false h d = ap dispatch (run_server-exception b false false h d)

  -- Fewer than two values behind "join".
  pub start-exception :
      (j : Option (List Bytes)) (c d : Bool)
      → joins_of j ≡ none
      → start can_bind n (options address port j c d) address port ≡ exception
  unfolding start enter at joins_of
  start-exception none c d e = ground (arith, e)
  start-exception (some []) c d e = refl
  start-exception (some (ip ∷ [])) c d e = refl
  start-exception (some (ip ∷ q ∷ rest)) c d e = ground (arith, e)
