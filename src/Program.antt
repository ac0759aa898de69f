-- ===== src/Program.antt =====
-- include/peerpaste/peerpaste.hpp and src/main.cpp: the parts of the program, the order in which they
-- are started and stopped, and what main makes of its options. What Boost.Program_options reads is an
-- argument, and so are the ports that can be bound and a node that knows nothing yet.
pub mod Port
pub mod Handler
pub mod Pools
pub mod Starting
pub mod Endings
use mathlib.Core.Option
use peerpaste.Base.{
  if◌then◌else◌, Bytes, ℕ, zero, suc, Bool, true, false, ◌||◌, Option, none, some, List, [], ◌∷◌,
  map,
}
use peerpaste.Storage.{Platform}
use peerpaste.Node.{Node}
use peerpaste.Server
use peerpaste.Server.{Server}
use peerpaste.Program.Handler
use peerpaste.Program.Handler.{Handling}
use peerpaste.Program.Pools
use peerpaste.Program.Pools.{Dispatching}

pub record PeerPaste (p : Platform) : Type 0 where
  pub joined : Bool
  pub create_ring : Bool
  pub server : Option Server
  pub dispatcher : Option Dispatching
  pub handler : Option (Handling p)

-- The options that were given.
pub record Options : Type 0 where
  pub help : Bool
  pub address : Option Bytes
  pub port : Option ℕ
  pub join : Option (List Bytes)
  pub create : Bool
  pub debug : Bool

-- A call that may read through a null pointer, or end in an exception.
pub data Result (A : Type 0) : Type 0 where
  ok : A → Result A
  null_pointer : Result A
  exception : Result A

infixl 5 ◌>>=◌
abbrev pub ◌>>=◌ : {A B : Type 0} → Result A → (A → Result B) → Result B
ok a >>= f = f a
null_pointer >>= f = null_pointer
exception >>= f = exception

unfoldable pub at : {A : Type 0} → List A → ℕ → Result A
at [] n = exception
at (x ∷ xs) zero = ok x
at (x ∷ xs) (suc n) = at xs n

-- `p->...`
unfoldable pub deref : {A : Type 0} → Option A → Result A
deref none = null_pointer
deref (some x) = ok x

-- How main ends: it returns 0 or -1, an exception that nothing catches ends the program, or main waits
-- for the threads of the dispatcher. `undefined` is a null pointer that is read through.
pub data Ending (p : Platform) : Type 0 where
  return_0 : Option (PeerPaste p) → Ending p
  return_minus_1 : Ending p
  terminated : Ending p
  undefined : Ending p
  waiting : PeerPaste p → Ending p

module _ {p : Platform} where
  -- The members as they are initialised.
  abbrev pub default_peerpaste : PeerPaste p
  default_peerpaste = record {
    joined = false;
    create_ring = false;
    server = none;
    dispatcher = none;
    handler = none;
  }

  unfoldable pub init : Node p → PeerPaste p → Bytes → ℕ → PeerPaste p
  init n x ip port = record x {
    handler = some (Handler.init (Handler.new n ip port));
    dispatcher = some Pools.new;
    server = some (Server.new port 0);
  }

  unfoldable pub join : PeerPaste p → Bytes → Bytes → Result (PeerPaste p)
  unfolding deref
  join x ip port = deref (x.handler) >>= λ h.
      ok (record x { handler = some (Handler.join h ip port); joined = true })

  unfoldable pub create_ring : PeerPaste p → PeerPaste p
  create_ring x = record x { create_ring = true }

  unfoldable pub debug : PeerPaste p → Result (PeerPaste p)
  unfolding deref
  debug x = deref (x.dispatcher) >>= λ d.
      ok (record x { dispatcher = some (Pools.send_routing_information d) })

  unfoldable pub run_handler : PeerPaste p → Result (PeerPaste p)
  unfolding deref
  run_handler x =
      if x.joined || x.create_ring
      then (deref (x.handler) >>= λ h. ok (record x { handler = some (Handler.run h) }))
      else ok x

  -- A port that cannot be bound is an exception.
  unfoldable pub run_server : (ℕ → Bool) → PeerPaste p → Result (PeerPaste p)
  unfolding deref
  run_server can_bind x = deref (x.server) >>= λ server. elim (Server.run can_bind server) [
    | none ↦ exception
    | some listening ↦ ok (record x { server = some listening })
  ]

  unfoldable pub run : (ℕ → Bool) → PeerPaste p → Result (PeerPaste p)
  unfolding deref run_handler run_server
  run can_bind x = run_handler x >>= run_server can_bind >>= λ y.
      deref (y.dispatcher) >>= λ d. ok (record y { dispatcher = some (Pools.run d) })

  unfoldable pub stop : PeerPaste p → PeerPaste p
  stop x = record x {
    server = Option.map Server.stop x.server;
    handler = Option.map Handler.stop x.handler;
    dispatcher = Option.map Pools.stop x.dispatcher;
  }

  -- The option "join", or else "create".
  unfoldable pub enter : Options → PeerPaste p → Result (PeerPaste p)
  unfolding at join create_ring
  enter o x = elim (o.join) [
    | some vec ↦ at vec 0 >>= λ host_ip. at vec 1 >>= λ host_port. join x host_ip host_port
    | none ↦ ok (if o.create then create_ring x else x)
  ]

  unfoldable pub start : (ℕ → Bool) → Node p → Options → Bytes → ℕ → Result (PeerPaste p)
  unfolding init enter debug run
  start can_bind n o address port = enter o (init n default_peerpaste address port) >>= λ x.
      (if o.debug then debug x else ok x) >>= run can_bind

  abbrev pub ending : Result (PeerPaste p) → Ending p
  ending (ok x) = waiting x
  ending null_pointer = undefined
  ending exception = terminated

  -- `none` are options that cannot be read. Without a part to wait for, the wait ends at once, and the
  -- object is stopped as main returns.
  unfoldable pub main : (ℕ → Bool) → Node p → Option Options → Ending p
  unfolding start stop
  main can_bind n none = return_minus_1
  main can_bind n (some o) = if o.help then return_0 none else elim (o.port) [
    | none ↦ return_0 (some (stop default_peerpaste))
    | some port ↦ elim (o.address) [
      | none ↦ return_0 (some (stop default_peerpaste))
      | some address ↦ ending (start can_bind n o address port)
    ]
  ]
