-- ===== src/Program/Endings.antt =====
-- src/main.cpp: what runs once main waits, and the ways in which main ends for all options.
use mathlib.Core.Option
use mathlib.Core.Option.{some-injective}
use peerpaste.Base.{
  if◌then◌else◌, Bytes, ℕ, ◌%◌, ◌≡◌, refl, ap, ◌∙◌, Bool, true, false, not, ◌&&◌, ◌||◌, Option,
  none, some, List, [], ◌∷◌, ◌++◌,
}
use peerpaste.Storage.{Platform}
use peerpaste.Node
use peerpaste.Node.{Node, self_of, with_self}
use peerpaste.Table.{set_self, set_successor, try_get_self}
use peerpaste.Server.{u16_mod}
use peerpaste.Program.{
  PeerPaste, Options, Ending, return_0, return_minus_1, terminated, undefined, waiting, start, main,
  ending,
}
use peerpaste.Program.Port.{port_text}
use peerpaste.Program.Handler
use peerpaste.Program.Handler.{Handling, run_chord_internal, run_paste_internal}
use peerpaste.Program.Pools
use peerpaste.Program.Pools.{
  Dispatching, run_internal, run_send_internal, send_routing_information_internal, run_io_context,
}
use peerpaste.Program.Starting.{
  joins_of, is_some, options, running, made, pool, run-running, start-run, run-exception,
  start-exception,
}

-- All parts are started.
pub record IsRunning {p : Platform} (n : Node p) (o : Options) (address : Bytes) (port : ℕ)
    (joins : List (Bytes × Bytes)) (x : PeerPaste p) : Type 0 where
  pub listens : Option.map (λ s. s.acceptor) x.server ≡ some (some (port % u16_mod))
  pub accepts : Option.map (λ s. s.pending) x.server ≡ some (some 0)
  pub knows_itself :
      Option.map (λ h. h.node.table.self) x.handler
      ≡ some (
          some (record {
            id = n.source.digest (address ++ port_text port);
            ip = address;
            port = port_text port;
          }))
  pub asks : Option.map (λ h. h.joins) x.handler ≡ some joins
  pub stabilizes :
      Option.map (λ h. h.run_thread) x.handler
      ≡ some
          (if is_some o.join || o.create then run_chord_internal ∷ run_paste_internal ∷ [] else [])
  pub handles : Option.map (λ h. h.running) x.handler ≡ some true
  pub loops : Option.map (λ d. d.running) x.dispatcher ≡ some true
  pub serves_io :
      Option.map (λ d. d.asio_pool) x.dispatcher
      ≡ some (run_io_context ∷ run_io_context ∷ run_io_context ∷ run_io_context ∷ [])
  pub dispatches :
      Option.map (λ d. d.thread_pool) x.dispatcher
      ≡ some (
          (if o.debug then send_routing_information_internal ∷ [] else [])
          ++ run_internal ∷ run_send_internal ∷ [])

abbrev pub or_zero : Option ℕ → ℕ
or_zero none = 0
or_zero (some n) = n

-- In which of its ways main ends.
pub data Way : Type 0 where
  returns_0 : Way
  returns_minus_1 : Way
  throws : Way
  reads_null : Way
  waits : Way

abbrev pub way : {p : Platform} → Ending p → Way
way (return_0 x) = returns_0
way return_minus_1 = returns_minus_1
way terminated = throws
way undefined = reads_null
way (waiting x) = waits

unfoldable pub expected : (ℕ → Bool) → Options → Way
expected can_bind o =
    if o.help || not (is_some o.port) || not (is_some o.address)
    then returns_0
    else if is_some (joins_of o.join) && can_bind ((or_zero o.port) % u16_mod)
    then waits
    else throws

module _ {p : Platform} (can_bind : ℕ → Bool) (n : Node p) where
  running-IsRunning :
      (address : Bytes) (port : ℕ) (j : Option (List Bytes)) (c d : Bool)
      (joins : List (Bytes × Bytes))
      → IsRunning n (options address port j c d) address port joins (
          running can_bind n address port
            (is_some j)
            (not (is_some j) && c)
            (record (made can_bind n address port) { joins = joins })
            (pool can_bind n address port d))
  unfolding Pools.run Pools.send_routing_information Handler.run Handler.init Handler.new Node.init
      with_self self_of set_self set_successor try_get_self
  running-IsRunning address port none false false joins = record {
    listens = refl;
    accepts = refl;
    knows_itself = refl;
    asks = refl;
    stabilizes = refl;
    handles = refl;
    loops = refl;
    serves_io = refl;
    dispatches = refl;
  }
  running-IsRunning address port none false true joins = record {
    listens = refl;
    accepts = refl;
    knows_itself = refl;
    asks = refl;
    stabilizes = refl;
    handles = refl;
    loops = refl;
    serves_io = refl;
    dispatches = refl;
  }
  running-IsRunning address port none true false joins = record {
    listens = refl;
    accepts = refl;
    knows_itself = refl;
    asks = refl;
    stabilizes = refl;
    handles = refl;
    loops = refl;
    serves_io = refl;
    dispatches = refl;
  }
  running-IsRunning address port none true true joins = record {
    listens = refl;
    accepts = refl;
    knows_itself = refl;
    asks = refl;
    stabilizes = refl;
    handles = refl;
    loops = refl;
    serves_io = refl;
    dispatches = refl;
  }
  running-IsRunning address port (some js) c false joins = record {
    listens = refl;
    accepts = refl;
    knows_itself = refl;
    asks = refl;
    stabilizes = refl;
    handles = refl;
    loops = refl;
    serves_io = refl;
    dispatches = refl;
  }
  running-IsRunning address port (some js) c true joins = record {
    listens = refl;
    accepts = refl;
    knows_itself = refl;
    asks = refl;
    stabilizes = refl;
    handles = refl;
    loops = refl;
    serves_io = refl;
    dispatches = refl;
  }

  -- Let an address and a port be given that can be bound, and "join" with two values at least, or not
  -- at all. Then main waits, with all parts at work: the server listens on the port modulo 2^16 and
  -- waits for the first connection, the node knows itself by the address and the port as a `short`, it
  -- is told to join exactly the given address, the threads that stabilize and broadcast run if it joins or makes a
  -- ring, and the dispatcher's loops run, behind the one for routing information if that is wanted.
  pub main-IsRunning :
      (address : Bytes) (port : ℕ) (j : Option (List Bytes)) (c d : Bool)
      (joins : List (Bytes × Bytes))
      → joins_of j ≡ some joins
      → can_bind (port % u16_mod) ≡ true
      → (x : PeerPaste p) × (main can_bind n (some (options address port j c d)) ≡ waiting x)
        × IsRunning n (options address port j c d) address port joins x
  unfolding main
  main-IsRunning address port j c d joins e b = (
    _,
    ap ending (
        start-run can_bind n address port j c d joins e
        ∙ run-running can_bind n address port b _ _ _ _),
    running-IsRunning address port j c d joins,
  )

  way-start :
      (address : Bytes) (port : ℕ) (j : Option (List Bytes)) (c d : Bool)
      (joins : Option (List (Bytes × Bytes))) (bound : Bool)
      → joins_of j ≡ joins
      → can_bind (port % u16_mod) ≡ bound
      → way (ending (start can_bind n (options address port j c d) address port))
        ≡ (if is_some joins && bound then waits else throws)
  way-start address port j c d none bound e b =
      ap (λ r. way (ending r)) (start-exception can_bind n address port j c d e)
  way-start address port j c d (some joins) true e b =
      ap (λ r. way (ending r))
        (start-run can_bind n address port j c d joins e
          ∙ run-running can_bind n address port b _ _ _ _)
  way-start address port j c d (some joins) false e b =
      ap (λ r. way (ending r))
        (start-run can_bind n address port j c d joins e
          ∙ run-exception can_bind n address port b _ _ _ _)

  way-main :
      (help : Bool) (a : Option Bytes) (w : Option ℕ) (j : Option (List Bytes)) (c d : Bool)
      → let o : Options = record {
        help = help;
        address = a;
        port = w;
        join = j;
        create = c;
        debug = d;
      } in
        way (main can_bind n (some o)) ≡ expected can_bind o
  unfolding main expected
  way-main true a w j c d = refl
  way-main false a none j c d = refl
  way-main false none (some w) j c d = refl
  way-main false (some a) (some w) j c d = way-start a w j c d _ _ refl refl

  -- Options that are read: main returns 0 if help is asked for, or if the port or the address is not
  -- given. Otherwise it waits, if "join" is not given or has two values at least and the port can be
  -- bound, and else the program ends by an exception. No null pointer is read.
  pub main-expected : (o : Options) → way (main can_bind n (some o)) ≡ expected can_bind o
  main-expected o = way-main (o.help) (o.address) (o.port) (o.join) (o.create) (o.debug)
