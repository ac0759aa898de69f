-- ===== src/Program/Handler.antt =====
-- include/peerpaste/message_handler.hpp: the message handler as the program starts and stops it. Its
-- two threads are the names of the functions that they run.
use peerpaste.Base.{Bytes, ℕ, Bool, true, false, List, [], ◌∷◌, ◌++◌}
use peerpaste.Storage.{Platform}
use peerpaste.Node
use peerpaste.Node.{Node, with_self}
use peerpaste.Program.Port.{port_text}

pub data Thread : Type 0 where
  run_chord_internal : Thread
  run_paste_internal : Thread

-- `joins` are the addresses that it was told to join, oldest first.
pub record Handling (p : Platform) : Type 0 where
  pub node : Node p
  pub joins : List (Bytes × Bytes)
  pub running : Bool
  pub run_thread : List Thread

module _ {p : Platform} where
  -- The port becomes a `short`, and then its digits; `n` is a node that knows nothing yet.
  unfoldable pub new : Node p → Bytes → ℕ → Handling p
  new n ip port = record {
    node = with_self n ip (port_text port);
    joins = [];
    running = true;
    run_thread = [];
  }

  unfoldable pub init : Handling p → Handling p
  init h = record h { node = Node.init h.node }

  unfoldable pub run : Handling p → Handling p
  run h = record h { run_thread = h.run_thread ++ run_chord_internal ∷ run_paste_internal ∷ [] }

  unfoldable pub stop : Handling p → Handling p
  stop h = record h { running = false }

  unfoldable pub join : Handling p → Bytes → Bytes → Handling p
  join h ip port = record h { joins = h.joins ++ (ip, port) ∷ [] }
