-- ===== src/Program/Pools.antt =====
-- include/peerpaste/consumer.hpp: the dispatcher as the program starts and stops it. Its threads are the
-- names of the functions that they run.
use peerpaste.Base.{Bool, true, false, List, [], ◌∷◌, ◌++◌}

pub data Thread : Type 0 where
  run_internal : Thread
  run_send_internal : Thread
  send_routing_information_internal : Thread
  run_io_context : Thread

pub record Dispatching : Type 0 where
  pub running : Bool
  pub thread_pool : List Thread
  pub asio_pool : List Thread

abbrev pub new : Dispatching
new = record { running = true; thread_pool = []; asio_pool = [] }

unfoldable pub run : Dispatching → Dispatching
run d = record d {
  thread_pool = d.thread_pool ++ run_internal ∷ run_send_internal ∷ [];
  asio_pool = d.asio_pool ++ run_io_context ∷ run_io_context ∷ run_io_context ∷ run_io_context ∷ [];
}

unfoldable pub stop : Dispatching → Dispatching
stop d = record d { running = false }

unfoldable pub send_routing_information : Dispatching → Dispatching
send_routing_information d = record d {
  thread_pool = d.thread_pool ++ send_routing_information_internal ∷ [];
}
