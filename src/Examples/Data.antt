-- ===== src/Examples/Data.antt =====
-- Peers, tables and messages that the examples share.
use peerpaste.Base.{text, true, false, Option, none, some, List, [], ◌∷◌}
use peerpaste.Peer.{Peer}
use peerpaste.Message
use peerpaste.Message.{Message, Source}
use peerpaste.Request.{RequestObject, unknown, to_session}
use peerpaste.Table.{RoutingTable}
use peerpaste.Task.{Task, valid}

abbrev pub peer_a : Peer
peer_a = record { id = text "a"; ip = text "10.0.0.1"; port = text "1337" }

abbrev pub peer_c : Peer
peer_c = record { id = text "c"; ip = text "10.0.0.2"; port = text "1337" }

abbrev pub peer_e : Peer
peer_e = record { id = text "e"; ip = text "10.0.0.3"; port = text "1337" }

-- The table of `self`, between `predecessor` and `successors`.
abbrev pub table_of : Peer → Option Peer → List Peer → RoutingTable
table_of self predecessor successors = record {
  self = some self;
  predecessor = predecessor;
  successor_list = successors;
  self_is_set = true;
  predecessor_is_set = true;
  successor_is_set = true;
}

abbrev pub table_a : RoutingTable
table_a = table_of peer_a (some peer_e) (peer_c ∷ peer_e ∷ [])

abbrev pub source : Source
source = record { digest = λ b. b; clock = 5000; counter = 7 }

abbrev pub message_with : List Peer → Message
message_with ps = Message.create_request source (text "t") ps

-- A request that came over a session.
abbrev pub request_with : List Peer → RequestObject
request_with ps = record {
  type = unknown;
  message = message_with ps;
  connection = to_session (record { number = 1; client_ip = text "10.0.0.9" });
  on_write_handler = false;
}

-- An answer to `r` with the peers `ps`.
abbrev pub answer_with : RequestObject → List Peer → RequestObject
answer_with r ps = record r {
  message = record (Message.generate_response r.message) { peers = ps };
}

abbrev pub task_of : {A : Type 0} → Option RequestObject → RoutingTable → Task A
task_of r table = record {
  object = 40;
  type = unknown;
  state = valid;
  is_done = false;
  is_request_handler = true;
  request = r;
  time_point = 15000;
  handler_object = none;
  promise = none;
  events = [];
  source = source;
  table = table;
}
