-- ===== src/Examples/Nodes.antt =====
-- A node that is asked for a sign of life, and its handlers.
use peerpaste.Base.{
  Bytes, text, ℕ, ◌≡◌, refl, Bool, true, false, not, none, some, List, [], ◌∷◌, ◌++◌,
}
use peerpaste.Header.{request_header}
use peerpaste.Message.{is_request}
use peerpaste.Request.{RequestObject}
use peerpaste.Node.{Node, handle_request}
use peerpaste.Node.Laws.{Outcome, handle_request-Outcome, handle_request-check_predecessor}
use peerpaste.Request.{HandlerObject, handle_response}
use peerpaste.Handlers.{find}
use peerpaste.Handlers.Refinement.{
  Operation, insertion, taking, taking_if, run, dict_run, Refines, run-dict_run,
}
use peerpaste.Examples.Data.{peer_a, table_a, source, request_with, message_with}
use peerpaste.Examples.Files.{platform, lacking}

abbrev everyone : ℕ → Bool
everyone object = true

abbrev pub node : Node platform
node = record {
  handler = record { active_handlers = []; send_queue = request_with (peer_a ∷ []) ∷ [] };
  table = table_a;
  storage = lacking;
  source = source;
  active_messages = [];
  next_object = 60;
}

abbrev check : RequestObject
check = record (request_with []) {
  message = record (message_with []) { header = request_header (text "check_predecessor") };
}

handle_request-check_predecessor_example :
    (u : Node platform) × (a : RequestObject) × (handle_request everyone node check ≡ some u)
    × (u.handler.send_queue ≡ node.handler.send_queue ++ a ∷ [])
    × (a.connection ≡ check.connection)
    × (is_request a.message ≡ false)
    × (a.message.header.correlational_id ≡ check.message.header.transaction_id)
    × (u.table ≡ node.table)
    × (u.storage ≡ node.storage)
handle_request-check_predecessor_example =
    handle_request-check_predecessor everyone node check refl refl

-- The node behind the check.
abbrev answered : Node platform
answered = (handle_request-check_predecessor everyone node check refl refl).0

handle_request-Outcome_example : Outcome node answered
handle_request-Outcome_example =
    handle_request-Outcome everyone node answered check tt
      (handle_request-check_predecessor everyone node check refl refl).2

abbrev waiting_for : Bytes → HandlerObject
waiting_for id = record {
  correlation_id = id;
  handler = handle_response;
  parent = 40;
  is_persistent = false;
}

-- Two handlers are filed, one of them twice, and the other is taken.
abbrev operations : List Operation
operations =
    insertion (waiting_for (text "b"))
    ∷ insertion (waiting_for (text "a"))
    ∷ insertion (waiting_for (text "b"))
    ∷ taking_if (text "a") (λ h. not h.is_persistent)
    ∷ taking (text "c")
    ∷ []

empty-Refines : Refines [] (λ key. none)
unfolding find
empty-Refines = record { sorted = tt; finds = λ key. refl }

run-dict_run_example :
    ((run operations []).0 ≡ (dict_run operations (λ key. none)).0)
    × Refines (run operations []).1 (dict_run operations (λ key. none)).1
run-dict_run_example = run-dict_run operations [] (λ key. none) empty-Refines
