-- ===== src/Task.antt =====
-- include/peerpaste/messaging_base.hpp, src/messaging_base.cpp and the promise of `Awaitable`: the
-- part that all message objects share, with what of their node they read and write.
-- A method runs under the object's mutex and each call of the routing table under the table's. The
-- model runs a method with no other thread in between. `none` is undefined behaviour or an exception.
pub mod Deadline
pub mod Overdue
pub mod Agreement
use peerpaste.Base.{Bytes, ℕ, ◌+◌, Bool, true, false, Option, none, some, List, [], ◌∷◌, ◌++◌}
use peerpaste.Peer.{Peer}
use peerpaste.Message.{Message, Source, advance, generate_transaction_id}
use peerpaste.Request.{
  RequestObject, MessageType, Entry, HandlerObject, Event, send, send_with, finished, to_peer,
  set_message,
}
use peerpaste.Table.{RoutingTable}

pub data MessageState : Type 0 where
  failed timed_out valid done : MessageState

-- `DURATION`, in milliseconds.
abbrev pub duration : ℕ
duration = 10000

pub record Task (A : Type 0) : Type 0 where
  pub object : ℕ  -- the address of the object
  pub type : MessageType
  pub state : MessageState
  pub is_done : Bool
  pub is_request_handler : Bool
  pub request : Option RequestObject
  pub time_point : ℕ
  pub handler_object : Option HandlerObject
  pub promise : Option A
  pub events : List Event  -- oldest first
  pub source : Source
  pub table : RoutingTable

module _ {A : Type 0} where
  -- `MessagingBase(type)` and `MessagingBase(type, request)`.
  unfoldable pub new : ℕ → MessageType → Option RequestObject → Source → RoutingTable → Task A
  new object type request source table = record {
    object = object;
    type = type;
    state = valid;
    is_done = false;
    is_request_handler = elim request [ none ↦ false | some r ↦ true ];
    request = request;
    time_point = source.clock + duration;
    handler_object = none;
    promise = none;
    events = [];
    source = source;
    table = table;
  }

  abbrev pub set_state : MessageState → Task A → Task A
  set_state s t = record t { state = s }

  abbrev pub set_table : RoutingTable → Task A → Task A
  set_table r t = record t { table = r }

  abbrev pub notify : Event → Task A → Task A
  notify e t = record t { events = t.events ++ e ∷ [] }

  -- `RequestDestruction`.
  unfoldable pub request_destruction : Task A → Task A
  request_destruction t = notify finished (record t { is_done = true })

  -- `state_ = s; RequestDestruction();`
  abbrev pub end_with : MessageState → Task A → Task A
  end_with s t = request_destruction (set_state s t)

  -- A promise that is set already throws `std::future_error`.
  unfoldable pub set_promise : A → Task A → Option (Task A)
  set_promise a t = elim (t.promise) [ none ↦ some (record t { promise = some a }) | some b ↦ none ]

  -- The identifier of the message that was made last is used up.
  abbrev pub count_up : Task A → Task A
  count_up t = record t { source = advance t.source }

  -- `create_handler_object(id, handler, persistent); Notify(request, *handler_object_);`
  unfoldable pub await : Bytes → Entry → Bool → RequestObject → Task A → Task A
  await id entry persistent r t =
      let handler : HandlerObject = record {
        correlation_id = id;
        handler = entry;
        parent = t.object;
        is_persistent = persistent;
      } in
      notify (send_with r handler) (record t { handler_object = some handler })

  -- A request to `peer` in `m`, which has its identifier, and a handler for the response.
  unfoldable pub ask : MessageType → Message → Peer → Task A → Task A
  unfolding await
  ask type m peer = await m.header.transaction_id Entry.handle_response false (record {
    type = type;
    message = m;
    connection = to_peer (some peer);
    on_write_handler = false;
  })

  -- `m` gets its identifier and goes back to where `r` came from.
  unfoldable pub reply : RequestObject → Message → Task A → Task A
  reply r m t = notify (send (set_message r (generate_transaction_id t.source m))) (count_up t)
