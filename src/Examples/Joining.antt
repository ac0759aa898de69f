-- ===== src/Examples/Joining.antt =====
-- A node that joins: it asks who it is, who comes after it, and who comes after that one.
use peerpaste.Base.{text, ◌≡◌, refl, true, none, some, [], ◌∷◌, ◌++◌}
use peerpaste.Message
use peerpaste.Request.{
  RequestObject, Session, to_session, send, finished, query, find_successor, get_successor_list,
}
use peerpaste.Table.{succ_list_size, resize, set_self}
use peerpaste.Task.{done}
use peerpaste.Query
use peerpaste.Query.{Query}
use peerpaste.Query.Laws.{seen, handle_response-seen_as}
use peerpaste.Join
use peerpaste.Join.{Join, Child, child_of}
use peerpaste.Join.Laws.{with_child, gives, lists, handle_notification-joins}
use peerpaste.Examples.Data.{peer_a, peer_c, peer_e, table_of, table_a, request_with, task_of}

-- The session that `request_with` came over.
abbrev session : Session
session = record { number = 1; client_ip = text "10.0.0.9" }

abbrev asked : Query
asked = record { task = task_of (some (request_with (peer_c ∷ []))) table_a; target = peer_a }

abbrev asking : Query
asking = record { task = task_of none (table_of peer_c none []); target = peer_a }

handle_response-seen_as_example :
    (u : Query) × (a : RequestObject) × (d : Query) × (Query.handle_request asked ≡ some u)
    × (u.task.events ≡ ([] ++ send a ∷ []) ++ finished ∷ [])
    × (u.task.state ≡ done)
    × (a.connection ≡ to_session session)
    × (a.message.header.correlational_id
        ≡ (request_with (peer_c ∷ [])).message.header.transaction_id)
    × (a.message.peers ≡ seen asked session peer_c ∷ [])
    × (Query.handle_response asking a ≡ some d)
    × (d.task.table ≡ set_self (table_of peer_c none []) (seen asked session peer_c))
    × (d.task.promise ≡ some (some (seen asked session peer_c)))
    × (d.task.state ≡ done)
    × (d.task.is_done ≡ true)
unfolding Message.create_request Message.generate_transaction_id
handle_response-seen_as_example =
    handle_response-seen_as asked asking (request_with (peer_c ∷ [])) peer_c session refl refl refl
      refl

abbrev joining : Join
joining = Join.new (task_of none (table_of peer_c none [])) (text "10.0.0.1") (text "1337")

handle_notification-joins_example :
    (u : Join) × (v : Join) × (w : Join) × (Join.handle_notification
        (with_child (gives (child_of query joining.target []) peer_c) joining)
      ≡ some u)
    × (u.dependencies ≡ some (child_of find_successor joining.target peer_c.id) ∷ [])
    × (Join.handle_notification
          (with_child (gives (child_of find_successor joining.target peer_c.id) peer_e) u)
        ≡ some v)
    × (v.dependencies ≡ some (child_of get_successor_list peer_e []) ∷ [])
    × (Join.handle_notification
          (with_child (lists (child_of get_successor_list peer_e []) (peer_a ∷ [])) v)
        ≡ some w)
    × (w.task.table.successor_list ≡ resize succ_list_size (peer_e ∷ peer_a ∷ []))
    × (w.task.state ≡ done)
    × (w.task.events ≡ [] ++ finished ∷ [])
unfolding Join.new
handle_notification-joins_example = handle_notification-joins joining peer_c peer_e (peer_a ∷ [])
