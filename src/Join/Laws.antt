-- ===== src/Join/Laws.antt =====
-- The three questions of a join, and a question that fails.
use peerpaste.Base.{drop, ◌≡◌, refl, true, false, Option, none, some, List, [], ◌∷◌, ◌++◌, arith}
use peerpaste.Peer.{Peer}
use peerpaste.Request.{query, find_successor, get_successor_list, finished}
use peerpaste.Table.{succ_list_size, RoutingTable, resize, set_successor, replace_after_successor}
use peerpaste.Task.{request_destruction, failed, done, set_table, end_with}
use peerpaste.Join.{
  Child, child_of, Join, is_done_well, go_on, set_task, handle_notification, handle_query_notify,
  handle_find_successor_notify, handle_get_successor_list_notify,
}

-- The question at work has ended as `c`.
abbrev pub with_child : Child → Join → Join
with_child c j = record j { dependencies = some c ∷ [] }

-- A child that has ended well, with its promise kept.
abbrev pub gives : Child → Peer → Child
gives c p = record c { is_done = true; state = done; peer = some (some p) }

abbrev pub lists : Child → List Peer → Child
lists c l = record c { is_done = true; state = done; peers = some (some l) }

-- The table after both writes of a join.
joined : RoutingTable → Peer → List Peer → RoutingTable
joined t succ l = record t {
  successor_list = resize succ_list_size (succ ∷ (l ++ drop 1 t.successor_list));
  successor_is_set = true;
}

replace_after_successor-set_successor :
    (t : RoutingTable) (succ : Peer) (l : List Peer)
    → replace_after_successor (set_successor t succ) l ≡ some (joined t succ l)
unfolding replace_after_successor set_successor joined
replace_after_successor-set_successor t succ l = by_list t.successor_list refl
  where
    by_list :
        (ps : List Peer)
        → t.successor_list ≡ ps
        → replace_after_successor (set_successor t succ) l ≡ some (joined t succ l)
    by_list [] e = ground arith
    by_list (p ∷ ps) e = ground arith

handle_get_successor_list_notify-done :
    (c : Child) (j : Join) (l : List Peer) (table : RoutingTable)
    → replace_after_successor j.task.table l ≡ some table
    → handle_get_successor_list_notify (lists c l) j
      ≡ some (set_task j (end_with done (set_table table j.task)))
unfolding handle_get_successor_list_notify
handle_get_successor_list_notify-done c j l table e = ground arith

-- A join whose three questions are answered well. The query gives the node `self`: then the target
-- is asked for the successor of `self`'s identifier. That gives `succ`, which becomes the successor
-- and is asked for its list. That gives `l`, and the successor list becomes `succ`, `l` and what
-- stood behind the former successor, cut or filled up to ten; the join ends as done, once.
pub handle_notification-joins :
    (j : Join) (self succ : Peer) (l : List Peer)
    → (u : Join) × (v : Join) × (w : Join) × (handle_notification
          (with_child (gives (child_of query j.target []) self) j)
        ≡ some u)
      × (u.dependencies ≡ some (child_of find_successor j.target self.id) ∷ [])
      × (handle_notification (with_child (gives (child_of find_successor j.target self.id) succ) u)
          ≡ some v)
      × (v.dependencies ≡ some (child_of get_successor_list succ []) ∷ [])
      × (handle_notification (with_child (lists (child_of get_successor_list succ []) l) v)
          ≡ some w)
      × (w.task.table.successor_list
          ≡ resize succ_list_size (succ ∷ (l ++ drop 1 j.task.table.successor_list)))
      × (w.task.state ≡ done)
      × (w.task.events ≡ j.task.events ++ finished ∷ [])
unfolding handle_notification handle_query_notify handle_find_successor_notify
    handle_get_successor_list_notify request_destruction joined
handle_notification-joins j self succ l = (u, v, w, refl, refl, refl, refl, last, refl, refl, refl)
  where
    u : Join
    u = go_on find_successor j.target self.id j

    v : Join
    v =
        go_on get_successor_list succ []
          (set_task u (set_table (set_successor u.task.table succ) u.task))

    answered : Join
    answered = with_child (lists (child_of get_successor_list succ []) l) v

    w : Join
    w = set_task answered (end_with done (set_table (joined j.task.table succ l) v.task))

    last : handle_notification answered ≡ some w
    last =
        handle_get_successor_list_notify-done (child_of get_successor_list succ []) answered l
          (joined j.task.table succ l) (replace_after_successor-set_successor j.task.table succ l)

-- A question that has not ended as done ends the join as failed, with the table as it is; a null
-- pointer in its place does the same.
pub handle_notification-failed :
    (j : Join) (c : Option Child) (cs : List (Option Child))
    → j.dependencies ≡ c ∷ cs
    → elim c [ none ↦ false | some d ↦ is_done_well d ] ≡ false
    → (u : Join) × (handle_notification j ≡ some u)
      × (u.task.table ≡ j.task.table)
      × (u.task.state ≡ failed)
      × (u.task.is_done ≡ true)
      × (u.task.events ≡ j.task.events ++ finished ∷ [])
unfolding handle_notification request_destruction
handle_notification-failed j none cs e h =
    (set_task j (end_with failed j.task), ground arith, refl, refl, refl, refl)
handle_notification-failed j (some c) cs e h =
    (set_task j (end_with failed j.task), ground arith, refl, refl, refl, refl)
