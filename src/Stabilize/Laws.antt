-- ===== src/Stabilize/Laws.antt =====
-- What stabilisation does to the successor list and to the flag.
use peerpaste.Base.{◌≡◌, ◌⊎◌, inl, inr, Bool, false, Option, none, some, List, [], ◌∷◌, arith}
use peerpaste.Peer.{Peer, default_peer}
use peerpaste.Request.{notification, get_self_and_succ_list, get_pred_and_succ_list}
use peerpaste.Table.{succ_list_size, try_get_successor, resize, pop_front}
use peerpaste.Task.{request_destruction, valid}
use peerpaste.Stabilize.{
  Child, Stabilize, is_done_well, create_notification, fail, take_pred_and_succ_list,
  take_self_and_succ_list, extend, handle_notification,
}

-- The question to `p` that is started behind a first answer: it has just been made.
abbrev pub asking : Peer → Child
asking p = record {
  type = get_self_and_succ_list;
  target = some p;
  is_done = false;
  state = valid;
  promise = none;
}

-- The flag keeps a second stabilisation from starting. It is down, or a peer has just been asked for
-- its list, by a child that stands in front of `cs`.
abbrev pub IsReleased : List Child → Stabilize → Type 0
IsReleased cs s = (s.stabilize_flag ≡ some false) ⊎ ((p : Peer) × (s.dependencies ≡ asking p ∷ cs))

-- There is a result, and it has the property.
abbrev pub Ensures : (Stabilize → Type 0) → Option Stabilize → Type 0
Ensures P none = ⊥
Ensures P (some u) = P u

take_pred_and_succ_list-IsReleased :
    (l : List Peer) (s : Stabilize) (b : Bool)
    → s.stabilize_flag ≡ some b
    → Ensures (IsReleased s.dependencies) (take_pred_and_succ_list l s)
unfolding take_pred_and_succ_list create_notification fail request_destruction
take_pred_and_succ_list-IsReleased [] s b f = ground arith
take_pred_and_succ_list-IsReleased (p ∷ rest) s b f = ground arith

take_self_and_succ_list-IsReleased :
    (l : List Peer) (s : Stabilize) (b : Bool)
    → s.stabilize_flag ≡ some b
    → Ensures (IsReleased s.dependencies) (take_self_and_succ_list l s)
unfolding take_self_and_succ_list create_notification
take_self_and_succ_list-IsReleased l s b f = ground arith

-- How the child came to its end, where the flag is `b`: not well, whatever it has promised; as a question
-- with the peers `l` for an answer; or as a notification, which is started with the flag down.
abbrev pub Reports : Child → List Peer → Bool → Type 0
Reports c l b =
    (is_done_well c ≡ false)
    ⊎ ((c.type ≡ get_pred_and_succ_list) × (c.promise ≡ some (some l)))
    ⊎ ((c.type ≡ get_self_and_succ_list) × (c.promise ≡ some (some l)))
    ⊎ ((c.type ≡ notification) × (b ≡ false))

-- However a child comes to its end, the flag is down afterwards, or a peer has just been asked for its
-- list. A child that ends badly may have promised nothing; one that ends well has promised its list if it
-- asked for one, and if it notified, the flag was down.
pub handle_notification-IsReleased :
    (s : Stabilize) (c : Child) (cs : List Child) (l : List Peer) (b : Bool)
    → s.dependencies ≡ c ∷ cs
    → s.stabilize_flag ≡ some b
    → Reports c l b
    → Ensures (IsReleased s.dependencies) (handle_notification s)
unfolding handle_notification fail request_destruction
handle_notification-IsReleased s c cs l b d f (inl r) = ground (arith, r, d, f)
handle_notification-IsReleased s c cs l b d f (inr (inl r)) =
    ground (arith, take_pred_and_succ_list-IsReleased l (extend s) b f)
handle_notification-IsReleased s c cs l b d f (inr (inr (inl r))) =
    ground (arith, take_self_and_succ_list-IsReleased l (extend s) b f)
handle_notification-IsReleased s c cs l b d f (inr (inr (inr r))) = ground arith

-- An answer without peers, which a successor without a predecessor gives, while the successor is the
-- only peer in a list filled up to ten: the new successor is the blank peer.
pub take_pred_and_succ_list-drops :
    (s : Stabilize) (succ : Peer) (b : Bool)
    → s.stabilize_flag ≡ some b
    → s.task.table.successor_list ≡ resize succ_list_size (succ ∷ [])
    → Ensures
        (λ u. (try_get_successor u.task.table).0 ≡ some default_peer)
        (take_pred_and_succ_list [] s)
unfolding take_pred_and_succ_list create_notification pop_front try_get_successor
take_pred_and_succ_list-drops s succ b f l = ground arith
