-- ===== src/Notification/Closest.antt =====
-- What a sequence of notifications makes of the predecessor.
use peerpaste.Base.{
  if◌then◌else◌, Bytes, ◌≡◌, refl, sym, ap, ◌∙◌, ◌⊎◌, inl, inr, Bool, true, false, some, List, [],
  ◌∷◌, arith,
}
use peerpaste.Peer.{Peer}
use peerpaste.Ring.{between}
use peerpaste.Ring.Arc.{between_self, between-trans_right}
use peerpaste.Request.{RequestObject}
use peerpaste.Table.{RoutingTable}
use peerpaste.Notification.{Notification, handle_request}
use peerpaste.Notification.Laws.{handle_request-rectifies}

-- One request after the other, each by an object of its own on the same table.
unfoldable pub notify_all : Notification → List RequestObject → Notification
notify_all t [] = t
notify_all t (r ∷ rs) = notify_all (handle_request (record t { request = some r })) rs

-- Each request tells of one peer.
unfoldable pub Tells : List RequestObject → List Peer → Type 0
Tells [] [] = Unit
Tells (r ∷ rs) (x ∷ xs) = (r.message.peers ≡ x ∷ []) × Tells rs xs
Tells _ _ = ⊥

-- None of the peers lies strictly between two identifiers.
unfoldable pub AllOutside : Bytes → Bytes → List Peer → Type 0
AllOutside a c [] = Unit
AllOutside a c (x ∷ xs) = (between a x.id c ≡ false) × AllOutside a c xs

-- `q` is `p`, or a peer strictly between `p` and the node at `c`.
abbrev pub Advances : Peer → Peer → Bytes → Type 0
Advances p q c = (q ≡ p) ⊎ (between p.id q.id c ≡ true)

-- `q` is `p` or one of the peers.
unfoldable pub IsAmong : Peer → Peer → List Peer → Type 0
IsAmong q p [] = q ≡ p
IsAmong q p (x ∷ xs) = (q ≡ x) ⊎ IsAmong q p xs

-- What is behind a point of an arc excludes what was not in the arc.
outside-behind :
    (p q : Peer) (x c : Bytes)
    → Advances p q c
    → between p.id x c ≡ false
    → between q.id x c ≡ false
outside-behind p q x c (inl e) h = ap (λ y. between y.id x c) e ∙ h
outside-behind p q x c (inr b) h = ground (arith, b, h, between-trans_right p.id q.id x c)

-- The table of a node with `p` as its predecessor is then that with `q`.
pub record Closest (before after : RoutingTable) (self p q : Peer) (xs : List Peer) : Type 0 where
  pub predecessor : after.predecessor ≡ some q
  pub among : IsAmong q p xs
  pub advances : Advances p q self.id
  pub outside : AllOutside q.id self.id xs
  pub self_same : after.self ≡ before.self
  pub successors : after.successor_list ≡ before.successor_list
  pub self_flag : after.self_is_set ≡ before.self_is_set
  pub successor_flag : after.successor_is_set ≡ before.successor_is_set

IsAmong-next : (q p x : Peer) (xs : List Peer) → IsAmong q x xs → (q ≡ x) ⊎ IsAmong q p xs
unfolding IsAmong
IsAmong-next q p x [] e = inl e
IsAmong-next q p x (y ∷ ys) (inl e) = inr (inl e)
IsAmong-next q p x (y ∷ ys) (inr m) = elim (IsAmong-next q p x ys m) [
  | inl e ↦ inl e
  | inr k ↦ inr (inr k)
]

-- The same on from `t`, where `b` tells whether the first peer `x` takes the place of `p`.
cons-Closest :
    (before between_them after : RoutingTable) (self p q x : Peer) (xs : List Peer) (b : Bool)
    → between p.id x.id self.id ≡ b
    → between_them.self ≡ before.self
    → between_them.successor_list ≡ before.successor_list
    → between_them.self_is_set ≡ before.self_is_set
    → between_them.successor_is_set ≡ before.successor_is_set
    → Closest between_them after self (if b then x else p) q xs
    → Closest before after self p q (x ∷ xs)
unfolding IsAmong AllOutside
cons-Closest before m after self p q x xs true e f g h k c = record {
  predecessor = c.predecessor;
  among = IsAmong-next q p x xs c.among;
  advances = elim (c.advances) [
    | inl same ↦ inr (ap (λ y. between p.id y.id self.id) same ∙ e)
    | inr b ↦ inr (between-trans_right p.id x.id q.id self.id e b)
  ];
  outside = (outside-behind x q x.id self.id c.advances (between_self x.id self.id), c.outside);
  self_same = c.self_same ∙ f;
  successors = c.successors ∙ g;
  self_flag = c.self_flag ∙ h;
  successor_flag = c.successor_flag ∙ k;
}
cons-Closest before m after self p q x xs false e f g h k c = record {
  predecessor = c.predecessor;
  among = inr c.among;
  advances = c.advances;
  outside = (outside-behind p q x.id self.id c.advances e, c.outside);
  self_same = c.self_same ∙ f;
  successors = c.successors ∙ g;
  self_flag = c.self_flag ∙ h;
  successor_flag = c.successor_flag ∙ k;
}

-- A node with the predecessor `p` is notified by any number of requests, each of which tells of one
-- peer. Its predecessor is then `p` or one of these peers, is `p` or lies strictly between `p` and the
-- node, and none of these peers lies strictly between it and the node, in whatever order they came. The
-- node itself, the successor list and the flags of the two stay as they were.
pub notify_all-Closest :
    (t : Notification) (rs : List RequestObject) (xs : List Peer) (self p : Peer)
    → Tells rs xs
    → t.table.self ≡ some self
    → t.table.predecessor ≡ some p
    → (q : Peer) × Closest t.table (notify_all t rs).table self p q xs
unfolding notify_all Tells IsAmong AllOutside
notify_all-Closest t [] [] self p h m e = (
  p,
  record {
    predecessor = e;
    among = refl;
    advances = inl refl;
    outside = tt;
    self_same = refl;
    successors = refl;
    self_flag = refl;
    successor_flag = refl;
  },
)
notify_all-Closest t [] (x ∷ xs) self p h m e = elim h [ ]
notify_all-Closest t (r ∷ rs) [] self p h m e = elim h [ ]
notify_all-Closest t (r ∷ rs) (x ∷ xs) self p (told, h) m e =
    let n : Notification = record t { request = some r } in
    let (pred, itself, list, flag, successor, events, state, over) =
      handle_request-rectifies n r self p x refl told m e in
    let (q, c) = notify_all-Closest (handle_request n) rs xs self _ h itself pred in
    (
      q,
      cons-Closest t.table (handle_request n).table _ self p q x xs _ refl (itself ∙ sym m) list
          flag successor c,
    )
