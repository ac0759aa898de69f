-- ===== src/FindSuccessor/Laws.antt =====
-- `find_successor`: it always comes to an answer, and the answer is right if the own successor is.
use peerpaste.Base.{
  Bool-cases, false-absurd, Bytes, bytes_eq, bytes_eq_self, bytes_eq→eq, bytes_eq_iff, ◌≡◌, refl,
  sym, ap, ◌∙◌, subst, ◌≢◌, ◌⊎◌, inl, inr, true, false, ◌||◌, none, some, List, [], ◌∷◌, arith,
}
use peerpaste.Peer.{Peer}
use peerpaste.Ring.{between}
use peerpaste.Ring.Arc.{between-ne, between-split, between-turn, between-full, between-trans_right}
use peerpaste.Table.{RoutingTable, try_get_self, try_get_successor, get_peers}
use peerpaste.FindSuccessor.{closest_in, self_if_closest, find_successor_of, find_successor}
use peerpaste.FindSuccessor.Closest.{Outside, closest_in-cases, closest_preceding_node_self}

-- Either the node is the one named, or the chosen peer lies strictly between it and the identifier.
closest_in-progress :
    (self : Peer) (peers : List Peer) (id : Bytes)
    → (closest_in self peers id ≡ self) ⊎ (between self.id (closest_in self peers id).id id ≡ true)
closest_in-progress self peers id = elim (closest_in-cases self peers id) [
  | inl (e, o) ↦ inl e
  | inr (before, after, e, h, o) ↦ inr h
]

-- What `find_successor` gives. A request that it does not answer goes to the closest peer.
pub data Answers (table : RoutingTable) (self : Peer) (id : Bytes) : Type 0 where
  found : (x : Peer) → find_successor table id ≡ some (some x, table) → Answers table self id
  forward :
      find_successor table id ≡ some (none, table)
      → between self.id (closest_in self (get_peers table) id).id id ≡ true
      → Answers table self id

self_if_closest-cases :
    (table : RoutingTable) (self : Peer) (id : Bytes)
    → table.self ≡ some self
    → ((self_if_closest table self id ≡ some (some self, table))
        × (closest_in self (get_peers table) id ≡ self))
      ⊎ ((self_if_closest table self id ≡ some (none, table))
          × (between self.id (closest_in self (get_peers table) id).id id ≡ true))
unfolding self_if_closest
self_if_closest-cases table self id e = elim (closest_in-progress self (get_peers table) id) [
  | inl same ↦
      inl (ground (arith, closest_preceding_node_self table id e, bytes_eq_self self.id), same)
  | inr h ↦ inr (
    ground (
      arith,
      closest_preceding_node_self table id e,
      bytes_eq→eq (closest_in self (get_peers table) id).id self.id,
      λ (q : (closest_in self (get_peers table) id).id ≡ self.id).
          (between-ne self.id (closest_in self (get_peers table) id).id id h).0 (sym q),
    ),
    h,
  )
]

find_successor_self :
    (table : RoutingTable) (self : Peer) (id : Bytes)
    → table.self ≡ some self
    → find_successor table id ≡ find_successor_of table self id
unfolding find_successor try_get_self
find_successor_self table self id e = ground arith

-- A node that knows itself comes to an answer for each identifier: a peer, or another peer to ask,
-- which lies strictly between the node and the identifier. It never reads through a null pointer.
pub find_successor-Answers :
    (table : RoutingTable) (self : Peer) (id : Bytes)
    → table.self ≡ some self
    → Answers table self id
unfolding find_successor_of try_get_successor
find_successor-Answers table self id e = elim (self_if_closest-cases table self id e) [
  | inl (r, same) ↦ near r (table.successor_list) refl
  | inr (r, h) ↦ far r h (table.successor_list) refl
]
  where
    near :
        self_if_closest table self id ≡ some (some self, table)
        → (l : List Peer) → table.successor_list ≡ l
        → Answers table self id
    near r [] q = found self (find_successor_self table self id e ∙ ground arith)
    near r (s ∷ ss) q = elim (Bool-cases (between self.id id s.id || bytes_eq id s.id)) [
      | inl b ↦ found s (find_successor_self table self id e ∙ ground arith)
      | inr b ↦ found self (find_successor_self table self id e ∙ ground arith)
    ]

    far :
        self_if_closest table self id ≡ some (none, table)
        → between self.id (closest_in self (get_peers table) id).id id ≡ true
        → (l : List Peer) → table.successor_list ≡ l
        → Answers table self id
    far r h [] q = forward (find_successor_self table self id e ∙ ground arith) h
    far r h (s ∷ ss) q = elim (Bool-cases (between self.id id s.id || bytes_eq id s.id)) [
      | inl b ↦ found s (find_successor_self table self id e ∙ ground arith)
      | inr b ↦ forward (find_successor_self table self id e ∙ ground arith) h
    ]

-- No member of the ring lies at `id` or strictly between `id` and `succ_id`, in that direction.
abbrev pub Empty : Bytes → Bytes → List Bytes → Type 0
Empty id succ_id [] = Unit {0}
Empty id succ_id (m ∷ ms) = (between id m succ_id ≡ false) × Empty id succ_id ms

abbrev pub Absent : Bytes → List Bytes → Type 0
Absent id [] = Unit {0}
Absent id (m ∷ ms) = (m ≢ id) × Absent id ms

-- `x` comes first on the ring, from `id` on.
pub data IsSuccessor (ring : List Bytes) (id : Bytes) (x : Peer) : Type 0 where
  at : id ≡ x.id → IsSuccessor ring id x
  behind : Absent id ring → Empty id x.id ring → IsSuccessor ring id x

inside-Empty :
    (ring : List Bytes) (self_id id succ_id : Bytes)
    → between self_id id succ_id ≡ true
    → Empty self_id succ_id ring
    → Absent id ring × Empty id succ_id ring
inside-Empty [] self_id id succ_id h o = (tt, tt)
inside-Empty (m ∷ ms) self_id id succ_id h o = (
  (λ e. false-absurd (sym o.0 ∙ rw e h), (inside-Empty ms self_id id succ_id h o.1).0),
  (
    ground (arith, between-trans_right self_id id m succ_id h),
    (inside-Empty ms self_id id succ_id h o.1).1,
  ),
)

-- The node itself is the answer only for its own identifier.
self-only :
    (table : RoutingTable) (self succ : Peer) (rest : List Peer) (id : Bytes)
    → table.successor_list ≡ succ ∷ rest
    → closest_in self (get_peers table) id ≡ self
    → (between self.id id succ.id || bytes_eq id succ.id) ≡ false
    → id ≡ self.id
self-only table self succ rest id l same none_here =
    elim (closest_in-cases self (get_peers table) id) [
      | inl (e, o) ↦ outside (subst (Outside self.id id) l o).0
      | inr (before, after, e, h, o) ↦
          absurd ((between-ne self.id _ id h).0 (ap (λ p. p.id) (sym same)))
    ]
  where
    outside : between self.id succ.id id ≡ false → id ≡ self.id
    outside b = elim (Bool-cases (bytes_eq id self.id)) [
      | inl e ↦ bytes_eq→eq id self.id e
      | inr ne ↦ ground (
        arith,
        bytes_eq_iff id self.id,
        bytes_eq_iff id succ.id,
        between-full self.id id,
        bytes_eq_iff self.id succ.id,
        between-split self.id succ.id id,
        between-turn self.id id succ.id,
        between-turn id succ.id self.id,
        between-turn succ.id self.id id,
        between-split self.id id succ.id,
      )
    ]

find_successor_of_correct :
    (ring : List Bytes) (table : RoutingTable) (self succ : Peer) (rest : List Peer) (id : Bytes)
    → table.self ≡ some self
    → table.successor_list ≡ succ ∷ rest
    → Empty self.id succ.id ring
    → {x : Peer} {t : RoutingTable} → find_successor_of table self id ≡ some (some x, t)
    → IsSuccessor ring id x
unfolding find_successor_of try_get_successor
find_successor_of_correct ring table self succ rest id e l o {x} {t} f =
    elim (Bool-cases (between self.id id succ.id)) [
      | inl inside ↦
          let q : x ≡ succ = ground arith in
          let (absent, empty) = inside-Empty ring self.id id succ.id inside o in
          subst (IsSuccessor ring id) (sym q) (behind absent empty)
      | inr outside ↦ elim (Bool-cases (bytes_eq id succ.id)) [
        | inl same ↦
            let q : x ≡ succ = ground arith in
            subst (IsSuccessor ring id) (sym q) (at (bytes_eq→eq id succ.id same))
        | inr other ↦ elim (self_if_closest-cases table self id e) [
          | inl (r, same) ↦
              let q : x ≡ self = ground arith in
              subst (IsSuccessor ring id) (sym q)
                (at (self-only table self succ rest id l same (ground arith)))
          | inr (r, h) ↦ absurd (ground arith)
        ]
      ]
    ]

-- If no member of the ring lies strictly between a node and its successor, then each answer of
-- `find_successor` is the successor of the identifier: the peer at the identifier, or a peer with no
-- member of the ring at the identifier or strictly between them.
pub find_successor_correct :
    (ring : List Bytes) (table : RoutingTable) (self succ : Peer) (rest : List Peer) (id : Bytes)
    → table.self ≡ some self
    → table.successor_list ≡ succ ∷ rest
    → Empty self.id succ.id ring
    → {x : Peer} {t : RoutingTable} → find_successor table id ≡ some (some x, t)
    → IsSuccessor ring id x
find_successor_correct ring table self succ rest id e l o f =
    find_successor_of_correct ring table self succ rest id e l o
      (sym (find_successor_self table self id e) ∙ f)
