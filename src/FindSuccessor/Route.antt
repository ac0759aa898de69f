-- ===== src/FindSuccessor/Route.antt =====
-- A lookup that is forwarded from node to node, as `forward_request` and
-- `handle_forwarded_response` do it, ends.
use peerpaste.Base.{
  if◌then◌else◌, Bytes, ℕ, zero, suc, ◌+◌, ◌≤◌, ◌<◌, ◌≡◌, refl, sym, ap, subst, ◌⊎◌, inl, inr, true,
  Option, none, some, List, [], ◌∷◌, ◌++◌, arith,
}
use peerpaste.Peer.{Peer}
use peerpaste.Ring.{between}
use peerpaste.Ring.Arc.{between-ne, between-trans_right}
use peerpaste.Table.{RoutingTable, get_peers}
use peerpaste.FindSuccessor.{closest_in, closest_preceding_node, find_successor}
use peerpaste.FindSuccessor.Closest.{closest_in-cases, closest_preceding_node_self}
use peerpaste.FindSuccessor.Laws.{
  find_successor-Answers, Empty, IsSuccessor, find_successor_correct, found, forward,
}

-- How many members of the ring lie strictly between two identifiers.
abbrev pub arc_size : Bytes → Bytes → List Bytes → ℕ
arc_size a b [] = 0
arc_size a b (m ∷ ms) = (if between a m b then 1 else 0) + arc_size a b ms

arc_size_mono :
    (a q b : Bytes) (ms : List Bytes) → between a q b ≡ true → arc_size q b ms ≤ arc_size a b ms
arc_size_mono a q b [] h = omega arith
arc_size_mono a q b (m ∷ ms) h =
    ground (arith, arc_size_mono a q b ms h, between-trans_right a q m b h)

abbrev pub In : Bytes → List Bytes → Type 0
In a [] = ⊥
In a (m ∷ ms) = (a ≡ m) ⊎ In a ms

-- A member of the ring that lies between is one that the rest of the way does not count.
arc_size-lt :
    (a q b : Bytes) (ms : List Bytes)
    → between a q b ≡ true
    → In q ms
    → arc_size q b ms < arc_size a b ms
arc_size-lt a q b [] h k = absurd k
arc_size-lt a q b (m ∷ ms) h (inl e) =
    ground (arith, arc_size_mono a q b ms h, subst (λ x. between a x b ≡ true) e h, not-inside)
  where
    not-inside : between q m b ≡ true → ⊥
    not-inside k = (between-ne q m b k).0 e
arc_size-lt a q b (m ∷ ms) h (inr k) =
    ground (arith, arc_size-lt a q b ms h k, between-trans_right a q m b h)

abbrev pub AllIn : List Bytes → List Peer → Type 0
AllIn ring [] = Unit {0}
AllIn ring (p ∷ ps) = In p.id ring × AllIn ring ps

AllIn-middle :
    (ring : List Bytes) (before after : List Peer) (q : Peer)
    → AllIn ring (before ++ q ∷ after)
    → In q.id ring
AllIn-middle ring [] after q h = h.0
AllIn-middle ring (p ∷ before) after q h = AllIn-middle ring before after q h.1

-- The nodes of the ring, each with its table, by identifier.
abbrev pub Network : Type 0
Network = Bytes → RoutingTable

-- The lookup of `id` that starts at `node`. `none`: the fuel ran out, or a node did not come to an
-- answer.
unfoldable pub route : ℕ → Network → Bytes → Bytes → Option Peer
route zero net node id = none
route (suc fuel) net node id = elim (find_successor (net node) id) [
  | none ↦ none
  | some (some x, t) ↦ some x
  | some (none, t) ↦ elim ((closest_preceding_node t id).0) [
    | none ↦ none
    | some q ↦ route fuel net q.id id
  ]
]

-- Each node knows itself by its identifier, its successor is the next member of the ring, and the
-- peers that it may forward to are members.
pub record IsRing (ring : List Bytes) (net : Network) : Type 0 where
  pub self : Bytes → Peer
  pub self_id : (node : Bytes) → In node ring → (self node).id ≡ node
  pub knows_self : (node : Bytes) → In node ring → (net node).self ≡ some (self node)
  pub successor : Bytes → Peer
  pub others : Bytes → List Peer
  pub successors :
      (node : Bytes) → In node ring → (net node).successor_list ≡ successor node ∷ others node
  pub next : (node : Bytes) → In node ring → Empty node (successor node).id ring
  pub members : (node : Bytes) → In node ring → AllIn ring (net node).successor_list

closest_in-In :
    (ring : List Bytes) (self : Peer) (peers : List Peer) (id : Bytes)
    → AllIn ring peers
    → between self.id (closest_in self peers id).id id ≡ true
    → In (closest_in self peers id).id ring
closest_in-In ring self peers id all h = elim (closest_in-cases self peers id) [
  | inl (same, o) ↦ absurd ((between-ne self.id _ id h).0 (ap (λ p. p.id) (sym same)))
  | inr (before, after, e, b, o) ↦
      AllIn-middle ring before after (closest_in self peers id) (subst (AllIn ring) e all)
]

-- On a ring, a lookup from any member comes to the successor of the identifier within as many
-- hops as members lie strictly between.
pub route-IsSuccessor :
    (fuel : ℕ) (ring : List Bytes) (net : Network) (node id : Bytes)
    → IsRing ring net
    → In node ring
    → arc_size node id ring < fuel
    → (x : Peer) × (route fuel net node id ≡ some x) × IsSuccessor ring id x
unfolding route
route-IsSuccessor zero ring net node id r k h = absurd (omega arith)
route-IsSuccessor (suc fuel) ring net node id r k h =
    elim (find_successor-Answers (net node) (r.self node) id (r.knows_self node k)) [
      | found x f ↦ (
        x,
        rw (f, route) refl,
        find_successor_correct ring (net node) (r.self node) (r.successor node) (r.others node) id
            (r.knows_self node k) (r.successors node k)
            (subst (λ n. Empty n (r.successor node).id ring) (sym (r.self_id node k))
              (r.next node k))
            f,
      )
      | forward f b ↦
          let q : Peer = closest_in (r.self node) (get_peers (net node)) id in
          let inside : between node q.id id ≡ true =
            subst (λ n. between n q.id id ≡ true) (r.self_id node k) b in
          let member : In q.id ring =
            closest_in-In ring (r.self node) (get_peers (net node)) id (r.members node k) b in
          let shorter : arc_size q.id id ring < fuel =
            omega (arith, arc_size-lt node q.id id ring inside member) in
          let (x, e, s) = route-IsSuccessor fuel ring net q.id id r member shorter in
          (x, hop f (closest_preceding_node_self (net node) id (r.knows_self node k)) e, s)
    ]
  where
    hop :
        {q x : Peer}
        → find_successor (net node) id ≡ some (none, net node)
        → closest_preceding_node (net node) id ≡ (some q, net node)
        → route fuel net q.id id ≡ some x
        → route (suc fuel) net node id ≡ some x
    hop f c e = rw (f, route) (rw (c, route) e)
