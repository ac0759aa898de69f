-- ===== src/Table.antt =====
-- include/peerpaste/concurrent_routing_table.hpp at `T = Peer`: what a node knows of the ring.
-- Each method holds the mutex for its whole body, so a method is one step. A reading method that
-- fails clears its flag, and so returns the table too. `none` as a table is undefined behaviour.
pub mod Laws
use peerpaste.Base.{
  length, ℕ, zero, suc, Bool, true, false, ◌&&◌, Option, none, some, List, [], ◌∷◌, ◌++◌,
}
use peerpaste.Peer.{Peer, default_peer}

pub record RoutingTable : Type 0 where
  pub self : Option Peer
  pub predecessor : Option Peer
  pub successor_list : List Peer
  pub self_is_set : Bool
  pub predecessor_is_set : Bool
  pub successor_is_set : Bool

abbrev pub succ_list_size : ℕ
succ_list_size = 10

-- The constructor leaves the three flags as the memory happens to hold them.
unfoldable pub init : Bool → Bool → Bool → RoutingTable
init a b c = record {
  self = none;
  predecessor = none;
  successor_list = [];
  self_is_set = a;
  predecessor_is_set = b;
  successor_is_set = c;
}

unfoldable pub try_get_self : RoutingTable → Option Peer × RoutingTable
try_get_self t = elim (t.self) [
  | none ↦ (none, record t { self_is_set = false })
  | some p ↦ (some p, t)
]

unfoldable pub has_self : RoutingTable → Bool
has_self t = elim (t.self) [ none ↦ false | some p ↦ true ]

unfoldable pub set_self : RoutingTable → Peer → RoutingTable
set_self t p = record t { self = some p; self_is_set = true }

unfoldable pub try_get_predecessor : RoutingTable → Option Peer × RoutingTable
try_get_predecessor t = elim (t.predecessor) [
  | none ↦ (none, record t { predecessor_is_set = false })
  | some p ↦ (some p, t)
]

unfoldable pub has_predecessor : RoutingTable → Bool
has_predecessor t = elim (t.predecessor) [ none ↦ false | some p ↦ true ]

unfoldable pub set_predecessor : RoutingTable → Peer → RoutingTable
set_predecessor t p = record t { predecessor = some p; predecessor_is_set = true }

unfoldable pub reset_predecessor : RoutingTable → RoutingTable
reset_predecessor t = record t { predecessor = none }

unfoldable pub try_get_successor : RoutingTable → Option Peer × RoutingTable
try_get_successor t = elim (t.successor_list) [
  | [] ↦ (none, record t { successor_is_set = false })
  | p ∷ ps ↦ (some p, t)
]

unfoldable pub has_successor : RoutingTable → Bool
has_successor t = elim (t.successor_list) [ [] ↦ false | p ∷ ps ↦ true ]

abbrev pub set_front : List Peer → Peer → List Peer
set_front [] p = p ∷ []
set_front (q ∷ qs) p = p ∷ qs

unfoldable pub set_successor : RoutingTable → Peer → RoutingTable
set_successor t p = record t {
  successor_list = set_front t.successor_list p;
  successor_is_set = true;
}

-- `std::vector::resize(n)`: cut, or filled up with `Peer()`.
abbrev pub resize : ℕ → List Peer → List Peer
resize zero ps = []
resize (suc n) [] = default_peer ∷ resize n []
resize (suc n) (p ∷ ps) = p ∷ resize n ps

unfoldable pub replace_successor_list : RoutingTable → List Peer → RoutingTable
replace_successor_list t ps = record t { successor_list = resize succ_list_size ps }

-- `begin() + 1` of an empty vector is undefined behaviour.
unfoldable pub replace_after_successor : RoutingTable → List Peer → Option RoutingTable
replace_after_successor t new = elim (t.successor_list) [
  | [] ↦ none
  | p ∷ ps ↦ some (record t { successor_list = resize succ_list_size (p ∷ (new ++ ps)) })
]

abbrev pub size : RoutingTable → ℕ
size t = length t.successor_list

unfoldable pub push_back : RoutingTable → Peer → RoutingTable
push_back t p = record t { successor_list = t.successor_list ++ p ∷ [] }

abbrev pub get_peers : RoutingTable → List Peer
get_peers t = t.successor_list

-- Whether it erased, and the table after it.
unfoldable pub pop_front : RoutingTable → Bool × RoutingTable
pop_front t = elim (t.successor_list) [
  | [] ↦ (false, t)
  | p ∷ [] ↦ (false, t)
  | p ∷ q ∷ ps ↦ (true, record t { successor_list = q ∷ ps })
]

-- `is_valid`, and the condition of `wait_til_valid`.
unfoldable pub is_valid : RoutingTable → Bool
is_valid t = t.self_is_set && t.predecessor_is_set && t.successor_is_set
