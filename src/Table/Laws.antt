-- ===== src/Table/Laws.antt =====
-- What the routing table keeps: the flags, and the length of the successor list.
use mathlib.Core.Option.{some-injective}
use peerpaste.Base.{
  Option-cases, length, replicate, ℕ, zero, suc, ◌-◌, ◌≤◌, ◌<◌, ◌≡◌, refl, ap, subst, ◌↔◌, inl, inr,
  Bool, true, false, Option, none, some, List, [], ◌∷◌, ◌++◌, arith,
}
use peerpaste.Peer.{Peer, default_peer}
use peerpaste.Table.{
  RoutingTable, succ_list_size, init, has_self, try_get_self, try_get_predecessor,
  try_get_successor, set_self, has_predecessor, set_predecessor, reset_predecessor, has_successor,
  set_successor, resize, replace_successor_list, replace_after_successor, size, push_back,
  get_peers, pop_front, is_valid,
}

pub length-resize : (n : ℕ) (ps : List Peer) → length (resize n ps) ≡ n
length-resize zero ps = refl
length-resize (suc n) [] = ap suc (length-resize n [])
length-resize (suc n) (p ∷ ps) = ap suc (length-resize n ps)

resize-nil : (n : ℕ) → resize n [] ≡ replicate n default_peer
resize-nil zero = refl
resize-nil (suc n) = ap (◌∷◌ default_peer) (resize-nil n)

-- A list that is too short is filled up with peers that have no address.
pub resize-short :
    (n : ℕ) (ps : List Peer)
    → length ps ≤ n
    → resize n ps ≡ ps ++ replicate (n - length ps) default_peer
resize-short zero [] h = refl
resize-short zero (p ∷ ps) h = absurd (omega arith)
resize-short (suc n) [] h = let e : suc n - 0 ≡ suc n = omega arith in rw e (resize-nil (suc n))
resize-short (suc n) (p ∷ ps) h =
    let e : suc n - suc (length ps) ≡ n - length ps = omega arith in
    rw e (ap (◌∷◌ p) (resize-short n ps (omega arith)))

pub none-absurd {ℓ} : {A : Type ℓ} {a : A} → ◌≡◌ {A = Option A} none (some a) → ⊥
none-absurd e = cc

-- One call of a method that writes; a reading method lowers its flag where it finds nothing.
pub data Write : Type 0 where
  self predecessor successor back : Peer → Write
  no_predecessor no_front : Write
  read_self read_predecessor read_successor : Write
  list after_front : List Peer → Write

-- The method that a call names; `none` where it has undefined behaviour.
unfoldable pub write : RoutingTable → Write → Option RoutingTable
unfolding set_self set_predecessor set_successor push_back reset_predecessor pop_front
    replace_successor_list replace_after_successor try_get_self try_get_predecessor
    try_get_successor
write t (self p) = some (set_self t p)
write t (predecessor p) = some (set_predecessor t p)
write t (successor p) = some (set_successor t p)
write t (back p) = some (push_back t p)
write t no_predecessor = some (reset_predecessor t)
write t no_front = some ((pop_front t).1)
write t read_self = some ((try_get_self t).1)
write t read_predecessor = some ((try_get_predecessor t).1)
write t read_successor = some ((try_get_successor t).1)
write t (list ps) = some (replace_successor_list t ps)
write t (after_front ps) = replace_after_successor t ps

-- A flag that is raised tells the truth.
pub record FlagsHonest (t : RoutingTable) : Type 0 where
  pub self_honest : t.self_is_set ≡ true → has_self t ≡ true
  pub successor_honest : t.successor_is_set ≡ true → has_successor t ≡ true

write-FlagsHonest :
    (t : RoutingTable) (w : Write) {u : RoutingTable}
    → write t w ≡ some u
    → FlagsHonest t
    → FlagsHonest u
unfolding write has_self has_successor
write-FlagsHonest t (self p) e h = ground (arith)
write-FlagsHonest t (predecessor p) e h = ground (arith)
write-FlagsHonest t (successor p) e h = ground (arith)
write-FlagsHonest t (back p) e h = ground (arith)
write-FlagsHonest t no_predecessor e h = ground (arith)
write-FlagsHonest t no_front e h = ground (arith)
write-FlagsHonest t read_self e h = ground (arith)
write-FlagsHonest t read_predecessor e h = ground (arith)
write-FlagsHonest t read_successor e h = ground (arith)
write-FlagsHonest t (list ps) e h = ground (arith)
write-FlagsHonest t (after_front ps) e h = ground (arith)

abbrev pub is_after_front : Write → Bool
is_after_front (after_front ps) = true
is_after_front _ = false

-- A history of calls; `none` where one of them has undefined behaviour.
unfoldable pub write_all : RoutingTable → List Write → Option RoutingTable
write_all t [] = some t
write_all t (w ∷ ws) = elim (write t w) [ none ↦ none | some u ↦ write_all u ws ]

write_all-FlagsHonest :
    (t : RoutingTable) (ws : List Write) {u : RoutingTable}
    → write_all t ws ≡ some u
    → FlagsHonest t
    → FlagsHonest u
unfolding write_all
write_all-FlagsHonest t [] e h = subst FlagsHonest (some-injective _ _ e) h
write_all-FlagsHonest t (w ∷ ws) e h = elim (Option-cases (write t w)) [
  | inl q ↦ absurd (none-absurd (rw (q, write_all) at e))
  | inr (v, q) ↦ write_all-FlagsHonest v ws (rw (q, write_all) at e) (write-FlagsHonest t w q h)
]

-- A call is undefined in one case only: `replace_after_successor` while there is no successor.
pub write-none_iff :
    (t : RoutingTable) (w : Write)
    → (write t w ≡ none) ↔ ((has_successor t ≡ false) × (is_after_front w ≡ true))
unfolding write has_successor
write-none_iff t (self p) = (λ e. cc, λ h. cc)
write-none_iff t (after_front ps) = (λ e. ground arith, λ h. ground arith)
write-none_iff t w = (λ e. cc, λ h. cc)

-- After each sequence of calls, reading and writing ones, on a new table whose flags for the node and the successor started
-- lowered: if `is_valid` says yes, the node and a successor are set.
pub is_valid_sound :
    (p : Bool) (ws : List Write) {u : RoutingTable}
    → write_all (init false p false) ws ≡ some u
    → is_valid u ≡ true
    → (has_self u ≡ true) × (has_successor u ≡ true)
unfolding is_valid init
is_valid_sound p ws e v = ground (arith, write_all-FlagsHonest (init false p false) ws e fresh)
  where
    fresh : FlagsHonest (init false p false)
    fresh = ground arith

-- The predecessor's flag is not lowered with it: after `reset_predecessor` the table is valid
-- exactly if it was before, and has no predecessor.
pub is_valid-reset_predecessor :
    (t : RoutingTable)
    → (is_valid (reset_predecessor t) ≡ is_valid t)
      × (has_predecessor (reset_predecessor t) ≡ false)
unfolding is_valid reset_predecessor has_predecessor
is_valid-reset_predecessor t = (refl, refl)

-- A replacement by fewer than ten peers leaves these, followed by blank ones up to ten entries.
pub replace_successor_list-padded :
    (t : RoutingTable) (ps : List Peer)
    → length ps < succ_list_size
    → (get_peers (replace_successor_list t ps)
        ≡ ps ++ replicate (succ_list_size - length ps) default_peer)
      × (size (replace_successor_list t ps) ≡ succ_list_size)
unfolding replace_successor_list
replace_successor_list-padded t ps h =
    (resize-short succ_list_size ps (omega arith), length-resize succ_list_size ps)
