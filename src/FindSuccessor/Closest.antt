-- ===== src/FindSuccessor/Closest.antt =====
-- `closest_preceding_node`: the last known peer before an identifier.
use mathlib.Core.List.{reverse, reverse-cons, reverse-append, reverse-reverse, append_assoc}
use peerpaste.Base.{
  Bool-cases, length, replicate, Bytes, bytes_lt, bytes_lt-nil, bytes_lt-nil_left, ℕ, zero, suc,
  ◌-◌, ◌<◌, ◌≡◌, refl, sym, ap, ◌∙◌, subst, ◌≢◌, ◌⊎◌, inl, inr, true, false, none, some, List, [],
  ◌∷◌, ◌++◌, arith,
}
use peerpaste.Peer.{Peer, default_peer}
use peerpaste.Ring.{between}
use peerpaste.Table.{RoutingTable, succ_list_size, try_get_self, replace_successor_list, get_peers}
use peerpaste.Table.Laws.{replace_successor_list-padded}
use peerpaste.FindSuccessor.{first_between, closest_in, closest_preceding_node}

-- The predicate of the loop.
abbrev pub Outside : Bytes → Bytes → List Peer → Type 0
Outside self_id id [] = Unit {0}
Outside self_id id (p ∷ ps) = (between self_id p.id id ≡ false) × Outside self_id id ps

Outside-append :
    (self_id id : Bytes) (xs ys : List Peer)
    → Outside self_id id xs
    → Outside self_id id ys
    → Outside self_id id (xs ++ ys)
Outside-append self_id id [] ys h k = k
Outside-append self_id id (x ∷ xs) ys h k = (h.0, Outside-append self_id id xs ys h.1 k)

Outside-reverse :
    (self_id id : Bytes) (ps : List Peer) → Outside self_id id ps → Outside self_id id (reverse ps)
Outside-reverse self_id id [] h = tt
Outside-reverse self_id id (p ∷ ps) h =
    rw (reverse-cons p ps) (
      Outside-append self_id id (reverse ps) (p ∷ []) (Outside-reverse self_id id ps h.1) (h.0, tt))

abbrev Found : Bytes → Bytes → List Peer → Peer → Type 0
Found self_id id ps q =
    (before : List Peer) × (after : List Peer) × (ps ≡ before ++ q ∷ after)
    × (between self_id q.id id ≡ true)
    × Outside self_id id before

first_between-cases :
    (self_id id : Bytes) (ps : List Peer)
    → ((first_between self_id id ps ≡ none) × Outside self_id id ps)
      ⊎ ((q : Peer) × (first_between self_id id ps ≡ some q) × Found self_id id ps q)
unfolding first_between
first_between-cases self_id id [] = inl (refl, tt)
first_between-cases self_id id (p ∷ ps) = elim (Bool-cases (between self_id p.id id)) [
  | inl e ↦ inr (p, rw e, ([], ps, refl, e, tt))
  | inr e ↦ elim (first_between-cases self_id id ps) [
    | inl (n, o) ↦ inl (rw e n, (e, o))
    | inr (q, f, (before, after, split, inside, o)) ↦
        inr (q, rw e f, (p ∷ before, after, ap (◌∷◌ p) split, inside, (e, o)))
  ]
]

-- What `closest_preceding_node` chooses: the last known peer that lies strictly between the node
-- and the identifier, with no such peer behind it in the list; or the node itself, if there is none.
pub closest_in-cases :
    (self : Peer) (peers : List Peer) (id : Bytes)
    → ((closest_in self peers id ≡ self) × Outside self.id id peers)
      ⊎ ((before : List Peer) × (after : List Peer) × (peers
            ≡ before ++ closest_in self peers id ∷ after)
          × (between self.id (closest_in self peers id).id id ≡ true)
          × Outside self.id id after)
unfolding closest_in
closest_in-cases self peers id = elim (first_between-cases self.id id (reverse peers)) [
  | inl (n, o) ↦ inl (
    rw (n, closest_in),
    subst (Outside self.id id) (reverse-reverse peers) (Outside-reverse self.id id _ o),
  )
  | inr (q, f, (before, after, split, inside, o)) ↦
      rw (f, closest_in)
        (inr (
          reverse after,
          reverse before,
          turned q before after split,
          inside,
          Outside-reverse self.id id before o,
        ))
]
  where
    turned :
        (q : Peer) (before after : List Peer)
        → reverse peers ≡ before ++ q ∷ after
        → peers ≡ reverse after ++ q ∷ reverse before
    turned q before after e =
        sym (reverse-reverse peers)
        ∙ ap reverse e
        ∙ reverse-append before (q ∷ after)
        ∙ ap (λ l. l ++ reverse before) (reverse-cons q after)
        ∙ append_assoc (reverse after) (q ∷ []) (reverse before)

replicate-back : (n : ℕ) (p : Peer) → replicate (suc n) p ≡ replicate n p ++ p ∷ []
replicate-back zero p = refl
replicate-back (suc n) p = ap (◌∷◌ p) (replicate-back n p)

between-nil :
    (self_id id : Bytes) → id ≢ [] → bytes_lt self_id id ≡ false → between self_id [] id ≡ true
unfolding between
between-nil self_id id h k = ground (arith, bytes_lt-nil_left id, bytes_lt-nil self_id)

closest_in-blank :
    (self : Peer) (ps : List Peer) (id : Bytes)
    → id ≢ []
    → bytes_lt self.id id ≡ false
    → closest_in self (ps ++ default_peer ∷ []) id ≡ default_peer
unfolding closest_in first_between
closest_in-blank self ps id h k =
    rw (reverse-append ps (default_peer ∷ []), closest_in)
      (rw (between-nil self.id id h k, first_between))

pub closest_preceding_node_self :
    (table : RoutingTable) {self : Peer} (id : Bytes)
    → table.self ≡ some self
    → closest_preceding_node table id ≡ (some (closest_in self (get_peers table) id), table)
unfolding closest_preceding_node try_get_self
closest_preceding_node_self table id e = ground arith

-- After a successor list of fewer than ten peers was taken over, the peer that is chosen for each
-- identifier that is not empty and not above the node's own is the blank one, which has no address.
pub closest_preceding_node-blank :
    (table : RoutingTable) (self : Peer) (ps : List Peer) (id : Bytes)
    → table.self ≡ some self
    → length ps < succ_list_size
    → id ≢ []
    → bytes_lt self.id id ≡ false
    → (closest_preceding_node (replace_successor_list table ps) id).0 ≡ some default_peer
unfolding replace_successor_list
closest_preceding_node-blank table self ps id e short h k =
    ap (λ r. r.0) (closest_preceding_node_self (replace_successor_list table ps) id e)
    ∙ ap some (
        rw (replace_successor_list-padded table ps short).0 (
          rw blanks (
            rw (← append_assoc ps)
              (closest_in-blank self (ps ++ replicate (9 - length ps) default_peer) id h k))))
  where
    blanks :
        replicate (succ_list_size - length ps) default_peer
        ≡ replicate (9 - length ps) default_peer ++ default_peer ∷ []
    blanks =
        ap (λ n. replicate n default_peer) {y = suc (9 - length ps)} (omega arith)
        ∙ replicate-back (9 - length ps) default_peer
