-- ===== src/Examples/Lookup.antt =====
-- Lookups on a ring of three nodes, and the tests of `util::between` in test/test.cpp.
use peerpaste.Base.{
  if◌then◌else◌, false-absurd, Bytes, text, bytes_eq, bytes_eq_iff, bytes_lt, ◌≡◌, refl, sym, ◌∙◌,
  subst, ◌≢◌, ◌⊎◌, inl, inr, true, false, none, some, List, [], ◌∷◌, ◌++◌, arith,
}
use peerpaste.Request.{is_request}
use peerpaste.Peer.{Peer, default_peer}
use peerpaste.Ring.{between}
use peerpaste.Table.{try_get_self, try_get_successor, replace_successor_list}
use peerpaste.Message
use peerpaste.Request.{RequestObject, HandlerObject, Entry, to_peer, send, send_with, finished}
use peerpaste.Task.{done}
use peerpaste.FindSuccessor.{
  first_between, closest_in, closest_preceding_node, self_if_closest, find_successor_of,
  find_successor, FindSuccessor, handle_request, handle_forwarded_response_of,
}
use peerpaste.FindSuccessor.Closest.{Outside, closest_in-cases, closest_preceding_node-blank}
use peerpaste.FindSuccessor.Laws.{
  Answers, find_successor-Answers, Empty, IsSuccessor, find_successor_correct,
}
use peerpaste.FindSuccessor.Route.{In, AllIn, Network, route, IsRing, route-IsSuccessor}
use peerpaste.FindSuccessor.Exchange.{handle_forwarded_response-handle_request}
use peerpaste.Examples.Data.{
  peer_a, peer_c, peer_e, table_of, table_a, request_with, answer_with, task_of,
}

-- The requirements of the test case "Testing util::between()".
between_tests :
    (between (text "a") (text "b") (text "c") ≡ true)
    × (between (text "b") (text "b") (text "c") ≡ false)
    × (between (text "c") (text "b") (text "c") ≡ true)
    × (between (text "a") (text "b") (text "a") ≡ true)
    × (between (text "c") (text "a") (text "b") ≡ true)
    × (between (text "2") (text "b") (text "1") ≡ true)
    × (between (text "2") (text "b") (text "3") ≡ false)
    × (between (text "1") (text "2") (text "3") ≡ true)
    × (between (text "3") (text "2") (text "1") ≡ false)
    × (between (text "3") (text "c") (text "2") ≡ true)
    × (between (text "c") (text "1") (text "a") ≡ true)
    × (between (text "1") (text "3") (text "c") ≡ true)
unfolding between bytes_lt
between_tests = (refl, refl, refl, refl, refl, refl, refl, refl, refl, refl, refl, refl)

a_ne : (s : Bytes) → bytes_eq peer_a.id s ≡ false → peer_a.id ≢ s
a_ne s h e = false-absurd (sym h ∙ (bytes_eq_iff peer_a.id s).1 e)

c_ne_e : peer_c.id ≢ peer_e.id
c_ne_e e = false-absurd (unequal ∙ (bytes_eq_iff peer_c.id peer_e.id).1 e)
  where
    unequal : false ≡ bytes_eq peer_c.id peer_e.id
    unequal = unfold bytes_eq in refl

abbrev ring : List Bytes
ring = peer_a.id ∷ peer_c.id ∷ peer_e.id ∷ []

-- Each node of the ring knows itself and its successor.
abbrev node_peer : Bytes → Peer
node_peer n = record { id = n; ip = text "10.0.0.1"; port = text "1337" }

abbrev after : Bytes → Peer
unfolding bytes_eq
after n = if bytes_eq n peer_a.id then peer_c else if bytes_eq n peer_c.id then peer_e else peer_a

abbrev network : Network
unfolding bytes_eq
network n = table_of (node_peer n) none (after n ∷ [])

each :
    (P : Bytes → Type 0) → P peer_a.id → P peer_c.id → P peer_e.id → (n : Bytes) → In n ring → P n
each P a c e n (inl q) = subst P (sym q) a
each P a c e n (inr (inl q)) = subst P (sym q) c
each P a c e n (inr (inr (inl q))) = subst P (sym q) e
each P a c e n (inr (inr (inr h))) = absurd h

network-IsRing : IsRing ring network
unfolding bytes_eq between bytes_lt
network-IsRing = record {
  self = node_peer;
  self_id = λ n h. refl;
  knows_self = λ n h. refl;
  successor = after;
  others = λ n. [];
  successors = λ n h. refl;
  next =
      each (λ n. Empty n (after n).id ring) (refl, (refl, (refl, tt))) (refl, (refl, (refl, tt)))
        (refl, (refl, (refl, tt)));
  members =
      each (λ n. AllIn ring (network n).successor_list) (inr (inl refl), tt)
        (inr (inr (inl refl)), tt) (inl refl, tt);
}

route-IsSuccessor_example :
    (x : Peer) × (route 4 network peer_a.id (text "d") ≡ some x) × IsSuccessor ring (text "d") x
unfolding bytes_eq between bytes_lt
route-IsSuccessor_example =
    route-IsSuccessor 4 ring network peer_a.id (text "d") network-IsRing (inl refl) (omega arith)

find_successor_correct_example : IsSuccessor ring (text "b") peer_c
unfolding find_successor find_successor_of try_get_self try_get_successor between bytes_lt bytes_eq
find_successor_correct_example =
    find_successor_correct ring table_a peer_a peer_c (peer_e ∷ []) (text "b") refl refl
      (refl, (refl, (refl, tt))) {x = peer_c} {t = table_a} refl

find_successor-Answers_example : Answers table_a peer_a (text "f")
find_successor-Answers_example = find_successor-Answers table_a peer_a (text "f") refl

-- `f` lies behind every known peer: the last of them is chosen.
closest_test : closest_in peer_a (peer_c ∷ peer_e ∷ []) (text "f") ≡ peer_e
unfolding closest_in first_between between bytes_lt
closest_test = refl

abbrev chosen : Peer
chosen = closest_in peer_a (peer_c ∷ peer_e ∷ []) (text "f")

closest_in-cases_example :
    ((chosen ≡ peer_a) × Outside peer_a.id (text "f") (peer_c ∷ peer_e ∷ []))
    ⊎ ((before : List Peer) × (behind : List Peer) × (peer_c ∷ peer_e ∷ []
          ≡ before ++ chosen ∷ behind)
        × (between peer_a.id chosen.id (text "f") ≡ true)
        × Outside peer_a.id (text "f") behind)
closest_in-cases_example = closest_in-cases peer_a (peer_c ∷ peer_e ∷ []) (text "f")

id_nonempty : peer_a.id ≢ []
id_nonempty e = cc

-- Node `c` has taken over a list of two, and is asked for the successor of `a`.
closest_preceding_node-blank_example :
    (closest_preceding_node
      (replace_successor_list (table_of peer_c none []) (peer_e ∷ peer_a ∷ []))
      peer_a.id).0
    ≡ some default_peer
unfolding bytes_lt
closest_preceding_node-blank_example =
    closest_preceding_node-blank (table_of peer_c none []) peer_c (peer_e ∷ peer_a ∷ []) peer_a.id
      refl (omega arith) id_nonempty refl

abbrev asked_for : Peer → FindSuccessor
asked_for p = record {
  task = task_of (some (request_with (p ∷ []))) table_a;
  id = [];
  target = none;
}

abbrev peer_b : Peer
peer_b = record { id = text "b"; ip = []; port = [] }

abbrev peer_f : Peer
peer_f = record { id = text "f"; ip = []; port = [] }

handle_forwarded_response-handle_request_example :
    (u : FindSuccessor) × (asked : RequestObject) × (h : HandlerObject) × (v : FindSuccessor)
    × (a : RequestObject) × (handle_request (asked_for peer_f) ≡ some u)
    × (u.task.events ≡ [] ++ send_with asked h ∷ [])
    × (u.task.is_done ≡ false)
    × (asked.connection ≡ to_peer (some peer_e))
    × (asked.message.peers ≡ peer_f ∷ [])
    × (asked.message.header.request_type ≡ text "find_successor")
    × (is_request asked ≡ true)
    × (h.correlation_id ≡ asked.message.header.transaction_id)
    × (h.handler ≡ Entry.handle_forwarded_response)
    × (handle_forwarded_response_of u (answer_with (request_with []) (peer_a ∷ [])) ≡ some v)
    × (v.task.events ≡ (u.task.events ++ send a ∷ []) ++ finished ∷ [])
    × (a.connection ≡ (request_with (peer_f ∷ [])).connection)
    × (a.message.peers ≡ peer_a ∷ [])
    × (a.message.header.correlational_id
        ≡ (request_with (peer_f ∷ [])).message.header.transaction_id)
    × (v.task.state ≡ done)
    × (v.task.is_done ≡ true)
unfolding find_successor find_successor_of self_if_closest closest_preceding_node closest_in
    first_between try_get_self try_get_successor between bytes_lt bytes_eq Message.create_request
    Message.generate_transaction_id
handle_forwarded_response-handle_request_example =
    handle_forwarded_response-handle_request (asked_for peer_f) (request_with (peer_f ∷ []))
      (answer_with (request_with []) (peer_a ∷ [])) peer_f peer_a peer_e [] [] refl refl refl refl
      refl
