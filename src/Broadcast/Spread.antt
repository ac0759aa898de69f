-- ===== src/Broadcast/Spread.antt =====
-- A list of files goes from node to node, and comes to rest.
use peerpaste.Base.{
  if◌then◌else◌, length, bytes_eq, bytes_eq_iff, ℕ, zero, suc, ◌+◌, ◌≤◌, ◌<◌, ◌≡◌, refl, sym, subst,
  Bool, true, false, ◌&&◌, ◌||◌, Option, none, some, List, [], ◌∷◌, ◌++◌, arith,
}
use peerpaste.Peer.{Peer}
use peerpaste.Request.{RequestObject, Session, Connection, to_peer, to_session}
use peerpaste.Task.{MessageState, Task}
use peerpaste.GetFile.Transfer.{arrived}
use peerpaste.Storage.{Platform, Storage}
use peerpaste.Broadcast
use peerpaste.Broadcast.{BroadcastFilelist, known, handle_request}
use peerpaste.Broadcast.Quiet.{
  first_sent, PassesOn, Outcome, silent, passes_on, handle_request-Outcome,
}

-- A node: the task of the object that it makes for a request, the address of the next one, and its
-- storage.
pub record Node (p : Platform) : Type 0 where
  pub task : Task MessageState
  pub next_object : ℕ
  pub storage : Storage p

abbrev pub Network : Platform → Type 0
Network p = Peer → Node p

-- How many of the addresses are not in a list of peers.
abbrev pub missing : List Peer → List Peer → ℕ
missing [] ps = 0
missing (m ∷ ms) ps = (if known m ps then 0 else 1) + missing ms ps

abbrev same_address : Peer → Peer → Bool
same_address q m = bytes_eq q.ip m.ip && bytes_eq q.port m.port

known-append :
    (m q : Peer) (ps : List Peer) → known m (ps ++ q ∷ []) ≡ (known m ps || same_address q m)
known-append m q [] = ground arith
known-append m q (p ∷ ps) = ground (arith, known-append m q ps)

known_same : (m q : Peer) (ps : List Peer) → m.ip ≡ q.ip → m.port ≡ q.port → known m ps ≡ known q ps
known_same m q [] e f = refl
known_same m q (p ∷ ps) e f = rw (e, f, known_same m q ps e f) refl

missing-append :
    (ms : List Peer) (q : Peer) (ps : List Peer) → missing ms (ps ++ q ∷ []) ≤ missing ms ps
missing-append [] q ps = omega arith
missing-append (m ∷ ms) q ps = ground (arith, known-append m q ps, missing-append ms q ps)

-- An address that was not in the list is added.
missing-lt :
    (ms : List Peer) (q : Peer) (ps : List Peer)
    → known q ms ≡ true
    → known q ps ≡ false
    → missing ms (ps ++ q ∷ []) < missing ms ps
missing-lt [] q ps k u = absurd (ground arith)
missing-lt (m ∷ ms) q ps k u = by_test (same_address m q) refl (missing-lt ms q ps)
  where
    by_test :
        (t : Bool)
        → same_address m q ≡ t
        → (known q ms ≡ true → known q ps ≡ false → missing ms (ps ++ q ∷ []) < missing ms ps)
        → missing (m ∷ ms) (ps ++ q ∷ []) < missing (m ∷ ms) ps
    by_test true e rest =
        let ip : m.ip ≡ q.ip = ground (arith, bytes_eq_iff m.ip q.ip) in
        let port : m.port ≡ q.port = ground (arith, bytes_eq_iff m.port q.port) in
        ground (
          arith,
          known-append m q ps,
          known_same m q ps ip port,
          bytes_eq_iff q.ip m.ip,
          bytes_eq_iff q.port m.port,
          missing-append ms q ps,
        )
    by_test false e rest = ground (arith, known-append m q ps, missing-append ms q ps, rest)

module _ {p : Platform} where
  -- What the node at `target` makes of the request `r`.
  unfoldable pub hear : Session → Network p → Peer → RequestObject → BroadcastFilelist
  hear session net target r =
      let node : Node p = net target in
      let task : Task MessageState = record (node.task) {
        request = some (arrived session r);
        events = [];
      } in
      (handle_request (Broadcast.new task node.next_object) node.storage).0

  -- The requests that are sent from node to node behind `r`. A node takes a list of files once, so that
  -- its storage before it is the one that counts. `none`: the fuel ran out.
  unfoldable pub spread :
      ℕ → Session → Network p → Peer → RequestObject → Option (List RequestObject)
  spread zero session net target r = none
  spread (suc n) session net target r = elim (first_sent (hear session net target r).task.events) [
    | none ↦ some []
    | some q ↦ elim (q.connection) [
      | to_session other ↦ some (q ∷ [])
      | to_peer none ↦ some (q ∷ [])
      | to_peer (some next) ↦ elim (spread n session net next q) [
        | none ↦ none
        | some qs ↦ some (q ∷ qs)
      ]
    ]
  ]

  hear-Outcome :
      (session : Session) (net : Network p) (target : Peer) (r : RequestObject)
      → Outcome (net target).task.table.self (arrived session r) (hear session net target r)
  unfolding hear Broadcast.new
  hear-Outcome session net target r = handle_request-Outcome _ _ (arrived session r) refl refl

-- Each request is the one before it, passed on by another node.
abbrev pub IsChain : RequestObject → List RequestObject → Type 0
IsChain r [] = Unit {0}
IsChain r (q ∷ qs) = ((node : Peer) × PassesOn node r q) × IsChain q qs

abbrev Spreads : List Peer → Option (List RequestObject) → RequestObject → Type 0
Spreads ms o r =
    (qs : List RequestObject) × (o ≡ some qs)
    × IsChain r qs
    × (length qs ≤ missing ms r.message.peers)

module _ {p : Platform} where
  -- One hop.
  spread-Spreads :
      (n : ℕ) (session : Session) (net : Network p) (target node : Peer) (r q : RequestObject)
      (ms : List Peer)
      → first_sent (hear session net target r).task.events ≡ some q
      → PassesOn node r q
      → missing ms q.message.peers < missing ms r.message.peers
      → ((next : Peer) → Spreads ms (spread n session net next q) q)
      → Spreads ms (spread (suc n) session net target r) r
  unfolding spread
  spread-Spreads n session net target node r q ms e h l rest = by_connection q.connection refl
    where
      by_connection :
          (c : Connection) → q.connection ≡ c → Spreads ms (spread (suc n) session net target r) r
      by_connection (to_session other) c =
          (q ∷ [], simp (spread, e, c), ((node, h), tt), omega arith)
      by_connection (to_peer none) c = (q ∷ [], simp (spread, e, c), ((node, h), tt), omega arith)
      by_connection (to_peer (some next)) c =
          let (qs, f, chain, short) = rest next in
          (q ∷ qs, simp (spread, e, c, f), ((node, h), chain), omega arith)

  -- If the list `ms` has the address of every node that knows itself, then a list of files that is sent
  -- to any node comes to rest, given more fuel than addresses of `ms` are missing among the peers of
  -- the message. Behind the first message at most as many others are sent as addresses were missing, and
  -- each is the one before it with the same files, passed on by a node that was not among its peers and
  -- is added behind them.
  pub spread_ends :
      (n : ℕ) (session : Session) (net : Network p) (target : Peer) (r : RequestObject)
      (ms : List Peer)
      → ((at self : Peer) → (net at).task.table.self ≡ some self → known self ms ≡ true)
      → missing ms r.message.peers < n
      → (qs : List RequestObject) × (spread n session net target r ≡ some qs)
        × IsChain r qs
        × (length qs ≤ missing ms r.message.peers)
  unfolding spread
  spread_ends zero session net target r ms k l = absurd (omega arith)
  spread_ends (suc n) session net target r ms k l = elim (hear-Outcome session net target r) [
    | silent e ↦ ([], rw (e, spread) refl, tt, omega arith)
    | passes_on node q i e h ↦
        let fewer : missing ms q.message.peers < missing ms r.message.peers =
          subst (λ ps. missing ms ps < missing ms r.message.peers) (sym h.peers)
            (missing-lt ms node r.message.peers (k target node i) h.unheard) in
        spread-Spreads n session net target node r q ms e
          (record { unheard = h.unheard; peers = h.peers; files = h.files }) fewer
          (λ next. spread_ends n session net next q ms k (omega arith))
  ]
