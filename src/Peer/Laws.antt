-- ===== src/Peer/Laws.antt =====
-- The two comparison operators of `Peer`.
use peerpaste.Base.{bytes_eq_self, bytes_eq_iff, ◌≡◌, ◌↔◌, true, not, arith}
use peerpaste.Peer.{Peer, peer_eq, peer_ne}

-- `operator==` decides equality of all three fields, and `operator!=` is its negation.
pub peer_eq_iff :
    (p q : Peer) → ((peer_eq p q ≡ true) ↔ (p ≡ q)) × (peer_ne p q ≡ not (peer_eq p q))
unfolding peer_eq peer_ne
peer_eq_iff p q = (
  (
    λ h. ground (arith, bytes_eq_iff p.id q.id, bytes_eq_iff p.ip q.ip, bytes_eq_iff p.port q.port),
    λ e. ground (arith, bytes_eq_self p.id, bytes_eq_self p.ip, bytes_eq_self p.port),
  ),
  ground arith,
)
