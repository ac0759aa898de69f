-- ===== src/Peer.antt =====
-- include/peerpaste/peer.hpp: the address of a node and its identifier on the ring.
pub mod Laws
use peerpaste.Base.{Bytes, bytes_eq, Bool, not, ◌&&◌, ◌||◌, [], ◌++◌}

pub record Peer : Type 0 where
  pub id : Bytes
  pub ip : Bytes
  pub port : Bytes

-- `Peer()`: all three texts are empty.
abbrev pub default_peer : Peer
default_peer = record { id = []; ip = []; port = [] }

-- `operator==`.
unfoldable pub peer_eq : Peer → Peer → Bool
peer_eq p q = bytes_eq p.id q.id && bytes_eq p.ip q.ip && bytes_eq p.port q.port

-- `operator!=`.
unfoldable pub peer_ne : Peer → Peer → Bool
peer_ne p q = not (bytes_eq p.id q.id) || not (bytes_eq p.ip q.ip) || not (bytes_eq p.port q.port)

unfoldable pub stringify : Peer → Bytes
stringify p = p.id ++ (p.ip ++ p.port)

unfoldable pub is_valid : Peer → Bool
is_valid p = not (bytes_eq p.id []) && not (bytes_eq p.ip []) && not (bytes_eq p.port [])
