-- ===== src/PeerLists.antt =====
-- src/get_successor_list.cpp, src/get_self_and_succ_list.cpp and src/get_pred_and_succ_list.cpp: a
-- node asks another one for peers.
pub mod Common
pub mod SuccessorList
pub mod SelfAndSuccList
pub mod PredAndSuccList
pub mod Laws
