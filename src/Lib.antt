-- ===== src/Lib.antt =====
-- A model of peerpaste, a peer to peer program on a Chord ring, with the theorems on it.
--
-- Each node keeps a routing table: itself, a predecessor and up to ten successors. A message object
-- (join, query, find_successor, stabilize, notify, check_predecessor, the three requests for peer lists,
-- the list of shared files and the fetching of one) is created to ask something or to answer a
-- request. It tells the message handler by notifications what to send and under which identifier it
-- waits; the message handler keeps the waiting handlers in an ordered set and calls one when its
-- response arrives. Messages go through the converter to protobuf bytes, and through a session as
-- frames on a stream.
--
-- Parts and files:
--   Peer               include/peerpaste/peer.hpp
--   Header, Message    include/peerpaste/header.hpp, include/peerpaste/message.hpp
--   Ring               between in src/cryptowrapper.cpp; Ring/Arc has the laws of arcs
--   Table              include/peerpaste/concurrent_routing_table.hpp
--   Request            include/peerpaste/request_object.hpp, the notifications of src/observable.cpp
--   Task               include/peerpaste/messaging_base.hpp, src/messaging_base.cpp
--   Queue              include/peerpaste/concurrent_queue.hpp
--   FindSuccessor      src/find_successor.cpp; FindSuccessor/Route composes it over a ring
--   Stabilize          src/stabilize.cpp; Stabilize/Round composes a round with the node that answers
--   Notification       src/notify.cpp
--   CheckPredecessor   src/check_predecessor.cpp; CheckPredecessor/Watch has the thread of
--                      include/peerpaste/message_handler.hpp that makes the checks, over time
--   PeerLists          src/get_successor_list.cpp, src/get_self_and_succ_list.cpp,
--                      src/get_pred_and_succ_list.cpp
--   Query, Join        src/query.cpp, src/join.cpp
--   Storage            src/storage.cpp, include/peerpaste/storage.hpp; Storage/Stream has the file streams
--   GetFile            src/get_file.cpp; GetFile/Fetch composes the asking and the serving object
--   Broadcast          src/broadcast_file_list.cpp; Broadcast/Spread composes it over the nodes
--   Handlers           include/peerpaste/concurrent_request_handler.hpp and the dispatch of
--                      responses in include/peerpaste/message_handler.hpp
--   Wire               include/peerpaste/message_converter.hpp, include/peerpaste/proto
--   Session            src/boost_session.cpp and the frame of include/peerpaste/consumer.hpp;
--                      Session/Connection has the calls that write, on the strand of the session
--   Dispatcher         include/peerpaste/consumer.hpp: the loops between sessions and message handler
--   Factory            src/message_factory.cpp: the objects of all classes
--   Node               include/peerpaste/message_handler.hpp: the taking of requests on a whole node
--   Crypt              encrypt, decrypt and the limited hash of src/cryptowrapper.cpp
--   Server             include/peerpaste/server.hpp
--   Program            include/peerpaste/peerpaste.hpp, src/main.cpp; Program/Handler and Program/Pools have
--                      the message handler and the dispatcher as they are started and stopped
--   Base               numbers, lists and byte strings; Examples has the tests and the witnesses
--
-- Conventions. A shared pointer is an Option, `none` being the null pointer. A definition that gives
-- an Option of its whole result is `none` where the source is undefined (a null pointer or a vector's
-- front that is not there). A std::string is the list of its bytes. The getters and setters of a
-- class are the fields of its record. The routing table, whose operations each hold its mutex, is
-- passed along by state; what an object tells its observers is the list `events`, oldest first.
-- Log output is left out. The handlers of the message objects carry the names of the source's
-- functions, and a name that ends in `_of` is the body behind the tests that its caller makes.
--
-- Parameters. The hash behind a transaction identifier is a function (`digest`), and so is what
-- protobuf makes of a request (Wire.Codec, with the law that it reads its own bytes; Dispatcher has it on bytes).
-- Storage.Platform holds the hash of a file and the table of SQLite, without a law; a theorem that
-- needs one row of the table says so.
-- libsodium's secret box is the record Crypt.SecretBox; its laws are the hypothesis IsBoxed. Which ports
-- can be bound, how an accept ends and which options were given are arguments of Server and Program.
--
-- Numbers and fuel. Numbers are naturals with the wrap-around written out: lengths in a frame have 32
-- bits, sizes on the wire 64, the counter behind an identifier 32. These definitions run on fuel.
-- FindSuccessor.Route.route takes one unit for each node that is asked; more than the number of ring
-- members strictly between the asked node and the identifier is enough. Queue.clean_loop takes one
-- for each object, and is started with the length of the list. GetFile.Fetch.fetch takes one for each
-- chunk; more than the missing bytes is enough. Broadcast.Spread.spread takes one for each node; more
-- than the addresses that are not in the message is enough. CheckPredecessor.Watch.clean_loop takes one
-- for each check, and is started with the length of the list.
--
-- Not modelled: the turn of the message handler's thread that stabilizes, the call of the
-- handler that is found for a response, the posting of routing information to a web server, asio's
-- resolving of addresses, the making of the storage's directory and table, and the thread pool, which has no
-- caller. In the message objects time outs appear as calls of handle_failed; Task/Deadline has the
-- check that makes them, with handle_failed as its parameter.
mod Base
mod Examples
pub mod Peer
pub mod Header
pub mod Message
pub mod Wire
pub mod Session
pub mod Dispatcher
pub mod Factory
pub mod Crypt
pub mod Server
pub mod Program
pub mod Node
pub mod Table
pub mod Request
pub mod Task
pub mod Broadcast
pub mod GetFile
pub mod Storage
pub mod Queue
pub mod Query
pub mod Join
pub mod Handlers
pub mod Stabilize
pub mod PeerLists
pub mod Notification
pub mod CheckPredecessor
pub mod Ring
pub mod FindSuccessor
