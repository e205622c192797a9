-- ===== src/Lib.antt =====
-- A verification library for dist-storage, a distributed storage in C++ with signed messages
-- between peers and a planner for queries.
--
-- The parts, their files here, and what they model:
--
-- - Prelude: outcomes of C++ code (`ok`, an exception `throws`, and undefined behaviour, such as an
--   index out of range), lists over native numbers, std::map and std::unordered_map as association
--   lists (a std::map keeps the order of its keys), and std::string as the list of its bytes.
-- - Query: minion/planner/query. Query/Ops has the enums of common/proto/query.proto and data.proto
--   and their classification; Query/Graph the struct QueryGraph of graph.h, with its functions that
--   append nodes and look up names; Query/Constants getNumericConstant; Query/Hashes fillNodeHashes
--   and the hash functions under it; Query/Visited fillVisited, visitedNodesOrder and
--   visitedLeaveMap, with std::sort as the parameter `sort`; Query/Mapping getGraphMapping,
--   revertGraphMapping, getEdgesList, mapMappingGraph and mapOperations; Query/Df fillDFIds and the
--   rules of rules.h on DataFrame ids; Query/Rules the other rules, which take the two vectors of a
--   graph as the record `Nodes`. A node_t is an `Option`: `none` is NODE_NONE, and another negative
--   number does not occur. The children of Query/Graph, Query/Rules, Query/Mapping, Query/Df and
--   Query/Hashes hold the proofs; in Query/Graph/Built a graph grows by one call after the other.
--   Query/Rules/Meaning gives the logical operations their meaning: SQL's three truth values.
-- - Parse: minion/planner/parse. Parse/Literal has unescapeSqlString and normalizeOp of
--   parse_query.cc; Parse/Tree the syntax trees of grammar/sql.g4, which the generated parser
--   makes; Parse/Visitor the state of SqlVisitor and its operations on names, tables and operators;
--   Parse/Visit its visits, and in `compile` parseAndPrintSQL from the tree on. A plain char is
--   signed. A visitor is passed from visit to visit. An exception ends the run, so its clean-up in
--   the catch blocks is left out. std::stod is the parameter `stod`. Parse/Denote says what a
--   scalar expression means, with the reading of operations as a parameter, and Parse/Words by
--   which words SQL names them; the children of Parse/Visitor, Parse/Visit and Parse/Denote hold
--   the proofs.
-- - Storage: common/storage. Storage/Block has read_data of block.cc on the bytes of the file, with
--   the wrap-around of size_t; Storage/StaticIndex has idx_sort_static.cc, and Storage/Rotation the
--   rotations of idx_sort_dynamic.cc.
-- - Hashing: common/crypto. Hashing has SSLHasher of sgn.cc, with its member `md`, and the peer ids
--   of auth.cc that are made with it; `Evp` stands for OpenSSL.
-- - Peer: common/peer. Peer/Store has the class AuthStore and the functions of message.cc, with
--   sign and verify of sgn.cc; its parameter `Crypto` stands for OpenSSL and protobuf. The contexts
--   of signers and verifiers are part of the store, and a call that signs or verifies gives the
--   store back. Peer/Admission says who gets into the store, and Peer/Trust which messages are
--   accepted and signed.
-- - Stream: minion/message. Stream/Router has MessageStreamRouter, recipient_dispatch.cc and the
--   state of MessageStreamHandler; Stream/Handler has the handler's completions, with
--   handle_stream_connect of common/grpc/callback.h; Stream/Handler/Spent says what follows for a
--   message that is validated twice. Stream/Basic has GRPCBasicHandler of callback.h, on which the
--   unary services stand. The handlers call the router, the router asks the store of Peer about a
--   message and puts it into the queue of another handler; a world is the store, the registry of
--   sessions and the list of all handlers, and a step is one completion from gRPC's queue.
-- - Guard: minion/resource_guard/resource_guard.cc. Guard/Limit has LimitHandler, the other handler
--   on the connection phases of callback.h; a completion is one call of `process`, and the message
--   that a read brings stands in `request` before it.
-- - Objects: minion/obj_store/obj_store.cc. Objects has handle_request of the four handlers, with
--   the system calls as the parameter `Os`; Objects/Descriptors says what is documented of them.
--   `Hasher` is the interface of the hasher, and Objects/SslHasher fills it with SSLHasher of
--   Hashing.
--
-- Bounds and fuel. fill_visited runs on fuel for the depth of its recursion; the number of nodes is
-- enough. fill_df_ids_walk runs on fuel for the depth of its recursion; walk_depth = 2 is
-- enough, since the recursive call returns at once. The loop of HashHandler to
-- the end of a file, hash_to_end, runs on fuel too, and more fuel than the file has bytes after the
-- position is enough. Every other function recurs on a list or on a
-- number of stages. Node numbers stay below 2^31 and the layout of the static index below 2^64, so
-- those definitions do not write the wrap-around out; the marks of fill_visited overflow where an int
-- does. An exception loses the vectors that a rule
-- has partly changed, so nothing is said of them.
--
-- Not modelled: time stamps, logging, the mutexes (a call that takes one is a single step), the
-- null store and the null router, which the server's main does not make, file and socket calls, the
-- TLS transport, the generated parser and protobuf code, the message service on GRPCBasicHandler,
-- the lexer and parser before the syntax tree, the caches and queues of common/utils,
-- the printing of graph.h, and write_data of common/storage/block.cc, whose std::copy to a void
-- pointer is not C++.
pub mod Prelude
pub mod Query
pub mod Parse
pub mod Guard
pub mod Objects
pub mod Storage
pub mod Hashing
pub mod Peer
pub mod Stream
