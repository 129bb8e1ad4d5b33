-- ===== src/Lib.antt =====
-- The Culex MQTT broker.
--
-- A connection (`MqttSession`) gets bytes from its socket. Its `parseData` calls `unpack`, which
-- reads the first byte and passes the rest to the deserializer of the packet's type. The packet goes
-- to the handler of its type, which works on the manager (`ManageSessions`): the registry of clients
-- (`ClientSession`), the topic tree, and two heaps of times, of keep-alive and of retransmission. A
-- handler answers through the connection, and a PUBLISH packet is routed to the connections of the
-- clients that the topic tree finds.
--
-- Files and the code that they model:
--   Packets       mqtt/include/packets.h and mqtt/src/packets.cpp. Packets/Flags is `pack` and `unpack`
--                 of `Header` and `ConnectFlags`, Packets/Length `encode_length` and `decode_length`.
--   Core          the functions of the library culex-core that the broker calls, as a record of
--                 parameters, and three records of what they are documented to do.
--   Unpack        mqtt/src/unpack.cpp: `is_partial`, a body for each deserializer, and `unpack`.
--                 Unpack/Wire is the format of the MQTT standard, as encoders, for lengths below 128 ^ 4.
--   TopicTree     mqtt/include/topictree.h and mqtt/src/topictree.cpp. `Node` and `Links` are the tree,
--                 `get_node` is `getNode`, and a `Node*` is the path to the node. TopicTree/Filters says
--                 which paths a filter is to reach.
--   ClientSession the struct of mqtt/include/mqttsession.h with its methods.
--   Build         `build_publish`, `build_ack`, `build_suback` of mqtt/src/packethandlers.cpp.
--   Manager       mqtt/include/managesessions.h and mqtt/src/managesession.cpp. Manager/Timers has
--                 `scheduleExpiry`, `getNextTimeoutMs` and `processExpiredSessions`, Manager/Routing has
--                 `routePacket`, `sendToClient` and `processRetransmissions`, Manager/Heap the priority
--                 queues. Manager/Invariant is the invariant of the manager, with the steps that keep it.
--                 Manager/Routing/Delivery is what is sent for a packet of QoS 0,
--                 Manager/Invariant/Sends and Manager/Invariant/Recipients to whom a packet of any QoS
--                 is sent and with which bytes, Manager/Invariant/Resending what is sent again,
--                 Manager/Invariant/Overdue what is left on the two heaps.
--   Handlers      the handlers of mqtt/src/packethandlers.cpp, `connectHandler` in
--                 Handlers/Connecting. Handlers/Preservation and Handlers/Reconnecting are what they
--                 keep of the manager, Handlers/ExactlyOnce the flow of QoS 2, Handlers/Offline what
--                 happens to messages for a client that is away.
--   Session       mqtt/src/mqttsession.cpp. Session/Connecting, Publishing, Subscribing and
--                 Acknowledging follow a packet from its bytes to the state of the manager,
--                 Session/Exchange a SUBSCRIBE and then a PUBLISH, Session/Blocking a PUBACK and the
--                 retransmissions behind it.
--   Broker        mqtt/include/broker.h and mqtt/src/broker.cpp: the event loop, over the poller and the
--                 `TCPServer` of culex-core as a record of parameters. Broker/Steps is the transition
--                 system of the loop and of the threads of the pool, Broker/Rounds a round of the loop
--                 from the start of the broker.
--   TestClients   mqtt/test/publisher and mqtt/test/subscriber: the packets that the programs write,
--                 and what they read and answer. TestClients/EndToEnd has the broker between them.
--   Examples      the theorems at concrete inputs.
--   Common        shared names, lists, association lists for maps, and `Outcome`.
--
-- A function is a function of the state that returns the new state, in `Outcome` where it can throw,
-- read outside of its memory or through a null pointer, or not come to an end: `done`, `throws`,
-- `faults`, `stuck`. Memory is the list of the bytes from a pointer on. A member name `type` is `kind`,
-- and a name in camel case is in snake case.
--
-- Bounds: a `uint8_t`, `uint16_t`, `int` and `size_t` is a number, and its wrap-around is written out
-- where the source can reach it. `encode_length` is recursion on the length, by its decrease. The loop
-- of `unpack_subscribe` runs on the bytes that the packet's length leaves for it, and the loop of
-- `unpack_unsubscribe` on one round more than there are bytes: each round takes at least that, so the
-- fuel does not run out. `processExpiredSessions` and `processRetransmissions` run on fuel that is an
-- argument; the first needs as much as its heap has entries, if their sessions are there, and the second
-- one round more than its heap has entries that are due. The loop of `Broker` runs for a number of rounds.
-- The test clients' `packet` has 100 bytes, and a write past it is the outcome `faults`; their `buffer` is
-- the list of what has come and of whatever is behind it.
--
-- Not modelled: locks, and threads within an operation, so that an operation is one step, and
-- threads interleave by operations; culex-core, which is not in the repository; the sockets and
-- the waiting of the test clients; the unused set `subscriptions` of a client session. The order
-- of an `unordered_map` is the order of a list, equal times of a heap come out in the order of
-- their insertion, and the time is a field of the manager. A client session lives as long as the
-- registry holds it; which connections are held by a running task is a field of the manager.
-- Lengths that are given to `encode_length` are not negative.
pub mod Common
pub mod Packets
pub mod Core
pub mod Unpack
pub mod TopicTree
pub mod Broker
pub mod TestClients
pub mod Build
pub mod ClientSession
pub mod Manager
pub mod Handlers
pub mod Session
pub mod Examples
