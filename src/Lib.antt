-- ===== src/Lib.antt =====
-- A relay server for EasyTier over web sockets: a worker with one room (a durable object) that
-- accepts the sockets of clients, admits them to the group of their network, forwards packets
-- between them, and takes part in their routing protocol as a peer of its own.
--
-- The parts of the program, and where they are modelled:
--
-- * src/constants.rs is Constants, src/packet.rs is Packet: the protocol's numbers and the 16-byte
--   header (`from_bytes`, `to_bytes`, `create_header`).
-- * src/route_state.rs is Route: Route.Group has the state of a group and `ensure_group`,
--   `bump_all_conn_versions`; Route.Peers the operations on peers, infos and sessions; Route.ConnInfo
--   the connections that clients report and their clean-up; Route.Bitmap `build_conn_bitmap` and its
--   reader; Route.Sync the sync requests that are built and answered. An operation `f` that works on
--   the group it looks up is split into `group_f` on the group and `f` on the state.
-- * src/peer_manager.rs is PeerManager: the routes behind the RPC messages, and the global state,
--   which the source keeps in a thread-local cell and the model passes along.
-- * src/peer_center.rs is PeerCenter: reported connections, the global map and its digest.
-- * src/handlers.rs is Handlers, src/rpc_handler.rs is Rpc: the handshake, the ping, and the RPC
--   requests and responses, whose actions are values. src/compress.rs is Compress,
--   src/codec.rs is Codec.
-- * src/crypto.rs is Crypto and Crypto.Wrap: SipHash-1-3, the hasher, digests and keys, the AES-GCM
--   frame and the packet wrapper.
-- * src/relay_room.rs is Relay: Relay.Room has the sockets with their attachments, Relay.Broadcast
--   forwarding and broadcasting, Relay.Message `websocket_message`, Relay.Lifecycle the creation, new
--   and closed sockets and the alarm. A handler maps a room to a room, what it sends and closes in
--   order, and whether it returns `Ok`.
-- * src/lib.rs is Entry: the worker's `fetch`, which routes a request to a room, and `serve`, which
--   is the worker and the room's own `fetch` together; Http has what they use of requests and
--   responses. Random has how the draws of src/crypto.rs and src/route_state.rs are made of bytes.
-- * Relay.Reach has the events of a room as a step relation; Relay.Members an abstract register of
--   the peers that are online in each group, with what each event means for it; Relay.Alarms the
--   alarms of a room one after the other, with other events between them; Relay.Connected the events
--   of a runtime that lists only sockets it has been given and drops a socket when it closes;
--   Entry.Isolate the rooms of one isolate, which share the thread-local global state. Relay.Confined
--   and Relay.Contained say what an action or a handler changes and sends, Relay.Audience whom a
--   broadcast reaches.
--
-- A request for a web socket comes to the worker (Entry.fetch), which calls the room that its query
-- names. The room accepts the socket (Relay.Lifecycle.fetch); the client shakes hands (Handlers)
-- and joins its group (Relay.Message.join); its RPC requests go to the peer center or to the route
-- state (Rpc), whose actions the room performs; every change of a group is broadcast to it
-- (Relay.Broadcast).
--
-- Numbers are natural numbers; the arithmetic of `u32` and `u64` wraps where the source computes, as
-- in a build without overflow checks. Bytes and strings are lists of numbers. A hash map is an
-- association list in the order in which it is iterated, a B-tree set an ascending list. Loops are
-- structural recursion over lists or counted rounds, so that no fuel is needed.
--
-- What is not in the repository is a parameter: Proto.Externals has the protobuf codec, gzip, hex,
-- the printing and parsing of numbers and the standard hasher, Proto.Ambient the clock, which stands
-- still while a handler runs, and the random draws, each under the name of what it is drawn for;
-- Crypto.Wrap.Cipher is the Web Crypto API, and Relay.Room.Runtime says which sockets take a
-- message, which attachments can be stored, and whether the storage takes an alarm. Messages have
-- the fields that the source names, and `others` for the rest; their signed fields are never
-- negative.
--
-- Not modelled: the parsing of URLs and headers and the namespace of rooms, which Http and Entry.Env
-- take as what the runtime returns; the logging; build.rs; the conversions of src/proto.rs, which
-- are not called; the JavaScript objects around the calls of the Web Crypto API.
pub mod Base
pub mod Constants
pub mod Packet
pub mod Http
pub mod Entry
pub mod Proto
pub mod Codec
pub mod Random
pub mod Route
pub mod PeerCenter
pub mod PeerManager
pub mod Handlers
pub mod Compress
pub mod Rpc
pub mod Crypto
pub mod Relay
pub mod Tests
