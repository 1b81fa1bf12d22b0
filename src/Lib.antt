-- ===== src/Lib.antt =====
-- A model of message-io, an event-driven network library over mio, and its theorems.
--
-- A user holds a node handler (src/node.rs). It posts commands to queues: `connect` and `listen` to
-- the master, the others to the worker of their id. Each thread runs a worker (src/network.rs) that
-- waits on a poll (src/network/poll.rs), takes commands from its queue on a wake, and gives every
-- command and every readiness event to the driver of the id's adapter. The drivers of the three
-- transports (tcp_driver.rs, ssl_driver.rs and ws_driver.rs of src/adapters) have the same handlers:
-- each keeps its connections in a registry (src/network/registry.rs) that is in step with the poll,
-- calls its adapter behind the traits of src/network/adapter.rs, and reports network events to the
-- user. Beside this stands the framing of messages on a byte stream (src/util/encoding.rs).
--
-- Files:
--   Util/Encoding: the framing decoder. `decode` is `Decoder::decode` with the calls of its callback
--     as a list; Leb128 is a codec that keeps the laws asked of the crate integer_encoding.
--   Network/ResourceId: ids, their bit fields, poll tokens and the generator.
--   Network/Transport: the transports, their ids and properties.
--   Network/Registry: registers by id, with the sources that mio watches.
--   Network/Messages, Network/Adapter: the values that the parts exchange, and the traits `Remote`
--     and `Local` as records of operations.
--   Network/TcpDriver: the handlers that the drivers share, `process_read` to `process_is_ready`,
--     over the resources and the payloads of an adapter; Handlers has those of commands, Resource
--     what the TCP adapter puts for the parameters. Lifecycle is what a user may see of one
--     connection; Stages is the contract between a driver and an adapter that panics when it is
--     called at the wrong time, with the driver as a state machine in Stages/Reach; First is the
--     first writable event of an accepted connection.
--   Network/TcpRemote: `receive`, `send` and `pending` of src/adapters/tcp/tcp_adapter.rs.
--   Network/Config: configurations and remote addresses as a user gives them.
--   Network/Poll: the loop of `Poll::process_event`.
--   Network/Worker: `process_poll_event` over a list of drivers; Network/Loader: how this list is
--     made, `UnimplementedDriver` of src/network/loader.rs and `mount_adapter`.
--   Node: the handler, its routing and the blocking connect; Node/Task: the loop of a worker's thread.
--   Engine: a whole node. Engine has what its threads share, Drivers and Mounted the three drivers in
--     the list of a thread, Threads the state of the node, the actions of the user and of the threads,
--     and `run`. The user's own calls of `post` and `post_to_master` are actions with any command; the
--     theorems on a node ask that these make no resource, which is in Posts: a registration, a connect
--     or a listen that the user posts past `connect` and `listen` can stand at a thread, under an id
--     or with a payload that is not its own. Contract is what a driver owes to its node and Adapters
--     the drivers that keep it; Routed, AtHome, Counted and Once are invariants of a node, Whole what
--     follows for it.
--   Ws/Adapter, Ws/Driver: src/adapters/ws/ws_adapter.rs and ws_driver.rs. The state of a connection
--     is the enum `RemoteState`; Ws/Adapter/Staged fills the contract of Stages.
--   Ws/Coding, Ws/Header, Ws/Data: opcodes, close codes, frame headers and the data of the protocol
--     of src/adapters/ws/protocol.
--   Ssl/Adapter, Ssl/Driver: ssl_adapter.rs, ssl_acceptor.rs and ssl_driver.rs of src/adapters/ssl.
--     The state of a connection is the enum `SslStream`.
--   Prelude: shared names, lists, Boolean tests and bit lemmas.
--
-- Bounds and fuel. `usize` has 64 bits. The loop of `try_decode` runs on fuel, one more than the
-- bytes of its input: a round that goes on takes a byte at least. The loops of `send` of the TCP
-- adapter and of the blocking connect have the thousand tries of the source, a wake 1024 commands.
-- `receive` of the TCP adapter is recursive on the answers of the system. The loops of the WebSocket
-- and TLS adapters have no limit in the source; they run here for a number of rounds that is a
-- parameter, and set the flag `waiting` when it is used up. What is said of stages and panics holds
-- for any number, and what is said of results for each number above the rounds that the input takes.
--
-- Parameters. The varint crate, the system behind a connection, socket options, rustls, the url and
-- http crates, the calls of the WebSocket protocol and handshake, and the drivers of a worker are
-- arguments of the definitions. A packet is the list of its bytes, a stream the number of its
-- descriptor, a callback the number that names it. A call that panics is `none`; behind the traits
-- it sets the flag `panicked` of the world.
--
-- Not modelled: the rest of src/adapters/ws, an adapted copy of tungstenite (handshake, message
-- assembly, masking), whose calls are parameters; UDP, which no transport mounts; what interleaves
-- inside of one action of a thread, a turn of its loop over commands or an event of its poll, which is
-- one step here; the start and the joins of threads, logging and formatting, and the set-up of sockets.
-- A driver alone has a generator and a list of posts of its own; in a node they are the shared ones.
pub mod Prelude
pub mod Network
pub mod Util
pub mod Node
pub mod Engine
pub mod Ws
pub mod Ssl
