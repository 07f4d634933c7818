-- ===== src/Lib.antt =====
-- cfrp is a reverse proxy: a server accepts connections of users and hands each one, through one
-- tunnel, to a client that connects it to a local service. This library models the parts that carry
-- the bytes, as far as they are decided by the program itself, and proves what holds of them.
--
-- The parts, and the files that model them:
-- * Control messages (src/common/protocol.h): Protocol. `Writer` and `Reader` are `BinaryWriter` and
--   `BinaryReader`; `Messages` has the bodies and `Message::Encode` and `Decode`; `Reads` and
--   `RoundTrip` prove. Texts are lists of bytes, and failure is a value of `Result`.
-- * Streams of the tunnel (`MuxStream`, src/common/mux.h and src/common/mux.cpp): Mux.Header is the
--   frame header; Mux.Stream the state; Mux.Write, `do_write`; Mux.Read, `do_read_from_buffer`; Mux.Ops,
--   the operations. What a stream asks of its session or of its user are effects in a list. `none` is
--   undefined behaviour. Mux.Link connects the two ends of one direction of a stream.
-- * The session (`Session`, same files): Mux.Session has the state and what it does with frames,
--   Mux.Session.Events the handlers. What it asks of the connection below are actions, and what the
--   connection answers are events. Calls from a session to a stream are posted to the strand of the
--   stream: they wait as tasks and run in the order in which they were posted.
-- * The rate limiter (src/common/rate_limiter.h): RateLimiter, with its runs in RateLimiter.Runs.
-- * The buffer pool (src/common/buffer_pool.h): BufferPool. A buffer is its address and its size.
-- * The server (src/server/server.h and src/server/server.cpp): Server.Names is `AllocateClientName` and
--   `ReleaseClientName`; Server.Pending the users that wait for a work connection, with
--   `RegisterUserConn`, `RegisterUdpSession`, `ClearPendingForProxy`, `DoLazyCleanup` and the part of
--   `HandleNewMuxStream` that takes a ticket; Server.Vhost the parsers of `DoVhostAccept`;
--   Server.Registry all that the sessions share; Server.Control the handlers of `ControlSession`, which
--   change a session and the registry and give the actions that they ask of others; Server.Control.Frame
--   is `SendMessage`, `DoReadHeader` and `DoReadBody`, with the functions of zstd as a parameter (its record is
--   in Protocol.Compressed); Server.Work has the listeners and `HandleNewMuxStream`, which join users and work
--   connections.
-- * WebSocket streams (src/common/websocket_stream.h and src/common/websocket_stream.cpp): WebSocket.Frame
--   has headers and masks, WebSocket.Write the write queue, WebSocket.Read the reader. The stream below is
--   a list of bytes to come for the reader, and writes that are asked for and answered for the writer.
--   WebSocket.Handshake is the handshake of both sides (also src/common/websocket_utils.h).
-- * Streams that give out again what was read ahead (`BufferedStream`, src/common/stream.h): Streams.
-- * The bridge between two streams (src/common/async_bridge.h and src/common/async_bridge.cpp): Bridge. What it
--   asks of its streams and of the rate limiter are tasks, each of which is answered by a handler.
-- * The bridges of datagrams (`UdpBridge` in src/client/client.cpp and in src/server/server.cpp): UdpBridge.
-- * The client (src/client/client.h and src/client/client.cpp): Client.Connection is how it connects, fails over
--   and connects again, with the tasks that wait in Client.Connection.Runs; Client.Proxies is `HandleMessage`,
--   the registration of proxies and `PollConfDirectory`; Client.Work is `HandleNewUserConn`.
-- Base has the lists, texts, tests on numbers and dictionaries that these share.
--
-- Bounds and fuel: most loops are structural recursion. The search for a client name has fuel for one
-- round more than there are names, and the walk over the TLS extensions one more than there are bytes,
-- each of which a round that goes on uses up; `ReadWsFrame` and `async_read` of a WebSocket have as many
-- rounds as the fuel says, with theorems on how much is enough. What a bridge gives out is driven by as many
-- reads as the fuel says, where two for each piece are enough. `do_write` recurses on the pending writes,
-- since each of them leaves the queue or empties the window;
-- `do_read_from_buffer` on the pending reads, and inside it on the blocks of the queue;
-- `schedule_timer` on the waiting requests. Fixed widths wrap where the source's types do: 2 ^ 16 and
-- 2 ^ 32 in messages and headers, 2 ^ 64 in the subtraction of sizes.
--
-- What is assumed: handlers of one strand do not overlap (asio), a session outlives the operations of
-- its streams where `alive` is true, the connection below answers each write once, the handlers of
-- a client do not overlap, also those that it does not run on its strand, and the steady clock
-- does not go back. The tokens of the rate limiter are doubles in the program and exact here.
--
-- What is not modelled: the sockets, TLS and QUIC transports below the session, the
-- acceptors, the frames of control messages on the side of the client, the statistics, configuration,
-- logging and certificates. Of these the transports of asio, wolfSSL and ngtcp2, and zstd, are other libraries.
pub mod Base
pub mod Protocol
pub mod Mux
pub mod RateLimiter
pub mod BufferPool
pub mod Server
pub mod WebSocket
pub mod Streams
pub mod Bridge
pub mod UdpBridge
pub mod Client
