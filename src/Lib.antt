-- ===== src/Lib.antt =====
-- Models of the SOCKS5 proxy of this repository, and theorems about them.
--
-- The program listens for SOCKS5 clients (src/main.rs, src/incoming.rs, src/socks5/incoming.rs). For
-- each client it runs a session (src/client_manager.rs): the session greets the client and reads its
-- request (src/socks5/incoming.rs), has the outgoing side connect to the address that was asked for
-- (src/outgoing.rs, src/req_addr.rs), answers with success or with the reason of the failure, and
-- then copies bytes between the two connections until both directions end (src/connection.rs).
--
-- Which file models which part, under the source's names:
--   Base        lists, native numbers, bytes and words
--   Error       src/error.rs: `Error`, and panics beside it. `Outcome` is what a function ends with,
--               `Action` threads the state of a stream through a function that reads and writes.
--   Addr        src/req_addr.rs: `ReqAddr`, `parse_address_v4`, `parse_address_v6`, `parse_domain`,
--               `resolve_local`
--   Net         what tokio promises of a stream: `Tcp` has the operations, `TcpLaws` what they do in
--               terms of the bytes that wait to be read and of those sent
--   Buffer      the fixed buffers of the source: slices, stores and copies, each of which panics out
--               of range
--   Socks5      src/socks5/mod.rs, and `get_reason`, `read_exact` and `write_all` of
--               src/socks5/incoming.rs. Socks5.Auth has `authenticate_client`, Socks5.Request
--               `get_request` and the methods of `Socks5Connected`, Socks5.Reply
--               `send_final_response`; their child modules prove what they do on the wire,
--               and Socks5.Every is about the greeting and the request together.
--   Config      src/config.rs: the configuration and `CfgAddr::into_addr`
--   Outgoing    src/outgoing.rs: `DirectOutgoing` and the reasons of its failures
--   Connection  src/connection.rs: `bicopy`
--   Manager     src/client_manager.rs: `handle_client` over the interfaces `IncomingClient` and
--               `Outgoing`, which Manager.Handle fills with the SOCKS5 session and the direct
--               outgoing; Manager.Codes is about the number that a client is told
--   Server      the listener of src/socks5/incoming.rs, src/incoming.rs and the loop of src/main.rs,
--               and in Server.Main the rest of `main`
--   Http        src/http_parse: `LineParser`, and `HttpHeaderParser` that feeds on it
--   Futures     src/future_ext.rs: `join`, `alt` and `join_on_ok` as what a poll does to them, and
--               `FlagFuture`; Futures.Guard has `drop_guard`
--   Store       src/rocks/connection_manager.rs: `ConnectionManager`
--   Tls         src/tls_stream.rs: `TlsStream` over a session and a socket
--   Preread     src/stream_wrap.rs: `Preread`
--   Rocks       Rocks.Packet: `RocksPacket` of src/rocks/actix_app.rs, and Rocks.Queue: its handler
--               and the queue of the packets, with Rocks.Queue.Timed the future of the handler poll by
--               poll. Rocks.Incoming: `RocksIncoming` of src/rocks/mod.rs.
--               Rocks.Service: src/rocks/hyper_svr.rs, what a request is answered with,
--               `WrapFuture` and `PayloadFuture`, with Rocks.Service.Serving the future of a
--               request poll by poll. Rocks.Helper: src/rocks/hyper_service_helper.rs
--   TlsServer   `temp` of src/hyper_tls_server.rs, a server that reads heads of requests, with
--               TlsServer.Head the request that it builds of one and drops, and in
--               TlsServer.Serving the hyper server that is started there
--   Websocket   src/wsocket.rs: `serve_websocket`, with what it does as a list of events
--   Examples    the theorems at concrete inputs, on streams held in memory
--
-- A string is its UTF-8 bytes. A description that the source formats is a constructor of
-- `Description` with what is put into it. Whether debug logging is on is a parameter where the
-- program depends on it. The error types of the standard library and of the crates are parameters
-- (`Foreign`), and so are the system's calls: streams, name lookup, connecting, listening, copying,
-- and the UTF-8 validation. The accept loop of src/main.rs has no end of its own, so `serve` takes
-- the number of its rounds; one more than the number of clients that are accepted before an accept
-- fails is enough for it to end.
--
-- The loops of src/tls_stream.rs run on fuel: from some fuel on, which the bytes that the socket has
-- and those that the session still has to write bound, each call returns, and always the same. The
-- loop of src/http_parse/mod.rs takes one round more than its input has bytes, since each round but
-- the last reads at least one.
--
-- The accept loops of src/rocks/mod.rs and src/hyper_tls_server.rs run on fuel as well. The
-- first takes one round more than the listener gives streams and errors; the second may never end.
--
-- Parts of the repository are not compiled with the program as it stands (src/tls_stream.rs,
-- src/stream_wrap.rs, src/rocks, src/http_parse, src/future_ext.rs, src/hyper_tls_server.rs,
-- src/wsocket.rs); they are modelled as they are written.
--
-- The futures of src/rocks/hyper_svr.rs are polled against a body that is the list of what its polls
-- give. `map_my_err` and the resolver of src/wsocket.rs, the line parser and the configuration of
-- src/hyper_tls_server.rs are not in the repository: the first only turns an error into another, and
-- the others are parameters.
--
-- Not modelled: the command line's other options, the log, the unused `bad` and `Foo` of
-- src/rocks/hyper_svr.rs, and hyper, rustls, actix, tokio's timer and the websocket themselves.
-- src/config.rs is commented out from line 81 on.
pub mod Base
pub mod Error
pub mod Addr
pub mod Net
pub mod Buffer
pub mod Socks5
pub mod Config
pub mod Outgoing
pub mod Connection
pub mod Manager
pub mod Server
pub mod Http
pub mod Futures
pub mod Store
pub mod Tls
pub mod Preread
pub mod Rocks
pub mod TlsServer
pub mod Websocket
mod Examples
