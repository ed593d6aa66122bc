-- ===== src/Lib.antt =====
-- Communo: a chat server and its client that talk over TLS, one packet a record: a 16-bit opcode in
-- network order and a payload. Paths are from the root of the repository.
--
-- The parts and where they are modelled:
--   src/common/NumParser.cpp, .h   NumParser: the type `Number`, how numbers stand in a packet
--     (`append_number`, `read_number`); NumParser/Parse: `parse_number` and what it calls;
--     NumParser/Show: `number_to_string` and `print_number`.
--   src/common/OpCodes.h, SharedDefinitions.h   OpCodes, SharedDefinitions: the codes.
--   src/server/Universe.h          Universe: the counter that all clients share.
--   src/server/Chat.h, Chat.cpp, Database.cpp   Chat: the table of rooms, its tests and its loading.
--   src/server/Server.h, Server.cpp   Server: the state; Server/Send: writing to a client;
--     Server/Handlers: the `CallHandler…` methods; Server/Dispatch: `CallHandler`; Server/Requests:
--     `ProcessRequests` and the moves of `ClientSocket`; Server/Connect: `HandleNewConnections`,
--     `ClientSocket::InitSSL` and `SendMOTD`; Server/Pool: `PoolActivity`.
--   src/server/Main.cpp            Server/Setup: `InitDaemon`, the calls from `InitSSL` to
--     `InitEntities` in their `try` blocks, and `~Server`; Server/Options: the class `Options`, and what
--     `main` makes of it; Server/Main: the loop of `main`, with `ClosingRequested`, `CloseServer`
--     and what the end of the server does to its TLS context and its clients.
--   src/common/Logging.h, Logging.cpp   Logging.
--   src/client/Client.h, Client.cpp   Client: the `send…` methods; Client/Replies:
--     `processReplyFromServerIfAny` from the packet that was read on; Client/Polling: that method up to
--     there, and the thread that calls it; Client/Setup: connecting, the TLS set-up and `~Client`.
--   src/client/Main.cpp            Cli: the class `CLI` and its table of commands; Cli/Handlers: the
--     lambdas of `main`, and `CLI::run`.
-- Membership is the abstract specification of what the server promises about rooms: who is connected
-- and in which room, and which rooms there are, changed by the requests of the clients. Server/View
-- is the server seen so; Server/Refine, Server/Simulation and Server/Traces hold what a request, a
-- pass and a run do to that view, Server/Midway the worlds inside a pass, Server/Guarded and
-- Server/Audience what follows for a protected room.
-- The other modules under NumParser, Chat, Server, Cli and Logging hold proofs, named for what they
-- prove; Prelude holds what all share, Checks applies the theorems to a small server.
--
-- How they interact: the client's packet is what `serve_client` puts into the server's buffer;
-- `call_handler` reads the opcode there and calls a handler, which reads the table of rooms and the
-- counter and writes packets to clients; `process_reply` is the client's reading of those.
-- `run_line` makes a packet of a typed line; `round` is what the server does between two tests of
-- its state.
--
-- State is passed explicitly: a `World` is the server with its buffer, the two singletons, and
-- the list of what was done to sockets and TLS connections. A pointer to a client is its index
-- in the vector and its value. A `Result` is a value, an exception, undefined behaviour (a read
-- outside an object) or fuel that ran out. The calls on a TLS connection that was freed are
-- recorded as what was done, and not as undefined behaviour, so that they can be counted. Text
-- is a list of byte values. A w-bit number is a natural number below 2 ^ w or an integer in
-- range; the host is little-endian, so that what the source copies without `htons` stands in
-- little-endian order. A float is its bit pattern.
--
-- Parameters: the arithmetic on doubles (`DoubleArith`), `strtof` and `strtod` (`FloatText`), the
-- texts of floats (`FloatShow`), SHA-256 (an argument of `send_join_room_request`), the clock
-- (times are arguments), what `select` and `SSL_read` find on a socket (`Activity`), what accepting
-- and shaking hands is answered with (`Incoming`), the rows that sqlite hands over (`Row`,
-- `Storage`), what `poll` reports to the client (`Poll`), whether the log file takes a line
-- (`LogFile`), the answers to the calls that set up the daemon, the sockets and TLS (`Process`,
-- `Opening`, `Network`, `Tls`), and when a signal asks for the end (`Tick`, which holds all that
-- one round of the server meets).
-- `SSL_read` reports either bytes, of which no more than the buffer's 4096 are taken, or none; the
-- second stands for a lost connection and for a record that is not there yet alike, since the source
-- does not ask which it is.
--
-- Fuel: `add_loop` gets the size of the packet, and each round takes two bytes at least; the
-- client's loop over a list gets the length of the payload, and each round takes ten bytes at
-- least; the pass over the clients gets their number, and each round passes or drops one; the
-- greeting's loop gets the length of the greeting, and each write takes one byte at least. The
-- rounds of a handshake are bounded by its deadline only: there the fuel is an argument, one more
-- than the number of a round that decides. The thread of the client is taken for a number of
-- rounds. The server's loop gets two more than the number of the round in which a signal is seen.
--
-- Not modelled: where the server logs, and failures of `select` and `SSL_write`, which are logged
-- only; CommunoException, whose header DebugUtils.h is not in the repository, beyond that it is
-- thrown and caught, so that it is an argument of `set_up` whether its SendSystemErrDialogBox
-- returns; the prompt of the command line, and what happens where the thread that shows replies
-- uses the TLS connection at the same time; third_party/sqlite, a library of its own.
pub mod Prelude
pub mod NumParser
pub mod OpCodes
pub mod Logging
pub mod SharedDefinitions
pub mod Universe
pub mod Chat
pub mod Membership
pub mod Server
pub mod Client
pub mod Cli
pub mod Checks
