-- ===== src/Server.antt =====
-- src/server/Server.h: the state of the server, and what it does to the outside. Of src/server/Server.cpp, writing
-- to a client is in `Send`, the handlers are in `Handlers`, `CallHandler` in `Dispatch`, `ProcessRequests`
-- in `Requests` and `HandleNewConnections` in `Connect`; the other modules below hold proofs.
pub mod Lookup
pub mod Send
pub mod Handlers
pub mod Dispatch
pub mod Requests
pub mod Packet
pub mod Wire
pub mod Doubles
pub mod Addition
pub mod PrivateMessage
pub mod Join
pub mod Verdicts
pub mod Rooms
pub mod ClientList
pub mod Listing
pub mod Erase
pub mod Frame
pub mod Handled
pub mod Places
pub mod Passes
pub mod Truncated
pub mod Counting
pub mod Connect
pub mod Handshake
pub mod Admission
pub mod Lasting
pub mod Effects
pub mod Others
pub mod Access
pub mod View
pub mod Refine
pub mod Iterator
pub mod Simulation
pub mod Traces
pub mod Entering
pub mod Guarded
pub mod Midway
pub mod Audience
pub mod Options
pub mod Launching
pub mod Pool
pub mod Watching
pub mod Main
pub mod Setup
pub mod Daemon
pub mod Stages
pub mod Startup
pub mod Running
pub mod Reach
pub mod Stopping
pub mod Ending
use communo.Prelude.{ℕ, Bool, List, Bytes, Option, ℤ}
use communo.Chat.{Chat}
use communo.Universe.{Universe}

pub data ServerState : Type 0 where
  not_started started closing closed : ServerState

-- `ssl` names the TLS connection that the pointer leads to, `none` for nullptr.
pub record ClientSocket : Type 0 where
  pub socket : ℤ
  pub ssl : Option ℕ
  pub ssl_enabled : Bool
  pub chat_room_joined : Bool
  pub joined_chat_room_id : ℕ
  pub client_id : ℕ
  pub client_username : Bytes

-- What the process does to the outside: the calls on a TLS connection and on a socket.
pub data Event : Type 0 where
  ssl_write : Option ℕ → Bytes → Event
  ssl_free ssl_shutdown ssl_ctx_free : ℕ → Event
  shutdown_socket close_socket : ℤ → Event

-- The members of `Server` that the handlers use. Times are nanoseconds of the steady clock.
pub record Server : Type 0 where
  pub client_sockets : List ClientSocket
  pub server_state : ServerState
  pub unique_client_counter : ℕ
  pub buffer : Bytes
  pub send_hello_msg : Bool
  pub start_time : ℕ

-- The process: the server, the singletons `sChat` and `sUniverse`, and what it did so far.
pub record World : Type 0 where
  pub server : Server
  pub chat : Chat
  pub universe : Universe
  pub events : List Event

abbrev pub clients : World → List ClientSocket
clients w = w.server.client_sockets

abbrev pub buffer_of : World → Bytes
buffer_of w = w.server.buffer

-- The double arithmetic of `CallHandlerAdd`, on bit patterns: the conversions of an integer and of a
-- float, and the sum.
pub record DoubleArith : Type 0 where
  pub of_int : ℤ → ℕ
  pub of_float : ℕ → ℕ
  pub add : ℕ → ℕ → ℕ
