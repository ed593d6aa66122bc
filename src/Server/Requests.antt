-- ===== src/Server/Requests.antt =====
-- `Server::ProcessRequests`, with the moves of `std::vector::erase` through the move assignment and
-- the destructor of `ClientSocket`.
use communo.Prelude.{
  ℕ, zero, suc, ◌+◌, Bool, true, false, List, [], ◌∷◌, ◌++◌, Option, none, some, ℤ, negsuc, Bytes,
  codes, Result, ok, out_of_fuel, ◌>>=◌, leb, if◌then◌else◌, length, take, drop, get_elem?,
}
use communo.Server.{
  ServerState, closing, ClientSocket, Event, ssl_free, ssl_shutdown, shutdown_socket, close_socket,
  World, DoubleArith, clients, buffer_of,
}
use communo.Server.Send.{send_ssl_packet_to_client_socket}
use communo.Server.Dispatch.{call_handler}

abbrev pub emit : List Event → World → World
emit events w = record w { events = w.events ++ events }

abbrev pub set_clients : List ClientSocket → World → World
set_clients cs w = record w { server = record w.server { client_sockets = cs } }

-- `ClientSocket::close`
abbrev pub close_events : ClientSocket → List Event
close_events client = shutdown_socket client.socket ∷ close_socket client.socket ∷ []

-- What a move leaves behind.
abbrev pub moved_from : ClientSocket
moved_from = record {
  socket = negsuc 0;
  ssl = none;
  ssl_enabled = false;
  chat_room_joined = false;
  joined_chat_room_id = 0;
  client_id = 0;
  client_username = codes "<unk>";
}

abbrev free_events : Option ℕ → List Event
free_events none = []
free_events (some ssl) = ssl_free ssl ∷ []

abbrev is_invalid_socket : ℤ → Bool
is_invalid_socket (negsuc zero) = true
is_invalid_socket _ = false

-- The move assignment onto a client: it gives up what it held, and then is the other one.
unfoldable pub assign_events : ClientSocket → List Event
assign_events target =
    free_events target.ssl
    ++ (if is_invalid_socket target.socket then [] else close_socket target.socket ∷ [])

abbrev destroy_ssl : Option ℕ → List Event
destroy_ssl none = []
destroy_ssl (some ssl) = ssl_free ssl ∷ ssl_shutdown ssl ∷ []

-- `~ClientSocket`
unfoldable pub destroy_events : ClientSocket → List Event
destroy_events client = destroy_ssl client.ssl

-- The moves of an erasure: `hole` stands where the next client is moved to; the last place is
-- destroyed.
unfoldable pub shift_down : ClientSocket → List ClientSocket → List ClientSocket × List Event
unfolding assign_events destroy_events
shift_down hole [] = ([], destroy_events hole)
shift_down hole (client ∷ rest) =
    let (kept, events) = shift_down moved_from rest in (client ∷ kept, assign_events hole ++ events)

-- `m_ClientSocket.erase(begin + i)`
unfoldable pub erase_at : ℕ → List ClientSocket → List ClientSocket × List Event
unfolding shift_down
erase_at i [] = ([], [])
erase_at zero (client ∷ rest) = shift_down client rest
erase_at (suc i) (client ∷ rest) = let (kept, events) = erase_at i rest in (client ∷ kept, events)

-- `it->close(); it = m_ClientSocket.erase(it);`
unfoldable pub drop_client : ℕ → ClientSocket → World → World
unfolding erase_at
drop_client i client w =
    let (kept, events) = erase_at i (clients w) in
    emit (close_events client ++ events) (set_clients kept w)

-- What `FD_ISSET` and `SSL_read` find on a socket in one pass. `quiet`: it is not in the set. `unread`:
-- `SSL_read` returns no bytes, because the connection is closed or failed, or because no whole
-- record has arrived yet (`SSL_ERROR_WANT_READ`, which the sockets, being non-blocking, do report); the
-- source does not tell these apart. `received`: the bytes of the next record; of more than fit the buffer,
-- the first are taken, and the rest is what a later pass finds.
pub data Activity : Type 0 where
  quiet unread : Activity
  received : Bytes → Activity

-- `sizeof(buffer)`, the most that `SSL_read` delivers.
abbrev pub buffer_size : ℕ
buffer_size = 4096

-- `SSL_read` overwrites the front of the buffer; the rest is what earlier packets left.
unfoldable pub fill_buffer : Bytes → World → World
fill_buffer bytes w = record w {
  server = record w.server { buffer = bytes ++ drop (length bytes) (buffer_of w) };
}

abbrev pub is_closing : ServerState → Bool
is_closing closing = true
is_closing _ = false

-- What is done for a socket with bytes to read; they are at most `buffer_size`.
unfoldable pub serve_client : DoubleArith → ℕ → ℕ → ClientSocket → Bytes → World → Result World
unfolding fill_buffer send_ssl_packet_to_client_socket
serve_client arith now i client bytes w =
    if leb 2 (length bytes)
    then call_handler arith now i (length bytes) (fill_buffer bytes w)
    else ok
        (send_ssl_packet_to_client_socket client (codes "Invalid packet.") (fill_buffer bytes w))

-- The loop, from the iterator `i` on; each round erases a client or passes one.
unfoldable pub process_loop : DoubleArith → ℕ → (ℤ → Activity) → ℕ → ℕ → World → Result World
unfolding drop_client serve_client
process_loop arith now env zero i w = elim (get_elem? (clients w) i) [
  | none ↦ ok w
  | some client ↦ out_of_fuel
]
process_loop arith now env (suc fuel) i w = elim (get_elem? (clients w) i) [
  | none ↦ ok w
  | some client ↦ elim (is_closing w.server.server_state) [
    | true ↦ process_loop arith now env fuel i (drop_client i client w)
    | false ↦ elim (env client.socket) [
      | quiet ↦ process_loop arith now env fuel (i + 1) w
      | unread ↦ process_loop arith now env fuel i (drop_client i client w)
      | received bytes ↦
          serve_client arith now i client (take buffer_size bytes) w
          >>= process_loop arith now env fuel (i + 1)
    ]
  ]
]

unfoldable pub process_requests : DoubleArith → ℕ → (ℤ → Activity) → World → Result World
unfolding process_loop
process_requests arith now env w = process_loop arith now env (length (clients w)) 0 w
