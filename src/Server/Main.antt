-- ===== src/Server/Main.antt =====
-- src/server/Main.cpp: the loop of `main`, with what the signal handlers do.
use communo.Prelude.{
  ℕ, zero, suc, Bool, true, false, List, [], ◌∷◌, ◌++◌, Option, none, some, ℤ, Result, ok,
  out_of_fuel, ◌>>=◌, if◌then◌else◌,
}
use communo.Server.{
  ServerState, closing, closed, ClientSocket, Event, ssl_ctx_free, World, DoubleArith, clients,
}
use communo.Server.Requests.{
  Activity, quiet, is_closing, emit, close_events, destroy_events, process_requests,
}
use communo.Server.Connect.{Incoming, handle_new_connections}
use communo.Server.Pool.{pool_activity, fd_isset}

-- What one round of the loop meets: a connection that waits, how many rounds its handshake may take,
-- what the sockets that `select` reports have to read, the clock, and whether a signal has asked for
-- the end when that is tested.
pub record Tick : Type 0 where
  pub incoming : Option Incoming
  pub fuel : ℕ
  pub activity : ℤ → Activity
  pub now : ℕ
  pub closing_requested : Bool

-- Only a descriptor in the set can be reported.
abbrev pub reported : List ℕ → (ℤ → Activity) → ℤ → Activity
reported fds activity socket = if fd_isset socket fds then activity socket else quiet

abbrev pub all_close_events : List ClientSocket → List Event
all_close_events [] = []
all_close_events (client ∷ rest) = close_events client ++ all_close_events rest

abbrev pub set_state : ServerState → World → World
set_state state w = record w { server = record w.server { server_state = state } }

-- `Server::ClosingRequested`
unfoldable pub closing_requested : World → World
closing_requested w = emit (all_close_events (clients w)) (set_state closing w)

-- `Server::CloseServer`
abbrev pub close_server : World → World
close_server w = set_state closed w

-- The end of a round: the two tests behind the `try` block.
unfoldable pub finish_round : Bool → World → World
unfolding closing_requested
finish_round requested w =
    let w' = if requested then closing_requested w else w in
    if is_closing w'.server.server_state then close_server w' else w'

-- One round. Its `catch` is for `CommunoException`, which nothing in these three calls throws, so that
-- any other exception ends the program.
unfoldable pub round : DoubleArith → ℤ → Tick → World → Result World
unfolding finish_round
round lib master tick w = do
  (fds, max_sd) ← pool_activity master w
  accepted ←
      handle_new_connections (if fd_isset master fds then tick.incoming else none) tick.fuel w
  served ← process_requests lib tick.now (reported fds tick.activity) accepted
  ok (finish_round tick.closing_requested served)

abbrev pub is_closed : ServerState → Bool
is_closed closed = true
is_closed _ = false

-- `while (server.getServerState() != eServerState::CLOSED)`, with the ticks of the rounds.
unfoldable pub main_loop : DoubleArith → ℤ → (ℕ → Tick) → ℕ → ℕ → World → Result World
unfolding round
main_loop lib master ticks zero k w = out_of_fuel
main_loop lib master ticks (suc fuel) k w = elim (is_closed w.server.server_state) [
  | true ↦ ok w
  | false ↦ round lib master (ticks k) w >>= main_loop lib master ticks fuel (suc k)
]

-- What `~Server` does to the clients that are still in the vector, in its order.
unfoldable pub destroy_clients : List ClientSocket → List Event
unfolding destroy_events
destroy_clients [] = []
destroy_clients (client ∷ rest) = destroy_events client ++ destroy_clients rest

-- The body of `~Server`: the TLS context is freed, if there is one.
abbrev pub destroy_context : Option ℕ → List Event
destroy_context none = []
destroy_context (some ctx) = ssl_ctx_free ctx ∷ []

-- The end of `main`, where the server goes out of scope: the body of its destructor, and then the
-- members, the clients among them.
unfoldable pub end_server : Option ℕ → World → World
unfolding destroy_clients
end_server ctx w = emit (destroy_context ctx ++ destroy_clients (clients w)) w

-- `main` from its loop on, with the TLS context of the server.
unfoldable pub run_server : DoubleArith → Option ℕ → ℤ → (ℕ → Tick) → ℕ → World → Result World
unfolding main_loop end_server
run_server lib ctx master ticks fuel w = do
  closed_world ← main_loop lib master ticks fuel 0 w
  ok (end_server ctx closed_world)
