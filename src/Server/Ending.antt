-- ===== src/Server/Ending.antt =====
-- The end of the server: the loop, and what is left when the server goes out of scope.
use communo.Prelude.{
  ℕ, suc, ◌+◌, ◌^◌, ◌<◌, ◌≡◌, refl, true, false, List, [], ◌∷◌, ◌++◌, append_assoc, none, Option,
  some, ℤ, map, All, Ends, returned, bind-Ends,
}
use communo.Server.{
  ClientSocket, Event, ssl_free, ssl_shutdown, ssl_ctx_free, shutdown_socket, close_socket, World,
  DoubleArith, clients,
}
use communo.Server.Requests.{destroy_events}
use communo.Server.Admission.{IsSecure}
use communo.Server.Main.{
  Tick, is_closed, all_close_events, destroy_context, destroy_clients, end_server, run_server,
}
use communo.Server.Running.{Safe}
use communo.Server.Stopping.{IsPrompt, Left, main_loop-Left}

-- Each TLS state is freed, and used once more.
abbrev pub frees : List ℕ → List Event
frees [] = []
frees (ssl ∷ ids) = ssl_free ssl ∷ ssl_shutdown ssl ∷ frees ids

-- The TLS states that the clients hold.
abbrev pub Holds : List ClientSocket → List ℕ → Type 0
Holds all ids = map (λ c. c.ssl) all ≡ map some ids

destroy_clients-frees :
    (all : List ClientSocket)
    → All IsSecure all
    → (ids : List ℕ) × Holds all ids × (destroy_clients all ≡ frees ids)
unfolding destroy_clients destroy_events
destroy_clients-frees [] h = ([], refl, refl)
destroy_clients-frees (c ∷ all) h =
    let (ssl, held) = h.0.1 in
    let (ids, rest, freed) = destroy_clients-frees all h.1 in
    (ssl ∷ ids, rw (held, rest) refl, rw (held, freed) refl)

-- Each client is shut down and its descriptor closed.
abbrev pub hang_ups : List ClientSocket → List Event
hang_ups [] = []
hang_ups (client ∷ rest) =
    shutdown_socket client.socket ∷ close_socket client.socket ∷ hang_ups rest

all_close_events-hang_ups : (all : List ClientSocket) → all_close_events all ≡ hang_ups all
all_close_events-hang_ups [] = refl
all_close_events-hang_ups (c ∷ all) = rw (all_close_events-hang_ups all) refl

-- The TLS context is freed, if there is one.
abbrev pub context_free : Option ℕ → List Event
context_free none = []
context_free (some ctx) = ssl_ctx_free ctx ∷ []

destroy_context-context_free : (ctx : Option ℕ) → destroy_context ctx ≡ context_free ctx
destroy_context-context_free none = refl
destroy_context-context_free (some ctx) = refl

-- How the program ends: the server is closed; at the end every client of its list has been shut down and
-- its descriptor closed, once each, then the TLS context was freed, and then the TLS state of each
-- client was freed, once, and used by SSL_shutdown.
pub record Ended (ctx : Option ℕ) (w : World) : Type 0 where
  pub shut : is_closed w.server.server_state ≡ true
  pub ids : List ℕ
  pub held : Holds (clients w) ids
  pub earlier : List Event
  pub released : w.events ≡ earlier ++ (hang_ups (clients w) ++ (context_free ctx ++ frees ids))

end_server-Ended : (ctx : Option ℕ) (w : World) → Left w → Ended ctx (end_server ctx w)
unfolding end_server
end_server-Ended ctx w left =
    let (ids, held, freed) = destroy_clients-frees (clients w) left.secured in
    let (earlier, closed_all) = left.disconnected in
    record {
      shut = left.shut;
      ids = ids;
      held = held;
      earlier = earlier;
      released =
          rw
            (
              closed_all,
              freed,
              all_close_events-hang_ups (clients w),
              destroy_context-context_free ctx,
            )
            (append_assoc earlier (hang_ups (clients w)) (context_free ctx ++ frees ids));
    }

-- From a safe server that is not closed, where the handshake of every connection decides within the
-- fuel of its round, a signal that asks for the end ends the program, no later than with the round that
-- notices it, if no exception and no undefined behaviour ended it before. The server is closed then,
-- and the last that was done is: every client of the list was shut down and its descriptor closed, once
-- each and in order, then the TLS context was freed, where there is one, and then the TLS state of each
-- client was freed, once, and used again by SSL_shutdown.
-- This for as many rounds as fit the counter of connections.
pub run_server-Ended :
    (lib : DoubleArith) (ctx : Option ℕ) (master : ℤ) (ticks : ℕ → Tick) (n limit : ℕ) (w : World)
    → Safe limit w
    → is_closed w.server.server_state ≡ false
    → limit + suc n < 2 ^ 64
    → ((i : ℕ) → IsPrompt (ticks i).incoming (ticks i).fuel)
    → (ticks n).closing_requested ≡ true
    → Ends (Ended ctx) (run_server lib ctx master ticks (suc (suc n)) w)
unfolding run_server
run_server-Ended lib ctx master ticks n limit w s running room prompt asked =
    bind-Ends (main_loop-Left lib master ticks n limit w s running room prompt asked)
      (λ w' left. returned (end_server-Ended ctx w' left))
