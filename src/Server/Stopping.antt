-- ===== src/Server/Stopping.antt =====
-- How the loop of the server ends.
use communo.Prelude.{
  Ends-eq, Ends-map, ◌++◌, All, ◌⊎◌, ℕ, zero, suc, ◌+◌, ◌*◌, ◌^◌, ◌<◌, ◌≡◌, refl, ap, ◌∙◌, Bool,
  true, false, List, [], ◌∷◌, Option, none, some, arith, ℤ, pos, negsuc, ok, ◌>>=◌, if◌then◌else◌,
  Bool-cases, Ends, returned, faulted, Any, if-Ends, bind-Ends, inl, inr, ltb,
}
use communo.Server.{Event, ClientSocket, World, DoubleArith, clients}
use communo.Server.Requests.{is_closing}
use communo.Server.Admission.{Accepted, accept_socket_outcome, Admitted, IsSecure}
use communo.Server.Connect.{Incoming, handle_new_connections}
use communo.Server.Handshake.{Decides, handshake_ends}
use communo.Server.Passes.{process_requests-Passed}
use communo.Server.Pool.{
  fd_add, fd_setsize, fd_isset, is_positive, pool_loop, pool_activity, larger,
}
use communo.Server.Main.{Tick, reported, round, is_closed, all_close_events, main_loop}
use communo.Server.Running.{Safe, Rounded}
use communo.Server.Reach.{round-Rounded}

fd_add-Ends : (fd : ℤ) (fds : List ℕ) → Ends Any (fd_add fd fds)
unfolding fd_add
fd_add-Ends (negsuc n) fds = faulted
fd_add-Ends (pos n) fds = if-Ends (ltb n fd_setsize) (returned tt) faulted

pool_loop-Ends :
    (all : List ClientSocket) (fds : List ℕ) (top : ℤ) → Ends Any (pool_loop all (fds, top))
unfolding pool_loop
pool_loop-Ends [] fds top = returned tt
pool_loop-Ends (client ∷ rest) fds top =
    bind-Ends (if-Ends (is_positive client.socket) (fd_add-Ends client.socket fds) (returned tt))
      (λ more u. pool_loop-Ends rest more (larger top client.socket))

pool_activity-Ends : (master : ℤ) (w : World) → Ends Any (pool_activity master w)
unfolding pool_activity
pool_activity-Ends master w =
    bind-Ends (fd_add-Ends master []) (λ fds u. pool_loop-Ends (clients w) fds master)

-- The fuel of a round is enough for the handshake of the connection that waits in it, if one does.
abbrev pub IsPrompt : Option Incoming → ℕ → Type 0
IsPrompt none fuel = Unit {0}
IsPrompt (some incoming) fuel =
    (n : ℕ) × (fuel ≡ suc n) × Decides (incoming.now + 10 * 10 ^ 9) (incoming.rounds n)

connections-Ends :
    (waiting_one : Option Incoming) (fuel : ℕ) (w : World)
    → IsPrompt waiting_one fuel
    → Admitted w.server
    → w.server.unique_client_counter + 1 < 2 ^ 64
    → Ends (Accepted w) (handle_new_connections waiting_one fuel w)
unfolding handle_new_connections
connections-Ends none fuel w prompt a room =
    returned (record {
      admitted = a;
      counted = omega arith;
      state = refl;
      chat = refl;
      arrived = inl refl;
    })
connections-Ends (some incoming) fuel w (n, size, decides) a room =
    elim (accept_socket_outcome incoming fuel incoming.socket w a room) [
      | inl (w', f, k) ↦ rw f (returned k)
      | inr (u, e) ↦
          let same : n + 0 ≡ n = omega arith in
          let (done, f) =
            handshake_ends (incoming.now + 10 * 10 ^ 9) incoming.rounds n 0 (rw same decides) in
          absurd (cc (e, f, size))
    ]

IsPrompt-if :
    (b : Bool) (waiting_one : Option Incoming) (fuel : ℕ)
    → IsPrompt waiting_one fuel
    → IsPrompt (if b then waiting_one else none) fuel
IsPrompt-if true waiting_one fuel prompt = prompt
IsPrompt-if false waiting_one fuel prompt = tt

round-Ends :
    (limit : ℕ) (lib : DoubleArith) (master : ℤ) (tick : Tick) (w : World)
    → Safe limit w
    → limit + 1 < 2 ^ 64
    → IsPrompt tick.incoming tick.fuel
    → Ends Any (round lib master tick w)
unfolding round
round-Ends limit lib master tick w s room prompt = bind-Ends (pool_activity-Ends master w) (λ p u.
    bind-Ends
      (connections-Ends (if fd_isset master p.0 then tick.incoming else none) tick.fuel w
        (IsPrompt-if (fd_isset master p.0) tick.incoming tick.fuel prompt) s.admitted
        (omega (arith, s.counted)))
      (λ accepted a.
        bind-Ends
          (process_requests-Passed lib tick.now (reported p.0 tick.activity) accepted
            (ap is_closing a.state ∙ s.going))
          (λ served v. returned tt)))

abbrev pub Stopped : World → Type 0
Stopped w = is_closed w.server.server_state ≡ true

closed_loop :
    (lib : DoubleArith) (master : ℤ) (ticks : ℕ → Tick) (fuel k : ℕ) (w : World)
    → Stopped w
    → main_loop lib master ticks (suc fuel) k w ≡ ok w
unfolding main_loop
closed_loop lib master ticks fuel k w shut = rw (main_loop, shut) refl

running_loop :
    (lib : DoubleArith) (master : ℤ) (ticks : ℕ → Tick) (fuel k : ℕ) (w : World)
    → is_closed w.server.server_state ≡ false
    → main_loop lib master ticks (suc fuel) k w
      ≡ (round lib master (ticks k) w >>= main_loop lib master ticks fuel (suc k))
unfolding main_loop
running_loop lib master ticks fuel k w running = rw (main_loop, running) refl

-- The rest of the loop decides, if its test of the state is not what ends it.
-- The server as the loop leaves it, after a round that has noticed the signal.
pub record Left (w : World) : Type 0 where
  pub shut : Stopped w
  pub secured : All IsSecure (clients w)
  pub disconnected : (earlier : List Event) × (w.events ≡ earlier ++ all_close_events (clients w))

abbrev IsRunning : World → Type 0
IsRunning w = is_closed w.server.server_state ≡ false

-- After a round the loop goes on, or it is at its end.
rounded :
    (limit : ℕ) (tick : Tick) (w w' : World)
    → IsRunning w
    → Rounded limit tick w w'
    → ((tick.closing_requested ≡ false) × IsRunning w') ⊎ Left w'
rounded limit tick w w' running r = elim (Bool-cases tick.closing_requested) [
  | inr going ↦ inl (going, ap is_closed (r.kept going) ∙ running)
  | inl asked ↦ inr (record {
    shut = r.ended asked;
    secured = r.safe.admitted.secured;
    disconnected = r.disconnected asked;
  })
]

one_round :
    (limit : ℕ) (lib : DoubleArith) (master : ℤ) (ticks : ℕ → Tick) (fuel k : ℕ) (w : World)
    → Safe limit w
    → IsRunning w
    → limit + 1 < 2 ^ 64
    → IsPrompt (ticks k).incoming (ticks k).fuel
    → ((w' : World)
        → (ticks k).closing_requested ≡ false
        → Safe (limit + 1) w'
        → IsRunning w'
        → Ends Left (main_loop lib master ticks (suc fuel) (suc k) w'))
    → Ends Left (main_loop lib master ticks (suc (suc fuel)) k w)
one_round limit lib master ticks fuel k w s running room prompt after =
    let same = Ends-eq (round-Ends limit lib master (ticks k) w s room prompt) (λ w' e u. e) in
    rw (running_loop lib master ticks (suc fuel) k w running) (
      bind-Ends {Q = λ w'. round lib master (ticks k) w ≡ ok w'} same (λ w' e.
        let r = round-Rounded limit lib master (ticks k) w w' s room e in
        elim (rounded limit (ticks k) w w' running r) [
          | inr left ↦ rw (closed_loop lib master ticks fuel (suc k) w' left.shut) (returned left)
          | inl (going, running') ↦ after w' going r.safe running'
        ]))

main_loop-from-Left :
    (lib : DoubleArith) (master : ℤ) (ticks : ℕ → Tick) (n k limit : ℕ) (w : World)
    → Safe limit w
    → IsRunning w
    → limit + suc n < 2 ^ 64
    → ((i : ℕ) → IsPrompt (ticks i).incoming (ticks i).fuel)
    → (ticks (n + k)).closing_requested ≡ true
    → Ends Left (main_loop lib master ticks (suc (suc n)) k w)
main_loop-from-Left lib master ticks zero k limit w s running room prompt asked =
    let here : zero + k ≡ k = omega arith in
    one_round limit lib master ticks zero k w s running (omega arith) (prompt k)
      (λ w' going safe r. absurd (cc (going, rw here at asked)))
main_loop-from-Left lib master ticks (suc n) k limit w s running room prompt asked =
    let same : n + suc k ≡ suc n + k = omega arith in
    one_round limit lib master ticks (suc n) k w s running (omega arith) (prompt k)
      (λ w' going safe r.
        main_loop-from-Left lib master ticks n (suc k) (limit + 1) w' safe r (omega arith) prompt
          (rw same asked))

pub main_loop-Left :
    (lib : DoubleArith) (master : ℤ) (ticks : ℕ → Tick) (n limit : ℕ) (w : World)
    → Safe limit w
    → is_closed w.server.server_state ≡ false
    → limit + suc n < 2 ^ 64
    → ((i : ℕ) → IsPrompt (ticks i).incoming (ticks i).fuel)
    → (ticks n).closing_requested ≡ true
    → Ends Left (main_loop lib master ticks (suc (suc n)) 0 w)
main_loop-Left lib master ticks n limit w s running room prompt asked =
    let same : n + 0 ≡ n = omega arith in
    main_loop-from-Left lib master ticks n 0 limit w s running room prompt (rw same asked)

-- From a safe server, where the handshake of every connection decides within the fuel of its round,
-- a signal that asks for the end ends the loop, with the server closed, no later than with the round
-- that notices it, if no exception and no undefined behaviour ended the program before. This for as
-- many rounds as fit the counter of connections.
pub main_loop-Ends :
    (lib : DoubleArith) (master : ℤ) (ticks : ℕ → Tick) (n limit : ℕ) (w : World)
    → Safe limit w
    → limit + suc n < 2 ^ 64
    → ((i : ℕ) → IsPrompt (ticks i).incoming (ticks i).fuel)
    → (ticks n).closing_requested ≡ true
    → Ends Stopped (main_loop lib master ticks (suc (suc n)) 0 w)
main_loop-Ends lib master ticks n limit w s room prompt asked =
    elim (Bool-cases (is_closed w.server.server_state)) [
      | inl shut ↦ rw (closed_loop lib master ticks (suc n) 0 w shut) (returned shut)
      | inr running ↦
          Ends-map (λ w' left. left.shut)
            (main_loop-Left lib master ticks n limit w s running room prompt asked)
    ]
