-- ===== src/Server/Passes.antt =====
-- One pass of `ProcessRequests` over the clients.
use communo.Prelude.{
  take, ◌⊎◌, memcpy_uint-Ends, bswap, codes, ℕ, zero, suc, ◌+◌, ◌≤◌, ◌≡◌, refl, ◌∙◌, ap, sym, false,
  List, [], ◌∷◌, ◌++◌, append_assoc, append-nil, none, some, arith, ℤ, Bytes, ok, ◌>>=◌, leb,
  length, length-append, get_elem?, inl, inr, Ends, returned, if-Ends, bind-Ends, Ends-map,
}
use communo.Server.{ClientSocket, Event, World, DoubleArith, clients, buffer_of}
use communo.Server.Dispatch.{call_handler}
use communo.Server.Requests.{
  buffer_size, Activity, quiet, unread, received, is_closing, drop_client, fill_buffer,
  serve_client, process_loop, process_requests,
}
use communo.Server.Frame.{connections, Keeps, Keeps-refl, send-Keeps}
use communo.Server.Handled.{handle_opcode-Handles}
use communo.Server.Places.{drop_client-connections, at_iterator, at_end, length-connections}

-- The connections that a pass leaves, in their order: all but those that `SSL_read` has no bytes of.
abbrev pub survivors : (ℤ → Activity) → List ClientSocket → List ClientSocket
survivors env [] = []
survivors env (client ∷ rest) =
    let others = survivors env rest in
    elim (env client.socket) [ unread ↦ others | _ ↦ client ∷ others ]

-- From `w` a pass leads to `w'` with the given connections; the server's state and its count of
-- clients stay, and what was done before stays done.
pub record Passed (target : List ClientSocket) (w w' : World) : Type 0 where
  pub connected : connections w' ≡ target
  pub state : w'.server.server_state ≡ w.server.server_state
  pub counted : w'.server.unique_client_counter ≡ w.server.unique_client_counter
  pub history : (events : List Event) × (w'.events ≡ w.events ++ events)

-- A step that keeps state and count, followed by the rest of the pass.
Passed-after :
    (target : List ClientSocket) (u v : World)
    → v.server.server_state ≡ u.server.server_state
    → v.server.unique_client_counter ≡ u.server.unique_client_counter
    → (events : List Event) → v.events ≡ u.events ++ events
    → (w : World) → Passed target v w
    → Passed target u w
Passed-after target u v s c events e w p =
    let (more, f) = p.history in
    record {
      connected = p.connected;
      state = p.state ∙ s;
      counted = p.counted ∙ c;
      history = (events ++ more, f ∙ ap (λ x. x ++ more) e ∙ append_assoc u.events events more);
    }

pub serve_client-Ends :
    (lib : DoubleArith) (now i : ℕ) (client : ClientSocket) (bytes : Bytes) (w : World)
    → get_elem? (clients w) i ≡ some client
    → Ends (Keeps (fill_buffer bytes w)) (serve_client lib now i client bytes w)
unfolding serve_client call_handler
serve_client-Ends lib now i client bytes w here =
    let filled = fill_buffer bytes w in
    rw here (
      if-Ends (leb 2 (length bytes))
        (bind-Ends (memcpy_uint-Ends (buffer_of filled) 0 2) (λ opcode u.
          handle_opcode-Handles lib now i client (length bytes) (bswap 2 opcode) filled here))
        (returned (send-Keeps client (codes "Invalid packet.") filled)))

pub Activity-cases :
    (a : Activity) → (a ≡ unread) ⊎ (a ≡ quiet) ⊎ ((bytes : Bytes) × (a ≡ received bytes))
Activity-cases unread = inl refl
Activity-cases quiet = inr (inl refl)
Activity-cases (received bytes) = inr (inr (bytes, refl))

module _ (lib : DoubleArith) (now : ℕ) (env : ℤ → Activity) where
  -- The rest of the loop, from any world on, does what the theorem says of it.
  abbrev Rest : ℕ → Type 0
  Rest fuel =
      (front rest : List ClientSocket) (i : ℕ) (w : World)
      → is_closing w.server.server_state ≡ false
      → connections w ≡ front ++ rest
      → i ≡ length front
      → length rest ≤ fuel
      → Ends (Passed (front ++ survivors env rest) w) (process_loop lib now env fuel i w)

  Passed-quiet :
      (fuel : ℕ) (front : List ClientSocket) (c : ClientSocket) (rest : List ClientSocket)
      (w v : World)
      → Rest fuel
      → is_closing v.server.server_state ≡ false
      → Keeps w v
      → connections w ≡ front ++ (c ∷ rest)
      → length rest ≤ fuel
      → Ends
          (Passed (front ++ (c ∷ survivors env rest)) w)
          (process_loop lib now env fuel (length front + 1) v)
  Passed-quiet fuel front c rest w v ih o k e f =
      let (events, h) = k.history in
      let place : length front + 1 ≡ length (front ++ (c ∷ [])) =
        omega (arith, length-append front (c ∷ [])) in
      let split : connections v ≡ (front ++ (c ∷ [])) ++ rest =
        k.connected ∙ e ∙ sym (append_assoc front (c ∷ []) rest) in
      Ends-map (λ u p. Passed-after _ w v k.state k.counted events h u (rw append_assoc at p))
        (ih (front ++ (c ∷ [])) rest (length front + 1) v o split place f)

  -- The rounds of the loop as equations.
  module _ (fuel i : ℕ) (client : ClientSocket) (w : World)
      (there : get_elem? (clients w) i ≡ some client)
      (open_ : is_closing w.server.server_state ≡ false) where
    pub round_gone :
        env client.socket ≡ unread
        → process_loop lib now env (suc fuel) i w
          ≡ process_loop lib now env fuel i (drop_client i client w)
    unfolding process_loop
    round_gone a = rw (process_loop, there, open_, a)

    pub round_quiet :
        env client.socket ≡ quiet
        → process_loop lib now env (suc fuel) i w ≡ process_loop lib now env fuel (i + 1) w
    unfolding process_loop
    round_quiet a = rw (process_loop, there, open_, a)

    pub round_received :
        (bytes : Bytes)
        → env client.socket ≡ received bytes
        → process_loop lib now env (suc fuel) i w ≡ (
            serve_client lib now i client (take buffer_size bytes) w
            >>= process_loop lib now env fuel (i + 1))
    unfolding process_loop
    round_received bytes a = rw (process_loop, there, open_, a)

  pub round_end :
      (fuel i : ℕ) (w : World)
      → get_elem? (clients w) i ≡ none
      → process_loop lib now env fuel i w ≡ ok w
  unfolding process_loop
  round_end zero i w out = rw (process_loop, out)
  round_end (suc fuel) i w out = rw (process_loop, out)

  Passed-gone :
      (fuel : ℕ) (front : List ClientSocket) (c client : ClientSocket) (rest : List ClientSocket)
      (w : World)
      → Rest fuel
      → is_closing w.server.server_state ≡ false
      → connections w ≡ front ++ (c ∷ rest)
      → length rest ≤ fuel
      → Ends
          (Passed (front ++ survivors env rest) w)
          (process_loop lib now env fuel (length front) (drop_client (length front) client w))
  unfolding drop_client
  Passed-gone fuel front c client rest w ih o e f =
      Ends-map (λ u p. Passed-after _ w (drop_client (length front) client w) refl refl _ refl u p)
        (ih front rest (length front) (drop_client (length front) client w) o
          (drop_client-connections client front c rest w e) refl f)

  Passed-end :
      (fuel : ℕ) (front : List ClientSocket) (w : World)
      → connections w ≡ front ++ []
      → Ends (Passed (front ++ []) w) (process_loop lib now env fuel (length front) w)
  Passed-end fuel front w e = rw (round_end fuel (length front) w (at_end front w e)) (
      returned (record {
        connected = e;
        state = refl;
        counted = refl;
        history = ([], sym (append-nil w.events));
      }))

  Passed-received :
      (fuel : ℕ) (front : List ClientSocket) (c client : ClientSocket) (rest : List ClientSocket)
      (bytes : Bytes) (w : World)
      → Rest fuel
      → is_closing w.server.server_state ≡ false
      → connections w ≡ front ++ (c ∷ rest)
      → length rest ≤ fuel
      → get_elem? (clients w) (length front) ≡ some client
      → Ends (Passed (front ++ (c ∷ survivors env rest)) w) (
          serve_client lib now (length front) client bytes w
          >>= process_loop lib now env fuel (length front + 1))
  unfolding fill_buffer
  Passed-received fuel front c client rest bytes w ih o e f there =
      bind-Ends (serve_client-Ends lib now (length front) client bytes w there) (λ v k.
        let open_ : is_closing v.server.server_state ≡ false = ap is_closing k.state ∙ o in
        Ends-map
          (λ u p.
            Passed-after _ w (fill_buffer bytes w) refl refl [] (sym (append-nil w.events)) u p)
          (Ends-map
            (λ u p. record {
              connected = p.connected;
              state = p.state;
              counted = p.counted;
              history = p.history;
            })
            (Passed-quiet fuel front c rest (fill_buffer bytes w) v ih open_ k e f)))

  loop-Passed : (fuel : ℕ) → Rest fuel
  loop-Passed zero front [] i w o e p f = rw p (Passed-end zero front w e)
  loop-Passed zero front (c ∷ rest) i w o e p f = elim f [ ]
  loop-Passed (suc fuel) front [] i w o e p f = rw p (Passed-end (suc fuel) front w e)
  loop-Passed (suc fuel) front (c ∷ rest) i w o e p f =
      let (client, there, same) = at_iterator front c rest w e in
      let socket : env client.socket ≡ env c.socket = ap (λ x. env x.socket) same in
      let ih = loop-Passed fuel in
      let short : length rest ≤ fuel = omega arith in
      elim (Activity-cases (env c.socket)) [
        | inl a ↦
            rw (p, survivors, a, round_gone fuel (length front) client w there o (socket ∙ a))
              (Passed-gone fuel front c client rest w ih o e short)
        | inr (inl a) ↦
            rw (p, survivors, a, round_quiet fuel (length front) client w there o (socket ∙ a))
              (Passed-quiet fuel front c rest w w ih o (Keeps-refl w) e short)
        | inr (inr (bytes, a)) ↦
            rw
              (
                p,
                survivors,
                a,
                round_received fuel (length front) client w there o bytes (socket ∙ a),
              )
              (Passed-received fuel front c client rest (take buffer_size bytes) w ih o e short
                there)
      ]

-- While the server is not closing, a pass over the clients ends, whatever they sent, and where it
-- returns, exactly those clients have been dropped whose socket is reported and of which SSL_read
-- returns no bytes: not only where the connection is closed or failed, but also where it is alive and no
-- whole record has arrived yet. Of the others nothing but the room has changed, and the server's
-- state and its count of clients are as before.
pub process_requests-Passed :
    (lib : DoubleArith) (now : ℕ) (env : ℤ → Activity) (w : World)
    → is_closing w.server.server_state ≡ false
    → Ends (Passed (survivors env (connections w)) w) (process_requests lib now env w)
unfolding process_requests
process_requests-Passed lib now env w o =
    loop-Passed lib now env (length (clients w)) [] (connections w) 0 w o refl refl
      (omega (arith, length-connections (clients w)))
