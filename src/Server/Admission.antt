-- ===== src/Server/Admission.antt =====
-- Who gets into the list of clients.
use mathlib.Core.Path.{subst}
use communo.Prelude.{
  ℕ, suc, ◌+◌, ◌*◌, ◌%◌, ◌^◌, ◌≤◌, ◌<◌, ◌≡◌, ◌≢◌, refl, sym, ap, Bool, true, false, List, [], ◌∷◌,
  ◌++◌, Option, none, some, arith, ℤ, pos, negsuc, ok, out_of_fuel, length, All, All-append, inl,
  inr, ◌⊎◌,
}
use communo.Server.{ClientSocket, Event, close_socket, Server, World, clients}
use communo.Server.Requests.{set_clients, emit}
use communo.Server.Connect.{
  Incoming, handshake, hello_packet, send_motd, new_client, count_client, admit, greet,
  accept_socket, handle_new_connections,
}
use communo.Server.Handshake.{Decides, handshake_ends, init_ssl_cases, motd_ends}

abbrev pub Distinct : List ClientSocket → Type 0
Distinct [] = Unit {0}
Distinct (client ∷ rest) = All (λ c. c.client_id ≢ client.client_id) rest × Distinct rest

abbrev pub IsSecure : ClientSocket → Type 0
IsSecure client = (client.ssl_enabled ≡ true) × ((ssl : ℕ) × (client.ssl ≡ some ssl))

-- The clients have identifiers of their own, below the one that is next, and a TLS connection.
pub record Admitted (s : Server) : Type 0 where
  pub numbered : All (λ c. c.client_id < s.unique_client_counter) s.client_sockets
  pub distinct : Distinct s.client_sockets
  pub secured : All IsSecure s.client_sockets

Distinct-append :
    (all : List ClientSocket) (client : ClientSocket)
    → Distinct all
    → All (λ c. c.client_id < client.client_id) all
    → Distinct (all ++ (client ∷ []))
Distinct-append [] client d below = (tt, tt)
Distinct-append (c ∷ all) client d below = (
  All-append (λ x. x.client_id ≢ c.client_id) all (client ∷ []) d.0
      ((λ same. omega (arith, below.0, same)), tt),
  Distinct-append all client d.1 below.1,
)

All-below :
    (all : List ClientSocket) (m n : ℕ)
    → m ≤ n
    → All (λ c. c.client_id < m) all
    → All (λ c. c.client_id < n) all
All-below [] m n h below = tt
All-below (c ∷ all) m n h below = (omega (arith, below.0), All-below all m n h below.1)

-- The list with one more client, which has the number that was next.
admitted_client :
    (client : ClientSocket) (w : World)
    → Admitted w.server
    → client.client_id ≡ w.server.unique_client_counter
    → IsSecure client
    → w.server.unique_client_counter + 1 < 2 ^ 64
    → Admitted (set_clients (clients w ++ (client ∷ [])) (emit [] (count_client w))).server
admitted_client client w a next secure room =
    let counter = w.server.unique_client_counter in
    let moved : (counter + 1) % 2 ^ 64 ≡ counter + 1 = omega arith in
    record {
      numbered =
          All-append (λ c. c.client_id < (counter + 1) % 2 ^ 64) (clients w) (client ∷ [])
            (All-below (clients w) counter ((counter + 1) % 2 ^ 64) (omega arith) a.numbered)
            (omega arith, tt);
      distinct = Distinct-append (clients w) client a.distinct (rw next a.numbered);
      secured = All-append IsSecure (clients w) (client ∷ []) a.secured (secure, tt);
    }

refused_client :
    (w : World)
    → Admitted w.server
    → w.server.unique_client_counter + 1 < 2 ^ 64
    → Admitted (count_client w).server
refused_client w a room =
    let counter = w.server.unique_client_counter in
    let moved : (counter + 1) % 2 ^ 64 ≡ counter + 1 = omega arith in
    record {
      numbered = All-below (clients w) counter ((counter + 1) % 2 ^ 64) (omega arith) a.numbered;
      distinct = a.distinct;
      secured = a.secured;
    }

send_motd_ends :
    (writes : ℕ → Option ℕ) (client : ClientSocket) (w : World)
    → (events : List Event) × (send_motd writes client w ≡ ok (emit events w))
unfolding send_motd
send_motd_ends writes client w =
    let (events, e) =
      motd_ends writes client.ssl (length hello_packet) 0 hello_packet (omega arith) in
    (events, rw e)

-- The greeting leaves the server as it is.
greet_ends :
    (incoming : Incoming) (hello : Bool) (client : ClientSocket) (w : World)
    → (w' : World) × (greet incoming hello client w ≡ ok w')
      × (w'.server ≡ w.server)
      × (w'.chat ≡ w.chat)
unfolding greet
greet_ends incoming true client w =
    let (events, e) = send_motd_ends incoming.writes client w in (emit events w, e, refl, refl)
greet_ends incoming false client w = (w, refl, refl, refl)

-- One more client stands at the end of the list, under the number that was next and in no room.
pub record Arrived (w w' : World) : Type 0 where
  pub client : ClientSocket
  pub listed : clients w' ≡ clients w ++ (client ∷ [])
  pub numbered : client.client_id ≡ w.server.unique_client_counter
  pub outside : client.chat_room_joined ≡ false

-- What a connection leaves as it was, and the bound on the count.
pub record Accepted (w w' : World) : Type 0 where
  pub admitted : Admitted w'.server
  pub counted : w'.server.unique_client_counter ≤ w.server.unique_client_counter + 1
  pub state : w'.server.server_state ≡ w.server.server_state
  pub chat : w'.chat ≡ w.chat
  pub arrived : (clients w' ≡ clients w) ⊎ Arrived w w'

-- The end of an acceptance: a world that the connection is accepted in, or a handshake that goes on.
pub accept_socket_outcome :
    (incoming : Incoming) (fuel : ℕ) (z : ℤ) (w : World)
    → Admitted w.server
    → w.server.unique_client_counter + 1 < 2 ^ 64
    → ((w' : World) × (accept_socket incoming fuel z w ≡ ok w') × Accepted w w')
      ⊎ ((accept_socket incoming fuel z w ≡ out_of_fuel)
          × (handshake (incoming.now + 10 * 10 ^ 9) incoming.rounds fuel 0 ≡ out_of_fuel))
unfolding accept_socket admit
accept_socket_outcome incoming fuel (negsuc k) w a room = inl (
  w,
  refl,
  record { admitted = a; counted = omega arith; state = refl; chat = refl; arrived = inl refl },
)
accept_socket_outcome incoming fuel (pos socket) w a room =
    let counter = w.server.unique_client_counter in
    let client = new_client socket counter in
    let moved : (counter + 1) % 2 ^ 64 ≡ counter + 1 = omega arith in
    elim (init_ssl_cases incoming fuel client) [
      | inl (ssl, e) ↦
          let let_in : ClientSocket = record client { ssl = some ssl; ssl_enabled = true } in
          let added = set_clients (clients w ++ (let_in ∷ [])) (emit [] (count_client w)) in
          let (w', f, same, chat) = greet_ends incoming w.server.send_hello_msg let_in added in
          let k = admitted_client let_in w a refl (refl, (ssl, refl)) room in
          inl (
            w',
            rw e f,
            record {
              admitted = subst Admitted (sym same) k;
              counted = omega (arith, ap (λ s. s.unique_client_counter) same);
              state = ap (λ s. s.server_state) same;
              chat = chat;
              arrived = inr (record {
                client = let_in;
                listed = ap (λ s. s.client_sockets) same;
                numbered = refl;
                outside = refl;
              });
            },
          )
      | inr (inl (gone, events, e)) ↦ inl (
        emit (events ++ (close_socket (pos socket) ∷ [])) (count_client w),
        rw e,
        record {
          admitted = refused_client w a room;
          counted = omega arith;
          state = refl;
          chat = refl;
          arrived = inl refl;
        },
      )
      | inr (inr (u, e)) ↦ inr (rw u, e)
    ]

-- Where accepting a connection returns, it was accepted or refused as it should be.
pub handle_new_connections-Accepted :
    (waiting_one : Option Incoming) (fuel : ℕ) (w w' : World)
    → Admitted w.server
    → w.server.unique_client_counter + 1 < 2 ^ 64
    → handle_new_connections waiting_one fuel w ≡ ok w'
    → Accepted w w'
unfolding handle_new_connections
handle_new_connections-Accepted none fuel w w' a room e =
    let same : w ≡ w' = cc in
    subst (Accepted w) same (record {
      admitted = a;
      counted = omega arith;
      state = refl;
      chat = refl;
      arrived = inl refl;
    })
handle_new_connections-Accepted (some incoming) fuel w w' a room e =
    elim (accept_socket_outcome incoming fuel incoming.socket w a room) [
      | inl (u, f, k) ↦ let same : u ≡ w' = cc in subst (Accepted w) same k
      | inr (u, h) ↦ absurd (cc)
    ]

-- Accepting a connection ends, in any round of the handshake in which OpenSSL has decided or the
-- ten seconds are over; and while the count of connections fits 64 bits, it keeps the list of clients
-- admitted: each has a TLS connection and a number of its own, below the one that is next.
pub handle_new_connections-Admitted :
    (incoming : Incoming) (n : ℕ) (w : World)
    → Decides (incoming.now + 10 * 10 ^ 9) (incoming.rounds n)
    → Admitted w.server
    → w.server.unique_client_counter + 1 < 2 ^ 64
    → (w' : World) × (handle_new_connections (some incoming) (suc n) w ≡ ok w') × Admitted w'.server
unfolding handle_new_connections
handle_new_connections-Admitted incoming n w d a room =
    elim (accept_socket_outcome incoming (suc n) incoming.socket w a room) [
      | inl (w', f, k) ↦ (w', f, k.admitted)
      | inr (u, e) ↦
          let same : n + 0 ≡ n = omega arith in
          let (done, f) =
            handshake_ends (incoming.now + 10 * 10 ^ 9) incoming.rounds n 0 (rw same d) in
          absurd (cc (e, f))
    ]
