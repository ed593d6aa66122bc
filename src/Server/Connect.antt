-- ===== src/Server/Connect.antt =====
-- `HandleNewConnections`, `ClientSocket::InitSSL` and `SendMOTD`. What the system and OpenSSL answer is
-- an argument: an `Incoming`.
use communo.Prelude.{
  ℕ, zero, suc, ◌+◌, ◌*◌, ◌%◌, ◌^◌, Bool, true, false, List, [], ◌∷◌, ◌++◌, Option, none, some, ℤ,
  pos, negsuc, Bytes, codes, Result, ok, out_of_fuel, ◌>>=◌, leb, if◌then◌else◌, length, drop,
}
use communo.OpCodes.{opcode_bytes, smsg_motd}
use communo.Chat.{is_empty}
use communo.Server.{ClientSocket, Event, ssl_write, ssl_free, close_socket, World, clients}
use communo.Server.Requests.{emit, set_clients, close_events}

-- How `poll` comes back while the handshake waits.
pub data Wake : Type 0 where
  ready expired interrupted poll_failed hung_up : Wake

-- One round of the handshake: what `SSL_accept` says, and where it wants to wait, the clock and the
-- end of the wait.
pub data Round : Type 0 where
  accepted refused : Round
  waiting : ℕ → Wake → Round

-- A connection that `accept` returns: its descriptor, or a negative number; what `SSL_new` and
-- `SSL_set_fd` answer; the clock at the start of the handshake and its rounds; and for each
-- `SSL_write` of the greeting `none` for a failure, or one less than the number of bytes written.
pub record Incoming : Type 0 where
  pub socket : ℤ
  pub ssl : Option ℕ
  pub fd_set : Bool
  pub now : ℕ
  pub rounds : ℕ → Round
  pub writes : ℕ → Option ℕ

-- The wait is over in favour of another round, or the handshake has failed.
abbrev pub goes_on : Wake → Bool
goes_on ready = true
goes_on expired = false
goes_on interrupted = true
goes_on poll_failed = false
goes_on hung_up = false

-- The loop of `InitSSL` from round `k` on: whether the handshake succeeded.
unfoldable pub handshake : ℕ → (ℕ → Round) → ℕ → ℕ → Result Bool
handshake deadline rounds zero k = out_of_fuel
handshake deadline rounds (suc fuel) k =
    let again = handshake deadline rounds fuel (suc k) in
    elim (rounds k) [
      | accepted ↦ ok true
      | refused ↦ ok false
      | waiting now wake ↦
          if leb deadline now then ok false else if goes_on wake then again else ok false
    ]

-- The client after `InitSSL`, whether it succeeded, and what it did. Times are nanoseconds.
unfoldable pub init_ssl :
    Incoming → ℕ → ℕ → ClientSocket → Result (ClientSocket × (Bool × List Event))
unfolding handshake
init_ssl incoming fuel seconds client = elim incoming.ssl [
  | none ↦ ok (record client { ssl = none }, (false, close_events client))
  | some ssl ↦
      let talk = (do
        done ← handshake (incoming.now + seconds * 10 ^ 9) incoming.rounds fuel 0
        (if done
            then ok (record client { ssl = some ssl; ssl_enabled = true }, (true, []))
            else ok
                (record client { ssl = none; ssl_enabled = false }, (false, ssl_free ssl ∷ [])))) in
      if incoming.fd_set
      then talk
      else ok (record client { ssl = none }, (false, ssl_free ssl ∷ close_events client))
]

-- The loop of `SendMOTD`: it offers what is left until nothing is, or a write fails.
unfoldable pub motd_loop : (ℕ → Option ℕ) → Option ℕ → ℕ → ℕ → Bytes → Result (List Event)
unfolding is_empty
motd_loop writes ssl zero k rest = if is_empty rest then ok [] else out_of_fuel
motd_loop writes ssl (suc fuel) k rest =
    let attempt : Result (List Event) = elim (writes k) [
      | none ↦ ok (ssl_write ssl rest ∷ [])
      | some n ↦ (do
        more ← motd_loop writes ssl fuel (suc k) (drop (suc n) rest)
        ok (ssl_write ssl rest ∷ more))
    ] in
    if is_empty rest then ok [] else attempt

abbrev pub hello_packet : Bytes
hello_packet = opcode_bytes smsg_motd ++ codes "Server v1.0 on duty! waiting for commands."

unfoldable pub send_motd : (ℕ → Option ℕ) → ClientSocket → World → Result World
unfolding motd_loop
send_motd writes client w = do
  events ← motd_loop writes client.ssl (length hello_packet) 0 hello_packet
  ok (emit events w)

-- `ClientSocket client(new_socket)` with its identifier. The constructor leaves `ssl` open, and
-- `InitSSL` sets it first of all.
abbrev pub new_client : ℕ → ℕ → ClientSocket
new_client socket id = record {
  socket = pos socket;
  ssl = none;
  ssl_enabled = false;
  chat_room_joined = false;
  joined_chat_room_id = 0;
  client_id = id;
  client_username = codes "<unk>";
}

-- `m_UniqueCLientCounter++`
abbrev pub count_client : World → World
count_client w = record w {
  server = record w.server {
    unique_client_counter = (w.server.unique_client_counter + 1) % 2 ^ 64;
  };
}

-- `if (m_SendHelloMsg)`
unfoldable pub greet : Incoming → Bool → ClientSocket → World → Result World
unfolding send_motd
greet incoming true client w = send_motd incoming.writes client w
greet incoming false client w = ok w

-- What follows on `InitSSL`.
unfoldable pub admit : Incoming → ℕ → ClientSocket × (Bool × List Event) → World → Result World
unfolding greet
admit incoming socket (client, (false, events)) w =
    ok (emit (events ++ (close_socket (pos socket) ∷ [])) w)
admit incoming socket (client, (true, events)) w =
    greet incoming w.server.send_hello_msg client
      (set_clients (clients w ++ (client ∷ [])) (emit events w))

-- What follows on `accept`, which fails with a negative number.
unfoldable pub accept_socket : Incoming → ℕ → ℤ → World → Result World
unfolding init_ssl admit
accept_socket incoming fuel (negsuc n) w = ok w
accept_socket incoming fuel (pos socket) w = do
  outcome ← init_ssl incoming fuel 10 (new_client socket w.server.unique_client_counter)
  admit incoming socket outcome (count_client w)

-- `none`: no connection is waiting.
unfoldable pub handle_new_connections : Option Incoming → ℕ → World → Result World
unfolding accept_socket
handle_new_connections none fuel w = ok w
handle_new_connections (some incoming) fuel w = accept_socket incoming fuel incoming.socket w
