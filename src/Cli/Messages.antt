-- ===== src/Cli/Messages.antt =====
-- `client send-msg`: what is typed, what the server passes on, and what the other client shows.
use communo.Prelude.{
  bswap, of_le, ap, ℕ, ◌+◌, ◌^◌, ◌≤◌, ◌<◌, ◌≡◌, ◌≢◌, refl, ◌∙◌, Bool, true, false, ◌||◌, List, [],
  ◌∷◌, ◌++◌, append_assoc, some, arith, Bytes, codes, bytes_eq, ok, le_bytes, length, length-append,
  length-le_bytes, take, get_elem?, ltb, leb, if◌then◌else◌, Bool-cases, inl, inr, to_string,
  memcpy_uint-append, drop, drop-append,
}
use communo.OpCodes.{opcode_bytes, smsg_private_message}
use communo.SharedDefinitions.{err_ok}
use communo.NumParser.{is_unsigned_integer}
use communo.NumParser.RoundTrip.{smallest, parse_number-to_string}
use communo.Chat.{is_empty}
use communo.Client.{client_message_packet, send_client_message, send_ssl_packet_to_server}
use communo.Client.Replies.{private_message, read_reply, process_reply, read_private_message}
use communo.Server.{ClientSocket, ssl_write, World, DoubleArith, clients, buffer_of}
use communo.Server.Send.{send_ssl_packet_to_client_socket}
use communo.Server.Handlers.{status_packet}
use communo.Server.Requests.{fill_buffer, serve_client}
use communo.Server.Packet.{process_reply-opcode}
use communo.Server.PrivateMessage.{private_message_overrun}
use communo.Cli.{
  Session, main_commands, match_command, match_loop, candidate_of, candidate_loop, find_command,
  add_command, client_send_msg, with_client, print, text,
}
use communo.Cli.Handlers.{
  Outside, run_line, run_words, run_command, run_send_msg, send_msg_to, parse_or_default,
  unsigned_value,
}
use communo.Cli.Blanks.{blank_after, spaced-blank_after}
use communo.Server.Admission.{Distinct}
use communo.Server.Lookup.{find_client-at}
use communo.Server.Wire.{status_packet_bytes}
use communo.Cli.Tokens.{Spells}
use communo.Cli.Typed.{IsLast, match_loop_stays, run_line-words}

msg-IsLast : IsLast main_commands (codes "client send-msg")
unfolding main_commands add_command find_command bytes_eq
msg-IsLast t = refl

match_msg :
    (args : List Bytes)
    → match_command main_commands (codes "client" ∷ codes "send-msg" ∷ args)
      ≡ (codes "client send-msg", args)
unfolding match_command match_loop candidate_of candidate_loop main_commands add_command
    find_command bytes_eq
match_msg args =
    match_loop_stays main_commands (codes "client") (codes "send-msg" ∷ []) args
      (codes "client send-msg", args) msg-IsLast

find_msg : find_command (codes "client send-msg") main_commands ≡ some client_send_msg
unfolding main_commands add_command find_command bytes_eq
find_msg = refl

-- The identifiers that are taken: those that `parse_number` makes a number of an unsigned type of.
abbrev pub is_taken : ℕ → Bool
is_taken id = ltb id (2 ^ 32) || leb (2 ^ 63) id

unsigned_smallest : (id : ℕ) → is_unsigned_integer (smallest id) ≡ is_taken id
unfolding is_unsigned_integer
unsigned_smallest id = ground arith

value_smallest : (id : ℕ) → is_taken id ≡ true → unsigned_value (smallest id) ≡ id
unfolding unsigned_value
value_smallest id h = ground arith

typed_message_lem :
    (outside : Outside) (line : Bytes) (id : ℕ) (word : Bytes) (words : List Bytes) (s : Session)
    → Spells (codes "client" ∷ codes "send-msg" ∷ to_string id ∷ word ∷ words) line
    → id < 2 ^ 64
    → run_line outside main_commands line s
      ≡ ok (
        if is_taken id
            then with_client
                (send_ssl_packet_to_server
                  (client_message_packet id (blank_after (word ∷ words)))
                  s.client)
                s
            else print (text (codes "invalid client ID: " ++ to_string id)) s,
        true,
      )
unfolding run_words run_command run_send_msg send_msg_to parse_or_default send_client_message
    is_empty
typed_message_lem outside line id word words s spelled fits =
    run_line-words outside line (codes "client") (codes "send-msg" ∷ to_string id ∷ word ∷ words) s
      _ spelled (unfold bytes_eq in (refl, refl))
      (rw
        (
          run_words,
          match_msg (to_string id ∷ word ∷ words),
          find_msg,
          parse_number-to_string outside.float_text id fits,
          unsigned_smallest id,
          ← spaced-blank_after (word ∷ words),
        )
        (elim (Bool-cases (is_taken id)) [
          | inl taken ↦ rw (taken, value_smallest id taken) refl
          | inr refused ↦ rw refused refl
        ]))

-- The session with one packet more sent, and the one with one line more on the console.
abbrev pub with_packet : Bytes → Session → Session
with_packet packet s = record {
  client = record { ping_start = s.client.ping_start; sent = s.client.sent ++ (packet ∷ []) };
  console = s.console;
}

abbrev pub with_line : Bytes → Session → Session
with_line shown s = record { client = s.client; console = s.console ++ (text shown ∷ []) }

message_packet_bytes :
    (id : ℕ) (msg : Bytes) → client_message_packet id msg ≡ 0x00 ∷ 0x05 ∷ (le_bytes 8 id ++ msg)
unfolding opcode_bytes le_bytes bswap of_le
message_packet_bytes id msg = refl

-- A line of `client send-msg`, a number below 2 ^ 64 and one or more words sends one packet, if the
-- number is below 2 ^ 32 or from 2 ^ 63 on: the opcode 0x0005, highest byte first, the number in eight
-- bytes, and the words, each with a blank behind it. Any other number is refused on the console, and
-- nothing is sent.
pub typed_message :
    (outside : Outside) (line : Bytes) (id : ℕ) (word : Bytes) (words : List Bytes) (s : Session)
    → Spells (codes "client" ∷ codes "send-msg" ∷ to_string id ∷ word ∷ words) line
    → id < 2 ^ 64
    → run_line outside main_commands line s
      ≡ ok (
        if is_taken id
            then with_packet (0x00 ∷ 0x05 ∷ (le_bytes 8 id ++ blank_after (word ∷ words))) s
            else with_line (codes "invalid client ID: " ++ to_string id) s,
        true,
      )
unfolding send_ssl_packet_to_server
typed_message outside line id word words s spelled fits =
    typed_message_lem outside line id word words s spelled fits
    ∙ ap
        (λ packet. ok (
          if is_taken id
              then with_packet packet s
              else with_line (codes "invalid client ID: " ++ to_string id) s,
          true,
        ))
        (message_packet_bytes id (blank_after (word ∷ words)))

message_shown :
    (ping_start later id : ℕ) (msg : Bytes)
    → id < 2 ^ 64
    → process_reply ping_start later (opcode_bytes smsg_private_message ++ (le_bytes 8 id ++ msg))
      ≡ ok (private_message id msg)
unfolding read_reply read_private_message
message_shown ping_start later id msg fits =
    let long : ltb (length (le_bytes 8 id ++ msg)) 8 ≡ false =
      ground (arith, length-append (le_bytes 8 id) msg, length-le_bytes 8 id) in
    let behind : drop 8 (le_bytes 8 id ++ msg) ≡ msg =
      rw (length-le_bytes 8 id) at (drop-append (le_bytes 8 id) msg) in
    let flat : (le_bytes 8 id ++ msg) ++ (0 ∷ []) ≡ le_bytes 8 id ++ (msg ++ (0 ∷ [])) =
      append_assoc (le_bytes 8 id) msg (0 ∷ []) in
    process_reply-opcode ping_start later smsg_private_message (le_bytes 8 id ++ msg) (omega arith)
    ∙ rw (flat, memcpy_uint-append [] 8 id (msg ++ (0 ∷ [])) fits, long, behind) refl

-- A line of `client send-msg`, the number of another connected client, below 2 ^ 32, and words is one
-- packet to the server. Where no two clients have one number, and the text of the words, each with a
-- blank behind it, leaves twenty bytes of the server's buffer of 4096, the server writes two packets: to
-- the sender the status without an error, and one to the other client; and that client shows the
-- sender's number and the text, but with ten bytes behind it: those that stood in the buffer behind the
-- place of the packet.
pub typed_message_shown :
    (outside : Outside) (line : Bytes) (id : ℕ) (word : Bytes) (words : List Bytes) (s : Session)
    (lib : DoubleArith) (now i j ping_start later : ℕ) (client other : ClientSocket) (w : World)
    → Spells (codes "client" ∷ codes "send-msg" ∷ to_string id ∷ word ∷ words) line
    → id < 2 ^ 32
    → get_elem? (clients w) i ≡ some client
    → client.client_id < 2 ^ 64
    → get_elem? (clients w) j ≡ some other
    → other.client_id ≡ id
    → id ≢ client.client_id
    → Distinct (clients w)
    → length (buffer_of w) ≡ 4096
    → length (blank_after (word ∷ words)) + 20 ≤ 4096
    → (s' : Session) × (packet : Bytes) × (w' : World) × (delivered : Bytes) × (run_line outside
          main_commands line s
        ≡ ok (s', true))
      × (s'.client.sent ≡ s.client.sent ++ (packet ∷ []))
      × (serve_client lib now i client packet w ≡ ok w')
      × (w'.events
          ≡ w.events
            ++ (ssl_write client.ssl (0x10 ∷ 0x05 ∷ 0 ∷ []) ∷ ssl_write other.ssl delivered ∷ []))
      × (process_reply ping_start later delivered
          ≡ ok (
              private_message client.client_id
                (blank_after (word ∷ words) ++ take 10 (drop (length packet) (buffer_of w)))))
unfolding send_ssl_packet_to_server send_ssl_packet_to_client_socket fill_buffer
typed_message_shown outside line id word words s lib now i j ping_start later client other w spelled
      small here number there is unlike distinct size short =
    let msg = blank_after (word ∷ words) in
    let packet = client_message_packet id msg in
    let extra = take 10 (drop (length packet) (buffer_of w)) in
    let status = status_packet err_ok in
    let delivered =
      opcode_bytes smsg_private_message ++ (le_bytes 8 client.client_id ++ (msg ++ extra)) in
    let taken : is_taken id ≡ true = ground arith in
    let inside : leb (length msg + 20) 4096 ≡ true = ground arith in
    let hit = find_client-at id (clients w) j other distinct there is in
    (
      with_client (send_ssl_packet_to_server packet s.client) s,
      packet,
      send_ssl_packet_to_client_socket other delivered
          (send_ssl_packet_to_client_socket client status (fill_buffer packet w)),
      delivered,
      typed_message_lem outside line id word words s spelled (omega arith) ∙ rw taken refl,
      refl,
      private_message_overrun lib now i client id msg w here (omega arith) other unlike hit size
            (omega arith)
          ∙ rw inside refl,
      append_assoc w.events (ssl_write client.ssl status ∷ []) (ssl_write other.ssl delivered ∷ [])
          ∙ ap
              (λ bytes.
                w.events ++ (ssl_write client.ssl bytes ∷ ssl_write other.ssl delivered ∷ []))
              (status_packet_bytes err_ok (omega arith)),
      message_shown ping_start later client.client_id (msg ++ extra) number,
    )
