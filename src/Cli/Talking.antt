-- ===== src/Cli/Talking.antt =====
-- What is typed for others or for the server to reckon with, and what the clients then show.
use communo.Prelude.{
  ap, ◌∙◌, ℕ, ◌+◌, pos, length-append, ◌<◌, ◌≤◌, ◌^◌, ◌≡◌, refl, true, List, [], ◌∷◌, ◌++◌,
  append-nil, some, arith, Bytes, codes, ok, length, map, get_elem?, All, to_string,
}
use communo.OpCodes.{opcode_bytes, cmsg_say, smsg_say, smsg_say_ok}
use communo.NumParser.{IsValid}
use communo.NumParser.RoundTrip.{smallest, parse_integer_number-to_string}
use communo.NumParser.Range.{parse_integer_number-IsValid}
use communo.Chat.{check_room_id}
use communo.Client.{addition_packet, send_ssl_packet_to_server}
use communo.Client.Replies.{say, say_ok, addition, read_reply, process_reply}
use communo.Server.{ClientSocket, ssl_write, World, DoubleArith, clients}
use communo.Server.Send.{send_ssl_packet_to_client_socket}
use communo.Server.Requests.{fill_buffer, serve_client}
use communo.Server.Packet.{length-opcode_bytes, process_reply-opcode}
use communo.Server.Rooms.{IsMember, DeliversTo, say_reaches_room}
use communo.Server.Doubles.{double_of}
use communo.Server.Addition.{sum_of, sum_packet, addition_round_trip}
use communo.Cli.{Session, main_commands, with_client}
use communo.Cli.Blanks.{blank_after, spaced-blank_after}
use communo.Cli.Handlers.{Outside, run_line}
use communo.Cli.Tokens.{Spells}
use communo.Cli.Typed.{typed_say, typed_add, length-map}

say_shown :
    (ping_start later : ℕ) (text : Bytes)
    → process_reply ping_start later (opcode_bytes smsg_say ++ text) ≡ ok (say text)
unfolding read_reply
say_shown ping_start later text = process_reply-opcode ping_start later smsg_say text (omega arith)

say_ok_shown :
    (ping_start later : ℕ) → process_reply ping_start later (opcode_bytes smsg_say_ok) ≡ ok say_ok
unfolding read_reply
say_ok_shown ping_start later =
    rw (append-nil (opcode_bytes smsg_say_ok)) at
      (process_reply-opcode ping_start later smsg_say_ok [] (omega arith))

-- A line of `chat say` and words whose text, each word with a blank behind it, fits a packet of 4096
-- bytes, is one packet to the server; where the one who sends it is a client in an existing room, the
-- server confirms it to that client, who shows that it was said, and then sends one further packet to
-- every client in that room whose TLS handshake is done, once each and in order, and to no other; and
-- whoever gets that packet shows the words, each with a blank behind it.
pub typed_say_shown :
    (outside : Outside) (line : Bytes) (words : List Bytes) (s : Session) (lib : DoubleArith)
    (now i ping_start later : ℕ) (client : ClientSocket) (w : World)
    → Spells (codes "chat" ∷ codes "say" ∷ words) line
    → length (blank_after words) + 2 ≤ 4096
    → get_elem? (clients w) i ≡ some client
    → client.chat_room_joined ≡ true
    → check_room_id w.chat client.joined_chat_room_id ≡ true
    → (s' : Session) × (packet : Bytes) × (w' : World) × (shared : Bytes) × (run_line outside
          main_commands line s
        ≡ ok (s', true))
      × (s'.client.sent ≡ s.client.sent ++ (packet ∷ []))
      × (length packet ≤ 4096)
      × (serve_client lib now i client packet w ≡ ok w')
      × DeliversTo
          (IsMember client.joined_chat_room_id)
          shared
          (clients w)
          (send_ssl_packet_to_client_socket client
            (opcode_bytes smsg_say_ok)
            (fill_buffer packet w))
          w'
      × (process_reply ping_start later (opcode_bytes smsg_say_ok) ≡ ok say_ok)
      × (process_reply ping_start later shared ≡ ok (say (blank_after words)))
unfolding send_ssl_packet_to_server
typed_say_shown outside line words s lib now i ping_start later client w spelled short here joined
      exists =
    let same = spaced-blank_after words in
    let packet = opcode_bytes cmsg_say ++ blank_after words in
    let (w', served, delivered) =
      say_reaches_room lib now i client (blank_after words) w here joined exists in
    (
      with_client (send_ssl_packet_to_server packet s.client) s,
      packet,
      w',
      opcode_bytes smsg_say ++ blank_after words,
      rw same at (typed_say outside line words s spelled),
      refl,
      omega (
        arith,
        length-append (opcode_bytes cmsg_say) (blank_after words),
        length-opcode_bytes cmsg_say,
        short,
      ),
      served,
      delivered,
      say_ok_shown ping_start later,
      say_shown ping_start later (blank_after words),
    )

All-smallest : (ns : List ℕ) → All (λ n. n < 2 ^ 64) ns → All IsValid (map smallest ns)
All-smallest [] h = tt
All-smallest (n ∷ ns) h = (
  parse_integer_number-IsValid (to_string n) (smallest n) (parse_integer_number-to_string n h.0),
  All-smallest ns h.1,
)

-- The sum of the numbers, one by one, behind what has been added up before them.
abbrev pub total : DoubleArith → ℕ → List ℕ → ℕ
total lib sum [] = sum
total lib sum (n ∷ ns) = total lib (lib.add sum (lib.of_int (pos n))) ns

double_of-smallest : (lib : DoubleArith) (n : ℕ) → double_of lib (smallest n) ≡ lib.of_int (pos n)
double_of-smallest lib n = ground arith

sum_of-total :
    (lib : DoubleArith) (sum : ℕ) (ns : List ℕ)
    → sum_of lib sum (map smallest ns) ≡ total lib sum ns
sum_of-total lib sum [] = refl
sum_of-total lib sum (n ∷ ns) =
    ap (λ d. sum_of lib (lib.add sum d) (map smallest ns)) (double_of-smallest lib n)
    ∙ sum_of-total lib (lib.add sum (lib.of_int (pos n))) ns

-- A line of `add` and two or more numbers below 2 ^ 64 in decimal digits, if they fit a packet of 4096
-- bytes, is one packet to the server; the server writes one packet back, to the client that sent it;
-- and the client shows from it the sum of the numbers, each converted to a double and added in the order
-- of the line from zero, in the server's double arithmetic, if that sum is a 64-bit pattern.
pub typed_add_answered :
    (outside : Outside) (line : Bytes) (ns : List ℕ) (s : Session) (lib : DoubleArith)
    (now i ping_start later : ℕ) (client : ClientSocket) (w : World)
    → Spells (codes "add" ∷ map to_string ns) line
    → 2 ≤ length ns
    → All (λ n. n < 2 ^ 64) ns
    → length (addition_packet (map smallest ns)) ≤ 4096
    → get_elem? (clients w) i ≡ some client
    → total lib 0 ns < 2 ^ 64
    → (s' : Session) × (packet : Bytes) × (w' : World) × (reply : Bytes) × (run_line outside
          main_commands line s
        ≡ ok (s', true))
      × (s'.client.sent ≡ s.client.sent ++ (packet ∷ []))
      × (length packet ≤ 4096)
      × (serve_client lib now i client packet w ≡ ok w')
      × (w'.events ≡ w.events ++ (ssl_write client.ssl reply ∷ []))
      × (process_reply ping_start later reply ≡ ok (addition (total lib 0 ns)))
unfolding send_ssl_packet_to_server send_ssl_packet_to_client_socket fill_buffer
typed_add_answered outside line ns s lib now i ping_start later client w spelled two small fits here
      pattern =
    let numbers = map smallest ns in
    let packet = addition_packet numbers in
    let sum = total lib 0 ns in
    let same = sum_of-total lib 0 ns in
    let (served, shown) = rw same at (
      addition_round_trip lib now i ping_start later client numbers w here
        (rw (length-map smallest ns) two) (All-smallest ns small) (rw same pattern)) in
    (
      with_client (send_ssl_packet_to_server packet s.client) s,
      packet,
      send_ssl_packet_to_client_socket client (sum_packet sum) (fill_buffer packet w),
      sum_packet sum,
      typed_add outside line ns s spelled two small fits,
      refl,
      fits,
      served,
      refl,
      shown,
    )
