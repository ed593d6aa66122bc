-- ===== src/Server/Handlers.antt =====
-- The `CallHandler…` methods of src/server/Server.cpp, logging left out. The pointer `client` is the value
-- that it points to, and for `CallHandlerJoinRoom`, which writes through it, also its index.
use communo.Prelude.{
  ℕ, zero, suc, ◌+◌, ◌-◌, ◌/◌, ◌%◌, ◌^◌, Bool, true, false, not, ◌&&◌, ◌||◌, List, [], ◌∷◌, ◌++◌,
  Option, none, some, pos, Bytes, codes, le_bytes, bswap, to_string, Result, ok, out_of_fuel, ◌>>=◌,
  read_bytes, memcpy_uint, ltb, leb, ◌==◌, if◌then◌else◌, length, set,
}
use communo.OpCodes.{
  opcode_bytes, smsg_echo_request, smsg_addition_request, smsg_broadcast, smsg_client_list,
  smsg_private_msg_err, smsg_private_message, smsg_uptime, smsg_pong, smsg_counter,
  smsg_join_chat_room_ok, smsg_join_chat_room_err, smsg_say_ok, smsg_say_err, smsg_say,
}
use communo.SharedDefinitions.{
  err_ok, err_invalid_room, err_invalid_room_password, err_no_room_joined, err_no_client_found,
  err_msg_to_self, err_too_much_clients, err_empty_message,
}
use communo.NumParser.{
  Number, int8, uint8, int16, uint16, int32, uint32, int64, uint64, float, double, read_number,
}
use communo.Universe.{get_counter}
use communo.Chat.{
  check_room_id, is_room_protected, check_password_hash, get_room_name, get_chat_rooms_str,
  is_empty, sha256_digest_length,
}
use communo.Server.{ClientSocket, World, DoubleArith, clients, buffer_of}
use communo.Server.Send.{send_ssl_packet_to_client_socket, send_msg_to_socket}

unfoldable pub call_handler_echo : ClientSocket → Bytes → World → World
unfolding send_ssl_packet_to_client_socket
call_handler_echo client reply w =
    send_ssl_packet_to_client_socket client (opcode_bytes smsg_echo_request ++ reply) w

-- `static_cast<double>` of whichever alternative is held.
unfoldable pub to_double : DoubleArith → Number → ℕ
to_double arith (int8 z) = arith.of_int z
to_double arith (uint8 n) = arith.of_int (pos n)
to_double arith (int16 z) = arith.of_int z
to_double arith (uint16 n) = arith.of_int (pos n)
to_double arith (int32 z) = arith.of_int z
to_double arith (uint32 n) = arith.of_int (pos n)
to_double arith (int64 z) = arith.of_int z
to_double arith (uint64 n) = arith.of_int (pos n)
to_double arith (float b) = arith.of_float b
to_double arith (double b) = b

-- The loop of `CallHandlerAdd`; each round moves the offset on by two at least.
unfoldable pub add_loop : DoubleArith → Bytes → ℕ → ℕ → ℕ → ℕ → Result ℕ
unfolding to_double
add_loop arith buffer zero offset payload_size sum =
    if ltb offset payload_size then out_of_fuel else ok sum
add_loop arith buffer (suc fuel) offset payload_size sum =
    let round = (do
      type ← memcpy_uint buffer offset 1
      (num, after) ← read_number buffer (offset + 1) type
      add_loop arith buffer fuel after payload_size (arith.add sum (to_double arith num))) in
    if ltb offset payload_size then round else ok sum

unfoldable pub call_handler_add : DoubleArith → ClientSocket → ℕ → ℕ → World → Result World
unfolding send_ssl_packet_to_client_socket
call_handler_add arith client offset payload_size w = do
  sum ← add_loop arith (buffer_of w) payload_size offset payload_size 0
  ok (
      send_ssl_packet_to_client_socket client (opcode_bytes smsg_addition_request ++ le_bytes 8 sum)
        w)

unfoldable pub broadcast_loop : List ClientSocket → Bytes → World → World
unfolding send_ssl_packet_to_client_socket
broadcast_loop [] packet w = w
broadcast_loop (client ∷ rest) packet w =
    broadcast_loop rest packet
      (if not client.ssl_enabled then w else send_ssl_packet_to_client_socket client packet w)

unfoldable pub call_handler_broadcast : Bytes → World → World
call_handler_broadcast stream w =
    broadcast_loop (clients w) (opcode_bytes smsg_broadcast ++ stream) w

-- The name shown for a client, marked for the one who asks.
unfoldable pub shown_username : ℕ → ClientSocket → Bytes
shown_username asking client =
    if client.client_id == asking
    then client.client_username ++ codes " (you)"
    else client.client_username

unfoldable pub client_entry : ℕ → ClientSocket → Bytes
client_entry asking client =
    let username = shown_username asking client in
    le_bytes 8 (bswap 8 client.client_id)
    ++ (le_bytes 2 (bswap 2 (length username % 2 ^ 16)) ++ username)

unfoldable pub client_list_loop : ℕ → List ClientSocket → Bytes → Bytes
client_list_loop asking [] client_list = client_list
client_list_loop asking (client ∷ rest) client_list =
    client_list_loop asking rest (client_list ++ client_entry asking client)

abbrev no_clients : List ClientSocket → Bool
no_clients [] = true
no_clients (client ∷ rest) = false

unfoldable pub client_list_packet : ℕ → List ClientSocket → Bytes
client_list_packet asking all =
    let client_list = client_list_loop asking all [] in
    let error = if no_clients all then err_no_client_found else err_ok in
    if leb (2 + 1 + length client_list) 4096
    then opcode_bytes smsg_client_list ++ (le_bytes 1 error ++ client_list)
    else opcode_bytes smsg_client_list ++ le_bytes 1 err_too_much_clients

unfoldable pub call_handler_get_client_list : ClientSocket → World → World
unfolding send_ssl_packet_to_client_socket
call_handler_get_client_list client w =
    send_ssl_packet_to_client_socket client (client_list_packet client.client_id (clients w)) w

-- The search loop of `CallHandlerMsgToClient`.
unfoldable pub find_client : ℕ → List ClientSocket → Option ClientSocket
find_client id [] = none
find_client id (client ∷ rest) = if client.client_id == id then some client else find_client id rest

abbrev pub status_packet : ℕ → Bytes
status_packet error = opcode_bytes smsg_private_msg_err ++ le_bytes 1 error

-- The part behind the search. The message is taken with the length of the whole payload, as in the
-- source: `std::string(buffer + offset, payloadSize)`.
unfoldable pub deliver_message : ClientSocket → ℕ → ℕ → Option ClientSocket → World → Result World
unfolding send_ssl_packet_to_client_socket is_empty
deliver_message client offset payload_size none w =
    ok (send_ssl_packet_to_client_socket client (status_packet err_no_client_found) w)
deliver_message client offset payload_size (some found) w = do
  message ← read_bytes (buffer_of w) offset payload_size
  ok (
      if is_empty message
      then send_ssl_packet_to_client_socket client (status_packet err_empty_message) w
      else send_ssl_packet_to_client_socket found
          (opcode_bytes smsg_private_message ++ (le_bytes 8 client.client_id ++ message))
          (send_ssl_packet_to_client_socket client (status_packet err_ok) w))

unfoldable pub call_handler_msg_to_client : ClientSocket → ℕ → ℕ → World → Result World
call_handler_msg_to_client client offset payload_size w = do
  id ← memcpy_uint (buffer_of w) offset 8
  (if id == client.client_id
      then ok (send_ssl_packet_to_client_socket client (status_packet err_msg_to_self) w)
      else deliver_message client (offset + 8) payload_size (find_client id (clients w)) w)

unfoldable pub call_handler_pong : ClientSocket → World → World
unfolding send_ssl_packet_to_client_socket
call_handler_pong client w = send_ssl_packet_to_client_socket client (opcode_bytes smsg_pong) w

-- "Uptime: …h …m …s" for a number of seconds.
unfoldable pub uptime_text : ℕ → Bytes
uptime_text seconds =
    codes "Uptime: "
    ++ (to_string (seconds / 3600)
        ++ (codes "h "
            ++ (to_string (seconds % 3600 / 60)
                ++ (codes "m " ++ (to_string (seconds % 3600 % 60) ++ codes "s")))))

unfoldable pub call_handler_uptime : ClientSocket → ℕ → World → World
unfolding send_ssl_packet_to_client_socket
call_handler_uptime client now w =
    send_ssl_packet_to_client_socket client
      (opcode_bytes smsg_uptime ++ uptime_text ((now - w.server.start_time) / 10 ^ 9)) w

unfoldable pub call_handler_get_counter : ClientSocket → World → World
unfolding send_ssl_packet_to_client_socket get_counter
call_handler_get_counter client w =
    send_ssl_packet_to_client_socket client
      (opcode_bytes smsg_counter ++ le_bytes 8 (get_counter w.universe)) w

unfoldable pub call_handler_get_chat_rooms : ClientSocket → World → World
unfolding send_msg_to_socket
call_handler_get_chat_rooms client w = send_msg_to_socket client (get_chat_rooms_str w.chat) w

unfoldable pub call_handler_get_roominfo : ClientSocket → World → Result World
unfolding send_msg_to_socket
call_handler_get_roominfo client w =
    if not client.chat_room_joined
    then ok (send_msg_to_socket client (codes "No joined room") w)
    else if not (check_room_id w.chat client.joined_chat_room_id)
    then ok (send_msg_to_socket client (codes "Invalid room") w)
    else (do
      name ← get_room_name w.chat client.joined_chat_room_id
      ok (send_msg_to_socket client (codes "Joined: " ++ name) w))

abbrev pub set_client : ℕ → ClientSocket → World → World
set_client i client w = record w {
  server = record w.server { client_sockets = set (clients w) i client };
}

-- The end of `CallHandlerJoinRoom`: the reply, and the room where there is no error.
unfoldable pub finish_join : ℕ → ClientSocket → ℕ → ℕ → World → World
unfolding send_ssl_packet_to_client_socket
finish_join i client room_id error w =
    if error == err_ok
    then (let joined = record client { joined_chat_room_id = room_id; chat_room_joined = true } in
        send_ssl_packet_to_client_socket joined
          (opcode_bytes smsg_join_chat_room_ok ++ le_bytes 1 room_id) (set_client i joined w))
    else send_ssl_packet_to_client_socket client
        (opcode_bytes smsg_join_chat_room_err ++ le_bytes 1 error) w

unfoldable pub call_handler_join_room : ℕ → ClientSocket → ℕ → World → Result World
call_handler_join_room i client offset w = do
  room_id ← memcpy_uint (buffer_of w) offset 1
  hash ← read_bytes (buffer_of w) (offset + 1) sha256_digest_length
  let error = if not (check_room_id w.chat room_id) then err_invalid_room else err_ok
  let (chat, room_protected) = is_room_protected w.chat room_id
  (if room_protected
      then (do
        (chat', valid) ← check_password_hash chat room_id hash
        ok (
            finish_join i client room_id (if not valid then err_invalid_room_password else error)
              (record w { chat = chat' })))
      else ok (finish_join i client room_id error (record w { chat = chat })))

unfoldable pub say_loop : List ClientSocket → ℕ → Bytes → World → World
unfolding send_ssl_packet_to_client_socket
say_loop [] room_id packet w = w
say_loop (client ∷ rest) room_id packet w = say_loop rest room_id packet (
    if not client.ssl_enabled
    then w
    else if not (client.joined_chat_room_id == room_id) || not client.chat_room_joined
    then w
    else send_ssl_packet_to_client_socket client packet w)

unfoldable pub call_handler_say : ClientSocket → Bytes → World → World
unfolding send_ssl_packet_to_client_socket
call_handler_say client message w =
    let room_id = client.joined_chat_room_id in
    if check_room_id w.chat room_id && client.chat_room_joined
    then say_loop (clients w) room_id (opcode_bytes smsg_say ++ message)
        (send_ssl_packet_to_client_socket client (opcode_bytes smsg_say_ok) w)
    else (let error =
          if not client.chat_room_joined then err_no_room_joined else err_invalid_room in
        send_ssl_packet_to_client_socket client (opcode_bytes smsg_say_err ++ le_bytes 1 error) w)
