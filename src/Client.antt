-- ===== src/Client.antt =====
-- src/client/Client.h and the `send…` methods of src/client/Client.cpp. `SSL_write` on the client's one
-- connection adds to `sent`; a failed or short write is only reported on the console.
pub mod Replies
pub mod Setup
pub mod Polling
pub mod Reading
pub mod Releases
use communo.Prelude.{
  ℕ, ◌+◌, ◌-◌, ◌≤◌, Bool, List, [], ◌∷◌, ◌++◌, Bytes, le_bytes, ltb, if◌then◌else◌, length,
}
use communo.OpCodes.{
  opcode_bytes, cmsg_echo_request, cmsg_addition_request, cmsg_broadcast_message,
  cmsg_get_client_list, cmsg_send_msg_to_client, cmsg_uptime, cmsg_ping, cmsg_increment_counter,
  cmsg_get_counter, cmsg_get_chat_rooms, cmsg_get_room_info, cmsg_join_room, cmsg_say,
}
use communo.NumParser.{Number, get_number_type, append_number}

-- `ping_start` is a time of the steady clock.
pub record Client : Type 0 where
  pub ping_start : ℕ
  pub sent : List Bytes

unfoldable pub send_ssl_packet_to_server : Bytes → Client → Client
send_ssl_packet_to_server packet client = record client { sent = client.sent ++ (packet ∷ []) }

unfoldable pub send_ssl_opcode_to_server : ℕ → Client → Client
unfolding send_ssl_packet_to_server
send_ssl_opcode_to_server opcode client = send_ssl_packet_to_server (opcode_bytes opcode) client

unfoldable pub send_echo_request : Bytes → Client → Client
unfolding send_ssl_packet_to_server
send_echo_request msg client =
    send_ssl_packet_to_server (opcode_bytes cmsg_echo_request ++ msg) client

-- `[type1][num1 bytes][type2][num2 bytes]…`
unfoldable pub append_numbers : Bytes → List Number → Bytes
append_numbers packet [] = packet
append_numbers packet (num ∷ numbers) =
    append_numbers (append_number (packet ++ le_bytes 1 (get_number_type num)) num) numbers

unfoldable pub addition_packet : List Number → Bytes
unfolding append_numbers
addition_packet numbers = append_numbers (opcode_bytes cmsg_addition_request) numbers

unfoldable pub send_addition_request : List Number → Client → Client
unfolding send_ssl_packet_to_server
send_addition_request numbers client =
    if ltb (length numbers) 2
    then client
    else if ltb 4096 (length (addition_packet numbers))
    then client
    else send_ssl_packet_to_server (addition_packet numbers) client

unfoldable pub send_broadcast : Bytes → Client → Client
unfolding send_ssl_packet_to_server
send_broadcast msg client =
    send_ssl_packet_to_server (opcode_bytes cmsg_broadcast_message ++ msg) client

unfoldable pub send_ping : ℕ → Client → Client
unfolding send_ssl_opcode_to_server
send_ping now client = send_ssl_opcode_to_server cmsg_ping (record client { ping_start = now })

unfoldable pub send_uptime : Client → Client
unfolding send_ssl_opcode_to_server
send_uptime client = send_ssl_opcode_to_server cmsg_uptime client

unfoldable pub send_increment_counter : Client → Client
unfolding send_ssl_opcode_to_server
send_increment_counter client = send_ssl_opcode_to_server cmsg_increment_counter client

unfoldable pub send_get_counter : Client → Client
unfolding send_ssl_opcode_to_server
send_get_counter client = send_ssl_opcode_to_server cmsg_get_counter client

unfoldable pub send_get_clients : Client → Client
unfolding send_ssl_opcode_to_server
send_get_clients client = send_ssl_opcode_to_server cmsg_get_client_list client

abbrev pub client_message_packet : ℕ → Bytes → Bytes
client_message_packet client_id msg =
    opcode_bytes cmsg_send_msg_to_client ++ (le_bytes 8 client_id ++ msg)

unfoldable pub send_client_message : ℕ → Bytes → Client → Client
unfolding send_ssl_packet_to_server
send_client_message client_id msg client =
    send_ssl_packet_to_server (client_message_packet client_id msg) client

unfoldable pub send_get_chat_rooms : Client → Client
unfolding send_ssl_opcode_to_server
send_get_chat_rooms client = send_ssl_opcode_to_server cmsg_get_chat_rooms client

unfoldable pub send_get_room_info : Client → Client
unfolding send_ssl_opcode_to_server
send_get_room_info client = send_ssl_opcode_to_server cmsg_get_room_info client

abbrev pub join_packet : ℕ → Bytes → Bytes
join_packet room_id hash = opcode_bytes cmsg_join_room ++ (le_bytes 1 room_id ++ hash)

-- `sha256` is OpenSSL's `SHA256`: 32 bytes from any text.
unfoldable pub send_join_room_request : (Bytes → Bytes) → ℕ → Bytes → Client → Client
unfolding send_ssl_packet_to_server
send_join_room_request sha256 room_id password client =
    send_ssl_packet_to_server (join_packet room_id (sha256 password)) client

unfoldable pub send_chat_say : Bytes → Client → Client
unfolding send_ssl_packet_to_server
send_chat_say msg client = send_ssl_packet_to_server (opcode_bytes cmsg_say ++ msg) client
