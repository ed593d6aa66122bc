-- ===== src/Server/Dispatch.antt =====
-- `Server::CallHandler`: the dispatch of a received packet.
use communo.Prelude.{
  ℕ, ◌+◌, ◌*◌, ◌-◌, Option, none, some, Bytes, codes, bswap, Result, ok, undefined, ◌>>=◌,
  read_bytes, memcpy_uint, leb, ◌==◌, if◌then◌else◌, get_elem?,
}
use communo.OpCodes.{
  cmsg_echo_request, cmsg_addition_request, cmsg_broadcast_message, cmsg_get_client_list,
  cmsg_send_msg_to_client, cmsg_uptime, cmsg_ping, cmsg_increment_counter, cmsg_get_counter,
  cmsg_get_chat_rooms, cmsg_get_room_info, cmsg_join_room, cmsg_say,
}
use communo.Universe.{increment_counter}
use communo.Chat.{sha256_digest_length}
use communo.Server.{ClientSocket, World, DoubleArith, clients, buffer_of}
use communo.Server.Send.{send_msg_to_socket}
use communo.Server.Handlers.{
  call_handler_echo, call_handler_add, call_handler_broadcast, call_handler_get_client_list,
  call_handler_msg_to_client, call_handler_pong, call_handler_uptime, call_handler_get_counter,
  call_handler_get_chat_rooms, call_handler_get_roominfo, call_handler_join_room, call_handler_say,
}

-- `std::string(buffer + sizeof(opcode), payloadSize - sizeof(opcode))`; the caller has seen to it
-- that there are two bytes.
unfoldable pub message_of : ℕ → World → Result Bytes
message_of payload_size w = read_bytes (buffer_of w) 2 (payload_size - 2)

-- The `switch` over the opcode, at `now` on the steady clock.
unfoldable pub handle_opcode : DoubleArith → ℕ → ℕ → ClientSocket → ℕ → ℕ → World → Result World
handle_opcode arith now i client payload_size opcode w =
    if opcode == cmsg_echo_request
    then (do payload ← message_of payload_size w; ok (call_handler_echo client payload w))
    else if opcode == cmsg_addition_request
    then (if leb (2 + 1 * 2 + 1 * 2) payload_size
        then call_handler_add arith client 2 payload_size w
        else ok w)
    else if opcode == cmsg_broadcast_message
    then (do payload ← message_of payload_size w; ok (call_handler_broadcast payload w))
    else if opcode == cmsg_get_client_list
    then ok (call_handler_get_client_list client w)
    else if opcode == cmsg_send_msg_to_client
    then (if leb (2 + 8) payload_size
        then call_handler_msg_to_client client 2 payload_size w
        else ok w)
    else if opcode == cmsg_ping
    then ok (call_handler_pong client w)
    else if opcode == cmsg_uptime
    then ok (call_handler_uptime client now w)
    else if opcode == cmsg_increment_counter
    then ok (record w { universe = increment_counter w.universe })
    else if opcode == cmsg_get_counter
    then ok (call_handler_get_counter client w)
    else if opcode == cmsg_get_chat_rooms
    then ok (call_handler_get_chat_rooms client w)
    else if opcode == cmsg_get_room_info
    then call_handler_get_roominfo client w
    else if opcode == cmsg_join_room
    then (if payload_size == 2 + 1 + sha256_digest_length
        then call_handler_join_room i client 2 w
        else ok w)
    else if opcode == cmsg_say
    then (do payload ← message_of payload_size w; ok (call_handler_say client payload w))
    else ok (send_msg_to_socket client (codes "Unknown or unhandled opcode.") w)

call_handler_at : DoubleArith → ℕ → ℕ → Option ClientSocket → ℕ → World → Result World
call_handler_at arith now i none payload_size w = undefined
call_handler_at arith now i (some client) payload_size w = do
  opcode ← memcpy_uint (buffer_of w) 0 2
  handle_opcode arith now i client payload_size (bswap 2 opcode) w

-- The pointer `client` is the index `i` into `m_ClientSocket`.
unfoldable pub call_handler : DoubleArith → ℕ → ℕ → ℕ → World → Result World
unfolding call_handler_at
call_handler arith now i payload_size w =
    call_handler_at arith now i (get_elem? (clients w) i) payload_size w
