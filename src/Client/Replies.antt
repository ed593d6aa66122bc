-- ===== src/Client/Replies.antt =====
-- `Client::processReplyFromServerIfAny`, from the bytes of one `SSL_read` on: which reply the client
-- makes of them. What it shows on the console is the reply's data; the fixed wording around it, and
-- what `poll` and `SSL_read` may report before, are left out.
use communo.Prelude.{
  ℕ, zero, suc, ◌+◌, ◌-◌, ◌/◌, [], ◌∷◌, ◌++◌, Bytes, codes, bswap, to_string, Result, ok, throws,
  runtime_error, length_error, out_of_fuel, ◌>>=◌, read_bytes, memcpy_uint, ltb, leb, ◌==◌,
  if◌then◌else◌, length, drop,
}
use communo.OpCodes.{
  smsg_motd, smsg_message, smsg_echo_request, smsg_addition_request, smsg_broadcast,
  smsg_client_list, smsg_private_msg_err, smsg_private_message, smsg_uptime, smsg_pong,
  smsg_counter, smsg_join_chat_room_ok, smsg_join_chat_room_err, smsg_say_ok, smsg_say_err,
  smsg_say,
}
use communo.SharedDefinitions.{
  err_ok, err_invalid_room, err_invalid_room_password, err_invalid_packet, err_no_room_joined,
  err_no_client_found, err_msg_to_self, err_too_much_clients, err_empty_message,
}

-- One branch of the `switch` each, with the values that the branch prints.
pub data Reply : Type 0 where
  invalid_packet : Reply
  echo message motd broadcast uptime say : Bytes → Reply
  addition : ℕ → Reply
  client_list : ℕ → Bytes → Reply
  private_msg_err : ℕ → Bytes → Reply
  private_message : ℕ → Bytes → Reply
  pong : ℕ → Reply
  counter : ℕ → Reply
  room_joined : ℕ → Reply
  room_not_joined : ℕ → Bytes → Reply
  say_ok : Reply
  say_err : ℕ → Bytes → Reply
  unknown_opcode : ℕ → Reply

-- The storage behind `payload.data()`: the contents and a NUL.
abbrev pub storage : Bytes → Bytes
storage payload = payload ++ (0 ∷ [])

unfoldable pub entry_line : ℕ → Bytes → Bytes
entry_line id name = b'[' ∷ (to_string id ++ (codes "] " ++ (name ++ (b'\n' ∷ []))))

-- The `while` loop over the entries of a client list; a round that goes on takes ten bytes at least.
unfoldable pub client_list_loop : ℕ → Bytes → ℕ → Bytes → Result Bytes
unfolding entry_line
client_list_loop zero payload offset out =
    if ltb offset (length payload) then out_of_fuel else ok out
client_list_loop (suc fuel) payload offset out =
    let round = (do
      id ← memcpy_uint (storage payload) offset 8
      size ← memcpy_uint (storage payload) (offset + 8) 2
      let username_size = bswap 2 size
      (let entry = (do
        name ← read_bytes (storage payload) (offset + 10) username_size
        client_list_loop fuel payload (offset + 10 + username_size)
            (out ++ entry_line (bswap 8 id) name)) in
          if ltb (length payload) (offset + 10 + username_size) then ok out else entry)) in
    if ltb offset (length payload)
    then (if ltb (length payload) (offset + 8 + 2) then ok out else round)
    else ok out

client_list_heading : ℕ → Bytes
client_list_heading error =
    if error == err_ok
    then codes "[valid client list]\n"
    else if error == err_no_client_found
    then codes "[no client found]\n"
    else if error == err_too_much_clients
    then codes "[too much clients]\n"
    else codes "[error: " ++ (to_string error ++ codes "]\n")

unfoldable pub read_client_list : Bytes → Result Reply
unfolding client_list_loop client_list_heading
read_client_list payload = do
  error ← memcpy_uint (storage payload) 0 1
  (if error == err_ok
      then (do
        out ← client_list_loop (length payload) payload 1 (client_list_heading error)
        ok (client_list error out))
      else ok (client_list error (client_list_heading error)))

unfoldable pub private_msg_text : ℕ → Bytes
private_msg_text error =
    if error == err_ok
    then codes "[OK]\n"
    else if error == err_no_client_found
    then codes "[no client found]\n"
    else if error == err_msg_to_self
    then codes "[message to self]\n"
    else if error == err_empty_message
    then codes "[empty message]\n"
    else codes "[error: " ++ (to_string error ++ codes "]\n")

unfoldable pub join_err_text : ℕ → Bytes
join_err_text value =
    if value == err_invalid_room
    then codes "Invalid room ID."
    else if value == err_invalid_room_password
    then codes "Invalid room password."
    else if value == err_invalid_packet
    then codes "Invalid join request."
    else codes "Something went wrong."

unfoldable pub say_err_text : ℕ → Bytes
say_err_text value =
    if value == err_invalid_room
    then codes "Invalid room ID."
    else if value == err_no_room_joined
    then codes "No room joined."
    else codes "Something went wrong."

-- A message shorter than the identifier makes the length wrap, and `std::string` refuse it.
unfoldable pub read_private_message : Bytes → Result Reply
read_private_message payload = do
  id ← memcpy_uint (storage payload) 0 8
  (if ltb (length payload) 8 then throws length_error else ok (private_message id (drop 8 payload)))

unfoldable pub read_addition : Bytes → Result Reply
read_addition payload =
    if ltb (length payload) 8
    then throws (runtime_error (codes "Payload too small for double"))
    else (do value ← memcpy_uint (storage payload) 0 8; ok (addition value))

-- The first byte of the payload, for the replies that carry one; of an empty payload, its NUL.
abbrev first_byte : Bytes → Result ℕ
first_byte payload = memcpy_uint (storage payload) 0 1

-- The `switch`; a pong shows the microseconds from `ping_start` to `now`, both in nanoseconds.
unfoldable pub read_reply : ℕ → ℕ → ℕ → Bytes → Result Reply
unfolding read_client_list private_msg_text join_err_text say_err_text read_private_message
    read_addition
read_reply ping_start now opcode payload =
    if opcode == smsg_echo_request
    then ok (echo payload)
    else if opcode == smsg_message
    then ok (message payload)
    else if opcode == smsg_motd
    then ok (motd payload)
    else if opcode == smsg_addition_request
    then read_addition payload
    else if opcode == smsg_broadcast
    then ok (broadcast payload)
    else if opcode == smsg_client_list
    then read_client_list payload
    else if opcode == smsg_private_msg_err
    then (do error ← first_byte payload; ok (private_msg_err error (private_msg_text error)))
    else if opcode == smsg_private_message
    then read_private_message payload
    else if opcode == smsg_pong
    then ok (pong ((now - ping_start) / 1000))
    else if opcode == smsg_uptime
    then ok (uptime payload)
    else if opcode == smsg_counter
    then (do value ← memcpy_uint (storage payload) 0 8; ok (counter value))
    else if opcode == smsg_join_chat_room_ok
    then (do value ← first_byte payload; ok (room_joined value))
    else if opcode == smsg_join_chat_room_err
    then (do value ← first_byte payload; ok (room_not_joined value (join_err_text value)))
    else if opcode == smsg_say_ok
    then ok say_ok
    else if opcode == smsg_say_err
    then (do value ← first_byte payload; ok (say_err value (say_err_text value)))
    else if opcode == smsg_say
    then ok (say payload)
    else ok (unknown_opcode opcode)

-- The bytes that `SSL_read` delivered, at most 4096.
unfoldable pub process_reply : ℕ → ℕ → Bytes → Result Reply
unfolding read_reply
process_reply ping_start now bytes =
    if leb 2 (length bytes)
    then (do
      opcode ← memcpy_uint bytes 0 2
      payload ← read_bytes bytes 2 (length bytes - 2)
      read_reply ping_start now (bswap 2 opcode) payload)
    else ok invalid_packet
