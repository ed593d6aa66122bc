-- ===== src/Server/Handled.antt =====
-- The handlers, and the connections that they leave.
use communo.Prelude.{
  ◌-◌, Option-cases, inl, inr, of_word, ◌^◌, ℕ, zero, suc, ◌+◌, ◌≤◌, ◌≡◌, refl, false, not, ◌++◌,
  Option, none, some, arith, Bytes, codes, Result, leb, ltb, ◌==◌, get_elem?, Ends, returned,
  thrown, Any, if-Ends, bind-Ends, read_bytes-Ends, memcpy_uint-Ends,
}
use communo.NumParser.{
  Number, int8, uint8, int16, uint16, int32, uint32, int64, uint64, float, double, read_number,
  read_value, n_int8, n_uint8, n_int16, n_uint16, n_int32, n_uint32, n_int64, n_uint64, n_float,
  n_double,
}
use communo.OpCodes.{
  opcode_bytes, smsg_message, cmsg_echo_request, cmsg_addition_request, cmsg_broadcast_message,
  cmsg_get_client_list, cmsg_send_msg_to_client, cmsg_ping, cmsg_uptime, cmsg_increment_counter,
  cmsg_get_counter, cmsg_get_chat_rooms, cmsg_get_room_info, cmsg_join_room, cmsg_say,
}
use communo.Chat.{
  c_string, Chat, find, sha256_digest_length, is_room_protected, check_password_hash, check_room_id,
  get_room_name,
}
use communo.Server.{ClientSocket, World, DoubleArith, clients, buffer_of}
use communo.Server.Send.{send_msg_to_socket}
use communo.Server.Handlers.{
  add_loop, to_double, call_handler_add, call_handler_broadcast, call_handler_echo,
  call_handler_say, call_handler_get_client_list, call_handler_msg_to_client, deliver_message,
  find_client, call_handler_pong, call_handler_uptime, call_handler_get_counter,
  call_handler_get_chat_rooms, call_handler_get_roominfo, call_handler_join_room, finish_join,
}
use communo.Server.Dispatch.{message_of, handle_opcode}
use communo.Server.Frame.{
  Keeps, Keeps-refl, Keeps-trans, if-Keeps, send-Keeps, singletons-Keeps, finish_join-Keeps,
  broadcast_loop-Keeps, say_loop-Keeps,
}

-- A number that is read moves the offset on.
read_value-moves :
    (buffer : Bytes) (offset size : ℕ) (of_bits : ℕ → Number)
    → Ends (λ p. offset ≤ p.1) (read_value buffer offset size of_bits)
unfolding read_value
read_value-moves buffer offset size of_bits =
    bind-Ends (memcpy_uint-Ends buffer offset size) (λ v u. returned (omega arith))

read_number-moves :
    (buffer : Bytes) (offset type : ℕ) → Ends (λ p. offset ≤ p.1) (read_number buffer offset type)
unfolding read_number
read_number-moves buffer offset type =
    let value = read_value-moves buffer offset in
    if-Ends (type == n_int8) (value 1 (λ v. int8 (of_word (2 ^ 7) v))) (
      if-Ends (type == n_uint8) (value 1 uint8) (
        if-Ends (type == n_int16) (value 2 (λ v. int16 (of_word (2 ^ 15) v))) (
          if-Ends (type == n_uint16) (value 2 uint16) (
            if-Ends (type == n_int32) (value 4 (λ v. int32 (of_word (2 ^ 31) v))) (
              if-Ends (type == n_uint32) (value 4 uint32) (
                if-Ends (type == n_int64) (value 8 (λ v. int64 (of_word (2 ^ 63) v))) (
                  if-Ends (type == n_uint64) (value 8 uint64) (
                    if-Ends (type == n_float) (value 4 float)
                      (if-Ends (type == n_double) (value 8 double) thrown)))))))))

-- Each round takes its type byte at least, so the rounds of a packet's length are enough.
pub add_loop-Ends :
    (lib : DoubleArith) (buffer : Bytes) (fuel offset size sum : ℕ)
    → size ≤ offset + fuel
    → Ends Any (add_loop lib buffer fuel offset size sum)
unfolding add_loop
add_loop-Ends lib buffer zero offset size sum h =
    let done : ltb offset size ≡ false = ground arith in rw done (returned tt)
add_loop-Ends lib buffer (suc fuel) offset size sum h =
    if-Ends (ltb offset size)
      (bind-Ends (memcpy_uint-Ends buffer offset 1) (λ type u.
        bind-Ends (read_number-moves buffer (offset + 1) type) (λ p moved.
          add_loop-Ends lib buffer fuel p.1 size (lib.add sum (to_double lib p.0)) (omega arith))))
      (returned tt)

-- A handler ends, and where it returns it kept the connections.
abbrev pub Handles : World → Result World → Type 0
Handles w r = Ends (Keeps w) r

add-Handles :
    (lib : DoubleArith) (client : ClientSocket) (offset size : ℕ) (w : World)
    → Handles w (call_handler_add lib client offset size w)
unfolding call_handler_add
add-Handles lib client offset size w =
    bind-Ends (add_loop-Ends lib (buffer_of w) size offset size 0 (omega arith))
      (λ sum u. returned (send-Keeps client _ w))

message-Handles :
    (client : ClientSocket) (offset size : ℕ) (w : World)
    → Handles w (call_handler_msg_to_client client offset size w)
unfolding call_handler_msg_to_client
message-Handles client offset size w = bind-Ends (memcpy_uint-Ends (buffer_of w) offset 8) (λ id u.
    if-Ends _ (returned (send-Keeps client _ w)) (delivered id (find_client id (clients w))))
  where
    delivered :
        (id : ℕ) (found : Option ClientSocket)
        → Handles w (deliver_message client (offset + 8) size found w)
    delivered id none = unfold deliver_message in returned (send-Keeps client _ w)
    delivered id (some found) =
        unfold deliver_message in
        bind-Ends (read_bytes-Ends (buffer_of w) (offset + 8) size) (λ message u. returned (
          if-Keeps _ w _ _ (send-Keeps client _ w)
            (Keeps-trans w _ _ (send-Keeps client _ w) (send-Keeps found _ _))))

send_msg-Keeps :
    (client : ClientSocket) (msg : Bytes) (w : World) → Keeps w (send_msg_to_socket client msg w)
unfolding send_msg_to_socket
send_msg-Keeps client msg w = send-Keeps client (opcode_bytes smsg_message ++ c_string msg) w

pub get_room_name-Ends : (chat : Chat) (id : ℕ) → Ends Any (get_room_name chat id)
unfolding get_room_name
get_room_name-Ends chat id = elim (Option-cases (find id chat.chat_rooms)) [
  | inl e ↦ rw e thrown
  | inr (room, e) ↦ rw e (returned tt)
]

roominfo-Handles :
    (client : ClientSocket) (w : World) → Handles w (call_handler_get_roominfo client w)
unfolding call_handler_get_roominfo
roominfo-Handles client w =
    if-Ends (not client.chat_room_joined)
      (returned (send_msg-Keeps client (codes "No joined room") w))
      (if-Ends (not (check_room_id w.chat client.joined_chat_room_id))
        (returned (send_msg-Keeps client (codes "Invalid room") w))
        (bind-Ends (get_room_name-Ends w.chat client.joined_chat_room_id)
          (λ name u. returned (send_msg-Keeps client (codes "Joined: " ++ name) w))))

password-Ends : (chat : Chat) (id : ℕ) (hash : Bytes) → Ends Any (check_password_hash chat id hash)
unfolding check_password_hash
password-Ends chat id hash =
    bind-Ends (read_bytes-Ends _ 0 sha256_digest_length) (λ bytes u. returned tt)

join-Handles :
    (i : ℕ) (client : ClientSocket) (offset : ℕ) (w : World)
    → get_elem? (clients w) i ≡ some client
    → Handles w (call_handler_join_room i client offset w)
unfolding call_handler_join_room
join-Handles i client offset w here = bind-Ends (memcpy_uint-Ends (buffer_of w) offset 1) (λ id u.
    bind-Ends (read_bytes-Ends (buffer_of w) (offset + 1) sha256_digest_length) (λ hash v.
      if-Ends (is_room_protected w.chat id).1
        (bind-Ends (password-Ends (is_room_protected w.chat id).0 id hash)
          (λ p k. returned (kept id _ p.0)))
        (returned (kept id _ (is_room_protected w.chat id).0))))
  where
    kept :
        (id error : ℕ) (chat : Chat)
        → Keeps w (finish_join i client id error (record w { chat = chat }))
    kept id error chat =
        Keeps-trans w (record w { chat = chat }) _
          (singletons-Keeps w (record w { chat = chat }) refl refl)
          (finish_join-Keeps i client id error (record w { chat = chat }) here)

say-Keeps :
    (client : ClientSocket) (text : Bytes) (w : World) → Keeps w (call_handler_say client text w)
unfolding call_handler_say
say-Keeps client text w =
    if-Keeps _ w _ _ (Keeps-trans w _ _ (send-Keeps client _ w) (say_loop-Keeps (clients w) _ _ _))
      (send-Keeps client _ w)

pub message_of-Ends : (size : ℕ) (w : World) → Ends Any (message_of size w)
unfolding message_of
message_of-Ends size w = read_bytes-Ends (buffer_of w) 2 (size - 2)

-- Whatever the opcode, the handler ends, and where it returns it kept the connections.
pub handle_opcode-Handles :
    (lib : DoubleArith) (now i : ℕ) (client : ClientSocket) (size opcode : ℕ) (w : World)
    → get_elem? (clients w) i ≡ some client
    → Handles w (handle_opcode lib now i client size opcode w)
unfolding handle_opcode call_handler_echo call_handler_broadcast call_handler_get_client_list
    call_handler_pong call_handler_uptime call_handler_get_counter call_handler_get_chat_rooms
handle_opcode-Handles lib now i client size opcode w here =
    let text = message_of-Ends size w in
    if-Ends (opcode == cmsg_echo_request) (bind-Ends text (λ m u. returned (send-Keeps client _ w)))
      (if-Ends (opcode == cmsg_addition_request)
        (if-Ends (leb 6 size) (add-Handles lib client 2 size w) (returned (Keeps-refl w)))
        (if-Ends (opcode == cmsg_broadcast_message)
          (bind-Ends text (λ m u. returned (broadcast_loop-Keeps (clients w) _ w)))
          (if-Ends (opcode == cmsg_get_client_list) (returned (send-Keeps client _ w)) (
            if-Ends (opcode == cmsg_send_msg_to_client)
              (if-Ends (leb 10 size) (message-Handles client 2 size w) (returned (Keeps-refl w)))
              (if-Ends (opcode == cmsg_ping) (returned (send-Keeps client _ w)) (
                if-Ends (opcode == cmsg_uptime) (returned (send-Keeps client _ w)) (
                  if-Ends (opcode == cmsg_increment_counter)
                    (returned (singletons-Keeps w _ refl refl))
                    (if-Ends (opcode == cmsg_get_counter) (returned (send-Keeps client _ w)) (
                      if-Ends (opcode == cmsg_get_chat_rooms) (returned (send_msg-Keeps client _ w))
                        (if-Ends (opcode == cmsg_get_room_info) (roominfo-Handles client w) (
                          if-Ends (opcode == cmsg_join_room)
                            (if-Ends (size == 35) (join-Handles i client 2 w here)
                              (returned (Keeps-refl w)))
                            (if-Ends (opcode == cmsg_say)
                              (bind-Ends text (λ m u. returned (say-Keeps client m w)))
                              (returned (send_msg-Keeps client _ w))))))))))))))
