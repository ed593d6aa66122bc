-- ===== src/Server/Others.antt =====
-- What every request but a join leaves alone: the clients and the table of rooms.
use communo.Prelude.{
  ℕ, ◌≡◌, refl, inl, inr, true, ◌++◌, arith, Bytes, leb, ◌==◌, if◌then◌else◌, Bool-cases,
  Option-cases, Ends, returned, if-Ends, if-Ends-when, bind-Ends, not, ◌&&◌, le_bytes,
  memcpy_uint-Ends, read_bytes-Ends,
}
use communo.SharedDefinitions.{err_ok, err_empty_message}
use communo.OpCodes.{
  opcode_bytes, smsg_say, smsg_say_ok, smsg_private_message, cmsg_echo_request,
  cmsg_addition_request, cmsg_broadcast_message, cmsg_get_client_list, cmsg_send_msg_to_client,
  cmsg_ping, cmsg_uptime, cmsg_increment_counter, cmsg_get_counter, cmsg_get_chat_rooms,
  cmsg_get_room_info, cmsg_join_room, cmsg_say,
}
use communo.Chat.{is_empty, check_room_id}
use communo.Server.{ClientSocket, World, DoubleArith, clients, buffer_of}
use communo.Server.Send.{send_ssl_packet_to_client_socket, send_msg_to_socket}
use communo.Server.Handlers.{
  status_packet, call_handler_add, call_handler_broadcast, call_handler_echo, call_handler_say,
  call_handler_get_client_list, find_client, call_handler_msg_to_client, deliver_message,
  call_handler_pong, call_handler_uptime, call_handler_get_counter, call_handler_get_chat_rooms,
  call_handler_get_roominfo, call_handler_join_room,
}
use communo.Server.Dispatch.{handle_opcode}
use communo.Server.Handled.{add_loop-Ends, message_of-Ends, get_room_name-Ends}
use communo.Server.Effects.{broadcast_loop-same, say_loop-same}

module _ (i : ℕ) (client : ClientSocket) (w : World) (P : World → Type 0)
    (stays : (w' : World) → clients w' ≡ clients w → w'.chat ≡ w.chat → P w') where
  say-other : (message : Bytes) → P (call_handler_say client message w)
  unfolding call_handler_say send_ssl_packet_to_client_socket
  say-other message =
      elim (Bool-cases
        (check_room_id w.chat client.joined_chat_room_id && client.chat_room_joined)) [
          | inl member ↦
              let sent = send_ssl_packet_to_client_socket client (opcode_bytes smsg_say_ok) w in
              let (c, t) =
                say_loop-same (clients w) client.joined_chat_room_id
                  (opcode_bytes smsg_say ++ message) sent in
              rw (call_handler_say, member) (stays _ c t)
          | inr stranger ↦ rw (call_handler_say, stranger) (stays _ refl refl)
        ]

  message-other : (payload_size : ℕ) → Ends (P) (call_handler_msg_to_client client 2 payload_size w)
  unfolding call_handler_msg_to_client deliver_message send_ssl_packet_to_client_socket
  message-other payload_size = bind-Ends (memcpy_uint-Ends (buffer_of w) 2 8) (λ id u.
      if-Ends (id == client.client_id) (returned (stays _ refl refl))
        (elim (Option-cases (find_client id (clients w))) [
          | inl e ↦ rw e (returned (stays _ refl refl))
          | inr (found, e) ↦ rw e (
              bind-Ends (read_bytes-Ends (buffer_of w) 10 payload_size)
                (λ message v. returned (delivered found message)))
        ]))
    where
      delivered :
          (found : ClientSocket) (message : Bytes)
          → P (
              if is_empty message
              then send_ssl_packet_to_client_socket client (status_packet err_empty_message) w
              else send_ssl_packet_to_client_socket found
                  (opcode_bytes smsg_private_message ++ (le_bytes 8 client.client_id ++ message))
                  (send_ssl_packet_to_client_socket client (status_packet err_ok) w))
      delivered found message = elim (Bool-cases (is_empty message)) [
        | inl e ↦ rw e (stays _ refl refl)
        | inr e ↦ rw e (stays _ refl refl)
      ]

  roominfo-other : Ends (P) (call_handler_get_roominfo client w)
  unfolding call_handler_get_roominfo send_msg_to_socket send_ssl_packet_to_client_socket
  roominfo-other = if-Ends (not client.chat_room_joined) (returned (stays _ refl refl)) (
      if-Ends (not (check_room_id w.chat client.joined_chat_room_id)) (returned (stays _ refl refl))
        (bind-Ends (get_room_name-Ends w.chat client.joined_chat_room_id)
          (λ name u. returned (stays _ refl refl))))

  -- The handler of any packet, where that of a join is seen to.
  pub handle_opcode-other :
      (lib : DoubleArith) (now size opcode : ℕ)
      → ((opcode == cmsg_join_room) ≡ true
          → (size == 35) ≡ true
          → Ends P (call_handler_join_room i client 2 w))
      → Ends (P) (handle_opcode lib now i client size opcode w)
  unfolding handle_opcode call_handler_echo call_handler_broadcast call_handler_get_client_list
      call_handler_add call_handler_pong call_handler_uptime call_handler_get_counter
      call_handler_get_chat_rooms send_msg_to_socket send_ssl_packet_to_client_socket
  handle_opcode-other lib now size opcode join =
      let words = message_of-Ends size w in
      let out = broadcast_loop-same (clients w) in
      if-Ends (opcode == cmsg_echo_request) (bind-Ends words (λ m u. returned (stays _ refl refl)))
        (if-Ends (opcode == cmsg_addition_request)
          (if-Ends (leb 6 size)
            (bind-Ends (add_loop-Ends lib (buffer_of w) size 2 size 0 (omega arith))
              (λ sum u. returned (stays _ refl refl)))
            (returned (stays _ refl refl)))
          (if-Ends (opcode == cmsg_broadcast_message)
            (bind-Ends words (λ m u. returned (stays _ (out _ w).0 (out _ w).1)))
            (if-Ends (opcode == cmsg_get_client_list) (returned (stays _ refl refl)) (
              if-Ends (opcode == cmsg_send_msg_to_client)
                (if-Ends (leb 10 size) (message-other size) (returned (stays _ refl refl)))
                (if-Ends (opcode == cmsg_ping) (returned (stays _ refl refl)) (
                  if-Ends (opcode == cmsg_uptime) (returned (stays _ refl refl)) (
                    if-Ends (opcode == cmsg_increment_counter) (returned (stays _ refl refl)) (
                      if-Ends (opcode == cmsg_get_counter) (returned (stays _ refl refl)) (
                        if-Ends (opcode == cmsg_get_chat_rooms) (returned (stays _ refl refl)) (
                          if-Ends (opcode == cmsg_get_room_info) roominfo-other (
                            if-Ends-when (opcode == cmsg_join_room)
                              (λ is_join.
                                if-Ends-when (size == 35) (join is_join)
                                  (returned (stays _ refl refl)))
                              (if-Ends (opcode == cmsg_say)
                                (bind-Ends words (λ m u. returned (say-other m)))
                                (returned (stays _ refl refl))))))))))))))
