-- ===== src/Server/Rooms.antt =====
-- Who receives what: CMSG_BROADCAST_MESSAGE and CMSG_SAY.
use communo.Prelude.{
  ℕ, ◌≡◌, refl, ◌∙◌, ◌⊎◌, inl, inr, true, false, not, ◌||◌, List, [], ◌∷◌, ◌++◌, append_assoc,
  append-nil, arith, Bytes, le_bytes, ◌==◌, if◌then◌else◌, Bool-cases, some, get_elem?, ok,
}
use communo.OpCodes.{
  opcode_bytes, smsg_broadcast, smsg_say, smsg_say_ok, smsg_say_err, cmsg_say,
  cmsg_broadcast_message,
}
use communo.SharedDefinitions.{err_no_room_joined, err_invalid_room}
use communo.Chat.{check_room_id}
use communo.Server.{ClientSocket, Event, World, DoubleArith, clients}
use communo.Server.Send.{write_to, send_ssl_packet_to_client_socket}
use communo.Server.Handlers.{broadcast_loop, call_handler_broadcast, say_loop, call_handler_say}
use communo.Server.Dispatch.{handle_opcode}
use communo.Server.Requests.{emit, fill_buffer, serve_client}
use communo.Server.Packet.{serve_client-opcode, message_of-packet, clients-fill_buffer}

-- `events` are one write of `packet` to each client of the list that satisfies `P`, in the order of
-- the list, and to nobody else.
pub data Delivered (P : ClientSocket → Type 0) (packet : Bytes)
    : List ClientSocket → List Event → Type 0 where
  done : Delivered P packet [] []
  deliver :
      {client : ClientSocket} {rest : List ClientSocket} {events : List Event}
      → P client
      → Delivered P packet rest events
      → Delivered P packet (client ∷ rest) (write_to client packet ∷ events)
  skip :
      {client : ClientSocket} {rest : List ClientSocket} {events : List Event}
      → ¬ P client
      → Delivered P packet rest events
      → Delivered P packet (client ∷ rest) events

abbrev pub IsSecured : ClientSocket → Type 0
IsSecured client = client.ssl_enabled ≡ true

abbrev pub IsMember : ℕ → ClientSocket → Type 0
IsMember room_id client =
    (client.ssl_enabled ≡ true)
    × (client.chat_room_joined ≡ true)
    × (client.joined_chat_room_id ≡ room_id)

-- The outcome of a sending loop: the same world with the deliveries added to what was done.
abbrev pub DeliversTo : (ClientSocket → Type 0) → Bytes → List ClientSocket → World → World → Type 0
DeliversTo P packet all w w' =
    (events : List Event) × Delivered P packet all events × (w' ≡ emit events w)

send-emit :
    (client : ClientSocket) (packet : Bytes) (events : List Event) (w : World)
    → emit events (send_ssl_packet_to_client_socket client packet w)
      ≡ emit (write_to client packet ∷ events) w
unfolding send_ssl_packet_to_client_socket
send-emit client packet events w = rw append_assoc

broadcast_loop-Delivered :
    (all : List ClientSocket) (packet : Bytes) (w : World)
    → DeliversTo IsSecured packet all w (broadcast_loop all packet w)
unfolding broadcast_loop
broadcast_loop-Delivered [] packet w = ([], done, rw append-nil)
broadcast_loop-Delivered (client ∷ rest) packet w = elim (Bool-cases client.ssl_enabled) [
  | inl on ↦
      let (events, d, e) =
        broadcast_loop-Delivered rest packet (send_ssl_packet_to_client_socket client packet w) in
      (write_to client packet ∷ events, deliver on d, rw on (e ∙ send-emit client packet events w))
  | inr off ↦
      let (events, d, e) = broadcast_loop-Delivered rest packet w in
      (events, skip (λ on. cc) d, rw off e)
]

-- The two guards of the loop in one: a client is passed over unless it is a member.
pub say_guards :
    (room_id : ℕ) (client : ClientSocket) {A : Type 0} (passed sent : A)
    → (IsMember room_id client
        × ((if not client.ssl_enabled
              then passed
              else if not (client.joined_chat_room_id == room_id) || not client.chat_room_joined
              then passed
              else sent)
            ≡ sent))
      ⊎ (¬ IsMember room_id client
          × ((if not client.ssl_enabled
                then passed
                else if not (client.joined_chat_room_id == room_id) || not client.chat_room_joined
                then passed
                else sent)
              ≡ passed))
say_guards room_id client passed sent = elim (Bool-cases client.ssl_enabled) [
  | inr off ↦ inr (λ m. cc, rw off)
  | inl on ↦ elim (Bool-cases client.chat_room_joined) [
    | inr out ↦ inr (λ m. cc, rw (on, out) (ground arith))
    | inl joined ↦ elim (Bool-cases (client.joined_chat_room_id == room_id)) [
      | inl here ↦ inl ((on, joined, ground arith), rw (on, here, joined))
      | inr elsewhere ↦ inr (λ m. ground arith, rw (on, elsewhere))
    ]
  ]
]

say_loop-Delivered :
    (all : List ClientSocket) (room_id : ℕ) (packet : Bytes) (w : World)
    → DeliversTo (IsMember room_id) packet all w (say_loop all room_id packet w)
unfolding say_loop
say_loop-Delivered [] room_id packet w = ([], done, rw append-nil)
say_loop-Delivered (client ∷ rest) room_id packet w =
    elim (say_guards room_id client w (send_ssl_packet_to_client_socket client packet w)) [
      | inl (member, chosen) ↦
          let (events, d, e) =
            say_loop-Delivered rest room_id packet
              (send_ssl_packet_to_client_socket client packet w) in
          (
            write_to client packet ∷ events,
            deliver member d,
            rw chosen (e ∙ send-emit client packet events w),
          )
      | inr (stranger, chosen) ↦
          let (events, d, e) = say_loop-Delivered rest room_id packet w in
          (events, skip stranger d, rw chosen e)
    ]

module _ (lib : DoubleArith) (now i : ℕ) (client : ClientSocket) (text : Bytes) (w : World)
    (here : get_elem? (clients w) i ≡ some client) where
  -- A broadcast goes to every client whose TLS handshake is done, the sender with them, once each
  -- and in the order of their connection; nothing else happens but that the packet is in the buffer.
  pub broadcast_reaches :
      (w' : World) × (serve_client lib now i client (opcode_bytes cmsg_broadcast_message ++ text) w
        ≡ ok w')
      × DeliversTo IsSecured
          (opcode_bytes smsg_broadcast ++ text)
          (clients w)
          (fill_buffer (opcode_bytes cmsg_broadcast_message ++ text) w)
          w'
  unfolding handle_opcode call_handler_broadcast
  broadcast_reaches =
      let packet = opcode_bytes cmsg_broadcast_message ++ text in
      let same : clients (fill_buffer packet w) ≡ clients w = clients-fill_buffer packet w in
      (
        broadcast_loop (clients w) (opcode_bytes smsg_broadcast ++ text) (fill_buffer packet w),
        serve_client-opcode lib now i client cmsg_broadcast_message text w (omega arith) here
            ∙ rw (message_of-packet cmsg_broadcast_message text w, same),
        broadcast_loop-Delivered (clients w) (opcode_bytes smsg_broadcast ++ text)
            (fill_buffer packet w),
      )

  -- What a member of an existing room says is confirmed to that member, and then goes to every
  -- client in that room whose TLS handshake is done, once each, and to no other client.
  pub say_reaches_room :
      client.chat_room_joined ≡ true
      → check_room_id w.chat client.joined_chat_room_id ≡ true
      → (w' : World) × (serve_client lib now i client (opcode_bytes cmsg_say ++ text) w ≡ ok w')
        × DeliversTo
            (IsMember client.joined_chat_room_id)
            (opcode_bytes smsg_say ++ text)
            (clients w)
            (send_ssl_packet_to_client_socket client
              (opcode_bytes smsg_say_ok)
              (fill_buffer (opcode_bytes cmsg_say ++ text) w))
            w'
  unfolding handle_opcode call_handler_say
  say_reaches_room joined exists =
      let packet = opcode_bytes cmsg_say ++ text in
      let confirmed =
        send_ssl_packet_to_client_socket client (opcode_bytes smsg_say_ok) (fill_buffer packet w) in
      let same : clients (fill_buffer packet w) ≡ clients w = clients-fill_buffer packet w in
      let chat : (fill_buffer packet w).chat ≡ w.chat = unfold fill_buffer in refl in
      (
        say_loop (clients w) client.joined_chat_room_id (opcode_bytes smsg_say ++ text) confirmed,
        serve_client-opcode lib now i client cmsg_say text w (omega arith) here
            ∙ rw (message_of-packet cmsg_say text w, chat, exists, joined, same),
        say_loop-Delivered (clients w) client.joined_chat_room_id (opcode_bytes smsg_say ++ text)
            confirmed,
      )

  -- Without a room, or in a room that is not in the table, nothing is passed on: the sender alone
  -- is told why.
  pub say_refused :
      (client.chat_room_joined ≡ false) ⊎ (check_room_id w.chat client.joined_chat_room_id ≡ false)
      → serve_client lib now i client (opcode_bytes cmsg_say ++ text) w
        ≡ ok (
            send_ssl_packet_to_client_socket client
              (opcode_bytes smsg_say_err
                ++ le_bytes 1
                    (if client.chat_room_joined then err_invalid_room else err_no_room_joined))
              (fill_buffer (opcode_bytes cmsg_say ++ text) w))
  unfolding handle_opcode call_handler_say
  say_refused why =
      let packet = opcode_bytes cmsg_say ++ text in
      let chat : (fill_buffer packet w).chat ≡ w.chat = unfold fill_buffer in refl in
      serve_client-opcode lib now i client cmsg_say text w (omega arith) here
      ∙ rw (message_of-packet cmsg_say text w, chat)
          (elim why [ inl out ↦ rw out (ground arith) | inr gone ↦ rw gone (ground arith) ])
