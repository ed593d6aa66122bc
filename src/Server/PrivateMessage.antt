-- ===== src/Server/PrivateMessage.antt =====
-- CMSG_SEND_MSG_TO_CLIENT: what the receiver gets of the message that the client typed.
use communo.Prelude.{
  ap, sym, refl, All, [], ◌∷◌, length-take, take-append-drop, read_bytes-append,
  read_bytes-undefined, inl, inr, ◌⊎◌, Bool-cases, ℕ, ◌+◌, ◌-◌, ◌≤◌, ◌<◌, ◌^◌, ◌≡◌, ◌≢◌, ◌∙◌, true,
  false, ◌++◌, append_assoc, none, some, arith, Bytes, le_bytes, Result, ok, undefined, read_bytes,
  memcpy_uint, memcpy_uint-append, leb, ◌==◌, if◌then◌else◌, length, length-append, length-le_bytes,
  take, drop, get_elem?,
}
use mathlib.Core.Path.{subst}
use communo.OpCodes.{opcode_bytes, cmsg_send_msg_to_client, smsg_private_message}
use communo.SharedDefinitions.{err_ok, err_no_client_found, err_msg_to_self}
use communo.Chat.{is_empty}
use communo.Chat.Password.{is_empty-pos}
use communo.Client.{client_message_packet}
use communo.Server.{ClientSocket, ssl_write, World, DoubleArith, clients, buffer_of}
use communo.Server.Send.{send_ssl_packet_to_client_socket}
use communo.Server.Handlers.{
  call_handler_msg_to_client, deliver_message, find_client, status_packet,
}
use communo.Server.Lookup.{find_client-absent}
use communo.Server.Wire.{status_packet_bytes}
use communo.Server.Dispatch.{handle_opcode}
use communo.Server.Requests.{fill_buffer, serve_client}
use communo.Server.Packet.{
  serve_client-opcode, length-opcode_bytes, buffer-fill_buffer, clients-fill_buffer, stale,
  length-stale,
}

-- `CallHandlerMsgToClient` with the identifier taken out of the buffer.
abbrev by_id : ClientSocket → ℕ → ℕ → World → Result World
by_id client id payload_size w =
    if id == client.client_id
    then ok (send_ssl_packet_to_client_socket client (status_packet err_msg_to_self) w)
    else deliver_message client 10 payload_size (find_client id (clients w)) w

id_read :
    (id : ℕ) (rest : Bytes)
    → id < 2 ^ 64
    → memcpy_uint (opcode_bytes cmsg_send_msg_to_client ++ (le_bytes 8 id ++ rest)) 2 8 ≡ ok id
id_read id rest h =
    rw (length-opcode_bytes cmsg_send_msg_to_client) at
      (memcpy_uint-append (opcode_bytes cmsg_send_msg_to_client) 8 id rest h)

-- A read that takes ten bytes more than the message has.
overrun_read :
    (front msg behind : Bytes)
    → length front ≡ 10
    → 10 ≤ length behind
    → read_bytes (front ++ (msg ++ behind)) 10 (length msg + 10) ≡ ok (msg ++ take 10 behind)
overrun_read front msg behind f b =
    let size : length (msg ++ take 10 behind) ≡ length msg + 10 =
      omega (arith, length-append msg (take 10 behind), length-take 10 behind) in
    let whole : front ++ ((msg ++ take 10 behind) ++ drop 10 behind) ≡ front ++ (msg ++ behind) =
      rw (append_assoc, take-append-drop 10 behind) in
    rw (whole, f, size) at (read_bytes-append front (msg ++ take 10 behind) (drop 10 behind))

pub length-client_message_packet :
    (id : ℕ) (msg : Bytes) → length (client_message_packet id msg) ≡ length msg + 10
length-client_message_packet id msg =
    rw
      (
        length-append,
        length-append,
        length-opcode_bytes cmsg_send_msg_to_client,
        length-le_bytes 8 id,
      )
      (omega arith)

-- The one who is told of the code is the client; no client, no room and not the counter is changed.
pub record Told (client : ClientSocket) (w : World) (code : ℕ) (w' : World) : Type 0 where
  pub told : w'.events ≡ w.events ++ (ssl_write client.ssl (0x10 ∷ 0x05 ∷ code ∷ []) ∷ [])
  pub connected : clients w' ≡ clients w
  pub chat : w'.chat ≡ w.chat
  pub universe : w'.universe ≡ w.universe

module _ (lib : DoubleArith) (now i : ℕ) (client : ClientSocket) (id : ℕ) (msg : Bytes) (w : World)
    (here : get_elem? (clients w) i ≡ some client) (fits : id < 2 ^ 64) where
  -- The packet reaches `CallHandlerMsgToClient`, which finds the identifier in it.
  handled :
      serve_client lib now i client (client_message_packet id msg) w
      ≡ by_id client id (length msg + 10) (fill_buffer (client_message_packet id msg) w)
  unfolding handle_opcode call_handler_msg_to_client
  handled =
      let rest = le_bytes 8 id ++ msg in
      let size : length rest + 2 ≡ length msg + 10 =
        omega (arith, length-append (le_bytes 8 id) msg, length-le_bytes 8 id) in
      let test : leb 10 (length msg + 10) ≡ true = ground arith in
      let flat : buffer_of (fill_buffer (client_message_packet id msg) w)
          ≡ opcode_bytes cmsg_send_msg_to_client
            ++ (le_bytes 8 id ++ (msg ++ stale (client_message_packet id msg) w)) =
        buffer-fill_buffer (client_message_packet id msg) w ∙ simp append_assoc in
      serve_client-opcode lib now i client cmsg_send_msg_to_client rest w (omega arith) here
      ∙ rw (size, test, flat, id_read id (msg ++ stale (client_message_packet id msg) w) fits)

  refused :
      (id ≡ client.client_id) ⊎ (find_client id (clients w) ≡ none)
      → serve_client lib now i client (client_message_packet id msg) w
        ≡ ok (
            send_ssl_packet_to_client_socket client
              (status_packet
                (if id == client.client_id then err_msg_to_self else err_no_client_found))
              (fill_buffer (client_message_packet id msg) w))
  unfolding deliver_message
  refused why = elim (Bool-cases (id == client.client_id)) [
    | inl same ↦ handled ∙ rw same
    | inr other ↦
        let missing : find_client id (clients w) ≡ none = ground arith in
        let gone : find_client id (clients (fill_buffer (client_message_packet id msg) w)) ≡ none =
          rw clients-fill_buffer missing in
        handled ∙ rw (other, gone)
  ]

  abbrev refusal : ℕ → World
  refusal code =
      send_ssl_packet_to_client_socket client (status_packet code)
        (fill_buffer (client_message_packet id msg) w)

  status-Told : (code : ℕ) → code < 256 → Told client w code (refusal code)
  unfolding send_ssl_packet_to_client_socket fill_buffer
  status-Told code h = record {
    told = ap (λ bytes. w.events ++ (ssl_write client.ssl bytes ∷ [])) (status_packet_bytes code h);
    connected = refl;
    chat = refl;
    universe = refl;
  }

  -- A message to oneself is refused with the code 6, and one to another number, that no client has,
  -- with the code 5: the sender alone is written to, two bytes for the opcode of such a status and one
  -- for the code, and no client, no room and not the counter is changed.
  pub private_message_refused :
      (code : ℕ)
      → ((id ≡ client.client_id) × (code ≡ 6))
        ⊎ ((id ≢ client.client_id) × All (λ c. c.client_id ≢ id) (clients w) × (code ≡ 5))
      → (w' : World) × (serve_client lib now i client (client_message_packet id msg) w ≡ ok w')
        × Told client w code w'
  private_message_refused code (inl (same, is)) =
      let test : (id == client.client_id) ≡ true = ground arith in
      (
        refusal 6,
        refused (inl same) ∙ rw test refl,
        subst (λ c. Told client w c (refusal 6)) (sym is) (status-Told 6 (omega arith)),
      )
  private_message_refused code (inr (other, none_, is)) =
      let test : (id == client.client_id) ≡ false = ground arith in
      (
        refusal 5,
        refused (inr (find_client-absent id (clients w) none_)) ∙ rw test refl,
        subst (λ c. Told client w c (refusal 5)) (sym is) (status-Told 5 (omega arith)),
      )

  -- A message to another connected client is delivered with ten bytes too many: the receiver gets
  -- the text, and behind it what earlier packets left in the server's buffer of 4096 bytes. Where
  -- those ten bytes would lie outside the buffer, the read is undefined behaviour.
  pub private_message_overrun :
      (found : ClientSocket)
      → id ≢ client.client_id
      → find_client id (clients w) ≡ some found
      → length (buffer_of w) ≡ 4096
      → length msg + 10 ≤ 4096
      → serve_client lib now i client (client_message_packet id msg) w ≡ (
          if leb (length msg + 20) 4096
          then ok (
              send_ssl_packet_to_client_socket found
                (opcode_bytes smsg_private_message
                  ++ (le_bytes 8 client.client_id
                      ++ (msg ++ take 10 (stale (client_message_packet id msg) w))))
                (send_ssl_packet_to_client_socket client
                  (status_packet err_ok)
                  (fill_buffer (client_message_packet id msg) w)))
          else undefined)
  unfolding deliver_message
  private_message_overrun found other hit size short =
      let test : (id == client.client_id) ≡ false = ground arith in
      let packet = client_message_packet id msg in
      let known : find_client id (clients (fill_buffer packet w)) ≡ some found =
        rw clients-fill_buffer hit in
      let front : length (opcode_bytes cmsg_send_msg_to_client ++ le_bytes 8 id) ≡ 10 =
        rw (length-append, length-opcode_bytes cmsg_send_msg_to_client, length-le_bytes 8 id) in
      let packet_size = length-client_message_packet id msg in
      let behind : length (stale packet w) ≡ 4096 - (length msg + 10) =
        omega (arith, length-stale packet w, packet_size, size) in
      let flat : buffer_of (fill_buffer packet w)
          ≡ (opcode_bytes cmsg_send_msg_to_client ++ le_bytes 8 id) ++ (msg ++ stale packet w) =
        buffer-fill_buffer packet w ∙ simp append_assoc in
      elim (Bool-cases (leb (length msg + 20) 4096)) [
        | inl inside ↦
            let room : 10 ≤ length (stale packet w) = ground arith in
            let some_text : is_empty (msg ++ take 10 (stale packet w)) ≡ false =
              is_empty-pos (msg ++ take 10 (stale packet w))
                (rw length-append (omega (arith, length-take 10 (stale packet w)))) in
            handled
            ∙ rw (
              test,
              known,
              flat,
              overrun_read _ msg (stale packet w) front room,
              some_text,
              inside,
            )
        | inr outside ↦
            let total : length (buffer_of (fill_buffer packet w)) ≡ 4096 = rw flat (
              omega (
                arith,
                length-append (opcode_bytes cmsg_send_msg_to_client ++ le_bytes 8 id)
                    (msg ++ stale packet w),
                length-append msg (stale packet w),
                front,
                behind,
              )) in
            let past : read_bytes (buffer_of (fill_buffer packet w)) 10 (length msg + 10)
                ≡ undefined =
              read_bytes-undefined _ 10 (length msg + 10) (ground arith) in
            handled ∙ rw (test, known, past, outside)
      ]
