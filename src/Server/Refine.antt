-- ===== src/Server/Refine.antt =====
-- One request of a client, as the view of the server takes it.
use mathlib.Core.Path.{subst}
use communo.Prelude.{
  codes, ℕ, ◌+◌, ◌≤◌, ◌≡◌, refl, sym, ◌∙◌, ap, inl, inr, Bool, true, false, ◌&&◌, List, ◌++◌, none,
  some, arith, Bytes, bswap, of_le, length, get_elem?, set, take, drop, ◌==◌, leb, Bool-cases,
  Option-cases, ok, Ends, returned, memcpy_uint, read_bytes, read_bytes-ok, take-drop-front,
  length-append,
}
use communo.OpCodes.{cmsg_join_room}
use communo.SharedDefinitions.{err_ok, err_invalid_room, err_invalid_room_password}
use communo.Chat.{ChatRoom, Rooms, find}
use communo.Chat.Subscript.{with_empty_room}
use communo.Server.{ClientSocket, World, DoubleArith, clients, buffer_of}
use communo.Server.Send.{send_ssl_packet_to_client_socket}
use communo.Server.Dispatch.{call_handler, handle_opcode}
use communo.Server.Requests.{fill_buffer, serve_client}
use communo.Server.Handlers.{call_handler_join_room, finish_join}
use communo.Server.Packet.{buffer-fill_buffer, stale}
use communo.Server.Join.{HashesWhole, find-IsHash, join_error, join_known_room, join_unknown_room}
use communo.Server.Effects.{finish_join-clients, finish_join-chat}
use communo.Server.Others.{handle_opcode-other}
use communo.Server.Admission.{Distinct}
use communo.Server.View.{
  view, digest_of, membership, passwords, packet_request, membership-set, passwords-append,
}
use communo.Membership.{
  update, nothing, join, lets_in, apply, apply_unknown, apply_let_in, apply_refused,
}

pub same_view : (w w' : World) → clients w' ≡ clients w → w'.chat ≡ w.chat → view w' ≡ view w
same_view w w' c t = rw (c, t) refl

-- What a packet says stands in the buffer.
filled_read :
    (bytes : Bytes) (w : World) (offset n : ℕ)
    → offset + n ≤ length bytes
    → read_bytes (buffer_of (fill_buffer bytes w)) offset n ≡ ok (take n (drop offset bytes))
filled_read bytes w offset n h =
    let whole : offset + n ≤ length (bytes ++ stale bytes w) =
      omega (arith, length-append bytes (stale bytes w)) in
    rw (buffer-fill_buffer bytes w) (
      read_bytes-ok (bytes ++ stale bytes w) offset n whole
      ∙ ap ok (take-drop-front n offset bytes (stale bytes w) h))

filled_uint :
    (bytes : Bytes) (w : World) (offset n : ℕ)
    → offset + n ≤ length bytes
    → memcpy_uint (buffer_of (fill_buffer bytes w)) offset n
      ≡ ok (of_le (take n (drop offset bytes)))
unfolding memcpy_uint
filled_uint bytes w offset n h = rw (filled_read bytes w offset n h) refl

-- Whether a packet is a request to join.
abbrev is_join : Bytes → Bool
is_join bytes = (length bytes == 35) && (bswap 2 (of_le (take 2 bytes)) == cmsg_join_room)

join_reaches :
    (lib : DoubleArith) (now i : ℕ) (client : ClientSocket) (bytes : Bytes) (w : World)
    → get_elem? (clients w) i ≡ some client
    → (length bytes == 35) ≡ true
    → (bswap 2 (of_le (take 2 bytes)) == cmsg_join_room) ≡ true
    → serve_client lib now i client bytes w
      ≡ call_handler_join_room i client 2 (fill_buffer bytes w)
unfolding serve_client call_handler handle_opcode
join_reaches lib now i client bytes w here size opcode =
    let long : leb 2 (length bytes) ≡ true = ground arith in
    let e : bswap 2 (of_le (take 2 bytes)) ≡ cmsg_join_room = ground arith in
    let filled : get_elem? (clients (fill_buffer bytes w)) i ≡ some client =
      unfold fill_buffer in here in
    rw (long, filled, filled_uint bytes w 0 2 (ground arith), e, size) refl

view_of :
    (w : World) (all : List ClientSocket) (rooms : Rooms)
    → clients w ≡ all
    → w.chat.chat_rooms ≡ rooms
    → view w ≡ record { members = membership all; rooms = passwords rooms }
view_of w all rooms c r = rw (c, r) refl

module _ (i : ℕ) (client : ClientSocket) (w : World) (here : get_elem? (clients w) i ≡ some client)
    (distinct : Distinct (clients w)) where
  refused_view :
      (id error : ℕ) (u : World)
      → (error == err_ok) ≡ false
      → clients u ≡ clients w
      → view (finish_join i client id error u)
        ≡ record { members = membership (clients w); rooms = passwords u.chat.chat_rooms }
  refused_view id error u denied c =
      view_of (finish_join i client id error u) (clients w) u.chat.chat_rooms
        (finish_join-clients i client id error u ∙ rw denied c)
        (ap (λ chat. chat.chat_rooms) (finish_join-chat i client id error u))

  joined_view :
      (id : ℕ)
      → view (finish_join i client id err_ok w) ≡ record {
        members = update client.client_id (some (some id)) (membership (clients w));
        rooms = passwords w.chat.chat_rooms;
      }
  joined_view id =
      let joined = record client { joined_chat_room_id = id; chat_room_joined = true } in
      view_of (finish_join i client id err_ok w) (set (clients w) i joined) w.chat.chat_rooms
        (finish_join-clients i client id err_ok w)
        (ap (λ chat. chat.chat_rooms) (finish_join-chat i client id err_ok w))
      ∙ rw (membership-set (clients w) i client joined here refl distinct) refl

  known_view :
      (id : ℕ) (hash : Bytes) (room : ChatRoom)
      → find id w.chat.chat_rooms ≡ some room
      → view (finish_join i client id (join_error (some room) hash) w)
        ≡ apply client.client_id (join id hash) (view w)
  known_view id hash room f = elim (Bool-cases (lets_in room.password_hash hash)) [
    | inl open_ ↦ rw open_ (
        joined_view id
        ∙ sym (
            apply_let_in client.client_id id hash (view w) room.password_hash (ap digest_of f)
              open_))
    | inr shut ↦ rw shut (
        refused_view id err_invalid_room_password w refl refl
        ∙ sym (
            apply_refused client.client_id id hash (view w) room.password_hash (ap digest_of f)
              shut))
  ]

  unknown_view :
      (id : ℕ) (hash : Bytes)
      → find id w.chat.chat_rooms ≡ none
      → view
          (finish_join i client id err_invalid_room (record w { chat = with_empty_room w.chat id }))
        ≡ apply client.client_id (join id hash) (view w)
  unknown_view id hash f =
      refused_view id err_invalid_room (record w { chat = with_empty_room w.chat id }) refl refl
      ∙ rw (passwords-append w.chat.chat_rooms id f)
          (sym (apply_unknown client.client_id id hash (view w) (ap digest_of f)))

  join_view :
      (id : ℕ) (hash : Bytes)
      → memcpy_uint (buffer_of w) 2 1 ≡ ok id
      → read_bytes (buffer_of w) 3 32 ≡ ok hash
      → HashesWhole w.chat.chat_rooms
      → Ends
          (λ w'. view w' ≡ apply client.client_id (join id hash) (view w))
          (call_handler_join_room i client 2 w)
  join_view id hash a b whole = elim (Option-cases (find id w.chat.chat_rooms)) [
    | inl f ↦ rw (join_unknown_room i client 2 id hash w a b f) (returned (unknown_view id hash f))
    | inr (room, f) ↦
        rw
          (join_known_room i client 2 id hash w a b room f
            (find-IsHash id w.chat.chat_rooms room whole f))
          (returned (known_view id hash room f))
  ]

module _ (lib : DoubleArith) (now i : ℕ) (client : ClientSocket) (bytes : Bytes) (w : World)
    (here : get_elem? (clients w) i ≡ some client) where
  -- What serving the packet should do to the view.
  abbrev pub Taken : World → Type 0
  Taken w' = view w' ≡ apply client.client_id (packet_request bytes) (view w)

  other-Taken :
      packet_request bytes ≡ nothing
      → (((length bytes == 35) && (bswap 2 (of_le (take 2 bytes)) == cmsg_join_room)) ≡ false)
      → Ends Taken (serve_client lib now i client bytes w)
  unfolding serve_client call_handler fill_buffer send_ssl_packet_to_client_socket
  other-Taken idle no_join =
      let opcode = bswap 2 (of_le (take 2 bytes)) in
      let filled = fill_buffer bytes w in
      let refused = send_ssl_packet_to_client_socket client (codes "Invalid packet.") filled in
      let still : (w' : World) → clients w' ≡ clients w → w'.chat ≡ w.chat → Taken w' =
        λ w' c t. same_view w w' c t ∙ rw idle refl in
      elim (Bool-cases (leb 2 (length bytes))) [
        | inr short ↦ rw short (returned (still refused refl refl))
        | inl long ↦
            rw (long, here, filled_uint bytes w 0 2 (ground arith))
              (handle_opcode-other i client filled Taken still lib now (length bytes) opcode
                (λ a b. absurd (cc (a, b, no_join))))
      ]

  join-Taken :
      (length bytes == 35) ≡ true
      → (bswap 2 (of_le (take 2 bytes)) == cmsg_join_room) ≡ true
      → Distinct (clients w)
      → HashesWhole w.chat.chat_rooms
      → Ends Taken (serve_client lib now i client bytes w)
  unfolding fill_buffer
  join-Taken size opcode distinct whole =
      let filled = fill_buffer bytes w in
      let fits : 35 ≤ length bytes = ground arith in
      let room = of_le (take 1 (drop 2 bytes)) in
      let hash = take 32 (drop 3 bytes) in
      let asked : packet_request bytes ≡ join room hash = rw (size, opcode) refl in
      subst
        (λ r.
          Ends (λ w'. view w' ≡ apply client.client_id r (view w))
            (serve_client lib now i client bytes w))
        (sym asked)
        (rw (join_reaches lib now i client bytes w here size opcode) (
          join_view i client filled here distinct room hash (filled_uint bytes w 2 1 (omega arith))
            (filled_read bytes w 3 32 (omega arith)) whole))

  -- Serving any packet does to the view what the packet asks for.
  pub serve_client-Taken :
      Distinct (clients w)
      → HashesWhole w.chat.chat_rooms
      → Ends Taken (serve_client lib now i client bytes w)
  serve_client-Taken distinct whole = elim (Bool-cases (length bytes == 35)) [
    | inr size ↦ other-Taken (rw size refl) (rw size refl)
    | inl size ↦ elim (Bool-cases (bswap 2 (of_le (take 2 bytes)) == cmsg_join_room)) [
      | inr opcode ↦ other-Taken (rw (size, opcode) refl) (rw (size, opcode) refl)
      | inl opcode ↦ join-Taken size opcode distinct whole
    ]
  ]
