-- ===== src/Server/Join.antt =====
-- CMSG_JOIN_ROOM.
use mathlib.Core.Path.{subst}
use communo.Prelude.{
  append_assoc, memcpy_uint-append, length-le_bytes, All, get_elem?-set_ne, ◌&&◌, ◌||◌, ℕ, ◌+◌, ◌<◌,
  ◌≡◌, refl, ◌∙◌, ◌⊎◌, inl, inr, true, false, [], ◌∷◌, ◌++◌, Option, none, some, arith, Bytes,
  le_bytes, bytes_eq, ok, read_bytes, memcpy_uint, ◌==◌, if◌then◌else◌, length, get_elem?,
  get_elem?-set_self, get_elem?-lt, Option-cases, Bool-cases, length-append, read_bytes-append,
}
use communo.SharedDefinitions.{err_ok, err_invalid_room, err_invalid_room_password}
use communo.OpCodes.{opcode_bytes, cmsg_join_room}
use communo.Chat.{
  ChatRoom, Rooms, Chat, empty_room, find, is_empty, check_password_hash, subscript,
  sha256_digest_length,
}
use communo.Chat.Password.{is_empty-pos}
use communo.Chat.Subscript.{
  subscript_unknown, subscript_known, is_room_protected_known, is_room_protected_unknown,
  with_empty_room, find-with_empty_room, check_room_id_known, check_room_id_unknown,
}
use communo.Client.{join_packet}
use communo.Server.Requests.{fill_buffer, serve_client}
use communo.Server.Dispatch.{handle_opcode}
use communo.Server.Packet.{serve_client-opcode, length-opcode_bytes, buffer-fill_buffer, stale}
use communo.Server.{DoubleArith, ClientSocket, World, clients, buffer_of}
use communo.Server.Handlers.{call_handler_join_room, finish_join}

-- A stored hash is absent or a whole SHA-256 digest.
abbrev pub IsHash : Bytes → Type 0
IsHash hash = (hash ≡ []) ⊎ (length hash ≡ 32)

-- The answer that a join deserves, from the room alone.
abbrev pub join_error : Option ChatRoom → Bytes → ℕ
join_error none hash = err_invalid_room
join_error (some room) hash =
    if is_empty room.password_hash || bytes_eq room.password_hash hash
    then err_ok
    else err_invalid_room_password

password_checked :
    (chat : Chat) (id : ℕ) (room : ChatRoom) (hash : Bytes)
    → find id chat.chat_rooms ≡ some room
    → length room.password_hash ≡ 32
    → check_password_hash chat id hash ≡ ok (chat, bytes_eq room.password_hash hash)
unfolding check_password_hash
password_checked chat id room hash f size =
    let read : read_bytes (room.password_hash ++ (0 ∷ [])) 0 32 ≡ ok room.password_hash =
      rw size at (read_bytes-append [] room.password_hash (0 ∷ [])) in
    rw (subscript_known chat.chat_rooms id room f, read)

module _ (i : ℕ) (client : ClientSocket) (offset id : ℕ) (hash : Bytes) (w : World)
    (id_read : memcpy_uint (buffer_of w) offset 1 ≡ ok id)
    (hash_read : read_bytes (buffer_of w) (offset + 1) sha256_digest_length ≡ ok hash) where
  -- In a room that exists, a join is answered by what the room asks for: an open room lets
  -- everybody in, and a protected one exactly those who bring its hash. The rooms stay as they were.
  pub join_known_room :
      (room : ChatRoom)
      → find id w.chat.chat_rooms ≡ some room
      → IsHash room.password_hash
      → call_handler_join_room i client offset w
        ≡ ok (finish_join i client id (join_error (some room) hash) w)
  unfolding call_handler_join_room
  join_known_room room f (inl open_) =
      let empty : is_empty room.password_hash ≡ true = rw open_ (unfold is_empty in refl) in
      rw (
        id_read,
        hash_read,
        check_room_id_known w.chat id room f,
        is_room_protected_known w.chat id room f,
        empty,
      )
  join_known_room room f (inr size) =
      let full : is_empty room.password_hash ≡ false =
        is_empty-pos room.password_hash (omega arith) in
      rw
        (
          id_read,
          hash_read,
          check_room_id_known w.chat id room f,
          is_room_protected_known w.chat id room f,
          full,
          password_checked w.chat id room hash f size,
        )
        (elim (Bool-cases (bytes_eq room.password_hash hash)) [
          | inl same ↦ rw same
          | inr other ↦ rw other
        ])

  -- A join of a room that does not exist is refused as such, and leaves the room behind: an open
  -- room without a name now stands in the table.
  pub join_unknown_room :
      find id w.chat.chat_rooms ≡ none
      → call_handler_join_room i client offset w
        ≡ ok (
            finish_join i client id err_invalid_room
              (record w { chat = with_empty_room w.chat id }))
  unfolding call_handler_join_room
  join_unknown_room f =
      rw (
        id_read,
        hash_read,
        check_room_id_unknown w.chat id f,
        is_room_protected_unknown w.chat id f,
      )

-- The table holds only hashes that are absent or whole.
abbrev pub HashesWhole : Rooms → Type 0
HashesWhole = All (λ entry. IsHash entry.1.password_hash)

pub find-IsHash :
    (id : ℕ) (rooms : Rooms) (room : ChatRoom)
    → HashesWhole rooms
    → find id rooms ≡ some room
    → IsHash room.password_hash
unfolding find
find-IsHash id [] room h f = cc
find-IsHash id ((key, r) ∷ rooms) room h f = elim (Bool-cases (key == id)) [
  | inl hit ↦ let same : r ≡ room = ground arith in subst (λ x. IsHash x.password_hash) same h.0
  | inr miss ↦ find-IsHash id rooms room h.1 (rw miss at f)
]

-- The world in which the answer to a join is given: the packet is in the buffer, and the room asked
-- for is in the table, made up if it was not.
abbrev pub asked : ℕ → Bytes → World → World
asked id hash w = record (fill_buffer (join_packet id hash) w) {
  chat = record { chat_rooms = (subscript w.chat.chat_rooms id).0 };
}

-- The packet reaches `CallHandlerJoinRoom`, which finds the room and the hash in it.
join_served :
    (lib : DoubleArith) (now i : ℕ) (client : ClientSocket) (id : ℕ) (hash : Bytes) (w : World)
    → get_elem? (clients w) i ≡ some client
    → length hash ≡ 32
    → serve_client lib now i client (join_packet id hash) w
      ≡ call_handler_join_room i client 2 (fill_buffer (join_packet id hash) w)
unfolding handle_opcode
join_served lib now i client id hash w here size =
    let total : length (le_bytes 1 id ++ hash) + 2 ≡ 35 =
      omega (arith, length-append (le_bytes 1 id) hash, length-le_bytes 1 id, size) in
    serve_client-opcode lib now i client cmsg_join_room (le_bytes 1 id ++ hash) w (omega arith) here
    ∙ rw total

room_in_packet :
    (id : ℕ) (hash : Bytes) (w : World)
    → id < 256
    → memcpy_uint (buffer_of (fill_buffer (join_packet id hash) w)) 2 1 ≡ ok id
room_in_packet id hash w byte =
    let flat : buffer_of (fill_buffer (join_packet id hash) w)
        ≡ opcode_bytes cmsg_join_room
          ++ (le_bytes 1 id ++ (hash ++ stale (join_packet id hash) w)) =
      buffer-fill_buffer (join_packet id hash) w ∙ simp append_assoc in
    rw flat (
      rw (length-opcode_bytes cmsg_join_room) at (
        memcpy_uint-append (opcode_bytes cmsg_join_room) 1 id
          (hash ++ stale (join_packet id hash) w) byte))

hash_in_packet :
    (id : ℕ) (hash : Bytes) (w : World)
    → length hash ≡ 32
    → read_bytes (buffer_of (fill_buffer (join_packet id hash) w)) 3 32 ≡ ok hash
hash_in_packet id hash w size =
    let front = opcode_bytes cmsg_join_room ++ le_bytes 1 id in
    let place : length front ≡ 3 = omega (
      arith,
      length-append (opcode_bytes cmsg_join_room) (le_bytes 1 id),
      length-opcode_bytes cmsg_join_room,
      length-le_bytes 1 id,
    ) in
    let flat : buffer_of (fill_buffer (join_packet id hash) w)
        ≡ front ++ (hash ++ stale (join_packet id hash) w) =
      buffer-fill_buffer (join_packet id hash) w ∙ simp append_assoc in
    rw flat (rw (place, size) at (read_bytes-append front hash (stale (join_packet id hash) w)))

-- A client's join request (a one-byte room and a 32-byte digest), from the packet on, is answered
-- as the table of rooms says, where the stored digests are absent or whole: an unknown
-- room and a wrong password are refused with their own codes, and the rest lets the client in.
pub join_request :
    (lib : DoubleArith) (now i : ℕ) (client : ClientSocket) (id : ℕ) (hash : Bytes) (w : World)
    → get_elem? (clients w) i ≡ some client
    → id < 256
    → length hash ≡ 32
    → HashesWhole w.chat.chat_rooms
    → serve_client lib now i client (join_packet id hash) w
      ≡ ok (finish_join i client id (join_error (find id w.chat.chat_rooms) hash) (asked id hash w))
join_request lib now i client id hash w here byte size whole =
    let filled = fill_buffer (join_packet id hash) w in
    let same_chat : filled.chat ≡ w.chat = unfold fill_buffer in refl in
    join_served lib now i client id hash w here size
    ∙ elim (Option-cases (find id w.chat.chat_rooms)) [
      | inl f ↦
          join_unknown_room i client 2 id hash filled (room_in_packet id hash w byte)
            (hash_in_packet id hash w size) (rw same_chat f)
          ∙ rw (f, subscript_unknown w.chat.chat_rooms id f, same_chat)
      | inr (room, f) ↦
          join_known_room i client 2 id hash filled (room_in_packet id hash w byte)
            (hash_in_packet id hash w size) room (rw same_chat f)
            (find-IsHash id w.chat.chat_rooms room whole f)
          ∙ rw (f, subscript_known w.chat.chat_rooms id room f, same_chat)
    ]

-- The client that is let in, and only it, is moved to the room; a refusal moves nobody.
pub finish_join_client :
    (i j : ℕ) (client : ClientSocket) (id error : ℕ) (w : World)
    → get_elem? (clients w) i ≡ some client
    → get_elem? (clients (finish_join i client id error w)) j ≡ (
        if (j == i) && (error == err_ok)
        then some (record client { joined_chat_room_id = id; chat_room_joined = true })
        else get_elem? (clients w) j)
unfolding finish_join
finish_join_client i j client id error w here = elim (Bool-cases (error == err_ok)) [
  | inr refused ↦ rw refused (ground arith)
  | inl let_in ↦ rw let_in (elim (Bool-cases (j == i)) [
    | inl same ↦
        let e : j ≡ i = ground arith in
        rw (same, e) (get_elem?-set_self (clients w) i _ (get_elem?-lt (clients w) i here))
    | inr other ↦ rw other (get_elem?-set_ne (clients w) _ (ground arith))
  ])
]

-- A client that is refused for an unknown room gets into it by asking again: the first request
-- changes nothing for the client, and after the second it stands in the room.
pub join_unknown_twice :
    (i : ℕ) (client : ClientSocket) (offset id : ℕ) (hash : Bytes) (w : World)
    → memcpy_uint (buffer_of w) offset 1 ≡ ok id
    → read_bytes (buffer_of w) (offset + 1) sha256_digest_length ≡ ok hash
    → find id w.chat.chat_rooms ≡ none
    → get_elem? (clients w) i ≡ some client
    → (first : World) × (second : World) × (call_handler_join_room i client offset w ≡ ok first)
      × (get_elem? (clients first) i ≡ some client)
      × (call_handler_join_room i client offset first ≡ ok second)
      × (get_elem? (clients second) i
          ≡ some (record client { joined_chat_room_id = id; chat_room_joined = true }))
unfolding finish_join
join_unknown_twice i client offset id hash w r h f here =
    let first =
      finish_join i client id err_invalid_room (record w { chat = with_empty_room w.chat id }) in
    let let_in : join_error (some empty_room) hash ≡ err_ok = unfold is_empty in refl in
    (
      first,
      finish_join i client id err_ok first,
      join_unknown_room i client offset id hash w r h f,
      here,
      join_known_room i client offset id hash first r h empty_room
            (find-with_empty_room w.chat id f) (inl refl)
          ∙ rw let_in,
      get_elem?-set_self (clients w) i _ (get_elem?-lt (clients w) i here),
    )
