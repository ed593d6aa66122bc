-- ===== src/Server/Access.antt =====
-- Who gets into a room, whatever is sent.
use communo.Prelude.{
  ℕ, ◌≡◌, refl, ◌∙◌, ◌⊎◌, inl, inr, true, false, [], ◌∷◌, some, Bytes, bswap, ok, read_bytes,
  memcpy_uint, leb, ◌==◌, length, get_elem?, set, All-append, Bool-cases, Option-cases, Ends,
  returned, faulted, if-Ends, bind-Ends, memcpy_uint-Ends,
}
use communo.SharedDefinitions.{err_ok, err_invalid_room}
use communo.Chat.{ChatRoom, empty_room, find}
use communo.Chat.Subscript.{with_empty_room}
use communo.Server.{ClientSocket, World, DoubleArith, clients, buffer_of}
use communo.Server.Send.{send_ssl_packet_to_client_socket}
use communo.Server.Handlers.{call_handler_join_room, finish_join}
use communo.Server.Dispatch.{call_handler}
use communo.Server.Requests.{fill_buffer, serve_client}
use communo.Server.Join.{HashesWhole, find-IsHash, join_error, join_known_room, join_unknown_room}
use communo.Server.Others.{handle_opcode-other}
use communo.Server.Effects.{
  finish_join-clients, finish_join-chat, join_error-ok, read_cases, memcpy_cases,
}

-- The client at `i` asked for a room that stands in the table, brought what the room wants, and is
-- now in it; all other clients are as before.
pub record LetIn (i : ℕ) (client : ClientSocket) (w w' : World) : Type 0 where
  pub id : ℕ
  pub hash : Bytes
  pub room : ChatRoom
  pub asked : memcpy_uint (buffer_of w) 2 1 ≡ ok id
  pub brought : read_bytes (buffer_of w) 3 32 ≡ ok hash
  pub stands : find id w.chat.chat_rooms ≡ some room
  pub allowed : (room.password_hash ≡ []) ⊎ (room.password_hash ≡ hash)
  pub joined :
      clients w'
      ≡ set (clients w) i (record client { joined_chat_room_id = id; chat_room_joined = true })

-- Nobody has moved, or the client at `i` was let in; and the table still holds whole hashes only.
pub record Fair (i : ℕ) (client : ClientSocket) (w w' : World) : Type 0 where
  pub members : (clients w' ≡ clients w) ⊎ LetIn i client w w'
  pub whole : HashesWhole w'.chat.chat_rooms

module _ (i : ℕ) (client : ClientSocket) (w : World) (here : get_elem? (clients w) i ≡ some client)
    (whole : HashesWhole w.chat.chat_rooms) where
  -- What only writes to clients is fair.
  stays : (w' : World) → clients w' ≡ clients w → w'.chat ≡ w.chat → Fair i client w w'
  stays w' c t = record { members = inl c; whole = rw t whole }

  refused_room :
      (id error : ℕ) (u : World)
      → (error == err_ok) ≡ false
      → clients u ≡ clients w
      → HashesWhole u.chat.chat_rooms
      → Fair i client w (finish_join i client id error u)
  refused_room id error u denied c h = record {
    members = inl (finish_join-clients i client id error u ∙ rw denied c);
    whole = rw finish_join-chat h;
  }

  known_room :
      (id : ℕ) (hash : Bytes) (room : ChatRoom)
      → memcpy_uint (buffer_of w) 2 1 ≡ ok id
      → read_bytes (buffer_of w) 3 32 ≡ ok hash
      → find id w.chat.chat_rooms ≡ some room
      → Fair i client w (finish_join i client id (join_error (some room) hash) w)
  known_room id hash room a b f = elim (join_error-ok room hash) [
    | inr denied ↦ refused_room id (join_error (some room) hash) w denied refl whole
    | inl let_in ↦ elim (Bool-cases (join_error (some room) hash == err_ok)) [
      | inr denied ↦ refused_room id (join_error (some room) hash) w denied refl whole
      | inl e ↦ record {
        members = inr (record {
          id = id;
          hash = hash;
          room = room;
          asked = a;
          brought = b;
          stands = f;
          allowed = let_in;
          joined = finish_join-clients i client id (join_error (some room) hash) w ∙ rw e;
        });
        whole = rw finish_join-chat whole;
      }
    ]
  ]

  join-Fair : Ends (Fair i client w) (call_handler_join_room i client 2 w)
  unfolding call_handler_join_room
  join-Fair = elim (memcpy_cases (buffer_of w) 2 1) [
    | inr u ↦ rw (call_handler_join_room, u) faulted
    | inl (id, a) ↦ elim (read_cases (buffer_of w) 3 32) [
      | inr u ↦ rw (call_handler_join_room, a, u) faulted
      | inl (hash, b) ↦ elim (Option-cases (find id w.chat.chat_rooms)) [
        | inr (room, f) ↦
            rw
              (join_known_room i client 2 id hash w a b room f
                (find-IsHash id w.chat.chat_rooms room whole f))
              (returned (known_room id hash room a b f))
        | inl f ↦ rw (join_unknown_room i client 2 id hash w a b f) (
            returned (
              refused_room id err_invalid_room (record w { chat = with_empty_room w.chat id }) refl
                refl (All-append _ w.chat.chat_rooms ((id, empty_room) ∷ []) whole (inl refl, tt))))
      ]
    ]
  ]

-- Whatever bytes a client of the list sends, serving them ends, where the stored digests are absent
-- or whole; and where it returns, no client's room has changed but perhaps the sender's, and the
-- sender's only for a room of the table that is open or whose whole stored digest the packet
-- brought; and the stored digests are still absent or whole.
pub serve_client-Fair :
    (lib : DoubleArith) (now i : ℕ) (client : ClientSocket) (bytes : Bytes) (w : World)
    → get_elem? (clients w) i ≡ some client
    → HashesWhole w.chat.chat_rooms
    → Ends (Fair i client (fill_buffer bytes w)) (serve_client lib now i client bytes w)
unfolding serve_client call_handler fill_buffer send_ssl_packet_to_client_socket
serve_client-Fair lib now i client bytes w here whole =
    let filled = fill_buffer bytes w in
    rw here (
      if-Ends (leb 2 (length bytes))
        (bind-Ends (memcpy_uint-Ends (buffer_of filled) 0 2) (λ opcode u.
          handle_opcode-other i client filled (Fair i client filled)
            (stays i client filled here whole) lib now (length bytes) (bswap 2 opcode)
            (λ a b. join-Fair i client filled here whole)))
        (returned (stays i client filled here whole _ refl refl)))
