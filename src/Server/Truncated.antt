-- ===== src/Server/Truncated.antt =====
-- Rooms whose stored digest has a zero byte.
use communo.Prelude.{
  Bool-cases, inl, inr, ◌==◌, ℕ, ◌+◌, ◌<◌, ◌≡◌, ◌≢◌, ◌∙◌, false, [], ◌∷◌, ◌++◌, some, arith, Bytes,
  List, ok, undefined, read_bytes, read_bytes-undefined, memcpy_uint, length, length-append, All,
}
use communo.Chat.{
  ChatRoom, Rooms, Row, Chat, find, row_room, load_chat_rooms, sha256_digest_length,
  check_password_hash, is_empty,
}
use communo.Chat.Subscript.{subscript_known, is_room_protected_known, check_room_id_known}
use communo.Chat.Password.{is_empty-pos}
use communo.Chat.Loading.{first_row, find-load_chat_rooms, c_string_cut}
use communo.Server.{ClientSocket, World, buffer_of}
use communo.Server.Handlers.{call_handler_join_room}

-- Rooms that are made later do not hide one that is there.
find-behind :
    (id : ℕ) (rooms made : Rooms) (room : ChatRoom)
    → find id rooms ≡ some room
    → find id (rooms ++ made) ≡ some room
unfolding find
find-behind id [] made room f = cc
find-behind id ((key, r) ∷ rooms) made room f = elim (Bool-cases (key == id)) [
  | inl hit ↦ rw hit (rw hit at f)
  | inr miss ↦ rw miss (find-behind id rooms made room (rw miss at f))
]

short_hash_read :
    (chat : Chat) (id : ℕ) (room : ChatRoom) (hash : Bytes)
    → find id chat.chat_rooms ≡ some room
    → length room.password_hash < 31
    → check_password_hash chat id hash ≡ undefined
unfolding check_password_hash
short_hash_read chat id room hash f short =
    let past : read_bytes (room.password_hash ++ (0 ∷ [])) 0 32 ≡ undefined =
      read_bytes-undefined _ 0 32 (omega (arith, length-append room.password_hash (0 ∷ []))) in
    rw (subscript_known chat.chat_rooms id room f, past)

module _ (i : ℕ) (client : ClientSocket) (offset id : ℕ) (hash : Bytes) (w : World)
    (id_read : memcpy_uint (buffer_of w) offset 1 ≡ ok id)
    (hash_read : read_bytes (buffer_of w) (offset + 1) sha256_digest_length ≡ ok hash) where
  join_short_hash :
      (room : ChatRoom)
      → find id w.chat.chat_rooms ≡ some room
      → 0 < length room.password_hash
      → length room.password_hash < 31
      → call_handler_join_room i client offset w ≡ undefined
  unfolding call_handler_join_room
  join_short_hash room f some_hash short =
      let full : is_empty room.password_hash ≡ false = is_empty-pos room.password_hash some_hash in
      rw (
        id_read,
        hash_read,
        check_room_id_known w.chat id room f,
        is_room_protected_known w.chat id room f,
        full,
        short_hash_read w.chat id room hash f short,
      )

  -- Where the digest of a room's row has its first zero byte behind one to thirty others, loading cuts
  -- it there, and a join of that room, whatever rooms have been made behind those that were loaded, and
  -- with the right password too, compares memory behind the stored text: undefined behaviour.
  pub join_truncated :
      (row : Row) (rows : List Row) (front back : Bytes) (made : Rooms)
      → w.chat.chat_rooms ≡ (load_chat_rooms rows (record { chat_rooms = [] })).chat_rooms ++ made
      → first_row id rows ≡ some (row_room row)
      → row.password_hash ≡ some (front ++ (0 ∷ back))
      → All (λ b. b ≢ 0) front
      → 0 < length front
      → length front < 31
      → call_handler_join_room i client offset w ≡ undefined
  unfolding row_room find
  join_truncated row rows front back made loaded first stored text long short =
      let known : find id w.chat.chat_rooms ≡ some (row_room row) = rw loaded (
        find-behind id _ made (row_room row)
          (find-load_chat_rooms id rows (record { chat_rooms = [] }) ∙ first)) in
      let cut : (row_room row).password_hash ≡ front = rw stored (c_string_cut front back text) in
      join_short_hash (row_room row) known (rw cut long) (rw cut short)
