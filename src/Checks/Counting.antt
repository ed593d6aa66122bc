-- ===== src/Checks/Counting.antt =====
-- The counter, a packet that cannot be read, and rooms from the database.
use communo.Prelude.{
  ◌+◌, ◌%◌, ◌^◌, ◌≡◌, refl, arith, [], ◌∷◌, ◌++◌, some, ok, throws, undefined, runtime_error, codes,
  le_bytes, pos, to_word, memcpy_uint, read_bytes, of_le,
}
use communo.OpCodes.{opcode_bytes, cmsg_get_counter, cmsg_addition_request}
use communo.Chat.{empty_room, Row, find, row_room, load_chat_rooms}
use communo.Chat.Loading.{first_row, or_else, find-load_chat_rooms}
use communo.Server.{World, buffer_of}
use communo.Server.Send.{send_ssl_packet_to_client_socket}
use communo.Server.Handlers.{call_handler_join_room}
use communo.Server.Requests.{serve_client, fill_buffer}
use communo.Server.Counting.{
  increments, Counted, counter_packet, counter_counts, addition_unknown_type,
}
use communo.Server.Truncated.{join_truncated}
use communo.Client.Replies.{process_reply, counter}
use communo.Checks.{integers, alice, zeros, world}

counter_counts_example :
    (w' : World) × (increments integers 0 0 alice 3 world ≡ ok w')
    × Counted 3 world w'
    × (serve_client integers 0 0 alice (opcode_bytes cmsg_get_counter ++ []) w'
        ≡ ok (
            send_ssl_packet_to_client_socket alice
              (counter_packet ((world.universe.counter + 3) % 2 ^ 64))
              (fill_buffer (opcode_bytes cmsg_get_counter ++ []) w')))
    × (process_reply 0 0 (counter_packet ((world.universe.counter + 3) % 2 ^ 64))
        ≡ ok (counter ((world.universe.counter + 3) % 2 ^ 64)))
counter_counts_example = counter_counts integers 0 0 0 0 alice 3 world refl (omega arith)

addition_unknown_type_example :
    serve_client integers 0 0 alice
      (opcode_bytes cmsg_addition_request ++ (le_bytes 1 200 ++ zeros 3))
      world
    ≡ throws (runtime_error (codes "Unknown number type"))
addition_unknown_type_example =
    addition_unknown_type integers 0 0 alice 200 (zeros 3) world refl (omega arith) (omega arith)
      (omega arith)

abbrev cellar : Row
cellar = record {
  id = pos 0;
  name = some (codes "Cellar");
  password_hash = some (7 ∷ 8 ∷ 0 ∷ zeros 29);
}

find-load_chat_rooms_example :
    find 0 (load_chat_rooms (cellar ∷ []) world.chat).chat_rooms
    ≡ or_else (find 0 world.chat.chat_rooms) (first_row 0 (cellar ∷ []))
find-load_chat_rooms_example = find-load_chat_rooms 0 (cellar ∷ []) world.chat

-- A room has been made since the cellar was loaded.
abbrev cellar_world : World
cellar_world = record world {
  chat = record {
    chat_rooms =
        (load_chat_rooms (cellar ∷ []) (record { chat_rooms = [] })).chat_rooms
        ++ ((9, empty_room) ∷ []);
  };
}

cellar_asked : memcpy_uint (buffer_of cellar_world) 2 1 ≡ ok 0
unfolding memcpy_uint read_bytes of_le
cellar_asked = refl

cellar_hash : read_bytes (buffer_of cellar_world) (2 + 1) 32 ≡ ok (zeros 32)
unfolding read_bytes
cellar_hash = refl

cellar_first : first_row 0 (cellar ∷ []) ≡ some (row_room cellar)
unfolding to_word
cellar_first = refl

join_truncated_example : call_handler_join_room 0 alice 2 cellar_world ≡ undefined
join_truncated_example =
    join_truncated 0 alice 2 0 (zeros 32) cellar_world cellar_asked cellar_hash cellar (cellar ∷ [])
      (7 ∷ 8 ∷ []) (zeros 29) ((9, empty_room) ∷ []) refl cellar_first refl
      (omega arith, (omega arith, tt)) (omega arith) (omega arith)
