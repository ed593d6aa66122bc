-- ===== src/Chat.antt =====
-- src/server/Chat.h, src/server/Chat.cpp and src/server/Database.cpp: the chat rooms. `m_ChatRooms` is a list of
-- keys and rooms in the order in which the hash table would be walked; where a new key lands in that
-- order the standard library leaves open, and here it is the end.
pub mod Subscript
pub mod Password
pub mod Loading
use communo.Prelude.{
  ℕ, ℤ, to_word, Bool, true, false, not, List, [], ◌∷◌, ◌++◌, Option, none, some, Bytes, codes,
  bytes_eq, to_string, Result, ok, throws, out_of_range, ◌>>=◌, read_bytes, ◌==◌, if◌then◌else◌,
}

pub record ChatRoom : Type 0 where
  pub name : Bytes
  pub password_hash : Bytes

abbrev pub empty_room : ChatRoom
empty_room = record { name = []; password_hash = [] }

abbrev pub Rooms : Type 0
Rooms = List (ℕ × ChatRoom)

pub record Chat : Type 0 where
  pub chat_rooms : Rooms

unfoldable pub find : ℕ → Rooms → Option ChatRoom
find id [] = none
find id ((key, room) ∷ rooms) = if key == id then some room else find id rooms

unfoldable pub is_found : Option ChatRoom → Bool
is_found none = false
is_found (some room) = true

unfoldable pub check_room_id : Chat → ℕ → Bool
check_room_id chat room_id = is_found (find room_id chat.chat_rooms)

or_missing : Option ChatRoom → Result ChatRoom
or_missing none = throws (out_of_range (codes "unordered_map::at"))
or_missing (some room) = ok room

-- `m_ChatRooms.at(roomID).name`
unfoldable pub get_room_name : Chat → ℕ → Result Bytes
unfolding or_missing
get_room_name chat room_id = do room ← or_missing (find room_id chat.chat_rooms); ok room.name

subscript_found : Rooms → ℕ → Option ChatRoom → Rooms × ChatRoom
subscript_found rooms id none = (rooms ++ ((id, empty_room) ∷ []), empty_room)
subscript_found rooms id (some room) = (rooms, room)

-- `m_ChatRooms[roomID]`: a key that is not there is inserted, with an empty room.
unfoldable pub subscript : Rooms → ℕ → Rooms × ChatRoom
unfolding subscript_found
subscript rooms id = subscript_found rooms id (find id rooms)

unfoldable pub is_empty : Bytes → Bool
is_empty [] = true
is_empty (b ∷ s) = false

unfoldable pub is_room_protected : Chat → ℕ → Chat × Bool
is_room_protected chat room_id =
    let (rooms, room) = subscript chat.chat_rooms room_id in
    (record { chat_rooms = rooms }, not (is_empty room.password_hash))

abbrev pub sha256_digest_length : ℕ
sha256_digest_length = 32

-- `memcpy` takes 32 bytes of a string's storage, which holds a NUL behind the contents.
unfoldable pub check_password_hash : Chat → ℕ → Bytes → Result (Chat × Bool)
check_password_hash chat room_id hash = do
  let (rooms, room) = subscript chat.chat_rooms room_id
  room_hash ← read_bytes (room.password_hash ++ (0 ∷ [])) 0 sha256_digest_length
  ok (record { chat_rooms = rooms }, bytes_eq room_hash hash)

-- One line of `getChatRoomsStr`, without the line break.
unfoldable pub room_line : ℕ × ChatRoom → Bytes
unfolding is_empty
room_line (id, room) = b'[' ∷ (to_string id ++ (codes "] " ++ (room.name ++ suffix)))
  where
    suffix : Bytes
    suffix = if is_empty room.password_hash then codes " (open)" else codes " (protected)"

chat_rooms_loop : Bytes → Rooms → Bytes
unfolding room_line
chat_rooms_loop out [] = out
chat_rooms_loop out (r ∷ []) = out ++ room_line r
chat_rooms_loop out (r ∷ q ∷ rooms) =
    chat_rooms_loop ((out ++ room_line r) ++ (b'\n' ∷ [])) (q ∷ rooms)

unfoldable pub get_chat_rooms_str : Chat → Bytes
unfolding chat_rooms_loop
get_chat_rooms_str chat = chat_rooms_loop [] chat.chat_rooms

-- A row of `SELECT id, name, password_hash`, as sqlite hands the columns over: a text column is read
-- through a `const char *`, null for NULL.
pub record Row : Type 0 where
  pub id : ℤ
  pub name : Option Bytes
  pub password_hash : Option Bytes

-- What `std::string` takes of a C string: the bytes before the first NUL.
unfoldable pub c_string : Bytes → Bytes
c_string [] = []
c_string (b ∷ s) = if b == 0 then [] else b ∷ c_string s

text_or_empty : Option Bytes → Bytes
text_or_empty none = []
text_or_empty (some s) = c_string s

-- `emplace`: a key that is there keeps its room.
unfoldable pub emplace : ℕ → ChatRoom → Rooms → Rooms
emplace id room rooms = elim (find id rooms) [
  | none ↦ rooms ++ ((id, room) ∷ [])
  | some old ↦ rooms
]

unfoldable pub row_room : Row → ChatRoom
unfolding text_or_empty
row_room row = record {
  name = text_or_empty row.name;
  password_hash = text_or_empty row.password_hash;
}

-- `Database::loadRooms` on the rows of a successful query.
unfoldable pub load_rooms : List Row → Rooms → Rooms
unfolding row_room emplace
load_rooms [] rooms = rooms
load_rooms (row ∷ rows) rooms = load_rooms rows (emplace (to_word 128 row.id) (row_room row) rooms)

unfoldable pub load_chat_rooms : List Row → Chat → Chat
unfolding load_rooms
load_chat_rooms rows chat = record { chat_rooms = load_rooms rows chat.chat_rooms }
