-- ===== src/Chat/Subscript.antt =====
-- What the read access `m_ChatRooms[id]` does to the table.
use communo.Prelude.{
  not, ℕ, ◌≡◌, ◌≢◌, refl, true, false, [], ◌∷◌, ◌++◌, none, some, arith, ◌==◌, if◌then◌else◌,
  Option-cases, inl, inr,
}
use communo.Chat.{
  ChatRoom, Rooms, Chat, empty_room, find, is_found, check_room_id, subscript, is_room_protected,
  is_empty,
}

pub find-append :
    (id key : ℕ) (room : ChatRoom) (rooms : Rooms)
    → find id rooms ≡ none
    → find id (rooms ++ ((key, room) ∷ [])) ≡ (if key == id then some room else none)
unfolding find
find-append id key room [] h = refl
find-append id key room ((k, r) ∷ rooms) h = ground (arith, find-append id key room rooms)

pub find-append_found :
    (id key : ℕ) (room old : ChatRoom) (rooms : Rooms)
    → find id rooms ≡ some old
    → find id (rooms ++ ((key, room) ∷ [])) ≡ some old
unfolding find
find-append_found id key room old [] h = cc
find-append_found id key room old ((k, r) ∷ rooms) h =
    ground (arith, find-append_found id key room old rooms)

-- After the access the key is there, with the room that was returned.
pub find-subscript :
    (rooms : Rooms) (id : ℕ) → find id (subscript rooms id).0 ≡ some (subscript rooms id).1
unfolding subscript
find-subscript rooms id = elim (Option-cases (find id rooms)) [
  | inl e ↦ rw (e, find-append id id empty_room rooms e) (ground arith)
  | inr (room, e) ↦ rw e e
]

-- The rooms under other keys stay as they were.
pub find-subscript_ne :
    (rooms : Rooms) (id other : ℕ)
    → id ≢ other
    → find other (subscript rooms id).0 ≡ find other rooms
unfolding subscript
find-subscript_ne rooms id other h = elim (Option-cases (find id rooms)) [
  | inr (room, e) ↦ rw e
  | inl e ↦ rw e (elim (Option-cases (find other rooms)) [
    | inl f ↦ rw (f, find-append other id empty_room rooms f) (ground arith)
    | inr (room, f) ↦ rw f (find-append_found other id empty_room room rooms f)
  ])
]

pub subscript_known :
    (rooms : Rooms) (id : ℕ) (room : ChatRoom)
    → find id rooms ≡ some room
    → subscript rooms id ≡ (rooms, room)
unfolding subscript
subscript_known rooms id room e = rw e

pub subscript_unknown :
    (rooms : Rooms) (id : ℕ)
    → find id rooms ≡ none
    → subscript rooms id ≡ (rooms ++ ((id, empty_room) ∷ []), empty_room)
unfolding subscript
subscript_unknown rooms id e = rw e

pub is_room_protected_known :
    (chat : Chat) (id : ℕ) (room : ChatRoom)
    → find id chat.chat_rooms ≡ some room
    → is_room_protected chat id ≡ (chat, not (is_empty room.password_hash))
unfolding is_room_protected
is_room_protected_known chat id room f = rw (subscript_known chat.chat_rooms id room f)

-- The table after a question about a room that is not there.
abbrev pub with_empty_room : Chat → ℕ → Chat
with_empty_room chat id = record { chat_rooms = chat.chat_rooms ++ ((id, empty_room) ∷ []) }

pub is_room_protected_unknown :
    (chat : Chat) (id : ℕ)
    → find id chat.chat_rooms ≡ none
    → is_room_protected chat id ≡ (with_empty_room chat id, false)
unfolding is_room_protected
is_room_protected_unknown chat id f =
    rw (subscript_unknown chat.chat_rooms id f) (unfold is_empty in refl)

pub find-with_empty_room :
    (chat : Chat) (id : ℕ)
    → find id chat.chat_rooms ≡ none
    → find id (with_empty_room chat id).chat_rooms ≡ some empty_room
find-with_empty_room chat id f = rw (find-append id id empty_room chat.chat_rooms f) (ground arith)

pub check_room_id_known :
    (chat : Chat) (id : ℕ) (room : ChatRoom)
    → find id chat.chat_rooms ≡ some room
    → check_room_id chat id ≡ true
unfolding check_room_id is_found
check_room_id_known chat id room f = rw f

pub check_room_id_unknown :
    (chat : Chat) (id : ℕ) → find id chat.chat_rooms ≡ none → check_room_id chat id ≡ false
unfolding check_room_id is_found
check_room_id_unknown chat id f = rw f
