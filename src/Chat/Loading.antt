-- ===== src/Chat/Loading.antt =====
-- `loadRooms`: which rooms the table holds after loading, and what becomes of a stored hash.
use communo.Prelude.{
  ℕ, ◌≡◌, ◌≢◌, refl, ◌∙◌, false, List, [], ◌∷◌, ◌++◌, Option, none, some, arith, ◌==◌,
  if◌then◌else◌, Bytes, to_word, Bool-cases, Option-cases, inl, inr, All,
}
use communo.Chat.{
  ChatRoom, Rooms, Chat, Row, find, c_string, emplace, row_room, load_rooms, load_chat_rooms,
}
use communo.Chat.Subscript.{find-append, find-append_found}

-- The room of the first row with that identifier, of which the low eight bits count.
abbrev pub first_row : ℕ → List Row → Option ChatRoom
first_row id [] = none
first_row id (row ∷ rows) =
    if to_word 128 row.id == id then some (row_room row) else first_row id rows

abbrev pub or_else {ℓ} : {A : Type ℓ} → Option A → Option A → Option A
or_else none other = other
or_else (some a) other = some a

find-emplace :
    (id key : ℕ) (room : ChatRoom) (rooms : Rooms)
    → find id (emplace key room rooms)
      ≡ or_else (find id rooms) (if key == id then some room else none)
unfolding emplace
find-emplace id key room rooms = elim (Option-cases (find key rooms)) [
  | inl absent ↦
      rw (emplace, absent)
        (elim (Option-cases (find id rooms)) [
          | inl f ↦ rw f (find-append id key room rooms f)
          | inr (old, f) ↦ rw f (find-append_found id key room old rooms f)
        ])
  | inr (there, e) ↦
      rw (emplace, e)
        (elim (Option-cases (find id rooms)) [
          | inl f ↦ let other : (key == id) ≡ false = ground arith in rw (f, other)
          | inr (old, f) ↦ rw f
        ])
]

or_else-choice :
    (found : Option ChatRoom) (key id : ℕ) (room : ChatRoom) (rest : Option ChatRoom)
    → or_else (or_else found (if key == id then some room else none)) rest
      ≡ or_else found (if key == id then some room else rest)
or_else-choice (some old) key id room rest = refl
or_else-choice none key id room rest = elim (Bool-cases (key == id)) [
  | inl hit ↦ rw hit
  | inr miss ↦ rw miss
]

find-load_rooms :
    (id : ℕ) (rows : List Row) (rooms : Rooms)
    → find id (load_rooms rows rooms) ≡ or_else (find id rooms) (first_row id rows)
unfolding load_rooms
find-load_rooms id [] rooms = elim (Option-cases (find id rooms)) [
  | inl f ↦ rw f
  | inr (room, f) ↦ rw f
]
find-load_rooms id (row ∷ rows) rooms =
    find-load_rooms id rows (emplace (to_word 128 row.id) (row_room row) rooms)
    ∙ rw find-emplace
        (or_else-choice (find id rooms) (to_word 128 row.id) id (row_room row) (first_row id rows))

-- After loading, a room that the table had stays as it was, and any other is the one of the first
-- row with its number, of which the low eight bits count; there are no further rooms.
pub find-load_chat_rooms :
    (id : ℕ) (rows : List Row) (chat : Chat)
    → find id (load_chat_rooms rows chat).chat_rooms
      ≡ or_else (find id chat.chat_rooms) (first_row id rows)
unfolding load_chat_rooms
find-load_chat_rooms id rows chat = find-load_rooms id rows chat.chat_rooms

-- A byte string is cut at its first NUL.
pub c_string_cut :
    (front back : Bytes) → All (λ b. b ≢ 0) front → c_string (front ++ (0 ∷ back)) ≡ front
unfolding c_string
c_string_cut [] back h = refl
c_string_cut (b ∷ front) back h =
    let test : (b == 0) ≡ false = ground arith in rw (test, c_string_cut front back h.1)
