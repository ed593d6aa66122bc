-- ===== src/Server/Effects.antt =====
-- What the handlers do to the clients and to the table of rooms.
use mathlib.Core.Path.{subst}
use communo.Prelude.{
  ℕ, ◌+◌, ◌≡◌, refl, sym, ap, ◌⊎◌, inl, inr, true, false, List, [], ◌∷◌, some, Bytes, bytes_eq,
  bytes_eq→eq, ok, undefined, read_bytes, memcpy_uint, leb, ◌==◌, if◌then◌else◌, length, set, take,
  drop, of_le, Bool-cases,
}
use communo.SharedDefinitions.{err_ok}
use communo.Chat.{ChatRoom, is_empty}
use communo.Server.{ClientSocket, World, clients}
use communo.Server.Send.{send_ssl_packet_to_client_socket}
use communo.Server.Handlers.{broadcast_loop, say_loop, finish_join}
use communo.Server.Rooms.{say_guards}
use communo.Server.Join.{join_error}

pub finish_join-clients :
    (i : ℕ) (client : ClientSocket) (id error : ℕ) (w : World)
    → clients (finish_join i client id error w) ≡ (
        if error == err_ok
        then set (clients w) i (record client { joined_chat_room_id = id; chat_room_joined = true })
        else clients w)
unfolding finish_join send_ssl_packet_to_client_socket
finish_join-clients i client id error w = elim (Bool-cases (error == err_ok)) [
  | inl e ↦ rw e
  | inr e ↦ rw e
]

pub finish_join-chat :
    (i : ℕ) (client : ClientSocket) (id error : ℕ) (w : World)
    → (finish_join i client id error w).chat ≡ w.chat
unfolding finish_join send_ssl_packet_to_client_socket
finish_join-chat i client id error w = elim (Bool-cases (error == err_ok)) [
  | inl e ↦ rw e
  | inr e ↦ rw e
]

is_empty-eq : (s : Bytes) → is_empty s ≡ true → s ≡ []
unfolding is_empty
is_empty-eq [] e = refl
is_empty-eq (c ∷ s) e = cc

pub join_error-ok :
    (room : ChatRoom) (hash : Bytes)
    → ((room.password_hash ≡ []) ⊎ (room.password_hash ≡ hash))
      ⊎ ((join_error (some room) hash == err_ok) ≡ false)
join_error-ok room hash = elim (Bool-cases (is_empty room.password_hash)) [
  | inl open_ ↦ inl (inl (is_empty-eq room.password_hash open_))
  | inr shut ↦ elim (Bool-cases (bytes_eq room.password_hash hash)) [
    | inl same ↦ inl (inr (bytes_eq→eq room.password_hash hash same))
    | inr other ↦ inr (rw (shut, other))
  ]
]

pub read_cases :
    (buffer : Bytes) (offset n : ℕ)
    → ((bytes : Bytes) × (read_bytes buffer offset n ≡ ok bytes))
      ⊎ (read_bytes buffer offset n ≡ undefined)
unfolding read_bytes
read_cases buffer offset n = elim (Bool-cases (leb (offset + n) (length buffer))) [
  | inl e ↦ inl (take n (drop offset buffer), rw e)
  | inr e ↦ inr (rw e)
]

pub memcpy_cases :
    (buffer : Bytes) (offset n : ℕ)
    → ((value : ℕ) × (memcpy_uint buffer offset n ≡ ok value))
      ⊎ (memcpy_uint buffer offset n ≡ undefined)
unfolding memcpy_uint
memcpy_cases buffer offset n = elim (read_cases buffer offset n) [
  | inl (bytes, e) ↦ inl (of_le bytes, rw e)
  | inr e ↦ inr (rw e)
]

pub broadcast_loop-same :
    (all : List ClientSocket) (packet : Bytes) (w : World)
    → (clients (broadcast_loop all packet w) ≡ clients w)
      × ((broadcast_loop all packet w).chat ≡ w.chat)
unfolding broadcast_loop send_ssl_packet_to_client_socket
broadcast_loop-same [] packet w = (refl, refl)
broadcast_loop-same (client ∷ rest) packet w = elim (Bool-cases client.ssl_enabled) [
  | inl on ↦
      rw on (broadcast_loop-same rest packet (send_ssl_packet_to_client_socket client packet w))
  | inr off ↦ rw off (broadcast_loop-same rest packet w)
]

pub say_loop-same :
    (all : List ClientSocket) (room_id : ℕ) (packet : Bytes) (w : World)
    → (clients (say_loop all room_id packet w) ≡ clients w)
      × ((say_loop all room_id packet w).chat ≡ w.chat)
unfolding say_loop send_ssl_packet_to_client_socket
say_loop-same [] room_id packet w = (refl, refl)
say_loop-same (client ∷ rest) room_id packet w =
    let sent = send_ssl_packet_to_client_socket client packet w in
    let Same : World → Type 0 = λ u. (clients u ≡ clients w) × (u.chat ≡ w.chat) in
    elim (say_guards room_id client w sent) [
      | inl (member, chosen) ↦
          subst Same (sym (ap (say_loop rest room_id packet) chosen))
            (say_loop-same rest room_id packet sent)
      | inr (stranger, chosen) ↦
          subst Same (sym (ap (say_loop rest room_id packet) chosen))
            (say_loop-same rest room_id packet w)
    ]
