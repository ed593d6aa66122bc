-- ===== src/Server/Verdicts.antt =====
-- How the server answers a request to join, `CallHandlerJoinRoom`, from the packet on.
use communo.Prelude.{
  ℕ, ◌<◌, ◌≡◌, ◌≢◌, refl, ap, ◌⊎◌, inl, inr, true, false, [], ◌∷◌, ◌++◌, none, some, arith, Bytes,
  bytes_eq, bytes_eq_refl, bytes_eq→eq, ok, length, get_elem?, set, Option-cases, Bool-cases,
}
use communo.SharedDefinitions.{err_ok, err_invalid_room, err_invalid_room_password}
use communo.Chat.{ChatRoom, empty_room, find, is_empty}
use communo.Chat.Subscript.{subscript_known, subscript_unknown}
use communo.Client.{join_packet}
use communo.Server.{ClientSocket, World, DoubleArith, ssl_write, clients}
use communo.Server.Send.{send_ssl_packet_to_client_socket}
use communo.Server.Requests.{fill_buffer, serve_client}
use communo.Server.Handlers.{finish_join}
use communo.Server.Wire.{joined_bytes, not_joined_bytes}
use communo.Server.Join.{HashesWhole, join_error, asked, join_request}

pub data Verdict : Type 0 where
  unknown_room wrong_password let_in : Verdict

-- The packet that tells a verdict: its opcode, highest byte first, and the error or the room.
abbrev pub reply_of : Verdict → ℕ → Bytes
reply_of unknown_room id = 0x10 ∷ 0x0b ∷ 1 ∷ []
reply_of wrong_password id = 0x10 ∷ 0x0b ∷ 2 ∷ []
reply_of let_in id = 0x10 ∷ 0x0a ∷ id ∷ []

-- The room is not there: nobody is moved, and behind the rooms that there are an open one is made. Or
-- it has a password, and not that of the digest: nobody is moved, and the rooms stay. Or it has none,
-- or that one: the client, and no other, is put into the room, and the rooms stay.
abbrev pub Judged : Verdict → ℕ → ClientSocket → ℕ → Bytes → World → World → Type 0
Judged unknown_room i client id hash w w' =
    (find id w.chat.chat_rooms ≡ none)
    × (clients w' ≡ clients w)
    × ((room : ChatRoom) × (room.password_hash ≡ [])
        × (w'.chat.chat_rooms ≡ w.chat.chat_rooms ++ ((id, room) ∷ [])))
Judged wrong_password i client id hash w w' =
    (room : ChatRoom) × (find id w.chat.chat_rooms ≡ some room)
    × (room.password_hash ≢ [])
    × (room.password_hash ≢ hash)
    × (clients w' ≡ clients w)
    × (w'.chat.chat_rooms ≡ w.chat.chat_rooms)
Judged let_in i client id hash w w' =
    (room : ChatRoom) × (find id w.chat.chat_rooms ≡ some room)
    × ((room.password_hash ≡ []) ⊎ (room.password_hash ≡ hash))
    × (clients w'
        ≡ set (clients w) i (record client { joined_chat_room_id = id; chat_room_joined = true }))
    × (w'.chat.chat_rooms ≡ w.chat.chat_rooms)

-- What serving a join leaves behind.
pub record JoinAnswer (verdict : Verdict) (i : ℕ) (client : ClientSocket) (id : ℕ) (hash : Bytes)
    (w w' : World) : Type 0 where
  pub judged : Judged verdict i client id hash w w'
  pub told : w'.events ≡ w.events ++ (ssl_write client.ssl (reply_of verdict id) ∷ [])

is_empty-nil : (s : Bytes) → is_empty s ≡ true → s ≡ []
unfolding is_empty
is_empty-nil [] h = refl
is_empty-nil (b ∷ s) h = cc

nil-is_empty : (s : Bytes) → is_empty s ≡ false → s ≢ []
unfolding is_empty
nil-is_empty [] h e = cc
nil-is_empty (b ∷ s) h e = cc

differs : (s t : Bytes) → bytes_eq s t ≡ false → s ≢ t
differs s t h e = let same = bytes_eq_refl t in cc

module _ (i : ℕ) (client : ClientSocket) (id : ℕ) (hash : Bytes) (w : World) (byte : id < 256) where
  left : ℕ → World
  left error = finish_join i client id error (asked id hash w)

  left-unknown :
      find id w.chat.chat_rooms ≡ none
      → JoinAnswer unknown_room i client id hash w (left err_invalid_room)
  unfolding left finish_join send_ssl_packet_to_client_socket fill_buffer
  left-unknown f = record {
    judged = (f, refl, (empty_room, refl, rw (subscript_unknown w.chat.chat_rooms id f) refl));
    told =
        ap (λ bytes. w.events ++ (ssl_write client.ssl bytes ∷ []))
          (not_joined_bytes 1 (omega arith));
  }

  module _ (room : ChatRoom) (f : find id w.chat.chat_rooms ≡ some room) where
    left-wrong :
        is_empty room.password_hash ≡ false
        → bytes_eq room.password_hash hash ≡ false
        → JoinAnswer wrong_password i client id hash w (left err_invalid_room_password)
    unfolding left finish_join send_ssl_packet_to_client_socket fill_buffer
    left-wrong full other = record {
      judged = (
        room,
        f,
        nil-is_empty room.password_hash full,
        differs room.password_hash hash other,
        refl,
        rw (subscript_known w.chat.chat_rooms id room f) refl,
      );
      told =
          ap (λ bytes. w.events ++ (ssl_write client.ssl bytes ∷ []))
            (not_joined_bytes 2 (omega arith));
    }

    left-let_in :
        (room.password_hash ≡ []) ⊎ (room.password_hash ≡ hash)
        → JoinAnswer let_in i client id hash w (left err_ok)
    unfolding left finish_join send_ssl_packet_to_client_socket fill_buffer
    left-let_in why = record {
      judged = (room, f, why, refl, rw (subscript_known w.chat.chat_rooms id room f) refl);
      told = ap (λ bytes. w.events ++ (ssl_write client.ssl bytes ∷ [])) (joined_bytes id byte);
    }

    -- The room decides.
    known :
        (verdict : Verdict) × JoinAnswer verdict i client id hash w
          (left (join_error (some room) hash))
    known = elim (Bool-cases (is_empty room.password_hash)) [
      | inl empty ↦ (let_in, rw empty (left-let_in (inl (is_empty-nil room.password_hash empty))))
      | inr full ↦ elim (Bool-cases (bytes_eq room.password_hash hash)) [
        | inl same ↦
            (let_in, rw (full, same) (left-let_in (inr (bytes_eq→eq room.password_hash hash same))))
        | inr other ↦ (wrong_password, rw (full, other) (left-wrong full other))
      ]
    ]

-- A client's join request (a one-byte room and a 32-byte digest), from the packet on, where the stored
-- digests are absent or whole, ends in one of three ways, and the client is told which by one packet
-- and nobody else is written to. Either the room is not there: nobody is moved, and behind the rooms
-- that there are an open one is made. Or the room has a password and the digest is not its own: nobody
-- is moved. Or it has none, or the digest is its own: the client, and no other, is put into the room.
pub join_answered :
    (lib : DoubleArith) (now i : ℕ) (client : ClientSocket) (id : ℕ) (hash : Bytes) (w : World)
    → get_elem? (clients w) i ≡ some client
    → id < 256
    → length hash ≡ 32
    → HashesWhole w.chat.chat_rooms
    → (verdict : Verdict) × (w' : World) × (serve_client lib now i client (join_packet id hash) w
        ≡ ok w')
      × JoinAnswer verdict i client id hash w w'
unfolding left
join_answered lib now i client id hash w here byte size whole =
    let served = join_request lib now i client id hash w here byte size whole in
    elim (Option-cases (find id w.chat.chat_rooms)) [
      | inl f ↦ (
        unknown_room,
        left i client id hash w byte err_invalid_room,
        rw f at served,
        left-unknown i client id hash w byte f,
      )
      | inr (room, f) ↦
          let (verdict, answered) = known i client id hash w byte room f in
          (
            verdict,
            left i client id hash w byte (join_error (some room) hash),
            rw f at served,
            answered,
          )
    ]
