-- ===== src/Server/Wire.antt =====
-- The bytes of the replies that tell a client how a request ended: the opcode, highest byte first, and one
-- byte.
use communo.Prelude.{ℕ, ◌<◌, ◌%◌, ◌≡◌, refl, [], ◌∷◌, ◌++◌, arith, le_bytes, bswap, of_le}
use communo.OpCodes.{opcode_bytes, smsg_join_chat_room_ok, smsg_join_chat_room_err}
use communo.Server.Handlers.{status_packet}

byte_kept : (n : ℕ) → n < 256 → n % 256 ≡ n
byte_kept n h = omega arith

pub status_packet_bytes : (error : ℕ) → error < 256 → status_packet error ≡ 0x10 ∷ 0x05 ∷ error ∷ []
unfolding opcode_bytes le_bytes bswap of_le
status_packet_bytes error h = rw (byte_kept error h) refl

pub joined_bytes :
    (id : ℕ)
    → id < 256
    → opcode_bytes smsg_join_chat_room_ok ++ le_bytes 1 id ≡ 0x10 ∷ 0x0a ∷ id ∷ []
unfolding opcode_bytes le_bytes bswap of_le
joined_bytes id h = rw (byte_kept id h) refl

pub not_joined_bytes :
    (error : ℕ)
    → error < 256
    → opcode_bytes smsg_join_chat_room_err ++ le_bytes 1 error ≡ 0x10 ∷ 0x0b ∷ error ∷ []
unfolding opcode_bytes le_bytes bswap of_le
not_joined_bytes error h = rw (byte_kept error h) refl
