-- ===== src/OpCodes.antt =====
-- src/common/OpCodes.h: the opcodes of the protocol, and how one stands at the head of a packet.
use communo.Prelude.{ℕ, Bytes, le_bytes, bswap}

abbrev pub cmsg_echo_request : ℕ
cmsg_echo_request = 0x0001

abbrev pub cmsg_addition_request : ℕ
cmsg_addition_request = 0x0002

abbrev pub cmsg_broadcast_message : ℕ
cmsg_broadcast_message = 0x0003

abbrev pub cmsg_get_client_list : ℕ
cmsg_get_client_list = 0x0004

abbrev pub cmsg_send_msg_to_client : ℕ
cmsg_send_msg_to_client = 0x0005

abbrev pub cmsg_uptime : ℕ
cmsg_uptime = 0x0006

abbrev pub cmsg_ping : ℕ
cmsg_ping = 0x0007

abbrev pub cmsg_increment_counter : ℕ
cmsg_increment_counter = 0x0008

abbrev pub cmsg_get_counter : ℕ
cmsg_get_counter = 0x0009

abbrev pub cmsg_get_chat_rooms : ℕ
cmsg_get_chat_rooms = 0x000a

abbrev pub cmsg_get_room_info : ℕ
cmsg_get_room_info = 0x000b

abbrev pub cmsg_join_room : ℕ
cmsg_join_room = 0x000c

abbrev pub cmsg_say : ℕ
cmsg_say = 0x000d

abbrev pub smsg_motd : ℕ
smsg_motd = 0x0fff

abbrev pub smsg_message : ℕ
smsg_message = 0x1000

abbrev pub smsg_echo_request : ℕ
smsg_echo_request = 0x1001

abbrev pub smsg_addition_request : ℕ
smsg_addition_request = 0x1002

abbrev pub smsg_broadcast : ℕ
smsg_broadcast = 0x1003

abbrev pub smsg_client_list : ℕ
smsg_client_list = 0x1004

abbrev pub smsg_private_msg_err : ℕ
smsg_private_msg_err = 0x1005

abbrev pub smsg_private_message : ℕ
smsg_private_message = 0x1006

abbrev pub smsg_uptime : ℕ
smsg_uptime = 0x1007

abbrev pub smsg_pong : ℕ
smsg_pong = 0x1008

abbrev pub smsg_counter : ℕ
smsg_counter = 0x1009

abbrev pub smsg_join_chat_room_ok : ℕ
smsg_join_chat_room_ok = 0x100a

abbrev pub smsg_join_chat_room_err : ℕ
smsg_join_chat_room_err = 0x100b

abbrev pub smsg_say_ok : ℕ
smsg_say_ok = 0x100c

abbrev pub smsg_say_err : ℕ
smsg_say_err = 0x100d

abbrev pub smsg_say : ℕ
smsg_say = 0x100e

-- `htons` on a little-endian host, and the two bytes that `packet.append` then takes.
unfoldable pub opcode_bytes : ℕ → Bytes
opcode_bytes opcode = le_bytes 2 (bswap 2 opcode)
