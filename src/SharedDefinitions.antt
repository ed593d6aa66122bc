-- ===== src/SharedDefinitions.antt =====
-- src/common/SharedDefinitions.h: `eChatErr`.
use communo.Prelude.{ℕ}

abbrev pub err_ok : ℕ
err_ok = 0

abbrev pub err_invalid_room : ℕ
err_invalid_room = 1

abbrev pub err_invalid_room_password : ℕ
err_invalid_room_password = 2

abbrev pub err_invalid_packet : ℕ
err_invalid_packet = 3

abbrev pub err_no_room_joined : ℕ
err_no_room_joined = 4

abbrev pub err_no_client_found : ℕ
err_no_client_found = 5

abbrev pub err_msg_to_self : ℕ
err_msg_to_self = 6

abbrev pub err_too_much_clients : ℕ
err_too_much_clients = 7

abbrev pub err_empty_message : ℕ
err_empty_message = 8
