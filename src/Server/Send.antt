-- ===== src/Server/Send.antt =====
-- `SendSSLPacketToClientSocket` and `SendMsgToSocket`. A failed `SSL_write` is only
-- logged, so what is modelled of one is the attempt.
use communo.Prelude.{[], ◌∷◌, ◌++◌, Bytes}
use communo.OpCodes.{opcode_bytes, smsg_message}
use communo.Chat.{c_string}
use communo.Server.{ClientSocket, Event, ssl_write, World}

abbrev pub write_to : ClientSocket → Bytes → Event
write_to client packet = ssl_write client.ssl packet

unfoldable pub send_ssl_packet_to_client_socket : ClientSocket → Bytes → World → World
send_ssl_packet_to_client_socket client packet w = record w {
  events = w.events ++ (write_to client packet ∷ []);
}

-- The text goes through `c_str()`, so that it ends at its first NUL.
unfoldable pub send_msg_to_socket : ClientSocket → Bytes → World → World
unfolding send_ssl_packet_to_client_socket
send_msg_to_socket client msg w =
    send_ssl_packet_to_client_socket client (opcode_bytes smsg_message ++ c_string msg) w
