-- ===== src/Checks/Chatting.antt =====
-- Messages, and what they reach.
use communo.Prelude.{
  ◌+◌, ◌≡◌, refl, arith, leb, if◌then◌else◌, inr, true, false, some, ok, undefined, Bytes, codes,
  ◌++◌, length, le_bytes, take,
}
use communo.OpCodes.{
  opcode_bytes, cmsg_broadcast_message, cmsg_say, smsg_broadcast, smsg_say, smsg_say_ok,
  smsg_say_err, smsg_private_message,
}
use communo.SharedDefinitions.{err_ok, err_invalid_room, err_no_room_joined}
use communo.Chat.{check_room_id, find, is_found}
use communo.Server.{World, clients}
use communo.Server.Send.{send_ssl_packet_to_client_socket}
use communo.Server.Handlers.{find_client, status_packet}
use communo.Server.Requests.{serve_client, fill_buffer}
use communo.Server.Packet.{stale}
use communo.Server.Rooms.{
  DeliversTo, IsSecured, IsMember, broadcast_reaches, say_reaches_room, say_refused,
}
use communo.Server.PrivateMessage.{Told, private_message_refused, private_message_overrun}
use communo.Client.{client_message_packet}
use communo.Checks.{integers, alice, bob, carol, world}

abbrev hello : Bytes
hello = codes "hello"

broadcast_reaches_example :
    (w' : World) × (serve_client integers 0 0 alice
        (opcode_bytes cmsg_broadcast_message ++ hello)
        world
      ≡ ok w')
    × DeliversTo IsSecured
        (opcode_bytes smsg_broadcast ++ hello)
        (clients world)
        (fill_buffer (opcode_bytes cmsg_broadcast_message ++ hello) world)
        w'
broadcast_reaches_example = broadcast_reaches integers 0 0 alice hello world refl

lobby_known : check_room_id world.chat 1 ≡ true
unfolding check_room_id find is_found
lobby_known = refl

say_reaches_room_example :
    (w' : World) × (serve_client integers 0 1 bob (opcode_bytes cmsg_say ++ hello) world ≡ ok w')
    × DeliversTo
        (IsMember 1)
        (opcode_bytes smsg_say ++ hello)
        (clients world)
        (send_ssl_packet_to_client_socket bob
          (opcode_bytes smsg_say_ok)
          (fill_buffer (opcode_bytes cmsg_say ++ hello) world))
        w'
say_reaches_room_example = say_reaches_room integers 0 1 bob hello world refl refl lobby_known

-- Carol's room is gone.
room_gone : check_room_id world.chat 9 ≡ false
unfolding check_room_id find is_found
room_gone = refl

say_refused_example :
    serve_client integers 0 2 carol (opcode_bytes cmsg_say ++ hello) world
    ≡ ok (
        send_ssl_packet_to_client_socket carol
          (opcode_bytes smsg_say_err
            ++ le_bytes 1 (if carol.chat_room_joined then err_invalid_room else err_no_room_joined))
          (fill_buffer (opcode_bytes cmsg_say ++ hello) world))
say_refused_example = say_refused integers 0 2 carol hello world refl (inr room_gone)

private_message_refused_example :
    (w' : World) × (serve_client integers 0 0 alice (client_message_packet 8 hello) world ≡ ok w')
    × Told alice world 5 w'
private_message_refused_example =
    private_message_refused integers 0 0 alice 8 hello world refl (omega arith) 5 (
      inr (
        (λ e. omega (arith, e)),
        ((λ e. omega (arith, e)), ((λ e. omega (arith, e)), ((λ e. omega (arith, e)), tt))),
        refl,
      ))

bob_found : find_client 2 (clients world) ≡ some bob
unfolding find_client
bob_found = refl

private_message_overrun_example :
    serve_client integers 0 0 alice (client_message_packet 2 hello) world ≡ (
      if leb (length hello + 20) 4096
      then ok (
          send_ssl_packet_to_client_socket bob
            (opcode_bytes smsg_private_message
              ++ (le_bytes 8 alice.client_id
                  ++ (hello ++ take 10 (stale (client_message_packet 2 hello) world))))
            (send_ssl_packet_to_client_socket alice
              (status_packet err_ok)
              (fill_buffer (client_message_packet 2 hello) world)))
      else undefined)
private_message_overrun_example =
    private_message_overrun integers 0 0 alice 2 hello world refl (omega arith) bob (omega arith)
      bob_found refl (omega arith)
