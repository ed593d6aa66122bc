-- ===== src/Checks/Talking.antt =====
-- Lines that are typed, and what the clients show in the end.
use communo.Prelude.{
  take, drop, if◌then◌else◌, ◌≡◌, ◌≤◌, ◌<◌, ◌^◌, ℕ, refl, arith, true, List, [], ◌∷◌, ◌++◌, map, ok,
  length, Bytes, codes, to_string, digits, le_bytes,
}
use communo.NumParser.{append_number, number_bytes, get_number_type}
use communo.OpCodes.{opcode_bytes, smsg_say_ok}
use communo.NumParser.RoundTrip.{smallest}
use communo.Client.{addition_packet, append_numbers}
use communo.Client.Replies.{addition, private_message, say, say_ok, process_reply}
use communo.Cli.{is_space, read_tokens, tokenize, main_commands, Session}
use communo.Cli.Handlers.{run_line}
use communo.Cli.Tokens.{tokenize-Spells}
use communo.Cli.Messages.{with_packet, with_line, is_taken, typed_message, typed_message_shown}
use communo.Cli.Blanks.{blank_after}
use communo.Cli.Talking.{total, typed_say_shown, typed_add_answered}
use communo.Chat.{is_empty, check_room_id, find, is_found}
use communo.Server.{World, clients, buffer_of, ssl_write}
use communo.Server.Admission.{Distinct}
use communo.Server.Send.{send_ssl_packet_to_client_socket}
use communo.Server.Handlers.{to_double}
use communo.Server.Requests.{fill_buffer, serve_client}
use communo.Server.Rooms.{IsMember, DeliversTo}
use communo.Checks.{integers, alice, bob, world}
use communo.Checks.CommandLine.{outside, session}

abbrev add_line : Bytes
add_line = codes "add 1 300"

abbrev summands : List ℕ
summands = 1 ∷ 300 ∷ []

add_tokens : tokenize add_line ≡ codes "add" ∷ map to_string summands
unfolding tokenize read_tokens is_space is_empty to_string digits
add_tokens = refl

add_short : length (addition_packet (map smallest summands)) ≤ 4096
unfolding addition_packet append_numbers append_number number_bytes get_number_type opcode_bytes
    le_bytes
add_short = omega arith

sum_fits : total integers 0 summands < 2 ^ 64
unfolding to_double
sum_fits = omega arith

typed_add_answered_example :
    (s' : Session) × (packet : Bytes) × (w' : World) × (reply : Bytes) × (run_line outside
        main_commands add_line session
      ≡ ok (s', true))
    × (s'.client.sent ≡ session.client.sent ++ (packet ∷ []))
    × (length packet ≤ 4096)
    × (serve_client integers 0 0 alice packet world ≡ ok w')
    × (w'.events ≡ world.events ++ (ssl_write alice.ssl reply ∷ []))
    × (process_reply 0 5 reply ≡ ok (addition (total integers 0 summands)))
typed_add_answered_example =
    typed_add_answered outside add_line summands session integers 0 0 0 5 alice world
      ((tokenize-Spells add_line (codes "add" ∷ map to_string summands)).1 add_tokens) (omega arith)
      (omega arith, (omega arith, tt)) add_short refl sum_fits

abbrev say_line : Bytes
say_line = codes "chat  say hi all"

abbrev said : List Bytes
said = codes "hi" ∷ codes "all" ∷ []

say_tokens : tokenize say_line ≡ codes "chat" ∷ codes "say" ∷ said
unfolding tokenize read_tokens is_space is_empty
say_tokens = refl

lobby_known : check_room_id world.chat 1 ≡ true
unfolding check_room_id find is_found
lobby_known = refl

typed_say_shown_example :
    (s' : Session) × (packet : Bytes) × (w' : World) × (shared : Bytes) × (run_line outside
        main_commands say_line session
      ≡ ok (s', true))
    × (s'.client.sent ≡ session.client.sent ++ (packet ∷ []))
    × (length packet ≤ 4096)
    × (serve_client integers 0 1 bob packet world ≡ ok w')
    × DeliversTo
        (IsMember 1)
        shared
        (clients world)
        (send_ssl_packet_to_client_socket bob (opcode_bytes smsg_say_ok) (fill_buffer packet world))
        w'
    × (process_reply 0 5 (opcode_bytes smsg_say_ok) ≡ ok say_ok)
    × (process_reply 0 5 shared ≡ ok (say (blank_after said)))
typed_say_shown_example =
    typed_say_shown outside say_line said session integers 0 1 0 5 bob world
      ((tokenize-Spells say_line (codes "chat" ∷ codes "say" ∷ said)).1 say_tokens) (omega arith)
      refl refl lobby_known

abbrev msg_line : Bytes
msg_line = codes "client send-msg 2 hi"

abbrev msg_words : List Bytes
msg_words = codes "client" ∷ codes "send-msg" ∷ to_string 2 ∷ codes "hi" ∷ []

msg_tokens : tokenize msg_line ≡ msg_words
unfolding tokenize read_tokens is_space is_empty to_string digits
msg_tokens = refl

numbers-Distinct : Distinct (clients world)
numbers-Distinct = (
  ((λ e. omega (arith, e)), ((λ e. omega (arith, e)), tt)),
  (((λ e. omega (arith, e)), tt), (tt, tt)),
)

typed_message_shown_example :
    (s' : Session) × (packet : Bytes) × (w' : World) × (delivered : Bytes) × (run_line outside
        main_commands msg_line session
      ≡ ok (s', true))
    × (s'.client.sent ≡ session.client.sent ++ (packet ∷ []))
    × (serve_client integers 0 0 alice packet world ≡ ok w')
    × (w'.events
        ≡ world.events
          ++ (ssl_write alice.ssl (0x10 ∷ 0x05 ∷ 0 ∷ []) ∷ ssl_write bob.ssl delivered ∷ []))
    × (process_reply 0 5 delivered
        ≡ ok (
            private_message 1
              (blank_after (codes "hi" ∷ []) ++ take 10 (drop (length packet) (buffer_of world)))))
typed_message_shown_example =
    typed_message_shown outside msg_line 2 (codes "hi") [] session integers 0 0 1 0 5 alice bob
      world ((tokenize-Spells msg_line msg_words).1 msg_tokens) (omega arith) refl (omega arith)
      refl refl (λ e. omega (arith, e)) numbers-Distinct refl (omega arith)

typed_message_example :
    run_line outside main_commands msg_line session
    ≡ ok (
      if is_taken 2
          then with_packet (0x00 ∷ 0x05 ∷ (le_bytes 8 2 ++ blank_after (codes "hi" ∷ []))) session
          else with_line (codes "invalid client ID: " ++ to_string 2) session,
      true,
    )
typed_message_example =
    typed_message outside msg_line 2 (codes "hi") [] session
      ((tokenize-Spells msg_line msg_words).1 msg_tokens) (omega arith)
