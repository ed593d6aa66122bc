-- ===== src/Cli/Conversation.antt =====
-- What is typed, what the server does with it, and what the client then shows.
use communo.Prelude.{
  some, ℕ, ◌<◌, ◌≡◌, refl, ◌∙◌, true, ap, sym, [], ◌∷◌, ◌++◌, arith, Bytes, codes, ok, le_bytes,
  length, get_elem?, ltb, to_string, memcpy_uint-append,
}
use communo.OpCodes.{opcode_bytes, smsg_join_chat_room_ok, smsg_join_chat_room_err}
use communo.Client.{join_packet, send_ssl_packet_to_server}
use communo.Client.Replies.{
  Reply, room_joined, room_not_joined, join_err_text, read_reply, process_reply,
}
use communo.Server.{ClientSocket, World, DoubleArith, clients}
use communo.Server.Requests.{serve_client}
use communo.Server.Packet.{process_reply-opcode}
use communo.Server.Wire.{joined_bytes, not_joined_bytes}
use communo.Server.Join.{HashesWhole}
use communo.Server.Verdicts.{
  Verdict, unknown_room, wrong_password, let_in, reply_of, JoinAnswer, join_answered,
}
use communo.Cli.{Session, main_commands, with_client}
use communo.Cli.Handlers.{Outside, run_line}
use communo.Cli.Tokens.{Spells}
use communo.Cli.Typed.{typed_join}

-- What the client shows of a verdict.
abbrev pub shown : Verdict → ℕ → Reply
shown unknown_room id = room_not_joined 1 (codes "Invalid room ID.")
shown wrong_password id = room_not_joined 2 (codes "Invalid room password.")
shown let_in id = room_joined id

joined_shown :
    (ping_start later id : ℕ)
    → id < 256
    → process_reply ping_start later (opcode_bytes smsg_join_chat_room_ok ++ le_bytes 1 id)
      ≡ ok (room_joined id)
unfolding read_reply
joined_shown ping_start later id h =
    rw (process_reply-opcode ping_start later smsg_join_chat_room_ok (le_bytes 1 id) (omega arith))
      (rw (memcpy_uint-append [] 1 id (0 ∷ []) (omega arith)) refl)

not_joined_shown :
    (ping_start later error : ℕ)
    → error < 256
    → process_reply ping_start later (opcode_bytes smsg_join_chat_room_err ++ le_bytes 1 error)
      ≡ ok (room_not_joined error (join_err_text error))
unfolding read_reply
not_joined_shown ping_start later error h =
    rw
      (process_reply-opcode ping_start later smsg_join_chat_room_err (le_bytes 1 error)
        (omega arith))
      (rw (memcpy_uint-append [] 1 error (0 ∷ []) (omega arith)) refl)

reply-shown :
    (ping_start later id : ℕ) (verdict : Verdict)
    → id < 256
    → process_reply ping_start later (reply_of verdict id) ≡ ok (shown verdict id)
unfolding join_err_text
reply-shown ping_start later id unknown_room h =
    ap (process_reply ping_start later) (sym (not_joined_bytes 1 (omega arith)))
    ∙ not_joined_shown ping_start later 1 (omega arith)
reply-shown ping_start later id wrong_password h =
    ap (process_reply ping_start later) (sym (not_joined_bytes 2 (omega arith)))
    ∙ not_joined_shown ping_start later 2 (omega arith)
reply-shown ping_start later id let_in h =
    ap (process_reply ping_start later) (sym (joined_bytes id h))
    ∙ joined_shown ping_start later id h

-- A line of `chat join`, the number of a room and a password is one packet to the server; the server,
-- where its stored digests are absent or whole, answers it in one of three ways, with one packet to the
-- client that sent it. Either the room is not there: nobody is moved, and the client shows "Invalid
-- room ID." Or the room has a password and its digest is not the one of the password that was typed:
-- nobody is moved, and the client shows "Invalid room password." Or it has none, or that one: the
-- client, and no other, is put into the room, and shows that the room is joined.
pub typed_join_answered :
    (outside : Outside) (line : Bytes) (id : ℕ) (pwd : Bytes) (s : Session) (lib : DoubleArith)
    (now i ping_start later : ℕ) (client : ClientSocket) (w : World)
    → Spells (codes "chat" ∷ codes "join" ∷ to_string id ∷ pwd ∷ []) line
    → id < 256
    → length (outside.sha256 pwd) ≡ 32
    → get_elem? (clients w) i ≡ some client
    → HashesWhole w.chat.chat_rooms
    → (s' : Session) × (packet : Bytes) × (verdict : Verdict) × (w' : World) × (run_line outside
          main_commands line s
        ≡ ok (s', true))
      × (s'.client.sent ≡ s.client.sent ++ (packet ∷ []))
      × (serve_client lib now i client packet w ≡ ok w')
      × JoinAnswer verdict i client id (outside.sha256 pwd) w w'
      × (process_reply ping_start later (reply_of verdict id) ≡ ok (shown verdict id))
unfolding send_ssl_packet_to_server
typed_join_answered outside line id pwd s lib now i ping_start later client w spelled byte size here
      whole =
    let packet = join_packet id (outside.sha256 pwd) in
    let small : ltb id 256 ≡ true = ground arith in
    let (verdict, w', served, answered) =
      join_answered lib now i client id (outside.sha256 pwd) w here byte size whole in
    (
      with_client (send_ssl_packet_to_server packet s.client) s,
      packet,
      verdict,
      w',
      typed_join outside line id pwd s spelled (omega arith) ∙ rw small refl,
      refl,
      served,
      answered,
      reply-shown ping_start later id verdict byte,
    )
