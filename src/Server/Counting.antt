-- ===== src/Server/Counting.antt =====
-- The counter that all clients share, and an addition that the server cannot read.
use communo.Prelude.{
  ℕ, zero, suc, ◌+◌, ◌%◌, ◌≤◌, ◌<◌, ◌^◌, ◌≡◌, refl, ◌∙◌, [], ◌∷◌, ◌++◌, some, arith, Bytes, codes,
  le_bytes, Result, ok, throws, runtime_error, ◌>>=◌, memcpy_uint-append, memcpy_uint, get_elem?,
  length, length-le_bytes, length-append, leb, ltb, true, length-append, append_assoc,
}
use communo.OpCodes.{
  opcode_bytes, cmsg_increment_counter, cmsg_get_counter, cmsg_addition_request, smsg_counter,
}
use communo.NumParser.Codec.{read_number_unknown}
use communo.Universe.{increment_counter, get_counter}
use communo.Server.{ClientSocket, World, DoubleArith, clients, buffer_of}
use communo.Server.Send.{send_ssl_packet_to_client_socket}
use communo.Server.Handlers.{add_loop, call_handler_add, call_handler_get_counter}
use communo.Server.Dispatch.{handle_opcode}
use communo.Server.Requests.{serve_client, fill_buffer}
use communo.Server.Packet.{
  serve_client-opcode, process_reply-opcode, length-opcode_bytes, buffer-fill_buffer, stale,
}
use communo.Client.Replies.{process_reply, read_reply, counter}

-- `n` requests to increment, one after the other, from the client at `i`.
abbrev pub increments : DoubleArith → ℕ → ℕ → ClientSocket → ℕ → World → Result World
increments lib now i client zero w = ok w
increments lib now i client (suc n) w =
    serve_client lib now i client (opcode_bytes cmsg_increment_counter ++ []) w
    >>= increments lib now i client n

increment_served :
    (lib : DoubleArith) (now i : ℕ) (client : ClientSocket) (w : World)
    → get_elem? (clients w) i ≡ some client
    → serve_client lib now i client (opcode_bytes cmsg_increment_counter ++ []) w
      ≡ ok (record (fill_buffer (opcode_bytes cmsg_increment_counter ++ []) w) {
        universe = increment_counter w.universe;
      })
unfolding handle_opcode fill_buffer
increment_served lib now i client w here =
    serve_client-opcode lib now i client cmsg_increment_counter [] w (omega arith) here

-- What is left after the increments: the clients are as before, and the counter has gone on.
pub record Counted (n : ℕ) (w w' : World) : Type 0 where
  pub same_clients : clients w' ≡ clients w
  pub same_chat : w'.chat ≡ w.chat
  pub same_events : w'.events ≡ w.events
  pub total : w'.universe.counter ≡ (w.universe.counter + n) % 2 ^ 64

increments-Counted :
    (lib : DoubleArith) (now i : ℕ) (client : ClientSocket) (n : ℕ) (w : World)
    → get_elem? (clients w) i ≡ some client
    → w.universe.counter < 2 ^ 64
    → (w' : World) × (increments lib now i client n w ≡ ok w') × Counted n w w'
unfolding increment_counter fill_buffer
increments-Counted lib now i client zero w here fits = (
  w,
  refl,
  record { same_clients = refl; same_chat = refl; same_events = refl; total = omega arith },
)
increments-Counted lib now i client (suc n) w here fits =
    let packet = opcode_bytes cmsg_increment_counter ++ [] in
    let next = record (fill_buffer packet w) { universe = increment_counter w.universe } in
    let (w', e, c) = increments-Counted lib now i client n next here (omega arith) in
    (
      w',
      rw (increment_served lib now i client w here) e,
      record {
        same_clients = c.same_clients;
        same_chat = c.same_chat;
        same_events = c.same_events;
        total = omega (arith, c.total);
      },
    )

-- The reply to a request for the counter.
abbrev pub counter_packet : ℕ → Bytes
counter_packet n = opcode_bytes smsg_counter ++ le_bytes 8 n

counter_shown :
    (ping_start now n : ℕ)
    → n < 2 ^ 64
    → process_reply ping_start now (counter_packet n) ≡ ok (counter n)
unfolding read_reply
counter_shown ping_start now n h = rw (
  process_reply-opcode ping_start now smsg_counter (le_bytes 8 n) (omega arith),
  memcpy_uint-append [] 8 n (0 ∷ []) h,
)

-- After `n` requests to increment the counter, which nobody is answered, a request for it is answered
-- with the counter of before, a 64-bit number, and `n`, modulo 2 ^ 64, and the client that asked shows
-- that number.
pub counter_counts :
    (lib : DoubleArith) (now i ping_start later : ℕ) (client : ClientSocket) (n : ℕ) (w : World)
    → get_elem? (clients w) i ≡ some client
    → w.universe.counter < 2 ^ 64
    → (w' : World) × (increments lib now i client n w ≡ ok w')
      × Counted n w w'
      × (serve_client lib now i client (opcode_bytes cmsg_get_counter ++ []) w'
          ≡ ok (
              send_ssl_packet_to_client_socket client
                (counter_packet ((w.universe.counter + n) % 2 ^ 64))
                (fill_buffer (opcode_bytes cmsg_get_counter ++ []) w')))
      × (process_reply ping_start later (counter_packet ((w.universe.counter + n) % 2 ^ 64))
          ≡ ok (counter ((w.universe.counter + n) % 2 ^ 64)))
unfolding handle_opcode call_handler_get_counter get_counter fill_buffer
counter_counts lib now i ping_start later client n w here fits =
    let (w', e, c) = increments-Counted lib now i client n w here fits in
    (
      w',
      e,
      c,
      serve_client-opcode lib now i client cmsg_get_counter [] w' (omega arith)
            (rw c.same_clients here)
          ∙ rw c.total,
      counter_shown ping_start later ((w.universe.counter + n) % 2 ^ 64) (omega arith),
    )

add_loop_unknown :
    (lib : DoubleArith) (buffer : Bytes) (fuel offset size sum type : ℕ)
    → offset < size
    → memcpy_uint buffer offset 1 ≡ ok type
    → 10 ≤ type
    → add_loop lib buffer (suc fuel) offset size sum
      ≡ throws (runtime_error (codes "Unknown number type"))
unfolding add_loop
add_loop_unknown lib buffer fuel offset size sum type more tag unknown =
    let test : ltb offset size ≡ true = ground arith in
    rw (test, tag, read_number_unknown buffer (offset + 1) type unknown)

-- An addition of six bytes or more whose first type byte is no type of numbers ends in the exception of
-- `read_number`, which nothing that serves the packet catches, whatever it holds behind that byte.
pub addition_unknown_type :
    (lib : DoubleArith) (now i : ℕ) (client : ClientSocket) (type : ℕ) (rest : Bytes) (w : World)
    → get_elem? (clients w) i ≡ some client
    → 10 ≤ type
    → type < 256
    → 3 ≤ length rest
    → serve_client lib now i client
        (opcode_bytes cmsg_addition_request ++ (le_bytes 1 type ++ rest))
        w
      ≡ throws (runtime_error (codes "Unknown number type"))
unfolding handle_opcode call_handler_add
addition_unknown_type lib now i client type rest w here unknown byte size =
    let tail = le_bytes 1 type ++ rest in
    let packet = opcode_bytes cmsg_addition_request ++ tail in
    let total : length tail + 2 ≡ suc (length rest + 2) =
      omega (arith, length-append (le_bytes 1 type) rest, length-le_bytes 1 type) in
    let test : leb 6 (suc (length rest + 2)) ≡ true = ground arith in
    let flat : buffer_of (fill_buffer packet w)
        ≡ opcode_bytes cmsg_addition_request ++ (le_bytes 1 type ++ (rest ++ stale packet w)) =
      buffer-fill_buffer packet w ∙ simp append_assoc in
    let tag : memcpy_uint (buffer_of (fill_buffer packet w)) 2 1 ≡ ok type = rw flat (
      rw (length-opcode_bytes cmsg_addition_request) at (
        memcpy_uint-append (opcode_bytes cmsg_addition_request) 1 type (rest ++ stale packet w)
          byte)) in
    serve_client-opcode lib now i client cmsg_addition_request tail w (omega arith) here
    ∙ rw (
      total,
      test,
      add_loop_unknown lib (buffer_of (fill_buffer packet w)) (length rest + 2) 2
          (suc (length rest + 2)) 0 type (omega arith) tag unknown,
    )
