-- ===== src/Server/Addition.antt =====
-- CMSG_ADDITION_REQUEST from the client's numbers to the server's reply.
use communo.Prelude.{
  leb, some, get_elem?, to_word, ◌^◌, false, sym, append-nil, ltb, true, ℕ, zero, suc, ◌+◌, ◌*◌,
  ◌≤◌, ◌<◌, ◌≡◌, ◌∙◌, ap, List, [], ◌∷◌, ◌++◌, append_assoc, arith, Bytes, le_bytes, ok, length,
  length-append, length-le_bytes, memcpy_uint, memcpy_uint-append, All,
}
use communo.OpCodes.{opcode_bytes, cmsg_addition_request, smsg_addition_request}
use communo.NumParser.{Number, IsValid, get_number_type, append_number, number_bytes, read_number}
use communo.NumParser.Codec.{read_number-append_number}
use communo.Client.{append_numbers, addition_packet}
use communo.Client.Replies.{addition, process_reply, read_reply}
use communo.Server.{ClientSocket, World, DoubleArith, clients, buffer_of}
use communo.Server.Send.{send_ssl_packet_to_client_socket}
use communo.Server.Requests.{fill_buffer, serve_client}
use communo.Server.Dispatch.{handle_opcode}
use communo.Server.Packet.{
  serve_client-opcode, process_reply-opcode, length-opcode_bytes, buffer-fill_buffer,
}
use communo.Server.Doubles.{double_of, to_double-double_of}
use communo.Server.Handlers.{add_loop, call_handler_add}

-- The numbers as they stand in the packet.
abbrev wire : List Number → Bytes
wire [] = []
wire (num ∷ numbers) = le_bytes 1 (get_number_type num) ++ (number_bytes num ++ wire numbers)

append_numbers-wire :
    (packet : Bytes) (numbers : List Number)
    → append_numbers packet numbers ≡ packet ++ wire numbers
unfolding append_numbers append_number
append_numbers-wire packet [] = sym (append-nil packet)
append_numbers-wire packet (num ∷ numbers) =
    append_numbers-wire ((packet ++ le_bytes 1 (get_number_type num)) ++ number_bytes num) numbers
    ∙ simp append_assoc

-- The sum of the numbers, one by one, behind what has been added up before them.
abbrev pub sum_of : DoubleArith → ℕ → List Number → ℕ
sum_of lib sum [] = sum
sum_of lib sum (num ∷ numbers) = sum_of lib (lib.add sum (double_of lib num)) numbers

tag-lt : (num : Number) → get_number_type num < 256
unfolding get_number_type
tag-lt (Number.int8 z) = omega arith
tag-lt _ = omega arith

add_loop_step :
    (lib : DoubleArith) (buffer : Bytes) (fuel offset size sum type after : ℕ) (num : Number)
    → offset < size
    → memcpy_uint buffer offset 1 ≡ ok type
    → read_number buffer (offset + 1) type ≡ ok (num, after)
    → add_loop lib buffer (suc fuel) offset size sum
      ≡ add_loop lib buffer fuel after size (lib.add sum (double_of lib num))
unfolding add_loop
add_loop_step lib buffer fuel offset size sum type after num h t r =
    let test : ltb offset size ≡ true = ground arith in rw (test, t, r, to_double-double_of lib num)

-- One entry of the packet, wherever it stands.
entry_read :
    (front : Bytes) (num : Number) (back : Bytes)
    → IsValid num
    → read_number
        (front ++ (le_bytes 1 (get_number_type num) ++ (number_bytes num ++ back)))
        (length front + 1)
        (get_number_type num)
      ≡ ok (num, length front + (1 + length (number_bytes num)))
unfolding append_number
entry_read front num back v =
    let tag = le_bytes 1 (get_number_type num) in
    let place : length (front ++ tag) ≡ length front + 1 =
      rw length-append (ap (◌+◌ (length front)) (length-le_bytes 1 _)) in
    let after : length ((front ++ tag) ++ number_bytes num)
        ≡ length front + (1 + length (number_bytes num)) =
      omega (arith, length-append (front ++ tag) (number_bytes num), place) in
    rw (append_assoc, append_assoc, place, after) at
      (read_number-append_number (front ++ tag) num back v)

add_loop_done :
    (lib : DoubleArith) (buffer : Bytes) (fuel offset size sum : ℕ)
    → size ≤ offset
    → add_loop lib buffer fuel offset size sum ≡ ok sum
unfolding add_loop
add_loop_done lib buffer zero offset size sum h =
    let test : ltb offset size ≡ false = ground arith in rw test
add_loop_done lib buffer (suc fuel) offset size sum h =
    let test : ltb offset size ≡ false = ground arith in rw test

add_loop-wire :
    (lib : DoubleArith) (numbers : List Number) (front stale : Bytes) (fuel offset size sum : ℕ)
    → offset ≡ length front
    → size ≡ offset + length (wire numbers)
    → length numbers ≤ fuel
    → All IsValid numbers
    → add_loop lib (front ++ (wire numbers ++ stale)) fuel offset size sum
      ≡ ok (sum_of lib sum numbers)
add_loop-wire lib [] front stale fuel offset size sum o e f v =
    add_loop_done lib _ fuel offset size sum (omega arith)
add_loop-wire lib (num ∷ numbers) front stale zero offset size sum o e f v = elim f [ ]
add_loop-wire lib (num ∷ numbers) front stale (suc fuel) offset size sum o e f v =
    let tag = le_bytes 1 (get_number_type num) in
    let item = number_bytes num in
    let back = wire numbers ++ stale in
    let bound : length (tag ++ (item ++ wire numbers)) ≡ 1 + (length item + length (wire numbers)) =
      rw (length-append, length-append) (omega (arith, length-le_bytes 1 (get_number_type num))) in
    let next : length (front ++ (tag ++ item)) ≡ length front + (1 + length item) =
      rw (length-append, length-append) (omega (arith, length-le_bytes 1 (get_number_type num))) in
    let flat : (tag ++ (item ++ wire numbers)) ++ stale ≡ tag ++ (item ++ back) =
      simp append_assoc in
    let split : front ++ (tag ++ (item ++ back)) ≡ (front ++ (tag ++ item)) ++ back =
      simp append_assoc in
    let rest =
      add_loop-wire lib numbers (front ++ (tag ++ item)) stale fuel
        (length front + (1 + length item)) size (lib.add sum (double_of lib num)) (sym next)
        (omega arith) (omega arith) v.1 in
    rw (flat, o)
      (add_loop_step lib (front ++ (tag ++ (item ++ back))) fuel (length front) size sum
          (get_number_type num) (length front + (1 + length item)) num (omega arith)
          (memcpy_uint-append front 1 (get_number_type num) (item ++ back) (tag-lt num))
          (entry_read front num back v.0)
        ∙ rw split rest)

addition_packet-wire :
    (numbers : List Number)
    → addition_packet numbers ≡ opcode_bytes cmsg_addition_request ++ wire numbers
unfolding addition_packet
addition_packet-wire numbers = append_numbers-wire (opcode_bytes cmsg_addition_request) numbers

number_bytes-pos : (num : Number) → 1 ≤ length (number_bytes num)
unfolding number_bytes
number_bytes-pos (Number.int8 z) = omega (arith, length-le_bytes 1 (to_word (2 ^ 7) z))
number_bytes-pos (Number.uint8 n) = omega (arith, length-le_bytes 1 n)
number_bytes-pos (Number.int16 z) = omega (arith, length-le_bytes 2 (to_word (2 ^ 15) z))
number_bytes-pos (Number.uint16 n) = omega (arith, length-le_bytes 2 n)
number_bytes-pos (Number.int32 z) = omega (arith, length-le_bytes 4 (to_word (2 ^ 31) z))
number_bytes-pos (Number.uint32 n) = omega (arith, length-le_bytes 4 n)
number_bytes-pos (Number.int64 z) = omega (arith, length-le_bytes 8 (to_word (2 ^ 63) z))
number_bytes-pos (Number.uint64 n) = omega (arith, length-le_bytes 8 n)
number_bytes-pos (Number.float b) = omega (arith, length-le_bytes 4 b)
number_bytes-pos (Number.double b) = omega (arith, length-le_bytes 8 b)

wire-size : (numbers : List Number) → 2 * length numbers ≤ length (wire numbers)
wire-size [] = omega arith
wire-size (num ∷ numbers) =
    rw (length-append, length-append)
      (omega
        (arith, wire-size numbers, number_bytes-pos num, length-le_bytes 1 (get_number_type num)))

-- The reply of the server to an addition.
abbrev pub sum_packet : ℕ → Bytes
sum_packet sum = opcode_bytes smsg_addition_request ++ le_bytes 8 sum

addition_handled :
    (lib : DoubleArith) (now i : ℕ) (client : ClientSocket) (numbers : List Number) (behind : Bytes)
    (w : World)
    → 2 ≤ length numbers
    → All IsValid numbers
    → buffer_of w ≡ (opcode_bytes cmsg_addition_request ++ wire numbers) ++ behind
    → handle_opcode lib now i client (length (wire numbers) + 2) cmsg_addition_request w
      ≡ ok (send_ssl_packet_to_client_socket client (sum_packet (sum_of lib 0 numbers)) w)
unfolding handle_opcode call_handler_add
addition_handled lib now i client numbers behind w two v b =
    let size = length (wire numbers) + 2 in
    let test : leb 6 size ≡ true = ground (arith, wire-size numbers) in
    let loop : add_loop lib ((opcode_bytes cmsg_addition_request ++ wire numbers) ++ behind) size 2
          size 0
        ≡ ok (sum_of lib 0 numbers) =
      rw append_assoc (
        add_loop-wire lib numbers (opcode_bytes cmsg_addition_request) behind size 2 size 0
          (sym (length-opcode_bytes cmsg_addition_request)) (omega arith)
          (omega (arith, wire-size numbers)) v) in
    rw (test, b, loop)

addition_shown :
    (ping_start now sum : ℕ)
    → sum < 2 ^ 64
    → process_reply ping_start now (sum_packet sum) ≡ ok (addition sum)
unfolding read_reply
addition_shown ping_start now sum h =
    let test : ltb (length (le_bytes 8 sum)) 8 ≡ false = rw (length-le_bytes 8 sum) in
    rw (
      process_reply-opcode ping_start now smsg_addition_request (le_bytes 8 sum) (omega arith),
      test,
      memcpy_uint-append [] 8 sum (0 ∷ []) h,
    )

-- Two or more valid numbers, sent by a client in one packet, are answered to that client with
-- their sum, added up in the order of the packet from zero in the server's double arithmetic, an
-- integer as the double of its value and a float as the double of it;
-- nothing behind the packet in the buffer takes part. The client reads that sum out of the reply,
-- if the arithmetic's result is a 64-bit pattern.
pub addition_round_trip :
    (lib : DoubleArith) (now i ping_start later : ℕ) (client : ClientSocket) (numbers : List Number)
    (w : World)
    → get_elem? (clients w) i ≡ some client
    → 2 ≤ length numbers
    → All IsValid numbers
    → sum_of lib 0 numbers < 2 ^ 64
    → (serve_client lib now i client (addition_packet numbers) w
        ≡ ok (
            send_ssl_packet_to_client_socket client
              (sum_packet (sum_of lib 0 numbers))
              (fill_buffer (addition_packet numbers) w)))
      × (process_reply ping_start later (sum_packet (sum_of lib 0 numbers))
          ≡ ok (addition (sum_of lib 0 numbers)))
addition_round_trip lib now i ping_start later client numbers w c two v fits = (
  rw
      (
        addition_packet-wire numbers,
        serve_client-opcode lib now i client cmsg_addition_request (wire numbers) w (omega arith) c,
      )
      (addition_handled lib now i client numbers _ _ two v
        (buffer-fill_buffer (opcode_bytes cmsg_addition_request ++ wire numbers) w)),
  addition_shown ping_start later (sum_of lib 0 numbers) fits,
)
