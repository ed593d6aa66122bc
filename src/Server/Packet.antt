-- ===== src/Server/Packet.antt =====
-- A packet on its way from the socket to its handler, and from an opcode to the client's reply.
use communo.Prelude.{
  length-drop, ℕ, ◌+◌, ◌-◌, ◌<◌, ◌^◌, ◌≡◌, refl, true, [], ◌++◌, append_assoc, append-nil, some,
  arith, Bytes, bswap, bswap-lt, bswap-bswap, ok, memcpy_uint, memcpy_uint-append, read_bytes,
  read_bytes-append, leb, length, length-append, length-le_bytes, drop, get_elem?,
}
use communo.OpCodes.{opcode_bytes}
use communo.Server.{ClientSocket, World, DoubleArith, clients, buffer_of}
use communo.Server.Dispatch.{call_handler, handle_opcode, message_of}
use communo.Server.Requests.{fill_buffer, serve_client}
use communo.Client.Replies.{process_reply, read_reply}

pub length-opcode_bytes : (opcode : ℕ) → length (opcode_bytes opcode) ≡ 2
unfolding opcode_bytes
length-opcode_bytes opcode = length-le_bytes 2 (bswap 2 opcode)

pub length-packet :
    (opcode : ℕ) (rest : Bytes) → length (opcode_bytes opcode ++ rest) ≡ length rest + 2
length-packet opcode rest =
    omega (arith, length-append (opcode_bytes opcode) rest, length-opcode_bytes opcode)

-- The buffer behind a packet that was just read.
abbrev pub stale : Bytes → World → Bytes
stale packet w = drop (length packet) (buffer_of w)

opcode_read :
    (opcode : ℕ) (rest : Bytes)
    → memcpy_uint (opcode_bytes opcode ++ rest) 0 2 ≡ ok (bswap 2 opcode)
unfolding opcode_bytes
opcode_read opcode rest = memcpy_uint-append [] 2 (bswap 2 opcode) rest (bswap-lt 2 opcode)

opcode_read_filled :
    (opcode : ℕ) (rest behind : Bytes)
    → memcpy_uint ((opcode_bytes opcode ++ rest) ++ behind) 0 2 ≡ ok (bswap 2 opcode)
opcode_read_filled opcode rest behind = rw append_assoc (opcode_read opcode (rest ++ behind))

-- A packet that begins with an opcode reaches the branch of that opcode, with its own length.
pub serve_client-opcode :
    (lib : DoubleArith) (now i : ℕ) (client : ClientSocket) (opcode : ℕ) (rest : Bytes) (w : World)
    → opcode < 2 ^ 16
    → get_elem? (clients w) i ≡ some client
    → serve_client lib now i client (opcode_bytes opcode ++ rest) w
      ≡ handle_opcode lib now i client
          (length rest + 2)
          opcode
          (fill_buffer (opcode_bytes opcode ++ rest) w)
unfolding serve_client call_handler
serve_client-opcode lib now i client opcode rest w h c =
    let test : leb 2 (length rest + 2) ≡ true = ground arith in
    let behind = drop (length rest + 2) (buffer_of w) in
    rw (
      length-packet opcode rest,
      test,
      c,
      opcode_read_filled opcode rest behind,
      bswap-bswap 2 opcode h,
    )

-- The text behind the opcode is the rest of the packet.
pub message_of-packet :
    (opcode : ℕ) (rest : Bytes) (w : World)
    → message_of (length rest + 2) (fill_buffer (opcode_bytes opcode ++ rest) w) ≡ ok rest
unfolding message_of fill_buffer
message_of-packet opcode rest w =
    let size : length rest + 2 - 2 ≡ length rest = omega arith in
    rw (size, append_assoc)
      (rw (length-opcode_bytes opcode) at
        (read_bytes-append (opcode_bytes opcode) rest (stale (opcode_bytes opcode ++ rest) w)))

-- The client takes a reply apart the same way.
pub process_reply-opcode :
    (ping_start now opcode : ℕ) (payload : Bytes)
    → opcode < 2 ^ 16
    → process_reply ping_start now (opcode_bytes opcode ++ payload)
      ≡ read_reply ping_start now opcode payload
unfolding process_reply
process_reply-opcode ping_start now opcode payload h =
    let test : leb 2 (length payload + 2) ≡ true = ground arith in
    let size : length payload + 2 - 2 ≡ length payload = omega arith in
    let read : read_bytes (opcode_bytes opcode ++ payload) 2 (length payload) ≡ ok payload =
      rw (append-nil payload, length-opcode_bytes opcode) at
        (read_bytes-append (opcode_bytes opcode) payload []) in
    rw (
      length-packet opcode payload,
      test,
      opcode_read opcode payload,
      size,
      read,
      bswap-bswap 2 opcode h,
    )

pub buffer-fill_buffer :
    (packet : Bytes) (w : World) → buffer_of (fill_buffer packet w) ≡ packet ++ stale packet w
unfolding fill_buffer
buffer-fill_buffer packet w = refl

pub clients-fill_buffer : (packet : Bytes) (w : World) → clients (fill_buffer packet w) ≡ clients w
unfolding fill_buffer
clients-fill_buffer packet w = refl

pub length-stale :
    (packet : Bytes) (w : World) → length (stale packet w) ≡ length (buffer_of w) - length packet
length-stale packet w = length-drop (length packet) (buffer_of w)
