-- ===== src/Server/Listing.antt =====
-- CMSG_GET_CLIENT_LIST, from the request to what the client that asked shows.
use communo.Prelude.{
  ℕ, ◌+◌, ◌≤◌, ◌<◌, ◌^◌, ◌≡◌, refl, List, [], ◌∷◌, ◌++◌, append-nil, append_assoc, ap, some, arith,
  Bytes, codes, to_string, ok, ◌==◌, if◌then◌else◌, length, length-append, get_elem?, All,
  Bool-cases, inl, inr,
}
use communo.OpCodes.{opcode_bytes, cmsg_get_client_list}
use communo.SharedDefinitions.{err_ok}
use communo.Client.Replies.{entry_line, client_list, process_reply}
use communo.Server.{ClientSocket, World, DoubleArith, ssl_write, clients}
use communo.Server.Send.{send_ssl_packet_to_client_socket}
use communo.Server.Handlers.{
  shown_username, client_list_packet, client_entry, call_handler_get_client_list,
}
use communo.Server.Dispatch.{handle_opcode}
use communo.Server.Requests.{fill_buffer, serve_client}
use communo.Server.Packet.{serve_client-opcode}
use communo.Server.ClientList.{
  IsListable, entries, lines, length-client_entry, client_list_round_trip,
}

-- The name of a client as the one with the number `asking` sees it.
abbrev pub marked : ℕ → ClientSocket → Bytes
marked asking client =
    client.client_username ++ (if client.client_id == asking then codes " (you)" else [])

shown_username-marked :
    (asking : ℕ) (client : ClientSocket) → shown_username asking client ≡ marked asking client
unfolding shown_username
shown_username-marked asking client = elim (Bool-cases (client.client_id == asking)) [
  | inl own ↦ rw own refl
  | inr other ↦ rw (other, append-nil) refl
]

-- One line for each client, in their order.
abbrev pub listed : ℕ → List ClientSocket → Bytes
listed asking [] = []
listed asking (client ∷ rest) =
    b'['
    ∷ (to_string client.client_id
        ++ (codes "] " ++ (marked asking client ++ (b'\n' ∷ listed asking rest))))

-- The bytes that the entries take: a number of eight, a length of two, and the name.
abbrev pub listed_size : ℕ → List ClientSocket → ℕ
listed_size asking [] = 0
listed_size asking (client ∷ rest) = 10 + length (marked asking client) + listed_size asking rest

-- A client with a number of eight bytes and a name whose length takes two.
abbrev pub Fits : ℕ → ClientSocket → Type 0
Fits asking client = (client.client_id < 2 ^ 64) × (length (marked asking client) < 2 ^ 16)

lines-listed : (asking : ℕ) (all : List ClientSocket) → lines asking all ≡ listed asking all
unfolding entry_line
lines-listed asking [] = refl
lines-listed asking (client ∷ rest) =
    rw (shown_username-marked asking client, ← lines-listed asking rest) (simp append_assoc)

length-entries-listed_size :
    (asking : ℕ) (all : List ClientSocket) → length (entries asking all) ≡ listed_size asking all
length-entries-listed_size asking [] = refl
length-entries-listed_size asking (client ∷ rest) = omega (
  arith,
  length-append (client_entry asking client) (entries asking rest),
  length-client_entry asking client,
  ap length (shown_username-marked asking client),
  length-entries-listed_size asking rest,
)

All-IsListable :
    (asking : ℕ) (all : List ClientSocket) → All (Fits asking) all → All (IsListable asking) all
All-IsListable asking [] h = tt
All-IsListable asking (client ∷ rest) h =
    ((h.0.0, rw (shown_username-marked asking client) h.0.1), All-IsListable asking rest h.1)

list_shown :
    (asking ping_start later i : ℕ) (all : List ClientSocket) (client : ClientSocket)
    → get_elem? all i ≡ some client
    → All (Fits asking) all
    → listed_size asking all + 3 ≤ 4096
    → process_reply ping_start later (client_list_packet asking all)
      ≡ ok (client_list err_ok (codes "[valid client list]\n" ++ listed asking all))
list_shown asking ping_start later i [] client here fit short = cc
list_shown asking ping_start later i (first ∷ rest) client here fit short =
    let size = length-entries-listed_size asking (first ∷ rest) in
    rw (← lines-listed asking (first ∷ rest)) (
      client_list_round_trip asking ping_start later first rest
        (All-IsListable asking (first ∷ rest) fit) (omega (arith, size, short)))

-- A client's request for the list of clients is answered, to it alone, with one packet. If every
-- client's number is below 2 ^ 64 and its name shorter than 2 ^ 16, and the list with an opcode and a
-- code fits a packet of 4096 bytes, the client shows every client's number and name, in the order of the
-- server, and behind its own name that it is its own. No client is changed.
pub client_list_answered :
    (lib : DoubleArith) (now i ping_start later : ℕ) (client : ClientSocket) (w : World)
    → get_elem? (clients w) i ≡ some client
    → All (Fits client.client_id) (clients w)
    → listed_size client.client_id (clients w) + 3 ≤ 4096
    → (w' : World) × (reply : Bytes) × (serve_client lib now i client
          (opcode_bytes cmsg_get_client_list)
          w
        ≡ ok w')
      × (clients w' ≡ clients w)
      × (w'.events ≡ w.events ++ (ssl_write client.ssl reply ∷ []))
      × (process_reply ping_start later reply
          ≡ ok (
              client_list err_ok
                (codes "[valid client list]\n" ++ listed client.client_id (clients w))))
unfolding handle_opcode call_handler_get_client_list send_ssl_packet_to_client_socket fill_buffer
client_list_answered lib now i ping_start later client w here fit short =
    let reply = client_list_packet client.client_id (clients w) in
    (
      send_ssl_packet_to_client_socket client reply
          (fill_buffer (opcode_bytes cmsg_get_client_list) w),
      reply,
      rw (append-nil (opcode_bytes cmsg_get_client_list)) at
          (serve_client-opcode lib now i client cmsg_get_client_list [] w (omega arith) here),
      refl,
      refl,
      list_shown client.client_id ping_start later i (clients w) client here fit short,
    )
