-- ===== src/Server/ClientList.antt =====
-- CMSG_GET_CLIENT_LIST: the list that the server packs and the one that the client shows.
use communo.Prelude.{
  ℕ, zero, suc, ◌+◌, ◌%◌, ◌≤◌, ◌<◌, ◌^◌, ◌≡◌, sym, ap, ◌∙◌, true, false, List, [], ◌∷◌, ◌++◌,
  append_assoc, append-nil, arith, Bytes, codes, le_bytes, bswap, bswap-lt, bswap-bswap, ok,
  read_bytes, read_bytes-append, memcpy_uint, memcpy_uint-append, ltb, leb, length, length-append,
  length-le_bytes, All,
}
use communo.OpCodes.{smsg_client_list}
use communo.SharedDefinitions.{err_ok}
use communo.Client.Replies
use communo.Client.Replies.{
  Reply, storage, entry_line, client_list, read_client_list, read_reply, process_reply,
}
use communo.Server.{ClientSocket}
use communo.Server.Handlers.{client_entry, client_list_loop, client_list_packet, shown_username}
use communo.Server.Packet.{process_reply-opcode}

-- A client that the list can show: its number is a uint64_t, and its name's length a uint16_t.
abbrev pub IsListable : ℕ → ClientSocket → Type 0
IsListable asking client =
    (client.client_id < 2 ^ 64) × (length (shown_username asking client) < 2 ^ 16)

-- The entries one after the other, as the server packs them and as the client shows them.
abbrev pub entries : ℕ → List ClientSocket → Bytes
entries asking [] = []
entries asking (client ∷ rest) = client_entry asking client ++ entries asking rest

abbrev pub lines : ℕ → List ClientSocket → Bytes
lines asking [] = []
lines asking (client ∷ rest) =
    entry_line client.client_id (shown_username asking client) ++ lines asking rest

client_list_loop-entries :
    (asking : ℕ) (all : List ClientSocket) (out : Bytes)
    → client_list_loop asking all out ≡ out ++ entries asking all
unfolding client_list_loop
client_list_loop-entries asking [] out = sym (append-nil out)
client_list_loop-entries asking (client ∷ rest) out =
    client_list_loop-entries asking rest (out ++ client_entry asking client) ∙ rw append_assoc

-- One round of the client's loop, from what it reads.
round :
    (fuel : ℕ) (payload : Bytes) (offset : ℕ) (out : Bytes) (id size : ℕ) (name : Bytes)
    → memcpy_uint (storage payload) offset 8 ≡ ok id
    → memcpy_uint (storage payload) (offset + 8) 2 ≡ ok size
    → read_bytes (storage payload) (offset + 10) (bswap 2 size) ≡ ok name
    → offset + 10 + bswap 2 size ≤ length payload
    → Replies.client_list_loop (suc fuel) payload offset out
      ≡ Replies.client_list_loop fuel payload
          (offset + 10 + bswap 2 size)
          (out ++ entry_line (bswap 8 id) name)
unfolding Replies.client_list_loop
round fuel payload offset out id size name i s n h =
    let more : ltb offset (length payload) ≡ true = ground arith in
    let head : ltb (length payload) (offset + 8 + 2) ≡ false = ground arith in
    let whole : ltb (length payload) (offset + 10 + bswap 2 size) ≡ false = ground arith in
    rw (more, head, i, s, whole, n)

finished :
    (fuel : ℕ) (payload : Bytes) (offset : ℕ) (out : Bytes)
    → length payload ≤ offset
    → Replies.client_list_loop fuel payload offset out ≡ ok out
unfolding Replies.client_list_loop
finished zero payload offset out h =
    let test : ltb offset (length payload) ≡ false = ground arith in rw test
finished (suc fuel) payload offset out h =
    let test : ltb offset (length payload) ≡ false = ground arith in rw test

-- What the client reads at an entry, wherever it stands in the payload.
module _ (asking : ℕ) (client : ClientSocket) (front back : Bytes)
    (ok_client : IsListable asking client) where
  abbrev at_entry : Bytes
  at_entry = front ++ (client_entry asking client ++ back)

  abbrev name : Bytes
  name = shown_username asking client

  id_read : memcpy_uint at_entry (length front) 8 ≡ ok (bswap 8 client.client_id)
  unfolding client_entry
  id_read =
      rw append_assoc
        (memcpy_uint-append front 8 (bswap 8 client.client_id) _ (bswap-lt 8 client.client_id))

  abbrev id_bytes : Bytes
  id_bytes = le_bytes 8 (bswap 8 client.client_id)

  abbrev size_bytes : Bytes
  size_bytes = le_bytes 2 (bswap 2 (length name % 2 ^ 16))

  length-front_id : length (front ++ id_bytes) ≡ length front + 8
  length-front_id = rw (length-append, length-le_bytes 8 (bswap 8 client.client_id))

  length-front_size : length ((front ++ id_bytes) ++ size_bytes) ≡ length front + 10
  length-front_size = omega (
    arith,
    length-append (front ++ id_bytes) size_bytes,
    length-front_id,
    length-le_bytes 2 (bswap 2 (length name % 2 ^ 16)),
  )

  size_back : bswap 2 (bswap 2 (length name % 2 ^ 16)) ≡ length name
  size_back = bswap-bswap 2 (length name % 2 ^ 16) (omega arith) ∙ omega arith

  size_read : memcpy_uint at_entry (length front + 8) 2 ≡ ok (bswap 2 (length name % 2 ^ 16))
  unfolding client_entry
  size_read =
      let flat : at_entry ≡ (front ++ id_bytes) ++ (size_bytes ++ (name ++ back)) =
        simp append_assoc in
      rw flat (
        rw length-front_id at (
          memcpy_uint-append (front ++ id_bytes) 2 (bswap 2 (length name % 2 ^ 16)) (name ++ back)
            (bswap-lt 2 (length name % 2 ^ 16))))

  name_read :
      read_bytes at_entry (length front + 10) (bswap 2 (bswap 2 (length name % 2 ^ 16))) ≡ ok name
  unfolding client_entry
  name_read =
      let flat : at_entry ≡ ((front ++ id_bytes) ++ size_bytes) ++ (name ++ back) =
        simp append_assoc in
      rw (size_back, flat)
        (rw length-front_size at (read_bytes-append ((front ++ id_bytes) ++ size_bytes) name back))

pub length-client_entry :
    (asking : ℕ) (client : ClientSocket)
    → length (client_entry asking client) ≡ 10 + length (shown_username asking client)
unfolding client_entry
length-client_entry asking client =
    rw (length-append, length-append, length-le_bytes 8 (bswap 8 client.client_id))
      (omega (arith, length-le_bytes 2 (bswap 2 (length (shown_username asking client) % 2 ^ 16))))

length-entries : (asking : ℕ) (all : List ClientSocket) → length all ≤ length (entries asking all)
length-entries asking [] = omega arith
length-entries asking (client ∷ rest) = omega (
  arith,
  length-append (client_entry asking client) (entries asking rest),
  length-client_entry asking client,
  length-entries asking rest,
)

loop-lines :
    (asking : ℕ) (all : List ClientSocket) (front : Bytes) (fuel offset : ℕ) (out : Bytes)
    → offset ≡ length front
    → length all ≤ fuel
    → All (IsListable asking) all
    → Replies.client_list_loop fuel (front ++ entries asking all) offset out
      ≡ ok (out ++ lines asking all)
loop-lines asking [] front fuel offset out o f v =
    finished fuel (front ++ []) offset out (rw append-nil (omega arith)) ∙ rw append-nil
loop-lines asking (client ∷ rest) front zero offset out o f v = elim f [ ]
loop-lines asking (client ∷ rest) front (suc fuel) offset out o f v =
    let entry = client_entry asking client in
    let name = shown_username asking client in
    let payload = front ++ (entry ++ entries asking rest) in
    let back = entries asking rest ++ (0 ∷ []) in
    let id = bswap 8 client.client_id in
    let size = bswap 2 (length name % 2 ^ 16) in
    let stored : storage payload ≡ front ++ (entry ++ back) = simp append_assoc in
    let named : bswap 2 size ≡ length name = size_back asking client front back v.0 in
    let numbered : bswap 8 id ≡ client.client_id = bswap-bswap 8 client.client_id v.0.0 in
    let place : length (front ++ entry) ≡ offset + 10 + length name =
      rw (length-append, length-client_entry asking client) (omega arith) in
    let fits : offset + 10 + bswap 2 size ≤ length payload = omega (
      arith,
      named,
      length-append front (entry ++ entries asking rest),
      length-append entry (entries asking rest),
      length-client_entry asking client,
    ) in
    let step =
      round fuel payload offset out id size name
        (rw (stored, o) (id_read asking client front back v.0))
        (rw (stored, o) (size_read asking client front back v.0))
        (rw (stored, o) (name_read asking client front back v.0)) fits in
    let next =
      loop-lines asking rest (front ++ entry) fuel (offset + 10 + length name)
        (out ++ entry_line client.client_id name) (sym place) (omega arith) v.1 in
    step
    ∙ rw (named, numbered, sym (append_assoc front entry (entries asking rest)))
        (next ∙ ap ok (append_assoc out (entry_line client.client_id name) (lines asking rest)))

pub client_list_round_trip :
    (asking ping_start now : ℕ) (first : ClientSocket) (rest : List ClientSocket)
    → All (IsListable asking) (first ∷ rest)
    → length (entries asking (first ∷ rest)) + 3 ≤ 4096
    → process_reply ping_start now (client_list_packet asking (first ∷ rest))
      ≡ ok (client_list err_ok (codes "[valid client list]\n" ++ lines asking (first ∷ rest)))
unfolding client_list_packet read_reply
client_list_round_trip asking ping_start now first rest v fits =
    let all = first ∷ rest in
    let packed : client_list_loop asking all [] ≡ entries asking all =
      client_list_loop-entries asking all [] in
    let test : leb (3 + length (entries asking all)) 4096 ≡ true = ground arith in
    let payload = le_bytes 1 err_ok ++ entries asking all in
    let error : memcpy_uint (storage payload) 0 1 ≡ ok 0 =
      rw append_assoc (memcpy_uint-append [] 1 0 (entries asking all ++ (0 ∷ [])) (omega arith)) in
    let loop =
      loop-lines asking all (le_bytes 1 err_ok) (length payload) 1 (codes "[valid client list]\n")
        (sym (length-le_bytes 1 0))
        (omega (
          arith,
          length-append (le_bytes 1 err_ok) (entries asking all),
          length-entries asking all,
        ))
        v in
    rw (packed, test)
      (process_reply-opcode ping_start now smsg_client_list payload (omega arith)
        ∙ rw (error, loop))
