-- ===== src/Client/Reading.antt =====
-- The client's reading of replies: it ends, whatever the server sends.
use communo.Prelude.{
  ℕ, zero, suc, ◌+◌, ◌-◌, ◌≤◌, ◌≡◌, refl, Bool, true, false, not, List, [], ◌∷◌, ◌++◌, arith, ℤ,
  pos, negsuc, Bytes, Result, ok, bswap, length, ltb, leb, ◌==◌, if◌then◌else◌, Ends, returned,
  thrown, Any, if-Ends, bind-Ends, memcpy_uint-Ends, read_bytes-Ends, Bool-cases, inl, inr,
}
use communo.OpCodes.{
  smsg_motd, smsg_message, smsg_echo_request, smsg_addition_request, smsg_broadcast,
  smsg_client_list, smsg_private_msg_err, smsg_private_message, smsg_uptime, smsg_pong,
  smsg_counter, smsg_join_chat_room_ok, smsg_join_chat_room_err, smsg_say_ok, smsg_say_err,
  smsg_say,
}
use communo.SharedDefinitions.{err_ok}
use communo.Client.Replies.{
  storage, entry_line, client_list_loop, read_client_list, read_private_message, read_addition,
  read_reply, process_reply,
}
use communo.Client.Polling.{
  Poll, delivered, again, closed, broken, Read, Outcome, tls_read, process_reply_if_any, Thread,
  runs, ended, ended_program, next_round, reply_thread, returns, exits, Shown, socket_error,
}

list_loop-Ends :
    (fuel : ℕ) (payload : Bytes) (offset : ℕ) (out : Bytes)
    → length payload ≤ fuel + offset
    → Ends Any (client_list_loop fuel payload offset out)
unfolding client_list_loop
list_loop-Ends zero payload offset out h =
    let done : ltb offset (length payload) ≡ false = ground arith in rw done (returned tt)
list_loop-Ends (suc fuel) payload offset out h =
    if-Ends (ltb offset (length payload))
      (if-Ends (ltb (length payload) (offset + 8 + 2)) (returned tt) (
        bind-Ends (memcpy_uint-Ends (storage payload) offset 8) (λ id u.
          bind-Ends (memcpy_uint-Ends (storage payload) (offset + 8) 2) (λ size v.
            if-Ends (ltb (length payload) (offset + 10 + bswap 2 size)) (returned tt) (
              bind-Ends (read_bytes-Ends (storage payload) (offset + 10) (bswap 2 size)) (λ name x.
                list_loop-Ends fuel payload (offset + 10 + bswap 2 size)
                  (out ++ entry_line (bswap 8 id) name) (omega arith)))))))
      (returned tt)

client_list-Ends : (payload : Bytes) → Ends Any (read_client_list payload)
unfolding read_client_list
client_list-Ends payload = bind-Ends (memcpy_uint-Ends (storage payload) 0 1) (λ error u.
    if-Ends (error == err_ok)
      (bind-Ends (list_loop-Ends (length payload) payload 1 _ (omega arith)) (λ out v. returned tt))
      (returned tt))

read_reply-Ends :
    (ping_start now opcode : ℕ) (payload : Bytes)
    → Ends Any (read_reply ping_start now opcode payload)
unfolding read_reply read_private_message read_addition
read_reply-Ends ping_start now opcode payload =
    let byte = memcpy_uint-Ends (storage payload) 0 1 in
    let word = memcpy_uint-Ends (storage payload) 0 8 in
    if-Ends (opcode == smsg_echo_request) (returned tt) (
      if-Ends (opcode == smsg_message) (returned tt) (
        if-Ends (opcode == smsg_motd) (returned tt) (
          if-Ends (opcode == smsg_addition_request)
            (if-Ends (ltb (length payload) 8) thrown (bind-Ends word (λ value u. returned tt)))
            (if-Ends (opcode == smsg_broadcast) (returned tt) (
              if-Ends (opcode == smsg_client_list) (client_list-Ends payload) (
                if-Ends (opcode == smsg_private_msg_err) (bind-Ends byte (λ value u. returned tt)) (
                  if-Ends (opcode == smsg_private_message)
                    (bind-Ends word (λ id u. if-Ends (ltb (length payload) 8) thrown (returned tt)))
                    (if-Ends (opcode == smsg_pong) (returned tt) (
                      if-Ends (opcode == smsg_uptime) (returned tt) (
                        if-Ends (opcode == smsg_counter) (bind-Ends word (λ value u. returned tt)) (
                          if-Ends (opcode == smsg_join_chat_room_ok)
                            (bind-Ends byte (λ value u. returned tt))
                            (if-Ends (opcode == smsg_join_chat_room_err)
                              (bind-Ends byte (λ value u. returned tt))
                              (if-Ends (opcode == smsg_say_ok) (returned tt) (
                                if-Ends (opcode == smsg_say_err)
                                  (bind-Ends byte (λ value u. returned tt))
                                  (if-Ends (opcode == smsg_say) (returned tt)
                                    (returned tt))))))))))))))))

process_reply-Ends :
    (ping_start now : ℕ) (bytes : Bytes) → Ends Any (process_reply ping_start now bytes)
unfolding process_reply
process_reply-Ends ping_start now bytes =
    if-Ends (leb 2 (length bytes))
      (bind-Ends (memcpy_uint-Ends bytes 0 2) (λ opcode u.
        bind-Ends (read_bytes-Ends bytes 2 (length bytes - 2))
          (λ payload v. read_reply-Ends ping_start now (bswap 2 opcode) payload)))
      (returned tt)

-- What an outcome of one call says of what it met.
abbrev Explained : Poll → Outcome → Type 0
Explained p (returns shown) = Unit {0}
Explained p (exits code shown) = (code ≡ 1) × (p.error ≡ true)

tls_read-Ends : (p : Poll) → Ends (Explained p) (tls_read p)
unfolding tls_read
tls_read-Ends p = by_read p.read
  where
    by_read : (r : Read) → Ends (Explained p) (tls_read (record p { read = r }))
    by_read (delivered bytes) =
        bind-Ends (process_reply-Ends p.ping_start p.now bytes) (λ shown u. returned tt)
    by_read again = returned tt
    by_read closed = returned tt
    by_read broken = returned tt

by_error :
    (p : Poll) (failed : Bool) {rest : Result Outcome}
    → p.error ≡ failed
    → Ends (Explained p) rest
    → Ends (Explained p) (if failed then ok (exits 1 (socket_error ∷ [])) else rest)
by_error p true e h = returned (refl, e)
by_error p false e h = h

process_reply_if_any-Ends : (p : Poll) → Ends (Explained p) (process_reply_if_any p)
unfolding process_reply_if_any
process_reply_if_any-Ends p = by_result p.result
  where
    by_result : (z : ℤ) → Ends (Explained p) (process_reply_if_any (record p { result = z }))
    by_result (negsuc n) = if-Ends p.interrupted (returned tt) (returned tt)
    by_result (pos zero) = returned tt
    by_result (pos (suc n)) =
        if-Ends p.invalid (returned tt)
          (by_error p p.error refl (if-Ends (not p.ready) (returned tt) (tls_read-Ends p)))

-- What ended the thread.
abbrev pub EndedBy : (ℕ → Poll) → Thread → Type 0
EndedBy polls (runs out) = Unit {0}
EndedBy polls (ended out) = (i : ℕ) × ((polls i).running ≡ false)
EndedBy polls (ended_program code out) = (i : ℕ) × (code ≡ 1) × ((polls i).error ≡ true)

-- Whatever the server sends and whatever poll reports, any number of rounds of the thread that
-- shows replies comes to its end, if not by an exception or by undefined behaviour; and only the
-- flag of the program ends the thread, and only an error of the socket ends the program, with code
-- 1.
pub reply_thread-Ends :
    (polls : ℕ → Poll) (n k : ℕ) (out : List Shown)
    → Ends (EndedBy polls) (reply_thread polls n k out)
unfolding reply_thread
reply_thread-Ends polls zero k out = returned tt
reply_thread-Ends polls (suc n) k out = elim (Bool-cases (polls k).running) [
  | inr stopped ↦ rw (reply_thread, stopped) (returned (k, stopped))
  | inl running ↦
      rw (reply_thread, running)
        (bind-Ends (process_reply_if_any-Ends (polls k))
          (λ outcome why. after outcome why (reply_thread-Ends polls n (suc k))))
]
  where
    after :
        (outcome : Outcome)
        → Explained (polls k) outcome
        → ((shown : List Shown) → Ends (EndedBy polls) (reply_thread polls n (suc k) shown))
        → Ends (EndedBy polls) (next_round out (reply_thread polls n (suc k)) outcome)
    after (returns more) why later = later (out ++ more)
    after (exits code more) why later = returned (k, why.0, why.1)
