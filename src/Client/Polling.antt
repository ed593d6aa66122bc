-- ===== src/Client/Polling.antt =====
-- src/client/Client.cpp: `processReplyFromServerIfAny` up to the packet, and the thread of `main` in
-- src/client/Main.cpp that calls it.
use communo.Prelude.{
  ℕ, zero, suc, Bool, not, List, [], ◌∷◌, ◌++◌, ℤ, pos, negsuc, Bytes, Result, ok, ◌>>=◌,
  if◌then◌else◌,
}
use communo.Client.Replies.{Reply, process_reply}

-- How `SSL_read` ends, as `SSL_get_error` tells: with bytes, or to be tried again, or because the server
-- has closed the connection, or by an error.
pub data Read : Type 0 where
  delivered : Bytes → Read
  again closed broken : Read

-- What one call meets: whether the flag of the program is still set, what `poll` returns and whether a
-- signal interrupted it, the events that it reports, what can be read, and the two times of a ping.
pub record Poll : Type 0 where
  pub running : Bool
  pub result : ℤ
  pub interrupted : Bool
  pub invalid : Bool
  pub error : Bool
  pub ready : Bool
  pub read : Read
  pub ping_start : ℕ
  pub now : ℕ

-- What the call leaves on the console.
pub data Shown : Type 0 where
  poll_failed invalid_socket socket_error server_disconnected read_failed : Shown
  reply : Reply → Shown

-- The outcome of the call: the program goes on, or `exit` ends it.
pub data Outcome : Type 0 where
  returns : List Shown → Outcome
  exits : ℕ → List Shown → Outcome

unfoldable pub tls_read : Poll → Result Outcome
tls_read p = elim p.read [
  | delivered bytes ↦ do
    shown ← process_reply p.ping_start p.now bytes
    ok (returns (reply shown ∷ []))
  | again ↦ ok (returns [])
  | closed ↦ ok (returns (server_disconnected ∷ []))
  | broken ↦ ok (returns (read_failed ∷ []))
]

unfoldable pub process_reply_if_any : Poll → Result Outcome
unfolding tls_read
process_reply_if_any p = elim p.result [
  | negsuc n ↦ if p.interrupted then ok (returns []) else ok (returns (poll_failed ∷ []))
  | pos count ↦ elim count [
    | zero ↦ ok (returns [])
    | suc n ↦
        if p.invalid
        then ok (returns (invalid_socket ∷ []))
        else if p.error
        then ok (exits 1 (socket_error ∷ []))
        else if not p.ready
        then ok (returns [])
        else tls_read p
  ]
]

-- The thread after some rounds: it still runs, or it ended with the flag, or it ended the program.
pub data Thread : Type 0 where
  runs ended : List Shown → Thread
  ended_program : ℕ → List Shown → Thread

abbrev pub next_round : List Shown → (List Shown → Result Thread) → Outcome → Result Thread
next_round out next (returns more) = next (out ++ more)
next_round out next (exits code more) = ok (ended_program code (out ++ more))

-- The first rounds of `while (g_Running)`, with what stands on the console.
unfoldable pub reply_thread : (ℕ → Poll) → ℕ → ℕ → List Shown → Result Thread
unfolding process_reply_if_any
reply_thread polls zero k out = ok (runs out)
reply_thread polls (suc n) k out =
    let round = process_reply_if_any (polls k) >>= next_round out (reply_thread polls n (suc k)) in
    if not (polls k).running then ok (ended out) else round
