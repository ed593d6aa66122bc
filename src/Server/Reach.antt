-- ===== src/Server/Reach.antt =====
-- What the server can come to, round after round.
use mathlib.Core.Path.{subst}
use communo.Prelude.{
  List, ℕ, zero, suc, ◌+◌, ◌^◌, ◌<◌, ◌≡◌, false, none, arith, ℤ, ok, >>=-eq-ok, if◌then◌else◌,
}
use communo.Server.{World, DoubleArith}
use communo.Server.Requests.{process_requests}
use communo.Server.Admission.{Accepted, handle_new_connections-Accepted}
use communo.Server.Connect.{handle_new_connections}
use communo.Server.Pool.{fd_isset, pool_activity}
use communo.Server.Main.{Tick, reported, finish_round, round, is_closed}
use communo.Server.Running.{Safe, Rounded, served_round}

-- What a round that returns has gone through.
pub record Parts (lib : DoubleArith) (master : ℤ) (tick : Tick) (w w' : World) : Type 0 where
  pub fds : List ℕ
  pub max_sd : ℤ
  pub accepted : World
  pub served : World
  pub pooled : pool_activity master w ≡ ok (fds, max_sd)
  pub taken :
      handle_new_connections (if fd_isset master fds then tick.incoming else none) tick.fuel w
      ≡ ok accepted
  pub passed : process_requests lib tick.now (reported fds tick.activity) accepted ≡ ok served
  pub finished : finish_round tick.closing_requested served ≡ w'

pub round-Parts :
    (lib : DoubleArith) (master : ℤ) (tick : Tick) (w w' : World)
    → round lib master tick w ≡ ok w'
    → Parts lib master tick w w'
unfolding round
round-Parts lib master tick w w' e =
    let ((fds, max_sd), pooled, e1) = >>=-eq-ok (pool_activity master w) _ e in
    let waiting_one = if fd_isset master fds then tick.incoming else none in
    let (accepted, taken, e2) = >>=-eq-ok (handle_new_connections waiting_one tick.fuel w) _ e1 in
    let (served, passed, e3) =
      >>=-eq-ok (process_requests lib tick.now (reported fds tick.activity) accepted) _ e2 in
    record {
      fds = fds;
      max_sd = max_sd;
      accepted = accepted;
      served = served;
      pooled = pooled;
      taken = taken;
      passed = passed;
      finished = cc e3;
    }

-- The connection of a round to a safe server.
pub Parts-Accepted :
    (limit : ℕ) (lib : DoubleArith) (master : ℤ) (tick : Tick) (w w' : World)
    → Safe limit w
    → limit + 1 < 2 ^ 64
    → (p : Parts lib master tick w w') → Accepted w p.accepted
Parts-Accepted limit lib master tick w w' s room p =
    handle_new_connections-Accepted (if fd_isset master p.fds then tick.incoming else none)
      tick.fuel w p.accepted s.admitted (omega (arith, s.counted)) p.taken

pub round-Rounded :
    (limit : ℕ) (lib : DoubleArith) (master : ℤ) (tick : Tick) (w w' : World)
    → Safe limit w
    → limit + 1 < 2 ^ 64
    → round lib master tick w ≡ ok w'
    → Rounded limit tick w w'
round-Rounded limit lib master tick w w' s room e =
    let p = round-Parts lib master tick w w' e in
    let a = Parts-Accepted limit lib master tick w w' s room p in
    subst (Rounded limit tick w) p.finished (
      served_round limit lib tick (reported p.fds tick.activity) w p.accepted p.served s a p.passed)

-- The worlds that the loop stands at, with the number of rounds it took to come there.
pub data Reach (lib : DoubleArith) (master : ℤ) (start : World) : ℕ → World → Type 0 where
  here : Reach lib master start 0 start
  next :
      {n : ℕ} {v w : World}
      → Reach lib master start n v
      → is_closed v.server.server_state ≡ false
      → (tick : Tick) → round lib master tick v ≡ ok w
      → Reach lib master start (suc n) w

-- Wherever the loop of the server stands, if it began with a safe server that had counted at most
-- `limit` connections, whatever connects and whatever the clients send: every client has a TLS
-- connection and a number of its own below the one that is next, at most one connection was counted
-- in each round, every digest in the table of rooms is absent or whole, and the server is not in
-- the state CLOSING. This for as many rounds as fit the counter.
pub Reach-Safe :
    (lib : DoubleArith) (master : ℤ) (start : World) (limit n : ℕ) (w : World)
    → Safe limit start
    → limit + n < 2 ^ 64
    → Reach lib master start n w
    → Safe (limit + n) w
Reach-Safe lib master start limit zero w s room here =
    let same : limit ≡ limit + 0 = omega arith in subst (λ l. Safe l start) same s
Reach-Safe lib master start limit (suc n) w s room (next {v = v} r running tick e) =
    let before = Reach-Safe lib master start limit n v s (omega arith) r in
    let after = (round-Rounded (limit + n) lib master tick v w before (omega arith) e).safe in
    let same : limit + n + 1 ≡ limit + suc n = omega arith in subst (λ l. Safe l w) same after
