-- ===== src/Server/Running.antt =====
-- The server while it runs: what holds between the rounds of `main`, and how the loop ends.
use mathlib.Core.Path.{subst}
use communo.Prelude.{
  take, List, ◌++◌, ℕ, zero, suc, ◌+◌, ◌≤◌, ◌≡◌, refl, sym, ap, ◌∙◌, inl, inr, Bool, true, false,
  some, arith, ℤ, Bytes, ok, >>=-eq-ok, length, get_elem?, Option-cases, Bool-cases, Ends-eq_ok,
}
use communo.Server.{Event, ClientSocket, Server, World, DoubleArith, clients}
use communo.Server.Requests.{
  buffer_size, Activity, is_closing, drop_client, serve_client, process_loop, process_requests,
}
use communo.Server.Join.{HashesWhole}
use communo.Server.Access.{serve_client-Fair}
use communo.Server.Passes.{process_requests-Passed, Activity-cases}
use communo.Server.Admission.{Admitted, Accepted}
use communo.Server.Lasting.{process_requests-Admitted}
use communo.Server.Main.{Tick, closing_requested, all_close_events, finish_round, is_closed}

-- What dropping and serving clients keep, a pass keeps.
module _ (lib : DoubleArith) (now : ℕ) (env : ℤ → Activity) (P : World → Type 0)
    (drop_keeps : (i : ℕ) (client : ClientSocket) (w : World) → P w → P (drop_client i client w))
    (serve_keeps : (i : ℕ) (client : ClientSocket) (bytes : Bytes) (w w' : World)
      → get_elem? (clients w) i ≡ some client
      → P w
      → serve_client lib now i client bytes w ≡ ok w'
      → P w') where
  loop_keeps : (fuel i : ℕ) (w w' : World) → P w → process_loop lib now env fuel i w ≡ ok w' → P w'
  unfolding process_loop
  loop_keeps zero i w w' p e = elim (Option-cases (get_elem? (clients w) i)) [
    | inl out ↦ let same : w ≡ w' = cc (rw (process_loop, out) at e) in subst P same p
    | inr (client, there) ↦ absurd (cc (rw (process_loop, there) at e))
  ]
  loop_keeps (suc fuel) i w w' p e = elim (Option-cases (get_elem? (clients w) i)) [
    | inl out ↦ let same : w ≡ w' = cc (rw (process_loop, out) at e) in subst P same p
    | inr (client, there) ↦ elim (Bool-cases (is_closing w.server.server_state)) [
      | inl shut ↦
          loop_keeps fuel i (drop_client i client w) w' (drop_keeps i client w p)
            (rw (process_loop, there, shut) at e)
      | inr open_ ↦ elim (Activity-cases (env client.socket)) [
        | inl a ↦
            loop_keeps fuel i (drop_client i client w) w' (drop_keeps i client w p)
              (rw (process_loop, there, open_, a) at e)
        | inr (inl a) ↦ loop_keeps fuel (i + 1) w w' p (rw (process_loop, there, open_, a) at e)
        | inr (inr (bytes, a)) ↦
            let (v, served, rest) =
              >>=-eq-ok (serve_client lib now i client (take buffer_size bytes) w)
                (process_loop lib now env fuel (i + 1)) (rw (process_loop, there, open_, a) at e) in
            loop_keeps fuel (i + 1) v w'
              (serve_keeps i client (take buffer_size bytes) w v there p served) rest
      ]
    ]
  ]

abbrev WholeRooms : World → Type 0
WholeRooms w = HashesWhole w.chat.chat_rooms

process_requests-WholeRooms :
    (lib : DoubleArith) (now : ℕ) (env : ℤ → Activity) (w w' : World)
    → WholeRooms w
    → process_requests lib now env w ≡ ok w'
    → WholeRooms w'
unfolding process_requests drop_client
process_requests-WholeRooms lib now env w w' whole e =
    loop_keeps lib now env WholeRooms (λ i client u h. h)
      (λ i client bytes u u' there h served.
        (Ends-eq_ok u' (serve_client-Fair lib now i client bytes u there h) served).whole)
      (length (clients w)) 0 w w' whole e

-- What is true of the server between two rounds: its clients are admitted, at most `limit` have ever
-- been counted, the stored digests are absent or whole, and it is not about to close.
pub record Safe (limit : ℕ) (w : World) : Type 0 where
  pub admitted : Admitted w.server
  pub counted : w.server.unique_client_counter ≤ limit
  pub whole : WholeRooms w
  pub going : is_closing w.server.server_state ≡ false

Admitted-same :
    {s s' : Server}
    → s'.client_sockets ≡ s.client_sockets
    → s'.unique_client_counter ≡ s.unique_client_counter
    → Admitted s
    → Admitted s'
Admitted-same c n a = record {
  numbered = rw (c, n) a.numbered;
  distinct = rw c a.distinct;
  secured = rw c a.secured;
}

pub record Finished (requested : Bool) (w w' : World) : Type 0 where
  pub sockets : clients w' ≡ clients w
  count : w'.server.unique_client_counter ≡ w.server.unique_client_counter
  pub rooms : w'.chat ≡ w.chat
  going : is_closing w'.server.server_state ≡ false
  ended : requested ≡ true → is_closed w'.server.server_state ≡ true
  disconnected : requested ≡ true → w'.events ≡ w.events ++ all_close_events (clients w')
  kept : requested ≡ false → w'.server.server_state ≡ w.server.server_state

pub finish_round-Finished :
    (requested : Bool) (w : World)
    → is_closing w.server.server_state ≡ false
    → Finished requested w (finish_round requested w)
unfolding finish_round closing_requested
finish_round-Finished true w open_ = record {
  sockets = refl;
  count = refl;
  rooms = refl;
  going = refl;
  ended = λ e. refl;
  disconnected = λ e. refl;
  kept = λ e. cc;
}
finish_round-Finished false w open_ =
    let same : finish_round false w ≡ w = rw (finish_round, open_) in
    rw same (record {
      sockets = refl;
      count = refl;
      rooms = refl;
      going = open_;
      ended = λ e. cc;
      disconnected = λ e. cc;
      kept = λ e. refl;
    })

-- A round from a safe server to a safe one.
pub record Rounded (limit : ℕ) (tick : Tick) (w w' : World) : Type 0 where
  pub safe : Safe (limit + 1) w'
  pub ended : tick.closing_requested ≡ true → is_closed w'.server.server_state ≡ true
  pub disconnected :
      tick.closing_requested ≡ true
      → (earlier : List Event) × (w'.events ≡ earlier ++ all_close_events (clients w'))
  pub kept : tick.closing_requested ≡ false → w'.server.server_state ≡ w.server.server_state

pub served_round :
    (limit : ℕ) (lib : DoubleArith) (tick : Tick) (env : ℤ → Activity) (w accepted served : World)
    → Safe limit w
    → Accepted w accepted
    → process_requests lib tick.now env accepted ≡ ok served
    → Rounded limit tick w (finish_round tick.closing_requested served)
served_round limit lib tick env w accepted served s a e =
    let open_ : is_closing accepted.server.server_state ≡ false = ap is_closing a.state ∙ s.going in
    let p = Ends-eq_ok served (process_requests-Passed lib tick.now env accepted open_) e in
    let k = process_requests-Admitted lib tick.now env accepted served open_ a.admitted e in
    let h =
      process_requests-WholeRooms lib tick.now env accepted served
        (subst (λ c. HashesWhole c.chat_rooms) (sym a.chat) s.whole) e in
    let f = finish_round-Finished tick.closing_requested served (ap is_closing p.state ∙ open_) in
    record {
      safe = record {
        admitted = Admitted-same f.sockets f.count k;
        counted = omega (arith, a.counted, s.counted, p.counted, f.count);
        whole = subst (λ c. HashesWhole c.chat_rooms) (sym f.rooms) h;
        going = f.going;
      };
      ended = f.ended;
      disconnected = λ asked. (served.events, f.disconnected asked);
      kept = λ none. f.kept none ∙ p.state ∙ a.state;
    }
