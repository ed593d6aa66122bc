-- ===== src/Server/Midway.antt =====
-- Inside a pass over the clients: the worlds that it goes through, and how far its requests have come.
use communo.Prelude.{
  take, ℕ, suc, zero, ◌+◌, ◌≡◌, refl, sym, ◌∙◌, ap, List, [], ◌∷◌, ◌++◌, append_assoc, some, arith,
  Bytes, ℤ, ok, get_elem?, drop, Ends-eq_ok, ◌>>=◌,
}
use communo.Server.{ClientSocket, World, DoubleArith, clients}
use communo.Server.Requests.{
  buffer_size, Activity, quiet, unread, received, drop_client, serve_client, process_loop,
}
use communo.Server.Passes.{round_gone, round_quiet, round_received}
use communo.Server.Iterator.{drop-at}
use communo.Server.Simulation.{
  Ready, drop_client-Ready, drop_client-rest, dropped_view, serve_client-Served,
}
use communo.Server.View.{packet_request-take, view, request_of, requests}
use communo.Membership.{Request, apply, apply_all, apply_all-append}

module _ (lib : DoubleArith) (now : ℕ) (env : ℤ → Activity) (first : World) where
  -- After some rounds of the loop of `ProcessRequests`, the iterator and the world.
  pub data Underway : ℕ → ℕ → World → Type 0 where
    begins : Underway 0 0 first
    idle :
        {k i : ℕ} {w : World} {client : ClientSocket}
        → Underway k i w
        → get_elem? (clients w) i ≡ some client
        → env client.socket ≡ quiet
        → Underway (suc k) (i + 1) w
    lost :
        {k i : ℕ} {w : World} {client : ClientSocket}
        → Underway k i w
        → get_elem? (clients w) i ≡ some client
        → env client.socket ≡ unread
        → Underway (suc k) i (drop_client i client w)
    heard :
        {k i : ℕ} {w w' : World} {client : ClientSocket} {bytes : Bytes}
        → Underway k i w
        → get_elem? (clients w) i ≡ some client
        → env client.socket ≡ received bytes
        → serve_client lib now i client (take buffer_size bytes) w ≡ ok w'
        → Underway (suc k) (i + 1) w'

  -- The requests so far and the rest of them, and what the former did to the view.
  pub record Midway (i : ℕ) (w : World) : Type 0 where
    pub ready : Ready w
    pub trace : List (ℕ × Request)
    pub seen : view w ≡ apply_all trace (view first)
    pub rest : requests env (clients first) ≡ trace ++ requests env (drop i (clients w))

  advance :
      (i i' : ℕ) (client : ClientSocket) (a : Activity) (w v : World)
      → get_elem? (clients w) i ≡ some client
      → env client.socket ≡ a
      → Ready v
      → view v ≡ apply client.client_id (request_of a) (view w)
      → requests env (drop i' (clients v)) ≡ requests env (drop (suc i) (clients w))
      → Midway i w
      → Midway i' v
  advance i i' client a w v there e ready change behind m =
      let one = (client.client_id, request_of a) ∷ [] in
      let split : requests env (drop i (clients w)) ≡ one ++ requests env (drop i' (clients v)) =
        rw (drop-at i (clients w) client there, e, behind) refl in
      record {
        ready = ready;
        trace = m.trace ++ one;
        seen =
            change
            ∙ ap (apply client.client_id (request_of a)) m.seen
            ∙ sym (apply_all-append m.trace one (view first));
        rest =
            m.rest
            ∙ ap (λ rs. m.trace ++ rs) split
            ∙ sym (append_assoc m.trace one (requests env (drop i' (clients v))));
      }

  pub Underway-Midway : (k i : ℕ) (w : World) → Ready first → Underway k i w → Midway i w
  Underway-Midway zero i w r begins = record { ready = r; trace = []; seen = refl; rest = refl }
  Underway-Midway (suc k) i' v r (idle {i = i} {client = client} before there e) =
      let m = Underway-Midway k i v r before in
      let place : i + 1 ≡ suc i = omega arith in
      advance i (i + 1) client quiet v v there e m.ready refl
        (ap (λ n. requests env (drop n (clients v))) place) m
  Underway-Midway (suc k) i v r (lost {w = w} {client = client} before there e) =
      let m = Underway-Midway k i w r before in
      advance i i client unread w (drop_client i client w) there e
        (drop_client-Ready i client w m.ready) (dropped_view i client w there m.ready.distinct)
        (ap (requests env) (drop_client-rest i client w)) m
  Underway-Midway (suc k) i' v r
        (heard {i = i} {w = w} {client = client} {bytes = bytes} before there e served) =
      let m = Underway-Midway k i w r before in
      let place : i + 1 ≡ suc i = omega arith in
      let s =
        Ends-eq_ok v
          (serve_client-Served lib now env i client (take buffer_size bytes) w there m.ready)
          served in
      advance i (i + 1) client (received bytes) w v there e s.ready
        (s.taken ∙ ap (λ r'. apply client.client_id r' (view w)) (packet_request-take bytes))
        (s.later ∙ ap (λ n. requests env (drop n (clients w))) place) m

  -- The loop does go through these worlds: from each of them on, it is what it was from the start on.
  pub process_loop-Underway :
      (k i : ℕ) (w : World)
      → Ready first
      → Underway k i w
      → (fuel : ℕ) → process_loop lib now env (k + fuel) 0 first ≡ process_loop lib now env fuel i w
  process_loop-Underway zero i w r begins fuel =
      let none_yet : zero + fuel ≡ fuel = omega arith in rw none_yet refl
  process_loop-Underway (suc k) i' v r (idle {i = i} {client = client} before there e) fuel =
      let m = Underway-Midway k i v r before in
      let one : suc k + fuel ≡ k + suc fuel = omega arith in
      rw one (
        process_loop-Underway k i v r before (suc fuel)
        ∙ round_quiet lib now env fuel i client v there m.ready.going e)
  process_loop-Underway (suc k) i v r (lost {w = w} {client = client} before there e) fuel =
      let m = Underway-Midway k i w r before in
      let one : suc k + fuel ≡ k + suc fuel = omega arith in
      rw one (
        process_loop-Underway k i w r before (suc fuel)
        ∙ round_gone lib now env fuel i client w there m.ready.going e)
  process_loop-Underway (suc k) i' v r
        (heard {i = i} {w = w} {client = client} {bytes = bytes} before there e served) fuel =
      let m = Underway-Midway k i w r before in
      let one : suc k + fuel ≡ k + suc fuel = omega arith in
      rw one (
        process_loop-Underway k i w r before (suc fuel)
        ∙ round_received lib now env fuel i client w there m.ready.going bytes e
        ∙ ap (λ r'. r' >>= process_loop lib now env fuel (i + 1)) served)
