-- ===== src/Server/Simulation.antt =====
-- A pass of `ProcessRequests`, as the view of the server takes it.
use mathlib.Core.Path.{subst}
use communo.Prelude.{
  take, Ends-eq, ℕ, zero, suc, ◌+◌, ◌≤◌, ◌≡◌, refl, sym, ◌∙◌, ap, inl, inr, false, List, [], ◌∷◌,
  none, some, arith, Bytes, ℤ, map, length, get_elem?, drop, Option-cases, Ends, returned,
  bind-Ends, Ends-eq_ok,
}
use communo.Server.{ClientSocket, World, DoubleArith, clients}
use communo.Server.Requests.{
  buffer_size, Activity, quiet, unread, received, is_closing, drop_client, fill_buffer,
  serve_client, process_loop, process_requests,
}
use communo.Server.Erase.{remove_at, erase_at-remove_at}
use communo.Server.Frame.{stripped}
use communo.Server.Places.{length-connections}
use communo.Server.Admission.{Distinct}
use communo.Server.Lasting.{Distinct-stripped, stripped-Distinct}
use communo.Server.Join.{HashesWhole}
use communo.Server.Access.{serve_client-Fair}
use communo.Server.Passes.{
  serve_client-Ends, Activity-cases, round_gone, round_quiet, round_received, round_end,
}
use communo.Server.Iterator.{drop-remove_at, drop-at, drop-past, length-remove_at, inside}
use communo.Server.View.{
  packet_request-take, view, request_of, packet_request, membership, requests, membership-remove_at,
  Distinct-remove_at,
}
use communo.Server.Refine.{serve_client-Taken}
use communo.Membership.{disconnect, apply, apply_all}

requests-stripped :
    (env : ℤ → Activity) (n : ℕ) (all : List ClientSocket)
    → requests env (drop n (map stripped all)) ≡ requests env (drop n all)
requests-stripped env zero [] = refl
requests-stripped env zero (c ∷ all) =
    ap (◌∷◌ (c.client_id, request_of (env c.socket))) (requests-stripped env zero all)
requests-stripped env (suc n) [] = refl
requests-stripped env (suc n) (c ∷ all) = requests-stripped env n all

-- What a pass needs of the server: that it is not closing, that no two clients have one number, and
-- that the stored digests are absent or whole.
pub record Ready (w : World) : Type 0 where
  pub going : is_closing w.server.server_state ≡ false
  pub distinct : Distinct (clients w)
  pub whole : HashesWhole w.chat.chat_rooms

drop_client-clients :
    (i : ℕ) (client : ClientSocket) (w : World)
    → clients (drop_client i client w) ≡ remove_at i (clients w)
unfolding drop_client
drop_client-clients i client w = erase_at-remove_at i (clients w)

pub dropped_view :
    (i : ℕ) (client : ClientSocket) (w : World)
    → get_elem? (clients w) i ≡ some client
    → Distinct (clients w)
    → view (drop_client i client w) ≡ apply client.client_id disconnect (view w)
unfolding drop_client
dropped_view i client w there distinct =
    ap (λ members. record { members = members; rooms = (view w).rooms })
      (ap membership (drop_client-clients i client w)
        ∙ membership-remove_at (clients w) i client there distinct)

pub drop_client-Ready :
    (i : ℕ) (client : ClientSocket) (w : World) → Ready w → Ready (drop_client i client w)
unfolding drop_client
drop_client-Ready i client w ready = record {
  going = ready.going;
  distinct =
      subst Distinct (sym (drop_client-clients i client w))
        (Distinct-remove_at (clients w) i ready.distinct);
  whole = ready.whole;
}

-- Behind the place of a client that is dropped, the list is as before.
pub drop_client-rest :
    (i : ℕ) (client : ClientSocket) (w : World)
    → drop i (clients (drop_client i client w)) ≡ drop (suc i) (clients w)
drop_client-rest i client w =
    ap (drop i) (drop_client-clients i client w) ∙ drop-remove_at i (clients w)

module _ (lib : DoubleArith) (now : ℕ) (env : ℤ → Activity) where
  -- What serving does to the view, and what it leaves as a pass needs it.
  pub record Served (i : ℕ) (client : ClientSocket) (bytes : Bytes) (w w' : World) : Type 0 where
    pub ready : Ready w'
    pub taken : view w' ≡ apply client.client_id (packet_request bytes) (view w)
    pub later : requests env (drop (i + 1) (clients w')) ≡ requests env (drop (i + 1) (clients w))
    pub size : length (clients w') ≡ length (clients w)

  pub serve_client-Served :
      (i : ℕ) (client : ClientSocket) (bytes : Bytes) (w : World)
      → get_elem? (clients w) i ≡ some client
      → Ready w
      → Ends (Served i client bytes w) (serve_client lib now i client bytes w)
  unfolding fill_buffer
  serve_client-Served i client bytes w there r =
      Ends-eq (serve_client-Taken lib now i client bytes w there r.distinct r.whole) λ w' e t.
        let k = Ends-eq_ok w' (serve_client-Ends lib now i client bytes w there) e in
        let f = Ends-eq_ok w' (serve_client-Fair lib now i client bytes w there r.whole) e in
        record {
          ready = record {
            going = ap is_closing k.state ∙ r.going;
            distinct =
                stripped-Distinct (clients w')
                  (subst Distinct (sym k.connected) (Distinct-stripped (clients w) r.distinct));
            whole = f.whole;
          };
          taken = t;
          later =
              sym (requests-stripped env (i + 1) (clients w'))
              ∙ ap (λ all. requests env (drop (i + 1) all)) k.connected
              ∙ requests-stripped env (i + 1) (clients w);
          size =
              sym (length-connections (clients w'))
              ∙ ap length k.connected
              ∙ length-connections (clients w);
        }

  -- The view after the rest of a pass, from the iterator `i` on.
  abbrev Followed : ℕ → World → World → Type 0
  Followed i w w' = view w' ≡ apply_all (requests env (drop i (clients w))) (view w)

  abbrev Rest : ℕ → Type 0
  Rest fuel =
      (i : ℕ) (w : World)
      → Ready w
      → length (clients w) ≤ i + fuel
      → Ends (Followed i w) (process_loop lib now env fuel i w)

  module _ (fuel i : ℕ) (client : ClientSocket) (w : World) (ih : Rest fuel) (ready : Ready w)
      (enough : length (clients w) ≤ i + suc fuel)
      (there : get_elem? (clients w) i ≡ some client) where
    -- The request of the client at the iterator comes first.
    first :
        (a : Activity)
        → env client.socket ≡ a
        → (v w' : World) → view v ≡ apply client.client_id (request_of a) (view w)
        → view w' ≡ apply_all (requests env (drop (suc i) (clients w))) (view v)
        → Followed i w w'
    first a e v w' t f = f ∙ rw (drop-at i (clients w) client there, e, t) refl

    follow_gone :
        env client.socket ≡ unread → Ends (Followed i w) (process_loop lib now env (suc fuel) i w)
    follow_gone a =
        let v = drop_client i client w in
        let left = drop_client-clients i client w in
        let ready' = drop_client-Ready i client w ready in
        let shorter = length-remove_at i (clients w) client there in
        let size = ap length left in
        let change : view v ≡ apply client.client_id disconnect (view w) =
          dropped_view i client w there ready.distinct in
        rw (round_gone lib now env fuel i client w there ready.going a) (
          Ends-eq (ih i v ready' (omega (arith, enough, shorter, size))) λ w' e f.
            first unread a v w' change
              (f ∙ ap (λ all. apply_all (requests env all) (view v)) (drop_client-rest i client w)))

    follow_quiet :
        env client.socket ≡ quiet → Ends (Followed i w) (process_loop lib now env (suc fuel) i w)
    follow_quiet a =
        let same : i + 1 ≡ suc i = omega arith in
        rw (round_quiet lib now env fuel i client w there ready.going a) (
          Ends-eq (ih (i + 1) w ready (omega (arith, enough)))
            λ w' e f. first quiet a w w' refl (rw same at f))

    follow_received :
        (bytes : Bytes)
        → env client.socket ≡ received bytes
        → Ends (Followed i w) (process_loop lib now env (suc fuel) i w)
    follow_received bytes a =
        let same : i + 1 ≡ suc i = omega arith in
        rw (round_received lib now env fuel i client w there ready.going bytes a) (
          bind-Ends (serve_client-Served i client (take buffer_size bytes) w there ready) λ v s.
            Ends-eq (ih (i + 1) v s.ready (omega (arith, enough, s.size))) λ w' e f.
              first (received bytes) a v w'
                (s.taken ∙ ap (λ r. apply client.client_id r (view w)) (packet_request-take bytes))
                (f
                  ∙ ap (λ rs. apply_all rs (view v))
                      (s.later ∙ ap (λ n. requests env (drop n (clients w))) same)))

  follow_end :
      (fuel i : ℕ) (w : World)
      → get_elem? (clients w) i ≡ none
      → Ends (Followed i w) (process_loop lib now env fuel i w)
  follow_end fuel i w out =
      rw (round_end lib now env fuel i w out) (returned (rw (drop-past i (clients w) out) refl))

  loop-Followed : (fuel : ℕ) → Rest fuel
  loop-Followed zero i w ready enough = elim (Option-cases (get_elem? (clients w) i)) [
    | inl out ↦ follow_end zero i w out
    | inr (client, there) ↦ absurd (omega (arith, enough, inside i (clients w) client there))
  ]
  loop-Followed (suc fuel) i w ready enough = elim (Option-cases (get_elem? (clients w) i)) [
    | inl out ↦ follow_end (suc fuel) i w out
    | inr (client, there) ↦
        let ih = loop-Followed fuel in
        elim (Activity-cases (env client.socket)) [
          | inl a ↦ follow_gone fuel i client w ih ready enough there a
          | inr (inl a) ↦ follow_quiet fuel i client w ih ready enough there a
          | inr (inr (bytes, a)) ↦ follow_received fuel i client w ih ready enough there bytes a
        ]
  ]

-- From a server that is not closing, whose clients have numbers of their own and whose stored digests
-- are absent or whole, a pass over the clients ends, whatever they sent, and where it returns, the
-- view of the server is the one that the specification makes of the clients' requests, one after the
-- other in the order of the list: who is connected and in which room, and which rooms there are with
-- which digests.
pub process_requests-Followed :
    (lib : DoubleArith) (now : ℕ) (env : ℤ → Activity) (w : World)
    → Ready w
    → Ends
        (λ w'. view w' ≡ apply_all (requests env (clients w)) (view w))
        (process_requests lib now env w)
unfolding process_requests
process_requests-Followed lib now env w ready =
    loop-Followed lib now env (length (clients w)) 0 w ready (omega arith)
