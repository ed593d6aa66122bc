-- ===== src/Server/Traces.antt =====
-- The requests of a round and of a whole run, and what they make of the view of the server.
use mathlib.Core.Path.{fun_ext, subst}
use communo.Prelude.{
  ℕ, zero, suc, ◌+◌, ◌^◌, ◌<◌, ◌≡◌, refl, sym, ◌∙◌, ap, inl, inr, Bool, false, List, [], ◌∷◌, ◌++◌,
  none, some, arith, ℤ, All, ◌==◌, Bool-cases, Ends-eq_ok, ok,
}
use communo.Server.{ClientSocket, World, DoubleArith, clients}
use communo.Server.Requests.{is_closing}
use communo.Server.Admission.{Admitted, Accepted, Arrived}
use communo.Server.Main.{Tick, reported, finish_round, round, is_closed}
use communo.Server.Running.{Safe, finish_round-Finished}
use communo.Server.Passes.{process_requests-Passed}
use communo.Server.Join.{HashesWhole}
use communo.Server.Reach.{Parts, round-Parts, Parts-Accepted, Reach, here, next, Reach-Safe}
use communo.Server.View.{view, membership, passwords, requests}
use communo.Server.Refine.{same_view}
use communo.Server.Simulation.{Ready, process_requests-Followed}
use communo.Membership.{update, Request, connect, apply_all, apply_all-append}

membership_append :
    (all : List ClientSocket) (client : ClientSocket) (k : ℕ)
    → All (λ c. c.client_id < client.client_id) all
    → client.chat_room_joined ≡ false
    → membership (all ++ (client ∷ [])) k ≡ update client.client_id (some none) (membership all) k
membership_append [] client k below out = rw out refl
membership_append (c ∷ all) client k below out = elim (Bool-cases (k == c.client_id)) [
  | inl hit ↦ let miss : (k == client.client_id) ≡ false = ground arith in rw (hit, miss) refl
  | inr miss ↦ rw miss (membership_append all client k below.1 out)
]

-- What an acceptance asks of the view: nothing, or that one more client is there, in no room.
pub data Arrival (w w' : World) : List (ℕ × Request) → Type 0 where
  nobody : clients w' ≡ clients w → Arrival w w' []
  somebody : Arrived w w' → Arrival w w' ((w.server.unique_client_counter, connect) ∷ [])

-- After a connection to a safe server, its pass can begin.
pub Accepted-Ready : (limit : ℕ) (w w' : World) → Safe limit w → Accepted w w' → Ready w'
Accepted-Ready limit w w' s a = record {
  going = ap is_closing a.state ∙ s.going;
  distinct = a.admitted.distinct;
  whole = subst (λ c. HashesWhole c.chat_rooms) (sym a.chat) s.whole;
}

pub Accepted-view :
    (w w' : World)
    → Admitted w.server
    → Accepted w w'
    → (new : List (ℕ × Request)) × Arrival w w' new × (view w' ≡ apply_all new (view w))
Accepted-view w w' admitted a = elim a.arrived [
  | inl same ↦ ([], nobody same, same_view w w' same a.chat)
  | inr r ↦
      let next = w.server.unique_client_counter in
      let below : All (λ c. c.client_id < r.client.client_id) (clients w) =
        subst (λ n. All (λ c. c.client_id < n) (clients w)) (sym r.numbered) admitted.numbered in
      let members : membership (clients w') ≡ update next (some none) (membership (clients w)) =
        ap membership r.listed
        ∙ fun_ext (λ k. membership_append (clients w) r.client k below r.outside)
        ∙ ap (λ n. update n (some none) (membership (clients w))) r.numbered in
      (
        (next, connect) ∷ [],
        somebody r,
        ap (λ chat. record { members = membership (clients w'); rooms = passwords chat.chat_rooms })
              a.chat
            ∙ ap (λ m. record { members = m; rooms = (view w).rooms }) members,
      )
]

finish_round-view :
    (requested : Bool) (w : World)
    → is_closing w.server.server_state ≡ false
    → view (finish_round requested w) ≡ view w
finish_round-view requested w going =
    let f = finish_round-Finished requested w going in
    same_view w (finish_round requested w) f.sockets f.rooms

module _ (lib : DoubleArith) (master : ℤ) where
  -- The requests of a round: of the one who connects in it, and of the clients, in their order.
  abbrev pub heard : (tick : Tick) (w w' : World) → Parts lib master tick w w' → List (ℕ × Request)
  heard tick w w' p = requests (reported p.fds tick.activity) (clients p.accepted)

  round-view :
      (limit : ℕ) (tick : Tick) (w w' : World)
      → Safe limit w
      → limit + 1 < 2 ^ 64
      → (p : Parts lib master tick w w')
      → (new : List (ℕ × Request)) × Arrival w p.accepted new
        × (view w' ≡ apply_all (new ++ heard tick w w' p) (view w))
  round-view limit tick w w' s room p =
      let a = Parts-Accepted limit lib master tick w w' s room p in
      let (new, arrival, seen) = Accepted-view w p.accepted s.admitted a in
      let env = reported p.fds tick.activity in
      let going : is_closing p.accepted.server.server_state ≡ false =
        ap is_closing a.state ∙ s.going in
      let ready = Accepted-Ready limit w p.accepted s a in
      let followed =
        Ends-eq_ok p.served (process_requests-Followed lib tick.now env p.accepted ready)
          p.passed in
      let kept =
        Ends-eq_ok p.served (process_requests-Passed lib tick.now env p.accepted going) p.passed in
      (
        new,
        arrival,
        ap view (sym p.finished)
            ∙ finish_round-view tick.closing_requested p.served (ap is_closing kept.state ∙ going)
            ∙ followed
            ∙ ap (apply_all (heard tick w w' p)) seen
            ∙ sym (apply_all-append new (heard tick w w' p) (view w)),
      )

  module _ (start : World) where
    -- The requests of a run, round by round.
    pub data Traced
        : (n : ℕ) (w : World) → Reach lib master start n w → List (ℕ × Request) → Type 0 where
      at_start : Traced 0 start here []
      one_more :
          {n : ℕ} {v w : World} {r : Reach lib master start n v}
          {running : is_closed v.server.server_state ≡ false} {tick : Tick}
          {e : round lib master tick v ≡ ok w} {earlier new : List (ℕ × Request)}
          → Traced n v r earlier
          → (p : Parts lib master tick v w) → Arrival v p.accepted new
          → Traced (suc n) w (next r running tick e) (earlier ++ (new ++ heard tick v w p))

    -- While the server runs from a safe start, for as many rounds as fit its counter of clients, its
    -- view is what the specification makes of the requests of all rounds: in each, of the client
    -- that has connected, if one has, and then of the clients in the order of the list.
    pub Reach-Traced :
        (limit n : ℕ) (w : World)
        → Safe limit start
        → limit + n < 2 ^ 64
        → (r : Reach lib master start n w)
        → (trace : List (ℕ × Request)) × Traced n w r trace
          × (view w ≡ apply_all trace (view start))
    Reach-Traced limit zero w s fits here = ([], at_start, refl)
    Reach-Traced limit (suc n) w s fits (next {v = v} r running tick e) =
        let (earlier, traced, seen) = Reach-Traced limit n v s (omega arith) r in
        let before = Reach-Safe lib master start limit n v s (omega arith) r in
        let p = round-Parts lib master tick v w e in
        let (new, arrival, after) = round-view (limit + n) tick v w before (omega arith) p in
        let more = new ++ heard tick v w p in
        (
          earlier ++ more,
          one_more traced p arrival,
          after ∙ ap (apply_all more) seen ∙ sym (apply_all-append earlier more (view start)),
        )
