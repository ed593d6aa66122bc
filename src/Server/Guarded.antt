-- ===== src/Server/Guarded.antt =====
-- A protected room, while the server runs.
use mathlib.Core.List.{Memᴰ}
use mathlib.Core.List.Memᴰ.{append_cases, eq_of_singleton}
use mathlib.Core.Path.{subst}
use communo.Prelude.{
  ℕ, suc, ◌+◌, ◌^◌, ◌<◌, ◌≡◌, ◌≢◌, ap, ◌⊎◌, inl, inr, false, List, [], Bytes, ℤ, ok,
}
use communo.Server.{World, DoubleArith, clients}
use communo.Server.Main.{Tick, round, is_closed}
use communo.Server.Running.{Safe}
use communo.Server.Reach.{Parts, Reach, next}
use communo.Server.View.{view}
use communo.Server.Entering.{Brought, requests-Brought}
use communo.Server.Traces.{Arrival, nobody, somebody, Traced, at_start, one_more, Reach-Traced}
use communo.Membership.{Request}
use communo.Membership.Entry.{IsIn, Stands, Opens, apply_all-IsIn}

module _ (who room : ℕ) (stored : Bytes) (lib : DoubleArith) (master : ℤ) (start : World) where
  -- In one of the rounds, the client with the number has sent the digest of the room.
  pub data Knew : (n : ℕ) (w : World) → Reach lib master start n w → Type 0 where
    now :
        {n : ℕ} {v w : World} {r : Reach lib master start n v}
        {running : is_closed v.server.server_state ≡ false} {tick : Tick}
        {e : round lib master tick v ≡ ok w}
        → (p : Parts lib master tick v w)
        → Brought who room stored tick.activity (clients p.accepted)
        → Knew (suc n) w (next r running tick e)
    earlier :
        {n : ℕ} {v w : World} {r : Reach lib master start n v}
        {running : is_closed v.server.server_state ≡ false} {tick : Tick}
        {e : round lib master tick v ≡ ok w}
        → Knew n v r
        → Knew (suc n) w (next r running tick e)

  -- Who connects asks for no room.
  pub Arrival-closed :
      {A : Type 0} (v accepted : World) (new : List (ℕ × Request)) (request : Request)
      → Arrival v accepted new
      → Opens room stored request
      → Memᴰ (who, request) new
      → A
  Arrival-closed v accepted [] request (nobody same) o m = elim m [ ]
  Arrival-closed v accepted _ request (somebody r) o m =
      let same = ap (λ p. p.1) (eq_of_singleton m) in absurd (cc (same, o.asked))

  pub Traced-Knew :
      (full : stored ≢ []) (n : ℕ) (w : World) (r : Reach lib master start n w)
      (trace : List (ℕ × Request)) (request : Request)
      → Traced lib master start n w r trace
      → Opens room stored request
      → Memᴰ (who, request) trace
      → Knew n w r
  Traced-Knew full n w r trace request at_start o m = elim m [ ]
  Traced-Knew full (suc n) w (next {v = v} r running tick e) trace request
        (one_more {earlier = before} {new = new} traced p arrival) o m =
      elim (append_cases before m) [
        | inl m' ↦ earlier (Traced-Knew full n v r before request traced o m')
        | inr m' ↦ elim (append_cases new m') [
          | inl first ↦ Arrival-closed v p.accepted new request arrival o first
          | inr later ↦ now p (
              requests-Brought who room stored tick.activity p.fds full (clients p.accepted) request
                o later)
        ]
      ]

  -- While the server runs from a safe start, for as many rounds as fit its counter of clients:
  -- whoever stands in a room that was protected at the start was in it then, or has sent, in one
  -- of the rounds, a packet of 35 bytes, a request to join the room with its stored digest.
  pub Reach-Guarded :
      (limit n : ℕ) (w : World)
      → stored ≢ []
      → Safe limit start
      → limit + n < 2 ^ 64
      → Stands room stored (view start)
      → (r : Reach lib master start n w) → IsIn room stored who (view w)
      → IsIn room stored who (view start) ⊎ Knew n w r
  Reach-Guarded limit n w full s fits stands r m =
      let (trace, traced, seen) = Reach-Traced lib master start limit n w s fits r in
      elim (apply_all-IsIn room stored trace who (view start) stands
        (subst (IsIn room stored who) seen m)) [
          | inl before ↦ inl before
          | inr (request, o, mem) ↦ inr (Traced-Knew full n w r trace request traced o mem)
        ]
