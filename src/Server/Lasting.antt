-- ===== src/Server/Lasting.antt =====
-- The list of clients during the passes over it.
use mathlib.Core.Path.{subst}
use communo.Prelude.{
  ℕ, ◌<◌, ◌≡◌, ◌≢◌, sym, false, List, [], ◌∷◌, ℤ, ok, map, All, Ends-eq_ok, inl, inr,
}
use communo.Server.{ClientSocket, World, DoubleArith, clients}
use communo.Server.Requests.{Activity, is_closing, process_requests}
use communo.Server.Frame.{stripped}
use communo.Server.Passes.{survivors, process_requests-Passed, Activity-cases}
use communo.Server.Admission.{Admitted, Distinct, IsSecure}

module _ (P : ClientSocket → Type 0) where
  All-stripped :
      ((c : ClientSocket) → P c → P (stripped c))
      → (all : List ClientSocket) → All P all
      → All P (map stripped all)
  All-stripped f [] h = tt
  All-stripped f (c ∷ all) h = (f c h.0, All-stripped f all h.1)

  stripped-All :
      ((c : ClientSocket) → P (stripped c) → P c)
      → (all : List ClientSocket) → All P (map stripped all)
      → All P all
  stripped-All f [] h = tt
  stripped-All f (c ∷ all) h = (f c h.0, stripped-All f all h.1)

  All-survivors :
      (env : ℤ → Activity) (all : List ClientSocket) → All P all → All P (survivors env all)
  All-survivors env [] h = tt
  All-survivors env (c ∷ all) h = elim (Activity-cases (env c.socket)) [
    | inl a ↦ rw (survivors, a) (All-survivors env all h.1)
    | inr (inl a) ↦ rw (survivors, a) (h.0, All-survivors env all h.1)
    | inr (inr (bytes, a)) ↦ rw (survivors, a) (h.0, All-survivors env all h.1)
  ]

pub Distinct-stripped : (all : List ClientSocket) → Distinct all → Distinct (map stripped all)
Distinct-stripped [] d = tt
Distinct-stripped (c ∷ all) d =
    (All-stripped (λ x. x.client_id ≢ c.client_id) (λ x h. h) all d.0, Distinct-stripped all d.1)

pub stripped-Distinct : (all : List ClientSocket) → Distinct (map stripped all) → Distinct all
stripped-Distinct [] d = tt
stripped-Distinct (c ∷ all) d =
    (stripped-All (λ x. x.client_id ≢ c.client_id) (λ x h. h) all d.0, stripped-Distinct all d.1)

Distinct-survivors :
    (env : ℤ → Activity) (all : List ClientSocket) → Distinct all → Distinct (survivors env all)
Distinct-survivors env [] d = tt
Distinct-survivors env (c ∷ all) d =
    let others = All-survivors (λ x. x.client_id ≢ c.client_id) env all d.0 in
    let apart = Distinct-survivors env all d.1 in
    elim (Activity-cases (env c.socket)) [
      | inl a ↦ rw (survivors, a) apart
      | inr (inl a) ↦ rw (survivors, a) (others, apart)
      | inr (inr (bytes, a)) ↦ rw (survivors, a) (others, apart)
    ]

-- A pass over the clients that returns keeps the list of clients admitted: each still has a TLS
-- connection and a number of its own, below the one that is next, whatever the clients sent and
-- whichever of them cannot be read from.
pub process_requests-Admitted :
    (lib : DoubleArith) (now : ℕ) (env : ℤ → Activity) (w w' : World)
    → is_closing w.server.server_state ≡ false
    → Admitted w.server
    → process_requests lib now env w ≡ ok w'
    → Admitted w'.server
process_requests-Admitted lib now env w w' open_ a e =
    let p = Ends-eq_ok w' (process_requests-Passed lib now env w open_) e in
    let next = w.server.unique_client_counter in
    let all = clients w in
    record {
      numbered =
          subst (λ n. All (λ c. c.client_id < n) (clients w')) (sym p.counted)
            (stripped-All (λ c. c.client_id < next) (λ c h. h) (clients w')
              (subst (All (λ c. c.client_id < next)) (sym p.connected) (
                All-survivors (λ c. c.client_id < next) env (map stripped all)
                  (All-stripped (λ c. c.client_id < next) (λ c h. h) all a.numbered))));
      distinct = stripped-Distinct (clients w') (
          subst Distinct (sym p.connected)
            (Distinct-survivors env (map stripped all) (Distinct-stripped all a.distinct)));
      secured =
          stripped-All IsSecure (λ c h. h) (clients w')
            (subst (All IsSecure) (sym p.connected) (
              All-survivors IsSecure env (map stripped all)
                (All-stripped IsSecure (λ c h. h) all a.secured)));
    }
