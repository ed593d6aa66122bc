-- ===== src/Server/Lookup.antt =====
-- The search of `CallHandlerMsgToClient` for a client.
use communo.Prelude.{
  ℕ, zero, suc, ◌≡◌, ◌≢◌, refl, true, false, List, [], ◌∷◌, none, some, arith, All, ◌==◌, get_elem?,
}
use communo.Server.{ClientSocket}
use communo.Server.Handlers.{find_client}
use communo.Server.Admission.{Distinct}

unlike : (m n : ℕ) → m ≢ n → (m == n) ≡ false
unlike m n h = ground arith

alike : (m n : ℕ) → m ≡ n → (m == n) ≡ true
alike m n h = ground arith

-- A number that no client has is not found.
pub find_client-absent :
    (id : ℕ) (all : List ClientSocket) → All (λ c. c.client_id ≢ id) all → find_client id all ≡ none
unfolding find_client
find_client-absent id [] h = refl
find_client-absent id (c ∷ all) h = rw (unlike c.client_id id h.0) (find_client-absent id all h.1)

All-there :
    (id : ℕ) (all : List ClientSocket) (j : ℕ) (found : ClientSocket)
    → All (λ c. c.client_id ≢ id) all
    → get_elem? all j ≡ some found
    → found.client_id ≢ id
All-there id [] j found h there = absurd (cc)
All-there id (c ∷ all) zero found h there = let same : c ≡ found = cc in rw same at h.0
All-there id (c ∷ all) (suc j) found h there = All-there id all j found h.1 there

-- The client with the number is found, wherever it stands, if the numbers are distinct.
pub find_client-at :
    (id : ℕ) (all : List ClientSocket) (j : ℕ) (found : ClientSocket)
    → Distinct all
    → get_elem? all j ≡ some found
    → found.client_id ≡ id
    → find_client id all ≡ some found
unfolding find_client
find_client-at id [] j found d there is = absurd (cc)
find_client-at id (c ∷ all) zero found d there is =
    let same : c ≡ found = cc in rw (alike c.client_id id (rw same is)) there
find_client-at id (c ∷ all) (suc j) found d there is =
    let other : c.client_id ≢ id = λ e. All-there c.client_id all j found d.0 there (rw e is) in
    rw (unlike c.client_id id other) (find_client-at id all j found d.1 there is)
