-- ===== src/Server/Erase.antt =====
-- `m_ClientSocket.erase(it)` as the library does it, by moves, against the removal of one element.
use communo.Prelude.{ℕ, zero, suc, ◌≡◌, refl, ap, List, [], ◌∷◌, ◌++◌, some, pos, length}
use communo.Server.{
  ClientSocket, Event, ssl_free, ssl_shutdown, shutdown_socket, close_socket, World, clients,
}
use communo.Server.Requests.{moved_from, shift_down, erase_at, drop_client, emit, set_clients}

-- The list without its element at `i`.
abbrev pub remove_at {ℓ} : {A : Type ℓ} → ℕ → List A → List A
remove_at i [] = []
remove_at zero (x ∷ xs) = xs
remove_at (suc i) (x ∷ xs) = x ∷ remove_at i xs

shift_down-rest : (hole : ClientSocket) (rest : List ClientSocket) → (shift_down hole rest).0 ≡ rest
unfolding shift_down
shift_down-rest hole [] = refl
shift_down-rest hole (client ∷ rest) = ap (◌∷◌ client) (shift_down-rest moved_from rest)

pub erase_at-remove_at : (i : ℕ) (all : List ClientSocket) → (erase_at i all).0 ≡ remove_at i all
unfolding erase_at
erase_at-remove_at zero [] = refl
erase_at-remove_at (suc i) [] = refl
erase_at-remove_at zero (client ∷ rest) = shift_down-rest client rest
erase_at-remove_at (suc i) (client ∷ rest) = ap (◌∷◌ client) (erase_at-remove_at i rest)

-- A hole that a move left behind holds nothing that the later moves could give up.
shift_down-moved_from : (rest : List ClientSocket) → (shift_down moved_from rest).1 ≡ []
unfolding shift_down
shift_down-moved_from [] = refl
shift_down-moved_from (client ∷ rest) = shift_down-moved_from rest

-- What follows on `SSL_free` when a client with the socket `fd` is erased: the last client of the
-- vector is destroyed, any other is moved over.
abbrev pub after_free : ℕ → ℕ → List ClientSocket → List Event
after_free ssl fd [] = ssl_shutdown ssl ∷ []
after_free ssl fd (client ∷ rest) = close_socket (pos fd) ∷ []

erase_events :
    (client : ClientSocket) (rest : List ClientSocket) (ssl fd : ℕ)
    → client.ssl ≡ some ssl
    → client.socket ≡ pos fd
    → (shift_down client rest).1 ≡ ssl_free ssl ∷ after_free ssl fd rest
unfolding shift_down
erase_events client [] ssl fd s f = rw s
erase_events client (next ∷ rest) ssl fd s f = rw (s, f, shift_down-moved_from rest)

erase_at-front :
    (front : List ClientSocket) (client : ClientSocket) (rest : List ClientSocket)
    → erase_at (length front) (front ++ (client ∷ rest))
      ≡ (front ++ (shift_down client rest).0, (shift_down client rest).1)
unfolding erase_at
erase_at-front [] client rest = refl
erase_at-front (c ∷ front) client rest = rw (erase_at-front front client rest)

-- A client with a TLS connection and a descriptor that disconnects is taken out of the list, and the
-- others stay, in their order. Its TLS state is freed once. But of the last client the freed state is
-- used once more, by `SSL_shutdown`, and of any other the descriptor is closed a second time.
pub drop_client_releases :
    (front : List ClientSocket) (client : ClientSocket) (rest : List ClientSocket) (ssl fd : ℕ)
    (w : World)
    → clients w ≡ front ++ (client ∷ rest)
    → client.ssl ≡ some ssl
    → client.socket ≡ pos fd
    → drop_client (length front) client w
      ≡ emit
          (shutdown_socket (pos fd) ∷ close_socket (pos fd) ∷ ssl_free ssl ∷ after_free ssl fd rest)
          (set_clients (front ++ rest) w)
unfolding drop_client
drop_client_releases front client rest ssl fd w c s f = rw (
  c,
  erase_at-front front client rest,
  shift_down-rest client rest,
  erase_events client rest ssl fd s f,
  f,
)
