-- ===== src/Server/Entering.antt =====
-- Whose packets ask for a room.
use mathlib.Core.List.{Memᴰ}
use communo.Prelude.{
  bytes_eq, bytes_eq→eq, ℕ, ◌≡◌, ◌≢◌, refl, sym, ◌∙◌, ap, inl, inr, true, List, [], ◌∷◌, Bytes, ℤ,
  Bool-cases,
}
use communo.Chat.{is_empty}
use communo.Server.{ClientSocket}
use communo.Server.Requests.{Activity, quiet, unread, received}
use communo.Server.Pool.{fd_isset}
use communo.Server.Main.{reported}
use communo.Server.View.{request_of, packet_request, requests}
use communo.Membership.{Request, join, lets_in}
use communo.Membership.Entry.{Opens}

-- Of the clients of a pass, the one with the number has sent a packet of 35 bytes, a request to join
-- the room that holds the room's own digest.
pub record Brought (who room : ℕ) (stored : Bytes) (activity : ℤ → Activity)
    (all : List ClientSocket) : Type 0 where
  pub client : ClientSocket
  pub bytes : Bytes
  pub listed : Memᴰ client all
  pub numbered : client.client_id ≡ who
  pub sent : activity client.socket ≡ received bytes
  pub asked : packet_request bytes ≡ join room stored

lets_in-protected : (stored hash : Bytes) → stored ≢ [] → lets_in stored hash ≡ true → stored ≡ hash
unfolding bytes_eq is_empty
lets_in-protected [] hash full l = absurd (full refl)
lets_in-protected (b ∷ stored) hash full l = bytes_eq→eq (b ∷ stored) hash l

Activity-joins :
    (a : Activity) (room : ℕ) (hash : Bytes)
    → request_of a ≡ join room hash
    → (bytes : Bytes) × (a ≡ received bytes) × (packet_request bytes ≡ join room hash)
Activity-joins quiet room hash e = absurd (cc)
Activity-joins unread room hash e = absurd (cc)
Activity-joins (received bytes) room hash e = (bytes, refl, e)

reported-received :
    (fds : List ℕ) (activity : ℤ → Activity) (socket : ℤ) (bytes : Bytes)
    → reported fds activity socket ≡ received bytes
    → activity socket ≡ received bytes
reported-received fds activity socket bytes e = elim (Bool-cases (fd_isset socket fds)) [
  | inl set_ ↦ rw set_ at e
  | inr unset ↦ absurd (cc (rw unset at e))
]

module _ (who room : ℕ) (stored : Bytes) (activity : ℤ → Activity) (fds : List ℕ)
    (full : stored ≢ []) where
  pub requests-Brought :
      (all : List ClientSocket) (request : Request)
      → Opens room stored request
      → Memᴰ (who, request) (requests (reported fds activity) all)
      → Brought who room stored activity all
  requests-Brought [] request o m = elim m [ ]
  requests-Brought (c ∷ all) request o (Memᴰ.head e) =
      let same : request_of (reported fds activity c.socket) ≡ request = sym (ap (λ p. p.1) e) in
      let (bytes, a, asked) =
        Activity-joins (reported fds activity c.socket) room o.brought (same ∙ o.asked) in
      record {
        client = c;
        bytes = bytes;
        listed = Memᴰ.head refl;
        numbered = sym (ap (λ p. p.0) e);
        sent = reported-received fds activity c.socket bytes a;
        asked = asked ∙ ap (join room) (sym (lets_in-protected stored o.brought full o.allowed));
      }
  requests-Brought (c ∷ all) request o (Memᴰ.tail m) =
      let b = requests-Brought all request o m in
      record {
        client = b.client;
        bytes = b.bytes;
        listed = Memᴰ.tail b.listed;
        numbered = b.numbered;
        sent = b.sent;
        asked = b.asked;
      }
