-- ===== src/Server/View.antt =====
-- The server as `Membership` sees it, and what its lists of clients and rooms are to that view.
use mathlib.Core.Path.{fun_ext, subst}
use communo.Prelude.{
  ap, ◌≤◌, ◌<◌, leb, take-all, length-take, ℕ, zero, suc, ◌≡◌, ◌≢◌, refl, inl, inr, true, false,
  ◌&&◌, List, [], ◌∷◌, ◌++◌, Option, none, some, arith, Bytes, ℤ, bswap, of_le, All, length,
  get_elem?, set, take, drop, ◌==◌, if◌then◌else◌, Bool-cases, Option-cases,
}
use communo.OpCodes.{cmsg_join_room}
use communo.Chat.{ChatRoom, Rooms, empty_room, find}
use communo.Chat.Subscript.{find-append, find-append_found}
use communo.Server.{ClientSocket, World, clients}
use communo.Server.Requests.{buffer_size, Activity, quiet, unread, received}
use communo.Server.Erase.{remove_at}
use communo.Server.Admission.{Distinct}
use communo.Membership.{View, update, Request, nothing, disconnect, join}

abbrev pub standing : ClientSocket → Option ℕ
standing client = if client.chat_room_joined then some client.joined_chat_room_id else none

abbrev pub membership : List ClientSocket → ℕ → Option (Option ℕ)
membership [] id = none
membership (client ∷ rest) id =
    if id == client.client_id then some (standing client) else membership rest id

abbrev pub digest_of : Option ChatRoom → Option Bytes
digest_of none = none
digest_of (some room) = some room.password_hash

abbrev pub passwords : Rooms → ℕ → Option Bytes
passwords rooms id = digest_of (find id rooms)

abbrev pub view : World → View
view w = record { members = membership (clients w); rooms = passwords w.chat.chat_rooms }

-- A packet of 35 bytes under the opcode of a join holds the room and the digest; nothing else that a
-- client sends is about rooms.
abbrev pub packet_request : Bytes → Request
packet_request bytes =
    if (length bytes == 35) && (bswap 2 (of_le (take 2 bytes)) == cmsg_join_room)
    then join (of_le (take 1 (drop 2 bytes))) (take 32 (drop 3 bytes))
    else nothing

unlike : (m n : ℕ) → m ≢ n → (m == n) ≡ false
unlike m n h = ground arith

fits : (n m : ℕ) → (leb n m ≡ true) → n ≤ m
fits n m h = ground arith

exceeds : (n m : ℕ) → (leb n m ≡ false) → m < n
exceeds n m h = ground arith

-- A packet of 35 bytes is not what a longer one is cut to.
packet_request-cut :
    (n : ℕ) (bytes : Bytes) → 35 < n → packet_request (take n bytes) ≡ packet_request bytes
packet_request-cut n bytes wide = elim (Bool-cases (leb (length bytes) n)) [
  | inl short ↦ ap packet_request (take-all n bytes (fits (length bytes) n short))
  | inr long ↦
      let size = length-take n bytes in
      let over = exceeds (length bytes) n long in
      let cut = unlike (length (take n bytes)) 35 (λ h. omega (arith, size, over, wide, h)) in
      let whole = unlike (length bytes) 35 (λ h. omega (arith, over, wide, h)) in
      rw (cut, whole) refl
]

pub packet_request-take :
    (bytes : Bytes) → packet_request (take buffer_size bytes) ≡ packet_request bytes
packet_request-take bytes = packet_request-cut buffer_size bytes (omega arith)

abbrev pub request_of : Activity → Request
request_of quiet = nothing
request_of unread = disconnect
request_of (received bytes) = packet_request bytes

-- The requests of a pass, in the order of the clients.
abbrev pub requests : (ℤ → Activity) → List ClientSocket → List (ℕ × Request)
requests env [] = []
requests env (client ∷ rest) =
    (client.client_id, request_of (env client.socket)) ∷ requests env rest

absent :
    (all : List ClientSocket) (id : ℕ) → All (λ c. c.client_id ≢ id) all → membership all id ≡ none
absent [] id h = refl
absent (c ∷ all) id h =
    let other : (id == c.client_id) ≡ false = ground arith in rw other (absent all id h.1)

All-at :
    (P : ClientSocket → Type 0) (all : List ClientSocket) (i : ℕ) (client : ClientSocket)
    → get_elem? all i ≡ some client
    → All P all
    → P client
All-at P [] i client there h = cc
All-at P (c ∷ all) zero client there h = let same : c ≡ client = ground arith in subst P same h.0
All-at P (c ∷ all) (suc i) client there h = All-at P all i client there h.1

membership_after_set :
    (all : List ClientSocket) (i : ℕ) (old new : ClientSocket) (k : ℕ)
    → get_elem? all i ≡ some old
    → new.client_id ≡ old.client_id
    → Distinct all
    → membership (set all i new) k ≡ update old.client_id (some (standing new)) (membership all) k
membership_after_set [] i old new k there same d = cc
membership_after_set (c ∷ all) zero old new k there same d =
    let here : c ≡ old = ground arith in
    elim (Bool-cases (k == old.client_id)) [
      | inl hit ↦ rw (same, hit) refl
      | inr miss ↦ rw (same, here, miss) refl
    ]
membership_after_set (c ∷ all) (suc i) old new k there same d =
    let apart = All-at (λ x. x.client_id ≢ c.client_id) all i old there d.0 in
    elim (Bool-cases (k == c.client_id)) [
      | inl hit ↦ let miss : (k == old.client_id) ≡ false = ground arith in rw (hit, miss) refl
      | inr miss ↦ rw miss (membership_after_set all i old new k there same d.1)
    ]

membership_after_removal :
    (all : List ClientSocket) (i : ℕ) (old : ClientSocket) (k : ℕ)
    → get_elem? all i ≡ some old
    → Distinct all
    → membership (remove_at i all) k ≡ update old.client_id none (membership all) k
membership_after_removal [] i old k there d = cc
membership_after_removal (c ∷ all) zero old k there d =
    let here : c ≡ old = ground arith in
    elim (Bool-cases (k == old.client_id)) [
      | inl hit ↦
          let e : k ≡ old.client_id = ground arith in
          rw (hit, e) (absent all old.client_id (rw here at d.0))
      | inr miss ↦ rw (here, miss) refl
    ]
membership_after_removal (c ∷ all) (suc i) old k there d =
    let apart = All-at (λ x. x.client_id ≢ c.client_id) all i old there d.0 in
    elim (Bool-cases (k == c.client_id)) [
      | inl hit ↦ let miss : (k == old.client_id) ≡ false = ground arith in rw (hit, miss) refl
      | inr miss ↦ rw miss (membership_after_removal all i old k there d.1)
    ]

pub passwords-append :
    (rooms : Rooms) (id : ℕ)
    → find id rooms ≡ none
    → passwords (rooms ++ ((id, empty_room) ∷ [])) ≡ update id (some []) (passwords rooms)
passwords-append rooms id h = fun_ext λ k. elim (Option-cases (find k rooms)) [
  | inl f ↦ rw (find-append k id empty_room rooms f) (elim (Bool-cases (id == k)) [
    | inl hit ↦ let e : (k == id) ≡ true = ground arith in rw (hit, e) refl
    | inr miss ↦ let e : (k == id) ≡ false = ground arith in rw (miss, e, f) refl
  ])
  | inr (room, f) ↦ elim (Bool-cases (k == id)) [
    | inl hit ↦ let e : k ≡ id = ground arith in absurd (cc (e, f, h))
    | inr miss ↦ rw (find-append_found k id empty_room room rooms f, miss, f) refl
  ]
]

pub membership-set :
    (all : List ClientSocket) (i : ℕ) (old new : ClientSocket)
    → get_elem? all i ≡ some old
    → new.client_id ≡ old.client_id
    → Distinct all
    → membership (set all i new) ≡ update old.client_id (some (standing new)) (membership all)
membership-set all i old new there same d =
    fun_ext λ k. membership_after_set all i old new k there same d

pub membership-remove_at :
    (all : List ClientSocket) (i : ℕ) (old : ClientSocket)
    → get_elem? all i ≡ some old
    → Distinct all
    → membership (remove_at i all) ≡ update old.client_id none (membership all)
membership-remove_at all i old there d = fun_ext λ k. membership_after_removal all i old k there d

All-set :
    (P : ClientSocket → Type 0) (all : List ClientSocket) (i : ℕ) (new : ClientSocket)
    → All P all
    → P new
    → All P (set all i new)
All-set P [] i new h p = tt
All-set P (c ∷ all) zero new h p = (p, h.1)
All-set P (c ∷ all) (suc i) new h p = (h.0, All-set P all i new h.1 p)

pub Distinct-set :
    (all : List ClientSocket) (i : ℕ) (old new : ClientSocket)
    → get_elem? all i ≡ some old
    → new.client_id ≡ old.client_id
    → Distinct all
    → Distinct (set all i new)
Distinct-set [] i old new there same d = tt
Distinct-set (c ∷ all) zero old new there same d =
    let here : c ≡ old = ground arith in
    let e : new.client_id ≡ c.client_id = rw here same in (rw e d.0, d.1)
Distinct-set (c ∷ all) (suc i) old new there same d =
    let apart = All-at (λ x. x.client_id ≢ c.client_id) all i old there d.0 in
    (
      All-set (λ x. x.client_id ≢ c.client_id) all i new d.0 (rw same apart),
      Distinct-set all i old new there same d.1,
    )

All-remove_at :
    (P : ClientSocket → Type 0) (all : List ClientSocket) (i : ℕ)
    → All P all
    → All P (remove_at i all)
All-remove_at P [] i h = tt
All-remove_at P (c ∷ all) zero h = h.1
All-remove_at P (c ∷ all) (suc i) h = (h.0, All-remove_at P all i h.1)

pub Distinct-remove_at :
    (all : List ClientSocket) (i : ℕ) → Distinct all → Distinct (remove_at i all)
Distinct-remove_at [] i d = tt
Distinct-remove_at (c ∷ all) zero d = d.1
Distinct-remove_at (c ∷ all) (suc i) d =
    (All-remove_at (λ x. x.client_id ≢ c.client_id) all i d.0, Distinct-remove_at all i d.1)
