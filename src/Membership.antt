-- ===== src/Membership.antt =====
-- What the server promises about rooms, less its lists, buffers and sockets: who is connected and in
-- which room, and which rooms there are, with their digests. Its client is Server/View.
pub mod Entry
use communo.Prelude.{
  ℕ, ◌≡◌, refl, true, false, Bool, List, [], ◌∷◌, ◌++◌, Option, none, some, Bytes, bytes_eq, ◌||◌,
  ◌==◌, if◌then◌else◌,
}
use communo.Chat.{is_empty}

-- `members`: nothing for a number that no client has, and for a client its room, if it is in one.
-- `rooms`: the digest of a room that there is; an open room has the empty one.
pub record View : Type 0 where
  pub members : ℕ → Option (Option ℕ)
  pub rooms : ℕ → Option Bytes

abbrev pub update {ℓ} : {A : Type ℓ} → ℕ → A → (ℕ → A) → ℕ → A
update key value f k = if k == key then value else f k

-- What one client does, as far as rooms are concerned.
pub data Request : Type 0 where
  nothing connect disconnect : Request
  join : ℕ → Bytes → Request

abbrev pub lets_in : Bytes → Bytes → Bool
lets_in stored brought = is_empty stored || bytes_eq stored brought

-- A room that nobody knew is an open room from then on, though this request is refused.
abbrev pub apply : ℕ → Request → View → View
apply id nothing v = v
apply id connect v = record v { members = update id (some none) v.members }
apply id disconnect v = record v { members = update id none v.members }
apply id (join room brought) v = elim (v.rooms room) [
  | none ↦ record v { rooms = update room (some []) v.rooms }
  | some stored ↦
      if lets_in stored brought
      then record v { members = update id (some (some room)) v.members }
      else v
]

module _ (id room : ℕ) (brought : Bytes) (v : View) where
  pub apply_unknown :
      v.rooms room ≡ none
      → apply id (join room brought) v ≡ record v { rooms = update room (some []) v.rooms }
  apply_unknown e = rw (apply, e) refl

  pub apply_let_in :
      (stored : Bytes)
      → v.rooms room ≡ some stored
      → lets_in stored brought ≡ true
      → apply id (join room brought) v
        ≡ record v { members = update id (some (some room)) v.members }
  apply_let_in stored e l = rw (apply, e, l) refl

  pub apply_refused :
      (stored : Bytes)
      → v.rooms room ≡ some stored
      → lets_in stored brought ≡ false
      → apply id (join room brought) v ≡ v
  apply_refused stored e l = rw (apply, e, l) refl

abbrev pub apply_all : List (ℕ × Request) → View → View
apply_all [] v = v
apply_all ((id, request) ∷ requests) v = apply_all requests (apply id request v)

pub apply_all-append :
    (a b : List (ℕ × Request)) (v : View) → apply_all (a ++ b) v ≡ apply_all b (apply_all a v)
apply_all-append [] b v = refl
apply_all-append ((id, request) ∷ a) b v = apply_all-append a b (apply id request v)
