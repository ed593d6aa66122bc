-- ===== src/Membership/Entry.antt =====
-- Who is in a room, by what was requested.
use mathlib.Core.List.{Memᴰ}
use communo.Prelude.{
  ℕ, ◌≡◌, refl, sym, ap, ◌⊎◌, inl, inr, true, List, [], ◌∷◌, some, arith, Bytes, ◌==◌, Bool-cases,
  Option-cases,
}
use communo.Membership.{
  View, Request, nothing, connect, disconnect, join, lets_in, apply, apply_unknown, apply_let_in,
  apply_refused, apply_all,
}

module _ (room : ℕ) (stored : Bytes) where
  -- A client is in the room, and the room stands with the digest.
  abbrev pub IsIn : ℕ → View → Type 0
  IsIn id v = v.members id ≡ some (some room)

  abbrev pub Stands : View → Type 0
  Stands v = v.rooms room ≡ some stored

  apply-Stands : (id : ℕ) (request : Request) (v : View) → Stands v → Stands (apply id request v)
  apply-Stands id nothing v s = s
  apply-Stands id connect v s = s
  apply-Stands id disconnect v s = s
  apply-Stands id (join other brought) v s = elim (Option-cases (v.rooms other)) [
    | inl e ↦ rw (apply_unknown id other brought v e) (elim (Bool-cases (room == other)) [
      | inl hit ↦ let same : room ≡ other = ground arith in absurd (cc (same, s, e))
      | inr miss ↦ rw miss s
    ])
    | inr (kept, e) ↦ elim (Bool-cases (lets_in kept brought)) [
      | inl l ↦ rw (apply_let_in id other brought v kept e l) s
      | inr l ↦ rw (apply_refused id other brought v kept e l) s
    ]
  ]

  -- A request by which a client comes into the room.
  pub record Opens (request : Request) : Type 0 where
    pub brought : Bytes
    pub asked : request ≡ join room brought
    pub allowed : lets_in stored brought ≡ true

  pub apply-IsIn :
      (id who : ℕ) (request : Request) (v : View)
      → Stands v
      → IsIn who (apply id request v)
      → IsIn who v ⊎ ((id ≡ who) × Opens request)
  apply-IsIn id who nothing v s m = inl m
  apply-IsIn id who connect v s m = elim (Bool-cases (who == id)) [
    | inl hit ↦ absurd (cc (rw hit at m))
    | inr miss ↦ inl (rw miss at m)
  ]
  apply-IsIn id who disconnect v s m = elim (Bool-cases (who == id)) [
    | inl hit ↦ absurd (cc (rw hit at m))
    | inr miss ↦ inl (rw miss at m)
  ]
  apply-IsIn id who (join other brought) v s m = elim (Option-cases (v.rooms other)) [
    | inl e ↦ inl (rw (apply_unknown id other brought v e) at m)
    | inr (kept, e) ↦ elim (Bool-cases (lets_in kept brought)) [
      | inr l ↦ inl (rw (apply_refused id other brought v kept e l) at m)
      | inl l ↦
          let n = rw (apply_let_in id other brought v kept e l) at m in
          elim (Bool-cases (who == id)) [
            | inr miss ↦ inl (rw miss at n)
            | inl hit ↦
                let one : id ≡ who = ground arith in
                let same : other ≡ room = cc (rw hit at n) in
                let digest : kept ≡ stored = cc (s, e, same) in
                inr (
                  one,
                  record { brought = brought; asked = rw same refl; allowed = rw digest at l },
                )
          ]
    ]
  ]

  pub apply_all-Stands :
      (requests : List (ℕ × Request)) (v : View) → Stands v → Stands (apply_all requests v)
  apply_all-Stands [] v s = s
  apply_all-Stands ((id, request) ∷ requests) v s =
      apply_all-Stands requests (apply id request v) (apply-Stands id request v s)

  -- Whoever is in a room after some requests was in it before, or has asked for it with what it wants.
  pub apply_all-IsIn :
      (requests : List (ℕ × Request)) (who : ℕ) (v : View)
      → Stands v
      → IsIn who (apply_all requests v)
      → IsIn who v ⊎ ((request : Request) × Opens request × Memᴰ (who, request) requests)
  apply_all-IsIn [] who v s m = inl m
  apply_all-IsIn ((id, request) ∷ requests) who v s m =
      elim (apply_all-IsIn requests who (apply id request v) (apply-Stands id request v s) m) [
        | inr (r, opens, mem) ↦ inr (r, opens, Memᴰ.tail mem)
        | inl n ↦ elim (apply-IsIn id who request v s n) [
          | inl before ↦ inl before
          | inr (same, opens) ↦ inr (request, opens, Memᴰ.head (ap (λ k. (k, request)) (sym same)))
        ]
      ]
