-- ===== src/Server/Handshake.antt =====
-- The handshake of a new connection, and the greeting: how they end.
use communo.Prelude.{
  ℕ, zero, suc, ◌+◌, ◌*◌, ◌^◌, ◌≤◌, ◌≡◌, refl, Bool, true, false, List, [], ◌∷◌, Option, none, some,
  arith, Bytes, ok, out_of_fuel, leb, length, drop, length-drop, Bool-cases, Option-cases, inl, inr,
  ◌⊎◌,
}
use communo.Chat.{is_empty}
use communo.Server.{ClientSocket, Event, ssl_write, ssl_free}
use communo.Server.Requests.{close_events}
use communo.Server.Connect.{
  Wake, Round, accepted, refused, waiting, Incoming, goes_on, handshake, init_ssl, motd_loop,
}

-- At this round the handshake comes to its end: OpenSSL has decided, or the deadline is over.
abbrev pub Decides : ℕ → Round → Type 0
Decides deadline accepted = Unit {0}
Decides deadline refused = Unit {0}
Decides deadline (waiting now wake) = deadline ≤ now

Round-cases :
    (r : Round)
    → (r ≡ accepted) ⊎ ((r ≡ refused) ⊎ ((now : ℕ) × (wake : Wake) × (r ≡ waiting now wake)))
Round-cases accepted = inl refl
Round-cases refused = inr (inl refl)
Round-cases (waiting now wake) = inr (inr (now, wake, refl))

decided :
    (deadline now : ℕ) (wake : Wake) → Decides deadline (waiting now wake) → leb deadline now ≡ true
decided deadline now wake h = ground arith

pub handshake_ends :
    (deadline : ℕ) (rounds : ℕ → Round) (n k : ℕ)
    → Decides deadline (rounds (n + k))
    → (done : Bool) × (handshake deadline rounds (suc n) k ≡ ok done)
unfolding handshake
handshake_ends deadline rounds zero k d = elim (Round-cases (rounds k)) [
  | inl a ↦ (true, rw (handshake, a))
  | inr (inl r) ↦ (false, rw (handshake, r))
  | inr (inr (now, wake, e)) ↦
      let here : zero + k ≡ k = omega arith in
      let over : leb deadline now ≡ true = decided deadline now wake (rw (here, e) at d) in
      (false, rw (handshake, e, over))
]
handshake_ends deadline rounds (suc n) k d =
    let same : n + suc k ≡ suc n + k = omega arith in
    let (done, e) = handshake_ends deadline rounds n (suc k) (rw same d) in
    elim (Round-cases (rounds k)) [
      | inl a ↦ (true, rw (handshake, a))
      | inr (inl r) ↦ (false, rw (handshake, r))
      | inr (inr (now, wake, f)) ↦ elim (Bool-cases (leb deadline now)) [
        | inl over ↦ (false, rw (handshake, f, over))
        | inr early ↦ elim (Bool-cases (goes_on wake)) [
          | inl on ↦ (done, rw (handshake, f, early, on) e)
          | inr off ↦ (false, rw (handshake, f, early, off))
        ]
      ]
    ]

pub motd_ends :
    (writes : ℕ → Option ℕ) (ssl : Option ℕ) (fuel k : ℕ) (rest : Bytes)
    → length rest ≤ fuel
    → (events : List Event) × (motd_loop writes ssl fuel k rest ≡ ok events)
unfolding motd_loop is_empty
motd_ends writes ssl zero k [] h = ([], refl)
motd_ends writes ssl zero k (b ∷ rest) h = elim h [ ]
motd_ends writes ssl (suc fuel) k [] h = ([], refl)
motd_ends writes ssl (suc fuel) k (b ∷ rest) h = elim (Option-cases (writes k)) [
  | inl failed ↦ (ssl_write ssl (b ∷ rest) ∷ [], rw failed)
  | inr (n, wrote) ↦
      let (more, e) =
        motd_ends writes ssl fuel (suc k) (drop n rest) (omega (arith, length-drop n rest)) in
      (ssl_write ssl (b ∷ rest) ∷ more, rw (wrote, e))
]

pub handshake_cases :
    (deadline : ℕ) (rounds : ℕ → Round) (fuel k : ℕ)
    → ((done : Bool) × (handshake deadline rounds fuel k ≡ ok done))
      ⊎ (handshake deadline rounds fuel k ≡ out_of_fuel)
unfolding handshake
handshake_cases deadline rounds zero k = inr refl
handshake_cases deadline rounds (suc fuel) k = elim (Round-cases (rounds k)) [
  | inl a ↦ inl (true, rw (handshake, a))
  | inr (inl r) ↦ inl (false, rw (handshake, r))
  | inr (inr (now, wake, f)) ↦ elim (Bool-cases (leb deadline now)) [
    | inl over ↦ inl (false, rw (handshake, f, over))
    | inr early ↦ elim (Bool-cases (goes_on wake)) [
      | inr off ↦ inl (false, rw (handshake, f, early, off))
      | inl on ↦ elim (handshake_cases deadline rounds fuel (suc k)) [
        | inl (done, e) ↦ inl (done, rw (handshake, f, early, on) e)
        | inr e ↦ inr (rw (handshake, f, early, on) e)
      ]
    ]
  ]
]

-- The outcomes of `InitSSL`: the client holds a TLS connection and is as it was otherwise, or it
-- is refused; or the rounds of the handshake are used up.
pub init_ssl_cases :
    (incoming : Incoming) (fuel : ℕ) (client : ClientSocket)
    → ((ssl : ℕ) × (init_ssl incoming fuel 10 client
          ≡ ok (record client { ssl = some ssl; ssl_enabled = true }, (true, []))))
      ⊎ ((refused_client : ClientSocket) × (events : List Event) × (init_ssl incoming fuel 10 client
            ≡ ok (refused_client, (false, events))))
      ⊎ ((init_ssl incoming fuel 10 client ≡ out_of_fuel)
          × (handshake (incoming.now + 10 * 10 ^ 9) incoming.rounds fuel 0 ≡ out_of_fuel))
unfolding init_ssl
init_ssl_cases incoming fuel client = elim (Option-cases incoming.ssl) [
  | inl none_left ↦ inr (inl (record client { ssl = none }, close_events client, rw none_left))
  | inr (ssl, made) ↦ elim (Bool-cases incoming.fd_set) [
    | inr unset ↦
        inr
          (inl (record client { ssl = none }, ssl_free ssl ∷ close_events client, rw (made, unset)))
    | inl set ↦ elim (handshake_cases (incoming.now + 10 * 10 ^ 9) incoming.rounds fuel 0) [
      | inr e ↦ inr (inr (rw (made, set, e), e))
      | inl (done, e) ↦ elim (Bool-cases done) [
        | inl good ↦ inl (ssl, rw (made, set, e, good))
        | inr bad ↦ inr (
            inl (
              record client { ssl = none; ssl_enabled = false },
              ssl_free ssl ∷ [],
              rw (made, set, e, bad),
            ))
      ]
    ]
  ]
]
