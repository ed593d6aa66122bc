-- ===== src/Server/Watching.antt =====
-- Which descriptors the server watches, and that the bound given to `select` covers them.
use communo.Prelude.{
  ℕ, zero, suc, ◌≤◌, ◌<◌, ◌≡◌, refl, ◌⊎◌, inl, inr, true, false, List, [], ◌∷◌, ◌++◌, append_assoc,
  append-nil, some, arith, ℤ, pos, negsuc, ok, undefined, get_elem?, ltb, All, Bool-cases,
}
use communo.Server.{ClientSocket, World, clients}
use communo.Server.Pool.{fd_setsize, fd_add, is_positive, larger, pool_loop, pool_activity}

-- The descriptor that a client has, if it has one.
abbrev pub descriptor : ℤ → List ℕ
descriptor (negsuc n) = []
descriptor (pos zero) = []
descriptor (pos (suc n)) = suc n ∷ []

abbrev pub descriptors : List ClientSocket → List ℕ
descriptors [] = []
descriptors (client ∷ rest) = descriptor client.socket ++ descriptors rest

socket_cases :
    (z : ℤ) (top : ℕ)
    → ((descriptor z ≡ []) × (is_positive z ≡ false) × (larger (pos top) z ≡ pos top))
      ⊎ ((fd : ℕ) × (z ≡ pos fd)
          × (descriptor z ≡ fd ∷ [])
          × (is_positive z ≡ true)
          × ((top' : ℕ) × (larger (pos top) z ≡ pos top') × (top ≤ top') × (fd ≤ top')))
unfolding is_positive larger
socket_cases (negsuc n) top = inl (refl, refl, refl)
socket_cases (pos zero) top = inl (refl, ground arith, ground arith)
socket_cases (pos (suc n)) top = elim (Bool-cases (ltb top (suc n))) [
  | inl below ↦
      inr (suc n, refl, refl, ground arith, (suc n, rw below refl, ground arith, omega arith))
  | inr above ↦
      inr (suc n, refl, refl, ground arith, (top, rw above refl, omega arith, ground arith))
]

-- A client whose descriptor no set has room for.
abbrev TooLarge : List ClientSocket → Type 0
TooLarge all =
    (i : ℕ) × (client : ClientSocket) × (fd : ℕ) × (get_elem? all i ≡ some client)
    × (client.socket ≡ pos fd)
    × (fd_setsize ≤ fd)

pool_loop_watches :
    (all : List ClientSocket) (fds : List ℕ) (top : ℕ)
    → ((top' : ℕ) × (pool_loop all (fds, pos top) ≡ ok (fds ++ descriptors all, pos top'))
        × (top ≤ top')
        × All (λ fd. (fd ≤ top') × (fd < fd_setsize)) (descriptors all))
      ⊎ (TooLarge all × (pool_loop all (fds, pos top) ≡ undefined))
unfolding pool_loop fd_add
pool_loop_watches [] fds top = inl (top, rw append-nil refl, omega arith, tt)
pool_loop_watches (client ∷ rest) fds top = elim (socket_cases client.socket top) [
  | inl (empty, not_, same) ↦ elim (pool_loop_watches rest fds top) [
    | inl (top', e, more, all) ↦ inl (top', rw (not_, same, empty) e, more, rw empty all)
    | inr ((i, c, fd, there, s, h), e) ↦ inr ((suc i, c, fd, there, s, h), rw (not_, same) e)
  ]
  | inr (fd, is, desc, yes_, (top', new, le, le')) ↦ elim (Bool-cases (ltb fd fd_setsize)) [
    | inr large ↦ inr ((0, client, fd, refl, is, ground arith), rw (yes_, is, large) refl)
    | inl small ↦ elim (pool_loop_watches rest (fds ++ (fd ∷ [])) top') [
      | inl (last, e, more, all) ↦ inl (
        last,
        rw (yes_, new, desc, is, small) (rw append_assoc at e),
        omega arith,
        rw desc ((omega arith, ground arith), all),
      )
      | inr ((i, c, other, there, s, h), e) ↦
          inr ((suc i, c, other, there, s, h), rw (yes_, new, is, small) e)
    ]
  ]
]

-- Where the listening descriptor is one that a set has room for, 0 to 1023, the server watches it and the
-- descriptors of its clients, in their order, and the bound that it gives to `select`, one more than the
-- returned number, is above each of them; or else some client has a descriptor that no set has room for,
-- 1024 or more, and then watching it is undefined behaviour.
pub pool_activity_bounds :
    (master : ℕ) (w : World)
    → master < 1024
    → ((top : ℕ) × (pool_activity (pos master) w ≡ ok (master ∷ descriptors (clients w), pos top))
        × All (λ fd. (fd ≤ top) × (fd < 1024)) (master ∷ descriptors (clients w)))
      ⊎ ((i : ℕ) × (client : ClientSocket) × (fd : ℕ) × (get_elem? (clients w) i ≡ some client)
          × (client.socket ≡ pos fd)
          × (1024 ≤ fd)
          × (pool_activity (pos master) w ≡ undefined))
unfolding pool_activity fd_add
pool_activity_bounds master w h =
    let small : ltb master fd_setsize ≡ true = ground arith in
    elim (pool_loop_watches (clients w) (master ∷ []) master) [
      | inl (top, e, more, all) ↦ inl (top, rw small e, ((more, h), all))
      | inr ((i, client, fd, there, is, large), e) ↦
          inr (i, client, fd, there, is, large, rw small e)
    ]
