-- ===== src/Server/Daemon.antt =====
-- The daemon's descriptors.
use communo.Prelude.{
  ℤ, negsuc, ◌⊎◌, inl, inr, sym, ℕ, zero, suc, ◌+◌, ◌-◌, ◌≤◌, ◌≡◌, refl, ap, true, false, List,
  some, arith, pos, length, get_elem?, ltb_ℤ,
}
use communo.Server.Setup.{Process, goes_on, closed_from, max_fd, init_daemon}

length-closed_from : (n : ℕ) → length (closed_from n) ≡ n + 1
unfolding closed_from
length-closed_from zero = refl
length-closed_from (suc n) = omega (arith, length-closed_from n)

closed_from-at : (n i : ℕ) → i ≤ n → get_elem? (closed_from n) i ≡ some (n - i)
unfolding closed_from
closed_from-at zero zero h = refl
closed_from-at zero (suc i) h = absurd (omega (arith, h))
closed_from-at (suc n) zero h = ap some (omega arith)
closed_from-at (suc n) (suc i) h =
    let same : suc n - suc i ≡ n - i = omega arith in rw same (closed_from-at n i (omega arith))

-- The descriptor that closing begins with: the limit of the system, or 1024 where that has none.
abbrev pub StartsAt : ℤ → ℕ → Type 0
StartsAt limit top = (limit ≡ pos top) ⊎ ((k : ℕ) × (limit ≡ negsuc k) × (top ≡ 1024))

StartsAt-max_fd : (limit : ℤ) (top : ℕ) → StartsAt limit top → max_fd limit ≡ top
unfolding max_fd
StartsAt-max_fd limit top (inl is) = rw is refl
StartsAt-max_fd limit top (inr (k, is, same)) = rw is (sym same)

-- A process that becomes a daemon closes every descriptor from the limit of the system, or from
-- 1024 where that has none, down to 0, each once and in this order.
pub init_daemon_closes :
    (process : Process) (top fd : ℕ)
    → process.fork ≡ pos 0
    → ltb_ℤ process.setsid (pos 0) ≡ false
    → process.chdir ≡ pos 0
    → StartsAt process.limit top
    → fd ≤ top
    → (closed : List ℕ) × (init_daemon true process ≡ goes_on closed)
      × (length closed ≡ top + 1)
      × (get_elem? closed (top - fd) ≡ some fd)
unfolding init_daemon
init_daemon_closes process top fd child session root from h =
    let limit = StartsAt-max_fd process.limit top from in
    let same : top - (top - fd) ≡ fd = omega arith in
    (
      closed_from top,
      rw (child, session, root, limit) refl,
      length-closed_from top,
      rw same at (closed_from-at top (top - fd) (omega arith)),
    )
