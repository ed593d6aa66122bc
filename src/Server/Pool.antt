-- ===== src/Server/Pool.antt =====
-- `PoolActivity`: which descriptors are watched.
use communo.Prelude.{
  ℕ, Bool, false, ◌||◌, List, [], ◌∷◌, ◌++◌, ℤ, pos, negsuc, Result, ok, undefined, ◌>>=◌, ltb,
  ◌==◌, if◌then◌else◌,
}
use communo.Server.{ClientSocket, World, clients}

-- glibc's `FD_SETSIZE`; `FD_SET` of a descriptor outside a set is undefined.
abbrev pub fd_setsize : ℕ
fd_setsize = 1024

unfoldable pub fd_add : ℤ → List ℕ → Result (List ℕ)
fd_add (negsuc n) fds = undefined
fd_add (pos fd) fds = if ltb fd fd_setsize then ok (fds ++ (fd ∷ [])) else undefined

unfoldable pub is_positive : ℤ → Bool
is_positive (pos n) = ltb 0 n
is_positive (negsuc n) = false

-- `if (itr.socket > max_sd) max_sd = itr.socket`
unfoldable pub larger : ℤ → ℤ → ℤ
larger (pos a) (pos b) = if ltb a b then pos b else pos a
larger (pos a) (negsuc b) = pos a
larger (negsuc a) (pos b) = pos b
larger (negsuc a) (negsuc b) = if ltb b a then negsuc b else negsuc a

unfoldable pub pool_loop : List ClientSocket → List ℕ × ℤ → Result (List ℕ × ℤ)
unfolding fd_add is_positive larger
pool_loop [] fds = ok fds
pool_loop (client ∷ rest) (fds, max_sd) = do
  fds' ← (if is_positive client.socket then fd_add client.socket fds else ok fds)
  pool_loop rest (fds', larger max_sd client.socket)

-- The set given to `select`, and the largest descriptor; `select` gets that and one as its bound.
unfoldable pub pool_activity : ℤ → World → Result (List ℕ × ℤ)
unfolding pool_loop
pool_activity master w = do fds ← fd_add master []; pool_loop (clients w) (fds, master)

-- `FD_ISSET`
unfoldable pub fd_isset : ℤ → List ℕ → Bool
fd_isset (negsuc n) fds = false
fd_isset (pos fd) [] = false
fd_isset (pos fd) (other ∷ fds) = (other == fd) || fd_isset (pos fd) fds
