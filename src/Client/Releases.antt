-- ===== src/Client/Releases.antt =====
-- What the client's set-up leaves for its destructor.
use communo.Prelude.{ℕ, ◌≡◌, ◌⊎◌, Bool, false, ◌&&◌, List, [], ◌∷◌, none, some}
use communo.Client.Setup.{Call, ssl_free, Network, Tls}

-- The server was reached.
abbrev pub reaches : Network → Bool
reaches network = network.address && network.connects

-- The context was made and takes its settings.
abbrev pub prepares : Tls → Bool
prepares tls = elim tls.ctx [ none ↦ false | some ctx ↦ tls.min_version && tls.trust_store ]

-- The handshake was done and the server is the one that was meant.
abbrev pub secures : Tls → Bool
secures tls = elim tls.ssl [
  | none ↦ false
  | some ssl ↦ tls.set_fd && (tls.set_host && (tls.handshake && tls.verified))
]

-- What a TLS connection that was made, and does not come about, leaves behind: it is freed.
abbrev pub FreesFailed : Tls → List Call → Type 0
FreesFailed tls freed =
    ((tls.ssl ≡ none) × (freed ≡ []))
    ⊎ ((ssl : ℕ) × (tls.ssl ≡ some ssl) × (freed ≡ ssl_free ssl ∷ []))
