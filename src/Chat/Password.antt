-- ===== src/Chat/Password.antt =====
-- Stored password hashes.
use communo.Prelude.{◌<◌, ◌≡◌, refl, false, [], ◌∷◌, arith, Bytes, length}
use communo.Chat.{is_empty}

pub is_empty-pos : (s : Bytes) → 0 < length s → is_empty s ≡ false
unfolding is_empty
is_empty-pos [] h = absurd (omega arith)
is_empty-pos (b ∷ s) h = refl
