-- ===== src/NumParser/Suffix.antt =====
-- `remove_suffix` on a text of digits, with a suffix or without.
use communo.Prelude.{
  ◌≢◌, All-drop, ℕ, ◌+◌, ◌-◌, ◌≤◌, ◌≡◌, false, [], ◌∷◌, arith, Bytes, codes, bytes_eq, bytes_eq→eq,
  length, drop, All, Bool-cases, inl, inr,
}
use communo.NumParser.Parse.{no_suffix, ends_with, remove_suffix}

abbrev pub IsDigit : ℕ → Type 0
IsDigit c = (b'0' ≤ c) × (c ≤ b'9')

-- The bytes of the suffixes in the source.
abbrev pub IsLetter : ℕ → Type 0
IsLetter c = b'9' + 1 ≤ c

-- A byte that is in none of them: a digit, or a sign.
abbrev pub IsLow : ℕ → Type 0
IsLow c = c ≤ b'9'

drop-low-letter :
    (n : ℕ) (s : Bytes) (c : ℕ) (t : Bytes) → All IsLow s → IsLetter c → drop n s ≢ c ∷ t
drop-low-letter n s c t h k e =
    let head : IsLow c × All IsLow t = rw e at (All-drop IsLow n s h) in omega arith

ends_with-low :
    (s : Bytes) (c : ℕ) (t : Bytes) → All IsLow s → IsLetter c → ends_with s (c ∷ t) ≡ false
unfolding ends_with
ends_with-low s c t h k =
    elim (Bool-cases (bytes_eq (drop (length s - length (c ∷ t)) s) (c ∷ t))) [
      | inl same ↦ absurd (drop-low-letter _ s c t h k (bytes_eq→eq _ _ same))
      | inr other ↦ rw other (ground arith)
    ]

pub remove_suffix-low : (s : Bytes) → All IsLow s → remove_suffix s ≡ (s, no_suffix)
unfolding remove_suffix
remove_suffix-low s h = rw (
  ends_with-low s b'U' (codes "LL") h (omega arith),
  ends_with-low s b'u' (codes "ll") h (omega arith),
  ends_with-low s b'U' (codes "L") h (omega arith),
  ends_with-low s b'u' (codes "l") h (omega arith),
  ends_with-low s b'L' (codes "L") h (omega arith),
  ends_with-low s b'l' (codes "l") h (omega arith),
  ends_with-low s b'U' [] h (omega arith),
  ends_with-low s b'u' [] h (omega arith),
  ends_with-low s b'L' [] h (omega arith),
  ends_with-low s b'l' [] h (omega arith),
)

pub All-IsLow-digits : (s : Bytes) → All IsDigit s → All IsLow s
All-IsLow-digits [] h = tt
All-IsLow-digits (c ∷ s) h = (h.0.1, All-IsLow-digits s h.1)

pub ends_with-digits :
    (s : Bytes) (c : ℕ) (t : Bytes) → All IsDigit s → IsLetter c → ends_with s (c ∷ t) ≡ false
ends_with-digits s c t h k = ends_with-low s c t (All-IsLow-digits s h) k

pub remove_suffix-digits : (s : Bytes) → All IsDigit s → remove_suffix s ≡ (s, no_suffix)
remove_suffix-digits s h = remove_suffix-low s (All-IsLow-digits s h)
