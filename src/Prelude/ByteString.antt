-- ===== src/Prelude/ByteString.antt =====
-- Byte strings: `std::string` contents, and the memory image of integers on a little-endian host.
use Prim.Native.Nat.{ℕ, zero, suc, ◌+◌, ◌*◌, ◌/◌, ◌%◌, ◌^◌, ◌<◌}
use Prim.Native.Char.{code}
use Prim.Native.String.{String}
use mathlib.Core.Path.{◌≡◌, refl, ap, ◌∙◌}
use mathlib.Core.Bool.{Bool, true, false, ◌&&◌}
use mathlib.Core.List.{List, [], ◌∷◌, reverse, reverse-reverse, reverse-cons}
use native.Mathlib.Omega.{arith}
use native.Mathlib.Nat.{pow-suc}
use communo.Prelude.Tests.{◌==◌, ltb, if◌then◌else◌}
use communo.Prelude.Lists.{length, length-append, All, All-append}

abbrev pub Bytes : Type 0
Bytes = List ℕ

abbrev pub AllBytes : Bytes → Type 0
AllBytes = All (λ b. b < 256)

-- The bytes of a literal, all ASCII.
abbrev pub codes : String → Bytes
codes String.[] = []
codes (String.◌∷◌ c s) = code c ∷ codes s

unfoldable pub bytes_eq : Bytes → Bytes → Bool
bytes_eq [] [] = true
bytes_eq [] (y ∷ ys) = false
bytes_eq (x ∷ xs) [] = false
bytes_eq (x ∷ xs) (y ∷ ys) = (x == y) && bytes_eq xs ys

pub bytes_eq_refl : (xs : Bytes) → bytes_eq xs xs ≡ true
unfolding bytes_eq
bytes_eq_refl [] = refl
bytes_eq_refl (x ∷ xs) = ground (arith, bytes_eq_refl xs)

-- The `w` bytes of an integer in memory, lowest first.
unfoldable pub le_bytes : ℕ → ℕ → Bytes
le_bytes zero n = []
le_bytes (suc w) n = (n % 256) ∷ le_bytes w (n / 256)

unfoldable pub of_le : Bytes → ℕ
of_le [] = 0
of_le (b ∷ bs) = b + 256 * of_le bs

pub length-le_bytes : (w n : ℕ) → length (le_bytes w n) ≡ w
unfolding le_bytes
length-le_bytes zero n = refl
length-le_bytes (suc w) n = ap suc (length-le_bytes w (n / 256))

pub AllBytes-le_bytes : (w n : ℕ) → AllBytes (le_bytes w n)
unfolding le_bytes
AllBytes-le_bytes zero n = tt
AllBytes-le_bytes (suc w) n = (omega arith, AllBytes-le_bytes w (n / 256))

pub of_le-le_bytes : (w n : ℕ) → n < 256 ^ w → of_le (le_bytes w n) ≡ n
unfolding le_bytes of_le
of_le-le_bytes zero n h = omega arith
of_le-le_bytes (suc w) n h = omega (arith, of_le-le_bytes w (n / 256) (omega arith))

pub le_bytes-of_le : (bs : Bytes) → AllBytes bs → le_bytes (length bs) (of_le bs) ≡ bs
unfolding le_bytes of_le
le_bytes-of_le [] h = refl
le_bytes-of_le (b ∷ bs) h = ground (arith, le_bytes-of_le bs h.1)

pub of_le-lt : (bs : Bytes) → AllBytes bs → of_le bs < 256 ^ length bs
unfolding of_le
of_le-lt [] h = omega arith
of_le-lt (b ∷ bs) h = omega (arith, of_le-lt bs h.1, h.0, pow-suc 256 (length bs))

AllBytes-reverse : (bs : Bytes) → AllBytes bs → AllBytes (reverse bs)
AllBytes-reverse [] h = tt
AllBytes-reverse (b ∷ bs) h =
    rw reverse-cons (All-append _ (reverse bs) (b ∷ []) (AllBytes-reverse bs h.1) (h.0, tt))

length-reverse : (bs : Bytes) → length (reverse bs) ≡ length bs
length-reverse [] = refl
length-reverse (b ∷ bs) =
    rw reverse-cons (omega (arith, length-append (reverse bs) (b ∷ []), length-reverse bs))

-- Swapping the byte order of a `w`-byte integer: `htons`, `ntohs` (2), `htobe64`, `be64toh` (8).
unfoldable pub bswap : ℕ → ℕ → ℕ
bswap w n = of_le (reverse (le_bytes w n))

swapped_length : (w n : ℕ) → length (reverse (le_bytes w n)) ≡ w
swapped_length w n = length-reverse (le_bytes w n) ∙ length-le_bytes w n

pub bswap-lt : (w n : ℕ) → bswap w n < 256 ^ w
unfolding bswap
bswap-lt w n =
    rw (swapped_length w n) at
      (of_le-lt (reverse (le_bytes w n)) (AllBytes-reverse _ (AllBytes-le_bytes w n)))

-- The memory image of a swapped integer is the integer's, reversed: highest byte first.
pub le_bytes-bswap : (w n : ℕ) → le_bytes w (bswap w n) ≡ reverse (le_bytes w n)
unfolding bswap
le_bytes-bswap w n =
    rw (swapped_length w n) at
      (le_bytes-of_le (reverse (le_bytes w n)) (AllBytes-reverse _ (AllBytes-le_bytes w n)))

pub bswap-bswap : (w n : ℕ) → n < 256 ^ w → bswap w (bswap w n) ≡ n
unfolding bswap
bswap-bswap w n h = rw (le_bytes-bswap w n, reverse-reverse (le_bytes w n)) (of_le-le_bytes w n h)

-- `std::to_string` of an unsigned integer: the decimal digits, on fuel above the number's length.
unfoldable pub digits : ℕ → ℕ → Bytes → Bytes
digits zero n out = out
digits (suc f) n out =
    let rest = digits f (n / 10) ((b'0' + n % 10) ∷ out) in
    if ltb n 10 then (b'0' + n) ∷ out else rest

unfoldable pub to_string : ℕ → Bytes
unfolding digits
to_string n = digits (suc n) n []

pub bytes_eq→eq : (xs ys : Bytes) → bytes_eq xs ys ≡ true → xs ≡ ys
unfolding bytes_eq
bytes_eq→eq [] [] h = refl
bytes_eq→eq [] (y ∷ ys) h = cc
bytes_eq→eq (x ∷ xs) [] h = cc
bytes_eq→eq (x ∷ xs) (y ∷ ys) h = ground (arith, bytes_eq→eq xs ys)
