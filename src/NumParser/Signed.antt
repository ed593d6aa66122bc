-- ===== src/NumParser/Signed.antt =====
-- Integers of either sign, shown by `number_to_string` and parsed again.
use communo.Prelude.{
  ℕ, suc, ◌^◌, ◌≤◌, ◌<◌, ◌≡◌, refl, inl, inr, Bool, true, false, ◌∷◌, ℤ, pos, negsuc, arith,
  to_string, All, ok, some, ltb, IsSigned, ◌==◌, if◌then◌else◌,
}
use communo.NumParser.{
  Number, IsValid, int8, uint8, int16, uint16, int32, uint32, int64, uint64, float, double,
}
use communo.NumParser.Parse.{
  FloatText, contains, back, parse_number, parse_int64, from_chars_int64, parse_integer_number,
  parse_by_suffix, narrow_negative, starts_negative, has_hex_prefix,
}
use communo.NumParser.Show.{FloatShow, signed_string, number_to_string}
use communo.NumParser.Suffix.{IsDigit, IsLow, remove_suffix-low, All-IsLow-digits}
use communo.NumParser.RoundTrip.{
  smallest, to_string_cons, leading_number-to_string, All-IsDigit-to_string, contains-digits,
  back-IsDigit, parse_number-to_string,
}

-- The smallest signed type of a negative number.
abbrev pub smallest_signed : ℕ → Number
smallest_signed n =
    if ltb n (2 ^ 7)
    then int8 (negsuc n)
    else if ltb n (2 ^ 15)
    then int16 (negsuc n)
    else if ltb n (2 ^ 31)
    then int32 (negsuc n)
    else int64 (negsuc n)

narrow_negative-smallest : (n : ℕ) → narrow_negative (negsuc n) ≡ smallest_signed n
unfolding narrow_negative
narrow_negative-smallest n = ground arith

parse_int64-negative :
    (n : ℕ) → n < 2 ^ 63 → parse_int64 (b'-' ∷ to_string (suc n)) 10 ≡ some (negsuc n)
unfolding parse_int64 from_chars_int64
parse_int64-negative n h = rw (leading_number-to_string (suc n)) (ground arith)

parse_integer_number-negative :
    (n : ℕ) → n < 2 ^ 63 → parse_integer_number (b'-' ∷ to_string (suc n)) ≡ ok (smallest_signed n)
unfolding parse_integer_number parse_by_suffix starts_negative has_hex_prefix
parse_integer_number-negative n h =
    let low : All IsLow (b'-' ∷ to_string (suc n)) =
      (omega arith, All-IsLow-digits (to_string (suc n)) (All-IsDigit-to_string (suc n))) in
    let (c, s, e) = to_string_cons (suc n) in
    let no_hex : has_hex_prefix (b'-' ∷ to_string (suc n)) ≡ false = rw e refl in
    rw (
      remove_suffix-low (b'-' ∷ to_string (suc n)) low,
      no_hex,
      parse_int64-negative n h,
      narrow_negative-smallest n,
    )

parse_number-negative :
    (lib : FloatText) (n : ℕ)
    → n < 2 ^ 63
    → parse_number lib (b'-' ∷ to_string (suc n)) ≡ ok (smallest_signed n)
unfolding parse_number contains
parse_number-negative lib n h =
    let (c, s, e) = to_string_cons (suc n) in
    let all : All IsDigit (c ∷ s) = rw e at (All-IsDigit-to_string (suc n)) in
    let last = back-IsDigit c s all.0 all.1 in
    let not_f : (back c s == b'f') ≡ false = ground arith in
    let not_F : (back c s == b'F') ≡ false = ground arith in
    rw
      (
        e,
        not_f,
        not_F,
        contains-digits (c ∷ s) b'.' all (inl (omega arith)),
        contains-digits (c ∷ s) b'e' all (inr (omega arith)),
        contains-digits (c ∷ s) b'E' all (inr (omega arith)),
      )
      (rw e at (parse_integer_number-negative n h))

-- The number of the same value that `parse_number` picks.
abbrev pub smallest_of : ℤ → Number
smallest_of (pos n) = smallest n
smallest_of (negsuc n) = smallest_signed n

abbrev pub picked : Number → Number
picked (int8 z) = smallest_of z
picked (uint8 n) = smallest n
picked (int16 z) = smallest_of z
picked (uint16 n) = smallest n
picked (int32 z) = smallest_of z
picked (uint32 n) = smallest n
picked (int64 z) = smallest_of z
picked (uint64 n) = smallest n
picked (float b) = float b
picked (double b) = double b

abbrev pub is_integer : Number → Bool
is_integer (float b) = false
is_integer (double b) = false
is_integer _ = true

parse_number-signed_string :
    (lib : FloatText) (z : ℤ)
    → IsSigned (2 ^ 63) z
    → parse_number lib (signed_string z) ≡ ok (smallest_of z)
unfolding signed_string
parse_number-signed_string lib (pos n) h = parse_number-to_string lib n (omega (arith, h.0))
parse_number-signed_string lib (negsuc n) h = parse_number-negative lib n (omega (arith, h.1))

IsSigned-wide : (half : ℕ) (z : ℤ) → half ≤ 2 ^ 63 → IsSigned half z → IsSigned (2 ^ 63) z
IsSigned-wide half z h s = (omega (arith, s.0), omega (arith, s.1))

-- The text that `number_to_string` makes of a valid integer of any type is read by `parse_number` as an
-- integer of the same value: of the smallest unsigned type that holds it up to 32 bits, then int64_t,
-- then uint64_t; or, below zero, of the smallest signed type.
pub parse_number-number_to_string :
    (lib : FloatText) (shown : FloatShow) (num : Number)
    → IsValid num
    → is_integer num ≡ true
    → parse_number lib (number_to_string shown num) ≡ ok (picked num)
unfolding number_to_string
parse_number-number_to_string lib shown (int8 z) v i =
    parse_number-signed_string lib z (IsSigned-wide (2 ^ 7) z (omega arith) v)
parse_number-number_to_string lib shown (uint8 n) v i =
    parse_number-to_string lib n (omega (arith, v))
parse_number-number_to_string lib shown (int16 z) v i =
    parse_number-signed_string lib z (IsSigned-wide (2 ^ 15) z (omega arith) v)
parse_number-number_to_string lib shown (uint16 n) v i =
    parse_number-to_string lib n (omega (arith, v))
parse_number-number_to_string lib shown (int32 z) v i =
    parse_number-signed_string lib z (IsSigned-wide (2 ^ 31) z (omega arith) v)
parse_number-number_to_string lib shown (uint32 n) v i =
    parse_number-to_string lib n (omega (arith, v))
parse_number-number_to_string lib shown (int64 z) v i = parse_number-signed_string lib z v
parse_number-number_to_string lib shown (uint64 n) v i = parse_number-to_string lib n v
parse_number-number_to_string lib shown (float b) v i = absurd (cc)
parse_number-number_to_string lib shown (double b) v i = absurd (cc)
