-- ===== src/NumParser/RoundTrip.antt =====
-- `parse_integer_number` and `parse_number` on the decimal text of a number.
use communo.Prelude.{
  ◌⊎◌, ◌==◌, pos, if◌then◌else◌, Bool-cases, inl, inr, ℕ, zero, suc, ◌+◌, ◌-◌, ◌*◌, ◌/◌, ◌%◌, ◌^◌,
  ◌<◌, ◌≡◌, refl, ◌∙◌, false, [], ◌∷◌, arith, Bytes, to_string, digits, All, ok, some, ltb,
}
use communo.NumParser.{Number, uint8, uint16, uint32, uint64, int64}
use communo.NumParser.Parse.{
  FloatText, contains, back, parse_number, digit_value, scan_digits, leading_number, parse_uint64,
  from_chars_uint64, parse_integer_number, parse_by_suffix, narrow_positive, starts_negative,
  has_hex_prefix,
}
use communo.NumParser.Suffix.{IsDigit, remove_suffix-digits}

digit_value-digit : (n : ℕ) → n < 10 → digit_value 10 (b'0' + n) ≡ some n
unfolding digit_value
digit_value-digit n h = ground arith

All-IsDigit-digits : (f n : ℕ) (out : Bytes) → All IsDigit out → All IsDigit (digits f n out)
unfolding digits
All-IsDigit-digits zero n out h = h
All-IsDigit-digits (suc f) n out h =
    ground (arith, All-IsDigit-digits f (n / 10) ((b'0' + n % 10) ∷ out) (omega arith, h))

scan_digits_step :
    (n d : ℕ) (s : Bytes)
    → d < 10
    → scan_digits 10 n ((b'0' + d) ∷ s) ≡ scan_digits 10 (n * 10 + d) s
unfolding scan_digits
scan_digits_step n d s h = rw (digit_value-digit d h, scan_digits)

-- Reading the digits of `n` is going on behind `n`.
scan_digits-digits :
    (f n : ℕ) (out : Bytes) → n < f → scan_digits 10 0 (digits f n out) ≡ scan_digits 10 n out
unfolding digits
scan_digits-digits zero n out h = absurd (omega arith)
scan_digits-digits (suc f) n out h = ground (
  arith,
  scan_digits_step 0 n out,
  scan_digits_step (n / 10) (n % 10) out,
  scan_digits-digits f (n / 10) ((b'0' + n % 10) ∷ out),
)

digits_cons : (f n : ℕ) (out : Bytes) → (c : ℕ) × (s : Bytes) × (digits (suc f) n out ≡ c ∷ s)
unfolding digits
digits_cons zero n out = elim (Bool-cases (ltb n 10)) [
  | inl e ↦ (b'0' + n, out, rw e)
  | inr e ↦ (b'0' + n % 10, out, rw e)
]
digits_cons (suc f) n out = elim (Bool-cases (ltb n 10)) [
  | inl e ↦ (b'0' + n, out, rw e)
  | inr e ↦ rw e (digits_cons f (n / 10) ((b'0' + n % 10) ∷ out))
]

scan_digits_first :
    (c : ℕ) (s : Bytes) → IsDigit c → scan_digits 10 0 (c ∷ s) ≡ scan_digits 10 (c - b'0') s
scan_digits_first c s h =
    let e : b'0' + (c - b'0') ≡ c = omega arith in
    let z : 0 * 10 + (c - b'0') ≡ c - b'0' = omega arith in
    rw (e, z) at (scan_digits_step 0 (c - b'0') s (omega arith))

leading_number-digit :
    (c : ℕ) (s : Bytes) → IsDigit c → leading_number 10 (c ∷ s) ≡ some (scan_digits 10 0 (c ∷ s))
unfolding leading_number
leading_number-digit c s h =
    let e : b'0' + (c - b'0') ≡ c = omega arith in
    let value : digit_value 10 c ≡ some (c - b'0') =
      rw e at (digit_value-digit (c - b'0') (omega arith)) in
    rw (scan_digits_first c s h, value, leading_number)

pub to_string_cons : (n : ℕ) → (c : ℕ) × (s : Bytes) × (to_string n ≡ c ∷ s)
unfolding to_string
to_string_cons n = digits_cons n n []

pub leading_number-to_string : (n : ℕ) → leading_number 10 (to_string n) ≡ some (n, [])
unfolding to_string scan_digits
leading_number-to_string n =
    let (c, s, e) = digits_cons n n [] in
    let all : All IsDigit (c ∷ s) = rw e at (All-IsDigit-digits (suc n) n [] tt) in
    let read : scan_digits 10 0 (c ∷ s) ≡ scan_digits 10 n [] =
      rw e at (scan_digits-digits (suc n) n [] (omega arith)) in
    rw (e, leading_number-digit c s all.0, read, scan_digits)

pub All-IsDigit-to_string : (n : ℕ) → All IsDigit (to_string n)
unfolding to_string scan_digits
All-IsDigit-to_string n = All-IsDigit-digits (suc n) n [] tt

pub parse_uint64-to_string : (n : ℕ) → n < 2 ^ 64 → parse_uint64 (to_string n) 10 ≡ some n
unfolding parse_uint64 from_chars_uint64
parse_uint64-to_string n h = rw (leading_number-to_string n) (ground arith)

-- What an unsuffixed decimal becomes: the smallest unsigned type up to 32 bits, then int64_t, and
-- uint64_t only where that is too small.
abbrev pub smallest : ℕ → Number
smallest n =
    if ltb n (2 ^ 8)
    then uint8 n
    else if ltb n (2 ^ 16)
    then uint16 n
    else if ltb n (2 ^ 32)
    then uint32 n
    else if ltb n (2 ^ 63)
    then int64 (pos n)
    else uint64 n

pub narrow_positive-smallest : (n : ℕ) → narrow_positive n ≡ smallest n
unfolding narrow_positive
narrow_positive-smallest n = ground arith

pub starts_negative-digits : (s : Bytes) → All IsDigit s → starts_negative s ≡ false
unfolding starts_negative
starts_negative-digits [] h = refl
starts_negative-digits (c ∷ s) h = ground arith

pub has_hex_prefix-digits : (s : Bytes) → All IsDigit s → has_hex_prefix s ≡ false
unfolding has_hex_prefix
has_hex_prefix-digits [] h = refl
has_hex_prefix-digits (a ∷ []) h = refl
has_hex_prefix-digits (a ∷ b ∷ s) h = ground arith

-- The decimal text of a number below 2 ^ 64 parses to that number in its smallest type.
pub parse_integer_number-to_string :
    (n : ℕ) → n < 2 ^ 64 → parse_integer_number (to_string n) ≡ ok (smallest n)
unfolding parse_integer_number parse_by_suffix
parse_integer_number-to_string n h =
    let all = All-IsDigit-to_string n in
    rw (
      remove_suffix-digits (to_string n) all,
      has_hex_prefix-digits (to_string n) all,
      starts_negative-digits (to_string n) all,
      parse_uint64-to_string n h,
      narrow_positive-smallest n,
    )

pub contains-digits :
    (s : Bytes) (c : ℕ) → All IsDigit s → c < b'0' ⊎ b'9' < c → contains s c ≡ false
unfolding contains
contains-digits [] c h k = refl
contains-digits (b ∷ s) c h k = ground (arith, contains-digits s c h.1 k)

pub back-IsDigit : (c : ℕ) (s : Bytes) → IsDigit c → All IsDigit s → IsDigit (back c s)
back-IsDigit c [] h k = h
back-IsDigit c (d ∷ s) h k = back-IsDigit d s k.0 k.1

pub parse_number-digits :
    (lib : FloatText) (c : ℕ) (s : Bytes)
    → All IsDigit (c ∷ s)
    → parse_number lib (c ∷ s) ≡ parse_integer_number (c ∷ s)
unfolding parse_number
parse_number-digits lib c s h =
    let last = back-IsDigit c s h.0 h.1 in
    let not_f : (back c s == b'f') ≡ false = ground arith in
    let not_F : (back c s == b'F') ≡ false = ground arith in
    rw (
      not_f,
      not_F,
      contains-digits (c ∷ s) b'.' h (inl (omega arith)),
      contains-digits (c ∷ s) b'e' h (inr (omega arith)),
      contains-digits (c ∷ s) b'E' h (inr (omega arith)),
    )

-- `parse_number` reads the decimal text of a number below 2 ^ 64 as that number, in the smallest
-- of the types that it picks from, and never as a float.
pub parse_number-to_string :
    (lib : FloatText) (n : ℕ) → n < 2 ^ 64 → parse_number lib (to_string n) ≡ ok (smallest n)
parse_number-to_string lib n h =
    let (c, s, e) = to_string_cons n in
    let all : All IsDigit (c ∷ s) = rw e at (All-IsDigit-to_string n) in
    rw e (parse_number-digits lib c s all ∙ (rw e at (parse_integer_number-to_string n h)))
