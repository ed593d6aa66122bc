-- ===== src/NumParser/Parse.antt =====
-- The text side of src/common/NumParser.cpp: `remove_suffix`, `parse_integer`, `parse_float`,
-- `parse_integer_number` and `parse_number`. Texts are lists of bytes. `std::from_chars` on integers
-- is written out; `std::strtof` and `std::strtod` are parameters, since there are no floats here.
use communo.Prelude.{
  ℕ, zero, suc, ◌+◌, ◌-◌, ◌*◌, ◌^◌, Bool, false, ◌&&◌, ◌||◌, [], ◌∷◌, Option, none, some, Bytes,
  codes, bytes_eq, Result, ok, throws, invalid_argument, out_of_range, ◌>>=◌, ℤ, pos, negsuc, leb_ℤ,
  ltb, leb, ◌==◌, if◌then◌else◌, length, take, drop,
}
use communo.NumParser.{
  Number, int8, uint8, int16, uint16, int32, uint32, int64, uint64, float, double,
}

-- `std::strtof` and `std::strtod`: the bits of the value, and how many bytes were used.
pub record FloatText : Type 0 where
  pub strtof : Bytes → ℕ × ℕ
  pub strtod : Bytes → ℕ × ℕ

pub data IntegerSuffix : Type 0 where
  no_suffix u l ul ll ull : IntegerSuffix

-- `ends_with`, the lambda of `remove_suffix`.
unfoldable pub ends_with : Bytes → Bytes → Bool
ends_with s suffix =
    leb (length suffix) (length s) && bytes_eq (drop (length s - length suffix) s) suffix

-- `s` without its last `n` bytes.
unfoldable pub chop : Bytes → ℕ → Bytes
chop s n = take (length s - n) s

unfoldable pub remove_suffix : Bytes → Bytes × IntegerSuffix
remove_suffix s =
    if ends_with s (codes "ULL") || ends_with s (codes "ull")
    then (chop s 3, ull)
    else if ends_with s (codes "UL") || ends_with s (codes "ul")
    then (chop s 2, ul)
    else if ends_with s (codes "LL") || ends_with s (codes "ll")
    then (chop s 2, ll)
    else if ends_with s (codes "U") || ends_with s (codes "u")
    then (chop s 1, u)
    else if ends_with s (codes "L") || ends_with s (codes "l")
    then (chop s 1, l)
    else (s, no_suffix)

-- The digits of `std::from_chars`: 0-9, then letters of either case.
unfoldable pub digit_value : ℕ → ℕ → Option ℕ
digit_value base c =
    let d =
      if leb b'0' c && leb c b'9'
      then c - b'0'
      else if leb b'a' c && leb c b'z'
      then c - b'a' + 10
      else if leb b'A' c && leb c b'Z'
      then c - b'A' + 10
      else base in
    if ltb d base then some d else none

-- The longest run of digits behind the number `n`, and what follows it.
unfoldable pub scan_digits : ℕ → ℕ → Bytes → ℕ × Bytes
scan_digits base n [] = (n, [])
scan_digits base n (c ∷ s) = elim (digit_value base c) [
  | none ↦ (n, c ∷ s)
  | some d ↦ scan_digits base (n * base + d) s
]

pub data Errc : Type 0 where
  no_error bad_argument result_out_of_range : Errc

-- `std::from_chars_result` with the rest of the text for `ptr`, and the value that was stored.
pub record FromChars {ℓ} (A : Type ℓ) : Type ℓ where
  pub ec : Errc
  pub ptr : Bytes
  pub value : A

-- `none`: the text does not begin with a digit.
unfoldable pub leading_number : ℕ → Bytes → Option (ℕ × Bytes)
unfolding scan_digits digit_value
leading_number base [] = none
leading_number base (c ∷ s) = elim (digit_value base c) [
  | none ↦ none
  | some d ↦ some (scan_digits base d s)
]

module _ {ℓ} {A : Type ℓ} where
  -- `original` is what the variable held before: it is kept unless a value fits.
  unfoldable pub store : Bytes → A → (ℕ → Option A) → Option (ℕ × Bytes) → FromChars A
  store s original fit none = record { ec = bad_argument; ptr = s; value = original }
  store s original fit (some (n, rest)) = elim (fit n) [
    | none ↦ record { ec = result_out_of_range; ptr = rest; value = original }
    | some v ↦ record { ec = no_error; ptr = rest; value = v }
  ]

unfoldable pub fit_uint64 : ℕ → Option ℕ
fit_uint64 n = if ltb n (2 ^ 64) then some n else none

unfoldable pub fit_int64 : ℕ → Option ℤ
fit_int64 n = if ltb n (2 ^ 63) then some (pos n) else none

abbrev pub negate : ℕ → ℤ
negate zero = pos 0
negate (suc n) = negsuc n

unfoldable pub fit_negative_int64 : ℕ → Option ℤ
fit_negative_int64 n = if leb n (2 ^ 63) then some (negate n) else none

unfoldable pub from_chars_uint64 : Bytes → ℕ → FromChars ℕ
unfolding store fit_uint64 leading_number
from_chars_uint64 s base = store s 0 fit_uint64 (leading_number base s)

-- A minus sign is part of the pattern for signed types only.
unfoldable pub from_chars_int64 : Bytes → ℕ → FromChars ℤ
unfolding store fit_int64 fit_negative_int64 leading_number
from_chars_int64 [] base = store [] (pos 0) fit_int64 none
from_chars_int64 (c ∷ s) base =
    if c == b'-'
    then store (c ∷ s) (pos 0) fit_negative_int64 (leading_number base s)
    else store (c ∷ s) (pos 0) fit_int64 (leading_number base (c ∷ s))

-- `result.ec == std::errc{} && result.ptr == end`, with the value where that holds.
module _ {ℓ} {A : Type ℓ} where
  unfoldable pub accept : Errc → Bytes → A → Option A
  accept no_error [] v = some v
  accept no_error (c ∷ s) v = none
  accept bad_argument s v = none
  accept result_out_of_range s v = none

unfoldable pub parse_uint64 : Bytes → ℕ → Option ℕ
unfolding from_chars_uint64 accept
parse_uint64 s base =
    let result = from_chars_uint64 s base in accept result.ec result.ptr result.value

unfoldable pub parse_int64 : Bytes → ℕ → Option ℤ
unfolding from_chars_int64 accept
parse_int64 s base =
    let result = from_chars_int64 s base in accept result.ec result.ptr result.value

unfoldable pub parse_float : (Bytes → ℕ × ℕ) → Bytes → Option ℕ
parse_float convert s =
    let (value, used) = convert s in if used == length s then some value else none

-- `throw` where there is no value.
abbrev pub or_throw {ℓ} : {A : Type ℓ} → Option A → Bytes → Result A
or_throw (some a) message = ok a
or_throw none message = throws (out_of_range message)

abbrev pub or_invalid {ℓ} : {A : Type ℓ} → Option A → Bytes → Result A
or_invalid (some a) message = ok a
or_invalid none message = throws (invalid_argument message)

unfoldable pub starts_negative : Bytes → Bool
starts_negative [] = false
starts_negative (c ∷ s) = c == b'-'

unfoldable pub has_hex_prefix : Bytes → Bool
has_hex_prefix [] = false
has_hex_prefix (a ∷ []) = false
has_hex_prefix (a ∷ b ∷ s) = (a == b'0') && ((b == b'x') || (b == b'X'))

-- The explicit unsigned suffix: the smallest unsigned type.
unfoldable pub narrow_unsigned : ℕ → Number
narrow_unsigned value =
    if leb value 255
    then uint8 value
    else if leb value 65535
    then uint16 value
    else if leb value 4294967295
    then uint32 value
    else uint64 value

unfoldable pub narrow_negative : ℤ → Number
narrow_negative value =
    if leb_ℤ (negsuc 127) value
    then int8 value
    else if leb_ℤ (negsuc 32767) value
    then int16 value
    else if leb_ℤ (negsuc 2147483647) value
    then int32 value
    else int64 value

-- No suffix and no sign: the tests in the source's order, those that cannot pass included.
unfoldable pub narrow_positive : ℕ → Number
narrow_positive value =
    if leb value 255
    then uint8 value
    else if leb value 65535
    then uint16 value
    else if leb value 4294967295
    then uint32 value
    else if leb value 32767
    then int16 (pos value)
    else if leb value 65535
    then uint16 value
    else if leb value 2147483647
    then int32 (pos value)
    else if leb value 4294967295
    then uint32 value
    else if leb value 9223372036854775807
    then int64 (pos value)
    else uint64 value

-- The part of `parse_integer_number` behind the detection of suffix, sign and base.
unfoldable pub parse_by_suffix : IntegerSuffix → Bool → Bytes → ℕ → Result Number
unfolding parse_uint64 parse_int64 narrow_unsigned narrow_negative narrow_positive
parse_by_suffix suffix negative s base = elim suffix [
  | u ↦ unsigned
  | ul ↦ unsigned
  | ull ↦ unsigned
  | ll ↦ long
  | l ↦ long
  | no_suffix ↦ if negative then shrunk else positive
]
  where
    unsigned : Result Number
    unsigned = do
      value ← or_throw (parse_uint64 s base) (codes "integer does not fit uint64_t")
      ok (narrow_unsigned value)

    long : Result Number
    long = do
      value ← or_throw (parse_int64 s base) (codes "integer does not fit int64_t")
      ok (int64 value)

    shrunk : Result Number
    shrunk = do
      value ← or_throw (parse_int64 s base) (codes "integer does not fit int64_t")
      ok (narrow_negative value)

    positive : Result Number
    positive = do
      value ← or_throw (parse_uint64 s base) (codes "integer does not fit uint64_t")
      ok (narrow_positive value)

unfoldable pub parse_integer_number : Bytes → Result Number
unfolding starts_negative has_hex_prefix
parse_integer_number input =
    let (s, suffix) = remove_suffix input in
    let negative = starts_negative s in
    if has_hex_prefix s
    then (if negative
        then throws (invalid_argument (codes "negative hexadecimal not supported"))
        else parse_by_suffix suffix negative (drop 2 s) 16)
    else parse_by_suffix suffix negative s 10

unfoldable pub contains : Bytes → ℕ → Bool
contains [] c = false
contains (b ∷ s) c = (b == c) || contains s c

-- `s.back()` of a text that is not empty.
abbrev pub back : ℕ → Bytes → ℕ
back c [] = c
back c (d ∷ s) = back d s

unfoldable pub parse_number : FloatText → Bytes → Result Number
unfolding parse_float
parse_number lib [] = throws (invalid_argument (codes "empty number"))
parse_number lib (c ∷ t) =
    let s = c ∷ t in
    if (back c t == b'f') || (back c t == b'F')
    then (do
      value ← or_invalid (parse_float lib.strtof (chop s 1)) (codes "invalid float")
      ok (float value))
    else if contains s b'.' || contains s b'e' || contains s b'E'
    then (do
      value ← or_invalid (parse_float lib.strtod s) (codes "invalid double")
      ok (double value))
    else parse_integer_number s
