-- ===== src/NumParser/Literals.antt =====
-- `parse_number` on decimal digits, with a suffix of the source or without, whatever their size.
use communo.Prelude.{
  ℕ, ◌^◌, ◌≡◌, refl, ◌∙◌, false, [], ◌∷◌, ◌++◌, append-nil, arith, Bytes, codes, bytes_eq, Result,
  ok, throws, ◌>>=◌, out_of_range, ltb, ◌==◌, All, some, none, pos, Bool-cases, inl, inr,
  if◌then◌else◌, to_string,
}
use communo.NumParser.{Number, uint8, uint16, uint32, uint64, int64}
use communo.NumParser.Parse.{
  FloatText, IntegerSuffix, no_suffix, u, l, ul, ll, ull, ends_with, chop, remove_suffix, contains,
  back, parse_number, parse_uint64, parse_int64, from_chars_uint64, from_chars_int64,
  narrow_unsigned, parse_by_suffix, parse_integer_number, or_throw, narrow_positive,
}
use communo.NumParser.Suffix.{IsDigit}
use communo.NumParser.Suffixed.{remove_suffix-append}
use communo.NumParser.RoundTrip.{
  smallest, narrow_positive-smallest, to_string_cons, leading_number-to_string,
  All-IsDigit-to_string, starts_negative-digits, has_hex_prefix-digits, contains-digits,
  parse_number-digits,
}

-- What may stand behind the digits.
pub data Mark : Type 0 where
  bare : Mark
  upper_u lower_u upper_ul lower_ul upper_ull lower_ull : Mark
  upper_l lower_l upper_ll lower_ll : Mark

abbrev pub mark_text : Mark → Bytes
mark_text bare = []
mark_text upper_u = codes "U"
mark_text lower_u = codes "u"
mark_text upper_ul = codes "UL"
mark_text lower_ul = codes "ul"
mark_text upper_ull = codes "ULL"
mark_text lower_ull = codes "ull"
mark_text upper_l = codes "L"
mark_text lower_l = codes "l"
mark_text upper_ll = codes "LL"
mark_text lower_ll = codes "ll"

abbrev pub smallest_unsigned : ℕ → Number
smallest_unsigned n =
    if ltb n (2 ^ 8)
    then uint8 n
    else if ltb n (2 ^ 16)
    then uint16 n
    else if ltb n (2 ^ 32)
    then uint32 n
    else uint64 n

abbrev pub bounded : ℕ → ℕ → Number → Bytes → Result Number
bounded n limit number complaint =
    if ltb n limit then ok number else throws (out_of_range complaint)

abbrev pub too_big_unsigned : Bytes
too_big_unsigned = codes "integer does not fit uint64_t"

abbrev pub too_big_signed : Bytes
too_big_signed = codes "integer does not fit int64_t"

-- What digits of the value `n` mean in front of a suffix.
abbrev pub literal : Mark → ℕ → Result Number
literal bare n = bounded n (2 ^ 64) (smallest n) too_big_unsigned
literal upper_u n = bounded n (2 ^ 64) (smallest_unsigned n) too_big_unsigned
literal lower_u n = bounded n (2 ^ 64) (smallest_unsigned n) too_big_unsigned
literal upper_ul n = bounded n (2 ^ 64) (smallest_unsigned n) too_big_unsigned
literal lower_ul n = bounded n (2 ^ 64) (smallest_unsigned n) too_big_unsigned
literal upper_ull n = bounded n (2 ^ 64) (smallest_unsigned n) too_big_unsigned
literal lower_ull n = bounded n (2 ^ 64) (smallest_unsigned n) too_big_unsigned
literal upper_l n = bounded n (2 ^ 63) (int64 (pos n)) too_big_signed
literal lower_l n = bounded n (2 ^ 63) (int64 (pos n)) too_big_signed
literal upper_ll n = bounded n (2 ^ 63) (int64 (pos n)) too_big_signed
literal lower_ll n = bounded n (2 ^ 63) (int64 (pos n)) too_big_signed

contains-append :
    (s t : Bytes) (c : ℕ)
    → contains s c ≡ false
    → contains t c ≡ false
    → contains (s ++ t) c ≡ false
unfolding contains
contains-append [] t c h k = k
contains-append (b ∷ s) t c h k = ground (arith, contains-append s t c)

back-append : (c : ℕ) (s : Bytes) (d : ℕ) (r : Bytes) → back c (s ++ (d ∷ r)) ≡ back d r
back-append c [] d r = refl
back-append c (b ∷ s) d r = back-append b s d r

parse_uint64-bounds :
    (n : ℕ) → parse_uint64 (to_string n) 10 ≡ (if ltb n (2 ^ 64) then some n else none)
unfolding parse_uint64 from_chars_uint64
parse_uint64-bounds n = rw (leading_number-to_string n) (ground arith)

parse_int64-bounds :
    (n : ℕ) → parse_int64 (to_string n) 10 ≡ (if ltb n (2 ^ 63) then some (pos n) else none)
unfolding parse_int64 from_chars_int64
parse_int64-bounds n =
    let (c, s, e) = to_string_cons n in
    let all : All IsDigit (c ∷ s) = rw e at (All-IsDigit-to_string n) in
    let plus : (c == b'-') ≡ false = ground arith in
    let read = rw e at (leading_number-to_string n) in rw (e, plus, read) (ground arith)

narrow_unsigned-smallest : (n : ℕ) → narrow_unsigned n ≡ smallest_unsigned n
unfolding narrow_unsigned
narrow_unsigned-smallest n = ground arith

-- Digits behind which the text of a suffix stands.
parse_number-suffix :
    (lib : FloatText) (n : ℕ) (kind : IntegerSuffix) (t : Bytes)
    → remove_suffix t ≡ ([], kind)
    → parse_number lib (to_string n ++ t) ≡ parse_integer_number (to_string n ++ t)
    → parse_number lib (to_string n ++ t) ≡ parse_by_suffix kind false (to_string n) 10
unfolding parse_integer_number
parse_number-suffix lib n kind t r same =
    let all = All-IsDigit-to_string n in
    same
    ∙ rw
        (
          remove_suffix-append (to_string n) t all,
          r,
          append-nil,
          has_hex_prefix-digits (to_string n) all,
          starts_negative-digits (to_string n) all,
        )
        refl

-- A text of digits and letters is no float, if the letters are not.
parse_number-letters :
    (lib : FloatText) (n d : ℕ) (r : Bytes)
    → (back d r == b'f') ≡ false
    → (back d r == b'F') ≡ false
    → contains (d ∷ r) b'.' ≡ false
    → contains (d ∷ r) b'e' ≡ false
    → contains (d ∷ r) b'E' ≡ false
    → parse_number lib (to_string n ++ (d ∷ r)) ≡ parse_integer_number (to_string n ++ (d ∷ r))
unfolding parse_number
parse_number-letters lib n d r not_f not_F no_point no_e no_E =
    let (c, s, e) = to_string_cons n in
    let all : All IsDigit (c ∷ s) = rw e at (All-IsDigit-to_string n) in
    rw
      (
        e,
        back-append c s d r,
        not_f,
        not_F,
        contains-append (c ∷ s) (d ∷ r) b'.' (contains-digits (c ∷ s) b'.' all (inl (omega arith)))
            no_point,
        contains-append (c ∷ s) (d ∷ r) b'e' (contains-digits (c ∷ s) b'e' all (inr (omega arith)))
            no_e,
        contains-append (c ∷ s) (d ∷ r) b'E' (contains-digits (c ∷ s) b'E' all (inr (omega arith)))
            no_E,
      )
      refl

abbrev kind_of : Mark → IntegerSuffix
kind_of bare = no_suffix
kind_of upper_u = u
kind_of lower_u = u
kind_of upper_ul = ul
kind_of lower_ul = ul
kind_of upper_ull = ull
kind_of lower_ull = ull
kind_of upper_l = l
kind_of lower_l = l
kind_of upper_ll = ll
kind_of lower_ll = ll

remove_suffix-mark : (m : Mark) → remove_suffix (mark_text m) ≡ ([], kind_of m)
unfolding remove_suffix ends_with chop bytes_eq
remove_suffix-mark bare = refl
remove_suffix-mark upper_u = refl
remove_suffix-mark lower_u = refl
remove_suffix-mark upper_ul = refl
remove_suffix-mark lower_ul = refl
remove_suffix-mark upper_ull = refl
remove_suffix-mark lower_ull = refl
remove_suffix-mark upper_l = refl
remove_suffix-mark lower_l = refl
remove_suffix-mark upper_ll = refl
remove_suffix-mark lower_ll = refl

unsigned_literal :
    (narrow target : ℕ → Number) (n : ℕ)
    → narrow n ≡ target n
    → (or_throw (parse_uint64 (to_string n) 10) too_big_unsigned >>= λ v. ok (narrow v))
      ≡ bounded n (2 ^ 64) (target n) too_big_unsigned
unsigned_literal narrow target n same = elim (Bool-cases (ltb n (2 ^ 64))) [
  | inl fits ↦ rw (parse_uint64-bounds n, fits, same) refl
  | inr big ↦ rw (parse_uint64-bounds n, big) refl
]

signed_literal :
    (n : ℕ)
    → (or_throw (parse_int64 (to_string n) 10) too_big_signed >>= λ v. ok (int64 v))
      ≡ bounded n (2 ^ 63) (int64 (pos n)) too_big_signed
signed_literal n = elim (Bool-cases (ltb n (2 ^ 63))) [
  | inl fits ↦ rw (parse_int64-bounds n, fits) refl
  | inr big ↦ rw (parse_int64-bounds n, big) refl
]

parse_by_suffix-literal :
    (m : Mark) (n : ℕ) → parse_by_suffix (kind_of m) false (to_string n) 10 ≡ literal m n
unfolding parse_by_suffix
parse_by_suffix-literal bare n =
    unsigned_literal narrow_positive smallest n (narrow_positive-smallest n)
parse_by_suffix-literal upper_l n = signed_literal n
parse_by_suffix-literal lower_l n = signed_literal n
parse_by_suffix-literal upper_ll n = signed_literal n
parse_by_suffix-literal lower_ll n = signed_literal n
parse_by_suffix-literal upper_u n =
    unsigned_literal narrow_unsigned smallest_unsigned n (narrow_unsigned-smallest n)
parse_by_suffix-literal lower_u n =
    unsigned_literal narrow_unsigned smallest_unsigned n (narrow_unsigned-smallest n)
parse_by_suffix-literal upper_ul n =
    unsigned_literal narrow_unsigned smallest_unsigned n (narrow_unsigned-smallest n)
parse_by_suffix-literal lower_ul n =
    unsigned_literal narrow_unsigned smallest_unsigned n (narrow_unsigned-smallest n)
parse_by_suffix-literal upper_ull n =
    unsigned_literal narrow_unsigned smallest_unsigned n (narrow_unsigned-smallest n)
parse_by_suffix-literal lower_ull n =
    unsigned_literal narrow_unsigned smallest_unsigned n (narrow_unsigned-smallest n)

parse_number-integer :
    (lib : FloatText) (m : Mark) (n : ℕ)
    → parse_number lib (to_string n ++ mark_text m)
      ≡ parse_integer_number (to_string n ++ mark_text m)
unfolding contains
parse_number-integer lib bare n =
    let (c, s, e) = to_string_cons n in
    let all : All IsDigit (c ∷ s) = rw e at (All-IsDigit-to_string n) in
    rw (append-nil, e) (parse_number-digits lib c s all)
parse_number-integer lib upper_u n = parse_number-letters lib n b'U' [] refl refl refl refl refl
parse_number-integer lib lower_u n = parse_number-letters lib n b'u' [] refl refl refl refl refl
parse_number-integer lib upper_ul n =
    parse_number-letters lib n b'U' (codes "L") refl refl refl refl refl
parse_number-integer lib lower_ul n =
    parse_number-letters lib n b'u' (codes "l") refl refl refl refl refl
parse_number-integer lib upper_ull n =
    parse_number-letters lib n b'U' (codes "LL") refl refl refl refl refl
parse_number-integer lib lower_ull n =
    parse_number-letters lib n b'u' (codes "ll") refl refl refl refl refl
parse_number-integer lib upper_l n = parse_number-letters lib n b'L' [] refl refl refl refl refl
parse_number-integer lib lower_l n = parse_number-letters lib n b'l' [] refl refl refl refl refl
parse_number-integer lib upper_ll n =
    parse_number-letters lib n b'L' (codes "L") refl refl refl refl refl
parse_number-integer lib lower_ll n =
    parse_number-letters lib n b'l' (codes "l") refl refl refl refl refl

-- The decimal digits of any number, with one of the integer suffixes of either case behind them or
-- none. Without a suffix it is read, if it is below 2 ^ 64, as the smallest unsigned type up to 32
-- bits, then int64_t, then uint64_t; with U, UL or ULL, if it is below 2 ^ 64, as the smallest unsigned
-- type; with L or LL, if it is below 2 ^ 63, as int64_t. Any larger number is refused by
-- std::out_of_range, with the message that names the type that it does not fit.
pub parse_number-literal :
    (lib : FloatText) (m : Mark) (n : ℕ)
    → parse_number lib (to_string n ++ mark_text m) ≡ literal m n
parse_number-literal lib m n =
    parse_number-suffix lib n (kind_of m) (mark_text m) (remove_suffix-mark m)
      (parse_number-integer lib m n)
    ∙ parse_by_suffix-literal m n
