-- ===== src/NumParser.antt =====
-- src/common/NumParser.h and src/common/NumParser.cpp: the variant `Number`, its wire format and its
-- parser. The definitions of the parser and all proofs are in the modules below.
pub mod Codec
pub mod Parse
pub mod Range
pub mod Suffix
pub mod Suffixed
pub mod Literals
pub mod RoundTrip
pub mod Show
pub mod Signed
use communo.Prelude.{
  ℕ, ◌+◌, ◌^◌, ◌<◌, Bool, true, false, ◌++◌, ok, throws, Result, runtime_error, ◌>>=◌, ℤ, to_word,
  of_word, IsSigned, Bytes, codes, le_bytes, memcpy_uint, ◌==◌, if◌then◌else◌,
}

-- `std::variant<int8_t, …, double>`. A float is held by its IEEE bit pattern.
pub data Number : Type 0 where
  int8 : ℤ → Number
  uint8 : ℕ → Number
  int16 : ℤ → Number
  uint16 : ℕ → Number
  int32 : ℤ → Number
  uint32 : ℕ → Number
  int64 : ℤ → Number
  uint64 : ℕ → Number
  float : ℕ → Number
  double : ℕ → Number

-- What the C++ type of each alternative grants.
abbrev pub IsValid : Number → Type 0
IsValid (int8 z) = IsSigned (2 ^ 7) z
IsValid (uint8 n) = n < 2 ^ 8
IsValid (int16 z) = IsSigned (2 ^ 15) z
IsValid (uint16 n) = n < 2 ^ 16
IsValid (int32 z) = IsSigned (2 ^ 31) z
IsValid (uint32 n) = n < 2 ^ 32
IsValid (int64 z) = IsSigned (2 ^ 63) z
IsValid (uint64 n) = n < 2 ^ 64
IsValid (float b) = b < 2 ^ 32
IsValid (double b) = b < 2 ^ 64

-- `eNumberTypes`: an enumeration over uint8_t, which holds any byte after a cast.
abbrev pub n_int8 : ℕ
n_int8 = 0

abbrev pub n_uint8 : ℕ
n_uint8 = 1

abbrev pub n_int16 : ℕ
n_int16 = 2

abbrev pub n_uint16 : ℕ
n_uint16 = 3

abbrev pub n_int32 : ℕ
n_int32 = 4

abbrev pub n_uint32 : ℕ
n_uint32 = 5

abbrev pub n_int64 : ℕ
n_int64 = 6

abbrev pub n_uint64 : ℕ
n_uint64 = 7

abbrev pub n_float : ℕ
n_float = 8

abbrev pub n_double : ℕ
n_double = 9

unfoldable pub get_number_type : Number → ℕ
get_number_type (int8 z) = n_int8
get_number_type (uint8 n) = n_uint8
get_number_type (int16 z) = n_int16
get_number_type (uint16 n) = n_uint16
get_number_type (int32 z) = n_int32
get_number_type (uint32 n) = n_uint32
get_number_type (int64 z) = n_int64
get_number_type (uint64 n) = n_uint64
get_number_type (float b) = n_float
get_number_type (double b) = n_double

-- The memory image of a value, `sizeof(T)` bytes.
unfoldable pub number_bytes : Number → Bytes
number_bytes (int8 z) = le_bytes 1 (to_word (2 ^ 7) z)
number_bytes (uint8 n) = le_bytes 1 n
number_bytes (int16 z) = le_bytes 2 (to_word (2 ^ 15) z)
number_bytes (uint16 n) = le_bytes 2 n
number_bytes (int32 z) = le_bytes 4 (to_word (2 ^ 31) z)
number_bytes (uint32 n) = le_bytes 4 n
number_bytes (int64 z) = le_bytes 8 (to_word (2 ^ 63) z)
number_bytes (uint64 n) = le_bytes 8 n
number_bytes (float b) = le_bytes 4 b
number_bytes (double b) = le_bytes 8 b

unfoldable pub append_number : Bytes → Number → Bytes
append_number reply_str number = reply_str ++ number_bytes number

-- One case of `read_number`: `memcpy` into a variable of `size` bytes, and the offset moved on.
unfoldable pub read_value : Bytes → ℕ → ℕ → (ℕ → Number) → Result (Number × ℕ)
read_value buffer offset size of_bits = do
  value ← memcpy_uint buffer offset size
  ok (of_bits value, offset + size)

-- The value read, and the offset behind it.
unfoldable pub read_number : Bytes → ℕ → ℕ → Result (Number × ℕ)
read_number buffer offset type =
    if type == n_int8
    then read_value buffer offset 1 (λ v. int8 (of_word (2 ^ 7) v))
    else if type == n_uint8
    then read_value buffer offset 1 uint8
    else if type == n_int16
    then read_value buffer offset 2 (λ v. int16 (of_word (2 ^ 15) v))
    else if type == n_uint16
    then read_value buffer offset 2 uint16
    else if type == n_int32
    then read_value buffer offset 4 (λ v. int32 (of_word (2 ^ 31) v))
    else if type == n_uint32
    then read_value buffer offset 4 uint32
    else if type == n_int64
    then read_value buffer offset 8 (λ v. int64 (of_word (2 ^ 63) v))
    else if type == n_uint64
    then read_value buffer offset 8 uint64
    else if type == n_float
    then read_value buffer offset 4 float
    else if type == n_double
    then read_value buffer offset 8 double
    else throws (runtime_error (codes "Unknown number type"))

unfoldable pub is_unsigned_integer : Number → Bool
is_unsigned_integer (uint8 n) = true
is_unsigned_integer (uint16 n) = true
is_unsigned_integer (uint32 n) = true
is_unsigned_integer (uint64 n) = true
is_unsigned_integer _ = false

unfoldable pub is_uint8_t : Number → Bool
is_uint8_t (uint8 n) = true
is_uint8_t _ = false
