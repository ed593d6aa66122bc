-- ===== src/NumParser/Show.antt =====
-- `number_to_string` and `print_number` of src/common/NumParser.cpp. What `std::to_string` and the
-- stream make of a float is a parameter.
use communo.Prelude.{ℕ, suc, [], ◌∷◌, ◌++◌, ℤ, pos, negsuc, Bytes, codes, to_string}
use communo.NumParser.{
  Number, int8, uint8, int16, uint16, int32, uint32, int64, uint64, float, double,
}

pub record FloatShow : Type 0 where
  pub float_string : ℕ → Bytes
  pub double_string : ℕ → Bytes
  pub float_stream : ℕ → Bytes
  pub double_stream : ℕ → Bytes

-- `std::to_string` of a signed integer.
unfoldable pub signed_string : ℤ → Bytes
signed_string (pos n) = to_string n
signed_string (negsuc n) = b'-' ∷ to_string (suc n)

-- The integer types of less than 32 bits are promoted to `int`.
unfoldable pub number_to_string : FloatShow → Number → Bytes
unfolding signed_string
number_to_string lib (int8 z) = signed_string z
number_to_string lib (uint8 n) = to_string n
number_to_string lib (int16 z) = signed_string z
number_to_string lib (uint16 n) = to_string n
number_to_string lib (int32 z) = signed_string z
number_to_string lib (uint32 n) = to_string n
number_to_string lib (int64 z) = signed_string z
number_to_string lib (uint64 n) = to_string n
number_to_string lib (float b) = lib.float_string b
number_to_string lib (double b) = lib.double_string b

abbrev labelled : Bytes → Bytes → Bytes
labelled label value = label ++ (value ++ (b'\n' ∷ []))

-- What `print_number` writes to the console.
unfoldable pub print_number : FloatShow → Number → Bytes
unfolding signed_string
print_number lib (int8 z) = labelled (codes "int8_t: ") (signed_string z)
print_number lib (uint8 n) = labelled (codes "uint8_t: ") (to_string n)
print_number lib (int16 z) = labelled (codes "int16_t: ") (signed_string z)
print_number lib (uint16 n) = labelled (codes "uint16_t: ") (to_string n)
print_number lib (int32 z) = labelled (codes "int32_t: ") (signed_string z)
print_number lib (uint32 n) = labelled (codes "uint32_t: ") (to_string n)
print_number lib (int64 z) = labelled (codes "int64_t: ") (signed_string z)
print_number lib (uint64 n) = labelled (codes "uint64_t: ") (to_string n)
print_number lib (float b) = labelled (codes "float: ") (lib.float_stream b)
print_number lib (double b) = labelled (codes "double: ") (lib.double_stream b)
