-- ===== src/Server/Doubles.antt =====
-- What a number counts for in the sums of `CallHandlerAdd`.
use communo.Prelude.{ℕ, ◌≡◌, refl, Option, none, some, ℤ, pos}
use communo.NumParser.{Number}
use communo.Server.{DoubleArith}
use communo.Server.Handlers.{to_double}

-- The integer that a number is, if it is of an integer type.
abbrev pub integer_of : Number → Option ℤ
integer_of (Number.uint8 n) = some (pos n)
integer_of (Number.uint16 n) = some (pos n)
integer_of (Number.uint32 n) = some (pos n)
integer_of (Number.uint64 n) = some (pos n)
integer_of (Number.int8 z) = some z
integer_of (Number.int16 z) = some z
integer_of (Number.int32 z) = some z
integer_of (Number.int64 z) = some z
integer_of (Number.float b) = none
integer_of (Number.double b) = none

-- A number that is no integer, as a double: a float is converted, a double stays as it is.
abbrev pub real_of : DoubleArith → Number → ℕ
real_of lib (Number.float b) = lib.of_float b
real_of lib (Number.double b) = b
real_of lib _ = 0

-- The double that a number counts for in a sum.
abbrev pub double_of : DoubleArith → Number → ℕ
double_of lib num = elim (integer_of num) [ some z ↦ lib.of_int z | none ↦ real_of lib num ]

pub to_double-double_of : (lib : DoubleArith) (num : Number) → to_double lib num ≡ double_of lib num
unfolding to_double
to_double-double_of lib (Number.int8 z) = refl
to_double-double_of lib (Number.uint8 n) = refl
to_double-double_of lib (Number.int16 z) = refl
to_double-double_of lib (Number.uint16 n) = refl
to_double-double_of lib (Number.int32 z) = refl
to_double-double_of lib (Number.uint32 n) = refl
to_double-double_of lib (Number.int64 z) = refl
to_double-double_of lib (Number.uint64 n) = refl
to_double-double_of lib (Number.float b) = refl
to_double-double_of lib (Number.double b) = refl
