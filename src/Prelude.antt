-- ===== src/Prelude.antt =====
-- The names that the other modules share: the libraries', passed on, and those of the children.
mod Tests
mod Lists
mod Int
mod ByteString
mod Outcome
mod Postcondition
mod Memory
pub use Tests.*
pub use Lists.*
pub use Postcondition.*
pub use Memory.*
unfoldable pub use Int.{to_word, of_word}
pub use Int.{ℤ, pos, negsuc, pos_part, neg_part, ltb_ℤ, leb_ℤ, IsSigned}
unfoldable pub use ByteString.{le_bytes, of_le, bswap, bytes_eq, to_string, digits}
pub use ByteString.{
  Bytes, codes, AllBytes, length-le_bytes, of_le-le_bytes, AllBytes-le_bytes, bswap-lt,
  le_bytes-of_le, of_le-lt, bswap-bswap, le_bytes-bswap, bytes_eq_refl, bytes_eq→eq,
}
unfoldable pub use Outcome.{read_bytes, memcpy_uint}
pub use Outcome.{
  Exception, invalid_argument, out_of_range, runtime_error, length_error, Result, ok, throws,
  undefined, out_of_fuel, ◌>>=◌, read_bytes-append, memcpy_uint-append, read_bytes-ok,
  read_bytes-undefined, >>=-eq-ok, read_bytes-within, memcpy_uint-within, memcpy_uint-image,
  memcpy_uint-lt, memcpy_uint-undefined, memcpy_uint-ok,
}
pub use Prim.Native.Nat.{ℕ, zero, suc, ◌+◌, ◌-◌, ◌*◌, ◌/◌, ◌%◌, ◌^◌, ◌≤◌, ◌<◌}
pub use Prim.Native.String.{String}
pub use mathlib.Core.Path.{◌≡◌, refl, sym, ap, ◌∙◌}
pub use mathlib.Core.Logic.{◌≢◌, ◌↔◌, ◌⊎◌, inl, inr}
pub use mathlib.Core.Bool.{Bool, true, false, not, ◌&&◌, ◌||◌}
pub use mathlib.Core.Option.{Option, none, some}
pub use mathlib.Core.List.{List, [], ◌∷◌, ◌++◌, map, append-nil, append_assoc}
pub use native.Mathlib.Omega.{arith}
