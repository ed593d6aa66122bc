-- ===== src/Prelude/Memory.antt =====
-- Pointers that a program keeps, tests and frees.
use mathlib.Core.Bool.{Bool, true, false}
use Prim.Native.Nat.{ℕ}

-- The value of a pointer member: without an initializer it is indeterminate, and must not be read.
pub data Pointer : Type 0 where
  indeterminate null : Pointer
  at : ℕ → Pointer

abbrev pub is_null : Pointer → Bool
is_null null = true
is_null _ = false
