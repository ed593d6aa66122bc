-- ===== src/Prelude/Outcome.antt =====
-- What a piece of C++ may do beside returning: throw, run into undefined behaviour (a read outside
-- its buffer), or, of the model only, use up the fuel of a loop.
use Prim.Native.Nat.{ℕ, ◌+◌, ◌<◌, ◌≤◌, ◌^◌}
use mathlib.Core.Path.{◌≡◌, refl, sym}
use mathlib.Core.List.{◌++◌}
use native.Mathlib.Omega.{arith}
use communo.Prelude.Tests.{leb, if◌then◌else◌}
use communo.Prelude.Lists.{
  length-take, length-drop, All-take, All-drop, length, take, drop, length-append, take-append,
  drop-append,
}
use communo.Prelude.ByteString.{
  AllBytes, le_bytes-of_le, of_le-lt, Bytes, le_bytes, of_le, of_le-le_bytes, length-le_bytes,
}

-- The standard library's exception classes that the program throws or lets through.
pub data Exception : Type 0 where
  invalid_argument out_of_range runtime_error : Bytes → Exception
  length_error : Exception

pub data Result {ℓ} (A : Type ℓ) : Type ℓ where
  undefined out_of_fuel : Result A
  throws : Exception → Result A
  ok : A → Result A

-- What comes next runs only on a value.
abbrev pub ◌>>=◌ {a b} : {A : Type a} {B : Type b} → Result A → (A → Result B) → Result B
undefined >>= next = undefined
out_of_fuel >>= next = out_of_fuel
throws exception >>= next = throws exception
ok value >>= next = next value

infixl 5 ◌>>=◌
-- `n` bytes of a buffer from `offset` on.
unfoldable pub read_bytes : Bytes → ℕ → ℕ → Result Bytes
read_bytes buffer offset n =
    if leb (offset + n) (length buffer) then ok (take n (drop offset buffer)) else undefined

-- `memcpy` of `w` bytes into an unsigned integer variable.
unfoldable pub memcpy_uint : Bytes → ℕ → ℕ → Result ℕ
memcpy_uint buffer offset w = do bytes ← read_bytes buffer offset w; ok (of_le bytes)

pub read_bytes-ok :
    (buffer : Bytes) (offset n : ℕ)
    → offset + n ≤ length buffer
    → read_bytes buffer offset n ≡ ok (take n (drop offset buffer))
unfolding read_bytes
read_bytes-ok buffer offset n h = ground arith

pub read_bytes-append :
    (front mid back : Bytes)
    → read_bytes (front ++ (mid ++ back)) (length front) (length mid) ≡ ok mid
unfolding read_bytes
read_bytes-append front mid back =
    rw (drop-append front (mid ++ back), take-append mid back)
      (ground (arith, length-append front (mid ++ back), length-append mid back))

pub memcpy_uint-append :
    (front : Bytes) (w n : ℕ) (back : Bytes)
    → n < 256 ^ w
    → memcpy_uint (front ++ (le_bytes w n ++ back)) (length front) w ≡ ok n
unfolding memcpy_uint
memcpy_uint-append front w n back h =
    let read = rw (length-le_bytes w n) at (read_bytes-append front (le_bytes w n) back) in
    rw (read, of_le-le_bytes w n h)

pub read_bytes-within :
    (buffer : Bytes) (offset n : ℕ) (bytes : Bytes)
    → read_bytes buffer offset n ≡ ok bytes
    → (offset + n ≤ length buffer) × (bytes ≡ take n (drop offset buffer))
unfolding read_bytes
read_bytes-within buffer offset n bytes e = ground arith

pub memcpy_uint-within :
    (buffer : Bytes) (offset w value : ℕ)
    → memcpy_uint buffer offset w ≡ ok value
    → (offset + w ≤ length buffer) × (value ≡ of_le (take w (drop offset buffer)))
unfolding memcpy_uint read_bytes
memcpy_uint-within buffer offset w value e = ground arith

-- What a `memcpy` into a `w`-byte variable leaves there fits `w` bytes.
pub memcpy_uint-lt :
    (buffer : Bytes) (offset w value : ℕ)
    → AllBytes buffer
    → memcpy_uint buffer offset w ≡ ok value
    → value < 256 ^ w
memcpy_uint-lt buffer offset w value all e =
    let (fits, same) = memcpy_uint-within buffer offset w value e in
    let size : length (take w (drop offset buffer)) ≡ w =
      omega (arith, length-take w (drop offset buffer), length-drop offset buffer) in
    rw same (
      rw size at (
        of_le-lt (take w (drop offset buffer))
          (All-take _ w (drop offset buffer) (All-drop _ offset buffer all))))

-- What a `memcpy` leaves in a variable is the bytes that it has copied.
pub memcpy_uint-image :
    (buffer : Bytes) (offset w value : ℕ)
    → AllBytes buffer
    → memcpy_uint buffer offset w ≡ ok value
    → take w (drop offset buffer) ≡ le_bytes w value
memcpy_uint-image buffer offset w value all e =
    let (fits, same) = memcpy_uint-within buffer offset w value e in
    let bytes = take w (drop offset buffer) in
    let size : length bytes ≡ w =
      omega (arith, length-take w (drop offset buffer), length-drop offset buffer) in
    rw same (
      sym (
        rw size at (
          le_bytes-of_le bytes (All-take _ w (drop offset buffer) (All-drop _ offset buffer all)))))

pub memcpy_uint-undefined :
    (buffer : Bytes) (offset w : ℕ)
    → length buffer < offset + w
    → memcpy_uint buffer offset w ≡ undefined
unfolding memcpy_uint read_bytes
memcpy_uint-undefined buffer offset w h = ground arith

pub memcpy_uint-ok :
    (buffer : Bytes) (offset w : ℕ)
    → offset + w ≤ length buffer
    → memcpy_uint buffer offset w ≡ ok (of_le (take w (drop offset buffer)))
unfolding memcpy_uint read_bytes
memcpy_uint-ok buffer offset w h = ground arith

-- Inversion of a bind that returns.
pub >>=-eq-ok {a b} :
    {A : Type a} {B : Type b} (action : Result A) (next : A → Result B) {result : B}
    → (action >>= next) ≡ ok result
    → (value : A) × (action ≡ ok value) × (next value ≡ ok result)
>>=-eq-ok undefined next returns = cc
>>=-eq-ok out_of_fuel next returns = cc
>>=-eq-ok (throws exception) next returns = cc
>>=-eq-ok (ok value) next returns = (value, refl, returns)

pub read_bytes-undefined :
    (buffer : Bytes) (offset n : ℕ)
    → length buffer < offset + n
    → read_bytes buffer offset n ≡ undefined
unfolding read_bytes
read_bytes-undefined buffer offset n h = ground arith
