-- ===== src/Prelude/Postcondition.antt =====
-- Postconditions of code that may fail.
use communo.Prelude.Tests.{if◌then◌else◌}
use communo.Prelude.ByteString.{Bytes}
use communo.Prelude.Outcome.{
  Result, ok, throws, undefined, out_of_fuel, Exception, ◌>>=◌, read_bytes, memcpy_uint,
}
use Prim.Native.Nat.{ℕ}
use mathlib.Core.Path.{◌≡◌, refl, subst}
use mathlib.Core.Logic.{◌≢◌}
use mathlib.Core.Bool.{Bool, true, false}

-- How a piece of code may end: with a value that satisfies `P`, by an exception or by a read
-- outside a buffer, but never by using up its fuel.
pub data Ends {A : Type 0} (P : A → Type 0) : Result A → Type 0 where
  returned : {a : A} → P a → Ends P (ok a)
  thrown : {e : Exception} → Ends P (throws e)
  faulted : Ends P undefined

module _ {A : Type 0} {P : A → Type 0} where
  pub if-Ends : (b : Bool) {x y : Result A} → Ends P x → Ends P y → Ends P (if b then x else y)
  if-Ends true p q = p
  if-Ends false p q = q

  -- The same, with what the test has found.
  pub if-Ends-when :
      (b : Bool) {x y : Result A} → (b ≡ true → Ends P x) → Ends P y → Ends P (if b then x else y)
  if-Ends-when true p q = p refl
  if-Ends-when false p q = q

  pub Ends-eq_ok : {r : Result A} (a : A) → Ends P r → r ≡ ok a → P a
  Ends-eq_ok a (returned {a = b} p) e = let same : b ≡ a = cc in subst P same p
  Ends-eq_ok a thrown e = absurd (cc)
  Ends-eq_ok a faulted e = absurd (cc)

  pub Ends-ne_out_of_fuel : {r : Result A} → Ends P r → r ≢ out_of_fuel
  Ends-ne_out_of_fuel (returned p) e = cc
  Ends-ne_out_of_fuel thrown e = cc
  Ends-ne_out_of_fuel faulted e = cc

module _ {A : Type 0} {P Q : A → Type 0} where
  pub Ends-map : {r : Result A} → ((a : A) → P a → Q a) → Ends P r → Ends Q r
  Ends-map f (returned {a = a} p) = returned (f a p)
  Ends-map f thrown = thrown
  Ends-map f faulted = faulted

  -- The same, with the value that is returned.
  pub Ends-eq : {r : Result A} → Ends P r → ((a : A) → r ≡ ok a → P a → Q a) → Ends Q r
  Ends-eq (returned {a = a} p) f = returned (f a refl p)
  Ends-eq thrown f = thrown
  Ends-eq faulted f = faulted

module _ {A B : Type 0} {Q : A → Type 0} {P : B → Type 0} where
  pub bind-Ends :
      {m : Result A} {f : A → Result B}
      → Ends Q m
      → ((a : A) → Q a → Ends P (f a))
      → Ends P (m >>= f)
  bind-Ends (returned {a = a} q) h = h a q
  bind-Ends thrown h = thrown
  bind-Ends faulted h = faulted

-- The reads end in every case.
abbrev pub Any : {A : Type 0} → A → Type 0
Any a = Unit {0}

pub read_bytes-Ends : (buffer : Bytes) (offset n : ℕ) → Ends Any (read_bytes buffer offset n)
unfolding read_bytes
read_bytes-Ends buffer offset n = if-Ends _ (returned tt) faulted

pub memcpy_uint-Ends : (buffer : Bytes) (offset w : ℕ) → Ends Any (memcpy_uint buffer offset w)
unfolding memcpy_uint
memcpy_uint-Ends buffer offset w =
    bind-Ends (read_bytes-Ends buffer offset w) (λ bytes u. returned tt)
