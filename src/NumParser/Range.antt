-- ===== src/NumParser/Range.antt =====
-- The ranges of the numbers that the parser returns.
use mathlib.Core.Path.{subst}
use communo.Prelude.{
  pos_part, ◌>>=◌, ℕ, zero, suc, ◌^◌, ◌<◌, ◌≡◌, refl, inl, inr, Bool, true, false, [], ◌∷◌, Option,
  none, some, arith, Bytes, ok, ℤ, pos, negsuc, IsSigned, Bool-cases, ◌==◌, >>=-eq-ok, drop,
}
use communo.NumParser.{Number, IsValid, int64}
use communo.NumParser.Parse.{
  store, accept, fit_uint64, fit_int64, fit_negative_int64, leading_number, from_chars_uint64,
  from_chars_int64, parse_uint64, parse_int64, narrow_unsigned, narrow_negative, narrow_positive,
  parse_by_suffix, IntegerSuffix, no_suffix, u, l, ul, ll, ull, starts_negative, has_hex_prefix,
  parse_integer_number, remove_suffix, or_throw,
}

-- What `parse_integer` accepts is a value that `fit` gave.
accept-store {ℓ} :
    {A : Type ℓ} (s : Bytes) (original : A) (fit : ℕ → Option A) (o : Option (ℕ × Bytes)) (v : A)
    → accept (store s original fit o).ec (store s original fit o).ptr (store s original fit o).value
      ≡ some v
    → (n : ℕ) × (fit n ≡ some v)
unfolding accept store
accept-store s original fit none v h = cc
accept-store s original fit (some (n, rest)) v h = (n, ground arith)

parse_uint64-lt : (s : Bytes) (base v : ℕ) → parse_uint64 s base ≡ some v → v < 2 ^ 64
unfolding parse_uint64 from_chars_uint64
parse_uint64-lt s base v h =
    let (n, e) = accept-store s 0 fit_uint64 (leading_number base s) v h in
    unfold fit_uint64 in ground arith

parse_int64-IsSigned :
    (s : Bytes) (base : ℕ) (v : ℤ) → parse_int64 s base ≡ some v → IsSigned (2 ^ 63) v
unfolding parse_int64 from_chars_int64
parse_int64-IsSigned [] base v h =
    let (n, e) = accept-store [] (pos 0) fit_int64 none v h in unfold fit_int64 in ground arith
parse_int64-IsSigned (c ∷ s) base v h = elim (Bool-cases (c == b'-')) [
  | inl minus ↦
      let (n, e) =
        accept-store (c ∷ s) (pos 0) fit_negative_int64 (leading_number base s) v (ground arith) in
      negative n e
  | inr digit ↦
      let (n, e) =
        accept-store (c ∷ s) (pos 0) fit_int64 (leading_number base (c ∷ s)) v (ground arith) in
      unfold fit_int64 in ground arith
]
  where
    negative : (n : ℕ) → fit_negative_int64 n ≡ some v → IsSigned (2 ^ 63) v
    negative zero e = unfold fit_negative_int64 in ground arith
    negative (suc n) e = unfold fit_negative_int64 in ground arith

narrow_unsigned-IsValid : (v : ℕ) → v < 2 ^ 64 → IsValid (narrow_unsigned v)
unfolding narrow_unsigned
narrow_unsigned-IsValid v h = ground arith

narrow_positive-IsValid : (v : ℕ) → v < 2 ^ 64 → IsValid (narrow_positive v)
unfolding narrow_positive
narrow_positive-IsValid v h = ground arith

narrow_negative-IsValid :
    (v : ℤ) → IsSigned (2 ^ 63) v → pos_part v ≡ 0 → IsValid (narrow_negative v)
unfolding narrow_negative
narrow_negative-IsValid (pos n) h z = ground arith
narrow_negative-IsValid (negsuc n) h z = ground arith

-- Behind a minus sign stands no positive value.
parse_int64-negative :
    (s : Bytes) (base : ℕ) (v : ℤ)
    → starts_negative s ≡ true
    → parse_int64 s base ≡ some v
    → pos_part v ≡ 0
unfolding parse_int64 from_chars_int64 starts_negative
parse_int64-negative [] base v m h = cc
parse_int64-negative (c ∷ s) base v m h =
    let (n, e) =
      accept-store (c ∷ s) (pos 0) fit_negative_int64 (leading_number base s) v (ground arith) in
    minus n e
  where
    minus : (n : ℕ) → fit_negative_int64 n ≡ some v → pos_part v ≡ 0
    minus zero e = unfold fit_negative_int64 in ground arith
    minus (suc n) e = unfold fit_negative_int64 in ground arith

or_throw-eq-ok {ℓ} :
    {A : Type ℓ} (o : Option A) (message : Bytes) (a : A) → or_throw o message ≡ ok a → o ≡ some a
or_throw-eq-ok none message a h = cc
or_throw-eq-ok (some b) message a h = cc

module _ (s : Bytes) (base : ℕ) (number : Number) where
  unsigned-IsValid :
      (narrow : ℕ → Number)
      → ((v : ℕ) → v < 2 ^ 64 → IsValid (narrow v))
      → (message : Bytes)
      → (or_throw (parse_uint64 s base) message >>= λ v. ok (narrow v)) ≡ ok number
      → IsValid number
  unsigned-IsValid narrow valid message h =
      let (v, e, r) = >>=-eq-ok (or_throw (parse_uint64 s base) message) (λ v. ok (narrow v)) h in
      let fits = parse_uint64-lt s base v (or_throw-eq-ok _ message v e) in
      let same : narrow v ≡ number = cc in subst IsValid same (valid v fits)

  signed-IsValid :
      (narrow : ℤ → Number)
      → ((v : ℤ) → parse_int64 s base ≡ some v → IsValid (narrow v))
      → (message : Bytes)
      → (or_throw (parse_int64 s base) message >>= λ v. ok (narrow v)) ≡ ok number
      → IsValid number
  signed-IsValid narrow valid message h =
      let (v, e, r) = >>=-eq-ok (or_throw (parse_int64 s base) message) (λ v. ok (narrow v)) h in
      let same : narrow v ≡ number = cc in
      subst IsValid same (valid v (or_throw-eq-ok _ message v e))

  by_suffix-IsValid :
      (suffix : IntegerSuffix) (negative : Bool)
      → (negative ≡ true → starts_negative s ≡ true)
      → parse_by_suffix suffix negative s base ≡ ok number
      → IsValid number
  unfolding parse_by_suffix
  by_suffix-IsValid u b m h = unsigned-IsValid narrow_unsigned narrow_unsigned-IsValid _ h
  by_suffix-IsValid ul b m h = unsigned-IsValid narrow_unsigned narrow_unsigned-IsValid _ h
  by_suffix-IsValid ull b m h = unsigned-IsValid narrow_unsigned narrow_unsigned-IsValid _ h
  by_suffix-IsValid l b m h = signed-IsValid int64 (parse_int64-IsSigned s base) _ h
  by_suffix-IsValid ll b m h = signed-IsValid int64 (parse_int64-IsSigned s base) _ h
  by_suffix-IsValid no_suffix true m h =
      signed-IsValid narrow_negative
        (λ v e.
          narrow_negative-IsValid v (parse_int64-IsSigned s base v e)
            (parse_int64-negative s base v (m refl) e))
        _ h
  by_suffix-IsValid no_suffix false m h =
      unsigned-IsValid narrow_positive narrow_positive-IsValid _ h

-- The exception "negative hexadecimal not supported" is out of reach: a text with a hexadecimal
-- prefix begins with `0`.
hex_never_negative : (s : Bytes) → has_hex_prefix s ≡ true → starts_negative s ≡ false
unfolding has_hex_prefix starts_negative
hex_never_negative [] h = cc
hex_never_negative (a ∷ []) h = cc
hex_never_negative (a ∷ b ∷ s) h = ground arith

-- Every number that `parse_integer_number` returns is in the range of its C++ type.
pub parse_integer_number-IsValid :
    (input : Bytes) (number : Number) → parse_integer_number input ≡ ok number → IsValid number
unfolding parse_integer_number
parse_integer_number-IsValid input number h = elim (Bool-cases (has_hex_prefix s)) [
  | inl hex ↦
      by_suffix-IsValid (drop 2 s) 16 number suffix false (λ e. cc)
        (rw (hex, hex_never_negative s hex) at h)
  | inr decimal ↦
      by_suffix-IsValid s 10 number suffix (starts_negative s) (λ e. e) (rw decimal at h)
]
  where
    s : Bytes
    s = (remove_suffix input).0

    suffix : IntegerSuffix
    suffix = (remove_suffix input).1
