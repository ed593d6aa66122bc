-- ===== src/NumParser/Codec.antt =====
-- The wire format: what `read_number` makes of the bytes that `append_number` wrote, and of any
-- bytes at all.
use native.Mathlib.Nat.{mod-eq_of_lt}
use mathlib.Core.Path.{subst₂}
use communo.Prelude.{
  ◌∙◌, take, drop, memcpy_uint-image, zero, suc, AllBytes, ◌-◌, ap, memcpy_uint-lt,
  memcpy_uint-within, >>=-eq-ok, ℕ, ◌+◌, ◌*◌, ◌%◌, ◌^◌, ◌≤◌, ◌<◌, ◌≡◌, refl, arith, Bytes, ◌++◌,
  append_assoc, ok, throws, runtime_error, ℤ, pos, negsuc, IsSigned, to_word, of_word, codes,
  le_bytes, length, length-append, length-le_bytes, memcpy_uint, memcpy_uint-append,
}
use communo.NumParser.{
  Number, int8, uint8, int16, uint16, int32, uint32, int64, uint64, float, double, IsValid,
  get_number_type, number_bytes, append_number, read_number, read_value,
}

to_word-lt : (half : ℕ) (z : ℤ) → 0 < half → to_word half z < 2 * half
unfolding to_word
to_word-lt half (pos n) h = grind arith
to_word-lt half (negsuc n) h = omega arith

pub of_word-to_word : (half : ℕ) (z : ℤ) → IsSigned half z → of_word half (to_word half z) ≡ z
unfolding to_word of_word
of_word-to_word half (pos n) h =
    let e : n % (2 * half) ≡ n = mod-eq_of_lt (omega arith) in rw e (ground arith)
of_word-to_word half (negsuc n) h =
    let e : n % (2 * half) ≡ n = mod-eq_of_lt (omega arith) in rw e (ground arith)

pub of_word-IsSigned : (half w : ℕ) → w < 2 * half → IsSigned half (of_word half w)
unfolding of_word
of_word-IsSigned half w h = ground arith

pub to_word-of_word : (half w : ℕ) → w < 2 * half → to_word half (of_word half w) ≡ w
unfolding to_word of_word
to_word-of_word half w h = ground (
  arith,
  mod-eq_of_lt {n = w} {m = 2 * half} h,
  mod-eq_of_lt {n = 2 * half - 1 - w} {m = 2 * half},
)

read_at :
    (front : Bytes) (w n : ℕ) (back : Bytes)
    → n < 256 ^ w
    → memcpy_uint ((front ++ le_bytes w n) ++ back) (length front) w ≡ ok n
read_at front w n back h = rw append_assoc (memcpy_uint-append front w n back h)

offset_after : (front : Bytes) (w n : ℕ) → length (front ++ le_bytes w n) ≡ length front + w
offset_after front w n = rw length-append (ap (◌+◌ (length front)) (length-le_bytes w n))

-- One case of `read_number` on the bytes of one alternative, signed or not.
read_signed :
    (mk : ℤ → Number) (front : Bytes) (w half : ℕ) (z : ℤ) (back : Bytes)
    → 2 * half ≡ 256 ^ w
    → IsSigned half z
    → read_value
        ((front ++ le_bytes w (to_word half z)) ++ back)
        (length front)
        w
        (λ v. mk (of_word half v))
      ≡ ok (mk z, length (front ++ le_bytes w (to_word half z)))
unfolding read_value
read_signed mk front w half z back e h =
    let fits : to_word half z < 256 ^ w = rw (← e) (to_word-lt half z (omega arith)) in
    rw (
      read_at front w (to_word half z) back fits,
      offset_after front w (to_word half z),
      of_word-to_word half z h,
    )

read_unsigned :
    (mk : ℕ → Number) (front : Bytes) (w n : ℕ) (back : Bytes)
    → n < 256 ^ w
    → read_value ((front ++ le_bytes w n) ++ back) (length front) w mk
      ≡ ok (mk n, length (front ++ le_bytes w n))
unfolding read_value
read_unsigned mk front w n back h = rw (read_at front w n back h, offset_after front w n)

-- A valid number that is appended to a string reads back as it was, whatever follows, and the
-- offset moves just behind it.
pub read_number-append_number :
    (front : Bytes) (number : Number) (back : Bytes)
    → IsValid number
    → read_number (append_number front number ++ back) (length front) (get_number_type number)
      ≡ ok (number, length (append_number front number))
unfolding read_number append_number number_bytes get_number_type
read_number-append_number front (int8 z) back h = read_signed int8 front 1 (2 ^ 7) z back refl h
read_number-append_number front (uint8 n) back h = read_unsigned uint8 front 1 n back h
read_number-append_number front (int16 z) back h = read_signed int16 front 2 (2 ^ 15) z back refl h
read_number-append_number front (uint16 n) back h = read_unsigned uint16 front 2 n back h
read_number-append_number front (int32 z) back h = read_signed int32 front 4 (2 ^ 31) z back refl h
read_number-append_number front (uint32 n) back h = read_unsigned uint32 front 4 n back h
read_number-append_number front (int64 z) back h = read_signed int64 front 8 (2 ^ 63) z back refl h
read_number-append_number front (uint64 n) back h = read_unsigned uint64 front 8 n back h
read_number-append_number front (float b) back h = read_unsigned float front 4 b back h
read_number-append_number front (double b) back h = read_unsigned double front 8 b back h

-- What `read_number` returns stands in the buffer in the format of its type.
pub record Decodes (buffer : Bytes) (offset type : ℕ) (number : Number) (after : ℕ) : Type 0 where
  pub typed : get_number_type number ≡ type
  pub valid : IsValid number
  pub moved : after ≡ offset + length (number_bytes number)
  pub within : after ≤ length buffer
  pub stored : take (length (number_bytes number)) (drop offset buffer) ≡ number_bytes number

-- What one case of `read_number` needs to know of its alternative `of_bits`.
record IsCase (type size : ℕ) (of_bits : ℕ → Number) : Type 0 where
  typed : (n : ℕ) → get_number_type (of_bits n) ≡ type
  valid : (n : ℕ) → n < 256 ^ size → IsValid (of_bits n)
  sized : (n : ℕ) → length (number_bytes (of_bits n)) ≡ size
  bytes : (n : ℕ) → n < 256 ^ size → number_bytes (of_bits n) ≡ le_bytes size n

read_value-Decodes :
    (buffer : Bytes) (offset type size : ℕ) (of_bits : ℕ → Number) (number : Number) (after : ℕ)
    → IsCase type size of_bits
    → AllBytes buffer
    → read_value buffer offset size of_bits ≡ ok (number, after)
    → Decodes buffer offset type number after
unfolding read_value
read_value-Decodes buffer offset type size of_bits number after case all h =
    let (value, read, rest) =
      >>=-eq-ok (memcpy_uint buffer offset size) (λ v. ok (of_bits v, offset + size)) h in
    let fits = memcpy_uint-lt buffer offset size value all read in
    let number_eq : of_bits value ≡ number = ground arith in
    let after_eq : offset + size ≡ after = ground arith in
    let image = memcpy_uint-image buffer offset size value all read in
    subst₂ (λ n a. Decodes buffer offset type n a) number_eq after_eq
      (record {
        typed = case.typed value;
        valid = case.valid value fits;
        moved = omega (arith, case.sized value);
        within = omega (arith, memcpy_uint-within buffer offset size value read);
        stored = rw (case.bytes value fits, length-le_bytes size value) image;
      })

IsCase-signed :
    (type size half : ℕ) (mk : ℤ → Number)
    → 2 * half ≡ 256 ^ size
    → ((z : ℤ) → get_number_type (mk z) ≡ type)
    → ((z : ℤ) → IsSigned half z → IsValid (mk z))
    → ((z : ℤ) → number_bytes (mk z) ≡ le_bytes size (to_word half z))
    → IsCase type size (λ v. mk (of_word half v))
IsCase-signed type size half mk e typed valid bytes = record {
  typed = λ n. typed (of_word half n);
  valid = λ n h. valid (of_word half n) (of_word-IsSigned half n (rw e h));
  sized = λ n.
      ap length (bytes (of_word half n)) ∙ length-le_bytes size (to_word half (of_word half n));
  bytes = λ n h. bytes (of_word half n) ∙ ap (le_bytes size) (to_word-of_word half n (rw e h));
}

IsCase-plain :
    {type : ℕ} {mk : ℕ → Number} (size : ℕ)
    → ((n : ℕ) → get_number_type (mk n) ≡ type)
    → ((n : ℕ) → n < 256 ^ size → IsValid (mk n))
    → ((n : ℕ) → number_bytes (mk n) ≡ le_bytes size n)
    → IsCase type size mk
IsCase-plain size typed valid bytes = record {
  typed = typed;
  valid = valid;
  sized = λ n. ap length (bytes n) ∙ length-le_bytes size n;
  bytes = λ n h. bytes n;
}

-- A type byte that is no `eNumberTypes` value makes `read_number` throw, whatever follows it.
pub read_number_unknown :
    (buffer : Bytes) (offset type : ℕ)
    → 10 ≤ type
    → read_number buffer offset type ≡ throws (runtime_error (codes "Unknown number type"))
unfolding read_number
read_number_unknown buffer offset type h = ground arith

IsCase-int8 : IsCase 0 1 (λ v. int8 (of_word (2 ^ 7) v))
unfolding get_number_type number_bytes
IsCase-int8 = IsCase-signed 0 1 (2 ^ 7) int8 refl (λ z. refl) (λ z h. h) (λ z. refl)

IsCase-uint8 : IsCase 1 1 uint8
unfolding get_number_type number_bytes
IsCase-uint8 = IsCase-plain 1 (λ n. refl) (λ n h. h) (λ n. refl)

IsCase-int16 : IsCase 2 2 (λ v. int16 (of_word (2 ^ 15) v))
unfolding get_number_type number_bytes
IsCase-int16 = IsCase-signed 2 2 (2 ^ 15) int16 refl (λ z. refl) (λ z h. h) (λ z. refl)

IsCase-uint16 : IsCase 3 2 uint16
unfolding get_number_type number_bytes
IsCase-uint16 = IsCase-plain 2 (λ n. refl) (λ n h. h) (λ n. refl)

IsCase-int32 : IsCase 4 4 (λ v. int32 (of_word (2 ^ 31) v))
unfolding get_number_type number_bytes
IsCase-int32 = IsCase-signed 4 4 (2 ^ 31) int32 refl (λ z. refl) (λ z h. h) (λ z. refl)

IsCase-uint32 : IsCase 5 4 uint32
unfolding get_number_type number_bytes
IsCase-uint32 = IsCase-plain 4 (λ n. refl) (λ n h. h) (λ n. refl)

IsCase-int64 : IsCase 6 8 (λ v. int64 (of_word (2 ^ 63) v))
unfolding get_number_type number_bytes
IsCase-int64 = IsCase-signed 6 8 (2 ^ 63) int64 refl (λ z. refl) (λ z h. h) (λ z. refl)

IsCase-uint64 : IsCase 7 8 uint64
unfolding get_number_type number_bytes
IsCase-uint64 = IsCase-plain 8 (λ n. refl) (λ n h. h) (λ n. refl)

IsCase-float : IsCase 8 4 float
unfolding get_number_type number_bytes
IsCase-float = IsCase-plain 4 (λ n. refl) (λ n h. h) (λ n. refl)

IsCase-double : IsCase 9 8 double
unfolding get_number_type number_bytes
IsCase-double = IsCase-plain 8 (λ n. refl) (λ n h. h) (λ n. refl)

-- Whatever bytes the buffer holds, a number that `read_number` returns is of the type asked for,
-- in the range of its C++ type, and its bytes, lowest first, are those that stand between the two offsets,
-- inside the buffer.
pub read_number-Decodes :
    (buffer : Bytes) (offset type : ℕ) (number : Number) (after : ℕ)
    → AllBytes buffer
    → read_number buffer offset type ≡ ok (number, after)
    → Decodes buffer offset type number after
unfolding read_number
read_number-Decodes b o zero n a all h = read_value-Decodes b o 0 1 _ n a IsCase-int8 all h
read_number-Decodes b o (suc zero) n a all h = read_value-Decodes b o 1 1 _ n a IsCase-uint8 all h
read_number-Decodes b o (suc (suc zero)) n a all h =
    read_value-Decodes b o 2 2 _ n a IsCase-int16 all h
read_number-Decodes b o (suc (suc (suc zero))) n a all h =
    read_value-Decodes b o 3 2 _ n a IsCase-uint16 all h
read_number-Decodes b o (suc (suc (suc (suc zero)))) n a all h =
    read_value-Decodes b o 4 4 _ n a IsCase-int32 all h
read_number-Decodes b o (suc (suc (suc (suc (suc zero))))) n a all h =
    read_value-Decodes b o 5 4 _ n a IsCase-uint32 all h
read_number-Decodes b o (suc (suc (suc (suc (suc (suc zero)))))) n a all h =
    read_value-Decodes b o 6 8 _ n a IsCase-int64 all h
read_number-Decodes b o (suc (suc (suc (suc (suc (suc (suc zero))))))) n a all h =
    read_value-Decodes b o 7 8 _ n a IsCase-uint64 all h
read_number-Decodes b o (suc (suc (suc (suc (suc (suc (suc (suc zero)))))))) n a all h =
    read_value-Decodes b o 8 4 _ n a IsCase-float all h
read_number-Decodes b o (suc (suc (suc (suc (suc (suc (suc (suc (suc zero))))))))) n a all h =
    read_value-Decodes b o 9 8 _ n a IsCase-double all h
read_number-Decodes b o (suc (suc (suc (suc (suc (suc (suc (suc (suc (suc k)))))))))) n a all h =
    absurd (
      cc (
        read_number_unknown b o (suc (suc (suc (suc (suc (suc (suc (suc (suc (suc k))))))))))
          (omega arith)))
