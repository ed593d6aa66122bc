-- ===== src/NumParser/Suffixed.antt =====
-- `remove_suffix` on digits with letters behind them.
use communo.Prelude.{
  ℕ, zero, suc, ◌+◌, ◌-◌, ◌≤◌, ◌<◌, ◌≡◌, refl, ap, true, false, ◌||◌, [], ◌∷◌, ◌++◌, arith, Bytes,
  codes, bytes_eq, length, length-append, take, drop, leb, ◌==◌, All, Bool-cases, inl, inr,
}
use communo.NumParser.Parse.{ends_with, chop, remove_suffix}
use communo.NumParser.Suffix.{IsDigit, IsLetter}

drop-past : (s t : Bytes) (n : ℕ) → drop (length s + n) (s ++ t) ≡ drop n t
drop-past [] t n = let e : 0 + n ≡ n = omega arith in rw e refl
drop-past (c ∷ s) t n =
    let e : length (c ∷ s) + n ≡ suc (length s + n) = omega arith in rw e (drop-past s t n)

take-past : (s t : Bytes) (n : ℕ) → take (length s + n) (s ++ t) ≡ s ++ take n t
take-past [] t n = let e : 0 + n ≡ n = omega arith in rw e refl
take-past (c ∷ s) t n =
    let e : length (c ∷ s) + n ≡ suc (length s + n) = omega arith in
    rw e (ap (◌∷◌ c) (take-past s t n))

-- A place among the digits.
drop-inside :
    (s t : Bytes) (n : ℕ)
    → All IsDigit s
    → n < length s
    → (c : ℕ) × (r : Bytes) × (drop n (s ++ t) ≡ c ∷ r) × IsDigit c
drop-inside [] t n h k = absurd (omega arith)
drop-inside (c ∷ s) t zero h k = (c, s ++ t, refl, h.0)
drop-inside (c ∷ s) t (suc n) h k = drop-inside s t n h.1 (omega arith)

digit_differs : (d c : ℕ) (s r : Bytes) → IsDigit d → IsLetter c → bytes_eq (d ∷ s) (c ∷ r) ≡ false
unfolding bytes_eq
digit_differs d c s r h k = let e : (d == c) ≡ false = ground arith in rw e refl

ends_with-append :
    (s t : Bytes) (c : ℕ) (r : Bytes)
    → All IsDigit s
    → IsLetter c
    → ends_with (s ++ t) (c ∷ r) ≡ ends_with t (c ∷ r)
unfolding ends_with
ends_with-append s t c r h k =
    let total = length-append s t in
    elim (Bool-cases (leb (length (c ∷ r)) (length t))) [
      | inl fits ↦
          let enough : leb (length (c ∷ r)) (length (s ++ t)) ≡ true = ground arith in
          let place : length (s ++ t) - length (c ∷ r) ≡ length s + (length t - length (c ∷ r)) =
            ground arith in
          rw (fits, enough, place, drop-past s t (length t - length (c ∷ r))) refl
      | inr long ↦ elim (Bool-cases (leb (length (c ∷ r)) (length (s ++ t)))) [
        | inr longer ↦ rw (long, longer) refl
        | inl fits ↦
            let (d, more, at_digit, digit) =
              drop-inside s t (length (s ++ t) - length (c ∷ r)) h (ground arith) in
            let differs : bytes_eq (d ∷ more) (c ∷ r) ≡ false = digit_differs d c more r digit k in
            rw (long, fits, at_digit, differs) refl
      ]
    ]

ends_with-size : (t r : Bytes) → ends_with t r ≡ true → length r ≤ length t
unfolding ends_with
ends_with-size t r h = ground arith

chop-append : (s t : Bytes) (n : ℕ) → n ≤ length t → chop (s ++ t) n ≡ s ++ chop t n
unfolding chop
chop-append s t n h =
    let place : length (s ++ t) - n ≡ length s + (length t - n) =
      omega (arith, h, length-append s t) in
    rw place (take-past s t (length t - n))

either-size :
    (t a b : Bytes) (n : ℕ)
    → length a ≡ n
    → length b ≡ n
    → (ends_with t a || ends_with t b) ≡ true
    → n ≤ length t
either-size t a b n p q h = elim (Bool-cases (ends_with t a)) [
  | inl e ↦ omega (arith, ends_with-size t a e, p)
  | inr e ↦ let f : ends_with t b ≡ true = rw e at h in omega (arith, ends_with-size t b f, q)
]

-- What stands in front of the letters is left as it is.
pub remove_suffix-append :
    (s t : Bytes)
    → All IsDigit s
    → remove_suffix (s ++ t) ≡ (s ++ (remove_suffix t).0, (remove_suffix t).1)
unfolding remove_suffix
remove_suffix-append s t h =
    rw
      (
        ends_with-append s t b'U' (codes "LL") h (omega arith),
        ends_with-append s t b'u' (codes "ll") h (omega arith),
        ends_with-append s t b'U' (codes "L") h (omega arith),
        ends_with-append s t b'u' (codes "l") h (omega arith),
        ends_with-append s t b'L' (codes "L") h (omega arith),
        ends_with-append s t b'l' (codes "l") h (omega arith),
        ends_with-append s t b'U' [] h (omega arith),
        ends_with-append s t b'u' [] h (omega arith),
        ends_with-append s t b'L' [] h (omega arith),
        ends_with-append s t b'l' [] h (omega arith),
      )
      (elim (Bool-cases (ends_with t (codes "ULL") || ends_with t (codes "ull"))) [
        | inl e ↦
            rw (e, chop-append s t 3 (either-size t (codes "ULL") (codes "ull") 3 refl refl e)) refl
        | inr e1 ↦ elim (Bool-cases (ends_with t (codes "UL") || ends_with t (codes "ul"))) [
          | inl e ↦
              rw (e1, e, chop-append s t 2 (either-size t (codes "UL") (codes "ul") 2 refl refl e))
                refl
          | inr e2 ↦ elim (Bool-cases (ends_with t (codes "LL") || ends_with t (codes "ll"))) [
            | inl e ↦
                rw
                  (
                    e1,
                    e2,
                    e,
                    chop-append s t 2 (either-size t (codes "LL") (codes "ll") 2 refl refl e),
                  )
                  refl
            | inr e3 ↦ elim (Bool-cases (ends_with t (codes "U") || ends_with t (codes "u"))) [
              | inl e ↦
                  rw
                    (
                      e1,
                      e2,
                      e3,
                      e,
                      chop-append s t 1 (either-size t (codes "U") (codes "u") 1 refl refl e),
                    )
                    refl
              | inr e4 ↦ elim (Bool-cases (ends_with t (codes "L") || ends_with t (codes "l"))) [
                | inl e ↦
                    rw
                      (
                        e1,
                        e2,
                        e3,
                        e4,
                        e,
                        chop-append s t 1 (either-size t (codes "L") (codes "l") 1 refl refl e),
                      )
                      refl
                | inr e5 ↦ rw (e1, e2, e3, e4, e5) refl
              ]
            ]
          ]
        ]
      ])
