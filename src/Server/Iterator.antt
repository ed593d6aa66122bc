-- ===== src/Server/Iterator.antt =====
-- The list of clients from an iterator on, and without the client that it stands at.
use communo.Prelude.{
  ℕ, zero, suc, ◌≤◌, ◌≡◌, refl, ap, List, [], ◌∷◌, none, some, arith, length, get_elem?, drop,
}
use communo.Server.{ClientSocket}
use communo.Server.Erase.{remove_at}

pub drop-remove_at : (n : ℕ) (all : List ClientSocket) → drop n (remove_at n all) ≡ drop (suc n) all
drop-remove_at zero [] = refl
drop-remove_at zero (c ∷ all) = refl
drop-remove_at (suc n) [] = refl
drop-remove_at (suc n) (c ∷ all) = drop-remove_at n all

-- The clients from an iterator on are the one it stands at and those after it.
pub drop-at :
    (n : ℕ) (all : List ClientSocket) (client : ClientSocket)
    → get_elem? all n ≡ some client
    → drop n all ≡ client ∷ drop (suc n) all
drop-at n [] client there = cc
drop-at zero (c ∷ all) client there = let same : c ≡ client = ground arith in rw same refl
drop-at (suc n) (c ∷ all) client there = drop-at n all client there

pub drop-past : (n : ℕ) (all : List ClientSocket) → get_elem? all n ≡ none → drop n all ≡ []
drop-past zero [] out = refl
drop-past (suc n) [] out = refl
drop-past zero (c ∷ all) out = cc
drop-past (suc n) (c ∷ all) out = drop-past n all out

pub length-remove_at :
    (n : ℕ) (all : List ClientSocket) (client : ClientSocket)
    → get_elem? all n ≡ some client
    → suc (length (remove_at n all)) ≡ length all
length-remove_at n [] client there = cc
length-remove_at zero (c ∷ all) client there = refl
length-remove_at (suc n) (c ∷ all) client there = ap suc (length-remove_at n all client there)

pub inside :
    (n : ℕ) (all : List ClientSocket) (client : ClientSocket)
    → get_elem? all n ≡ some client
    → suc n ≤ length all
inside n [] client there = cc
inside zero (c ∷ all) client there = omega arith
inside (suc n) (c ∷ all) client there = omega (arith, inside n all client there)
