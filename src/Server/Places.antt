-- ===== src/Server/Places.antt =====
-- The place of a client in the list, while a pass goes over it.
use communo.Prelude.{
  ◌⊎◌, ℕ, zero, suc, ◌≡◌, refl, ◌∙◌, ap, List, [], ◌∷◌, ◌++◌, none, some, length, map, get_elem?,
  inl, inr,
}
use communo.Server.{ClientSocket, World, clients}
use communo.Server.Requests.{drop_client}
use communo.Server.Frame.{stripped, connections}
use communo.Server.Erase.{remove_at, erase_at-remove_at}

get_elem?-stripped :
    (all : List ClientSocket) (i : ℕ)
    → (get_elem? all i ≡ none) × (get_elem? (map stripped all) i ≡ none)
      ⊎ ((client : ClientSocket) × (get_elem? all i ≡ some client)
          × (get_elem? (map stripped all) i ≡ some (stripped client)))
get_elem?-stripped [] i = inl (refl, refl)
get_elem?-stripped (c ∷ all) zero = inr (c, refl, refl)
get_elem?-stripped (c ∷ all) (suc i) = get_elem?-stripped all i

get_elem?-front :
    (front : List ClientSocket) (c : ClientSocket) (rest : List ClientSocket)
    → get_elem? (front ++ (c ∷ rest)) (length front) ≡ some c
get_elem?-front [] c rest = refl
get_elem?-front (d ∷ front) c rest = get_elem?-front front c rest

get_elem?-end : (front : List ClientSocket) → get_elem? (front ++ []) (length front) ≡ none
get_elem?-end [] = refl
get_elem?-end (d ∷ front) = get_elem?-end front

remove_at-front :
    (front : List ClientSocket) (c : ClientSocket) (rest : List ClientSocket)
    → remove_at (length front) (front ++ (c ∷ rest)) ≡ front ++ rest
remove_at-front [] c rest = refl
remove_at-front (d ∷ front) c rest = ap (◌∷◌ d) (remove_at-front front c rest)

remove_at-map :
    (i : ℕ) (all : List ClientSocket)
    → map stripped (remove_at i all) ≡ remove_at i (map stripped all)
remove_at-map zero [] = refl
remove_at-map (suc i) [] = refl
remove_at-map zero (c ∷ all) = refl
remove_at-map (suc i) (c ∷ all) = ap (◌∷◌ (stripped c)) (remove_at-map i all)

pub drop_client-connections :
    (client : ClientSocket) (front : List ClientSocket) (c : ClientSocket)
    (rest : List ClientSocket) (w : World)
    → connections w ≡ front ++ (c ∷ rest)
    → connections (drop_client (length front) client w) ≡ front ++ rest
unfolding drop_client
drop_client-connections client front c rest w e =
    ap (map stripped) (erase_at-remove_at (length front) (clients w))
    ∙ remove_at-map (length front) (clients w)
    ∙ ap (remove_at (length front)) e
    ∙ remove_at-front front c rest

-- The client at the iterator, if there is one behind the part that was passed.
pub at_iterator :
    (front : List ClientSocket) (c : ClientSocket) (rest : List ClientSocket) (w : World)
    → connections w ≡ front ++ (c ∷ rest)
    → (client : ClientSocket) × (get_elem? (clients w) (length front) ≡ some client)
      × (stripped client ≡ c)
at_iterator front c rest w e = elim (get_elem?-stripped (clients w) (length front)) [
  | inl (out, absent) ↦ absurd (cc (absent, e, get_elem?-front front c rest))
  | inr (client, there, same) ↦ (client, there, cc (same, e, get_elem?-front front c rest))
]

pub at_end :
    (front : List ClientSocket) (w : World)
    → connections w ≡ front ++ []
    → get_elem? (clients w) (length front) ≡ none
at_end front w e = elim (get_elem?-stripped (clients w) (length front)) [
  | inl (out, absent) ↦ out
  | inr (client, there, same) ↦ absurd (cc (same, e, get_elem?-end front))
]

pub length-connections : (all : List ClientSocket) → length (map stripped all) ≡ length all
length-connections [] = refl
length-connections (c ∷ all) = ap suc (length-connections all)
