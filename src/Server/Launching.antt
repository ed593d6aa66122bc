-- ===== src/Server/Launching.antt =====
-- Which arguments `Options` accepts, and what `main` does about the others.
use mathlib.Core.Path.{subst}
use communo.Prelude.{
  ◌≡◌, refl, ◌∙◌, ap, ◌⊎◌, inl, inr, Bool, true, false, not, ◌||◌, List, [], ◌∷◌, ◌++◌, arith,
  Bytes, codes, bytes_eq, bytes_eq→eq, ltb, if◌then◌else◌, length, take, drop, map, ◌==◌, ◌&&◌, All,
  Bool-cases,
}
use communo.Logging.{to_cerr}
use communo.Server.Options.{
  known_options, has_name, insert_name, parse_options, ends, help_lines, launch,
}

-- The three arguments that are options.
abbrev pub option_texts : List Bytes
option_texts = codes "--no-daemon" ∷ codes "--debug" ∷ codes "--help" ∷ []

-- The message for an argument that is no option.
abbrev pub complaint : Bytes → Bytes
complaint arg =
    if ltb (length arg) 3 || not (bytes_eq (take 2 arg) (codes "--"))
    then codes "Invalid argument: " ++ arg
    else codes "Unknown option: --" ++ drop 2 arg

-- The tests that the constructor makes of one argument.
abbrev is_malformed : Bytes → Bool
is_malformed arg = ltb (length arg) 3 || not (bytes_eq (take 2 arg) (codes "--"))

or_none : (a : Bool) → (a || false) ≡ a
or_none true = refl
or_none false = refl

or_swap : (a b c : Bool) → (a || (b || c)) ≡ ((b || a) || c)
or_swap true true c = refl
or_swap true false c = refl
or_swap false true c = refl
or_swap false false c = refl

-- They come down to whether it is one of the three.
accepted_option :
    (arg : Bytes)
    → (not (is_malformed arg) && has_name (drop 2 arg) known_options) ≡ has_name arg option_texts
unfolding has_name bytes_eq
accepted_option [] = refl
accepted_option (a ∷ []) = elim (Bool-cases (45 == a)) [ inl e ↦ rw e | inr e ↦ rw e ]
accepted_option (a ∷ b ∷ []) = elim (Bool-cases (45 == a)) [
  | inl e ↦ rw e (elim (Bool-cases (45 == b)) [ inl f ↦ rw f | inr f ↦ rw f ])
  | inr e ↦ rw e
]
accepted_option (a ∷ b ∷ c ∷ t) =
    let size : ltb (length (a ∷ b ∷ c ∷ t)) 3 ≡ false = ground arith in
    elim (Bool-cases (45 == a)) [
      | inr e ↦ let f : (a == 45) ≡ false = ground arith in rw (e, f, size)
      | inl e ↦
          let f : (a == 45) ≡ true = ground arith in
          elim (Bool-cases (45 == b)) [
            | inr g ↦ let h : (b == 45) ≡ false = ground arith in rw (e, f, g, h, size)
            | inl g ↦ let h : (b == 45) ≡ true = ground arith in rw (e, f, g, h, size)
          ]
    ]

has_name-insert :
    (name other : Bytes) (names : List Bytes)
    → has_name name (insert_name other names) ≡ (bytes_eq other name || has_name name names)
unfolding insert_name has_name
has_name-insert name other names = elim (Bool-cases (has_name other names)) [
  | inr e ↦ rw (insert_name, e)
  | inl e ↦ elim (Bool-cases (bytes_eq other name)) [
    | inr f ↦ rw (insert_name, e, f)
    | inl f ↦
        rw (insert_name, e, f) (subst (λ x. has_name x names ≡ true) (bytes_eq→eq other name f) e)
  ]
]

-- Arguments that are all options are accepted; an option is set if its text is among them.
parse_options-accepts :
    (names args : List Bytes) (name : Bytes)
    → All (λ arg. has_name arg option_texts ≡ true) args
    → ((parse_options names args).valid ≡ true)
      × (has_name name (parse_options names args).options
          ≡ (has_name name (map (drop 2) args) || has_name name names))
unfolding parse_options has_name
parse_options-accepts names [] name h = (refl, refl)
parse_options-accepts names (arg ∷ args) name h =
    let fits = accepted_option arg ∙ h.0 in
    let (v, o) = parse_options-accepts (insert_name (drop 2 arg) names) args name h.1 in
    elim (Bool-cases (is_malformed arg)) [
      | inl bad ↦ absurd (cc (fits, bad))
      | inr good ↦
          let known : has_name (drop 2 arg) known_options ≡ true = rw good at fits in
          (
            rw (parse_options, good, known) v,
            rw (parse_options, good, known)
                (o
                  ∙ rw has_name-insert (
                      or_swap (has_name name (map (drop 2) args)) (bytes_eq (drop 2 arg) name)
                        (has_name name names))),
          )
    ]

-- What the first argument that is no option leads to.
parse_options-rejects :
    (names good : List Bytes) (bad : Bytes) (rest : List Bytes)
    → All (λ arg. has_name arg option_texts ≡ true) good
    → has_name bad option_texts ≡ false
    → ((parse_options names (good ++ (bad ∷ rest))).valid ≡ false)
      × ((parse_options names (good ++ (bad ∷ rest))).error ≡ complaint bad)
unfolding parse_options
parse_options-rejects names [] bad rest h b = elim (Bool-cases (is_malformed bad)) [
  | inl wrong ↦ (rw (parse_options, wrong), rw (parse_options, wrong))
  | inr good ↦
      let unknown : has_name (drop 2 bad) known_options ≡ false =
        rw good at (accepted_option bad ∙ b) in
      (rw (parse_options, good, unknown), rw (parse_options, good, unknown))
]
parse_options-rejects names (arg ∷ good) bad rest h b =
    let fits = accepted_option arg ∙ h.0 in
    let (v, e) = parse_options-rejects (insert_name (drop 2 arg) names) good bad rest h.1 b in
    elim (Bool-cases (is_malformed arg)) [
      | inl wrong ↦ absurd (cc (fits, wrong))
      | inr right ↦
          let known : has_name (drop 2 arg) known_options ≡ true = rw right at fits in
          (rw (parse_options, right, known) v, rw (parse_options, right, known) e)
    ]

-- The arguments up to the first that is no option.
record FirstBad (args : List Bytes) : Type 0 where
  good : List Bytes
  bad : Bytes
  rest : List Bytes
  split : args ≡ good ++ (bad ∷ rest)
  options : All (λ arg. has_name arg option_texts ≡ true) good
  no_option : has_name bad option_texts ≡ false

first_bad : (args : List Bytes) → All (λ arg. has_name arg option_texts ≡ true) args ⊎ FirstBad args
first_bad [] = inl tt
first_bad (arg ∷ args) = elim (Bool-cases (has_name arg option_texts)) [
  | inr b ↦
      inr (record { good = []; bad = arg; rest = args; split = refl; options = tt; no_option = b })
  | inl g ↦ elim (first_bad args) [
    | inl all ↦ inl (g, all)
    | inr f ↦ inr (record {
      good = arg ∷ f.good;
      bad = f.bad;
      rest = f.rest;
      split = ap (◌∷◌ arg) f.split;
      options = (g, f.options);
      no_option = f.no_option;
    })
  ]
]

-- Arguments that are all `--no-daemon`, `--debug` or `--help`, in any number and order, are accepted,
-- and exactly those given are set. Otherwise the first argument that is none of them is named on
-- the console, with the help, and the program ends with code 1 before a server is made.
pub launch_options :
    (args : List Bytes) (name : Bytes)
    → (All (λ arg. has_name arg option_texts ≡ true) args
        × ((parse_options [] args).valid ≡ true)
        × (has_name name (parse_options [] args).options ≡ has_name name (map (drop 2) args)))
      ⊎ ((good : List Bytes) × (bad : Bytes) × (rest : List Bytes) × (args ≡ good ++ (bad ∷ rest))
          × All (λ arg. has_name arg option_texts ≡ true) good
          × (has_name bad option_texts ≡ false)
          × (launch args ≡ ends 1 (to_cerr (complaint bad) ∷ help_lines)))
unfolding launch has_name
launch_options args name = elim (first_bad args) [
  | inl all ↦ inl (
    all,
    (parse_options-accepts [] args [] all).0,
    (parse_options-accepts [] args name all).1 ∙ or_none (has_name name (map (drop 2) args)),
  )
  | inr f ↦
      let (v, e) = parse_options-rejects [] f.good f.bad f.rest f.options f.no_option in
      inr (f.good, f.bad, f.rest, f.split, f.options, f.no_option, rw (f.split, v, e))
]
