-- ===== src/Cli/Longest.antt =====
-- The search of `CLI::run` for the longest command.
use communo.Prelude.{
  ℕ, suc, ◌≤◌, ◌≡◌, refl, sym, ◌∙◌, ap, ◌⊎◌, inl, inr, true, false, List, [], ◌∷◌, ◌++◌,
  append_assoc, arith, Bytes, length, if◌then◌else◌, Bool-cases,
}
use communo.Cli.{Commands, is_known, candidate_of, match_loop, match_command}

-- `first` and `more` begin `args`, and `rest` is what follows them.
abbrev pub Begins : Bytes → List Bytes → List Bytes → List Bytes → Type 0
Begins first more rest args = first ∷ (more ++ rest) ≡ args

-- No words at the front of `args` are a command, behind the words of `before`.
abbrev pub NoneKnown : Commands → List Bytes → List Bytes → Type 0
NoneKnown commands before args =
    (first : Bytes) (more rest : List Bytes)
    → Begins first more rest args
    → is_known (candidate_of (before ++ (first ∷ more))) commands ≡ false

pub record Longest (commands : Commands) (before args : List Bytes) (found : Bytes × List Bytes)
    : Type 0 where
  pub first : Bytes
  pub more : List Bytes
  pub rest : List Bytes
  pub result : found ≡ (candidate_of (before ++ (first ∷ more)), rest)
  pub begins : Begins first more rest args
  pub known : is_known (candidate_of (before ++ (first ∷ more))) commands ≡ true
  pub longest :
      (other : Bytes) (others left : List Bytes)
      → Begins other others left args
      → is_known (candidate_of (before ++ (other ∷ others))) commands ≡ true
      → length others ≤ length more

module _ (commands : Commands) (before : List Bytes) (a : Bytes) (args : List Bytes) where
  shift : (l : List Bytes) → (before ++ (a ∷ [])) ++ l ≡ before ++ (a ∷ l)
  shift l = append_assoc before (a ∷ []) l

  -- A known command that begins with `a` and goes on is known behind `a` too.
  moved :
      (other o : Bytes) (os left : List Bytes)
      → Begins other (o ∷ os) left (a ∷ args)
      → is_known (candidate_of (before ++ (other ∷ o ∷ os))) commands ≡ true
      → Begins o os left args
        × (is_known (candidate_of ((before ++ (a ∷ [])) ++ (o ∷ os))) commands ≡ true)
  moved other o os left b k = let same : other ≡ a = cc in (cc, rw (shift (o ∷ os), sym same) k)

  no_longer :
      NoneKnown commands (before ++ (a ∷ [])) args
      → (other : Bytes) (others left : List Bytes) → Begins other others left (a ∷ args)
      → is_known (candidate_of (before ++ (other ∷ others))) commands ≡ true
      → length others ≤ 0
  no_longer none other [] left b k = omega arith
  no_longer none other (o ∷ os) left b k =
      let (c, l) = moved other o os left b k in absurd (cc (none o os left c, l))

  none_ahead :
      is_known (candidate_of (before ++ (a ∷ []))) commands ≡ false
      → NoneKnown commands (before ++ (a ∷ [])) args
      → NoneKnown commands before (a ∷ args)
  none_ahead unknown none first [] rest b = let same : first ≡ a = cc in rw same unknown
  none_ahead unknown none first (o ∷ os) rest b =
      let same : first ≡ a = cc in
      let c : Begins o os rest args = cc in rw (same, sym (shift (o ∷ os))) (none o os rest c)

  still_longest :
      (n : ℕ)
      → ((other : Bytes) (others left : List Bytes)
          → Begins other others left args
          → is_known (candidate_of ((before ++ (a ∷ [])) ++ (other ∷ others))) commands ≡ true
          → length others ≤ n)
      → (other : Bytes) (others left : List Bytes) → Begins other others left (a ∷ args)
      → is_known (candidate_of (before ++ (other ∷ others))) commands ≡ true
      → length others ≤ suc n
  still_longest n h other [] left b k = omega arith
  still_longest n h other (o ∷ os) left b k =
      let (c, l) = moved other o os left b k in omega (arith, h o os left c l)

  further :
      (found : Bytes × List Bytes)
      → Longest commands (before ++ (a ∷ [])) args found
      → Longest commands before (a ∷ args) found
  further found l = record {
    first = a;
    more = l.first ∷ l.more;
    rest = l.rest;
    result = rw shift at l.result;
    begins = ap (◌∷◌ a) l.begins;
    known = rw shift at l.known;
    longest = still_longest (length l.more) l.longest;
  }

match_loop-Longest :
    (commands : Commands) (before args : List Bytes) (found : Bytes × List Bytes)
    → ((match_loop commands before args found ≡ found) × NoneKnown commands before args)
      ⊎ Longest commands before args (match_loop commands before args found)
unfolding match_loop
match_loop-Longest commands before [] found = inl (refl, λ first more rest b. cc)
match_loop-Longest commands before (a ∷ args) found =
    let here = candidate_of (before ++ (a ∷ [])) in
    let next = if is_known here commands then (here, args) else found in
    elim (match_loop-Longest commands (before ++ (a ∷ [])) args next) [
      | inr l ↦ inr (further commands before a args _ l)
      | inl (e, none) ↦ elim (Bool-cases (is_known here commands)) [
        | inr unknown ↦
            let same : next ≡ found = rw unknown in
            inl (e ∙ same, none_ahead commands before a args unknown none)
        | inl known ↦
            let same : next ≡ (here, args) = rw known in
            inr (record {
              first = a;
              more = [];
              rest = args;
              result = e ∙ same;
              begins = refl;
              known = known;
              longest = no_longer commands before a args none;
            })
      ]
    ]

-- The command that is run is the longest one that the line begins with, and its arguments are the
-- words behind it; where the line begins with no command, the empty command stands for that.
pub match_command-Longest :
    (commands : Commands) (args : List Bytes)
    → ((match_command commands args ≡ ([], [])) × NoneKnown commands [] args)
      ⊎ Longest commands [] args (match_command commands args)
unfolding match_command
match_command-Longest commands args = match_loop-Longest commands [] args ([], [])
