-- ===== src/Cli/Tokens.antt =====
-- `CLI::tokenize` against what it means for a line to consist of words.
use mathlib.Core.Path.{subst}
use communo.Prelude.{
  ◌↔◌, ℕ, ◌≡◌, refl, sym, ◌∙◌, ap, inl, inr, true, false, List, [], ◌∷◌, ◌++◌, append_assoc,
  append-nil, Bytes, All, All-append, Bool-cases,
}
use communo.Chat.{is_empty}
use communo.Cli.{is_space, read_tokens, tokenize}

abbrev pub NoSpace : Bytes → Type 0
NoSpace = All (λ c. is_space c ≡ false)

abbrev pub IsWord : Bytes → Type 0
IsWord word = (is_empty word ≡ false) × NoSpace word

-- The end of the line, or a blank.
abbrev pub AtBreak : Bytes → Type 0
AtBreak [] = Unit {0}
AtBreak (c ∷ s) = is_space c ≡ true

-- The line is made of these words, with blanks between them, and perhaps around them.
pub data Spells : List Bytes → Bytes → Type 0 where
  nothing : Spells [] []
  blank :
      {words : List Bytes} {c : ℕ} {s : Bytes}
      → is_space c ≡ true
      → Spells words s
      → Spells words (c ∷ s)
  word :
      {words : List Bytes} {line s : Bytes} (w : Bytes)
      → IsWord w
      → AtBreak s
      → Spells words s
      → line ≡ w ++ s
      → Spells (w ∷ words) line

-- A token that was begun takes the rest of its word.
read_word :
    (token w s : Bytes)
    → NoSpace w
    → is_empty (token ++ w) ≡ false
    → AtBreak s
    → read_tokens token (w ++ s) ≡ (token ++ w) ∷ read_tokens [] s
unfolding read_tokens
read_word token [] [] n e b =
    let same : token ++ [] ≡ token = append-nil token in
    let full : is_empty token ≡ false = rw same at e in rw (full, same)
read_word token [] (c ∷ s) n e b =
    let same : token ++ [] ≡ token = append-nil token in
    let full : is_empty token ≡ false = rw same at e in rw (read_tokens, b, full, same)
read_word token (c ∷ w) s n e b =
    let same : token ++ (c ∷ w) ≡ (token ++ (c ∷ [])) ++ w = sym (append_assoc token (c ∷ []) w) in
    rw (read_tokens, n.0, same) (read_word (token ++ (c ∷ [])) w s n.1 (rw same at e) b)

Spells-tokenize : {words : List Bytes} {line : Bytes} → Spells words line → tokenize line ≡ words
unfolding tokenize read_tokens is_empty
Spells-tokenize nothing = refl
Spells-tokenize (blank b h) = rw (read_tokens, b) (Spells-tokenize h)
Spells-tokenize (word {words = words} {s = s} w v b h e) =
    rw e (read_word [] w s v.1 v.0 b ∙ ap (◌∷◌ w) (Spells-tokenize h))

-- What a token that was begun becomes.
record Finished (token s : Bytes) : Type 0 where
  more : Bytes
  rest : Bytes
  words : List Bytes
  split : s ≡ more ++ rest
  whole : NoSpace more
  break : AtBreak rest
  tokens : read_tokens token s ≡ (token ++ more) ∷ words
  spelled : Spells words rest

is_empty-append : (s t : Bytes) → is_empty s ≡ false → is_empty (s ++ t) ≡ false
unfolding is_empty
is_empty-append [] t h = cc
is_empty-append (c ∷ s) t h = refl

tokens_spelled :
    (s : Bytes)
    → Spells (read_tokens [] s) s
      × ((token : Bytes) → NoSpace token → is_empty token ≡ false → Finished token s)
unfolding read_tokens is_empty
tokens_spelled [] = (
  nothing,
  λ token n e. record {
    more = [];
    rest = [];
    words = [];
    split = refl;
    whole = tt;
    break = tt;
    tokens = rw (e, append-nil);
    spelled = nothing;
  },
)
tokens_spelled (c ∷ s) =
    let (spelled, finish) = tokens_spelled s in
    elim (Bool-cases (is_space c)) [
      | inl b ↦ (
        rw (read_tokens, b) (blank b spelled),
        λ token n e. record {
          more = [];
          rest = c ∷ s;
          words = read_tokens [] s;
          split = refl;
          whole = tt;
          break = b;
          tokens = rw (read_tokens, b, e, append-nil);
          spelled = blank b spelled;
        },
      )
      | inr n ↦
          let f = finish (c ∷ []) (n, tt) refl in
          (
            rw (read_tokens, n, f.tokens)
                (word (c ∷ f.more) (refl, (n, f.whole)) f.break f.spelled (ap (◌∷◌ c) f.split)),
            λ token m e.
                let g =
                  finish (token ++ (c ∷ [])) (All-append _ token (c ∷ []) m (n, tt))
                    (is_empty-append token (c ∷ []) e) in
                record {
                  more = c ∷ g.more;
                  rest = g.rest;
                  words = g.words;
                  split = ap (◌∷◌ c) g.split;
                  whole = (n, g.whole);
                  break = g.break;
                  tokens = rw (read_tokens, n, g.tokens, append_assoc);
                  spelled = g.spelled;
                },
          )
    ]

-- Words spell a line, each of them not empty, without a blank, and parted from the next by blanks,
-- exactly if they are what `tokenize` makes of the line.
pub tokenize-Spells :
    (line : Bytes) (words : List Bytes) → Spells words line ↔ (tokenize line ≡ words)
unfolding tokenize
tokenize-Spells line words =
    (λ h. Spells-tokenize h, λ e. subst (λ t. Spells t line) e (tokens_spelled line).0)
