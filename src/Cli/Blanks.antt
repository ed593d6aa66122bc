-- ===== src/Cli/Blanks.antt =====
-- What the handlers of the command line make of their words.
use communo.Prelude.{◌≡◌, refl, List, [], ◌∷◌, ◌++◌, Bytes, ap}
use communo.Cli.{spaced}

-- The words, each with a blank behind it.
abbrev pub blank_after : List Bytes → Bytes
blank_after [] = []
blank_after (word ∷ words) = word ++ (b' ' ∷ blank_after words)

pub spaced-blank_after : (words : List Bytes) → spaced words ≡ blank_after words
unfolding spaced
spaced-blank_after [] = refl
spaced-blank_after (word ∷ words) = ap (λ t. word ++ (b' ' ∷ t)) (spaced-blank_after words)
