-- ===== src/Cli/Rounds.antt =====
-- What the command line makes of the lines that are typed, exceptions included: `CLI::run`.
use communo.Prelude.{
  ◌≡◌, ◌⊎◌, Bool, true, false, List, [], ◌∷◌, ◌++◌, Bytes, codes, Exception, Result, ok, throws,
}
use communo.Cli.{Commands, Output, text, failure, match_command, find_command, tokenize, Session}
use communo.Cli.Handlers.{Outside, Input, stopped, line, run_found}

-- The same session with one thing more on the console.
abbrev pub with_output : Output → Session → Session
with_output output s = record { client = s.client; console = s.console ++ (output ∷ []) }

-- The handler of the command that was found, on the words behind it.
abbrev pub run_match : Outside → Commands → Bytes × List Bytes → Session → Result Session
run_match outside commands (name, args) s = run_found outside (find_command name commands) args s

-- What one line comes to: the session, and whether another line is read.
pub data Round (outside : Outside) (commands : Commands) (typed : Bytes) (s : Session)
    : Session → Bool → Type 0 where
  nothing_typed : tokenize typed ≡ [] → Round outside commands typed s s true
  leaving :
      (first : Bytes) (args : List Bytes)
      → tokenize typed ≡ first ∷ args
      → (first ≡ codes "exit") ⊎ (first ≡ codes "quit")
      → Round outside commands typed s s false
  no_command :
      (first : Bytes) (args : List Bytes)
      → tokenize typed ≡ first ∷ args
      → (match_command commands (first ∷ args)).0 ≡ []
      → Round outside commands typed s
          (with_output (text (codes "Unknown command: " ++ first)) s)
          true
  handled :
      (first : Bytes) (args : List Bytes) (s' : Session)
      → tokenize typed ≡ first ∷ args
      → run_match outside commands (match_command commands (first ∷ args)) s ≡ ok s'
      → Round outside commands typed s s' true
  failed :
      (first : Bytes) (args : List Bytes) (e : Exception)
      → tokenize typed ≡ first ∷ args
      → run_match outside commands (match_command commands (first ∷ args)) s ≡ throws e
      → Round outside commands typed s (with_output (failure (codes "Error: ") e) s) true

-- What a sequence of inputs comes to, line by line.
pub data Rounds (outside : Outside) (commands : Commands)
    : List Input → Session → Session → Type 0 where
  input_ends : {s : Session} → Rounds outside commands [] s s
  flag_cleared :
      {inputs : List Input} {s : Session} → Rounds outside commands (stopped ∷ inputs) s s
  last :
      {typed : Bytes} {inputs : List Input} {s s' : Session}
      → Round outside commands typed s s' false
      → Rounds outside commands (line typed ∷ inputs) s s'
  further :
      {typed : Bytes} {inputs : List Input} {s s' s'' : Session}
      → Round outside commands typed s s' true
      → Rounds outside commands inputs s' s''
      → Rounds outside commands (line typed ∷ inputs) s s''
