-- ===== src/Checks/CommandLine.antt =====
-- Lines that are typed, options that are given, messages that are logged.
use communo.Prelude.{
  bytes_eq, ◌≡◌, refl, arith, ◌↔◌, ◌⊎◌, true, false, List, [], ◌∷◌, ◌++◌, map, drop, leb,
  if◌then◌else◌, ok, Bytes, codes, All, to_string, digits,
}
use communo.Cli.{
  is_space, read_tokens, tokenize, main_commands, match_command, match_loop, candidate_of,
  candidate_loop, find_command, add_command, Session,
}
use communo.Cli.Handlers.{Outside, run_line, Input, line}
use communo.Cli.Tokens.{Spells, tokenize-Spells}
use communo.Cli.Longest.{Longest, NoneKnown, match_command-Longest}
use communo.Cli.Rounds.{Rounds}
use communo.Logging.{LogFile, log, to_cerr}
use communo.Logging.Threshold.{
  fine, caution, daemon, rank, flag_of, level_of, delivery, logger_for, log_threshold,
}
use communo.Server.Options.{parse_options, has_name, launch, ends, help_lines}
use communo.Server.Launching.{option_texts, complaint, launch_options}
use communo.Chat.{is_empty}
use communo.Server.{World}
use communo.Server.Requests.{serve_client}
use communo.Client.Replies.{process_reply}
use communo.Server.Verdicts.{Verdict, reply_of, JoinAnswer}
use communo.Cli.Conversation.{shown, typed_join_answered}
use communo.Checks.Joining.{whole}
use communo.Checks.{no_floats, digest, integers, alice, world}

abbrev pub outside : Outside
outside = record { float_text = no_floats; sha256 = λ s. digest; now = 3 }

abbrev pub session : Session
session = record { client = record { ping_start = 0; sent = [] }; console = [] }

tokenize-Spells_example :
    Spells (codes "say" ∷ codes "hi" ∷ []) (codes " say  hi")
    ↔ (tokenize (codes " say  hi") ≡ codes "say" ∷ codes "hi" ∷ [])
tokenize-Spells_example = tokenize-Spells (codes " say  hi") (codes "say" ∷ codes "hi" ∷ [])

abbrev counter_words : List Bytes
counter_words = codes "counter" ∷ codes "get" ∷ codes "now" ∷ []

-- Three words, of which two are the command.
counter_match : match_command main_commands counter_words ≡ (codes "counter get", codes "now" ∷ [])
unfolding main_commands match_command match_loop candidate_of candidate_loop find_command
    add_command bytes_eq
counter_match = refl

match_command-Longest_example :
    ((match_command main_commands counter_words ≡ ([], []))
      × NoneKnown main_commands [] counter_words)
    ⊎ Longest main_commands [] counter_words (match_command main_commands counter_words)
match_command-Longest_example = match_command-Longest main_commands counter_words

abbrev join_line : Bytes
join_line = codes "chat join 2 pw"

abbrev join_words : List Bytes
join_words = codes "chat" ∷ codes "join" ∷ to_string 2 ∷ codes "pw" ∷ []

join_tokens : tokenize join_line ≡ join_words
unfolding tokenize read_tokens is_space is_empty to_string digits
join_tokens = refl

abbrev typed : List Input
typed = line (codes "add 1 x") ∷ line (codes "nonsense") ∷ line (codes "exit") ∷ []

abbrev log_path : LogFile
log_path = record { opens = true; writes = true }

log_threshold_example :
    log log_path (logger_for [] (level_of fine) daemon) (flag_of caution) (codes "late") ≡ (
      if leb (rank fine) (rank caution)
      then delivery log_path [] daemon caution (codes "late")
      else [])
log_threshold_example = log_threshold log_path [] fine daemon caution (codes "late")

abbrev given : List Bytes
given = codes "--debug" ∷ codes "-x" ∷ []

launch_options_example :
    (All (λ arg. has_name arg option_texts ≡ true) given
      × ((parse_options [] given).valid ≡ true)
      × (has_name (codes "debug") (parse_options [] given).options
          ≡ has_name (codes "debug") (map (drop 2) given)))
    ⊎ ((good : List Bytes) × (bad : Bytes) × (rest : List Bytes) × (given ≡ good ++ (bad ∷ rest))
        × All (λ arg. has_name arg option_texts ≡ true) good
        × (has_name bad option_texts ≡ false)
        × (launch given ≡ ends 1 (to_cerr (complaint bad) ∷ help_lines)))
launch_options_example = launch_options given (codes "debug")

typed_join_answered_example :
    (s' : Session) × (packet : Bytes) × (verdict : Verdict) × (w' : World) × (run_line outside
        main_commands join_line session
      ≡ ok (s', true))
    × (s'.client.sent ≡ session.client.sent ++ (packet ∷ []))
    × (serve_client integers 0 0 alice packet world ≡ ok w')
    × JoinAnswer verdict 0 alice 2 (outside.sha256 (codes "pw")) world w'
    × (process_reply 0 5 (reply_of verdict 2) ≡ ok (shown verdict 2))
typed_join_answered_example =
    typed_join_answered outside join_line 2 (codes "pw") session integers 0 0 0 5 alice world
      ((tokenize-Spells join_line join_words).1 join_tokens) (omega arith) refl refl whole
