-- ===== src/Server/Options.antt =====
-- src/server/Main.cpp: the class `Options`, and what `main` makes of it before the server starts.
use communo.Prelude.{
  ℕ, Bool, true, false, not, ◌||◌, List, [], ◌∷◌, ◌++◌, Bytes, codes, bytes_eq, ltb, if◌then◌else◌,
  length, take, drop,
}
use communo.Logging.{
  Logger, Written, to_cout, to_cerr, new_logger, set_log_level, set_log_output, log_level_debug,
  log_console, log_system,
}

pub record Options : Type 0 where
  pub options : List Bytes
  pub error : Bytes
  pub valid : Bool

abbrev pub known_options : List Bytes
known_options = codes "no-daemon" ∷ codes "debug" ∷ codes "help" ∷ []

-- `find(name) != end()`
unfoldable pub has_name : Bytes → List Bytes → Bool
has_name name [] = false
has_name name (other ∷ names) = bytes_eq other name || has_name name names

-- `options_.insert(name)`
unfoldable pub insert_name : Bytes → List Bytes → List Bytes
insert_name name names = if has_name name names then names else name ∷ names

-- The constructor, on the arguments behind the program's name.
unfoldable pub parse_options : List Bytes → List Bytes → Options
unfolding has_name insert_name
parse_options names [] = record { options = names; error = []; valid = true }
parse_options names (arg ∷ args) =
    let rest = parse_options (insert_name (drop 2 arg) names) args in
    if ltb (length arg) 3 || not (bytes_eq (take 2 arg) (codes "--"))
    then record { options = names; error = codes "Invalid argument: " ++ arg; valid = false }
    else if not (has_name (drop 2 arg) known_options)
    then record { options = names; error = codes "Unknown option: --" ++ drop 2 arg; valid = false }
    else rest

-- What `main` does next: it ends with a code, or the server starts, as a daemon or not.
pub data Launch : Type 0 where
  ends : ℕ → List Written → Launch
  starts : Bool → Logger → List Written → Launch

abbrev pub help_lines : List Written
help_lines =
    to_cout (codes "Options:")
    ∷ to_cout (codes "  --no-daemon")
    ∷ to_cout (codes "  --debug")
    ∷ to_cout (codes "  --help")
    ∷ []

-- `if (options.has("debug"))`
abbrev pub with_debug : Bool → Logger → Logger
with_debug true logger = set_log_level log_level_debug logger
with_debug false logger = logger

unfoldable pub launch : List Bytes → Launch
unfolding parse_options
launch args =
    let o = parse_options [] args in
    if not o.valid
    then ends 1 (to_cerr o.error ∷ help_lines)
    else if has_name (codes "help") o.options
    then ends 0 help_lines
    else if has_name (codes "no-daemon") o.options
    then starts false
        (with_debug (has_name (codes "debug") o.options) (set_log_output log_console new_logger))
        (to_cout (codes "Running without daemonization, logs will be written in console") ∷ [])
    else starts true
        (with_debug (has_name (codes "debug") o.options) (set_log_output log_system new_logger)) []
