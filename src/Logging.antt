-- ===== src/Logging.antt =====
-- src/common/Logging.h and src/common/Logging.cpp: which messages are written, and where to.
pub mod Threshold
use communo.Prelude.{
  ℕ, ◌/◌, ◌%◌, Bool, true, false, List, [], ◌∷◌, ◌++◌, Bytes, codes, ◌==◌, if◌then◌else◌,
}
use communo.Chat.{is_empty}

-- `eLoggingOutputFlags`
abbrev pub log_none : ℕ
log_none = 0

abbrev pub log_file : ℕ
log_file = 1

abbrev pub log_system : ℕ
log_system = 2

abbrev pub log_console : ℕ
log_console = 4

-- `eLoggingFlags`
abbrev pub log_flag_debug : ℕ
log_flag_debug = 1

abbrev pub log_flag_info : ℕ
log_flag_info = 2

abbrev pub log_flag_warn : ℕ
log_flag_warn = 4

abbrev pub log_flag_error : ℕ
log_flag_error = 8

-- `eLoggingLevelFlags`, the flags that pass a level.
abbrev pub log_level_debug : ℕ
log_level_debug = 15

abbrev pub log_level_info : ℕ
log_level_info = 14

abbrev pub log_level_warn : ℕ
log_level_warn = 12

abbrev pub log_level_error : ℕ
log_level_error = 8

pub record Logger : Type 0 where
  pub log_level_filter : ℕ
  pub log_output_filter : ℕ
  pub log_output_file : Bytes

-- `Logger::Logger`
abbrev pub new_logger : Logger
new_logger = record {
  log_level_filter = log_level_info;
  log_output_filter = log_console;
  log_output_file = [];
}

abbrev pub set_log_level : ℕ → Logger → Logger
set_log_level level logger = record logger { log_level_filter = level }

abbrev pub set_log_output : ℕ → Logger → Logger
set_log_output output logger = record logger { log_output_filter = output }

-- The priorities of syslog(3) that are used.
pub data Priority : Type 0 where
  debug info warning err : Priority

-- What is written: a line of the log file, a message for syslog, or a line of `cout` or `cerr`.
pub data Written : Type 0 where
  to_file : Bytes → Bytes → Written
  to_syslog : Priority → Bytes → Written
  to_cout to_cerr : Bytes → Written

-- Whether the log file can be opened, and then be written to.
pub record LogFile : Type 0 where
  pub opens : Bool
  pub writes : Bool

-- `filter & flag` as a condition, for a flag of one bit.
unfoldable pub has_flag : ℕ → ℕ → Bool
has_flag filter flag = filter / flag % 2 == 1

unfoldable pub write_file : LogFile → Logger → Bytes → List Written
unfolding is_empty
write_file file logger msg =
    if is_empty logger.log_output_file
    then []
    else if file.opens
    then (if file.writes
        then to_file logger.log_output_file msg ∷ []
        else to_cerr (codes "Failed to write to log file") ∷ [])
    else to_cerr (codes "Cannot open log file for writing") ∷ []

-- The `switch` over the flag, with the levels for its cases.
unfoldable pub syslog_level : ℕ → Priority
syslog_level level =
    if level == log_level_debug
    then debug
    else if level == log_level_info
    then info
    else if level == log_level_warn
    then warning
    else if level == log_level_error
    then err
    else info

-- `Logger::log`; `cerr` and `cout` end each message with a line break.
unfoldable pub log : LogFile → Logger → ℕ → Bytes → List Written
unfolding has_flag write_file syslog_level
log file logger level msg =
    if has_flag logger.log_level_filter level
    then (if has_flag logger.log_output_filter log_file then write_file file logger msg else [])
      ++ ((if has_flag logger.log_output_filter log_system
            then to_syslog (syslog_level level) msg ∷ []
            else [])
          ++ (if has_flag logger.log_output_filter log_console
              then (if has_flag level log_flag_error then to_cerr msg else to_cout msg) ∷ []
              else []))
    else []
