-- ===== src/Logging/Threshold.antt =====
-- The logger against severities and thresholds.
use communo.Prelude.{
  codes, ℕ, ◌≡◌, refl, true, List, [], ◌∷◌, Bytes, leb, if◌then◌else◌, append-nil, ◌∙◌, Bool-cases,
  inl, inr,
}
use communo.Chat.{is_empty}
use communo.Logging.{
  log_none, log_file, log_system, log_console, log_flag_debug, log_flag_info, log_flag_warn,
  log_flag_error, log_level_debug, log_level_info, log_level_warn, log_level_error, Logger, LogFile,
  Priority, info, err, Written, to_file, to_syslog, to_cerr, to_cout, has_flag, write_file,
  syslog_level, log,
}

pub data Severity : Type 0 where
  fine notice caution fatal : Severity

pub data Target : Type 0 where
  nowhere disk daemon terminal : Target

abbrev pub rank : Severity → ℕ
rank fine = 0
rank notice = 1
rank caution = 2
rank fatal = 3

abbrev pub flag_of : Severity → ℕ
flag_of fine = log_flag_debug
flag_of notice = log_flag_info
flag_of caution = log_flag_warn
flag_of fatal = log_flag_error

abbrev pub level_of : Severity → ℕ
level_of fine = log_level_debug
level_of notice = log_level_info
level_of caution = log_level_warn
level_of fatal = log_level_error

abbrev pub output_of : Target → ℕ
output_of nowhere = log_none
output_of disk = log_file
output_of daemon = log_system
output_of terminal = log_console

abbrev pub syslog_priority : Severity → Priority
syslog_priority fatal = err
syslog_priority _ = info

-- What becomes of a message for the log file. Without a name there is none.
abbrev pub in_file : LogFile → Bytes → Bytes → List Written
in_file file [] msg = []
in_file file (c ∷ name) msg =
    if file.opens
    then (if file.writes
        then to_file (c ∷ name) msg ∷ []
        else to_cerr (codes "Failed to write to log file") ∷ [])
    else to_cerr (codes "Cannot open log file for writing") ∷ []

write_file-in_file :
    (file : LogFile) (level output : ℕ) (name msg : Bytes)
    → write_file file
        (record { log_level_filter = level; log_output_filter = output; log_output_file = name })
        msg
      ≡ in_file file name msg
unfolding write_file is_empty
write_file-in_file file level output [] msg = refl
write_file-in_file file level output (c ∷ name) msg = refl

-- What a target gets of a message that passes.
abbrev pub delivery : LogFile → Bytes → Target → Severity → Bytes → List Written
delivery file name nowhere severity msg = []
delivery file name disk severity msg = in_file file name msg
delivery file name daemon severity msg = to_syslog (syslog_priority severity) msg ∷ []
delivery file name terminal fatal msg = to_cerr msg ∷ []
delivery file name terminal _ msg = to_cout msg ∷ []

log_passes :
    (threshold severity : Severity)
    → has_flag (level_of threshold) (flag_of severity) ≡ leb (rank threshold) (rank severity)
unfolding has_flag
log_passes fine fine = refl
log_passes fine notice = refl
log_passes fine caution = refl
log_passes fine fatal = refl
log_passes notice fine = refl
log_passes notice notice = refl
log_passes notice caution = refl
log_passes notice fatal = refl
log_passes caution fine = refl
log_passes caution notice = refl
log_passes caution caution = refl
log_passes caution fatal = refl
log_passes fatal fine = refl
log_passes fatal notice = refl
log_passes fatal caution = refl
log_passes fatal fatal = refl

-- The logger with its filters, by threshold and target.
abbrev pub logger_for : Bytes → ℕ → Target → Logger
logger_for name level target = record {
  log_level_filter = level;
  log_output_filter = output_of target;
  log_output_file = name;
}

log_delivers :
    (file : LogFile) (name : Bytes) (level : ℕ) (target : Target) (severity : Severity)
    (msg : Bytes)
    → has_flag level (flag_of severity) ≡ true
    → log file (logger_for name level target) (flag_of severity) msg
      ≡ delivery file name target severity msg
unfolding log has_flag syslog_level
log_delivers file name level nowhere fine msg h = rw h
log_delivers file name level nowhere notice msg h = rw h
log_delivers file name level nowhere caution msg h = rw h
log_delivers file name level nowhere fatal msg h = rw h
log_delivers file name level disk fine msg h =
    rw (h, append-nil) (write_file-in_file file level log_file name msg)
log_delivers file name level disk notice msg h =
    rw (h, append-nil) (write_file-in_file file level log_file name msg)
log_delivers file name level disk caution msg h =
    rw (h, append-nil) (write_file-in_file file level log_file name msg)
log_delivers file name level disk fatal msg h =
    rw (h, append-nil) (write_file-in_file file level log_file name msg)
log_delivers file name level daemon fine msg h = rw h
log_delivers file name level daemon notice msg h = rw h
log_delivers file name level daemon caution msg h = rw h
log_delivers file name level daemon fatal msg h = rw h
log_delivers file name level terminal fine msg h = rw h
log_delivers file name level terminal notice msg h = rw h
log_delivers file name level terminal caution msg h = rw h
log_delivers file name level terminal fatal msg h = rw h

-- A logger with a threshold and one target writes a message there exactly if its severity is not
-- below the threshold. For the file that is a line in it, or, where it does not open or take the line,
-- a line on stderr about that, and nothing where the file has no name. For syslog every severity but the highest becomes the priority `info`, so that
-- debug messages and warnings cannot be told apart there.
pub log_threshold :
    (file : LogFile) (name : Bytes) (threshold : Severity) (target : Target) (severity : Severity)
    (msg : Bytes)
    → log file (logger_for name (level_of threshold) target) (flag_of severity) msg ≡ (
        if leb (rank threshold) (rank severity) then delivery file name target severity msg else [])
unfolding log
log_threshold file name threshold target severity msg =
    let passes = log_passes threshold severity in
    elim (Bool-cases (leb (rank threshold) (rank severity))) [
      | inl above ↦
          rw above
            (log_delivers file name (level_of threshold) target severity msg (passes ∙ above))
      | inr below ↦ rw (passes, below)
    ]
