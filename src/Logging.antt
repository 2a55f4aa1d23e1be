-- ===== src/Logging.antt =====
-- internal/logging/log.go: the logger as a state machine. Where a line goes is modelled, not its text.
pub mod Open
use gonewsd.Prelude.{
  ℕ, Bool, true, false, not, ◌&&◌, ◌||◌, Option, none, some, [], ◌∷◌, ◌++◌, ltb, leb, if◌then◌else◌,
  is_empty, drop, Bytes, eq_bytes, str,
}
use gonewsd.Prelude.Int.{ℤ, pos, negsuc}
use gonewsd.Config.{Config}
use gonewsd.Text.Split.{fields}
use gonewsd.Text.Strings.{trim_space, has_prefix}

-- `l.writer`: none, or a stream, which can be a log file that has been closed.
pub data Writer : Type 0 where
  nil to_stderr to_syslog to_pipe to_file to_closed_file : Writer

-- `Logger`; a pointer is whether it is not nil.
pub record Logger : Type 0 where
  pub writer : Writer
  pub file : Bool
  pub auth_file : Bool
  pub pipe_cmd : Bool
  pub syslog : Bool
  pub level : ℕ
  pub error_log : Bytes
  pub auth_log : Bytes
  pub max_log_size : ℤ

-- What the system answers: which files open and which can be renamed, whether the log of the system
-- and a command can be reached, and the size of a file.
pub record LogSystem : Type 0 where
  pub opens : Bytes → Bool
  pub renames : Bytes → Bool
  pub syslog_opens : Bool
  pub command_starts : Bool
  pub size : Bytes → Option ℕ

-- `NewLogger`
unfoldable pub new_logger : Config → Logger
new_logger cfg = record {
  writer = nil;
  file = false;
  auth_file = false;
  pipe_cmd = false;
  syslog = false;
  level = cfg.log_level;
  error_log = cfg.error_log;
  auth_log = cfg.auth_log;
  max_log_size = cfg.max_log_size;
}

-- `closeLocked`
unfoldable pub close_locked : Logger → Logger
close_locked l = record l {
  writer = nil;
  file = false;
  auth_file = false;
  pipe_cmd = false;
  syslog = false;
}

-- Whether `Init` has no error, and the logger behind it.
pub record Started : Type 0 where
  pub succeeds : Bool
  pub logger : Logger

abbrev stopped : Logger → Started
stopped l = record { succeeds = false; logger = l }

-- The end of `Init`, which opens the log of authentication.
unfoldable pub open_auth : LogSystem → Logger → Started
open_auth sys l =
    if is_empty l.auth_log
    then record { succeeds = true; logger = l }
    else if sys.opens l.auth_log
    then record { succeeds = true; logger = record l { auth_file = true } }
    else stopped l

-- An error log that is a command; one without words is the standard error, with no log of
-- authentication.
unfoldable pub open_pipe : LogSystem → Logger → Started
unfolding open_auth fields trim_space
open_pipe sys l =
    if is_empty (fields (trim_space (drop 1 l.error_log)))
    then record { succeeds = true; logger = record l { writer = to_stderr } }
    else if sys.command_starts
    then open_auth sys (record l { pipe_cmd = true; writer = to_pipe })
    else stopped l

unfoldable pub init : LogSystem → Logger → Started
unfolding close_locked open_auth open_pipe has_prefix eq_bytes
init sys old =
    let l = close_locked old in
    if eq_bytes l.error_log (str "stderr")
    then open_auth sys (record l { writer = to_stderr })
    else if eq_bytes l.error_log (str "syslog")
    then if sys.syslog_opens
      then open_auth sys (record l { syslog = true; writer = to_syslog })
      else stopped l
    else if has_prefix l.error_log (str "|")
    then open_pipe sys l
    else if sys.opens l.error_log
    then open_auth sys (record l { file = true; writer = to_file })
    else stopped l

-- `l.maxLogSize <= 0`
abbrev is_unlimited : ℤ → Bool
is_unlimited (pos n) = leb n 0
is_unlimited (negsuc _) = true

abbrev above : ℤ → Option ℕ → Bool
above (pos limit) (some size) = ltb limit size
above (negsuc _) (some size) = true
above limit none = false

-- The log file is moved aside and opened anew. Where neither works, the writer is the old file, which
-- has been closed.
unfoldable pub rotate_file : LogSystem → Logger → Logger
rotate_file sys l =
    if sys.opens l.error_log
    then record l { file = true; writer = to_file }
    else if sys.renames l.error_log
    then record l { file = false; writer = to_stderr }
    else record l { file = false; writer = to_closed_file }

unfoldable pub rotate_locked : LogSystem → Bool → Logger → Logger
unfolding rotate_file
rotate_locked sys force l =
    if not l.file || (is_unlimited l.max_log_size && not force)
    then l
    else if not force && not (above l.max_log_size (sys.size l.error_log))
    then l
    else rotate_file sys l

-- `Rotate`, and `RotateWithLock` under the lock
unfoldable pub rotate : LogSystem → Bool → Logger → Logger
unfolding rotate_locked
rotate sys force l = if not l.file then l else rotate_locked sys force l

unfoldable pub set_level : ℕ → Logger → Logger
set_level level l = record l { level = level }

-- Where a line goes: nowhere, since its level is above that of the logger, to a stream, or into a
-- call of a nil writer, which ends the program.
pub data Line : Type 0 where
  dropped panics : Line
  written : Writer → Line

abbrev write_to : Writer → Line
write_to nil = panics
write_to w = written w

-- `Log`; a log file can be rotated before the line, and a file that could not be opened again then
-- loses it.
unfoldable pub log : LogSystem → ℕ → Logger → Line × Logger
unfolding rotate_locked
log sys level l =
    let r = rotate_locked sys false l in
    if ltb l.level level
    then (dropped, l)
    else if l.syslog
    then (written to_syslog, l)
    else if l.file
    then (if r.file then written to_file else dropped, r)
    else (write_to l.writer, l)

unfoldable pub log_auth : Logger → Line
log_auth l = if l.auth_file then written to_file else write_to l.writer
