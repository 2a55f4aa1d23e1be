-- ===== src/Logging/Open.antt =====
-- When a line has somewhere to go.
use gonewsd.Prelude.{ℕ, ◌≤◌, ◌≡◌, Bool, true, false, arith}
use gonewsd.Config.{Config}
use gonewsd.Logging.{
  Writer, nil, Logger, LogSystem, new_logger, init, open_auth, open_pipe, close_locked, rotate,
  rotate_locked, rotate_file, set_level, Line, panics, log, log_auth,
}

abbrev pub is_nil : Writer → Bool
is_nil nil = true
is_nil _ = false

-- The operations behind a start of the logger, in any order, as long as it is not closed.
pub data Running : Logger → Type 0 where
  started :
      (sys : LogSystem) (l : Logger) → (init sys l).succeeds ≡ true → Running (init sys l).logger
  rotated : (sys : LogSystem) (force : Bool) {l : Logger} → Running l → Running (rotate sys force l)
  leveled : (level : ℕ) {l : Logger} → Running l → Running (set_level level l)
  logged : (sys : LogSystem) (level : ℕ) {l : Logger} → Running l → Running (log sys level l).1

pub record IsOpen (l : Logger) : Type 0 where
  pub has_writer : is_nil l.writer ≡ false

rotate_locked-IsOpen :
    (sys : LogSystem) (force : Bool) (l : Logger) → IsOpen l → IsOpen (rotate_locked sys force l)
unfolding rotate_locked rotate_file
rotate_locked-IsOpen sys force l h = ground arith

open_auth-IsOpen : (sys : LogSystem) (l : Logger) → IsOpen l → IsOpen (open_auth sys l).logger
unfolding open_auth
open_auth-IsOpen sys l h = ground arith

init-IsOpen :
    (sys : LogSystem) (l : Logger) → (init sys l).succeeds ≡ true → IsOpen (init sys l).logger
unfolding init open_pipe close_locked
init-IsOpen sys l h = grind (arith, open_auth-IsOpen)

log-IsOpen : (sys : LogSystem) (level : ℕ) (l : Logger) → IsOpen l → IsOpen (log sys level l).1
unfolding log
log-IsOpen sys level l h = ground (arith, rotate_locked-IsOpen sys false l h)

rotate-IsOpen :
    (sys : LogSystem) (force : Bool) (l : Logger) → IsOpen l → IsOpen (rotate sys force l)
unfolding rotate
rotate-IsOpen sys force l h = ground (arith, rotate_locked-IsOpen sys force l h)

Running-IsOpen : {l : Logger} → Running l → IsOpen l
unfolding set_level
Running-IsOpen (started sys l h) = init-IsOpen sys l h
Running-IsOpen (rotated sys force {l = l} r) = rotate-IsOpen sys force l (Running-IsOpen r)
Running-IsOpen (leveled level {l = l} r) = record { has_writer = (Running-IsOpen r).has_writer }
Running-IsOpen (logged sys level {l = l} r) = log-IsOpen sys level l (Running-IsOpen r)

abbrev pub is_panic : Line → Bool
is_panic panics = true
is_panic _ = false

open-is_panic :
    (l : Logger) (sys : LogSystem) (level : ℕ)
    → IsOpen l
    → (is_panic (log sys level l).0 ≡ false) × (is_panic (log_auth l) ≡ false)
unfolding log log_auth
open-is_panic l sys level h = ground arith

-- Behind a start without an error, whatever is rotated, logged or set, and as long as it is not
-- closed: no line of any level, and none on authentication, is written to a nil writer.
pub Running-is_panic :
    {l : Logger}
    → Running l
    → (sys : LogSystem) (level : ℕ)
    → (is_panic (log sys level l).0 ≡ false) × (is_panic (log_auth l) ≡ false)
Running-is_panic {l = l} r sys level = open-is_panic l sys level (Running-IsOpen r)

-- Before the start every line whose level is within the configured one ends the program.
new_logger-panics :
    (sys : LogSystem) (cfg : Config) (level : ℕ)
    → level ≤ cfg.log_level
    → (log sys level (new_logger cfg)).0 ≡ panics
unfolding log new_logger
new_logger-panics sys cfg level h = ground arith
