-- ===== src/Config/Loading.antt =====
-- internal/config/config.go: `DefaultConfig` and `Load`.
use gonewsd.Prelude.{
  bytes_eq, ℕ, suc, Bool, true, false, not, ◌&&◌, ◌||◌, List, [], ◌∷◌, Option, none, some, ltb,
  ◌==◌, if◌then◌else◌, is_empty, drop, length, Bytes, FilePath, str,
}
use gonewsd.Prelude.Keyed.{lookup}
use gonewsd.Prelude.Int.{pos}
use gonewsd.Config.{Config}
use gonewsd.Config.Directives.{System, Effect, taken, deprecated, bad, directives, look_up}
use gonewsd.Spool.Names.{join_path, path_text}
use gonewsd.Text.Scanner.{scan_lines}
use gonewsd.Text.Strings.{to_lower, trim_space, take_until}

unfoldable pub default_config : System → Config
default_config sys = record {
  hostname_lookups = 0;
  no_recurse_msg_dir = true;
  msg_mod_dirs = false;
  listen_addr = str ":119";
  error_log = str "stderr";
  error_log_hex = true;
  log_level = 1;
  max_clients = 0;
  max_log_size = pos 1048576;
  server_name = if is_empty sys.hostname then str "localhost" else sys.hostname;
  send_mail = str "/usr/sbin/sendmail -t";
  spam_filter = [];
  spool_dir = str "/var/spool/gonewsd";
  post_command = str "-";
  timeout = 43200;
  user = str "news";
  uid = 0;
  gid = 0;
  bad_user = false;
  auth_mode = str "public";
  auth_db = [];
  auth_log = [];
  pid_file = [];
  tls_cert = [];
  tls_key = [];
}

-- What is written to stderr, with the number of the line.
pub data Warning : Type 0 where
  missing_value is_deprecated bad_value unknown_directive : Bytes → ℕ → Warning

-- What a line says: nothing, a name alone, or a name and a value.
pub data Cut : Type 0 where
  blank : Cut
  name_only : Bytes → Cut
  setting : Bytes → Bytes → Cut

abbrev pub is_blank_byte : ℕ → Bool
is_blank_byte c = c == 32 || c == 9

-- A line is cut at `#`, and what is left at its first space or tab.
unfoldable pub cut_line : Bytes → Cut
unfolding take_until trim_space
cut_line text =
    let line = trim_space (take_until (λ c. c == b'#') text) in
    let front = take_until is_blank_byte line in
    let value = trim_space (drop (length front) line) in
    if is_empty front || not (ltb (length front) (length line))
    then blank
    else if is_empty value
    then name_only (trim_space front)
    else setting (trim_space front) value

-- The warnings stand in the order in which they are written.
pub record Loaded : Type 0 where
  pub config : Config
  pub warnings : List Warning

abbrev pub effect : Bytes → ℕ → Effect → Loaded
effect name n (taken c) = record { config = c; warnings = [] }
effect name n (deprecated c) = record { config = c; warnings = is_deprecated name n ∷ [] }
effect name n (bad c) = record { config = c; warnings = bad_value name n ∷ [] }

unfoldable pub apply : System → Config → ℕ → Cut → Loaded
unfolding lookup directives to_lower
apply sys c n blank = record { config = c; warnings = [] }
apply sys c n (name_only name) = record { config = c; warnings = missing_value name n ∷ [] }
apply sys c n (setting name value) = elim (lookup (to_lower name) directives) [
  | none ↦ record { config = c; warnings = unknown_directive name n ∷ [] }
  | some d ↦ effect name n (d sys c value)
]

append_warnings : List Warning → List Warning → List Warning
append_warnings [] vs = vs
append_warnings (w ∷ ws) vs = w ∷ append_warnings ws vs

unfoldable pub load_lines : System → Config → ℕ → List Bytes → Loaded
unfolding apply cut_line append_warnings
load_lines sys c n [] = record { config = c; warnings = [] }
load_lines sys c n (l ∷ ls) =
    let here = apply sys c n (cut_line l) in
    let rest = load_lines sys here.config (suc n) ls in
    record { config = rest.config; warnings = append_warnings here.warnings rest.warnings }

unfoldable pub is_abs : Bytes → Bool
is_abs [] = false
is_abs (c ∷ _) = c == b'/'

abbrev pub rooted : FilePath → Bytes
rooted [] = str "/"
rooted p = path_text p

-- A path that is not empty is made absolute, as `filepath.Abs` makes it, where there is a working
-- directory.
unfoldable pub resolve : System → Bytes → Bytes
unfolding is_abs join_path path_text
resolve sys p =
    if is_empty p || is_abs p
    then p
    else elim sys.working_dir [ none ↦ p | some wd ↦ rooted (join_path (join_path [] wd) p) ]

unfoldable pub resolve_paths : System → Config → Config
unfolding resolve
resolve_paths sys c = record c {
  auth_db = resolve sys c.auth_db;
  auth_log = resolve sys c.auth_log;
  pid_file = resolve sys c.pid_file;
  spool_dir = resolve sys c.spool_dir;
  tls_cert = resolve sys c.tls_cert;
  tls_key = resolve sys c.tls_key;
}

unfoldable pub look_up_once : System → Config → Config
unfolding look_up
look_up_once sys c = if c.uid == 0 && c.gid == 0 && not c.bad_user then look_up sys c else c

-- How `Load` ends: without a file the defaults stand, and a line that is too long ends the reading.
pub data Load : Type 0 where
  not_opened : Config → Load
  loaded cut_short : Loaded → Load

unfoldable pub load : System → Option Bytes → Load
unfolding default_config scan_lines load_lines look_up_once resolve_paths
load sys none = not_opened (default_config sys)
load sys (some content) =
    let scan = scan_lines content in
    let read = load_lines sys (default_config sys) 1 scan.lines in
    let end = record read { config = resolve_paths sys (look_up_once sys read.config) } in
    if scan.complete then loaded end else cut_short end
