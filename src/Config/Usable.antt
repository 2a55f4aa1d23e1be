-- ===== src/Config/Usable.antt =====
-- What a configuration that `Load` has read is, whatever the file says.
use gonewsd.Prelude.{
  bytes_eq, eq_bytes, ◌+◌, ◌-◌, ◌*◌, ℕ, suc, ◌≤◌, ◌<◌, ◌≡◌, refl, Bool, true, false, ◌||◌, List, [],
  ◌∷◌, ◌++◌, Option, none, some, arith, if◌then◌else◌, Bytes, FilePath, str, All, is_empty,
}
use gonewsd.Prelude.Keyed.{lookup}
use gonewsd.Config.{Config}
use gonewsd.Prelude.Int.{ℤ}
use gonewsd.Config.Sizes.{IsInt64, parse_size-IsInt64}
use gonewsd.Config.Values.{parse_uint32, parse_listen, join_host_port}
use gonewsd.Config.Directives.{
  System, Effect, taken, deprecated, bad, config_of, Directive, directives, look_up, id_number,
  set_hostname_lookups, set_log_level, set_max_clients, set_timeout, set_user, set_auth_mode,
  set_post_command, is_mode, magnitude32,
}
use gonewsd.Config.Loading.{
  default_config, load, Load, not_opened, loaded, cut_short, Loaded, load_lines, apply, Cut, blank,
  name_only, setting, cut_line, resolve, rooted, is_abs, resolve_paths, look_up_once, effect,
  unknown_directive,
}
use gonewsd.Text.Strings.{to_lower, contains_byte, contains_byte-append}
use gonewsd.Spool.Names.{path_text}
use gonewsd.Text.Scanner.{scan_lines}

-- The address to listen on has a colon, the mode is one of the three up to its case, and the numbers
-- fit their types, or the choices there are; a user that is not found has no numbers. The size of a
-- log may be negative.
pub record IsUsable (c : Config) : Type 0 where
  pub lookups : c.hostname_lookups ≤ 2
  pub level : c.log_level ≤ 2
  pub clients : c.max_clients < 4294967296
  pub size : IsInt64 c.max_log_size
  pub seconds : c.timeout < 4294967296
  pub user_id : c.uid < 4294967296
  pub group_id : c.gid < 4294967296
  pub no_ids : c.bad_user ≡ true → (c.uid ≡ 0) × (c.gid ≡ 0)
  pub mode : is_mode (to_lower c.auth_mode) ≡ true
  pub listens : contains_byte c.listen_addr b':' ≡ true

parse_uint32-bound : (s : Bytes) {n : ℕ} → parse_uint32 s ≡ some n → n < 4294967296
unfolding parse_uint32
parse_uint32-bound s h = ground arith

magnitude32-bound : (s : Bytes) (n : ℕ) → n < 4294967296 → magnitude32 n s < 4294967296
unfolding magnitude32
magnitude32-bound [] n h = h
magnitude32-bound (c ∷ s) n h = ground (arith, magnitude32-bound s (n * 10 + (c - b'0')))

id_number-bound : (s : Bytes) → id_number s < 4294967296
unfolding id_number
id_number-bound s = magnitude32-bound s 0 (omega arith)

join_host_port-colon : (h p : Bytes) → contains_byte (join_host_port h p) b':' ≡ true
unfolding join_host_port contains_byte
join_host_port-colon h p =
    ground (
      arith,
      contains_byte-append h (str "]:" ++ p) b':',
      contains_byte-append h (str ":" ++ p) b':',
    )

parse_listen-colon :
    (f : Bytes → Option ℕ) (s : Bytes) → contains_byte (parse_listen f s) b':' ≡ true
unfolding parse_listen contains_byte
parse_listen-colon f s = grind (arith, join_host_port-colon)

look_up-IsUsable : (sys : System) (c : Config) → IsUsable c → IsUsable (look_up sys c)
unfolding look_up
look_up-IsUsable sys c h = grind (arith, id_number-bound)

-- A directive keeps the configuration usable, whatever its value.
Keeps : Directive → Type 0
Keeps d = (sys : System) (c : Config) (v : Bytes) → IsUsable c → IsUsable (config_of (d sys c v))

listen_IsUsable :
    (c : Config) (a : Bytes)
    → contains_byte a b':' ≡ true
    → IsUsable c
    → IsUsable (record c { listen_addr = a })
listen_IsUsable c a k h = record {
  lookups = h.lookups;
  level = h.level;
  clients = h.clients;
  size = h.size;
  seconds = h.seconds;
  user_id = h.user_id;
  group_id = h.group_id;
  no_ids = h.no_ids;
  mode = h.mode;
  listens = k;
}

size_IsUsable :
    (c : Config) (n : ℤ) → IsInt64 n → IsUsable c → IsUsable (record c { max_log_size = n })
size_IsUsable c n k h = record {
  lookups = h.lookups;
  level = h.level;
  clients = h.clients;
  size = k;
  seconds = h.seconds;
  user_id = h.user_id;
  group_id = h.group_id;
  no_ids = h.no_ids;
  mode = h.mode;
  listens = h.listens;
}

set_hostname_lookups-Keeps : Keeps set_hostname_lookups
unfolding Keeps set_hostname_lookups
set_hostname_lookups-Keeps sys c v h = ground arith

set_log_level-Keeps : Keeps set_log_level
unfolding Keeps set_log_level
set_log_level-Keeps sys c v h = ground arith

set_max_clients-Keeps : Keeps set_max_clients
unfolding Keeps set_max_clients
set_max_clients-Keeps sys c v h = ground (arith, parse_uint32-bound v)

set_timeout-Keeps : Keeps set_timeout
unfolding Keeps set_timeout
set_timeout-Keeps sys c v h = ground (arith, parse_uint32-bound v)

set_auth_mode-Keeps : Keeps set_auth_mode
unfolding Keeps set_auth_mode
set_auth_mode-Keeps sys c v h = ground arith

config_of-choose : (b : Bool) (c : Config) → config_of (if b then bad c else taken c) ≡ c
config_of-choose true c = refl
config_of-choose false c = refl

set_user-Keeps : Keeps set_user
unfolding Keeps set_user
set_user-Keeps sys c v h =
    let n = record c { user = v } in
    rw (config_of-choose (look_up sys n).bad_user (look_up sys n))
      (look_up-IsUsable sys n (ground arith))

-- What a lookup finds is in the table.
Found : (Directive → Type 0) → Option Directive → Type 0
Found P none = Unit
Found P (some d) = P d

chosen-Found :
    (P : Directive → Type 0) (b : Bool) (w : Directive) (o : Option Directive)
    → P w
    → Found P o
    → Found P (if b then some w else o)
unfolding Found
chosen-Found P true w o h k = h
chosen-Found P false w o h k = k

lookup-Found :
    (P : Directive → Type 0) (k : Bytes) (ds : List (Bytes × Directive))
    → All (λ e. P e.1) ds
    → Found P (lookup k ds)
unfolding lookup Found
lookup-Found P k [] h = tt
lookup-Found P k ((j, w) ∷ ds) (hw, h) =
    chosen-Found P (eq_bytes j k) w (lookup k ds) hw (lookup-Found P k ds h)

directives-Keeps : All (λ e. Keeps e.1) directives
unfolding directives Keeps
directives-Keeps = (
  set_hostname_lookups-Keeps,
  (
    (λ _ c v h. ground arith),
    (
      (λ _ c v h. ground arith),
      (
        (λ sys c v h. listen_IsUsable c _ (parse_listen-colon sys.lookup_port v) h),
        (
          (λ _ c v h. ground arith),
          (
            (λ _ c v h. ground arith),
            (
              (λ _ c v h. ground arith),
              (
                set_log_level-Keeps,
                (
                  set_max_clients-Keeps,
                  (
                    (λ _ c v h. size_IsUsable c _ (parse_size-IsInt64 v) h),
                    (
                      (λ _ c v h. ground arith),
                      (
                        (λ _ c v h. ground arith),
                        (
                          (λ _ c v h. ground arith),
                          (
                            (λ _ c v h. ground arith),
                            (
                              (λ _ c v h. ground arith),
                              (
                                (λ _ c v h. unfold set_post_command in ground arith),
                                (
                                  set_timeout-Keeps,
                                  (
                                    set_user-Keeps,
                                    (
                                      set_auth_mode-Keeps,
                                      (
                                        (λ _ c v h. ground arith),
                                        (
                                          (λ _ c v h. ground arith),
                                          (
                                            (λ _ c v h. ground arith),
                                            (
                                              (λ _ c v h. ground arith),
                                              (
                                                (λ _ c v h. ground arith),
                                                (
                                                  (λ _ c v h. ground arith),
                                                  ((λ _ c v h. ground arith), tt),
                                                ),
                                              ),
                                            ),
                                          ),
                                        ),
                                      ),
                                    ),
                                  ),
                                ),
                              ),
                            ),
                          ),
                        ),
                      ),
                    ),
                  ),
                ),
              ),
            ),
          ),
        ),
      ),
    ),
  ),
)

effect-config : (name : Bytes) (n : ℕ) (e : Effect) → (effect name n e).config ≡ config_of e
effect-config name n (taken c) = refl
effect-config name n (deprecated c) = refl
effect-config name n (bad c) = refl

apply_directive :
    (sys : System) (c : Config) (n : ℕ) (name value : Bytes) (o : Option Directive)
    → Found Keeps o
    → IsUsable c
    → IsUsable
        (elim o as (λ _. Loaded) [
          | none ↦ record { config = c; warnings = unknown_directive name n ∷ [] }
          | some d ↦ effect name n (d sys c value)
        ]).config
unfolding Found Keeps
apply_directive sys c n name value none f h = h
apply_directive sys c n name value (some d) f h =
    rw (effect-config name n (d sys c value)) (f sys c value h)

apply-IsUsable :
    (sys : System) (c : Config) (n : ℕ) (t : Cut) → IsUsable c → IsUsable (apply sys c n t).config
unfolding apply
apply-IsUsable sys c n blank h = h
apply-IsUsable sys c n (name_only name) h = h
apply-IsUsable sys c n (setting name value) h =
    apply_directive sys c n name value _
      (lookup-Found Keeps (to_lower name) directives directives-Keeps) h

load_lines-IsUsable :
    (sys : System) (ls : List Bytes) (c : Config) (n : ℕ)
    → IsUsable c
    → IsUsable (load_lines sys c n ls).config
unfolding load_lines
load_lines-IsUsable sys [] c n h = h
load_lines-IsUsable sys (l ∷ ls) c n h =
    load_lines-IsUsable sys ls (apply sys c n (cut_line l)).config (suc n)
      (apply-IsUsable sys c n (cut_line l) h)

default_config-IsUsable : (sys : System) → IsUsable (default_config sys)
unfolding default_config contains_byte to_lower eq_bytes
default_config-IsUsable sys = record {
  lookups = omega arith;
  level = omega arith;
  clients = omega arith;
  size = omega arith;
  seconds = omega arith;
  user_id = omega arith;
  group_id = omega arith;
  no_ids = λ e. absurd cc;
  mode = refl;
  listens = refl;
}

look_up_once-IsUsable : (sys : System) (c : Config) → IsUsable c → IsUsable (look_up_once sys c)
unfolding look_up_once
look_up_once-IsUsable sys c h = ground (arith, look_up-IsUsable sys c h)

-- Where the paths lie: empty, or absolute.
abbrev pub IsSettledPath : Bytes → Type 0
IsSettledPath p = (is_empty p || is_abs p) ≡ true

rooted-is_abs : (p : FilePath) → is_abs (rooted p) ≡ true
unfolding is_abs path_text
rooted-is_abs [] = refl
rooted-is_abs (q ∷ ps) = refl

chosen_path :
    (b : Bool) (p q : Bytes)
    → (b ≡ true → IsSettledPath p)
    → is_abs q ≡ true
    → IsSettledPath (if b then p else q)
chosen_path true p q h k = h refl
chosen_path false p q h k = ground (arith, k)

resolve-IsSettledPath :
    (sys : System) (wd p : Bytes) → sys.working_dir ≡ some wd → IsSettledPath (resolve sys p)
unfolding resolve
resolve-IsSettledPath sys wd p e =
    rw e (chosen_path (is_empty p || is_abs p) p _ (λ h. h) (rooted-is_abs _))

-- The configuration that a load leaves behind.
abbrev pub result : Load → Config
result (not_opened c) = c
result (loaded l) = l.config
result (cut_short l) = l.config

result-choose : (b : Bool) (l : Loaded) → result (if b then loaded l else cut_short l) ≡ l.config
result-choose true l = refl
result-choose false l = refl

-- Whatever the file holds, or if there is none: `Load` leaves a configuration whose address to listen
-- on has a colon, whose mode of authentication is one of the three up to its case, whose choices of
-- lookups and of the log level are at most 2, whose numbers of clients, of seconds, of the user and
-- of the group are below 2^32 (the last two 0 for a user that is not found), and whose size of a log
-- is an `int64`, which may be negative.
pub load-IsUsable : (sys : System) (file : Option Bytes) → IsUsable (result (load sys file))
unfolding load
load-IsUsable sys none = default_config-IsUsable sys
load-IsUsable sys (some content) =
    let s = scan_lines content in
    let c = load_lines sys (default_config sys) 1 s.lines in
    let h =
      look_up_once-IsUsable sys c.config
        (load_lines-IsUsable sys s.lines (default_config sys) 1 (default_config-IsUsable sys)) in
    rw (result-choose s.complete _) (unfold resolve_paths in ground arith)

-- The paths that are used behind the change of the directory.
pub record ArePathsSettled (c : Config) : Type 0 where
  pub db : IsSettledPath c.auth_db
  pub log : IsSettledPath c.auth_log
  pub pid : IsSettledPath c.pid_file
  pub spool : IsSettledPath c.spool_dir
  pub cert : IsSettledPath c.tls_cert
  pub key : IsSettledPath c.tls_key

resolve_paths-ArePathsSettled :
    (sys : System) (wd : Bytes) (c : Config)
    → sys.working_dir ≡ some wd
    → ArePathsSettled (resolve_paths sys c)
unfolding resolve_paths
resolve_paths-ArePathsSettled sys wd c e = record {
  db = resolve-IsSettledPath sys wd c.auth_db e;
  log = resolve-IsSettledPath sys wd c.auth_log e;
  pid = resolve-IsSettledPath sys wd c.pid_file e;
  spool = resolve-IsSettledPath sys wd c.spool_dir e;
  cert = resolve-IsSettledPath sys wd c.tls_cert e;
  key = resolve-IsSettledPath sys wd c.tls_key e;
}

-- Where there is a working directory, every path of a file that is read is empty or absolute when
-- `Load` ends, so that it is the same file after the change to the root directory.
load-ArePathsSettled :
    (sys : System) (wd content : Bytes)
    → sys.working_dir ≡ some wd
    → ArePathsSettled (result (load sys (some content)))
unfolding load
load-ArePathsSettled sys wd content e =
    let s = scan_lines content in
    let c = look_up_once sys (load_lines sys (default_config sys) 1 s.lines).config in
    rw (result-choose s.complete _) (resolve_paths-ArePathsSettled sys wd c e)
