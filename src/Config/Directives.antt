-- ===== src/Config/Directives.antt =====
-- internal/config/config.go: the directives of `Load`, one function each, and `lookupUser`.
use gonewsd.Prelude.{
  ℕ, ◌+◌, ◌-◌, ◌*◌, not, Bool, true, false, ◌||◌, List, [], ◌∷◌, Option, none, some, ltb,
  if◌then◌else◌, is_empty, Bytes, eq_bytes, str,
}
use gonewsd.Config.{Config}
use gonewsd.Config.Values.{parse_bool, parse_size, parse_uint32, parse_listen}
use gonewsd.Text.Decimal.{is_digit}
use gonewsd.Text.Strings.{to_lower}

-- What the parser asks of the system. A user has a number and a group number, written out, as
-- `user.Lookup` gives them; no name, error or directory is an empty answer.
pub record System : Type 0 where
  pub hostname : Bytes
  pub lookup_port : Bytes → Option ℕ
  pub lookup_user : Bytes → Option (Bytes × Bytes)
  pub working_dir : Option Bytes

-- What a directive does: a value is taken, with or without a warning, or is reported.
pub data Effect : Type 0 where
  taken deprecated bad : Config → Effect

abbrev pub config_of : Effect → Config
config_of (taken c) = c
config_of (deprecated c) = c
config_of (bad c) = c

abbrev pub Directive : Type 0
Directive = System → Config → Bytes → Effect

-- `strconv.ParseUint(u.Uid, 10, 32)` with the error dropped: a number above 32 bits gives the
-- greatest of them, a text that is no number gives 0.
unfoldable pub magnitude32 : ℕ → Bytes → ℕ
unfolding is_digit
magnitude32 n [] = n
magnitude32 n (c ∷ s) =
    let m = n * 10 + (c - b'0') in
    let rest = magnitude32 m s in
    if not (is_digit c) then 0 else if ltb m 4294967296 then rest else 4294967295

unfoldable pub id_number : Bytes → ℕ
unfolding magnitude32
id_number s = magnitude32 0 s

-- `lookupUser`
unfoldable pub look_up : System → Config → Config
unfolding id_number
look_up sys c = elim (sys.lookup_user c.user) [
  | none ↦ record c { bad_user = true; uid = 0; gid = 0 }
  | some (u, g) ↦ record c { uid = id_number u; gid = id_number g; bad_user = false }
]

unfoldable pub set_hostname_lookups : Directive
unfolding to_lower eq_bytes
set_hostname_lookups sys c v =
    let w = to_lower v in
    if eq_bytes w (str "off") || eq_bytes w (str "no")
    then taken (record c { hostname_lookups = 0 })
    else if eq_bytes w (str "on") || eq_bytes w (str "yes")
    then taken (record c { hostname_lookups = 1 })
    else if eq_bytes w (str "double")
    then taken (record c { hostname_lookups = 2 })
    else bad c

unfoldable pub set_log_level : Directive
unfolding to_lower eq_bytes
set_log_level sys c v =
    let w = to_lower v in
    if eq_bytes w (str "error")
    then taken (record c { log_level = 0 })
    else if eq_bytes w (str "info")
    then taken (record c { log_level = 1 })
    else if eq_bytes w (str "debug")
    then taken (record c { log_level = 2 })
    else bad c

unfoldable pub set_max_clients : Directive
unfolding parse_uint32
set_max_clients sys c v = elim (parse_uint32 v) [
  | none ↦ bad c
  | some n ↦ taken (record c { max_clients = n })
]

unfoldable pub set_timeout : Directive
unfolding parse_uint32
set_timeout sys c v = elim (parse_uint32 v) [
  | none ↦ bad c
  | some n ↦ taken (record c { timeout = n })
]

unfoldable pub set_user : Directive
unfolding look_up
set_user sys c v =
    let c' = look_up sys (record c { user = v }) in if c'.bad_user then bad c' else taken c'

abbrev pub is_mode : Bytes → Bool
is_mode w =
    eq_bytes w (str "public")
    || (eq_bytes w (str "private") || eq_bytes w (str "read_public_write_private"))

-- The value is kept as it is written.
unfoldable pub set_auth_mode : Directive
unfolding to_lower eq_bytes
set_auth_mode sys c v = if is_mode (to_lower v) then taken (record c { auth_mode = v }) else bad c

unfoldable pub set_post_command : Directive
set_post_command sys c v = taken (record c { post_command = if is_empty v then str "-" else v })

-- The names that `Load` knows, in lower case.
unfoldable pub directives : List (Bytes × Directive)
unfolding set_hostname_lookups set_log_level set_max_clients set_timeout set_user set_auth_mode
    set_post_command parse_bool parse_size parse_listen
directives =
    (str "hostnamelookups", set_hostname_lookups)
    ∷ (str "norecursemsgdir", λ _ c v. taken (record c { no_recurse_msg_dir = parse_bool v }))
    ∷ (str "msgmoddirs", λ _ c v. taken (record c { msg_mod_dirs = parse_bool v }))
    ∷ (str "listen", λ sys c v. taken (record c { listen_addr = parse_listen sys.lookup_port v }))
    ∷ (str "logfile", λ _ c v. deprecated (record c { error_log = v }))
    ∷ (str "errorlog", λ _ c v. taken (record c { error_log = v }))
    ∷ (str "errorlog.hex", λ _ c v. taken (record c { error_log_hex = parse_bool v }))
    ∷ (str "loglevel", set_log_level)
    ∷ (str "maxclients", set_max_clients)
    ∷ (str "maxlogsize", λ _ c v. taken (record c { max_log_size = parse_size v }))
    ∷ (str "newshostname", λ _ c v. deprecated (record c { server_name = v }))
    ∷ (str "servername", λ _ c v. taken (record c { server_name = v }))
    ∷ (str "sendmail", λ _ c v. taken (record c { send_mail = v }))
    ∷ (str "spamfilter", λ _ c v. taken (record c { spam_filter = v }))
    ∷ (str "spooldir", λ _ c v. taken (record c { spool_dir = v }))
    ∷ (str "postcommand", set_post_command)
    ∷ (str "timeout", set_timeout)
    ∷ (str "user", set_user)
    ∷ (str "auth.mode", set_auth_mode)
    ∷ (str "auth.db", λ _ c v. taken (record c { auth_db = v }))
    ∷ (str "auth.log", λ _ c v. taken (record c { auth_log = v }))
    ∷ (str "pidfile", λ _ c v. taken (record c { pid_file = v }))
    ∷ (str "tls.cert", λ _ c v. taken (record c { tls_cert = v }))
    ∷ (str "tlscert", λ _ c v. taken (record c { tls_cert = v }))
    ∷ (str "tls.key", λ _ c v. taken (record c { tls_key = v }))
    ∷ (str "tlskey", λ _ c v. taken (record c { tls_key = v }))
    ∷ []
