-- ===== src/Nntp/Commands/Login.antt =====
-- `AUTHINFO` and the commands that depend on no group.
pub mod Changing
pub mod Placing
use gonewsd.Prelude.{
  ℕ, Bool, true, false, not, ◌&&◌, ◌||◌, List, [], ◌∷◌, ◌++◌, Option, none, some, if◌then◌else◌,
  is_empty, Bytes, eq_bytes, str,
}
use gonewsd.Auth.Store.{Session, Store, validate_user, resolve_session_groups, get_user_real_name}
use gonewsd.Spool.Disk.{Disk}
use gonewsd.Text.Strings.{to_upper}
use gonewsd.Nntp.Session.{
  Server, Layer, tls, deflate, Conn, Out, status, line, dot, Next, go_on, closed, hung, Reaction,
  reply, refuse,
}

-- `s.authStore != nil && s.authStore.ValidateUser(user, password)`
unfoldable pub credentials_hold : Server → Bytes → Bytes → Bool
credentials_hold srv user password = elim srv.auth_store [
  | none ↦ false
  | some st ↦ validate_user srv.compare_password st user password
]

abbrev groups_of : Option Store → Bytes → List Bytes
groups_of none user = []
groups_of (some st) user = resolve_session_groups st user

abbrev real_name_of : Option Store → Bytes → Bytes
real_name_of none user = []
real_name_of (some st) user = get_user_real_name st user

-- The line behind `AUTHINFO SIMPLE`: a user and a password.
unfoldable pub auth_simple_line : Server → Conn → Disk → Bytes → Bytes → Reaction
unfolding credentials_hold
auth_simple_line srv conn0 disk user password =
    let conn = record conn0 { auth_simple = false } in
    if is_empty user || is_empty password
    then refuse conn disk 501 (str "Bad or unknown argument")
    else if credentials_hold srv user password
    then reply
        (record conn {
          session =
              some (record {
                username = user;
                real_name = [];
                groups = groups_of srv.auth_store user;
              });
        })
        disk (status 250 (str "Authenticated OK") ∷ [])
    else refuse conn disk 452 (str "Authorization rejected")

auth_pass : Server → Conn → Disk → Bytes → Reaction
unfolding credentials_hold
auth_pass srv conn disk password =
    let user = conn.auth_user in
    let conn' = record conn { auth_user = [] } in
    if is_empty password
    then refuse conn disk 501 (str "Bad or unknown argument")
    else if is_empty user
    then refuse conn disk 482 (str "User must be specified first")
    else if credentials_hold srv user password
    then reply
        (record conn' {
          session = some (record {
            username = user;
            real_name = real_name_of srv.auth_store user;
            groups = groups_of srv.auth_store user;
          });
        })
        disk (status 281 (str "Authenticated OK") ∷ [])
    else refuse conn' disk 482 (str "Authentication failed")

auth_user_name : Conn → Disk → Bytes → Reaction
auth_user_name conn disk user =
    if is_empty user
    then refuse conn disk 501 (str "Bad or unknown argument")
    else reply (record conn { auth_user = user }) disk
        (status 381 (str "Now supply your password") ∷ [])

-- `AUTHINFO` with a store
abbrev auth_info_with : Server → Conn → Disk → Bytes → Bytes → Reaction
auth_info_with srv conn disk arg1 arg2 =
    let kind = to_upper arg1 in
    if eq_bytes kind (str "SIMPLE")
    then reply (record conn { auth_simple = true }) disk
        (status 350 (str "Go ahead with username and password") ∷ [])
    else if eq_bytes kind (str "USER")
    then auth_user_name conn disk arg2
    else if eq_bytes kind (str "PASS")
    then auth_pass srv conn disk arg2
    else if eq_bytes kind (str "GENERIC")
    then refuse conn disk 501
        (str "AUTHINFO GENERIC is deprecated (RFC 4643); use AUTHINFO USER/PASS")
    else refuse conn disk 501 (str "Bad or unknown argument")

unfoldable pub auth_info : Server → Conn → Disk → Bytes → Bytes → Reaction
unfolding auth_user_name auth_pass
auth_info srv conn disk arg1 arg2 = elim srv.auth_store [
  | none ↦ refuse conn disk 281 (str "No authentication needed")
  | some _ ↦ auth_info_with srv conn disk arg1 arg2
]

abbrev line_if : Bool → Bytes → List Out → List Out
line_if b text rest = if b then line text ∷ rest else rest

abbrev has_store : Option Store → Bool
has_store none = false
has_store (some _) = true

unfoldable pub capabilities : Server → Conn → Disk → Reaction
capabilities srv conn disk = reply conn disk (
    status 101 (str "Capability list:")
    ∷ line (str "VERSION 2")
    ∷ line (str "READER")
    ∷ line (str "POST")
    ∷ line (str "LIST ACTIVE NEWSGROUPS OVERVIEW.FMT ACTIVE.TIMES SUBSCRIPTIONS HEADERS")
    ∷ line (str "OVER")
    ∷ line (str "HDR")
    ∷ line_if (has_store srv.auth_store) (str "AUTHINFO USER")
        (line_if srv.tls_config (str "STARTTLS") (line (str "COMPRESS DEFLATE") ∷ dot ∷ [])))

-- A failed handshake ends the session. What follows is read through the new layer.
unfoldable pub start_tls : Server → Conn → Disk → Reaction
start_tls srv conn disk =
    if not srv.tls_config
    then refuse conn disk 580 (str "TLS not available")
    else let ready = status 382 (str "Continue with TLS negotiation") ∷ [] in
      if srv.handshake_succeeds
      then reply (record conn { layers = tls ∷ conn.layers }) disk ready
      else record { conn = conn; disk = disk; out = ready; next = closed }

unfoldable pub compress : Conn → Disk → Bytes → Reaction
compress conn disk arg1 =
    if not (eq_bytes (to_upper arg1) (str "DEFLATE"))
    then refuse conn disk 501 (str "Only DEFLATE is supported")
    else reply (record conn { layers = deflate ∷ conn.layers }) disk
        (status 206 (str "Compression active") ∷ [])

unfoldable pub mode_command : Conn → Disk → Bytes → Reaction
mode_command conn disk arg1 =
    if eq_bytes (to_upper arg1) (str "STREAM")
    then refuse conn disk 500 (str "Streaming not implemented on this server")
    else if eq_bytes (to_upper arg1) (str "READER")
    then refuse conn disk 200 (str "erco's newsd server ready (posting ok)")
    else refuse conn disk 500 (str "What?")
