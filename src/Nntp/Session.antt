-- ===== src/Nntp/Session.antt =====
-- internal/nntp/server.go: what a session knows, what it says, and how a command ends.
use gonewsd.Prelude.{
  ℕ, Bool, true, false, List, [], ◌∷◌, ◌++◌, Option, none, some, ◌==◌, Bytes, str, ◌≡◌,
}
use gonewsd.Prelude.Int.{ℤ}
use gonewsd.Article.Fields.{Article, no_article}
use gonewsd.Auth.Store.{Session, Store, can_read, can_post, filter_groups_for_list}
use gonewsd.Group.Listing.{all_groups}
use gonewsd.Group.Types.{Group, no_group, Env}
use gonewsd.Spool.Disk.{Disk}
use gonewsd.Text.Decimal.{format_uint}

-- The arguments of `time.Date`.
pub record DateTime : Type 0 where
  pub year : ℤ
  pub month : ℤ
  pub day : ℤ
  pub hour : ℤ
  pub minute : ℤ
  pub second : ℤ

-- `Server`, with what lies outside the repository: bcrypt, the address parser, the calendar, TLS.
pub record Server : Type 0 where
  pub env : Env
  pub auth_store : Option Store
  pub tls_config : Bool
  pub compare_password : Bytes → Bytes → Bool
  pub parse_address : Bytes → Option Bytes
  pub unix_time : DateTime → ℤ
  pub date_text : Bytes
  pub handshake_succeeds : Bool

-- What stands between the server and the socket.
pub data Layer : Type 0 where
  tls deflate : Layer

-- The variables of `handleConn`.
pub record Conn : Type 0 where
  pub cur_group : Group
  pub cur_article : Article
  pub session : Option Session
  pub auth_user : Bytes
  pub auth_simple : Bool
  pub layers : List Layer

abbrev pub new_conn : Conn
new_conn = record {
  cur_group = no_group;
  cur_article = no_article;
  session = none;
  auth_user = [];
  auth_simple = false;
  layers = [];
}

-- A line that is sent: a status line with its code, or another line.
pub data Out : Type 0 where
  status : ℕ → Bytes → Out
  line : Bytes → Out

-- `send`: the bytes of a line with its CRLF.
unfoldable pub send : Out → Bytes
unfolding format_uint
send (status code text) = format_uint code ++ (str " " ++ (text ++ str "\r\n"))
send (line text) = text ++ str "\r\n"

abbrev pub dot : Out
dot = line (str ".")

pub data Next : Type 0 where
  go_on closed hung : Next

-- What a command comes to.
pub record Reaction : Type 0 where
  pub conn : Conn
  pub disk : Disk
  pub out : List Out
  pub next : Next

abbrev pub reply : Conn → Disk → List Out → Reaction
reply conn disk out = record { conn = conn; disk = disk; out = out; next = go_on }

abbrev pub refuse : Conn → Disk → ℕ → Bytes → Reaction
refuse conn disk code text = reply conn disk (status code text ∷ [])

-- `canRead`, `canPost` and `listGroups`: without a store everything is allowed.
unfoldable pub may_read : Server → Option Session → Bytes → Bool → Bool
may_read srv session name there = elim srv.auth_store [
  | none ↦ true
  | some st ↦ can_read st session name there
]

unfoldable pub may_post : Server → Option Session → Bytes → Bool → Bool
may_post srv session name there = elim srv.auth_store [
  | none ↦ true
  | some st ↦ can_post st session name there
]

unfoldable pub list_groups : Server → Disk → Option Session → List Bytes
unfolding filter_groups_for_list all_groups
list_groups srv disk session =
    let all = all_groups srv.env.cfg disk in
    elim srv.auth_store [ none ↦ all | some st ↦ filter_groups_for_list st session all ]

-- The session is the same behind the command.
abbrev pub KeepsSession : Conn → Reaction → Type 0
KeepsSession conn r = r.conn.session ≡ conn.session

-- The first line of the answer has this code.
abbrev pub has_code : ℕ → List Out → Bool
has_code code (status c _ ∷ _) = c == code
has_code code _ = false

-- The current group and the current article are the same behind the command.
abbrev pub KeepsPlace : Conn → Reaction → Type 0
KeepsPlace conn r = (r.conn.cur_group ≡ conn.cur_group) × (r.conn.cur_article ≡ conn.cur_article)
