-- ===== src/Tests/Samples.antt =====
-- A small spool with one group and one article, and a server on it.
use gonewsd.Prelude.{true, false, [], ◌∷◌, ◌++◌, Option, some, Bytes, FilePath, str}
use gonewsd.Prelude.Int.{pos}
use gonewsd.Auth.Store.{Session, User, Group, Store}
use gonewsd.Config.{Config}
use gonewsd.Group.Types.{Env, accepts}
use gonewsd.Nntp.Session.{Server, Conn, new_conn}
use gonewsd.Spool.Disk.{Disk, Os, dir, file}

abbrev pub settings : Config
settings = record {
  hostname_lookups = 0;
  no_recurse_msg_dir = false;
  msg_mod_dirs = false;
  listen_addr = str ":119";
  error_log = str "stderr";
  error_log_hex = false;
  log_level = 0;
  max_clients = 10;
  max_log_size = pos 0;
  server_name = str "n";
  send_mail = [];
  spam_filter = [];
  spool_dir = str "/s";
  post_command = [];
  timeout = 60;
  user = str "news";
  uid = 9;
  gid = 9;
  bad_user = false;
  auth_mode = [];
  auth_db = [];
  auth_log = [];
  pid_file = [];
  tls_cert = [];
  tls_key = [];
}

abbrev pub system : Os
system = record {
  refused = λ _. false;
  chown_fails = λ _. false;
  error_text = λ _. str "error";
  now = 0;
}

abbrev pub env : Env
env = record { cfg = settings; os = system; date_rfc822 = str "D"; spam_filter = λ _. accepts }

abbrev pub in_group : Bytes → FilePath
in_group name = str "s" ∷ str "a" ∷ name ∷ []

abbrev pub article_bytes : Bytes
article_bytes = str "From: u\nMessage-ID: <1>\n\nhi\n"

abbrev pub info_bytes : Bytes
info_bytes = str "start       1\nend         1\ntotal       1\n"

abbrev pub disk : Disk
disk =
    (str "s" ∷ [], dir 0)
    ∷ (str "s" ∷ str "a" ∷ [], dir 0)
    ∷ (in_group (str ".config"), file (str "postlimit 9\n") 0)
    ∷ (in_group (str ".info"), file info_bytes 0)
    ∷ (in_group (str ".lock"), file [] 0)
    ∷ (in_group (str "1"), file article_bytes 0)
    ∷ []

-- The group of the store: its users read and write, the world reads.
abbrev pub entry : Group
entry = record {
  group_id = 1;
  groupname = str "a";
  group_perm = str "rw";
  world_perm = str "r";
  archived = false;
  description = [];
  creator = [];
  post_limit = pos 0;
  cc_post = [];
  reply_to = [];
  void_email = [];
}

abbrev pub user : User
user = record { user_id = 1; username = str "u"; password_hash = str "p"; real_name = str "U" }

abbrev pub store : Store
store = record {
  users = (str "u", user) ∷ [];
  groups = (str "a", entry) ∷ [];
  membership = (str "u", (str "a", true) ∷ []) ∷ [];
  mode = str "public";
}

abbrev pub server : Server
server = record {
  env = env;
  auth_store = some store;
  tls_config = false;
  compare_password = λ hash password. true;
  parse_address = λ text. some text;
  unix_time = λ _. pos 0;
  date_text = str "0";
  handshake_succeeds = true;
}

abbrev pub session : Option Session
session = some (record { username = str "u"; real_name = str "U"; groups = str "a" ∷ [] })

abbrev pub member : Conn
member = record new_conn { session = session }

abbrev pub two_articles : Disk
two_articles = disk ++ (in_group (str "2"), file (str "From: v\nMessage-ID: <2>\n\nho\n") 0) ∷ []
