-- ===== src/Tests/Operating.antt =====
-- Connections, settings, the user database, its commands and the mail gateway at concrete inputs.
use gonewsd.Prelude.{
  ℕ, ◌≡◌, refl, ap, is_empty, sym, arith, true, false, Bool, ◌&&◌, ◌||◌, [], ◌∷◌, ◌++◌, List,
  Option, none, some, Bytes, str, eq_bytes, if◌then◌else◌, ◌==◌,
}
use gonewsd.Prelude.Int.{pos, negsuc}
use gonewsd.Auth.Database.{Sql, AclRow, rows, Answer, row, no_rows, done}
use gonewsd.Auth.Database.Loading.{load_store_from_db}
use gonewsd.Auth.Database.Membership.{Inserts, is_named, set_membership_tx-member}
use gonewsd.Auth.Database.Refining.{IsView, load_store_from_db-IsView}
use gonewsd.Auth.Database.Users.{set_membership_tx}
use gonewsd.Auth.Store.{User}
use gonewsd.Auth.Validate.{normalize_groups}
use gonewsd.Cli.{
  typed, closed, Terminal, existing_group_names, waiting, prompt_groups_if_missing,
  prompt_email_if_missing,
}
use gonewsd.Cli.Answers.{
  Chooses, ends, prompt_groups_if_missing-Chooses, prompt_email_if_missing-ends,
}
use gonewsd.Cli.Commands.{run_add_user, run_update_user, run_delete_user, exit, UserArgs}
use gonewsd.Cli.Grouping.{GroupArgs, run_update_group}
use gonewsd.Cli.Sound.{Sound, Adds, Updates, run_add_user-Sound, run_update_user-Sound}
use gonewsd.Config.Cutting.{IsValue, render_setting, cut_line-render_setting}
use gonewsd.Config.Directives.{System}
use gonewsd.Config.Loading.{load, cut_line, setting}
use gonewsd.Config.Usable.{IsUsable, result, load-IsUsable}
use gonewsd.Gateway.{
  build_preserve_headers, Gateway, delivered, Mail, mail_gateway, check_headers, read_mail,
  new_reading, gateway_headers,
}
use gonewsd.Gateway.Content.{gateway_lines, read_mail-article_text}
use gonewsd.Gateway.Limit.{without_cr, read_mail-count_post_lines}
use gonewsd.Gateway.Loops.{rewritten, check_headers-rewritten}
use gonewsd.Gateway.Success.{Delivers, mail_gateway-Delivers}
use gonewsd.Group.Headers.{parse_article}
use gonewsd.Group.Posting.{article_text}
use gonewsd.Group.Types.{Group, no_group}
use gonewsd.Logging.{LogSystem, init, new_logger, log, log_auth, rotate}
use gonewsd.Logging.Open.{is_panic, started, rotated, Running-is_panic}
use gonewsd.Nntp.Accepting.{
  Pool, new_pool, count_in, admitted, admit, count, here, more, Reach, has_conn, accept, connection,
  register,
}
use gonewsd.Nntp.Accepting.Counting.{IsCounted, Reach-IsCounted, accept-Reach}
use gonewsd.Nntp.Commands.Loop.{handle_line}
use gonewsd.Nntp.Commands.Loop.Settled.{start, line, Reached-IsSettled}
use gonewsd.Nntp.Commands.Posting.{over_limit}
use gonewsd.Nntp.Commands.Reading.Settled.{IsSettled}
use gonewsd.Nntp.Session.{new_conn}
use gonewsd.Nntp.Wire.{count_post_lines}
use gonewsd.Spool.Disk.{Disk}
use gonewsd.Text.Split.{split}
use gonewsd.Tests.Samples.{settings, env, disk, server, store, user, entry}

abbrev one_counted : Pool
one_counted = count_in (record new_pool { phase = admitted 7 }) 7

Reach-IsCounted_example : IsCounted settings one_counted
unfolding gonewsd.Nntp.Accepting.is_full
Reach-IsCounted_example =
    Reach-IsCounted settings (more (more here (admit 7 refl refl)) (count 7 refl))

abbrev one_served : Pool
one_served = register (count_in new_pool 7) 7

accept-Reach_example : Reach settings new_pool one_served × (has_conn 7 one_served.conns ≡ true)
unfolding accept
accept-Reach_example = accept-Reach settings new_pool [] (connection 7 ∷ []) refl refl

Reached-IsSettled_example :
    IsSettled settings (handle_line server new_conn disk (str "r") (str "GROUP a") []).0.conn
Reached-IsSettled_example =
    Reached-IsSettled env (line server disk (str "r") (str "GROUP a") [] refl start)

abbrev machine : System
machine = record {
  hostname = str "h";
  lookup_port = λ _. none;
  lookup_user = λ _. some (str "8", str "13");
  working_dir = some (str "/etc");
}

abbrev config_file : Bytes
config_file = str "listen 8119\nloglevel loud\nauth.mode Private # ours\nauth.db users.db\n"

load-IsUsable_example : IsUsable (result (load machine (some config_file)))
load-IsUsable_example = load-IsUsable machine (some config_file)

servername-IsValue : IsValue (str "news host")
unfolding gonewsd.Text.Strings.trim_left gonewsd.Text.Strings.trim_right
    gonewsd.Text.Strings.is_space gonewsd.Text.Strings.contains_byte
servername-IsValue = record { some_bytes = refl; no_front = refl; no_back = refl; no_hash = refl }

cut_line-render_setting_example :
    cut_line (render_setting (str "servername") (str "news host") (some (str " ours")))
    ≡ setting (str "servername") (str "news host")
unfolding gonewsd.Text.Strings.is_space
cut_line-render_setting_example =
    cut_line-render_setting (str "servername") (str "news host") (some (str " ours")) refl
      servername-IsValue

read_mail-count_post_lines_example :
    (read_mail (pos 1) (new_reading []) (str "a\r\nb" ++ b'\n' ∷ [])).toolong
    ≡ over_limit (pos 1) (count_post_lines (without_cr (str "a\r\nb" ++ b'\n' ∷ [])))
read_mail-count_post_lines_example = read_mail-count_post_lines (pos 1) [] (str "a\r\nb")

check_headers-rewritten_example :
    check_headers (str "X-Loop:" ∷ []) ≡ some (rewritten (str "X-Loop:" ∷ []))
check_headers-rewritten_example = check_headers-rewritten (str "X-Loop:" ∷ []) (
  (
    omega arith,
    (omega arith, (omega arith, (omega arith, (omega arith, (omega arith, (omega arith, tt)))))),
  ),
  tt,
)

read_mail-article_text_example :
    parse_article
      (read_mail
        (pos 9)
        (new_reading (gateway_headers (str "1") (str "a")))
        (article_text (str "Subject: x" ∷ []) (str "hi" ∷ []))).msg
    ≡ (gateway_lines (str "1") (str "a") ++ str "Subject: x" ∷ [], str "hi" ∷ [])
unfolding read_mail gateway_headers article_text gonewsd.Text.Strings.contains_byte
read_mail-article_text_example =
    read_mail-article_text (pos 9) (str "1") (str "a") (str "Subject: x" ∷ []) (str "hi" ∷ [])
      (refl, refl) (refl, refl) ((refl, refl, refl), tt) ((refl, refl), tt) refl

abbrev run : Gateway × Disk
run = mail_gateway env (str "1") (str "a") false (str "Subject: x\n\nhi\n") disk

abbrev group_of : Gateway → Group
group_of (delivered g m) = g
group_of _ = no_group

abbrev mail_of_run : Gateway → Option Mail
mail_of_run (delivered g m) = m
mail_of_run _ = none

run_delivers : run ≡ (delivered (group_of run.0) (mail_of_run run.0), run.1)
unfolding mail_gateway gonewsd.Text.Strings.replace_byte gonewsd.Spool.Names.spool_path
    gonewsd.Group.Info.info_lines gonewsd.Group.Info.info_line gonewsd.Text.Scan.scan_key_uint
    gonewsd.Text.Scan.scan_uint
run_delivers = refl

mail_gateway-Delivers_example :
    Delivers env
      (str "1")
      (str "a")
      false
      (str "Subject: x\n\nhi\n")
      disk
      (group_of run.0)
      (mail_of_run run.0)
      run.1
mail_gateway-Delivers_example =
    mail_gateway-Delivers env (str "a") false (str "1") (str "Subject: x\n\nhi\n") disk run_delivers

-- A database with one user and one group, whose state is the list of its memberships.
abbrev Members : Type 0
Members = List (ℕ × ℕ)

abbrev member_in : ℕ → ℕ → Members → Bool
member_in v h [] = false
member_in v h ((u, g) ∷ m) = (v == u && h == g) || member_in v h m

abbrev group_row : AclRow
group_row = record {
  row_id = 3;
  row_name = str "a";
  row_group_perm = str "rw";
  row_world_perm = str "r";
  row_archived = 0;
}

abbrev id_of : Bytes → Members → Answer ℕ
id_of name _ = if eq_bytes name (str "a") then row 3 else no_rows

abbrev sql : Sql Members
sql = record {
  insert_user = λ _ _ _ s. (done 2, s);
  delete_user_row = λ _ s. (done 1, s);
  select_user = λ _ _. row (1, (str "p", str "U"));
  update_user_row = λ _ _ _ s. (done tt, s);
  delete_memberships = λ _ s. (done tt, []);
  insert_all_memberships = λ u s. (done tt, (u, 3) ∷ s);
  select_group_id = id_of;
  insert_membership = λ u g s. (done tt, (u, g) ∷ s);
  select_user_exists = λ _ _. row tt;
  select_groups_of = λ _ _. rows (str "a" ∷ []);
  select_names = λ _. rows ((str "u", str "U") ∷ []);
  upsert_group_row = λ _ _ _ s. (done tt, s);
  delete_group_row = λ _ s. (done tt, s);
  set_archived = λ _ _ s. (done 1, s);
  select_groups = λ _. rows ((entry, 0) ∷ []);
  select_group = λ _ _. no_rows;
  select_users = λ _. rows (user ∷ []);
  select_acls = λ _. rows (group_row ∷ []);
  select_memberships = λ _. rows ((str "u", str "a") ∷ []);
  select_acls_table = λ _. no_rows;
  create_tables = λ s. (done tt, s);
  group_columns = λ _. rows [];
  user_columns = λ _. rows [];
  add_column = λ _ s. (done tt, s);
  begin_fails = λ _. done tt;
  commit = λ s. (done tt, s);
}

sql-Inserts : Inserts sql member_in
sql-Inserts = record {
  adds = λ uid gid v h s s' e. ap (member_in v h) (sym (ap (λ p. p.1) e));
  same_ids = λ uid gid s s' name e. refl;
}

load_store_from_db-IsView_example :
    (us : List User) × (rs : List AclRow) × (ms : List (Bytes × Bytes)) × (sql.select_users []
      ≡ rows us)
    × (sql.select_acls [] ≡ rows rs)
    × (sql.select_memberships [] ≡ rows ms)
    × IsView us rs ms (load_store_from_db sql [] store).1
unfolding load_store_from_db
load_store_from_db-IsView_example = load_store_from_db-IsView sql [] store refl

set_membership_tx-member_example :
    member_in 2 3 ((2, 3) ∷ [])
    ≡ ((2 == 2 && is_named sql 3 (split (normalize_groups (str "a")) b',') []) || member_in 2 3 [])
unfolding set_membership_tx normalize_groups
set_membership_tx-member_example =
    set_membership_tx-member sql member_in sql-Inserts 2 (str "a") [] ((2, 3) ∷ []) refl refl 2 3

abbrev terminal : Terminal
terminal = record {
  interactive = true;
  readline = true;
  validate_email = λ s. eq_bytes s (str "v");
  hash_password = λ p. some p;
}

abbrev args : UserArgs
args = record {
  arg_user = str "v";
  arg_pass = str "Secret123!";
  arg_real_name = [];
  arg_groups = str "*";
}

run_add_user-Sound_example :
    Sound [] (Adds terminal sql []) (run_add_user terminal sql args [] (typed (str "V") ∷ []))
run_add_user-Sound_example = run_add_user-Sound terminal sql args [] (typed (str "V") ∷ [])

run_update_user-Sound_example :
    Sound [] (Updates terminal sql []) (run_update_user terminal sql args [] [])
run_update_user-Sound_example = run_update_user-Sound terminal sql args [] []

a_is_listed : existing_group_names sql [] ≡ str "a" ∷ []
unfolding existing_group_names
a_is_listed = refl

-- The first line names no group that is listed.
prompt_groups_if_missing-Chooses_example :
    Chooses (existing_group_names sql []) (
      prompt_groups_if_missing sql terminal [] [] (typed (str "b") ∷ typed (str "a") ∷ closed ∷ []))
prompt_groups_if_missing-Chooses_example =
    prompt_groups_if_missing-Chooses terminal sql [] []
      (typed (str "b") ∷ typed (str "a") ∷ closed ∷ []) refl refl (ap is_empty a_is_listed) refl

prompt_email_if_missing-ends_example : prompt_email_if_missing terminal [] (ends 2) ≡ waiting
prompt_email_if_missing-ends_example = prompt_email_if_missing-ends terminal 2 refl

-- A system on which every file opens.
abbrev log_system : LogSystem
log_system = record {
  opens = λ _. true;
  renames = λ _. true;
  syslog_opens = true;
  command_starts = true;
  size = λ _. some 9;
}

file_logger-starts :
    (init log_system (record (new_logger settings) { error_log = str "/log" })).succeeds ≡ true
unfolding init new_logger
file_logger-starts = refl

Running-is_panic_example :
    (is_panic
        (log log_system 0 (
          rotate log_system true
            (init log_system (record (new_logger settings) { error_log = str "/log" })).logger)).0
      ≡ false)
    × (is_panic (
          log_auth (
            rotate log_system true
              (init log_system (record (new_logger settings) { error_log = str "/log" })).logger))
        ≡ false)
Running-is_panic_example =
    Running-is_panic
      (rotated log_system true (
        started log_system (record (new_logger settings) { error_log = str "/log" })
          file_logger-starts))
      log_system 0

-- The copy by mail has the headers that are kept, with the lines that continue them.
copied_headers :
    build_preserve_headers
      (str "From: u" ∷ str "\tv" ∷ str "Date: D" ∷ str " d" ∷ str "subject: x" ∷ [])
    ≡ str "From: u\n\tv\nsubject: x\n"
unfolding build_preserve_headers
copied_headers = refl

abbrev group_args : GroupArgs
group_args = record {
  arg_group = str "b";
  arg_g = str " R ";
  arg_o = [];
  arg_archive = true;
  arg_desc = [];
  arg_creator = [];
  arg_post_limit = negsuc 0;
  arg_cc_post = [];
  arg_reply_to = [];
  arg_void_email = [];
}

-- A group that the database does not list is not updated.
unlisted : run_update_group terminal sql group_args [] [] ≡ exit 1 []
unfolding run_update_group
unlisted = refl

-- An answer that is neither yes nor no is asked for again.
deleted :
    run_delete_user terminal sql (str "v") false [] (typed (str "x") ∷ typed (str "Y") ∷ [])
    ≡ exit 0 []
unfolding run_delete_user
deleted = refl
