-- ===== src/Tests/Serving.antt =====
-- Commands of a session on the small spool.
use gonewsd.Prelude.{
  ℕ, ◌≡◌, ◌≤◌, ◌+◌, ◌%◌, ◌-◌, ◌⊎◌, refl, arith, Bool, true, false, List, [], ◌∷◌, ◌++◌, Option,
  none, some, Bytes, str,
}
use gonewsd.Auth.Validate.{valid_group_name}
use gonewsd.Group.Settings.{load_info_full}
use gonewsd.Group.Types.{no_group}
use gonewsd.Nntp.Commands.Login.Changing.{LoggedIn}
use gonewsd.Nntp.Commands.Loop.{handle_line, over, run_command}
use gonewsd.Nntp.Commands.Loop.Access.{run_command-refused}
use gonewsd.Nntp.Commands.Loop.Sessions.{handle_line-Change}
use gonewsd.Nntp.Commands.Posting.{post_article, handle_cancel}
use gonewsd.Nntp.Commands.Posting.Success.{
  Posts, Cancels, newsgroups, post_article-Posts, handle_cancel-Cancels,
}
use gonewsd.Nntp.Commands.Reading.{group_command, next_command, last_command, load_article}
use gonewsd.Nntp.Commands.Reading.Choosing.{
  Chosen, Moved, group_command-Chosen, next_command-Moved, last_command-Moved,
}
use gonewsd.Nntp.Session.{Conn, new_conn, KeepsSession, has_code, may_read, refuse}
use gonewsd.Tests.Samples.{server, member, disk, two_articles}
use gonewsd.Text.Decimal.{two64}

abbrev message : List Bytes
message = str "Newsgroups: a" ∷ str "From: u" ∷ []

post_passes :
    has_code 240 (post_article server member disk [] (str "x\n") message (str "x" ∷ [])).out ≡ true
unfolding post_article gonewsd.Group.Headers.get_header_value valid_group_name load_info_full
    gonewsd.Text.Strings.replace_byte gonewsd.Spool.Names.spool_path gonewsd.Group.Info.info_lines
    gonewsd.Group.Info.info_line gonewsd.Text.Scan.scan_key_uint gonewsd.Text.Scan.scan_uint
    gonewsd.Nntp.Commands.Posting.post_allowed gonewsd.Nntp.Session.may_post
    gonewsd.Auth.Store.can_post gonewsd.Auth.Store.user_in_group gonewsd.Group.Posting.post
    gonewsd.Group.Headers.update_path
post_passes = refl

post_article-Posts_example :
    (valid_group_name (newsgroups message) ≡ true)
    × Posts server member []
        (str "x\n")
        message
        (str "x" ∷ [])
        (load_info_full server.env (newsgroups message) disk)
        (post_article server member disk [] (str "x\n") message (str "x" ∷ [])).disk
post_article-Posts_example =
    post_article-Posts server member [] (str "x\n") message (str "x" ∷ []) disk post_passes

cancel_passes : has_code 240 (handle_cancel server member disk message (str "<1>")).out ≡ true
unfolding handle_cancel gonewsd.Group.Headers.get_header_value valid_group_name
    gonewsd.Nntp.Session.may_post gonewsd.Auth.Store.can_post gonewsd.Auth.Store.user_in_group
    load_info_full gonewsd.Text.Strings.replace_byte gonewsd.Spool.Names.spool_path
    gonewsd.Group.Info.info_lines gonewsd.Group.Info.info_line gonewsd.Text.Scan.scan_key_uint
    gonewsd.Text.Scan.scan_uint gonewsd.Group.Articles.find_article_by_message_id
    gonewsd.Group.Articles.get_message_id gonewsd.Text.Decimal.format_uint
    gonewsd.Article.Fields.get_raw_header gonewsd.Group.Articles.delete_article
cancel_passes = refl

handle_cancel-Cancels_example :
    Cancels server member disk message
      (str "<1>")
      (handle_cancel server member disk message (str "<1>")).disk
handle_cancel-Cancels_example =
    handle_cancel-Cancels server member message (str "<1>") disk cancel_passes

handle_line-Change_example :
    KeepsSession new_conn (handle_line server new_conn disk [] (str "AUTHINFO USER u") []).0
    ⊎ LoggedIn server
        (handle_line server new_conn disk [] (str "AUTHINFO USER u") []).0.conn.session
handle_line-Change_example = handle_line-Change server new_conn disk [] (str "AUTHINFO USER u") []

-- A session in a group that is not in the store.
abbrev elsewhere : Conn
elsewhere = record member { cur_group = record no_group { name = str "b"; valid = true } }

stranger : may_read server elsewhere.session elsewhere.cur_group.name true ≡ false
unfolding may_read gonewsd.Auth.Store.can_read
stranger = refl

run_command-refused_example :
    run_command server elsewhere disk over (str "1-2") []
    ≡ refuse elsewhere disk 480 (str "Authentication required")
run_command-refused_example =
    run_command-refused server elsewhere disk over (str "1-2") [] refl stranger refl

group_passes : has_code 211 (group_command server member disk (str "a")).out ≡ true
unfolding group_command valid_group_name gonewsd.Text.Strings.replace_byte
    gonewsd.Spool.Names.spool_path gonewsd.Group.Info.info_lines gonewsd.Group.Info.info_line
    gonewsd.Text.Scan.scan_key_uint gonewsd.Text.Scan.scan_uint may_read gonewsd.Auth.Store.can_read
    gonewsd.Auth.Store.user_in_group
group_passes = refl

group_command-Chosen_example :
    (valid_group_name (str "a") ≡ true)
    × Chosen server member
        (str "a")
        (load_info_full server.env (str "a") disk)
        (group_command server member disk (str "a"))
group_command-Chosen_example = group_command-Chosen server member (str "a") disk group_passes

-- A session in the group of two articles, behind the first and behind the second.
abbrev inside : ℕ → Conn
inside n = record member {
  cur_group = record no_group { name = str "a"; start = 1; end = 2; total = 2; valid = true };
  cur_article = load_article server two_articles (str "a") n;
}

next_passes : has_code 223 (next_command server (inside 1) two_articles).out ≡ true
unfolding next_command may_read gonewsd.Auth.Store.can_read gonewsd.Auth.Store.user_in_group
    gonewsd.Article.Fields.load gonewsd.Prelude.eq_path gonewsd.Spool.Names.join_path
    gonewsd.Text.Decimal.format_uint gonewsd.Text.Strings.replace_byte
    gonewsd.Spool.Names.spool_path
next_passes = refl

next_command-Moved_example :
    ((inside 1).cur_group.start ≤ ((inside 1).cur_article.number + 1) % two64)
    × (((inside 1).cur_article.number + 1) % two64 ≤ (inside 1).cur_group.end)
    × (may_read server (inside 1).session (inside 1).cur_group.name true ≡ true)
    × Moved server
        (inside 1)
        two_articles
        (((inside 1).cur_article.number + 1) % two64)
        (next_command server (inside 1) two_articles)
next_command-Moved_example = next_command-Moved server (inside 1) two_articles next_passes

last_passes : has_code 223 (last_command server (inside 2) two_articles).out ≡ true
unfolding last_command may_read gonewsd.Auth.Store.can_read gonewsd.Auth.Store.user_in_group
    gonewsd.Article.Fields.load gonewsd.Prelude.eq_path gonewsd.Spool.Names.join_path
    gonewsd.Text.Decimal.format_uint gonewsd.Text.Strings.replace_byte
    gonewsd.Spool.Names.spool_path
last_passes = refl

last_command-Moved_example :
    ((inside 2).cur_group.start ≤ (inside 2).cur_article.number - 1)
    × ((inside 2).cur_article.number - 1 + 1 ≡ (inside 2).cur_article.number)
    × (may_read server (inside 2).session (inside 2).cur_group.name true ≡ true)
    × Moved server
        (inside 2)
        two_articles
        ((inside 2).cur_article.number - 1)
        (last_command server (inside 2) two_articles)
last_command-Moved_example = last_command-Moved server (inside 2) two_articles last_passes
