-- ===== src/Nntp/Commands/Posting.antt =====
-- `POST` and the cancelling of articles.
pub mod Rights
pub mod Success
use gonewsd.Prelude.{
  ℕ, zero, suc, Bool, true, false, not, ◌&&◌, ◌||◌, List, [], ◌∷◌, ◌++◌, Option, none, some, ◌==◌,
  ltb, if◌then◌else◌, is_empty, drop, Bytes, str,
}
use gonewsd.Prelude.Int.{ℤ, pos, negsuc}
use gonewsd.Article.Fields.{get_raw_header}
use gonewsd.Auth.Store.{Session}
use gonewsd.Auth.Validate.{valid_group_name}
use gonewsd.Group.Articles.{
  Search, found, not_found, running, find_article_by_message_id, delete_article,
}
use gonewsd.Group.Headers.{get_header_value, update_path, parse_article}
use gonewsd.Group.Posting.{Posting, ended, endless, post}
use gonewsd.Group.Settings.{load_info_full}
use gonewsd.Group.Types.{Group, Env, Outcome, ok, fail}
use gonewsd.Nntp.Session.{
  Server, Conn, Out, status, line, Next, go_on, hung, Reaction, reply, refuse, may_post,
}
use gonewsd.Nntp.Wire.{Body, complete, broken, too_large, read_post_body_raw, count_post_lines}
use gonewsd.Spool.Disk.{Disk}
use gonewsd.Text.Decimal.{format_uint}
use gonewsd.Text.Strings.{to_lower, trim_space, has_prefix, equal_fold}

-- `parseFromEmail`; `parse_address` is `mail.ParseAddress`, with the address alone.
unfoldable pub parse_from_email : (Bytes → Option Bytes) → Bytes → Bytes
unfolding trim_space
parse_from_email parse_address from = elim (parse_address from) [
  | some address ↦ address
  | none ↦ trim_space from
]

-- A header that is missing reads as an empty one.
abbrev or_nothing : Option Bytes → Bytes
or_nothing none = []
or_nothing (some v) = v

-- What keeps a session from posting under the `From` header: a message, or nothing.
unfoldable pub from_fault : Server → Option Session → List Bytes → Option Bytes
unfolding parse_from_email equal_fold
from_fault srv none headers = none
from_fault srv (some s) headers =
    let from = or_nothing (get_header_value headers (str "From:")) in
    if is_empty s.username
    then none
    else if is_empty from
    then some (str "posting rejected: From header is required")
    else if not (equal_fold (parse_from_email srv.parse_address from) s.username)
    then some (str "posting rejected: From address does not match authenticated user")
    else none

-- `limit > 0 && linecount > limit`, the limit that of the current group
abbrev pub over_limit : ℤ → ℕ → Bool
over_limit (pos n) count = ltb 0 n && ltb n count
over_limit (negsuc _) count = false

abbrev limit_text : ℤ → Bytes
limit_text (pos n) = format_uint n
limit_text (negsuc n) = str "-" ++ format_uint (suc n)

abbrev post_limit : Conn → ℤ
post_limit conn = if conn.cur_group.valid then conn.cur_group.post_limit else pos 0

posted : Conn → Posting → Reaction
posted conn (ended (ok _, disk)) = refuse conn disk 240 (str "Article posted successfully.")
posted conn (ended (fail msg, disk)) = refuse conn disk 441 msg
posted conn (endless disk) = record { conn = conn; disk = disk; out = []; next = hung }

-- The tests behind the loading of the group, and the posting.
unfoldable pub post_allowed :
    Server → Conn → Disk → Bytes → Bytes → List Bytes → List Bytes → Bytes → Reaction
unfolding posted from_fault count_post_lines
post_allowed srv conn disk remote msg headers body name =
    if not (may_post srv conn.session name true)
    then refuse conn disk 480 (str "Authentication required")
    else elim (from_fault srv conn.session headers) [
      | some fault ↦ refuse conn disk 441 fault
      | none ↦
          if over_limit (post_limit conn) (count_post_lines msg)
          then refuse conn disk 411 (
              str "Not Posted: article exceeds sanity line limit of "
              ++ (limit_text (post_limit conn) ++ str "."))
          else posted conn
              (post srv.env (update_path srv.env.cfg.server_name headers) body remote false disk)
    ]

post_loaded :
    Server
    → Conn
    → Bytes
    → Bytes
    → List Bytes
    → List Bytes
    → Bytes
    → Outcome Group × Disk
    → Reaction
post_loaded srv conn remote msg headers body name (fail e, disk) = refuse conn disk 441 e
post_loaded srv conn remote msg headers body name (ok _, disk) =
    post_allowed srv conn disk remote msg headers body name

unfoldable pub post_article :
    Server → Conn → Disk → Bytes → Bytes → List Bytes → List Bytes → Reaction
unfolding post_loaded
post_article srv conn disk remote msg headers body =
    let name = or_nothing (get_header_value headers (str "Newsgroups:")) in
    if is_empty name
    then refuse conn disk 441 (str "article has no Newsgroups field")
    else if not (valid_group_name name)
    then refuse conn disk 441 (str "invalid newsgroup name")
    else post_loaded srv conn remote msg headers body name (load_info_full srv.env name disk)

cancelled : Conn → Disk → Outcome Group × Disk → Reaction
cancelled conn disk (ok _, disk') = refuse conn disk' 240 (str "Article cancelled successfully")
cancelled conn disk (fail _, disk') = refuse conn disk' 441 (str "cancel: failed to delete article")

-- The `From` of the cancelling message is that of the article.
unfoldable pub same_from : Bytes → Bytes → Bool
unfolding equal_fold trim_space
same_from cancel_from orig_from =
    not (is_empty cancel_from)
    && (not (is_empty orig_from) && equal_fold (trim_space cancel_from) (trim_space orig_from))

unfoldable pub cancel_found : Server → Conn → Disk → List Bytes → Bytes → Group → Search → Reaction
unfolding cancelled same_from
cancel_found srv conn disk headers name g (found n) =
    let cancel_from = or_nothing (get_header_value headers (str "From:")) in
    let orig_from = get_raw_header srv.env.cfg srv.env.os disk name n (str "From") in
    if not (same_from cancel_from orig_from)
    then refuse conn disk 441 (str "cancel: permission denied (From does not match)")
    else cancelled conn disk (delete_article srv.env g n disk)
cancel_found srv conn disk headers name g not_found =
    refuse conn disk 441 (str "cancel: article not found")
cancel_found srv conn disk headers name g running = record {
  conn = conn;
  disk = disk;
  out = [];
  next = hung;
}

cancel_loaded : Server → Conn → List Bytes → Bytes → Bytes → Outcome Group × Disk → Reaction
unfolding cancel_found
cancel_loaded srv conn headers msgid name (fail e, disk) =
    refuse conn disk 441 (str "cancel: " ++ e)
cancel_loaded srv conn headers msgid name (ok g, disk) =
    cancel_found srv conn disk headers name g (find_article_by_message_id srv.env disk g msgid)

unfoldable pub handle_cancel : Server → Conn → Disk → List Bytes → Bytes → Reaction
unfolding cancel_loaded
handle_cancel srv conn disk headers msgid =
    let name = or_nothing (get_header_value headers (str "Newsgroups:")) in
    if is_empty name
    then refuse conn disk 441 (str "cancel: no Newsgroups header")
    else if not (valid_group_name name)
    then refuse conn disk 441 (str "cancel: invalid group name")
    else if not (may_post srv conn.session name true)
    then refuse conn disk 480 (str "Authentication required")
    else cancel_loaded srv conn headers msgid name (load_info_full srv.env name disk)

-- The message that follows `POST`.
unfoldable pub post_message : Server → Conn → Disk → Bytes → Bytes → Reaction
unfolding post_article handle_cancel parse_article
post_message srv conn disk remote msg =
    let (headers, body) = parse_article msg in
    let control = or_nothing (get_header_value headers (str "Control:")) in
    if has_prefix (to_lower (trim_space control)) (str "cancel ")
    then handle_cancel srv conn disk headers (trim_space (drop 7 control))
    else post_article srv conn disk remote msg headers body

-- The command with what is left of the input behind it.
post_body : Server → Conn → Disk → Bytes → Body → Reaction × Bytes
unfolding post_message
post_body srv conn disk remote (complete msg rest) = (post_message srv conn disk remote msg, rest)
post_body srv conn disk remote (broken _) = (refuse conn disk 441 (str "Posting failed"), [])
post_body srv conn disk remote (too_large rest) =
    (refuse conn disk 441 (str "Posting failed"), rest)

abbrev behind : Out → Reaction × Bytes → Reaction × Bytes
behind first (r, rest) = (record r { out = first ∷ r.out }, rest)

unfoldable pub post_command : Server → Conn → Disk → Bytes → Bytes → Reaction × Bytes
unfolding post_body
post_command srv conn disk remote input =
    behind (status 340 (str "Continue posting; Period on a line by itself to end"))
      (post_body srv conn disk remote (read_post_body_raw input))
