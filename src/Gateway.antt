-- ===== src/Gateway.antt =====
-- The mail gateway of cmd/gonewsd/main.go: `mailGateway`, `ccPostToMail` and
-- `buildPreserveHeaders`, with `IsCCPost` and `IsReplyTo` of internal/group/group.go.
pub mod Content
pub mod Limit
pub mod Loops
pub mod Success
use gonewsd.Prelude.{
  ℕ, ◌+◌, Bool, true, false, not, ◌&&◌, ◌||◌, List, [], ◌∷◌, ◌++◌, Option, none, some, ltb, leb,
  ◌==◌, if◌then◌else◌, is_empty, length, take, drop, Bytes, eq_bytes, str,
}
use gonewsd.Prelude.Int.{ℤ, pos, negsuc}
use gonewsd.Auth.Validate.{valid_group_name}
use gonewsd.Group.Headers.{parse_article, update_path}
use gonewsd.Group.Posting.{Posting, ended, endless, post, stored_headers}
use gonewsd.Group.Settings.{load_info_full}
use gonewsd.Group.Types.{Group, Env, Outcome, ok, fail}
use gonewsd.Nntp.Commands.Posting.{over_limit}
use gonewsd.Spool.Disk.{Disk}
use gonewsd.Text.Scanner.{render_lines}
use gonewsd.Text.Split.{fields}
use gonewsd.Text.Strings.{equal_fold, trim_space}

-- The variables of the loop that reads the message.
pub record Reading : Type 0 where
  pub msg : Bytes
  pub linechars : ℕ
  pub linecount : ℕ
  pub toolong : Bool

-- One byte that is not CR, its line counted; a byte above the limit is dropped.
abbrev pub keep_byte : ℤ → Reading → ℕ → Reading
keep_byte limit r c =
    if over_limit limit r.linecount
    then record r { toolong = true }
    else record r { msg = r.msg ++ (if c == b'\n' then b'\r' ∷ c ∷ [] else c ∷ []) }

abbrev pub ends_count : Reading → ℕ → Bool
ends_count r c = ltb 80 (r.linechars + 1) || c == b'\n'

abbrev pub count_byte : Reading → ℕ → Reading
count_byte r c = record r {
  linechars = if ends_count r c then 0 else r.linechars + 1;
  linecount = if ends_count r c then r.linecount + 1 else r.linecount;
}

unfoldable pub read_mail : ℤ → Reading → Bytes → Reading
read_mail limit r [] = r
read_mail limit r (c ∷ s) =
    let skip = read_mail limit r s in
    let next = read_mail limit (keep_byte limit (count_byte r c) c) s in
    if c == b'\r' then skip else next

-- What the gateway puts in front of the message.
unfoldable pub gateway_headers : Bytes → Bytes → Bytes
gateway_headers version groupname =
    str "Newsgroups: "
    ++ (groupname ++ (str "\r\nX-Mail-To-News-Gateway: via gonewsd " ++ (version ++ str "\r\n")))

abbrev pub new_reading : Bytes → Reading
new_reading msg = record { msg = msg; linechars = 0; linecount = 0; toolong = false }

-- `len(h) >= n && strings.EqualFold(h[:n], key)`
unfoldable pub front_is : ℕ → Bytes → Bytes → Bool
unfolding equal_fold
front_is n key h = leb n (length h) && equal_fold (take n h) key

unfoldable pub rewrite_from : Bytes → Bytes
unfolding front_is trim_space
rewrite_from h =
    if front_is 5 (str "From ") h then str "X-Original-From: " ++ trim_space (drop 5 h) else h

unfoldable pub is_loop : Bytes → Bool
unfolding front_is
is_loop h = front_is 14 (str "X-Newsd-Loop:") h || front_is 8 (str "X-Loop:") h

abbrev and_header : Bytes → Option (List Bytes) → Option (List Bytes)
and_header h none = none
and_header h (some hs) = some (h ∷ hs)

-- The loop over the headers; nothing where a mail loop is found.
unfoldable pub check_headers : List Bytes → Option (List Bytes)
unfolding rewrite_from is_loop
check_headers [] = some []
check_headers (h ∷ hs) =
    let rest = and_header (rewrite_from h) (check_headers hs) in if is_loop h then none else rest

-- `buildPreserveHeaders`; `pflag` is that of the header line before.
abbrev preserve_names : List Bytes
preserve_names =
    str "From:"
    ∷ str "Subject:"
    ∷ str "References:"
    ∷ str "Xref:"
    ∷ str "Path:"
    ∷ str "Content-Type:"
    ∷ str "MIME-Version:"
    ∷ str "Message-ID:"
    ∷ []

abbrev any_front : List Bytes → Bytes → Bool
any_front [] h = false
any_front (n ∷ ns) h = front_is (length n) n h || any_front ns h

preserved_lines : Bool → List Bytes → List Bytes
unfolding front_is
preserved_lines pflag [] = []
preserved_lines pflag ([] ∷ hs) = preserved_lines false hs
preserved_lines pflag ((c ∷ h) ∷ hs) =
    let keep = if c == b' ' || c == b'\t' then pflag else any_front preserve_names (c ∷ h) in
    let rest = preserved_lines keep hs in if keep then (c ∷ h) ∷ rest else rest

unfoldable pub build_preserve_headers : List Bytes → Bytes
unfolding preserved_lines
build_preserve_headers headers = render_lines (preserved_lines false headers)

unfoldable pub is_cc_post : Group → Bool
is_cc_post g = not (is_empty g.cc_post) && not (eq_bytes g.cc_post (str "-"))

is_reply_to : Group → Bool
is_reply_to g = not (is_empty g.reply_to) && not (eq_bytes g.reply_to (str "-"))

-- What is written to the mail command.
mail_text : Group → List Bytes → List Bytes → Bytes
unfolding build_preserve_headers is_reply_to
mail_text g headers body =
    render_lines ((str "To: " ++ g.void_email) ∷ (str "Bcc: " ++ g.cc_post) ∷ [])
    ++ (build_preserve_headers headers
        ++ (render_lines (if is_reply_to g then (str "Reply-To: " ++ g.reply_to) ∷ [] else [])
            ++ render_lines (
                (str "Errors-To: " ++ g.creator)
                ∷ []
                ∷ (str "[posted to " ++ (g.name ++ str "]"))
                ∷ []
                ∷ body)))

-- A run of the mail command: its words and its input.
pub record Mail : Type 0 where
  pub words : List Bytes
  pub input : Bytes

-- `ccPostToMail`; nothing where `SendMail` has no words.
unfoldable pub cc_post_to_mail : Env → Group → List Bytes → List Bytes → Option Mail
unfolding fields mail_text
cc_post_to_mail env g headers body =
    let words = fields env.cfg.send_mail in
    if is_empty words
    then none
    else some (record { words = words; input = mail_text g headers body })

-- How the gateway ends: what it reports, or the group behind the posting and the mail, if any; or
-- that it stands in a loop of `Post` that has no end.
pub data Gateway : Type 0 where
  invalid_group_name mail_loop endless_post : Gateway
  unknown_group not_posted : Bytes → Gateway
  too_long : ℤ → Gateway
  delivered : Group → Option Mail → Gateway

-- `Post` removes and adds headers in the array of its caller, who sees as many of them as before.
unfoldable pub seen_headers : Env → Bytes → ℕ → List Bytes → ℕ → Bool → List Bytes
unfolding stored_headers
seen_headers env groupname artnum headers body_length preserve_date =
    take (length headers)
      (stored_headers env groupname artnum headers body_length (str "localhost") preserve_date)

abbrev pub mail_of : Env → Group → List Bytes → List Bytes → Option Mail
mail_of env g headers body = if is_cc_post g then cc_post_to_mail env g headers body else none

unfoldable pub gateway_posted :
    Env → Bytes → Bool → List Bytes → List Bytes → Posting → Gateway × Disk
unfolding is_cc_post cc_post_to_mail seen_headers
gateway_posted env groupname preserve_date headers body (ended (fail m, d)) = (not_posted m, d)
gateway_posted env groupname preserve_date headers body (endless d) = (endless_post, d)
gateway_posted env groupname preserve_date headers body (ended (ok g, d)) =
    let seen = seen_headers env groupname g.end headers (length body) preserve_date in
    (delivered g (mail_of env g seen body), d)

unfoldable pub gateway_checked :
    Env → Bytes → Bool → List Bytes → Option (List Bytes) → Disk → Gateway × Disk
unfolding gateway_posted post update_path
gateway_checked env groupname preserve_date body none d = (mail_loop, d)
gateway_checked env groupname preserve_date body (some hs) d =
    let headers = update_path env.cfg.server_name hs in
    gateway_posted env groupname preserve_date headers body
      (post env headers body (str "localhost") preserve_date d)

-- The message is read, and posted if it is not too long.
unfoldable pub gateway_message : Env → Bytes → Bool → Group → Reading → Disk → Gateway × Disk
unfolding gateway_checked check_headers parse_article
gateway_message env groupname preserve_date g r d =
    if r.toolong
    then (too_long g.post_limit, d)
    else let (headers, body) = parse_article r.msg in
      gateway_checked env groupname preserve_date body (check_headers headers) d

unfoldable pub gateway_loaded :
    Env → Bytes → Bytes → Bool → Bytes → Outcome Group × Disk → Gateway × Disk
unfolding gateway_message read_mail gateway_headers
gateway_loaded env version groupname preserve_date input (fail m, d) = (unknown_group m, d)
gateway_loaded env version groupname preserve_date input (ok g, d) =
    gateway_message env groupname preserve_date g
      (read_mail g.post_limit (new_reading (gateway_headers version groupname)) input) d

-- `mailGateway`; `input` is what the standard input gives up to its end.
unfoldable pub mail_gateway : Env → Bytes → Bytes → Bool → Bytes → Disk → Gateway × Disk
unfolding valid_group_name gateway_loaded load_info_full
mail_gateway env version groupname preserve_date input d =
    if not (valid_group_name groupname)
    then (invalid_group_name, d)
    else gateway_loaded env version groupname preserve_date input (load_info_full env groupname d)
