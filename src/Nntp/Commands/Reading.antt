-- ===== src/Nntp/Commands/Reading.antt =====
-- `GROUP`, `LISTGROUP`, `NEXT`, `LAST`, and the commands that send an article.
pub mod Moving
pub mod Choosing
pub mod Settled
use mathlib.Core.List.{map}
use gonewsd.Prelude.{
  ℕ, zero, suc, ◌+◌, ◌-◌, ◌%◌, Bool, true, false, not, ◌&&◌, ◌||◌, List, [], ◌∷◌, ◌++◌, Option,
  none, some, ◌==◌, ltb, leb, if◌then◌else◌, is_empty, Bytes, eq_bytes, str,
}
use gonewsd.Article.Fields.{Article, load}
use gonewsd.Article.Send.{send_article}
use gonewsd.Auth.Validate.{valid_group_name}
use gonewsd.Group.Articles.{Search, found, not_found, running, find_article_by_message_id}
use gonewsd.Group.Settings.{load_info_full}
use gonewsd.Group.Types.{Group, Env, Outcome, ok, fail}
use gonewsd.Nntp.Range.{parse_article_range}
use gonewsd.Nntp.Session.{
  Server, Conn, Out, status, line, dot, Next, go_on, closed, hung, Reaction, reply, refuse,
  may_read,
}
use gonewsd.Spool.Disk.{Disk, stat, exists, open_file, Opened, content}
use gonewsd.Spool.Names.{get_article_path}
use gonewsd.Text.Decimal.{is_digit, format_uint, parse_uint, two64}

-- The two tests that the commands on the current group make first.
abbrev pub with_group : Server → Conn → Disk → Bytes → Reaction → Reaction
with_group srv conn disk missing reaction =
    if not conn.cur_group.valid
    then refuse conn disk 412 missing
    else if not (may_read srv conn.session conn.cur_group.name true)
    then refuse conn disk 480 (str "Authentication required")
    else reaction

abbrev pub no_such_group : Bytes → Bytes
no_such_group msg = str "No such newsgroup: " ++ msg

abbrev pub load_article : Server → Disk → Bytes → ℕ → Article
load_article srv disk group n = load srv.env.cfg srv.env.os disk group n

-- The current group becomes `g`, and its first article the current article.
abbrev enter : Server → Conn → Disk → Group → Conn
enter srv conn disk g = record conn {
  cur_group = g;
  cur_article = load_article srv disk g.name g.start;
}

abbrev sp : Bytes → Bytes → Bytes
sp a b = a ++ (str " " ++ b)

-- `%d %d %d %s` of the total, the ends and the name
abbrev group_numbers : Group → Bytes → Bytes
group_numbers g rest =
    sp (format_uint g.total) (sp (format_uint g.start) (sp (format_uint g.end) (sp g.name rest)))

select : Server → Conn → Bytes → Outcome Group → Disk → Reaction
select srv conn name (fail msg) disk = refuse conn disk 411 (no_such_group msg)
select srv conn name (ok g) disk =
    if not (may_read srv conn.session name true)
    then refuse conn disk 480 (str "Authentication required")
    else reply (enter srv conn disk g) disk
        (status 211 (group_numbers g (str "group selected")) ∷ [])

unfoldable pub group_command : Server → Conn → Disk → Bytes → Reaction
unfolding select load_info_full
group_command srv conn disk arg1 =
    if is_empty arg1
    then refuse conn disk 501 (str "syntax error; expected 'GROUP <group-name>'")
    else if not (valid_group_name arg1)
    then refuse conn disk 501 (str "invalid group name")
    else let (r, disk') = load_info_full srv.env arg1 disk in select srv conn arg1 r disk'

-- `for n := lo; n <= hi; n++`
numbers_onto : ℕ → ℕ → List ℕ
numbers_onto zero n = []
numbers_onto (suc k) n = n ∷ numbers_onto k (n + 1)

unfoldable pub numbers : ℕ → ℕ → List ℕ
unfolding numbers_onto
numbers lo hi = numbers_onto (hi + 1 - lo) lo

-- The loop never ends where its last number is the greatest of 64 bits: behind it `n` is 0 again.
unfoldable pub is_endless : ℕ → ℕ → Bool
is_endless lo hi = leb lo hi && leb (two64 - 1) hi

-- What a command sends that loops over a range: a first line, and those of the loop. Of a loop that
-- never ends only the first line is told.
abbrev pub listing : Conn → Disk → Out → ℕ → ℕ → (List ℕ → List Out) → Reaction
listing conn disk first lo hi lines = record {
  conn = conn;
  disk = disk;
  out = first ∷ (if is_endless lo hi then [] else lines (numbers lo hi));
  next = if is_endless lo hi then hung else go_on;
}

-- The lines for the articles that are there.
present_lines : Server → Disk → Bytes → List ℕ → List Out
present_lines srv disk name [] = dot ∷ []
present_lines srv disk name (n ∷ ns) =
    let rest = present_lines srv disk name ns in
    if exists (stat disk (get_article_path srv.env.cfg name n))
    then line (format_uint n) ∷ rest
    else rest

list_current : Server → Conn → Disk → Bytes → Reaction
unfolding present_lines numbers is_endless
list_current srv conn disk range =
    let g = conn.cur_group in
    let (lo, hi) =
      if is_empty range
      then (g.start, g.end)
      else parse_article_range range g.start g.end g.start g.end in
    with_group srv conn disk (str "Not currently in newsgroup") (
      listing conn disk (status 211 (group_numbers g (str "list follows"))) lo hi
        (present_lines srv disk g.name))

list_selected : Server → Conn → Bytes → Bytes → Outcome Group → Disk → Reaction
unfolding list_current
list_selected srv conn name range (fail msg) disk = refuse conn disk 411 (no_such_group msg)
list_selected srv conn name range (ok g) disk =
    if not (may_read srv conn.session name true)
    then refuse conn disk 480 (str "Authentication required")
    else list_current srv (enter srv conn disk g) disk range

unfoldable pub listgroup : Server → Conn → Disk → Bytes → Bytes → Reaction
unfolding list_selected list_current load_info_full
listgroup srv conn disk arg1 range =
    if is_empty arg1
    then list_current srv conn disk range
    else if not (valid_group_name arg1)
    then refuse conn disk 501 (str "invalid group name")
    else let (r, disk') = load_info_full srv.env arg1 disk in
      list_selected srv conn arg1 range r disk'

abbrev retrieved : ℕ → Bytes → Bytes
retrieved n id = sp (format_uint n) (sp id (str "article retrieved - request text separately"))

-- To go to article `n`; an article that cannot be loaded leaves the current one.
move_to : Server → Conn → Disk → ℕ → ℕ → Reaction
move_to srv conn disk code n =
    let a = load_article srv disk conn.cur_group.name n in
    if not a.valid
    then refuse conn disk code
        (str "error retrieving article " ++ (format_uint n ++ (str ": " ++ a.errmsg)))
    else reply (record conn { cur_article = a }) disk (status 223 (retrieved n a.message_id) ∷ [])

unfoldable pub next_command : Server → Conn → Disk → Reaction
unfolding move_to
next_command srv conn disk =
    let g = conn.cur_group in
    let n = (conn.cur_article.number + 1) % two64 in
    with_group srv conn disk (str "no newsgroup selected") (
      if not conn.cur_article.valid
      then refuse conn disk 420 (str "no article has been selected")
      else if ltb n g.start || ltb g.end n
      then refuse conn disk 421 (str "no next article in this group")
      else move_to srv conn disk 421 n)

unfoldable pub last_command : Server → Conn → Disk → Reaction
unfolding move_to
last_command srv conn disk =
    let g = conn.cur_group in
    with_group srv conn disk (str "no newsgroup selected") (
      if not conn.cur_article.valid
      then refuse conn disk 420 (str "no article has been selected")
      else if leb conn.cur_article.number g.start
      then refuse conn disk 422 (str "no previous article in this group")
      else move_to srv conn disk 422 (conn.cur_article.number - 1))

-- The four commands.
pub data Part : Type 0 where
  article head body stat_only : Part

file_bytes : Opened → Bytes
file_bytes (content bytes) = bytes
file_bytes _ = []

-- The lines of the article's file; a file that cannot be opened again gives none.
abbrev sent_lines : Server → Disk → Article → Bool → Bool → List Out
sent_lines srv disk a with_head with_body =
    map line (send_article with_head with_body (file_bytes (open_file srv.env.os disk a.filename)))

part_lines : Server → Disk → Article → ℕ → Part → List Out
unfolding file_bytes
part_lines srv disk a n article =
    status 220
      (sp (format_uint n) (sp a.message_id (str "article retrieved - head and body follow")))
    ∷ (sent_lines srv disk a true true ++ dot ∷ [])
part_lines srv disk a n head =
    status 221 (sp (format_uint n) (sp a.message_id (str "article retrieved - head follows")))
    ∷ (sent_lines srv disk a true false ++ dot ∷ [])
part_lines srv disk a n body =
    status 222 (sp (format_uint n) (sp a.message_id (str "article retrieved - body follows")))
    ∷ line []
    ∷ (sent_lines srv disk a false true ++ dot ∷ [])
part_lines srv disk a n stat_only = status 223 (retrieved n a.message_id) ∷ []

-- Article `n` is asked for. With `restore` the article that was current is loaded again behind it.
send_number : Server → Conn → Disk → Part → Bool → ℕ → Reaction
unfolding part_lines
send_number srv conn disk part restore n =
    let g = conn.cur_group in
    let a = load_article srv disk g.name n in
    let current = if restore then load_article srv disk g.name conn.cur_article.number else a in
    if ltb n g.start || ltb g.end n
    then refuse conn disk 423 (
        str "no such article in group (range "
        ++ (format_uint g.start ++ (str "-" ++ (format_uint g.end ++ str ")"))))
    else if not a.valid
    then refuse (record conn { cur_article = a }) disk 430 (str "no such article: " ++ a.errmsg)
    else reply (record conn { cur_article = current }) disk (part_lines srv disk a n part)

-- What the argument asks for.
send_found : Server → Conn → Disk → Part → Search → Reaction
unfolding send_number
send_found srv conn disk part (found n) = send_number srv conn disk part true n
send_found srv conn disk part not_found = refuse conn disk 430 (str "no such article found")
send_found srv conn disk part running = record { conn = conn; disk = disk; out = []; next = hung }

send_parsed : Server → Conn → Disk → Part → Option ℕ → Reaction
send_parsed srv conn disk part none = refuse conn disk 501 (str "bad article number")
send_parsed srv conn disk part (some n) = send_number srv conn disk part false n

abbrev pub is_message_id : Bytes → Bool
is_message_id [] = false
is_message_id (c ∷ _) = c == b'<'

abbrev is_number : Bytes → Bool
is_number [] = false
is_number (c ∷ _) = is_digit c

unfoldable pub article_command : Server → Conn → Disk → Part → Bytes → Reaction
unfolding send_number send_found send_parsed
article_command srv conn disk part arg1 =
    with_group srv conn disk (str "Not currently in newsgroup") (
      if is_empty arg1
      then send_number srv conn disk part true conn.cur_article.number
      else if is_message_id arg1
      then send_found srv conn disk part
          (find_article_by_message_id srv.env disk conn.cur_group arg1)
      else if is_number arg1
      then send_parsed srv conn disk part (parse_uint arg1)
      else refuse conn disk 501 (str "bad argument"))
