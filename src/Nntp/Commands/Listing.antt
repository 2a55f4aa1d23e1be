-- ===== src/Nntp/Commands/Listing.antt =====
-- `LIST`, `NEWGROUPS` and `NEWNEWS`, and the dates that the last two read.
pub mod Keeping
use gonewsd.Prelude.{
  ℕ, suc, ◌+◌, ◌-◌, ◌*◌, ◌/◌, Bool, true, false, not, ◌&&◌, ◌||◌, List, [], ◌∷◌, ◌++◌, Option, none,
  some, ◌==◌, ltb, leb, if◌then◌else◌, is_empty, length, Bytes, eq_bytes, str,
}
use gonewsd.Prelude.Int.{ℤ, pos, negsuc}
use gonewsd.Group.Articles.{get_message_id}
use gonewsd.Group.Settings.{load_info_full, node_time}
use gonewsd.Group.Types.{Group, Env, Outcome, ok, fail}
use gonewsd.Group.Wildmat.{wildmat_match}
use gonewsd.Nntp.Commands.Fields.{overview_format}
use gonewsd.Nntp.Commands.Reading.{numbers, is_endless}
use gonewsd.Nntp.Session.{
  Server, DateTime, Conn, Out, status, line, dot, Reaction, Next, go_on, hung, reply, refuse,
  list_groups,
}
use gonewsd.Spool.Disk.{Disk, Node, dir, file, stat}
use gonewsd.Spool.Names.{get_article_path}
use gonewsd.Text.Decimal.{format_uint}
use gonewsd.Text.Scan.{scan_int_width}
use gonewsd.Text.Split.{fields}
use gonewsd.Text.Strings.{to_upper}

infixl 5 ◌>>=◌
abbrev ◌>>=◌ {ℓ κ} : {A : Type ℓ} {B : Type κ} → Option A → (A → Option B) → Option B
none >>= f = none
some a >>= f = f a

-- `Sscanf(s, "%<w>d%2d%2d", …)`
scan_three : ℕ → Bytes → Option (ℤ × ℤ × ℤ)
scan_three w s = do
  (a, s1) ← scan_int_width w s
  (b, s2) ← scan_int_width 2 s1
  (c, _) ← scan_int_width 2 s2
  some (a, b, c)

abbrev add_years : ℤ → ℕ → ℤ
add_years (pos n) k = pos (n + k)
add_years (negsuc n) k = if ltb n k then pos (k - suc n) else negsuc (n - k)

-- A year of two digits.
abbrev full_year : ℤ → ℤ
full_year (pos n) = if leb 70 n then pos (n + 1900) else pos (n + 2000)
full_year (negsuc n) = add_years (negsuc n) 2000

abbrev scan_date : Bytes → Option (ℤ × ℤ × ℤ)
scan_date s =
    if length s == 6
    then (do (y, m, d) ← scan_three 2 s; some (full_year y, m, d))
    else if length s == 8
    then scan_three 4 s
    else none

abbrev first_field : List Bytes → Bytes
first_field [] = []
first_field (f ∷ _) = f

unfoldable pub parse_nntp_date_time : Bytes → Bytes → Option DateTime
unfolding scan_three fields
parse_nntp_date_time date_str time_str =
    if ltb (length time_str) 6 || ltb (length (first_field (fields time_str))) 6 then none else do
      (y, m, d) ← scan_date date_str
      (h, mi, s) ← scan_three 2 (first_field (fields time_str))
      some (record { year = y; month = m; day = d; hour = h; minute = mi; second = s })

-- One line for each group that can be loaded; loading may build the group's `.info`.
group_lines : Server → (Group → List Out) → List Bytes → Disk → List Out × Disk
unfolding load_info_full
group_lines srv show [] disk = (dot ∷ [], disk)
group_lines srv show (name ∷ names) disk =
    let (r, disk') = load_info_full srv.env name disk in
    let (rest, disk'') = group_lines srv show names disk' in
    (elim r [ ok g ↦ show g ++ rest | fail _ ↦ rest ], disk'')

abbrev group_block : Server → Conn → Disk → Out → (Group → List Out) → List Bytes → Reaction
group_block srv conn disk first show names =
    let (out, disk') = group_lines srv show names disk in reply conn disk' (first ∷ out)

abbrev sp : Bytes → Bytes → Bytes
sp a b = a ++ (str " " ++ b)

active_line : Group → List Out
active_line g =
    line (sp g.name (sp (format_uint g.total) (sp (format_uint g.start) (str "y")))) ∷ []

times_line : Group → List Out
times_line g = line (sp g.name (sp (format_uint g.ctime) g.creator)) ∷ []

newsgroups_line : Group → List Out
newsgroups_line g = line (sp g.name g.desc) ∷ []

counts_line : Group → List Out
counts_line g =
    line (
      sp g.name
        (sp (format_uint g.end) (sp (format_uint g.start) (sp (format_uint g.total) (str "y")))))
    ∷ []

keep_matching : Bytes → List Bytes → List Bytes
keep_matching pattern [] = []
keep_matching pattern (n ∷ ns) =
    let rest = keep_matching pattern ns in if wildmat_match pattern n then n ∷ rest else rest

lines_of : List Bytes → List Out
lines_of [] = dot ∷ []
lines_of (t ∷ ts) = line t ∷ lines_of ts

abbrev fixed_block : Conn → Disk → ℕ → Bytes → List Bytes → Reaction
fixed_block conn disk code text body = reply conn disk (status code text ∷ lines_of body)

unfoldable pub list_command : Server → Conn → Disk → Bytes → Bytes → Reaction
unfolding group_lines keep_matching lines_of active_line times_line newsgroups_line counts_line
list_command srv conn disk arg1 arg2 =
    let what = to_upper arg1 in
    let all = list_groups srv disk conn.session in
    let is = λ (s : Bytes). eq_bytes what s in
    let names = if is (str "ACTIVE") && not (is_empty arg2) then keep_matching arg2 all else all in
    let information = status 215 (str "information follows") in
    if is (str "EXTENSIONS")
    then fixed_block conn disk 202 (str "Extensions supported:") (
        str "LISTGROUP"
        ∷ str "MODE"
        ∷ str "XOVER"
        ∷ str "OVER"
        ∷ str "HDR"
        ∷ str "DATE"
        ∷ str "COMPRESS DEFLATE"
        ∷ [])
    else if is (str "ACTIVE") || is_empty what
    then group_block srv conn disk (status 215 (str "list of newsgroups follows")) active_line names
    else if is (str "ACTIVE.TIMES")
    then group_block srv conn disk information times_line names
    else if is (str "DISTRIBUTIONS")
    then fixed_block conn disk 215 (str "Distributions follow") []
    else if is (str "DISTRIB.PATS")
    then fixed_block conn disk 215 (str "Distribution patterns follow") []
    else if is (str "NEWSGROUPS")
    then group_block srv conn disk information newsgroups_line names
    else if is (str "OVERVIEW.FMT")
    then fixed_block conn disk 215 (str "information follows") overview_format
    else if is (str "SUBSCRIPTIONS")
    then fixed_block conn disk 215 (str "information follows") (str "rush.general" ∷ [])
    else if is (str "HEADERS")
    then fixed_block conn disk 215 (str "Header and metadata item names follow") (str ":" ∷ [])
    else if is (str "COUNTS")
    then group_block srv conn disk (status 215 (str "Group counts follow")) counts_line names
    else refuse conn disk 501 (str "Syntax error")

-- `g.Ctime >= checkTime.Unix()`
abbrev at_or_behind : ℕ → ℤ → Bool
at_or_behind t (pos n) = leb n t
at_or_behind t (negsuc _) = true

-- `fi.ModTime().After(checkTime)`, the first in nanoseconds
abbrev after : ℕ → ℤ → Bool
after t (pos n) = ltb (n * 1000000000) t
after t (negsuc _) = true

new_group : ℤ → Group → List Out
new_group since g = if at_or_behind g.ctime since then line g.name ∷ [] else []

unfoldable pub newgroups : Server → Conn → Disk → Bytes → Bytes → Reaction
unfolding group_lines new_group
newgroups srv conn disk arg1 arg2 = elim (parse_nntp_date_time arg1 arg2) [
  | none ↦ refuse conn disk 501 (str "Bad or missing date/time arguments")
  | some t ↦
      group_block srv conn disk (status 231 (str "list of new newsgroups follows"))
        (new_group (srv.unix_time t)) (list_groups srv disk conn.session)
]

abbrev id_line : Option Bytes → List Out
id_line none = []
id_line (some id) = line id ∷ []

-- The ids of the articles of one group that were written behind a time.
new_articles : Server → Disk → ℤ → Bytes → List ℕ → List Out
unfolding node_time
new_articles srv disk since name [] = []
new_articles srv disk since name (n ∷ ns) =
    let rest = new_articles srv disk since name ns in
    elim (stat disk (get_article_path srv.env.cfg name n)) [
      | none ↦ rest
      | some node ↦
          if after (node_time node) since
          then id_line (get_message_id srv.env disk name n) ++ rest
          else rest
    ]

-- What the loop over the groups comes to: its lines, the disk, and how it goes on.
record News : Type 0 where
  lines : List Out
  disk : Disk
  next : Next

-- One group: its lines and those of the groups behind it, which come to nothing if its own loop never
-- ends.
abbrev news_of : Server → ℤ → Bytes → Disk → Group → News → News
news_of srv since name loaded g rest =
    if is_endless g.start g.end
    then record { lines = []; disk = loaded; next = hung }
    else record rest {
      lines = new_articles srv loaded since name (numbers g.start g.end) ++ rest.lines;
    }

-- The loop over the groups; the disk is that behind the loading of each.
news_lines : Server → ℤ → Bytes → List Bytes → Disk → News
unfolding new_articles numbers is_endless load_info_full
news_lines srv since pattern [] disk = record { lines = dot ∷ []; disk = disk; next = go_on }
news_lines srv since pattern (name ∷ names) disk =
    let (r, loaded) = load_info_full srv.env name disk in
    let matching = wildmat_match pattern name in
    let rest = news_lines srv since pattern names (if matching then loaded else disk) in
    if not matching
    then rest
    else elim r [ ok g ↦ news_of srv since name loaded g rest | fail _ ↦ rest ]

abbrev news_block : Server → Conn → Disk → Bytes → Option DateTime → Reaction
news_block srv conn disk pattern none = refuse conn disk 501 (str "Bad date/time arguments")
news_block srv conn disk pattern (some t) =
    let news = news_lines srv (srv.unix_time t) pattern (list_groups srv disk conn.session) disk in
    record {
      conn = conn;
      disk = news.disk;
      out = status 230 (str "list of new articles follows") ∷ news.lines;
      next = news.next;
    }

-- The two first fields of the second argument.
abbrev news_dates : List Bytes → Option (Bytes × Bytes)
news_dates (d ∷ t ∷ _) = some (d, t)
news_dates _ = none

unfoldable pub newnews : Server → Conn → Disk → Bytes → Bytes → Reaction
unfolding news_lines
newnews srv conn disk arg1 arg2 =
    if is_empty arg1 || is_empty arg2
    then refuse conn disk 501 (str "Syntax: NEWNEWS wildmat date time [GMT]")
    else elim (news_dates (fields arg2)) [
      | none ↦ refuse conn disk 501 (str "Bad date/time arguments")
      | some (d, t) ↦ news_block srv conn disk arg1 (parse_nntp_date_time d t)
    ]
