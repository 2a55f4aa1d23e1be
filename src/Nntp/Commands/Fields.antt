-- ===== src/Nntp/Commands/Fields.antt =====
-- `XOVER`, `XHDR` and `XPAT`.
pub mod Keeping
use gonewsd.Prelude.{
  ℕ, Bool, true, false, not, ◌&&◌, ◌||◌, List, [], ◌∷◌, ◌++◌, Option, none, some, ◌==◌,
  if◌then◌else◌, is_empty, Bytes, eq_bytes, str,
}
use gonewsd.Article.Fields.{Article, overview, get_raw_header}
use gonewsd.Group.Articles.{Search, found, not_found, running, find_article_by_message_id}
use gonewsd.Group.Types.{Group}
use gonewsd.Group.Wildmat.{wildmat_match}
use gonewsd.Nntp.Commands.Reading.{
  with_group, numbers, is_endless, listing, load_article, is_message_id,
}
use gonewsd.Nntp.Range.{parse_article_range}
use gonewsd.Nntp.Session.{Server, Conn, Out, status, line, dot, Next, hung, Reaction, reply, refuse}
use gonewsd.Spool.Disk.{Disk}
use gonewsd.Text.Decimal.{format_uint}
use gonewsd.Text.Split.{cut_onto, fields}

-- `OverviewFormat`
abbrev pub overview_format : List Bytes
overview_format =
    str "Subject:"
    ∷ str "From:"
    ∷ str "Date:"
    ∷ str "Message-ID:"
    ∷ str "References:"
    ∷ str "Bytes:"
    ∷ str "Lines:"
    ∷ str "Xref:full"
    ∷ str "Reply-To:"
    ∷ []

overview_lines : Server → Disk → Bytes → List ℕ → List Out
overview_lines srv disk name [] = dot ∷ []
overview_lines srv disk name (n ∷ ns) =
    let rest = overview_lines srv disk name ns in
    let a = load_article srv disk name n in
    if not a.valid then rest else line (overview a overview_format) ∷ rest

unfoldable pub xover : Server → Conn → Disk → Bytes → Reaction
unfolding overview_lines numbers is_endless
xover srv conn disk arg1 =
    let g = conn.cur_group in
    let (lo, hi) =
      if is_empty arg1
      then (g.start, g.end)
      else parse_article_range arg1 g.start g.end g.start g.end in
    with_group srv conn disk (str "Not in a newsgroup") (
      listing conn disk (status 224 (str "overview follows")) lo hi
        (overview_lines srv disk g.name))

abbrev number_and : ℕ → Bytes → Out
number_and n val = line (format_uint n ++ (str " " ++ val))

header_lines : Server → Disk → Bytes → Bytes → List ℕ → List Out
header_lines srv disk name field [] = dot ∷ []
header_lines srv disk name field (n ∷ ns) =
    let rest = header_lines srv disk name field ns in
    let val = get_raw_header srv.env.cfg srv.env.os disk name n field in
    if not (is_empty val) then number_and n val ∷ rest else rest

-- The articles that an argument stands for: one that is found by its id, or a range.
abbrev with_range : Server → Conn → Disk → Bytes → (ℕ → ℕ → Reaction) → Reaction
with_range srv conn disk range show =
    let g = conn.cur_group in
    let (lo, hi) = parse_article_range range g.start g.end g.start g.end in
    if is_message_id range
    then elim (find_article_by_message_id srv.env disk g range) [
      | found n ↦ show n n
      | not_found ↦ refuse conn disk 430 (str "no such article found")
      | running ↦ record { conn = conn; disk = disk; out = []; next = hung }
    ]
    else show lo hi

unfoldable pub xhdr : Server → Conn → Disk → Bytes → Bytes → Reaction
unfolding header_lines numbers is_endless
xhdr srv conn disk field range =
    let g = conn.cur_group in
    let show = λ (lo hi : ℕ).
      listing conn disk (status 225 (str "Header information follows")) lo hi
        (header_lines srv disk g.name field) in
    with_group srv conn disk (str "Not in a newsgroup") (
      if is_empty field
      then refuse conn disk 501 (str "Header field name required")
      else if is_empty range
      then show g.start g.end
      else with_range srv conn disk range show)

any_match : List Bytes → Bytes → Bool
any_match [] val = false
any_match (p ∷ ps) val = wildmat_match p val || any_match ps val

pattern_lines : Server → Disk → Bytes → Bytes → List Bytes → List ℕ → List Out
unfolding any_match
pattern_lines srv disk name field patterns [] = dot ∷ []
pattern_lines srv disk name field patterns (n ∷ ns) =
    let rest = pattern_lines srv disk name field patterns ns in
    let val = get_raw_header srv.env.cfg srv.env.os disk name n field in
    if is_empty val then rest else if any_match patterns val then number_and n val ∷ rest else rest

unfoldable pub xpat : Server → Conn → Disk → Bytes → Bytes → Reaction
unfolding pattern_lines numbers is_endless cut_onto
xpat srv conn disk field rest =
    let g = conn.cur_group in
    let (range, patterns) = cut_onto b' ' [] rest in
    with_group srv conn disk (str "Not in a newsgroup") (
      if is_empty field || is_empty rest
      then refuse conn disk 501 (str "Syntax: XPAT header range|<msgid> pat [pat...]")
      else if is_empty patterns
      then refuse conn disk 501 (str "Syntax: XPAT header range|<msgid> pat [pat...]")
      else with_range srv conn disk range (λ lo hi.
        listing conn disk (status 221 (str "Header follows")) lo hi
          (pattern_lines srv disk g.name field (fields patterns))))
