-- ===== src/Group/Articles.antt =====
-- `GetMessageID`, `FindArticleByMessageID` and `DeleteArticle` of internal/group/group.go.
pub mod Finding
use gonewsd.Prelude.{
  ℕ, zero, suc, ◌+◌, ◌-◌, ◌%◌, Bool, true, false, not, ◌&&◌, ◌||◌, List, [], ◌∷◌, ◌++◌, Option,
  none, some, ◌==◌, ltb, leb, if◌then◌else◌, is_empty, length, take, drop, Bytes, eq_bytes, str,
}
use gonewsd.Config.{Config}
use gonewsd.Text.Decimal.{two64}
use gonewsd.Text.Scanner.{Scanned, scan_lines}
use gonewsd.Text.Strings.{trim_space, equal_fold}
use gonewsd.Spool.Names.{get_article_path}
use gonewsd.Spool.Disk.{
  Disk, Opened, absent, unreadable, directory, content, open_file, remove_file, written,
}
use gonewsd.Group.Types.{Group, Env, Outcome, ok, fail, M, run_next}
use gonewsd.Group.Info.{build_info}

-- The loop over the lines of an article's header.
message_id_line : List Bytes → Option Bytes
message_id_line [] = none
message_id_line (line ∷ lines) =
    let rest = message_id_line lines in
    if is_empty line
    then none
    else if leb 11 (length line) && equal_fold (take 11 line) (str "Message-ID:")
    then some (trim_space (drop 11 line))
    else rest

-- `none` is an error: there is no such file, or no such header.
unfoldable pub get_message_id : Env → Disk → Bytes → ℕ → Option Bytes
unfolding message_id_line get_article_path open_file scan_lines trim_space equal_fold
get_message_id env d name artnum =
    elim (open_file env.os d (get_article_path env.cfg name artnum)) [
      | content bytes ↦ message_id_line (scan_lines bytes).lines
      | _ ↦ none
    ]

-- The end of the search, or a search that is still running when the fuel is used up.
pub data Search : Type 0 where
  found : ℕ → Search
  not_found running : Search

abbrev is_id : Bytes → Option Bytes → Bool
is_id msgid none = false
is_id msgid (some id) = eq_bytes id msgid

-- `for artnum := g.End; artnum >= g.Start; artnum--`, on numbers of 64 bits.
unfoldable pub find_onto : (ℕ → Option Bytes) → Bytes → ℕ → ℕ → ℕ → Search
find_onto id_of msgid start zero artnum = running
find_onto id_of msgid start (suc f) artnum =
    let rest = find_onto id_of msgid start f ((artnum + two64 - 1) % two64) in
    if ltb artnum start
    then not_found
    else if is_id msgid (id_of artnum)
    then found artnum
    else rest

-- A search that has looked at all the numbers of 64 bits and is still running has no end.
unfoldable pub find_article_by_message_id : Env → Disk → Group → Bytes → Search
unfolding find_onto
find_article_by_message_id env d g msgid =
    find_onto (get_message_id env d g.name) msgid g.start two64 g.end

unfoldable pub delete_article : Env → Group → ℕ → M Group
unfolding remove_file build_info
delete_article env g artnum d =
    elim (remove_file env.os (get_article_path env.cfg g.name artnum) d) [
      | written d' ↦ build_info env true g d'
      | _ ↦ (fail [], d)
    ]
