-- ===== src/Tests/Storing.antt =====
-- Articles, counts and searches at concrete inputs.
use mathlib.Core.List.{map}
use gonewsd.Prelude.{
  ℕ, zero, suc, ◌+◌, ◌<◌, ◌-◌, ◌≡◌, ◌≤◌, refl, arith, Bool, true, false, List, [], ◌∷◌, ◌++◌,
  Option, none, some, Bytes, str, length, All,
}
use gonewsd.Article.Send.{send_article, dot_stuff}
use gonewsd.Article.Send.Output.{stored, send_article-stored}
use gonewsd.Group.Articles.{find_article_by_message_id, find_onto, get_message_id}
use gonewsd.Group.Articles.Finding.{Answers, find_article_by_message_id-Answers, find_onto-wraps}
use gonewsd.Group.Headers.{parse_article}
use gonewsd.Group.Headers.Lines.{parse_article-render_lines}
use gonewsd.Group.Info.{build_info, read_info, info_text}
use gonewsd.Group.Info.RoundTrip.{read_info-info_text}
use gonewsd.Group.Posting.{place_onto, Placed, placed, not_placed, searching}
use gonewsd.Group.Posting.Placing.{Created, place_onto-Created}
use gonewsd.Group.Posting.Ending.{creation, place_onto-free}
use gonewsd.Group.Types.{Group, no_group, Outcome, ok}
use gonewsd.Nntp.Wire.{read_post_body_raw, complete}
use gonewsd.Nntp.Wire.Posting.{crlf_lines, read_post_body_raw-send_article}
use gonewsd.Spool.Disk.{Disk, written, already_there}
use gonewsd.Spool.Names.{get_article_path}
use gonewsd.Tests.Samples.{env, disk, two_articles}
use gonewsd.Text.Decimal.{two64}
use gonewsd.Text.Scanner.{scan_lines, render_lines}

abbrev some_group : Group
some_group = record no_group { name = str "a"; start = 1; end = 2; total = 2 }

find_article_by_message_id-Answers_example :
    Answers
      (get_message_id env two_articles (str "a"))
      (str "<1>")
      1
      2
      (find_article_by_message_id env two_articles some_group (str "<1>"))
find_article_by_message_id-Answers_example =
    find_article_by_message_id-Answers env two_articles some_group (str "<1>") (omega arith)
      (omega arith)

find_onto-wraps_example :
    find_onto (λ _. none) (str "<1>") 0 9 3 ≡ find_onto (λ _. none) (str "<1>") 0 5 (two64 - 1)
find_onto-wraps_example = find_onto-wraps (λ _. none) (str "<1>") 5 3 (omega arith) (λ _ _. refl)

read_info-info_text_example :
    read_info no_group (scan_lines (info_text some_group))
    ≡ ok (record no_group { start = 1; end = 2; total = 2; valid = true })
read_info-info_text_example =
    read_info-info_text some_group no_group (omega arith) (omega arith) (omega arith)

abbrev built : Outcome Group × Disk
built = build_info env true some_group two_articles

abbrev heads : List Bytes
heads = str "From: u" ∷ str "Subject: s" ∷ []

abbrev lines : List Bytes
lines = str "hi" ∷ str ".dot" ∷ []

parse_article-render_lines_example :
    parse_article (render_lines heads ++ (b'\n' ∷ render_lines lines)) ≡ (heads, lines)
unfolding gonewsd.Text.Strings.contains_byte
parse_article-render_lines_example =
    parse_article-render_lines heads lines ((refl, refl, refl), ((refl, refl, refl), tt))
      ((refl, refl), ((refl, refl), tt))

send_article-stored_example :
    (send_article true true (stored heads lines) ≡ map dot_stuff (heads ++ [] ∷ lines))
    × (send_article true false (stored heads lines) ≡ map dot_stuff heads)
    × (send_article false true (stored heads lines) ≡ map dot_stuff lines)
unfolding gonewsd.Text.Strings.contains_byte
send_article-stored_example =
    send_article-stored heads lines
      ((refl, refl, refl, omega arith), ((refl, refl, refl, omega arith), tt))
      ((refl, refl, omega arith), ((refl, refl, omega arith), tt))

read_post_body_raw-send_article_example :
    read_post_body_raw
      (crlf_lines (send_article true true (stored heads lines)) ++ (b'.' ∷ b'\r' ∷ b'\n' ∷ str "Q"))
    ≡ complete (stored heads lines) (str "Q")
unfolding gonewsd.Text.Strings.contains_byte dot_stuff
read_post_body_raw-send_article_example =
    read_post_body_raw-send_article (str "From: u") (str "Subject: s" ∷ []) lines (str "Q")
      ((refl, refl, refl, omega arith), ((refl, refl, refl, omega arith), tt))
      ((refl, refl, omega arith), ((refl, refl, omega arith), tt)) refl (omega arith)

abbrev disk_of : Placed → Disk
disk_of (placed _ d) = d
disk_of (not_placed _ d) = d
disk_of (searching d) = d

-- Number 1 is taken, so the article becomes number 2.
abbrev grown : Disk
grown = disk_of (place_onto env (str "a") (λ _. str "x") 9 1 disk)

two-placed : place_onto env (str "a") (λ _. str "x") 9 1 disk ≡ placed 2 grown
unfolding place_onto gonewsd.Prelude.eq_path gonewsd.Spool.Names.join_path
    gonewsd.Text.Decimal.format_uint gonewsd.Text.Strings.replace_byte
    gonewsd.Spool.Names.spool_path
two-placed = refl

place_onto-Created_example :
    Created env.os disk (get_article_path env.cfg (str "a") 2) (str "x") grown
place_onto-Created_example = place_onto-Created env (str "a") (λ _. str "x") 9 1 disk two-placed

first_taken : (i : ℕ) → i < 1 → creation env (str "a") (λ _. str "x") (1 + i) disk ≡ already_there
unfolding gonewsd.Spool.Disk.create_file gonewsd.Prelude.eq_path gonewsd.Spool.Names.join_path
    gonewsd.Text.Decimal.format_uint gonewsd.Text.Strings.replace_byte
    gonewsd.Spool.Names.spool_path get_article_path
first_taken zero h = refl
first_taken (suc i) h = absurd (omega arith)

second_free : creation env (str "a") (λ _. str "x") 2 disk ≡ written grown
unfolding gonewsd.Spool.Disk.create_file gonewsd.Prelude.eq_path gonewsd.Spool.Names.join_path
    gonewsd.Text.Decimal.format_uint gonewsd.Text.Strings.replace_byte
    gonewsd.Spool.Names.spool_path get_article_path place_onto
second_free = refl

place_onto-free_example : place_onto env (str "a") (λ _. str "x") two64 1 disk ≡ placed 2 grown
place_onto-free_example =
    place_onto-free env (str "a") (λ _. str "x") 1 two64 1 disk refl (omega arith) (omega arith)
      first_taken second_free
