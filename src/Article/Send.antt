-- ===== src/Article/Send.antt =====
-- `SendArticle`, `SendHead` and `SendBody` of internal/article/article.go. A write adds a line to the
-- output; the connection ends each line by CRLF.
pub mod Output
use gonewsd.Prelude.{
  ℕ, zero, suc, ◌+◌, ◌≤◌, ◌<◌, ◌≡◌, refl, ◌∙◌, Bool, true, false, not, ◌&&◌, ◌||◌, List, [], ◌∷◌,
  ◌++◌, arith, ◌==◌, leb, ltb, if◌then◌else◌, is_empty, length, take, Bytes, All, str,
}
use gonewsd.Text.Strings.{contains_byte, Lacks, take_until, has_prefix}
use gonewsd.Text.Scanner.{Scanned, scan_lines, scan_lines-render_lines, render_lines, IsLine}

-- `line[:i]` at the first CR or LF
unfoldable pub cut_line : Bytes → Bytes
unfolding take_until
cut_line = take_until (λ c. c == b'\r' || c == b'\n')

-- The loop's `line`: at most `lineLen - 4` bytes of it.
pub sent_line : Bytes → Bytes
unfolding cut_line
sent_line raw = let line = cut_line raw in if ltb 4092 (length line) then take 4092 line else line

pub data SendMode : Type 0 where
  head sep body : SendMode

-- A line that begins with a dot gets one more.
unfoldable pub dot_stuff : Bytes → Bytes
dot_stuff [] = []
dot_stuff (c ∷ l) = if c == b'.' then b'.' ∷ c ∷ l else c ∷ l

abbrev after_sep : SendMode → SendMode
after_sep sep = body
after_sep mode = mode

abbrev is_head : SendMode → Bool
is_head head = true
is_head _ = false

abbrev sends : SendMode → Bool → Bool → Bool
sends head send_head send_body = send_head
sends body send_head send_body = send_body
sends sep send_head send_body = send_head && send_body

send_lines : SendMode → Bool → Bool → List Bytes → List Bytes
send_lines mode send_head send_body [] = []
send_lines mode send_head send_body (raw ∷ raws) =
    let line = sent_line raw in
    let here = after_sep mode in
    let separated = send_lines sep send_head send_body raws in
    let rest = send_lines here send_head send_body raws in
    if is_head here && is_empty line
    then if not send_body then [] else if send_head && send_body then [] ∷ separated else separated
    else if not (sends here send_head send_body)
    then rest
    else dot_stuff line ∷ rest

-- What is written for a file of this content.
unfoldable pub send_article : Bool → Bool → Bytes → List Bytes
unfolding send_lines scan_lines sent_line dot_stuff
send_article send_head send_body content =
    send_lines head send_head send_body (scan_lines content).lines
