-- ===== src/Article/Fields.antt =====
-- `Load`, `Overview` and `GetRawHeader` of internal/article/article.go.
pub mod Kept
use gonewsd.Prelude.{
  ℕ, ◌+◌, Bool, true, false, not, ◌&&◌, ◌||◌, List, [], ◌∷◌, ◌++◌, Option, none, some, ◌==◌, ltb,
  leb, if◌then◌else◌, is_empty, length, take, drop, Bytes, FilePath, eq_bytes, str,
}
use gonewsd.Prelude.Int.{ℤ, pos, negsuc}
use gonewsd.Config.{Config}
use gonewsd.Text.Decimal.{format_uint}
use gonewsd.Text.Scan.{atoi}
use gonewsd.Text.Scanner.{Scanned, scan_lines}
use gonewsd.Text.Strings.{
  is_space, to_lower, trim_left, trim_space, trim_suffix, has_suffix, contains_byte, take_until,
  replace_byte,
}
use gonewsd.Article.Send.{cut_line}
use gonewsd.Spool.Names.{get_article_path}
use gonewsd.Spool.Disk.{Disk, Os, absent, unreadable, directory, content, open_file}

pub record Article : Type 0 where
  pub group : Bytes
  pub filename : FilePath
  pub number : ℕ
  pub valid : Bool
  pub from : Bytes
  pub date : Bytes
  pub message_id : Bytes
  pub subject : Bytes
  pub references : Bytes
  pub xref : Bytes
  pub lines : ℤ
  pub errmsg : Bytes

-- `var curArticle article.Article`
abbrev pub no_article : Article
no_article = record {
  group = [];
  filename = [];
  number = 0;
  valid = false;
  from = [];
  date = [];
  message_id = [];
  subject = [];
  references = [];
  xref = [];
  lines = pos 0;
  errmsg = [];
}

-- The key with its colon and the value; both are empty where there is no colon.
unfoldable pub split_key_value : Bytes → Bytes × Bytes
unfolding contains_byte take_until trim_left is_space
split_key_value s =
    if not (contains_byte s b':')
    then ([], [])
    else let key = take_until (λ c. c == b':') s in
      (key ++ str ":", trim_left is_space (drop (length key + 1) s))

unfoldable pub parse_header : Article → Bytes → Bytes → Article
unfolding to_lower trim_suffix eq_bytes atoi
parse_header a key val =
    let lower = to_lower (trim_suffix key (str ":")) ++ str ":" in
    if eq_bytes lower (str "subject:")
    then record a { subject = val }
    else if eq_bytes lower (str "from:")
    then record a { from = val }
    else if eq_bytes lower (str "date:")
    then record a { date = val }
    else if eq_bytes lower (str "xref:")
    then record a { xref = val }
    else if eq_bytes lower (str "message-id:")
    then record a { message_id = val }
    else if eq_bytes lower (str "references:")
    then record a { references = val }
    else if eq_bytes lower (str "lines:")
    then record a { lines = atoi val }
    else a

-- `if key != "" { a.parseHeader(key, val) }`
abbrev apply_header : Article → Bytes → Bytes → Article
apply_header a key val = if is_empty key then a else parse_header a key val

-- `line[0]` is a tab or a space
abbrev is_folded : Bytes → Bool
is_folded [] = false
is_folded (c ∷ _) = c == b'\t' || c == b' '

abbrev at_most : ℕ → Bytes → Bytes
at_most n s = if ltb n (length s) then take n s else s

-- The loop over the lines. At the end of the file the header in progress is not applied: only an
-- empty line ends the last header.
load_lines : Article → Bytes → Bytes → List Bytes → Article
unfolding cut_line split_key_value parse_header
load_lines a key val [] = a
load_lines a key val (raw ∷ raws) =
    let line = cut_line raw in
    let folded = load_lines a key (at_most 1024 (val ++ line)) raws in
    let (key', val') = split_key_value line in
    let next = load_lines (apply_header a key val) key' val' raws in
    if is_empty line then apply_header a key val else if is_folded line then folded else next

-- The tests behind the loop.
check_loaded : Article → Scanned → Article
check_loaded a s =
    if not s.complete
    then record a { errmsg = str "bufio.Scanner: token too long" }
    else if is_empty a.message_id
    then record a { errmsg = str "No 'Message-ID' field" }
    else if is_empty a.from
    then record a { errmsg = str "No 'From' field" }
    else record a { valid = true }

-- A line that is too long stops the scan only if no empty line stands before it.
stops : List Bytes → Bool
unfolding cut_line
stops [] = false
stops (raw ∷ raws) = is_empty (cut_line raw) || stops raws

load_scanned : Article → Scanned → Article
unfolding load_lines check_loaded stops
load_scanned a s =
    check_loaded (load_lines a [] [] s.lines) (record s { complete = s.complete || stops s.lines })

missing_text : ℕ → Bytes
missing_text num = str "article " ++ (format_uint num ++ str " no longer exists")

-- The article as `Load` leaves it; it is valid exactly if `Load` returns nil.
unfoldable pub load : Config → Os → Disk → Bytes → ℕ → Article
unfolding missing_text load_scanned get_article_path open_file scan_lines
load cfg os d group num =
    let a = record no_article { group = group; number = num } in
    let path = get_article_path cfg group num in
    let opened = record a { filename = path } in
    if leb 1024 (length group)
    then record a { errmsg = str "group name too long" }
    else elim (open_file os d path) [
      | absent ↦ record opened { errmsg = missing_text num }
      | unreadable ↦ record opened { errmsg = missing_text num }
      | directory ↦ record opened { errmsg = os.error_text path }
      | content bytes ↦ load_scanned opened (scan_lines bytes)
    ]

-- `sanitizeOverview`
unfoldable pub sanitize_overview : Bytes → Bytes
unfolding replace_byte
sanitize_overview s = replace_byte s b'\t' b' '

abbrev positive_text : ℤ → Bytes
positive_text (pos n) = if ltb 0 n then format_uint n else []
positive_text (negsuc n) = []

-- What one name of the format adds.
unfoldable pub overview_field : Article → Bytes → Bytes
unfolding to_lower trim_suffix eq_bytes sanitize_overview
overview_field a name =
    let lower = to_lower (trim_suffix name (str ":")) in
    if eq_bytes lower (str "subject")
    then b'\t' ∷ sanitize_overview a.subject
    else if eq_bytes lower (str "from")
    then b'\t' ∷ sanitize_overview a.from
    else if eq_bytes lower (str "date")
    then b'\t' ∷ sanitize_overview a.date
    else if eq_bytes lower (str "message-id")
    then b'\t' ∷ sanitize_overview a.message_id
    else if eq_bytes lower (str "references")
    then b'\t' ∷ sanitize_overview a.references
    else if eq_bytes lower (str "lines")
    then b'\t' ∷ positive_text a.lines
    else if eq_bytes lower (str "bytes")
    then b'\t' ∷ []
    else if eq_bytes lower (str "xref:full")
    then b'\t' ∷ (if is_empty a.xref then [] else str "Xref: " ++ sanitize_overview a.xref)
    else []

overview_fields : Article → List Bytes → Bytes
overview_fields a [] = []
overview_fields a (name ∷ names) = overview_field a name ++ overview_fields a names

unfoldable pub overview : Article → List Bytes → Bytes
unfolding overview_fields overview_field format_uint
overview a format = format_uint a.number ++ overview_fields a format

-- The loop of `GetRawHeader`; `some` is a value that has been found.
raw_lines : Bytes → Option Bytes → List Bytes → Bytes
unfolding cut_line trim_space to_lower eq_bytes
raw_lines target none [] = []
raw_lines target (some val) [] = val
raw_lines target none (raw ∷ raws) =
    let line = cut_line raw in
    let skipped = raw_lines target none raws in
    let hit = raw_lines target (some (trim_space (drop (length target) line))) raws in
    if is_empty line
    then []
    else if is_folded line
    then skipped
    else if leb (length target) (length line)
        && eq_bytes (to_lower (take (length target) line)) target
    then hit
    else skipped
raw_lines target (some val) (raw ∷ raws) =
    let line = cut_line raw in
    let longer = raw_lines target (some (val ++ (str " " ++ trim_space line))) raws in
    if is_empty line then val else if is_folded line then longer else val

-- Empty where there is no file or no such header.
unfoldable pub get_raw_header : Config → Os → Disk → Bytes → ℕ → Bytes → Bytes
unfolding raw_lines get_article_path open_file scan_lines to_lower has_suffix
get_raw_header cfg os d group artnum field =
    let lower = to_lower field in
    let target = if not (has_suffix lower (str ":")) then lower ++ str ":" else lower in
    elim (open_file os d (get_article_path cfg group artnum)) [
      | content bytes ↦ raw_lines target none (scan_lines bytes).lines
      | _ ↦ []
    ]
