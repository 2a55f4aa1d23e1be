-- ===== src/Group/Headers/Lines.antt =====
-- `ParseArticle` reads back an article that is written line by line.
use gonewsd.Prelude.{
  ◌≡◌, refl, ◌∙◌, true, false, List, [], ◌∷◌, ◌++◌, arith, is_empty, Bytes, All, append_assoc,
  append-nil,
}
use gonewsd.Text.Strings.{contains_byte, Lacks}
use gonewsd.Text.Scanner.{render_lines, IsLine}
use gonewsd.Group.Headers.{Parsing, parse_bytes, parse_article}

abbrev pub IsHeader : Bytes → Type 0
IsHeader l = (is_empty l ≡ false) × Lacks b'\n' l × Lacks b'\r' l

parse_bytes-line :
    (l : Bytes) (p : Parsing) (rest : Bytes)
    → IsLine l
    → parse_bytes p (l ++ rest) ≡ parse_bytes (record p { line = p.line ++ l }) rest
unfolding parse_bytes contains_byte
parse_bytes-line [] p rest h = rw append-nil refl
parse_bytes-line (c ∷ l) p rest h = ground (
  arith,
  parse_bytes-line l (record p { line = p.line ++ c ∷ [] }) rest,
  append_assoc p.line (c ∷ []) l,
)

parse_bytes-body :
    (ls hs bs : List Bytes)
    → All IsLine ls
    → parse_bytes
        (record { in_header = false; line = []; headers = hs; body = bs })
        (render_lines ls)
      ≡ (hs, bs ++ ls)
unfolding parse_bytes
parse_bytes-body [] hs bs h = rw append-nil refl
parse_bytes-body (l ∷ ls) hs bs (h, t) =
    parse_bytes-line l (record { in_header = false; line = []; headers = hs; body = bs })
      (b'\n' ∷ render_lines ls) h
    ∙ parse_bytes-body ls hs (bs ++ l ∷ []) t
    ∙ rw append_assoc refl

parse_bytes-end_header :
    (l rest : Bytes) (hs : List Bytes)
    → is_empty l ≡ false
    → parse_bytes (record { in_header = true; line = l; headers = hs; body = [] }) (b'\n' ∷ rest)
      ≡ parse_bytes (record { in_header = true; line = []; headers = hs ++ l ∷ []; body = [] }) rest
unfolding parse_bytes
parse_bytes-end_header [] rest hs h = cc
parse_bytes-end_header (c ∷ l) rest hs h = refl

parse_bytes-headers :
    (ls hs bs : List Bytes)
    → All IsHeader ls
    → All IsLine bs
    → parse_bytes
        (record { in_header = true; line = []; headers = hs; body = [] })
        (render_lines ls ++ (b'\n' ∷ render_lines bs))
      ≡ (hs ++ ls, bs)
unfolding parse_bytes
parse_bytes-headers [] hs bs h k = rw append-nil (parse_bytes-body bs hs [] k)
parse_bytes-headers (l ∷ ls) hs bs ((ne, n, r), t) k =
    rw (append_assoc l (b'\n' ∷ render_lines ls) (b'\n' ∷ render_lines bs)) (
      parse_bytes-line l (record { in_header = true; line = []; headers = hs; body = [] })
        (b'\n' ∷ (render_lines ls ++ (b'\n' ∷ render_lines bs))) (n, r)
      ∙ parse_bytes-end_header l (render_lines ls ++ (b'\n' ∷ render_lines bs)) hs ne
      ∙ parse_bytes-headers ls (hs ++ l ∷ []) bs t k
      ∙ rw append_assoc refl)

-- `ParseArticle` gives back the headers and the body of an article that is written as its header
-- lines, an empty line, and its body lines. No header line is empty, and no line holds a CR or LF.
pub parse_article-render_lines :
    (headers body : List Bytes)
    → All IsHeader headers
    → All IsLine body
    → parse_article (render_lines headers ++ (b'\n' ∷ render_lines body)) ≡ (headers, body)
unfolding parse_article
parse_article-render_lines headers body h k = parse_bytes-headers headers [] body h k
