-- ===== src/Nntp/Wire/Posting.antt =====
-- What a client sends after `POST`, and what the server reads of it.
use mathlib.Core.List.{map}
use gonewsd.Prelude.{
  ℕ, ◌+◌, ◌≤◌, ◌≡◌, refl, ◌∙◌, true, false, List, [], ◌∷◌, ◌++◌, arith, ◌==◌, ==_iff, length,
  length-append, Bytes, All, append_assoc, append-nil,
}
use gonewsd.Text.Strings.{contains_byte}
use gonewsd.Text.Scanner.{render_lines, IsLine}
use gonewsd.Article.Send.{dot_stuff, send_article}
use gonewsd.Article.Send.Output.{
  IsSentLine, IsSentHeader, stored, send_article-stored, stored-IsLine,
}
use gonewsd.Nntp.Wire.{normal, crlf, max_post_size, complete, read_post_onto, read_post_body_raw}

-- Lines on the wire: each is ended by CRLF.
abbrev pub crlf_lines : List Bytes → Bytes
crlf_lines [] = []
crlf_lines (l ∷ ls) = l ++ (b'\r' ∷ b'\n' ∷ crlf_lines ls)

-- A message on the wire, with a dot on the line behind it.
abbrev pub on_wire : List Bytes → Bytes → Bytes
on_wire ls rest = crlf_lines (map dot_stuff ls) ++ (b'.' ∷ b'\r' ∷ b'\n' ∷ rest)

read_post-normal :
    (l msg s : Bytes)
    → IsLine l
    → length msg + length l ≤ max_post_size
    → read_post_onto normal msg (l ++ s) ≡ read_post_onto normal (msg ++ l) s
unfolding read_post_onto contains_byte
read_post-normal [] msg s h k = rw append-nil refl
read_post-normal (c ∷ l) msg s h k = ground (
  arith,
  read_post-normal l (msg ++ c ∷ []) s,
  append_assoc msg (c ∷ []) l,
  length-append msg (c ∷ []),
)

read_post_end :
    (msg s : Bytes)
    → length msg ≤ max_post_size
    → read_post_onto normal msg (b'\r' ∷ b'\n' ∷ s) ≡ read_post_onto crlf (msg ++ b'\n' ∷ []) s
unfolding read_post_onto
read_post_end msg s k = ground arith

-- The first byte of a line behind a line end; a dot that was put in front is dropped.
read_post_enter :
    (c : ℕ) (l msg s : Bytes)
    → (c == b'\n') ≡ false
    → (c == b'\r') ≡ false
    → length msg ≤ max_post_size
    → read_post_onto crlf msg (dot_stuff (c ∷ l) ++ s)
      ≡ read_post_onto normal (msg ++ c ∷ []) (l ++ s)
unfolding read_post_onto dot_stuff
read_post_enter c l msg s n r k = ground (arith, ==_iff c b'.')

read_post-line :
    (l msg s : Bytes)
    → IsLine l
    → length msg + length l + 1 ≤ max_post_size
    → read_post_onto crlf msg (dot_stuff l ++ (b'\r' ∷ b'\n' ∷ s))
      ≡ read_post_onto crlf (msg ++ (l ++ b'\n' ∷ [])) s
read_post-line [] msg s h k = unfold read_post_onto dot_stuff in ground arith
read_post-line (c ∷ l) msg s (n, r) k =
    read_post_enter c l msg (b'\r' ∷ b'\n' ∷ s) (unfold contains_byte in ground arith)
      (unfold contains_byte in ground arith) (omega arith)
    ∙ read_post-normal l (msg ++ c ∷ []) (b'\r' ∷ b'\n' ∷ s)
        (unfold contains_byte in ground arith, unfold contains_byte in ground arith)
        (omega (arith, length-append msg (c ∷ [])))
    ∙ read_post_end ((msg ++ c ∷ []) ++ l) s
        (omega (arith, length-append (msg ++ c ∷ []) l, length-append msg (c ∷ [])))
    ∙ rw (append_assoc, append_assoc) refl

read_post-on_wire :
    (ls : List Bytes) (msg rest : Bytes)
    → All IsLine ls
    → length msg + length (render_lines ls) ≤ max_post_size
    → read_post_onto crlf msg (on_wire ls rest) ≡ complete (msg ++ render_lines ls) rest
read_post-on_wire [] msg rest h k = rw append-nil (unfold read_post_onto in ground arith)
read_post-on_wire (l ∷ ls) msg rest (h, t) k =
    let (e, f) = length_split l ls in
    rw (append_assoc (dot_stuff l) (b'\r' ∷ b'\n' ∷ crlf_lines (map dot_stuff ls))) (
      read_post-line l msg (on_wire ls rest) h (omega arith)
      ∙ read_post-on_wire ls (msg ++ (l ++ b'\n' ∷ [])) rest t
          (omega (arith, length-append msg (l ++ b'\n' ∷ []), e, f))
      ∙ rw (append_assoc, append_assoc) refl)
  where
    length_split :
        (a : Bytes) (more : List Bytes)
        → (length (a ++ b'\n' ∷ []) ≡ length a + 1)
          × (length (render_lines (a ∷ more)) ≡ length a + 1 + length (render_lines more))
    length_split a more = (
      omega (arith, length-append a (b'\n' ∷ [])),
      omega (arith, length-append a (b'\n' ∷ render_lines more)),
    )

-- The first line of a message is read without the state behind a line end.
read_post-first :
    (l s : Bytes)
    → IsLine l
    → length l + 1 ≤ max_post_size
    → read_post_body_raw (l ++ (b'\r' ∷ b'\n' ∷ s)) ≡ read_post_onto crlf (l ++ b'\n' ∷ []) s
unfolding read_post_body_raw
read_post-first l s h k =
    read_post-normal l [] (b'\r' ∷ b'\n' ∷ s) h (omega arith) ∙ read_post_end l s (omega arith)

-- An article that `ARTICLE` sends, posted as it was sent, is read as the bytes of its file, and the
-- input behind the closing dot is left. The conditions: no header line is empty, the first does not
-- begin with a dot, no line holds a CR or LF or more than 4092 bytes, and the file has at most 10 MB.
pub read_post_body_raw-send_article :
    (h : Bytes) (hs bs : List Bytes) (rest : Bytes)
    → All IsSentHeader (h ∷ hs)
    → All IsSentLine bs
    → dot_stuff h ≡ h
    → length (stored (h ∷ hs) bs) ≤ max_post_size
    → read_post_body_raw
        (crlf_lines (send_article true true (stored (h ∷ hs) bs)) ++ (b'.' ∷ b'\r' ∷ b'\n' ∷ rest))
      ≡ complete (stored (h ∷ hs) bs) rest
read_post_body_raw-send_article h hs bs rest s t e k =
    let size = length-append h (b'\n' ∷ render_lines (hs ++ [] ∷ bs)) in
    rw ((send_article-stored (h ∷ hs) bs s t).0, e, append_assoc h)
      (read_post-first h (on_wire (hs ++ [] ∷ bs) rest) (s.0.1, s.0.2) (omega (arith, size))
        ∙ read_post-on_wire (hs ++ [] ∷ bs) (h ++ b'\n' ∷ []) rest (stored-IsLine hs bs s.1 t)
            (omega (arith, size, length-append h (b'\n' ∷ [])))
        ∙ rw append_assoc refl)
