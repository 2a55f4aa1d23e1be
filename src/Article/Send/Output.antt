-- ===== src/Article/Send/Output.antt =====
-- What `SendArticle` writes for an article that is stored line by line.
use mathlib.Core.List.{map, map-append}
use gonewsd.Prelude.{
  ◌≤◌, ◌≡◌, refl, ap, sym, ◌∙◌, Bool, true, false, List, [], ◌∷◌, ◌++◌, arith, ltb-false, is_empty,
  length, Bytes, All, All-append,
}
use gonewsd.Text.Strings.{contains_byte, Lacks}
use gonewsd.Text.Scanner.{
  Scanned, scan_lines, scan_lines-render_lines, render_lines, IsLine, IsShortLine,
}
use gonewsd.Article.Send.{
  cut_line, sent_line, SendMode, head, sep, body, is_head, dot_stuff, send_lines, send_article,
}

-- A line of an article that is sent whole.
abbrev pub IsSentLine : Bytes → Type 0
IsSentLine l = Lacks b'\n' l × Lacks b'\r' l × (length l ≤ 4092)

abbrev pub IsSentHeader : Bytes → Type 0
IsSentHeader l = (is_empty l ≡ false) × Lacks b'\n' l × Lacks b'\r' l × (length l ≤ 4092)

cut_line-IsLine : (l : Bytes) → Lacks b'\n' l → Lacks b'\r' l → cut_line l ≡ l
unfolding cut_line contains_byte
cut_line-IsLine [] n r = refl
cut_line-IsLine (c ∷ l) n r = ground (arith, cut_line-IsLine l)

sent_line-IsSentLine : (l : Bytes) → IsSentLine l → sent_line l ≡ l
unfolding sent_line
sent_line-IsSentLine l (n, r, k) = rw (cut_line-IsLine l n r, ltb-false 4092 (length l) k) refl

send_lines-body :
    (mode : SendMode) (send_head : Bool) (ls : List Bytes)
    → is_head mode ≡ false
    → All IsSentLine ls
    → send_lines mode send_head true ls ≡ map dot_stuff ls
unfolding send_lines
send_lines-body head send_head ls m h = cc
send_lines-body sep send_head [] m h = refl
send_lines-body sep send_head (l ∷ ls) m (h, t) =
    ground (arith, sent_line-IsSentLine l h, send_lines-body body send_head ls refl t)
send_lines-body body send_head [] m h = refl
send_lines-body body send_head (l ∷ ls) m (h, t) =
    ground (arith, sent_line-IsSentLine l h, send_lines-body body send_head ls refl t)

send_lines-head :
    (hs bs : List Bytes)
    → All IsSentHeader hs
    → All IsSentLine bs
    → send_lines head true true (hs ++ [] ∷ bs) ≡ map dot_stuff hs ++ [] ∷ map dot_stuff bs
unfolding send_lines
send_lines-head [] bs h k = unfold sent_line in ap (◌∷◌ []) (send_lines-body sep true bs refl k)
send_lines-head (l ∷ hs) bs ((ne, n, r, s), t) k =
    ground (arith, sent_line-IsSentLine l (n, r, s), send_lines-head hs bs t k)

send_lines-head_only :
    (hs bs : List Bytes)
    → All IsSentHeader hs
    → send_lines head true false (hs ++ [] ∷ bs) ≡ map dot_stuff hs
unfolding send_lines
send_lines-head_only [] bs h = unfold sent_line in refl
send_lines-head_only (l ∷ hs) bs ((ne, n, r, s), t) =
    ground (arith, sent_line-IsSentLine l (n, r, s), send_lines-head_only hs bs t)

send_lines-body_only :
    (hs bs : List Bytes)
    → All IsSentHeader hs
    → All IsSentLine bs
    → send_lines head false true (hs ++ [] ∷ bs) ≡ map dot_stuff bs
unfolding send_lines
send_lines-body_only [] bs h k = unfold sent_line in send_lines-body sep false bs refl k
send_lines-body_only (l ∷ hs) bs ((ne, n, r, s), t) k =
    ground (arith, sent_line-IsSentLine l (n, r, s), send_lines-body_only hs bs t k)

IsSentLine→IsShortLine : (ls : List Bytes) → All IsSentLine ls → All IsShortLine ls
IsSentLine→IsShortLine [] h = tt
IsSentLine→IsShortLine (l ∷ ls) ((n, r, k), t) = ((n, r, omega arith), IsSentLine→IsShortLine ls t)

IsSentHeader→IsSentLine : (ls : List Bytes) → All IsSentHeader ls → All IsSentLine ls
IsSentHeader→IsSentLine [] h = tt
IsSentHeader→IsSentLine (l ∷ ls) ((e, n, r, k), t) = ((n, r, k), IsSentHeader→IsSentLine ls t)

IsSentLine→IsLine : (ls : List Bytes) → All IsSentLine ls → All IsLine ls
IsSentLine→IsLine [] h = tt
IsSentLine→IsLine (l ∷ ls) ((n, r, k), t) = ((n, r), IsSentLine→IsLine ls t)

pub stored-IsLine :
    (hs bs : List Bytes) → All IsSentHeader hs → All IsSentLine bs → All IsLine (hs ++ [] ∷ bs)
unfolding contains_byte
stored-IsLine hs bs h k =
    All-append IsLine hs ([] ∷ bs) (IsSentLine→IsLine hs (IsSentHeader→IsSentLine hs h))
      ((refl, refl), IsSentLine→IsLine bs k)

-- The file of an article with these header lines and this body.
abbrev pub stored : List Bytes → List Bytes → Bytes
stored hs bs = render_lines (hs ++ [] ∷ bs)

scanned :
    (hs bs : List Bytes)
    → All IsSentHeader hs
    → All IsSentLine bs
    → (scan_lines (stored hs bs)).lines ≡ hs ++ [] ∷ bs
unfolding contains_byte
scanned hs bs h k =
    ap (λ (s : Scanned). s.lines)
      (scan_lines-render_lines (hs ++ [] ∷ bs) (
        All-append IsShortLine hs ([] ∷ bs)
          (IsSentLine→IsShortLine hs (IsSentHeader→IsSentLine hs h))
          ((refl, refl, omega arith), IsSentLine→IsShortLine bs k)))

-- For a stored article whose header lines are not empty and whose lines hold no CR or LF and at
-- most 4092 bytes, `ARTICLE` writes its header lines, an empty line and its body, `HEAD` writes the
-- header lines, and `BODY` writes the body, each line with a dot in front if it begins with one.
pub send_article-stored :
    (hs bs : List Bytes)
    → All IsSentHeader hs
    → All IsSentLine bs
    → (send_article true true (stored hs bs) ≡ map dot_stuff (hs ++ [] ∷ bs))
      × (send_article true false (stored hs bs) ≡ map dot_stuff hs)
      × (send_article false true (stored hs bs) ≡ map dot_stuff bs)
unfolding send_article
send_article-stored hs bs h k = rw (scanned hs bs h k) (
  send_lines-head hs bs h k ∙ sym (map-append dot_stuff hs ([] ∷ bs)),
  send_lines-head_only hs bs h,
  send_lines-body_only hs bs h k,
)
