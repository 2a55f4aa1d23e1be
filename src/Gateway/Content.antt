-- ===== src/Gateway/Content.antt =====
-- What becomes of the text of a message: ends of lines, and the headers of the gateway.
use gonewsd.Prelude.{
  ℕ, ◌≡◌, refl, ap, ◌∙◌, sym, Bool, true, false, ◌||◌, List, [], ◌∷◌, ◌++◌, arith, ◌==◌, Bytes, str,
  All, All-append, append_assoc, Bool-cases, inl, inr, append-nil,
}
use gonewsd.Prelude.Int.{ℤ}
use gonewsd.Gateway.{Reading, read_mail, keep_byte, count_byte, new_reading, gateway_headers}
use gonewsd.Gateway.Limit.{without_cr, read_mail-toolong}
use gonewsd.Group.Headers.{parse_article, Parsing, parse_byte, parse_bytes}
use gonewsd.Group.Headers.Lines.{IsHeader, parse_article-render_lines}
use gonewsd.Nntp.Commands.Posting.{over_limit}
use gonewsd.Group.Posting.{article_text}
use gonewsd.Text.Scanner.{render_lines, IsLine}
use gonewsd.Text.Strings.{contains_byte, Lacks}

without_cr-append : (s t : Bytes) → without_cr (s ++ t) ≡ without_cr s ++ without_cr t
without_cr-append [] t = refl
without_cr-append (c ∷ s) t = ground (arith, without_cr-append s t)

without_cr-Lacks : (s : Bytes) → Lacks b'\r' s → without_cr s ≡ s
unfolding contains_byte
without_cr-Lacks [] h = refl
without_cr-Lacks (c ∷ s) h = ground (arith, without_cr-Lacks s)

without_cr-other :
    (c : ℕ) (s : Bytes) → (c == b'\r') ≡ false → without_cr (c ∷ s) ≡ c ∷ without_cr s
without_cr-other c s e = rw e refl

-- `ParseArticle` reads past every CR.
parse_bytes-without_cr : (s : Bytes) (p : Parsing) → parse_bytes p s ≡ parse_bytes p (without_cr s)
unfolding parse_bytes parse_byte
parse_bytes-without_cr [] p = refl
parse_bytes-without_cr (c ∷ s) p =
    elim (Bool-cases (c == b'\r'))
      as (λ _. parse_bytes p (c ∷ s) ≡ parse_bytes p (without_cr (c ∷ s))) [
        | inl e ↦ rw e (parse_bytes-without_cr s p)
        | inr e ↦
            parse_bytes-without_cr s (parse_byte p c)
            ∙ ap (parse_bytes p) (sym (without_cr-other c s e))
      ]

or-false : (a b : Bool) → (a || b) ≡ false → a ≡ false
or-false true b h = absurd cc
or-false false b h = refl

-- A byte that is kept.
keep_byte-msg :
    (l : ℤ) (r : Reading) (c : ℕ)
    → (c == b'\r') ≡ false
    → (keep_byte l r c).toolong ≡ false
    → without_cr (keep_byte l r c).msg ≡ without_cr r.msg ++ c ∷ []
keep_byte-msg l r c n h = elim (Bool-cases (over_limit l r.linecount)) [
  | inl o ↦ absurd (cc (rw o at h))
  | inr o ↦ rw o (without_cr-append r.msg _ ∙ ground arith)
]

-- Up to CRs, a message within the limit is kept as it is.
read_mail-msg :
    (l : ℤ) (s : Bytes) (r : Reading)
    → (read_mail l r s).toolong ≡ false
    → without_cr (read_mail l r s).msg ≡ without_cr r.msg ++ without_cr s
unfolding read_mail
read_mail-msg l [] r h = sym (append-nil _)
read_mail-msg l (c ∷ s) r h =
    elim (Bool-cases (c == b'\r'))
      as (λ _. without_cr (read_mail l r (c ∷ s)).msg ≡ without_cr r.msg ++ without_cr (c ∷ s)) [
        | inl e ↦ rw e (read_mail-msg l s r (rw e at h))
        | inr e ↦ rw e (
            let q = keep_byte l (count_byte r c) c in
            let h' : (read_mail l q s).toolong ≡ false = rw e at h in
            read_mail-msg l s q h'
            ∙ rw
                (keep_byte-msg l (count_byte r c) c e
                  (or-false q.toolong _ (sym (read_mail-toolong l s q) ∙ h')))
                (append_assoc (without_cr r.msg) (c ∷ []) (without_cr s)))
      ]

parse_article-without_cr : (s : Bytes) → parse_article s ≡ parse_article (without_cr s)
unfolding parse_article
parse_article-without_cr s = parse_bytes-without_cr s _

-- The headers of the gateway, as lines.
abbrev pub gateway_lines : Bytes → Bytes → List Bytes
gateway_lines version groupname =
    (str "Newsgroups: " ++ groupname) ∷ (str "X-Mail-To-News-Gateway: via gonewsd " ++ version) ∷ []

gateway_headers-lines :
    (v n : Bytes)
    → Lacks b'\r' v
    → Lacks b'\r' n
    → without_cr (gateway_headers v n) ≡ render_lines (gateway_lines v n)
unfolding gateway_headers
gateway_headers-lines v n hv hn =
    rw (without_cr-append n _, without_cr-append v _, without_cr-Lacks n hn, without_cr-Lacks v hv)
      refl

render_lines-append :
    (ls ms : List Bytes) → render_lines (ls ++ ms) ≡ render_lines ls ++ render_lines ms
render_lines-append [] ms = refl
render_lines-append (l ∷ ls) ms =
    ap (λ t. l ++ b'\n' ∷ t) (render_lines-append ls ms)
    ∙ sym (append_assoc l (b'\n' ∷ render_lines ls) _)

lines-without_cr :
    (ls : List Bytes) → All (Lacks b'\r') ls → without_cr (render_lines ls) ≡ render_lines ls
lines-without_cr [] h = refl
lines-without_cr (l ∷ ls) (h, k) =
    without_cr-append l (b'\n' ∷ render_lines ls)
    ∙ rw (without_cr-Lacks l h, lines-without_cr ls k) refl

headers-Lacks : (hs : List Bytes) → All IsHeader hs → All (Lacks b'\r') hs
headers-Lacks [] h = tt
headers-Lacks (l ∷ ls) ((_, _, h), k) = (h, headers-Lacks ls k)

body-Lacks : (bs : List Bytes) → All IsLine bs → All (Lacks b'\r') bs
body-Lacks [] h = tt
body-Lacks (l ∷ ls) ((_, h), k) = (h, body-Lacks ls k)

text-without_cr :
    (hs bs : List Bytes)
    → All IsHeader hs
    → All IsLine bs
    → without_cr (article_text hs bs) ≡ article_text hs bs
unfolding article_text
text-without_cr hs bs h k =
    without_cr-append (render_lines hs) (b'\n' ∷ render_lines bs)
    ∙ rw (lines-without_cr hs (headers-Lacks hs h), lines-without_cr bs (body-Lacks bs k)) refl

gateway_lines-IsHeader : (v n : Bytes) → IsLine v → IsLine n → All IsHeader (gateway_lines v n)
unfolding contains_byte
gateway_lines-IsHeader v n (hv, kv) (hn, kn) = ((refl, hn, kn), ((refl, hv, kv), tt))

-- A message of header lines and body lines that is within the limit of the group is read by
-- `ParseArticle` as the two header lines of the gateway, those of the message, and its body.
pub read_mail-article_text :
    (limit : ℤ) (version name : Bytes) (headers body : List Bytes)
    → IsLine version
    → IsLine name
    → All IsHeader headers
    → All IsLine body
    → (read_mail limit
        (new_reading (gateway_headers version name))
        (article_text headers body)).toolong
      ≡ false
    → parse_article
        (read_mail limit
          (new_reading (gateway_headers version name))
          (article_text headers body)).msg
      ≡ (gateway_lines version name ++ headers, body)
read_mail-article_text l v n hs bs hv hn h k within =
    let front = gateway_headers v n in
    parse_article-without_cr _
    ∙ ap parse_article (
        read_mail-msg l (article_text hs bs) (new_reading front) within
        ∙ rw (gateway_headers-lines v n (ground arith) (ground arith), text-without_cr hs bs h k)
            (unfold article_text in
              (sym (append_assoc (render_lines (gateway_lines v n)) (render_lines hs) _)
                ∙ ap (λ t. t ++ b'\n' ∷ render_lines bs)
                    (sym (render_lines-append (gateway_lines v n) hs)))))
    ∙ parse_article-render_lines (gateway_lines v n ++ hs) bs
        (All-append IsHeader (gateway_lines v n) hs (gateway_lines-IsHeader v n hv hn) h) k
