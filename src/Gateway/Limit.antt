-- ===== src/Gateway/Limit.antt =====
-- The limit on the lines of a message.
use gonewsd.Prelude.{
  ℕ, ◌+◌, ◌≤◌, ◌≡◌, refl, ap, ◌∙◌, Bool, true, false, ◌&&◌, ◌||◌, not, [], ◌∷◌, ◌++◌, arith, ltb,
  ◌==◌, if◌then◌else◌, is_empty, Bytes, Bool-cases, inl, inr,
}
use gonewsd.Prelude.Int.{ℤ, pos, negsuc}
use gonewsd.Gateway.{Reading, read_mail, keep_byte, count_byte, new_reading}
use gonewsd.Nntp.Commands.Posting.{over_limit}
use gonewsd.Nntp.Wire.{count_post_lines, count_onto}

-- The message without its CRs.
abbrev pub without_cr : Bytes → Bytes
without_cr [] = []
without_cr (c ∷ s) = let rest = without_cr s in if c == b'\r' then rest else c ∷ rest

over_limit_mono : (l : ℤ) (m n : ℕ) → m ≤ n → over_limit l m ≡ true → over_limit l n ≡ true
over_limit_mono (pos k) m n h o = ground arith
over_limit_mono (negsuc k) m n h o = o

-- The lines that are counted behind some bytes without CR.
pub count_through : ℕ → ℕ → Bytes → ℕ
count_through k n [] = n
count_through k n (c ∷ s) =
    let full = ltb 80 (k + 1) || c == b'\n' in
    count_through (if full then 0 else k + 1) (if full then n + 1 else n) s

count_through-le : (k n : ℕ) (s : Bytes) → n ≤ count_through k n s
unfolding count_through
count_through-le k n [] = omega arith
count_through-le k n (c ∷ s) =
    let full = ltb 80 (k + 1) || c == b'\n' in
    grind (arith, count_through-le (if full then 0 else k + 1) (if full then n + 1 else n) s)

keep_byte-count :
    (l : ℤ) (r : Reading) (c : ℕ)
    → ((keep_byte l r c).linechars ≡ r.linechars)
      × ((keep_byte l r c).linecount ≡ r.linecount)
      × ((keep_byte l r c).toolong ≡ (r.toolong || over_limit l r.linecount))
keep_byte-count l r c = ground arith

over_through :
    (l : ℤ) (k n : ℕ) (t : Bytes)
    → (over_limit l n || (not (is_empty t) && over_limit l (count_through k n t)))
      ≡ over_limit l (count_through k n t)
unfolding count_through
over_through l k n [] = ground arith
over_through l k n (c ∷ t) =
    let full = ltb 80 (k + 1) || c == b'\n' in
    ground (arith, over_limit_mono l n (count_through k n (c ∷ t)) (count_through-le k n (c ∷ t)))

or_assoc : (a b c : Bool) → ((a || b) || c) ≡ (a || (b || c))
or_assoc true b c = refl
or_assoc false b c = refl

-- The flag of the loop is the test of the last count.
pub read_mail-toolong :
    (l : ℤ) (s : Bytes) (r : Reading)
    → (read_mail l r s).toolong ≡ (
        r.toolong
        || (not (is_empty (without_cr s))
            && over_limit l (count_through r.linechars r.linecount (without_cr s))))
unfolding read_mail count_through
read_mail-toolong l [] r = ground arith
read_mail-toolong l (c ∷ s) r = elim (Bool-cases (c == b'\r')) [
  | inl e ↦ rw e (read_mail-toolong l s r)
  | inr e ↦ rw e (
      let q = count_byte r c in
      let (chars, count, flag) = keep_byte-count l q c in
      read_mail-toolong l s (keep_byte l q c)
      ∙ rw (flag, count, chars)
          (or_assoc r.toolong (over_limit l q.linecount) _
            ∙ ap (λ b. r.toolong || b) (over_through l q.linechars q.linecount (without_cr s))))
]

without_cr-newline : (s : Bytes) → without_cr (s ++ b'\n' ∷ []) ≡ without_cr s ++ b'\n' ∷ []
without_cr-newline [] = refl
without_cr-newline (c ∷ s) = ground (arith, without_cr-newline s)

count_through-newline :
    (s : Bytes) (k n : ℕ) → count_through k n (s ++ b'\n' ∷ []) ≡ count_onto k n (s ++ b'\n' ∷ [])
unfolding count_through count_onto
count_through-newline [] k n = ground arith
count_through-newline (c ∷ s) k n =
    let full = ltb 80 (k + 1) || c == b'\n' in
    count_through-newline s (if full then 0 else k + 1) (if full then n + 1 else n)

is_empty-newline : (s : Bytes) → is_empty (s ++ b'\n' ∷ []) ≡ false
is_empty-newline [] = refl
is_empty-newline (c ∷ s) = refl

-- The gateway takes a message that ends a line for too long exactly if `POST` does: by the lines
-- that `countPostLines` counts in it without its CRs.
pub read_mail-count_post_lines :
    (l : ℤ) (front s : Bytes)
    → (read_mail l (new_reading front) (s ++ b'\n' ∷ [])).toolong
      ≡ over_limit l (count_post_lines (without_cr (s ++ b'\n' ∷ [])))
unfolding count_post_lines
read_mail-count_post_lines l front s =
    read_mail-toolong l (s ++ b'\n' ∷ []) (new_reading front)
    ∙ rw
        (
          without_cr-newline s,
          is_empty-newline (without_cr s),
          count_through-newline (without_cr s) 0 0,
        )
        refl
