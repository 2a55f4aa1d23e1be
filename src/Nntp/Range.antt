-- ===== src/Nntp/Range.antt =====
-- `parseArticleRange` of internal/nntp/server.go, and what the clamping promises.
use gonewsd.Prelude.{
  ℕ, ◌≤◌, ◌<◌, ◌≡◌, refl, ◌∙◌, true, false, [], ◌∷◌, ◌++◌, Option, none, some, ◌==◌, ltb, arith,
  if◌then◌else◌, Bytes,
}
use gonewsd.Text.Decimal.{is_digit, format_uint, two64}
use gonewsd.Text.Scan.{scan_uint}
use gonewsd.Text.Scan.RoundTrip.{scan_uint-format_uint, scan_uint-format_uint_end}
use gonewsd.Text.Strings.{contains_byte}

-- The literal `-` of a format, and the number behind it.
abbrev scan_dash_uint : Bytes → Option (ℕ × Bytes)
scan_dash_uint [] = none
scan_dash_uint (c ∷ s) = let n = scan_uint s in if c == b'-' then n else none

-- `Sscanf(rangeStr, "%d-%d", …)`, and `Sscanf(rangeStr, "%d-", …)` if that reads one number only.
abbrev scan_range : Bytes → ℕ → ℕ → ℕ → ℕ × ℕ
scan_range s g_end sart eart = elim (scan_uint s) [
  | none ↦ (sart, eart)
  | some (a, rest) ↦ elim (scan_dash_uint rest) [ some (b, _) ↦ (a, b) | none ↦ (a, g_end) ]
]

-- `%d` alone; a text that is no number leaves 0.
abbrev scan_single : Bytes → ℕ × ℕ
scan_single s = elim (scan_uint s) [ none ↦ (0, 0) | some (n, _) ↦ (n, n) ]

abbrev clamp_to : ℕ → ℕ → ℕ → ℕ
clamp_to lo hi n = let m = if ltb n lo then lo else n in if ltb hi m then hi else m

unfoldable pub clamp_range : ℕ → ℕ → ℕ × ℕ → ℕ × ℕ
clamp_range g_start g_end (sart, eart) =
    let s = clamp_to g_start g_end sart in
    let e = clamp_to g_start g_end eart in if ltb e s then (e, e) else (s, e)

-- The new values of `*sart` and `*eart`.
unfoldable pub parse_article_range : Bytes → ℕ → ℕ → ℕ → ℕ → ℕ × ℕ
parse_article_range range_str g_start g_end sart eart = clamp_range g_start g_end (
    if contains_byte range_str b'-'
    then scan_range range_str g_end sart eart
    else scan_single range_str)

clamp_range-within :
    (g_start g_end : ℕ) (r : ℕ × ℕ)
    → g_start ≤ g_end
    → let (s, e) = clamp_range g_start g_end r in (g_start ≤ s) × (s ≤ e) × (e ≤ g_end)
unfolding clamp_range
clamp_range-within g_start g_end (a, b) h = ground arith

-- In a group whose first number is not above its last, whatever the text of a range is, the range
-- that comes out lies in the group and is not empty.
pub parse_article_range_within :
    (text : Bytes) (g_start g_end sart eart : ℕ)
    → g_start ≤ g_end
    → let (s, e) = parse_article_range text g_start g_end sart eart in
      (g_start ≤ s) × (s ≤ e) × (e ≤ g_end)
unfolding parse_article_range
parse_article_range_within text g_start g_end sart eart h = clamp_range-within g_start g_end _ h

has_dash : (s t : Bytes) → contains_byte (s ++ (b'-' ∷ t)) b'-' ≡ true
unfolding contains_byte
has_dash [] t = refl
has_dash (c ∷ s) t = ground (arith, has_dash s t)

parse_dashed :
    (text : Bytes) (n m g_start g_end sart eart : ℕ) (rest more : Bytes)
    → contains_byte text b'-' ≡ true
    → scan_uint text ≡ some (n, b'-' ∷ rest)
    → scan_uint rest ≡ some (m, more)
    → parse_article_range text g_start g_end sart eart ≡ clamp_range g_start g_end (n, m)
unfolding parse_article_range
parse_dashed text n m g_start g_end sart eart rest more d e f = ground arith

clamp_range_inside :
    (n m g_start g_end : ℕ)
    → g_start ≤ n
    → n ≤ m
    → m ≤ g_end
    → clamp_range g_start g_end (n, m) ≡ (n, m)
unfolding clamp_range
clamp_range_inside n m g_start g_end h k l = ground arith

-- A range of two numbers of the group, in order, is read as it is written.
pub parse_article_range-format_uint :
    (n m g_start g_end sart eart : ℕ)
    → g_start ≤ n
    → n ≤ m
    → m ≤ g_end
    → g_end < two64
    → parse_article_range (format_uint n ++ (b'-' ∷ format_uint m)) g_start g_end sart eart ≡ (n, m)
parse_article_range-format_uint n m g_start g_end sart eart h k l b =
    let dash : is_digit b'-' ≡ false = unfold is_digit in refl in
    parse_dashed _ n m g_start g_end sart eart (format_uint m) []
      (has_dash (format_uint n) (format_uint m))
      (scan_uint-format_uint n (b'-' ∷ format_uint m) (omega arith) dash)
      (scan_uint-format_uint_end m (omega arith))
    ∙ clamp_range_inside n m g_start g_end h k l
