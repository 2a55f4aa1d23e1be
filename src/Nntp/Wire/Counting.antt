-- ===== src/Nntp/Wire/Counting.antt =====
-- `countPostLines` counts a line once, and once more for each 81 bytes of it.
use gonewsd.Prelude.{
  ℕ, ◌+◌, ◌/◌, ◌%◌, ◌≤◌, ◌≡◌, ◌∙◌, List, [], ◌∷◌, ◌++◌, arith, length, Bytes, All,
}
use gonewsd.Text.Strings.{contains_byte, Lacks}
use gonewsd.Text.Scanner.{render_lines}
use gonewsd.Nntp.Wire.{count_onto, count_post_lines}

abbrev pub counted_lines : List Bytes → ℕ
counted_lines [] = 0
counted_lines (l ∷ ls) = length l / 81 + 1 + counted_lines ls

count_onto-line :
    (l rest : Bytes) (k n : ℕ)
    → Lacks b'\n' l
    → k ≤ 80
    → count_onto k n (l ++ rest) ≡ count_onto ((k + length l) % 81) (n + (k + length l) / 81) rest
unfolding count_onto contains_byte
count_onto-line [] rest k n h b = ground arith
count_onto-line (c ∷ l) rest k n h b =
    ground (arith, count_onto-line l rest (k + 1) n, count_onto-line l rest 0 (n + 1))

count_onto-render_lines :
    (ls : List Bytes) (n : ℕ)
    → All (Lacks b'\n') ls
    → count_onto 0 n (render_lines ls) ≡ n + counted_lines ls
unfolding count_onto
count_onto-render_lines [] n h = omega arith
count_onto-render_lines (l ∷ ls) n (h, t) =
    count_onto-line l (b'\n' ∷ render_lines ls) 0 n h (omega arith)
    ∙ ground (arith, count_onto-render_lines ls (n + length l / 81 + 1) t)

-- The count of a message of lines that are each ended by a newline: each line counts once, and once
-- more for each 81 bytes of it.
count_post_lines-render_lines :
    (ls : List Bytes) → All (Lacks b'\n') ls → count_post_lines (render_lines ls) ≡ counted_lines ls
unfolding count_post_lines
count_post_lines-render_lines ls h = count_onto-render_lines ls 0 h ∙ omega arith
