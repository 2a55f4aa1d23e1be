-- ===== src/Text/Scanner.antt =====
-- `bufio.Scanner` over a file: its lines, and whether it came to the end of the file. A line of
-- 65536 bytes or more fills the buffer and stops it, under both buffers that the source uses.
use gonewsd.Prelude.{
  ◌+◌, ◌≤◌, ◌≡◌, refl, ◌∙◌, Bool, true, false, ◌&&◌, List, [], ◌∷◌, ◌++◌, arith, ◌==◌, leb,
  if◌then◌else◌, is_empty, length, length-append, Bytes, All, append_assoc, append-nil,
}
use gonewsd.Text.Strings.{contains_byte, Lacks}

-- `dropCR`: one CR at the end is dropped.
unfoldable pub drop_cr : Bytes → Bytes
drop_cr [] = []
drop_cr (c ∷ s) = let rest = drop_cr s in if is_empty s && c == b'\r' then [] else c ∷ rest

pub record Scanned : Type 0 where
  pub lines : List Bytes
  pub complete : Bool

abbrev and_then : Bytes → Scanned → Scanned
and_then l s = record { lines = l ∷ s.lines; complete = s.complete }

unfoldable pub scan_onto : Bytes → Bytes → Scanned
unfolding drop_cr
scan_onto line [] = record {
  lines = if is_empty line then [] else drop_cr line ∷ [];
  complete = true;
}
scan_onto line (c ∷ s) =
    let next = and_then (drop_cr line) (scan_onto [] s) in
    let on = scan_onto (line ++ c ∷ []) s in
    if c == b'\n'
    then next
    else if leb 65535 (length line)
    then record { lines = []; complete = false }
    else on

unfoldable pub scan_lines : Bytes → Scanned
unfolding scan_onto
scan_lines content = scan_onto [] content

drop_cr-Lacks : (s : Bytes) → Lacks b'\r' s → drop_cr s ≡ s
unfolding drop_cr contains_byte
drop_cr-Lacks [] h = refl
drop_cr-Lacks (c ∷ s) h = ground (arith, drop_cr-Lacks s)

-- The text of some lines: each is ended by a newline, as `fmt.Fprintln` writes it.
abbrev pub render_lines : List Bytes → Bytes
render_lines [] = []
render_lines (l ∷ ls) = l ++ (b'\n' ∷ render_lines ls)

-- A line holds no byte that ends one.
abbrev pub IsLine : Bytes → Type 0
IsLine l = Lacks b'\n' l × Lacks b'\r' l

-- A line that the scanner can hold.
abbrev pub IsShortLine : Bytes → Type 0
IsShortLine l = Lacks b'\n' l × Lacks b'\r' l × (length l ≤ 65535)

scan_onto-line :
    (l line rest : Bytes)
    → Lacks b'\n' l
    → length line + length l ≤ 65535
    → scan_onto line (l ++ rest) ≡ scan_onto (line ++ l) rest
unfolding scan_onto contains_byte
scan_onto-line [] line rest h k = rw append-nil refl
scan_onto-line (c ∷ l) line rest h k = ground (
  arith,
  scan_onto-line l (line ++ c ∷ []) rest,
  append_assoc line (c ∷ []) l,
  length-append line (c ∷ []),
)

-- The scanner gives back lines that were written one by one.
pub scan_lines-render_lines :
    (ls : List Bytes)
    → All IsShortLine ls
    → scan_lines (render_lines ls) ≡ record { lines = ls; complete = true }
unfolding scan_lines scan_onto
scan_lines-render_lines [] h = refl
scan_lines-render_lines (l ∷ ls) ((n, r, k), t) =
    scan_onto-line l [] (b'\n' ∷ render_lines ls) n (omega arith)
    ∙ rw (drop_cr-Lacks l r, scan_lines-render_lines ls t) refl
