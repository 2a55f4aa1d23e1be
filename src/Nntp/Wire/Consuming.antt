-- ===== src/Nntp/Wire/Consuming.antt =====
-- What a read consumes of the input.
use gonewsd.Prelude.{ℕ, zero, suc, ◌≤◌, ◌≡◌, refl, [], ◌∷◌, ◌++◌, arith, length, Bytes}
use gonewsd.Nntp.Wire.{
  Read, got, eof, after_cr, read_line_onto, read_line_raw, Mode, normal, Body, complete, broken,
  too_large, Turn, go, stop, post_byte, next_turn, read_post_onto, read_post_body_raw,
}

-- What a read leaves of the input.
abbrev pub left : Read → ℕ
left (got _ input) = length input
left (eof _) = 0

after_cr-left : (line input : Bytes) → left (after_cr line input) ≤ length input
unfolding after_cr
after_cr-left line [] = omega arith
after_cr-left line (c ∷ input) = omega arith

read_line_onto-left :
    (room : ℕ) (line input : Bytes) → left (read_line_onto room line input) ≤ length input
unfolding read_line_onto
read_line_onto-left zero line input = omega arith
read_line_onto-left (suc room) line [] = omega arith
read_line_onto-left (suc room) line (c ∷ input) =
    ground (arith, read_line_onto-left room (line ++ c ∷ []) input, after_cr-left line input)

read_line_onto-takes :
    (room : ℕ) (line : Bytes) (c : ℕ) (input : Bytes)
    → left (read_line_onto (suc room) line (c ∷ input)) ≤ length input
unfolding read_line_onto
read_line_onto-takes room line c input =
    ground (arith, read_line_onto-left room (line ++ c ∷ []) input, after_cr-left line input)

pub read_line_raw-nil : read_line_raw [] ≡ eof []
unfolding read_line_raw read_line_onto
read_line_raw-nil = refl

pub read_line_raw-left : (c : ℕ) (input : Bytes) → left (read_line_raw (c ∷ input)) ≤ length input
unfolding read_line_raw
read_line_raw-left c input = read_line_onto-takes 4095 [] c input

abbrev pub body_left : Body → ℕ
body_left (complete _ input) = length input
body_left (broken _) = 0
body_left (too_large input) = length input

next_turn-left :
    (msg input : Bytes) (next : Mode → Bytes → Body)
    → ((mode : Mode) (msg' : Bytes) → body_left (next mode msg') ≤ length input)
    → (turn : Turn) → body_left (next_turn msg input next turn) ≤ length input
unfolding next_turn
next_turn-left msg input next h (go mode msg') = h mode msg'
next_turn-left msg input next h stop = omega arith

read_post_onto-left :
    (mode : Mode) (msg input : Bytes) → body_left (read_post_onto mode msg input) ≤ length input
unfolding read_post_onto
read_post_onto-left mode msg [] = omega arith
read_post_onto-left mode msg (c ∷ input) = ground (
  arith,
  next_turn-left msg input (λ m t. read_post_onto m t input) (λ m t. read_post_onto-left m t input)
      (post_byte mode msg c),
)

pub read_post_body_raw-left : (input : Bytes) → body_left (read_post_body_raw input) ≤ length input
unfolding read_post_body_raw
read_post_body_raw-left input = read_post_onto-left normal [] input
