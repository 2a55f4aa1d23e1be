-- ===== src/Nntp/Wire.antt =====
-- internal/nntp/server.go: bytes from the connection, and bytes that are logged.
-- The connection is the list of bytes that the client has still to send; at its end a read fails.
pub mod Posting
pub mod Counting
pub mod Consuming
use gonewsd.Prelude.{
  ℕ, zero, suc, ◌+◌, ◌-◌, ◌*◌, ◌/◌, ◌%◌, Bool, true, false, not, ◌&&◌, ◌||◌, List, [], ◌∷◌, ◌++◌,
  Option, none, some, ◌==◌, leb, ltb, if◌then◌else◌, length, take, Bytes, str,
}

-- `fmt.Sprintf("%02x", …)` of a byte
abbrev hex_digit : ℕ → ℕ
hex_digit n = if ltb n 10 then b'0' + n else b'a' + (n - 10)

encode_byte : ℕ → Bytes
encode_byte c =
    if leb 0x20 c && leb c 0x7e
    then c ∷ []
    else str "<0x" ++ (hex_digit (c / 16) ∷ hex_digit (c % 16) ∷ str ">")

unfoldable pub ascii_hex_encode : Bytes → Bytes
unfolding encode_byte
ascii_hex_encode [] = []
ascii_hex_encode (c ∷ s) = encode_byte c ++ ascii_hex_encode s

unfoldable pub truncate_for_log : Bytes → ℕ → Bytes
unfolding ascii_hex_encode
truncate_for_log s n = ascii_hex_encode (if ltb n (length s) then take n s else s)

-- The end of a read: a line with the input behind it, or the end of the input.
pub data Read : Type 0 where
  got : Bytes → Bytes → Read
  eof : Bytes → Read

-- What follows a CR is consumed whatever it is.
after_cr : Bytes → Bytes → Read
after_cr line [] = eof line
after_cr line (_ ∷ input) = got line input

abbrev max_line : ℕ
max_line = 4096

-- `room` is what is left of `maxLine`.
read_line_onto : ℕ → Bytes → Bytes → Read
unfolding after_cr
read_line_onto zero line input = got line input
read_line_onto (suc room) line [] = eof line
read_line_onto (suc room) line (c ∷ input) =
    let rest = read_line_onto room (line ++ c ∷ []) input in
    if c == b'\n' then got line input else if c == b'\r' then after_cr line input else rest

unfoldable pub read_line_raw : Bytes → Read
unfolding read_line_onto
read_line_raw input = read_line_onto max_line [] input

-- `postReadMode`
pub data Mode : Type 0 where
  normal crlf crlf_dot : Mode

abbrev pub max_post_size : ℕ
max_post_size = 10485760

pub data Body : Type 0 where
  complete : Bytes → Bytes → Body
  broken : Bytes → Body
  too_large : Bytes → Body

-- One byte, with the message as it is so far: to go on in a mode, or to stop.
pub data Turn : Type 0 where
  go : Mode → Bytes → Turn
  stop : Turn

post_byte : Mode → Bytes → ℕ → Turn
post_byte mode msg c =
    if c == b'\r'
    then go mode msg
    else if c == b'\n'
    then elim mode [ crlf_dot ↦ stop | _ ↦ go crlf (msg ++ b'\n' ∷ []) ]
    else if c == b'.'
    then elim mode [ crlf ↦ go crlf_dot msg | _ ↦ go normal (msg ++ b'.' ∷ []) ]
    else go normal (msg ++ c ∷ [])

next_turn : Bytes → Bytes → (Mode → Bytes → Body) → Turn → Body
next_turn msg input next (go mode msg') = next mode msg'
next_turn msg input next stop = complete msg input

read_post_onto : Mode → Bytes → Bytes → Body
unfolding post_byte next_turn
read_post_onto mode msg [] = broken msg
read_post_onto mode msg (c ∷ input) =
    let rest = next_turn msg input (λ m t. read_post_onto m t input) (post_byte mode msg c) in
    if ltb max_post_size (length msg) then too_large input else rest

unfoldable pub read_post_body_raw : Bytes → Body
unfolding read_post_onto
read_post_body_raw input = read_post_onto normal [] input

-- `countPostLines`: a line counts once for each 81 bytes, and once for its end.
unfoldable pub count_onto : ℕ → ℕ → Bytes → ℕ
count_onto linechars linecount [] = if ltb 0 linechars then linecount + 1 else linecount
count_onto linechars linecount (c ∷ msg) =
    let full = ltb 80 (linechars + 1) || c == b'\n' in
    count_onto (if full then 0 else linechars + 1) (if full then linecount + 1 else linecount) msg

unfoldable pub count_post_lines : Bytes → ℕ
unfolding count_onto
count_post_lines msg = count_onto 0 0 msg
