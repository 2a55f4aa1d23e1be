-- ===== src/Text/Scan.antt =====
-- `fmt.Sscanf`, for the verbs and the literal text that the source's formats have.
pub mod RoundTrip
use gonewsd.Prelude.{
  ℕ, zero, suc, ◌+◌, ◌-◌, ◌*◌, ◌≤◌, ◌<◌, ◌≡◌, refl, Bool, true, false, not, ◌&&◌, ◌||◌, List, [],
  ◌∷◌, ◌++◌, Option, none, some, arith, leb, ltb, ◌==◌, if◌then◌else◌, is_empty, length, take, drop,
  Bytes,
}
use gonewsd.Prelude.Int.{ℤ, pos, negsuc}
use gonewsd.Text.Decimal.{is_digit, parse_uint, two64}
use gonewsd.Text.Strings.{is_space, trim_left}

-- the longest run of digits at the front, and what stands behind it
unfoldable pub span_digits : Bytes → Bytes × Bytes
span_digits [] = ([], [])
span_digits (c ∷ s) =
    let (ds, rest) = span_digits s in if is_digit c then (c ∷ ds, rest) else ([], c ∷ s)

abbrev pub read_number : Bytes × Bytes → Option (ℕ × Bytes)
read_number (ds, rest) = elim (parse_uint ds) [ none ↦ none | some n ↦ some (n, rest) ]

-- `%d` into a `uint64`: spaces are skipped, then digits are read.
unfoldable pub scan_uint : Bytes → Option (ℕ × Bytes)
scan_uint s = read_number (span_digits (trim_left is_space s))

-- literal text of a format, without spaces
unfoldable pub scan_literal : Bytes → Bytes → Option Bytes
scan_literal [] s = some s
scan_literal (l ∷ ls) [] = none
scan_literal (l ∷ ls) (c ∷ s) = let rest = scan_literal ls s in if l == c then rest else none

-- A space of a format takes one space or more of the text, or stands at its end.
unfoldable pub scan_space : Bytes → Option Bytes
scan_space [] = some []
scan_space (c ∷ s) = if is_space c then some (trim_left is_space s) else none

infixl 5 ◌>>=◌
abbrev pub ◌>>=◌ {ℓ κ} : {A : Type ℓ} {B : Type κ} → Option A → (A → Option B) → Option B
none >>= f = none
some a >>= f = f a

-- `Sscanf(line, "<key> %d", &n)`
unfoldable pub scan_key_uint : Bytes → Bytes → Option ℕ
scan_key_uint key line = do
  s ← scan_literal key line
  t ← scan_space s
  (n, _) ← scan_uint t
  some n

-- the bytes up to the next space, and what stands behind them
span_word : Bytes → Bytes × Bytes
span_word [] = ([], [])
span_word (c ∷ s) = let (w, rest) = span_word s in if is_space c then ([], c ∷ s) else (c ∷ w, rest)

-- `%s`: spaces are skipped, then the bytes up to the next space are read, one at least.
unfoldable pub scan_word : Bytes → Option (Bytes × Bytes)
unfolding is_space trim_left span_word
scan_word s =
    let (w, rest) = span_word (trim_left is_space s) in if is_empty w then none else some (w, rest)

-- `%d` into an `int`: a sign may stand in front, and the number has to fit into 64 bits.
unfoldable pub signed : Bool → ℕ → Option ℤ
signed true zero = some (pos 0)
signed true (suc n) = if ltb n 9223372036854775808 then some (negsuc n) else none
signed false n = if ltb n 9223372036854775808 then some (pos n) else none

unfoldable pub scan_magnitude : Bool → Bytes → Option ℤ
unfolding span_digits signed
scan_magnitude negative s =
    let (ds, _) = span_digits s in elim (parse_uint ds) [ none ↦ none | some n ↦ signed negative n ]

unfoldable pub scan_signed : Bytes → Option ℤ
unfolding scan_magnitude
scan_signed [] = none
scan_signed (c ∷ s) =
    if c == b'-'
    then scan_magnitude true s
    else if c == b'+'
    then scan_magnitude false s
    else scan_magnitude false (c ∷ s)

-- `Sscanf(line, "<key> %d", &n)` of an `int`
unfoldable pub scan_key_int : Bytes → Bytes → Option ℤ
unfolding scan_literal scan_space scan_signed is_space trim_left
scan_key_int key line = do
  s ← scan_literal key line
  t ← scan_space s
  scan_signed (trim_left is_space t)

-- `Sscanf(line, "<key> %s", &s)`
unfoldable pub scan_key_word : Bytes → Bytes → Option Bytes
unfolding scan_literal scan_space scan_word
scan_key_word key line = do
  s ← scan_literal key line
  t ← scan_space s
  (w, _) ← scan_word t
  some w

-- `strconv.Atoi`, whose error the source drops: a text that is no number gives 0, and a number that
-- does not fit gives the nearest one that does.
clamp : Bool → ℕ → ℤ
clamp true zero = pos 0
clamp true (suc n) = if ltb n 9223372036854775808 then negsuc n else negsuc 9223372036854775807
clamp false n = if ltb n 9223372036854775808 then pos n else pos 9223372036854775807

-- The digits of `ParseUint`, which stops where the number leaves 64 bits.
magnitude : ℕ → Bytes → Option ℕ
magnitude n [] = some n
magnitude n (c ∷ s) =
    let m = n * 10 + (c - b'0') in
    let rest = magnitude m s in
    if not (is_digit c) then none else if leb two64 m then some two64 else rest

atoi_digits : Bool → Bytes → ℤ
unfolding clamp magnitude is_digit
atoi_digits negative s = elim (if is_empty s then none else magnitude 0 s) [
  | none ↦ pos 0
  | some n ↦ clamp negative n
]

unfoldable pub atoi : Bytes → ℤ
unfolding atoi_digits
atoi [] = pos 0
atoi (c ∷ s) =
    if c == b'-'
    then atoi_digits true s
    else if c == b'+'
    then atoi_digits false s
    else atoi_digits false (c ∷ s)

-- the sign in front of a number, if there is one
abbrev span_sign : Bytes → Bytes × Bytes
span_sign [] = ([], [])
span_sign (c ∷ r) = if c == b'-' || c == b'+' then (c ∷ [], r) else ([], c ∷ r)

abbrev with_sign : Bytes → ℕ → ℤ
with_sign [] n = pos n
with_sign (c ∷ _) zero = pos zero
with_sign (c ∷ _) (suc n) = if c == b'-' then negsuc n else pos (suc n)

-- `%<w>d`: at most `w` bytes are read.
unfoldable pub scan_int_width : ℕ → Bytes → Option (ℤ × Bytes)
unfolding span_digits
scan_int_width w s =
    let (signs, t) = span_sign (take w s) in
    let (ds, _) = span_digits t in
    elim (parse_uint ds) [
      | none ↦ none
      | some n ↦ some (with_sign signs n, drop (length signs + length ds) s)
    ]
